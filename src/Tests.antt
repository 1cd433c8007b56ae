-- ===== src/Tests.antt =====
-- Runs of the model on inputs of the repository's own tests, and the theorems at concrete inputs.
mod Transform
mod Notices
mod Keys
mod Lists
mod Hooks
mod Sharing
mod Pasting
mod Jump
mod Links
mod Answers
mod Bridge
mod Client
mod Generator
mod Editor
mod Ticker
