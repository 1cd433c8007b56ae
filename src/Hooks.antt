-- ===== src/Hooks.antt =====
-- Hooks of assets/js/app.js that have a logic of their own.
pub mod Presence
pub mod Terms
pub mod Inserter
pub mod Pointer
pub mod Frame
