-- ===== src/Lib.antt =====
-- Models of the JavaScript of KilnCMS: the hooks and modules of the Phoenix application's front end
-- (assets/js), the bridge for other front ends (priv/static) and the API client (clients/js/src).
--
-- The parts do not share state. The hooks are each handed events by the browser, by LiveView or by an
-- editor, keep a few variables, and act on the page; the page itself is read as it stands at an event,
-- and is therefore part of the event. liveness.js and connection_notice.js look at the same line: the
-- first decides when it is dead and builds it again, the second tells the visitor of it. The client
-- builds image URLs that the server checks with the same rules, sends requests, and reads the answers
-- through jsonapi.ts and errors.ts; webhooks.ts stands alone.
--
-- Files and what they model:
--
-- Liveness (assets/js/liveness.js): `Watch` holds the closure's variables, `step` each listener and
-- the tick of `watchTheLine`; `revive`, `ask`, `say` and `forget_the_ask` are the functions of these
-- names. An event reads the clock once.
-- ConnectionNotice (assets/js/connection_notice.js): `notice_for`, `check`, `show` and the timer, over
-- any history of looks at the page; `retry` is the button.
-- FocusTrap (assets/js/focus_trap.js): `innermost`, the wrap of Tab, and the listeners of a press of
-- Escape, in the order in which the DOM calls them. The document is a record of what `contains` and
-- `compareDocumentPosition` answer, with the laws of tree order.
-- TabKeys (assets/js/tab_keys.js): the keydown listener.
-- SlashMenu (assets/js/rich_text.js, `class SlashMenu`): its state, its keys and its ARIA attributes.
-- LinkPrompt (assets/js/rich_text.js): `safeHref`, with `new URL` as a parameter, and the prompt that
-- sets, inserts and removes links.
-- ListDetect (assets/js/list_detect.js): `markerOf`, `listRuns`, `listifySlice`. A node of the editor
-- and its `cut` are parameters.
-- MarkdownPaste (assets/js/markdown_paste.js): a paste that is converted by the server, its landing, and
-- the buttons Undo and "Paste as plain text". ProseMirror is a parameter: a document has a sequence
-- of tokens, not every sequence is a document's, and the laws are those that its documentation gives.
-- `History` traces the conversion that is offered back to the answer that it landed with.
-- FlashAutoDismiss (assets/js/flash_auto_dismiss.js): the variables and the one timer.
-- ReferencePicker (assets/js/reference_picker.js): `key`, `move`, `highlight`, `noteFocus` with its timer,
-- and `restoreFocus`.
-- Collab (assets/js/collab.js): `acquireDoc` and `release` for one topic, the awareness relay with
-- its answers to newcomers, and the promise `whenReady`.
-- AdvisoryJump (assets/js/advisory_jump.js): `textRange` and `locate`.
-- Transform (clients/js/src/transform.ts): options and errors, with `Ladder` (the sizes), `Ratio`
-- (aspect ratios), `Version` (the version pin), `Ops` (the canonical operations and paths) and
-- `Srcset`. Web Crypto's HMAC is a parameter.
-- Hooks (assets/js/app.js): `Presence` (`BlockPresence`, `InlineText`), `Terms` (`TermPicker`), `Inserter`
-- (`BlockInserter`), `Pointer` (`FocalPoint`, `PreviewCursors`, `MentionAutocomplete`) and `Frame`
-- (`PresentationFrame`, `UnsavedGuard`).
-- Bridge (priv/static/bridge.js): the live socket, its retries, and the URLs of the bridge.
-- SavedTicker (assets/js/saved_ticker.js): `savedLine`, and the hook that paints it.
-- Json: JSON values, and objects as lists of entries.
-- Errors (clients/js/src/errors.ts): `httpError` and its classes, `fieldErrors`, `parseRetryAfter`.
-- JsonApi (clients/js/src/jsonapi.ts): `flattenDocument`, `resolve`, and the query parameters.
-- Webhooks (clients/js/src/webhooks.ts): `verifyWebhook`, with the HMAC of Web Crypto as a parameter.
-- Generator (clients/js/src/generator.ts): `emitTypes`, with `Names` (names, keys and escapes).
-- Client (clients/js/src/client.ts): the transport (`send`, `request`, `write`, `sendBody`), with `Url` (its
-- encodings), `Reads` (`list`, `one`, `byIds`, the searches), `Delivery` (artifacts, previews, routing,
-- menus, forms, revisions, releases), `Media`, `Writes` (JSON:API writes and GraphQL) and `Sync`. A call
-- is a function of the state of the world, which a `Platform` acts on: `fetch`, the timer of `sleep`, the
-- clock, `JSON.parse` and `Date.parse` are its parameters. A client without a key, a server with records
-- and a server with a feed are hypotheses on that platform.
-- Prelude: Booleans, lists, options, text as UTF-16 code units, results with errors, sorting, and steps
-- round a ring. Tests: runs on concrete inputs.
--
-- Conventions. Times are milliseconds as natural numbers. A number of an option is whole, or it is one
-- that the checks refuse (`Num`); a focal point is in thousandths. `toLowerCase` is that of ASCII.
-- A document that is not of the type that the client casts it to reads as empty. Loops are structural
-- recursion. A decimal has as much fuel as its value, which has fewer digits than that; the loop of
-- `sync` has a number of pages as fuel, and the theorem on it says how much is enough; the hash of the
-- version pin keeps its `% 2 ^ 32`.
--
-- Not modelled: what only calls the DOM, LiveView, TipTap, Yjs, SortableJS, WebAuthn or the Push API;
-- Word's list paragraphs in list_detect.js; the rest of rich_text.js and of advisory_jump.js; the rest of
-- app.js; the overlay and the marks in the text of bridge.js; the service worker; the test in
-- markdown_paste.js that tells Markdown from prose; the command line of kiln-types; and the server, which
-- is in Elixir.
pub mod AdvisoryJump
pub mod Bridge
pub mod Client
pub mod Collab
pub mod ConnectionNotice
pub mod Errors
pub mod FlashAutoDismiss
pub mod FocusTrap
pub mod Generator
pub mod Hooks
pub mod Json
pub mod JsonApi
pub mod LinkPrompt
pub mod ListDetect
pub mod Liveness
pub mod MarkdownPaste
pub mod Prelude
pub mod ReferencePicker
pub mod SavedTicker
pub mod SlashMenu
pub mod TabKeys
pub mod Tests
pub mod Transform
pub mod Webhooks
