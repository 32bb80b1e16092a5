-- ===== src/Tests.antt =====
-- The theorems at concrete inputs.
mod Sessions
mod Ownership
mod Dispatch
mod Recording
mod Fetch
mod Routing
mod Streams
mod Bridge
mod Events
mod Juggler
