-- ===== src/Bridge.antt =====
-- pkg/bridge: the translation between CDP clients and the browser backend.
pub mod Ownership
pub mod Dispatch
pub mod Fetch
pub mod Routing
pub mod Streams
pub mod Json
pub mod State
pub mod Deterministic
pub mod Attach
pub mod Contexts
pub mod Pages
pub mod Requests
pub mod Targets
pub mod Domains
pub mod Release
