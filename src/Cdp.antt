-- ===== src/Cdp.antt =====
-- pkg/cdp: the client side of the bridge.
pub mod Message
pub mod Session
