-- ===== src/Bridge/Pages/Frames.antt =====
-- pkg/bridge/events.go: the frames of a page.
use foxbridge.Common.{string_key, nat_key}
use foxbridge.Bridge.State.{State}
