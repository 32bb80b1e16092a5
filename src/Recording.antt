-- ===== src/Recording.antt =====
-- pkg/recording: a session's messages are written to a file, and played back to a client.
pub mod Capture
pub mod Replay
pub mod RoundTrip
use foxbridge.Common.{ℕ, String, Option}
use foxbridge.Cdp.Message.{Message}

-- `none` stands for a nil message.
pub record Entry : Type 0 where
  pub seq : ℕ
  pub direction : String
  pub message : Option Message
