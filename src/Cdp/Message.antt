-- ===== src/Cdp/Message.antt =====
-- pkg/cdp/types.go: a CDP request, response or event.
use foxbridge.Common.{ℕ, String, Option}

-- Go's int, in numbers and in error codes. `negsuc n` is -(n + 1).
pub data ℤ : Type 0 where
  pos : ℕ → ℤ
  negsuc : ℕ → ℤ

pub record Error : Type 0 where
  pub code : ℤ
  pub message : String

-- `none` stands for a nil `RawMessage` and for a nil `*Error`.
pub record Message : Type 0 where
  pub id : ℤ
  pub method : String
  pub params : Option String
  pub result : Option String
  pub error : Option Error
  pub session_id : String
