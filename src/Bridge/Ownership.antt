-- ===== src/Bridge/Ownership.antt =====
-- pkg/bridge/ownership.go: `ownershipRegistry`, which page belongs to which client. `r.mu` makes
-- each method atomic, so a method is one function on the registry. A connection is a number, a
-- pointer to a `targetRecord` or a `targetPair` is a number too, and `none` is nil.
pub mod Connections
pub mod Claims
pub mod Register
pub mod Queries
pub mod Requests
pub mod Cleanup
pub mod Steps
pub mod Closed
pub mod Handshake
pub mod Closing
pub mod Evolution
use foxbridge.Common.{ℕ, String, Bool, true, false, Option, none, some, ◌==◌}
use foxbridge.Dict.{Dict, empty}
use foxbridge.Common.{string_key, nat_key}
use foxbridge.Heap.{Heap, nothing, load, store}

pub data TargetLifecycle : Type 0 where
  target_open target_closing target_closed : TargetLifecycle

pub record TargetRecord : Type 0 where
  pub page_target_id : String
  pub tab_target_id : String
  pub page_session_id : String
  pub tab_session_id : String
  pub juggler_session_id : String
  pub owner : Option ℕ
  pub state : TargetLifecycle
  pub pair : Option ℕ
  pub cleaned : Bool
  pub cancelled : Bool

pub record ConnectionState : Type 0 where
  pub closed : Bool
  pub discover : Bool
  pub auto_attach : Bool

pub record PendingCreate : Type 0 where
  pub owner : Option ℕ
  pub generation : ℕ

-- `pending` and `claims` point to records that are never written to, so they hold the values.
pub record Registry : Type 0 where
  pub next_generation : ℕ
  pub connections : Dict ℕ ConnectionState
  pub targets : Dict String ℕ
  pub sessions : Dict String ℕ
  pub browser_sessions : Dict String ℕ
  pub pending : Dict ℕ PendingCreate
  pub claims : Dict String PendingCreate
  pub cancelled_targets : Dict String Bool
  pub request_owners : Dict String String
  pub records : Heap TargetRecord

abbrev pub zero_record : TargetRecord
zero_record = record {
  page_target_id = "";
  tab_target_id = "";
  page_session_id = "";
  tab_session_id = "";
  juggler_session_id = "";
  owner = none;
  state = target_open;
  pair = none;
  cleaned = false;
  cancelled = false;
}

unfoldable pub new_ownership_registry : Registry
new_ownership_registry = record {
  next_generation = 0;
  connections = empty;
  targets = empty;
  sessions = empty;
  browser_sessions = empty;
  pending = empty;
  claims = empty;
  cancelled_targets = empty;
  request_owners = empty;
  records = nothing zero_record;
}

-- The fields of `targetPair` (events.go) that the registry copies.
pub record PairIds : Type 0 where
  pub tab_session_id : String
  pub tab_target_id : String
  pub page_session_id : String
  pub page_target_id : String
  pub juggler_session_id : String

-- *p = f(*p)
abbrev pub write_record : Registry → ℕ → (TargetRecord → TargetRecord) → Registry
write_record r p f = record r { records = store r.records p (f (load r.records p)) }

-- Two pointers, or two connections, are the same.
abbrev pub same : Option ℕ → Option ℕ → Bool
same none none = true
same (some p) (some q) = p == q
same _ _ = false

abbrev pub is_open : TargetLifecycle → Bool
is_open target_open = true
is_open _ = false
