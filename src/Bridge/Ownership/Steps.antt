-- ===== src/Bridge/Ownership/Steps.antt =====
-- pkg/bridge/ownership.go: every method that changes the registry, as one step, and histories of
-- them. Locks make the methods atomic, so a history is any interleaving of the goroutines.
use foxbridge.Common.{ℕ, String, Bool, List, [], ◌∷◌, Option}
use foxbridge.Bridge.Ownership.{Registry, PairIds}
use foxbridge.Bridge.Ownership.Connections.{state, set_discover, set_auto_attach}
use foxbridge.Bridge.Ownership.Claims.{
  begin_create, finish_create, claim_target, expire_claim, cancel_target,
}
use foxbridge.Bridge.Ownership.Register.{register_pair, register_worker, register_browser_session}
use foxbridge.Bridge.Ownership.Requests.{set_request_owner, clear_request, clear_requests}
use foxbridge.Bridge.Ownership.Cleanup.{begin_cleanup, remove, close_connection}

pub data Op : Type 0 where
  states : Option ℕ → Op
  sets_discover sets_auto_attach : Option ℕ → Bool → Op
  begins_create : Option ℕ → Op
  finishes_create : ℕ → Op
  claims_target : Option ℕ → String → ℕ → Op
  expires_claim : String → ℕ → Op
  cancels_target : String → Op
  registers_pair : Option ℕ → ℕ → PairIds → Op
  registers_worker : Option ℕ → String → String → String → Op
  registers_browser_session : Option ℕ → String → Op
  sets_request_owner : String → String → Op
  clears_request clears_requests : String → Op
  begins_cleanup removes closes : Option ℕ → Op

unfoldable pub apply : Registry → Op → Registry
apply r (states conn) = state r conn
apply r (sets_discover conn on) = set_discover r conn on
apply r (sets_auto_attach conn on) = set_auto_attach r conn on
apply r (begins_create conn) = (begin_create r conn).0
apply r (finishes_create g) = finish_create r g
apply r (claims_target conn t g) = (claim_target r conn t g).0
apply r (expires_claim t g) = (expire_claim r t g).0
apply r (cancels_target t) = (cancel_target r t).0
apply r (registers_pair opener pair ids) = (register_pair r opener pair ids).0
apply r (registers_worker opener t s j) = (register_worker r opener t s j).0
apply r (registers_browser_session conn s) = register_browser_session r conn s
apply r (sets_request_owner id s) = set_request_owner r id s
apply r (clears_request id) = clear_request r id
apply r (clears_requests s) = clear_requests r s
apply r (begins_cleanup p) = (begin_cleanup r p).0
apply r (removes p) = remove r p
apply r (closes conn) = (close_connection r conn).0

unfoldable pub run : Registry → List Op → Registry
run r [] = r
run r (op ∷ ops) = run (apply r op) ops
