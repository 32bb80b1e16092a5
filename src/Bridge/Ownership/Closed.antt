-- ===== src/Bridge/Ownership/Closed.antt =====
-- pkg/bridge/ownership.go: a closed connection stays closed and owns nothing ever after.
use foxbridge.Common.{
  ℕ, String, ◌≡◌, ◌≢◌, Bool, true, false, List, [], ◌∷◌, Option, none, some, arith, nat_key,
  string_key,
}
use foxbridge.Dict.{Dict, get, get-put}
use foxbridge.Bridge.Ownership.{Registry, ConnectionState, PendingCreate, write_record}
use foxbridge.Bridge.Ownership.Connections.{
  zero_state, state, state_locked, set_discover, set_auto_attach, discover_enabled,
  auto_attach_enabled,
}
use foxbridge.Bridge.Ownership.Claims.{
  begin_create, finish_create, claim_record, claim_target, expire_claim, cancel_target,
}
use foxbridge.Bridge.Ownership.Register.{
  register_pair, insert_pair, register_worker, register_browser_session, settle, settled, used_up,
}
use foxbridge.Bridge.Ownership.Requests.{set_request_owner, clear_request, clear_requests}
use foxbridge.Bridge.Ownership.Queries.{owner_for_target, session_owned}
use foxbridge.Bridge.Ownership.Cleanup.{begin_cleanup, remove, close_open, close_connection}
use foxbridge.Bridge.Ownership.Steps.{
  Op, apply, run, states, sets_discover, sets_auto_attach, begins_create, finishes_create,
  claims_target, expires_claim, cancels_target, registers_pair, registers_worker,
  registers_browser_session, sets_request_owner, clears_request, clears_requests, begins_cleanup,
  removes, closes,
}

-- The connection has a state, and it is marked closed: `closeConnection` has run.
abbrev pub gone : Dict ℕ ConnectionState → ℕ → Bool
gone d c = elim (get d c) [ none ↦ false | some s ↦ s.closed ]

module _ (c : ℕ) (r : Registry) (h : gone r.connections c ≡ true) where
  gone-state_locked : (d : ℕ) → gone (state_locked r d).connections c ≡ true
  unfolding state_locked
  gone-state_locked d = ground (arith, get-put r.connections d zero_state c)

  pub gone-state : (conn : Option ℕ) → gone (state r conn).connections c ≡ true
  unfolding state
  gone-state none = h
  gone-state (some d) = gone-state_locked d

gone-set_discover :
    (c : ℕ) (r : Registry) (conn : Option ℕ) (on : Bool)
    → gone r.connections c ≡ true
    → gone (set_discover r conn on).connections c ≡ true
unfolding set_discover
gone-set_discover c r none on h = h
gone-set_discover c r (some d) on h = grind (arith, get-put)

gone-set_auto_attach :
    (c : ℕ) (r : Registry) (conn : Option ℕ) (on : Bool)
    → gone r.connections c ≡ true
    → gone (set_auto_attach r conn on).connections c ≡ true
unfolding set_auto_attach
gone-set_auto_attach c r none on h = h
gone-set_auto_attach c r (some d) on h = grind (arith, get-put)

gone-claim_record :
    (c : ℕ) (r : Registry) (claim : PendingCreate) (cancelled : Bool) (p : ℕ)
    → gone r.connections c ≡ true
    → gone (claim_record r claim cancelled p).connections c ≡ true
unfolding claim_record
gone-claim_record c r claim cancelled p h =
    ground
      (arith, gone-state c (write_record r p (λ t. record t { owner = claim.owner })) h claim.owner)

gone-claim_target :
    (c : ℕ) (r : Registry) (conn : Option ℕ) (t : String) (g : ℕ)
    → gone r.connections c ≡ true
    → gone (claim_target r conn t g).0.connections c ≡ true
unfolding claim_target
gone-claim_target c r conn t g h = grind (arith, gone-claim_record)

gone-settle :
    (c : ℕ) (r : Registry) (opener : Option ℕ) (t : String)
    → gone r.connections c ≡ true
    → gone (settle r opener t).0.connections c ≡ true
unfolding settle settled used_up
gone-settle c r opener t h = grind (arith, gone-state)

gone-close_connection :
    (c : ℕ) (r : Registry) (conn : Option ℕ)
    → gone r.connections c ≡ true
    → gone (close_connection r conn).0.connections c ≡ true
unfolding close_connection close_open
gone-close_connection c r none h = h
gone-close_connection c r (some d) h = grind (arith, get-put)

gone-apply :
    (c : ℕ) (r : Registry) (op : Op)
    → gone r.connections c ≡ true
    → gone (apply r op).connections c ≡ true
unfolding apply
gone-apply c r (states conn) h = gone-state c r h conn
gone-apply c r (sets_discover conn on) h = gone-set_discover c r conn on h
gone-apply c r (sets_auto_attach conn on) h = gone-set_auto_attach c r conn on h
gone-apply c r (begins_create conn) h = unfold begin_create in gone-state c r h conn
gone-apply c r (finishes_create g) h = unfold finish_create in h
gone-apply c r (claims_target conn t g) h = gone-claim_target c r conn t g h
gone-apply c r (expires_claim t g) h = unfold expire_claim in ground arith
gone-apply c r (cancels_target t) h = unfold cancel_target in ground arith
gone-apply c r (registers_pair opener pair ids) h =
    unfold register_pair insert_pair in gone-settle c r opener ids.page_target_id h
gone-apply c r (registers_worker opener t s j) h =
    unfold register_worker in gone-settle c r opener t h
gone-apply c r (registers_browser_session none s) h = unfold register_browser_session in h
gone-apply c r (registers_browser_session (some d) s) h =
    unfold register_browser_session in ground (arith, gone-state_locked c r h d)
gone-apply c r (sets_request_owner id s) h = unfold set_request_owner in ground arith
gone-apply c r (clears_request id) h = unfold clear_request in ground arith
gone-apply c r (clears_requests s) h = unfold clear_requests in h
gone-apply c r (begins_cleanup none) h = unfold begin_cleanup in h
gone-apply c r (begins_cleanup (some p)) h = unfold begin_cleanup in ground arith
gone-apply c r (removes none) h = unfold remove in h
gone-apply c r (removes (some p)) h = unfold remove in h
gone-apply c r (closes conn) h = gone-close_connection c r conn h

pub gone-run :
    (c : ℕ) (r : Registry) (ops : List Op)
    → gone r.connections c ≡ true
    → gone (run r ops).connections c ≡ true
unfolding run
gone-run c r [] h = h
gone-run c r (op ∷ ops) h = gone-run c (apply r op) ops (gone-apply c r op h)

pub close_connection-gone :
    (c : ℕ) (r : Registry) → gone (close_connection r (some c)).0.connections c ≡ true
unfolding close_connection close_open
close_connection-gone c r = grind (arith, get-put)

module _ (c : ℕ) (r : Registry) (h : gone r.connections c ≡ true) where
  pub gone-session_owned : (s : String) → s ≢ "" → session_owned r (some c) s ≡ false
  unfolding session_owned
  gone-session_owned s n = ground arith

  gone-owner_for_target : (t : String) → owner_for_target r t ≢ some c
  unfolding owner_for_target
  gone-owner_for_target t = ground arith

  gone-flags : (discover_enabled r (some c) ≡ false) × (auto_attach_enabled r (some c) ≡ false)
  unfolding discover_enabled auto_attach_enabled
  gone-flags = ground arith

-- Once `closeConnection` has run for a connection, then after any further history of calls, by any
-- goroutines in any order, the connection owns no session and no target, receives no discovery
-- events and no auto-attachments.
pub close_connection_final :
    (c : ℕ) (r : Registry) (ops : List Op) (s t : String)
    → s ≢ ""
    → let r' = run (close_connection r (some c)).0 ops in
      (session_owned r' (some c) s ≡ false)
      × (owner_for_target r' t ≢ some c)
      × (discover_enabled r' (some c) ≡ false)
      × (auto_attach_enabled r' (some c) ≡ false)
close_connection_final c r ops s t n =
    let r' = run (close_connection r (some c)).0 ops in
    let h = gone-run c (close_connection r (some c)).0 ops (close_connection-gone c r) in
    let (d, a) = gone-flags c r' h in
    (gone-session_owned c r' h s n, gone-owner_for_target c r' h t, d, a)
