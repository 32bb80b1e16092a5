-- ===== src/Bridge/Ownership/Cleanup.antt =====
-- pkg/bridge/ownership.go: a page or a whole connection goes away.
use foxbridge.Common.{
  ℕ, String, Bool, true, false, not, ◌&&◌, ◌||◌, List, [], ◌∷◌, ◌++◌, Option, none, some, nat_key,
  string_key, is_some, ◌==◌, if◌then◌else◌,
}
use foxbridge.Dict.{Dict, empty, get, put, delete, delete_where, bindings}
use foxbridge.Heap.{Heap, load, store}
use foxbridge.Bridge.Ownership.{
  TargetRecord, ConnectionState, PendingCreate, Registry, TargetLifecycle, target_closing,
  target_closed, write_record, is_open, same,
}
use foxbridge.Bridge.Ownership.Connections.{state_locked}

abbrev pub is_closed : TargetLifecycle → Bool
is_closed target_closed = true
is_closed _ = false

unfoldable pub begin_cleanup : Registry → Option ℕ → Registry × Bool
begin_cleanup r none = (r, false)
begin_cleanup r (some p) =
    let t = load r.records p in
    if t.cleaned || is_closed t.state
    then (r, false)
    else (write_record r p (λ t. record t { state = target_closing; cleaned = true }), true)

-- if m[k] == record { delete(m, k) }
unfoldable pub delete_same : Dict String ℕ → String → ℕ → Dict String ℕ
delete_same m k p = if same (get m k) (some p) then delete m k else m

unfoldable pub remove : Registry → Option ℕ → Registry
unfolding delete_same
remove r none = r
remove r (some p) =
    let t = load r.records p in
    let targets = delete_same r.targets t.page_target_id p in
    let sessions = delete_same r.sessions t.page_session_id p in
    write_record
      (record r {
        targets =
            if not (t.tab_target_id == "") then delete_same targets t.tab_target_id p else targets;
        sessions =
            if not (t.tab_session_id == "")
            then delete_same sessions t.tab_session_id p
            else sessions;
      })
      p (λ t. record t { state = target_closed })

-- The loop over `r.claims`: a claim of the connection dooms its target.
unfoldable pub doom_claims : ℕ → Dict String Bool → List (String × PendingCreate) → Dict String Bool
doom_claims conn cancelled [] = cancelled
doom_claims conn cancelled ((target_id, claim) ∷ l) =
    doom_claims conn
      (if same claim.owner (some conn) then put cancelled target_id true else cancelled) l

-- The loop over `r.targets`, with its map `seen` and its slice `records`.
unfoldable pub disown :
    ℕ → Dict ℕ Bool → Heap TargetRecord → List ℕ → List (String × ℕ) → Heap TargetRecord × List ℕ
disown conn seen h records [] = (h, records)
disown conn seen h records ((k, p) ∷ l) =
    let t = load h p in
    let taken = same t.owner (some conn) && not (is_some (get seen p)) && is_open t.state in
    disown conn (if taken then put seen p true else seen)
      (if taken then store h p (record t { owner = none; state = target_closing }) else h)
      (if taken then records ++ p ∷ [] else records) l

abbrev is_marked_closed : Option ConnectionState → Bool
is_marked_closed none = false
is_marked_closed (some s) = s.closed

abbrev mark_closed : Dict ℕ ConnectionState → ℕ → Option ConnectionState → Dict ℕ ConnectionState
mark_closed d conn none = d
mark_closed d conn (some s) = put d conn (record s { closed = true })

-- What is left to do once the connection is known to have a state that is not closed.
unfoldable pub close_open : Registry → ℕ → Registry × List ℕ
unfolding doom_claims disown
close_open r conn =
    let (h, records) = disown conn empty r.records [] (bindings r.targets) in
    (
      record r {
        connections = mark_closed r.connections conn (get r.connections conn);
        pending = delete_where (λ g claim. same claim.owner (some conn)) r.pending;
        claims = delete_where (λ id claim. same claim.owner (some conn)) r.claims;
        cancelled_targets = doom_claims conn r.cancelled_targets (bindings r.claims);
        browser_sessions = delete_where (λ id owner. owner == conn) r.browser_sessions;
        records = h;
      },
      records,
    )

unfoldable pub close_connection : Registry → Option ℕ → Registry × List ℕ
unfolding state_locked
close_connection r none = (r, [])
close_connection r (some conn) =
    let r' = state_locked r conn in
    if is_marked_closed (get r'.connections conn) then (r', []) else close_open r' conn
