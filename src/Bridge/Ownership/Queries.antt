-- ===== src/Bridge/Ownership/Queries.antt =====
-- pkg/bridge/ownership.go: who owns a target or a session.
use foxbridge.Common.{
  ℕ, String, Bool, true, false, not, ◌&&◌, ◌||◌, List, [], ◌∷◌, ◌++◌, Option, none, some, nat_key,
  string_key, is_some, ◌==◌, if◌then◌else◌,
}
use foxbridge.Dict.{Dict, get, put, empty, bindings}
use foxbridge.Heap.{Heap, load}
use foxbridge.Bridge.Ownership.{TargetRecord, Registry, is_open, same}
use foxbridge.Bridge.Ownership.Connections.{connection_closed_locked}

-- The owner that an open record gives, if its connection is not closed.
abbrev pub live_owner : Registry → TargetRecord → Option ℕ
live_owner r t =
    if is_open t.state && not (connection_closed_locked r t.owner) then t.owner else none

abbrev owner_at : Registry → Option ℕ → Option ℕ
owner_at r none = none
owner_at r (some p) = live_owner r (load r.records p)

unfoldable pub owner_for_target : Registry → String → Option ℕ
unfolding connection_closed_locked
owner_for_target r target_id = owner_at r (get r.targets target_id)

unfoldable pub record_for_target : Registry → String → Option ℕ
record_for_target r target_id = get r.targets target_id

unfoldable pub record_for_session : Registry → String → Option ℕ
record_for_session r session_id = get r.sessions session_id

abbrev pub browser_owner : Registry → Option ℕ → Option ℕ
browser_owner r none = none
browser_owner r (some conn) =
    if not (connection_closed_locked r (some conn)) then some conn else none

abbrev pub session_owner_found : Registry → Option ℕ → Option ℕ → Option ℕ
session_owner_found r none browser = browser_owner r browser
session_owner_found r (some p) browser = live_owner r (load r.records p)

unfoldable pub session_owner : Registry → String → Option ℕ
unfolding connection_closed_locked
session_owner r session_id =
    if session_id == ""
    then none
    else session_owner_found r (get r.sessions session_id) (get r.browser_sessions session_id)

unfoldable pub session_owned : Registry → Option ℕ → String → Bool
unfolding session_owner
session_owned r conn session_id =
    if not (is_some conn) || session_id == "" then true else same (session_owner r session_id) conn

unfoldable pub is_browser_session : Registry → String → Bool
is_browser_session r session_id = is_some (get r.browser_sessions session_id)

unfoldable pub record_details : Registry → Option ℕ → Option ℕ × Option ℕ × Bool
record_details r none = (none, none, false)
record_details r (some p) = let t = load r.records p in (t.owner, t.pair, t.cancelled)

abbrev pair_of : Option ℕ → List ℕ → List ℕ
pair_of none pairs = pairs
pair_of (some pair) pairs = pairs ++ pair ∷ []

-- The loop of `ownedPairs` over `r.targets`, with its map `seen` and its slice `pairs`.
unfoldable pub collect_pairs :
    Heap TargetRecord → ℕ → Dict ℕ Bool → List ℕ → List (String × ℕ) → List ℕ
collect_pairs h conn seen pairs [] = pairs
collect_pairs h conn seen pairs ((k, p) ∷ l) =
    let t = load h p in
    let skip =
      is_some (get seen p)
      || not (same t.owner (some conn))
      || not (is_open t.state)
      || not (is_some t.pair) in
    collect_pairs h conn (if skip then seen else put seen p true)
      (if skip then pairs else pair_of t.pair pairs) l

unfoldable pub owned_pairs : Registry → Option ℕ → List ℕ
unfolding collect_pairs
owned_pairs r none = []
owned_pairs r (some conn) = collect_pairs r.records conn empty [] (bindings r.targets)
