-- ===== src/Cdp/Session/View.antt =====
-- pkg/cdp/session.go: the manager as a finite map from session ids to records.
use foxbridge.Common.{
  String, ◌≡◌, refl, inl, inr, Option, none, some, arith, Option-cases, string_key, nat_key, ◌==◌,
  if◌then◌else◌,
}
use foxbridge.Dict.{get, dict_laws}
use foxbridge.Heap.{heap_laws}
use foxbridge.Cdp.Session.{
  SessionInfo, SessionManager, add, remove, update_url, set_frame_id, set_frame_id_if_empty,
  write_found, get_session,
}
use foxbridge.Cdp.Session.Indices.{
  Op, adds, removes, updates_url, sets_frame, sets_frame_if_empty, apply, Reach, Reach-IsConsistent,
  IsConsistent,
}

abbrev pub View : Type 0
View = String → Option SessionInfo

abbrev pub rewritten : (SessionInfo → SessionInfo) → Option SessionInfo → Option SessionInfo
rewritten f none = none
rewritten f (some info) = some (f info)

-- What a method does to the finite map.
abbrev pub apply_view : View → Op → View
apply_view v (adds none) k = v k
apply_view v (adds (some info)) k = if info.session_id == k then some info else v k
apply_view v (removes s) k = if s == k then none else v k
apply_view v (updates_url s url) k =
    if s == k then rewritten (λ info. record info { url = url }) (v k) else v k
apply_view v (sets_frame s f) k =
    if s == k then rewritten (λ info. record info { frame_id = f }) (v k) else v k
apply_view v (sets_frame_if_empty s f) k =
    if s == k
    then rewritten (λ info. if info.frame_id == "" then record info { frame_id = f } else info)
        (v k)
    else v k

get_session-write_found :
    (sm : SessionManager) (s : String) (f : SessionInfo → SessionInfo) (k : String)
    → IsConsistent sm
    → get_session (write_found sm (get sm.sessions s) f) k
      ≡ (if s == k then rewritten f (get_session sm k) else get_session sm k)
unfolding get_session write_found
get_session-write_found sm s f k c = elim (Option-cases (get sm.sessions s)) [
  | inl e ↦ rw e (ground arith)
  | inr (p, e) ↦ rw e (grind (arith, heap_laws, c.sessions_in))
]

-- In every state reached from a new manager, each `Add` being given an id that is not in use, a
-- method that writes changes what Get returns as it changes the finite map: the
-- one entry that it names, and no other.
pub get_session-apply :
    {sm : SessionManager} (op : Op) (k : String)
    → Reach sm
    → get_session (apply sm op) k ≡ apply_view (get_session sm) op k
unfolding apply add remove get_session
get_session-apply {sm} (adds none) k r = refl
get_session-apply {sm} (adds (some info)) k r =
    let c = Reach-IsConsistent r in simp (dict_laws) (grind (arith, heap_laws, c.sessions_in))
get_session-apply {sm} (removes s) k r = grind (arith, dict_laws)
get_session-apply {sm} (updates_url s url) k r =
    unfold update_url in get_session-write_found sm s _ k (Reach-IsConsistent r)
get_session-apply {sm} (sets_frame s f) k r =
    unfold set_frame_id in get_session-write_found sm s _ k (Reach-IsConsistent r)
get_session-apply {sm} (sets_frame_if_empty s f) k r =
    unfold set_frame_id_if_empty in get_session-write_found sm s _ k (Reach-IsConsistent r)
