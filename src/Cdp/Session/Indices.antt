-- ===== src/Cdp/Session/Indices.antt =====
-- pkg/cdp/session.go: the three indices agree, in every state that the methods reach.
use foxbridge.Common.{
  ℕ, ◌<◌, String, ◌≡◌, refl, Option, none, some, arith, Option-cases, inl, inr, string_key, nat_key,
}
use foxbridge.Dict.{get, dict_laws, get-empty}
use foxbridge.Heap.{load, heap_laws}
use foxbridge.Cdp.Session.{
  SessionInfo, SessionManager, new_session_manager, add, remove, remove_found, update_url,
  set_frame_id, set_frame_id_if_empty, write_found, get_session, get_by_target,
  get_by_juggler_session, clone_found,
}

pub data Op : Type 0 where
  adds : Option SessionInfo → Op
  removes : String → Op
  updates_url sets_frame sets_frame_if_empty : String → String → Op

unfoldable pub apply : SessionManager → Op → SessionManager
apply sm (adds info) = add sm info
apply sm (removes s) = remove sm s
apply sm (updates_url s url) = update_url sm s url
apply sm (sets_frame s f) = set_frame_id sm s f
apply sm (sets_frame_if_empty s f) = set_frame_id_if_empty sm s f

-- A session is added under an id that is not in use. The bridge draws its ids from `uuid.New()`.
abbrev pub IsFresh : SessionManager → Op → Type 0
IsFresh sm (adds (some info)) = get sm.sessions info.session_id ≡ none
IsFresh sm _ = Unit {0}

pub data Reach : SessionManager → Type 0 where
  start : Reach new_session_manager
  step : {sm : SessionManager} (op : Op) → Reach sm → IsFresh sm op → Reach (apply sm op)

pub record IsConsistent (sm : SessionManager) : Type 0 where
  pub sessions_in :
      (k : String) (p : ℕ)
      → get sm.sessions k ≡ some p
      → (p < sm.infos.next) × ((load sm.infos p).session_id ≡ k)
  pub targets_in :
      (k : String) (p : ℕ)
      → get sm.targets k ≡ some p
      → ((load sm.infos p).target_id ≡ k) × (get sm.sessions (load sm.infos p).session_id ≡ some p)
  pub jugglers_in :
      (k : String) (p : ℕ)
      → get sm.juggler_sessions k ≡ some p
      → ((load sm.infos p).juggler_session_id ≡ k)
        × (get sm.sessions (load sm.infos p).session_id ≡ some p)

new-IsConsistent : IsConsistent new_session_manager
unfolding new_session_manager
new-IsConsistent = record {
  sessions_in = λ k p h. cc (get-empty {V = ℕ} k, h);
  targets_in = λ k p h. cc (get-empty {V = ℕ} k, h);
  jugglers_in = λ k p h. cc (get-empty {V = ℕ} k, h);
}

add-IsConsistent :
    (sm : SessionManager) (info : SessionInfo)
    → get sm.sessions info.session_id ≡ none
    → IsConsistent sm
    → IsConsistent (add sm (some info))
unfolding add
add-IsConsistent sm info fresh c = record {
  sessions_in = λ k p. simp (dict_laws, heap_laws) (ground (arith, c.sessions_in k p));
  targets_in = λ k p.
      simp (dict_laws, heap_laws)
        (grind (arith, dict_laws, heap_laws, c.targets_in k p, c.sessions_in));
  jugglers_in = λ k p.
      simp (dict_laws, heap_laws)
        (grind (arith, dict_laws, heap_laws, c.jugglers_in k p, c.sessions_in));
}

remove_found-IsConsistent :
    (sm : SessionManager) (s : String) (q : ℕ)
    → get sm.sessions s ≡ some q
    → IsConsistent sm
    → IsConsistent (remove_found sm s (some q))
unfolding remove_found
remove_found-IsConsistent sm s q found c = record {
  sessions_in = λ k p. simp (dict_laws) (ground (arith, c.sessions_in k p));
  targets_in = λ k p. simp (dict_laws) (ground (arith, c.targets_in k p));
  jugglers_in = λ k p. simp (dict_laws) (ground (arith, c.jugglers_in k p));
}

remove-IsConsistent :
    (sm : SessionManager) (s : String) → IsConsistent sm → IsConsistent (remove sm s)
unfolding remove
remove-IsConsistent sm s c = elim (Option-cases (get sm.sessions s)) [
  | inl e ↦ rw e c
  | inr (q, e) ↦ rw e (remove_found-IsConsistent sm s q e c)
]

-- A write that leaves the three ids of a record alone.
abbrev pub KeepsIds : (SessionInfo → SessionInfo) → Type 0
KeepsIds f =
    (i : SessionInfo)
    → ((f i).session_id ≡ i.session_id)
      × ((f i).target_id ≡ i.target_id)
      × ((f i).juggler_session_id ≡ i.juggler_session_id)

write_found-IsConsistent :
    (sm : SessionManager) (found : Option ℕ) (f : SessionInfo → SessionInfo)
    → KeepsIds f
    → IsConsistent sm
    → IsConsistent (write_found sm found f)
unfolding write_found
write_found-IsConsistent sm none f keeps c = c
write_found-IsConsistent sm (some q) f keeps c = record {
  sessions_in = λ k p. simp heap_laws (ground (arith, c.sessions_in k p, keeps (load sm.infos p)));
  targets_in = λ k p. simp heap_laws (ground (arith, c.targets_in k p, keeps (load sm.infos p)));
  jugglers_in = λ k p. simp heap_laws (ground (arith, c.jugglers_in k p, keeps (load sm.infos p)));
}

apply-IsConsistent :
    (sm : SessionManager) (op : Op) → IsFresh sm op → IsConsistent sm → IsConsistent (apply sm op)
unfolding apply add update_url set_frame_id set_frame_id_if_empty
apply-IsConsistent sm (adds none) fresh c = c
apply-IsConsistent sm (adds (some info)) fresh c = add-IsConsistent sm info fresh c
apply-IsConsistent sm (removes s) fresh c = remove-IsConsistent sm s c
apply-IsConsistent sm (updates_url s url) fresh c =
    write_found-IsConsistent sm _ _ (λ i. (refl, refl, refl)) c
apply-IsConsistent sm (sets_frame s f) fresh c =
    write_found-IsConsistent sm _ _ (λ i. (refl, refl, refl)) c
apply-IsConsistent sm (sets_frame_if_empty s f) fresh c =
    write_found-IsConsistent sm _ _ (λ i. ground arith) c

pub Reach-IsConsistent : {sm : SessionManager} → Reach sm → IsConsistent sm
Reach-IsConsistent start = new-IsConsistent
Reach-IsConsistent (step {sm} op r fresh) = apply-IsConsistent sm op fresh (Reach-IsConsistent r)

clone_found-eq-some :
    (sm : SessionManager) (found : Option ℕ) (info : SessionInfo)
    → clone_found sm found ≡ some info
    → (p : ℕ) × (found ≡ some p) × (info ≡ load sm.infos p)
unfolding clone_found
clone_found-eq-some sm none info h = cc
clone_found-eq-some sm (some p) info h = (p, refl, ground arith)

pub get_session-pointer :
    (sm : SessionManager) (k : String) (info : SessionInfo)
    → get_session sm k ≡ some info
    → (p : ℕ) × (get sm.sessions k ≡ some p) × (info ≡ load sm.infos p)
unfolding get_session
get_session-pointer sm k info h = clone_found-eq-some sm (get sm.sessions k) info h

pub get_by_target-indexed :
    {sm : SessionManager} (k : String) (info : SessionInfo)
    → IsConsistent sm
    → get_by_target sm k ≡ some info
    → (info.target_id ≡ k) × (get_session sm info.session_id ≡ some info)
unfolding get_by_target get_session
get_by_target-indexed {sm} k info c h =
    let (p, e, i) = clone_found-eq-some sm (get sm.targets k) info h in
    ground (arith, c.targets_in k p)

pub get_by_juggler_session-indexed :
    {sm : SessionManager} (k : String) (info : SessionInfo)
    → IsConsistent sm
    → get_by_juggler_session sm k ≡ some info
    → (info.juggler_session_id ≡ k) × (get_session sm info.session_id ≡ some info)
unfolding get_by_juggler_session get_session
get_by_juggler_session-indexed {sm} k info c h =
    let (p, e, i) = clone_found-eq-some sm (get sm.juggler_sessions k) info h in
    ground (arith, c.jugglers_in k p)

-- In every state that the methods reach from a new manager, each `Add` being given an id that is
-- not in use, what GetByTarget and GetByJugglerSession return is a record that Get returns for
-- its session id, and it carries the id that was asked for.
pub indices_agree :
    {sm : SessionManager} (k : String) (info : SessionInfo)
    → Reach sm
    → (get_by_target sm k ≡ some info
        → (info.target_id ≡ k) × (get_session sm info.session_id ≡ some info))
      × (get_by_juggler_session sm k ≡ some info
          → (info.juggler_session_id ≡ k) × (get_session sm info.session_id ≡ some info))
indices_agree k info r =
    let c = Reach-IsConsistent r in
    (get_by_target-indexed k info c, get_by_juggler_session-indexed k info c)
