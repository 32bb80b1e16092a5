-- ===== src/Cdp/Session.antt =====
-- pkg/cdp/session.go: `SessionManager`, three indices over shared session records. `mu` makes
-- each method atomic, so a method is one function on the state.
pub mod Indices
pub mod View
pub mod Search
use foxbridge.Common.{
  ℕ, String, Bool, true, ◌&&◌, not, List, [], ◌∷◌, ◌++◌, Option, none, some, string_key, ◌==◌,
  is_some, if◌then◌else◌,
}
use foxbridge.Dict.{Dict, empty, get, put, delete, bindings}
use foxbridge.Heap.{Heap, nothing, load, store, alloc}

pub record SessionInfo : Type 0 where
  pub session_id : String
  pub juggler_session_id : String
  pub target_id : String
  pub browser_context_id : String
  pub url : String
  pub title : String
  pub type : String
  pub frame_id : String

abbrev pub zero_info : SessionInfo
zero_info = record {
  session_id = "";
  juggler_session_id = "";
  target_id = "";
  browser_context_id = "";
  url = "";
  title = "";
  type = "";
  frame_id = "";
}

pub record SessionManager : Type 0 where
  pub sessions : Dict String ℕ
  pub targets : Dict String ℕ
  pub juggler_sessions : Dict String ℕ
  pub infos : Heap SessionInfo

unfoldable pub new_session_manager : SessionManager
new_session_manager = record {
  sessions = empty;
  targets = empty;
  juggler_sessions = empty;
  infos = nothing zero_info;
}

-- The copy that `cloneSessionInfo` makes is a new cell of `infos`.
add_clone : SessionManager → SessionInfo → SessionManager
add_clone sm info =
    let p = sm.infos.next in
    record {
      sessions = put sm.sessions info.session_id p;
      targets = if not (info.target_id == "") then put sm.targets info.target_id p else sm.targets;
      juggler_sessions =
          if not (info.juggler_session_id == "")
          then put sm.juggler_sessions info.juggler_session_id p
          else sm.juggler_sessions;
      infos = alloc sm.infos info;
    }

-- `none` is a nil argument.
unfoldable pub add : SessionManager → Option SessionInfo → SessionManager
unfolding add_clone
add sm none = sm
add sm (some info) = add_clone sm info

unfoldable pub remove_found : SessionManager → String → Option ℕ → SessionManager
remove_found sm session_id none = sm
remove_found sm session_id (some p) =
    let info = load sm.infos p in
    record sm {
      targets = delete sm.targets info.target_id;
      juggler_sessions = delete sm.juggler_sessions info.juggler_session_id;
      sessions = delete sm.sessions session_id;
    }

unfoldable pub remove : SessionManager → String → SessionManager
unfolding remove_found
remove sm session_id = remove_found sm session_id (get sm.sessions session_id)

-- A copy of the record that an index points to: `cloneSessionInfo(info), ok`.
unfoldable pub clone_found : SessionManager → Option ℕ → Option SessionInfo
clone_found sm none = none
clone_found sm (some p) = some (load sm.infos p)

unfoldable pub get_session : SessionManager → String → Option SessionInfo
unfolding clone_found
get_session sm session_id = clone_found sm (get sm.sessions session_id)

pub get_by_target : SessionManager → String → Option SessionInfo
unfolding clone_found
get_by_target sm target_id = clone_found sm (get sm.targets target_id)

unfoldable pub get_by_juggler_session : SessionManager → String → Option SessionInfo
unfolding clone_found
get_by_juggler_session sm juggler_session_id =
    clone_found sm (get sm.juggler_sessions juggler_session_id)

-- The records of a loop over `sm.sessions`.
infos_of : Heap SessionInfo → List (String × ℕ) → List SessionInfo
infos_of h [] = []
infos_of h ((k, p) ∷ l) = load h p ∷ infos_of h l

pub all_sessions : SessionManager → List SessionInfo
unfolding infos_of
all_sessions sm = infos_of sm.infos (bindings sm.sessions)

first_page : String → List SessionInfo → Option SessionInfo
first_page frame_id [] = none
first_page frame_id (info ∷ l) =
    if info.frame_id == frame_id && info.type == "page" then some info else first_page frame_id l

pub get_by_frame_id : SessionManager → String → Option SessionInfo
unfolding first_page infos_of
get_by_frame_id sm frame_id = first_page frame_id (infos_of sm.infos (bindings sm.sessions))

-- `if info := sm.sessions[sessionID]; info != nil { write }`
unfoldable pub write_found :
    SessionManager → Option ℕ → (SessionInfo → SessionInfo) → SessionManager
write_found sm none f = sm
write_found sm (some p) f = record sm { infos = store sm.infos p (f (load sm.infos p)) }

pub update_url : SessionManager → String → String → SessionManager
unfolding write_found
update_url sm session_id url =
    write_found sm (get sm.sessions session_id) (λ info. record info { url = url })

pub set_frame_id_if_empty : SessionManager → String → String → SessionManager
unfolding write_found
set_frame_id_if_empty sm session_id frame_id =
    write_found sm (get sm.sessions session_id)
      (λ info. if info.frame_id == "" then record info { frame_id = frame_id } else info)

unfoldable pub set_frame_id : SessionManager → String → String → SessionManager
unfolding write_found
set_frame_id sm session_id frame_id =
    write_found sm (get sm.sessions session_id) (λ info. record info { frame_id = frame_id })

-- The loop of `GetBrowserContexts`, with its map `seen` and its slice `result`.
collect_contexts : Dict String Bool → List String → List SessionInfo → List String
collect_contexts seen result [] = result
collect_contexts seen result (info ∷ l) =
    let c = info.browser_context_id in
    let fresh = not (c == "") && not (is_some (get seen c)) in
    collect_contexts (if fresh then put seen c true else seen)
      (if fresh then result ++ c ∷ [] else result) l

pub get_browser_contexts : SessionManager → List String
unfolding collect_contexts infos_of
get_browser_contexts sm = collect_contexts empty [] (infos_of sm.infos (bindings sm.sessions))
