-- ===== src/Tests/Sessions.antt =====
-- pkg/cdp/session.go at concrete inputs: a page and a worker are registered, then the page moves.
use foxbridge.Common.{String, ◌≡◌, ◌≢◌, none, some, string_key, nat_key, In, Distinct}
use foxbridge.Dict.{get-empty}
use foxbridge.Cdp.Session.{
  SessionInfo, SessionManager, new_session_manager, get_session, get_by_target,
  get_by_juggler_session, all_sessions, get_by_frame_id, get_browser_contexts,
}
use foxbridge.Cdp.Session.Indices.{adds, updates_url, apply, Reach, start, step, indices_agree}
use foxbridge.Cdp.Session.View.{apply_view, get_session-apply}
use foxbridge.Cdp.Session.Search.{
  all_sessions-iff-get_session, get_by_frame_id-exact, get_browser_contexts-exact, IsPageOf,
}

abbrev page_info : SessionInfo
page_info = record {
  session_id = "s1";
  juggler_session_id = "j1";
  target_id = "t1";
  browser_context_id = "c1";
  url = "about:blank";
  title = "";
  type = "page";
  frame_id = "f1";
}

abbrev one_page : SessionManager
one_page = apply new_session_manager (adds (some page_info))

one_page-Reach : Reach one_page
unfolding new_session_manager
one_page-Reach = step (adds (some page_info)) start (get-empty "s1")

get_session-apply_example :
    get_session (apply one_page (updates_url "s1" "https://a")) "s1"
    ≡ apply_view (get_session one_page) (updates_url "s1" "https://a") "s1"
get_session-apply_example = get_session-apply (updates_url "s1" "https://a") "s1" one_page-Reach

indices_agree_example :
    (get_by_target one_page "t1" ≡ some page_info
      → (page_info.target_id ≡ "t1") × (get_session one_page page_info.session_id ≡ some page_info))
    × (get_by_juggler_session one_page "t1" ≡ some page_info
        → (page_info.juggler_session_id ≡ "t1")
          × (get_session one_page page_info.session_id ≡ some page_info))
indices_agree_example = indices_agree "t1" page_info one_page-Reach

all_sessions_example :
    (In page_info (all_sessions one_page)
      → get_session one_page page_info.session_id ≡ some page_info)
    × ((k : String)
        → get_session one_page k ≡ some page_info
        → In page_info (all_sessions one_page))
all_sessions_example = all_sessions-iff-get_session page_info one_page-Reach

get_by_frame_id_example :
    (get_by_frame_id one_page "f1" ≡ some page_info
      → (get_session one_page page_info.session_id ≡ some page_info) × IsPageOf "f1" page_info)
    × (get_by_frame_id one_page "f1" ≡ none
        → get_session one_page "s1" ≡ some page_info
        → ¬ IsPageOf "f1" page_info)
get_by_frame_id_example = get_by_frame_id-exact "f1" "s1" page_info one_page-Reach

get_browser_contexts_example :
    Distinct (get_browser_contexts one_page)
    × (In "c1" (get_browser_contexts one_page)
        → (◌≢◌ {A = String} "c1" "")
          × ((info : SessionInfo) × (get_session one_page info.session_id ≡ some info)
              × (info.browser_context_id ≡ "c1")))
    × ((k : String) (info : SessionInfo)
        → get_session one_page k ≡ some info
        → info.browser_context_id ≡ "c1"
        → ◌≢◌ {A = String} "c1" ""
        → In "c1" (get_browser_contexts one_page))
get_browser_contexts_example = get_browser_contexts-exact "c1" one_page-Reach
