-- ===== src/Tests/Events.antt =====
-- pkg/bridge/events.go and target.go at concrete inputs: a page of client 7, and client 8.
use foxbridge.Common.{
  ℕ, ◌<◌, ◌+◌, ◌^◌, String, ◌≡◌, ◌≢◌, refl, ◌↔◌, inl, true, false, List, [], none, some, arith,
  string_key, nat_key, string_discrete, ◌==◌, length, In,
}
use foxbridge.Dict.{empty, get, put, get-empty}
use foxbridge.Heap.{nothing, alloc}
use foxbridge.Cdp.Message.{pos, Message}
use foxbridge.Cdp.Session.{SessionInfo, zero_info, new_session_manager, get_session}
use foxbridge.Cdp.Session.Indices.{Reach, start, step, apply, adds}
use foxbridge.Bridge.Ownership.{new_ownership_registry}
use foxbridge.Bridge.Ownership.Connections.{state as connect}
use foxbridge.Bridge.Ownership.Register.{register_pair}
use foxbridge.Bridge.Ownership.Queries.{owner_for_target}
use foxbridge.Bridge.Fetch.Handler.{returned, refused}
use foxbridge.Bridge.State.{State, Env, TargetPair, new_bridge, resolve_cdp_session}
use foxbridge.Bridge.Contexts.{ContextCreated, context_created, create_default}
use foxbridge.Bridge.Contexts.Numbers.{IsBounded, Numbers, worlds_made, context_created-Numbers}
use foxbridge.Bridge.Pages.{
  Committed, navigation_committed, is_intermediate, refresh_frame, loader_for,
}
use foxbridge.Bridge.Pages.Loaders.{navigation_committed-loader}
use foxbridge.Bridge.Requests.{request_intercepted}
use foxbridge.Bridge.Requests.Params.{Intercepted}
use foxbridge.Bridge.Requests.Answers.{IsHandled, request_intercepted-answerable}
use foxbridge.Bridge.Targets.{handle_target}
use foxbridge.Bridge.Targets.Replies.{TargetCodec}
use foxbridge.Bridge.Targets.Strangers.{target_infos, handle_target-refused, get_targets-owned}

abbrev env : Env ℕ
env = record {
  call = λ b k method params. (b + 1, returned "{}");
  marshal = λ json. "{}";
  decode_payload = λ params. none;
  uuid = λ n. "u";
  decimal = λ n. "n";
}

abbrev page : TargetPair
page = record {
  ids = record {
    tab_session_id = "ts";
    tab_target_id = "tt";
    page_session_id = "ps";
    page_target_id = "pt";
    juggler_session_id = "js";
  };
  browser_ctx_id = "c1";
  url = "";
  page_attached_root = false;
  page_attached_tab = false;
}

abbrev opened : State ℕ ℕ
opened = record (new_bridge 0) { pair_cells = alloc (nothing page) page; pairs = put empty "js" 0 }

abbrev context : ContextCreated
context = record { execution_context_id = "e1"; frame_id = "f1"; name = "" }

opened-IsBounded : IsBounded opened
unfolding new_bridge
opened-IsBounded = record { contexts = λ k h. get-empty k; owners = λ k h. get-empty k }

has_room : opened.ctx_counter + (1 + length (worlds_made env opened "" context)) < 2 ^ 63
unfolding new_bridge create_default resolve_cdp_session get empty string_discrete
has_room = omega arith

context_created-Numbers_example :
    let made = 1 + length (worlds_made env opened "" context) in
    let s' = context_created env opened "" context in
    Numbers (resolve_cdp_session opened "") made opened s'
    × IsBounded s'
    × (s'.ctx_counter < 2 ^ 63)
    × ((id : ℕ) → opened.ctx_counter < id → get opened.ctx_map id ≡ none)
context_created-Numbers_example =
    context_created-Numbers env opened "" context has_room opened-IsBounded

abbrev committed : Committed
committed = record { frame_id = ""; url = "http://a/"; navigation_id = "n1" }

is_plain : is_intermediate (refresh_frame opened "js" "") "js" "http://a/" ≡ false
unfolding is_intermediate string_discrete
is_plain = refl

is_paired : get opened.pairs "js" ≡ some 0
unfolding get put empty string_discrete
is_paired = refl

is_text : ◌==◌ {K = String} "js" "" ≡ false
unfolding string_discrete
is_text = refl

is_navigation : ◌==◌ {K = String} "n1" "" ≡ false
unfolding string_discrete
is_navigation = refl

navigation_committed-loader_example :
    (s' : State ℕ ℕ) × (navigation_committed env false opened "js" committed ≡ some s')
    × (loader_for s' (resolve_cdp_session s' "js") ≡ "n1")
navigation_committed-loader_example =
    navigation_committed-loader env false opened "js" committed 0 is_text is_paired is_navigation
      is_plain

abbrev intercepted : Intercepted
intercepted = record {
  request_id = "r1";
  url = "http://a/";
  method = "GET";
  headers = [];
  nested_url = "";
  nested_method = "";
  nested_headers = [];
  frame_id = "";
  is_navigation_request = true;
  resource_type = "";
}

-- The same page, of client 7.
abbrev owned : State ℕ ℕ
owned = record opened {
  ownership = (register_pair (connect new_ownership_registry (some 7)) (some 7) 0 page.ids).0;
}

is_request : ◌==◌ {K = String} "r1" "" ≡ false
unfolding string_discrete
is_request = refl

request_intercepted-answerable_example :
    IsHandled env "js" intercepted owned
      (request_intercepted env (λ r url. true) (λ a b. true) owned "js" intercepted)
request_intercepted-answerable_example =
    request_intercepted-answerable env (λ r url. true) (λ a b. true) owned "js" intercepted
      is_request

abbrev codec : TargetCodec
codec = record {
  discover = λ params. none;
  auto_attach = λ params. false;
  create = λ params. none;
  target_id = λ params. some "pt";
  target_id_or_empty = λ params. "pt";
  context_id = λ params. none;
  session_id_or_empty = λ params. "";
  created_target = λ result. "";
  created_context = λ result. "";
}

abbrev closing : Message
closing = record {
  id = pos 1;
  method = "Target.closeTarget";
  params = some "{}";
  result = none;
  error = none;
  session_id = "";
}

is_target : ◌==◌ {K = String} "pt" "" ≡ false
unfolding string_discrete
is_target = refl

is_not_owned : owner_for_target opened.ownership "pt" ≢ some 8
unfolding owner_for_target new_bridge new_ownership_registry get empty
is_not_owned e = ground arith

handle_target-refused_example :
    (message : String) × (handle_target env codec (λ s. s) 3 3 opened (some 8) closing
      ≡ (opened, refused 31999 message))
handle_target-refused_example =
    handle_target-refused env codec (λ s. s) 3 3 opened 8 closing "pt" is_target refl refl
      is_not_owned (inl refl)

abbrev page_info : SessionInfo
page_info = record zero_info { session_id = "ps"; target_id = "pt"; type = "page" }

abbrev listing : State ℕ ℕ
listing = record opened { sessions = apply new_session_manager (adds (some page_info)) }

sessions_reached : Reach listing.sessions
unfolding new_session_manager
sessions_reached = step (adds (some page_info)) start (get-empty "ps")

get_targets-owned_example :
    (infos : List SessionInfo) × (handle_target env codec
        (λ s. s)
        3
        3
        listing
        (some 8)
        (record closing { method = "Target.getTargets" })
      ≡ (listing, target_infos env infos))
    × ((info : SessionInfo)
        → In info infos ↔ (
            (get_session listing.sessions info.session_id ≡ some info)
            × ((info.type == "tab") ≡ false)
            × (owner_for_target listing.ownership info.target_id ≡ some 8)))
get_targets-owned_example =
    get_targets-owned env codec (λ s. s) 3 3 listing 8
      (record closing { method = "Target.getTargets" }) sessions_reached refl
