-- ===== src/Bridge/State.antt =====
-- pkg/bridge/bridge.go: the state of a `Bridge`, and the helpers that all its handlers use. A handler
-- is a function on this state. It stands for the handler run without another one in between: the
-- races between handlers meet in the ownership registry, which has its own histories.
pub mod Sends
use foxbridge.Common.{
  ℕ, ◌+◌, ◌%◌, ◌^◌, String, Bool, true, false, not, ◌&&◌, List, [], ◌∷◌, ◌++◌, Option, none, some,
  string_key, nat_key, ◌==◌, if◌then◌else◌, is_some,
}
use foxbridge.Dict.{Dict, empty, get, put, delete, delete_where}
use foxbridge.Heap.{Heap, nothing, load, store}
use foxbridge.Cdp.Message.{pos, Message}
use foxbridge.Cdp.Session.{
  SessionInfo, SessionManager, new_session_manager, get_session, get_by_juggler_session,
}
use foxbridge.Bridge.Ownership.{Registry, new_ownership_registry, PairIds}
use foxbridge.Bridge.Fetch.{Patterns}
use foxbridge.Bridge.Fetch.Handler.{Reply}
use foxbridge.Bridge.Routing.{
  SubFrames, Payload, emit_event, resolve_session, cdp_frame_id_for_juggler_session,
}
use foxbridge.Bridge.Streams.{Streams}
use foxbridge.Bridge.Json.{Json}

pub record TargetPair : Type 0 where
  pub ids : PairIds
  pub browser_ctx_id : String
  pub url : String
  pub page_attached_root : Bool
  pub page_attached_tab : Bool

pub record IsolatedWorldInfo : Type 0 where
  pub world_name : String
  pub frame_id : String

-- `sent` is what `server.Send` has been given, with the connection, and `drawn` counts the calls of
-- `uuid.New`. `pair_cells` are the target pairs that pointers lead to, and `claim_timers` the calls of
-- `expireClaim` that `time.AfterFunc` has been given.
pub record State (Regexp B : Type 0) : Type 0 where
  pub backend : B
  pub sent : List (ℕ × Message)
  pub drawn : ℕ
  pub sessions : SessionManager
  pub ownership : Registry
  pub auto_attach_on : Bool
  pub pending_pairs : List ℕ
  pub pairs : Dict String ℕ
  pub pair_cells : Heap TargetPair
  pub pending_frame_ids : Dict String String
  pub ctx_map : Dict ℕ String
  pub ctx_owners : Dict ℕ String
  pub ctx_unique_owners : Dict String String
  pub ctx_counter : ℕ
  pub loader_map : Dict String String
  pub latest_ctx : Dict String String
  pub sub_frames : SubFrames
  pub isolated_worlds : Dict String (List IsolatedWorldInfo)
  pub node_objects : Dict ℕ String
  pub node_owners : Dict ℕ String
  pub object_owners : Dict String String
  pub last_query : Dict String String
  pub last_query_all : Dict String Bool
  pub last_query_skips : Dict String ℕ
  pub last_dialog : Dict String String
  pub streams : Streams
  pub pending_context_clear : Dict String Bool
  pub fetch_patterns : Patterns Regexp
  pub deterministic_script : String
  pub deterministic_applied : Dict String Bool
  pub claim_timers : List (String × ℕ)

-- What the bridge uses of other packages: `backend.Call`, encoding/json, google/uuid
-- and the `%d` of fmt.
pub record Env (B : Type 0) : Type 0 where
  pub call : B → String → String → Option Json → B × Reply
  pub marshal : Json → String
  pub decode_payload : Option String → Option Payload
  pub uuid : ℕ → String
  pub decimal : ℕ → String

abbrev zero_pair : TargetPair
zero_pair = record {
  ids = record {
    tab_session_id = "";
    tab_target_id = "";
    page_session_id = "";
    page_target_id = "";
    juggler_session_id = "";
  };
  browser_ctx_id = "";
  url = "";
  page_attached_root = false;
  page_attached_tab = false;
}

unfoldable pub new_bridge : {Regexp B : Type 0} → B → State Regexp B
new_bridge backend = record {
  backend = backend;
  sent = [];
  drawn = 0;
  sessions = new_session_manager;
  ownership = new_ownership_registry;
  auto_attach_on = false;
  pending_pairs = [];
  pairs = empty;
  pair_cells = nothing zero_pair;
  pending_frame_ids = empty;
  ctx_map = empty;
  ctx_owners = empty;
  ctx_unique_owners = empty;
  ctx_counter = 100;
  loader_map = empty;
  latest_ctx = empty;
  sub_frames = empty;
  isolated_worlds = empty;
  node_objects = empty;
  node_owners = empty;
  object_owners = empty;
  last_query = empty;
  last_query_all = empty;
  last_query_skips = empty;
  last_dialog = empty;
  streams = record { pdf_streams = empty; pdf_owners = empty };
  pending_context_clear = empty;
  fetch_patterns = empty;
  deterministic_script = "";
  deterministic_applied = empty;
  claim_timers = [];
}

abbrev pub synthetic_default : String
synthetic_default = "vulpine-default-context"

unfoldable pub cdp_browser_context_id : String → String
cdp_browser_context_id id = if not (id == "") then id else synthetic_default

unfoldable pub is_synthetic_default : String → Bool
is_synthetic_default id = if id == "" then true else id == synthetic_default

abbrev pub is_owned_by : String → Option String → Bool
is_owned_by session_id none = false
is_owned_by session_id (some owner) = owner == session_id

module _ {Regexp B : Type 0} (env : Env B) where
  abbrev deliver : State Regexp B → Option (ℕ × Message) → State Regexp B
  deliver s none = s
  deliver s (some message) = record s { sent = s.sent ++ message ∷ [] }

  -- `emitEvent` with parameters that are raw already.
  unfoldable pub emit_raw : State Regexp B → String → Option String → String → State Regexp B
  unfolding emit_event
  emit_raw s method params session_id =
      deliver s (emit_event env.decode_payload s.sessions s.ownership method params session_id)

  unfoldable pub emit : State Regexp B → String → Json → String → State Regexp B
  unfolding emit_raw
  emit s method params session_id = emit_raw s method (some (env.marshal params)) session_id

  -- An event for one client, if there is one.
  unfoldable pub send_owned_event :
      State Regexp B → Option ℕ → String → Json → String → State Regexp B
  send_owned_event s none method params session_id = s
  send_owned_event s (some owner) method params session_id = deliver s (
      some (
        owner,
        record {
          id = pos 0;
          method = method;
          params = some (env.marshal params);
          result = none;
          error = none;
          session_id = session_id;
        },
      ))

  unfoldable pub call_juggler :
      State Regexp B → String → String → Option Json → State Regexp B × Reply
  unfolding resolve_session
  call_juggler s cdp_session_id method params =
      let (b, reply) =
        env.call s.backend (resolve_session s.sessions cdp_session_id) method params in
      (record s { backend = b }, reply)

  unfoldable pub new_uuid : State Regexp B → State Regexp B × String
  new_uuid s = (record s { drawn = s.drawn + 1 }, env.uuid s.drawn)

module _ {Regexp B : Type 0} where
  -- `ctxCounter` is an int, in two's complement on 64 bits.
  unfoldable pub next_ctx_id : State Regexp B → State Regexp B × ℕ
  next_ctx_id s = let id = (s.ctx_counter + 1) % 2 ^ 64 in (record s { ctx_counter = id }, id)

  unfoldable pub clear_contexts_for_session : State Regexp B → String → State Regexp B
  clear_contexts_for_session s session_id = record s {
    ctx_map =
        delete_where (λ id juggler_id. is_owned_by session_id (get s.ctx_owners id)) s.ctx_map;
    ctx_owners = delete_where (λ id owner. owner == session_id) s.ctx_owners;
  }

  abbrev page_session_of : State Regexp B → Option ℕ → Option SessionInfo → String
  page_session_of s (some p) info = (load s.pair_cells p).ids.page_session_id
  page_session_of s none none = ""
  page_session_of s none (some info) = info.session_id

  unfoldable pub resolve_cdp_session : State Regexp B → String → String
  resolve_cdp_session s juggler_session_id =
      if juggler_session_id == ""
      then ""
      else page_session_of s (get s.pairs juggler_session_id)
          (get_by_juggler_session s.sessions juggler_session_id)

  unfoldable pub latest_context_for_session : State Regexp B → String → String
  unfolding resolve_session
  latest_context_for_session s cdp_session_id =
      elim (get s.latest_ctx (resolve_session s.sessions cdp_session_id)) [
        | none ↦ ""
        | some id ↦ id
      ]

  abbrev page_session_at : State Regexp B → Option ℕ → Option String
  page_session_at s none = none
  page_session_at s (some p) = some (load s.pair_cells p).ids.page_session_id

  -- `cdpFrameIDForJugglerSession` on the state.
  unfoldable pub cdp_frame : State Regexp B → String → String → String
  cdp_frame s juggler_session_id frame_id =
      cdp_frame_id_for_juggler_session s.sessions
        (page_session_at s (get s.pairs juggler_session_id)) juggler_session_id frame_id
