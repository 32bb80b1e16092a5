-- ===== src/Bridge/Attach/Arrivals.antt =====
-- pkg/bridge/bridge.go: what the owner of a page is told by `publishOwnedPair`.
use foxbridge.Common.{
  ℕ, String, string_discrete, ◌≡◌, ◌≢◌, refl, ap, sym, ◌∙◌, inl, inr, false, List, [], ◌∷◌, ◌++◌,
  Option, none, some, arith, string_key, nat_key, Bool-cases, if◌then◌else◌, append_assoc,
  append_nil,
}
use foxbridge.Heap.{load, store}
use foxbridge.Cdp.Message.{pos, Message}
use foxbridge.Bridge.Ownership.{Registry}
use foxbridge.Bridge.Ownership.Connections.{discover_enabled, auto_attach_enabled}
use foxbridge.Bridge.Ownership.Queries.{
  owner_for_target, record_for_target, record_details, session_owner,
}
use foxbridge.Bridge.Json.{Json, object}
use foxbridge.Bridge.Routing.{emit_event, owner_for_event}
use foxbridge.Bridge.State.{State, Env, emit, emit_raw, send_owned_event}
use foxbridge.Bridge.Release.{without_pair}
use foxbridge.Bridge.Attach.Announce.{
  mark_attached, page_info, attached_params, emit_page_attach_on_session, emit_auto_attach_pair,
  publish_to, publish_owned_pair,
}

module _ {B : Type 0} (env : Env B) where
  abbrev pub event : String → Json → Message
  event method params = record {
    id = pos 0;
    method = method;
    params = some (env.marshal params);
    result = none;
    error = none;
    session_id = "";
  }

session_owner-empty : (r : Registry) → session_owner r "" ≡ none
unfolding session_owner string_discrete
session_owner-empty r = refl

module _ {Regexp B : Type 0} (env : Env B) where
  event_owner :
      (s : State Regexp B) (raw : Option String) (target : String)
      → target ≢ ""
      → env.decode_payload raw
        ≡ some (record { target_id = ""; info_target_id = target; frame_id = "" })
      → owner_for_event env.decode_payload s.sessions s.ownership raw ""
        ≡ owner_for_target s.ownership target
  unfolding owner_for_event string_discrete
  event_owner s raw target n d = rw d (ground arith)

  emit-to_owner :
      (s : State Regexp B) (method target : String) (params : Json) (c : ℕ)
      → target ≢ ""
      → env.decode_payload (some (env.marshal params))
        ≡ some (record { target_id = ""; info_target_id = target; frame_id = "" })
      → owner_for_target s.ownership target ≡ some c
      → (emit env s method params "").sent ≡ s.sent ++ (c, event env method params) ∷ []
  unfolding emit emit_raw emit_event
  emit-to_owner s method target params c n d o =
      rw (session_owner-empty s.ownership, event_owner s (some (env.marshal params)) target n d ∙ o)

  pub attach-told :
      (s : State Regexp B) (p : ℕ) (c : ℕ)
      → let pair = load s.pair_cells p in
        pair.ids.page_target_id ≢ ""
        → env.decode_payload (some (env.marshal (attached_params pair)))
          ≡ some
              (record { target_id = ""; info_target_id = pair.ids.page_target_id; frame_id = "" })
        → owner_for_target s.ownership pair.ids.page_target_id ≡ some c
        → pair.page_attached_root ≡ false
        → (emit_auto_attach_pair env s p).sent
          ≡ s.sent ++ (c, event env "Target.attachedToTarget" (attached_params pair)) ∷ []
  unfolding emit_auto_attach_pair emit_page_attach_on_session string_discrete
  attach-told s p c n d o f =
      let pair = load s.pair_cells p in
      rw f (
        emit-to_owner (record s { pair_cells = store s.pair_cells p (mark_attached pair "") })
          "Target.attachedToTarget" pair.ids.page_target_id (attached_params pair) c n d o)

  pub created : State Regexp B → ℕ → ℕ → List (ℕ × Message)
  created s c p =
      if discover_enabled s.ownership (some c)
      then (
        c,
        event env "Target.targetCreated"
            (object (("targetInfo", page_info (load s.pair_cells p)) ∷ [])),
      )
        ∷ []
      else []

  pub attached : State Regexp B → ℕ → ℕ → List (ℕ × Message)
  attached s c p =
      if auto_attach_enabled s.ownership (some c)
      then (c, event env "Target.attachedToTarget" (attached_params (load s.pair_cells p))) ∷ []
      else []

  publish_to-told :
      (s : State Regexp B) (p : ℕ) (c : ℕ)
      → let pair = load s.pair_cells p in
        pair.ids.page_target_id ≢ ""
        → env.decode_payload (some (env.marshal (attached_params pair)))
          ≡ some
              (record { target_id = ""; info_target_id = pair.ids.page_target_id; frame_id = "" })
        → owner_for_target s.ownership pair.ids.page_target_id ≡ some c
        → pair.page_attached_root ≡ false
        → (publish_to env s c p).sent ≡ s.sent ++ (created s c p ++ attached s c p)
  unfolding publish_to send_owned_event created attached
  publish_to-told s p c n d o f =
      let quiet : State Regexp B = record s {
        pending_pairs = without_pair (some p) s.pending_pairs;
      } in
      let message : ℕ × Message = (
        c,
        event env "Target.targetCreated"
            (object (("targetInfo", page_info (load s.pair_cells p)) ∷ [])),
      ) in
      let loud : State Regexp B = record quiet { sent = s.sent ++ message ∷ [] } in
      elim (Bool-cases (discover_enabled s.ownership (some c))) [
        | inl h ↦ elim (Bool-cases (auto_attach_enabled s.ownership (some c))) [
          | inl k ↦ rw (h, k) (attach-told loud p c n d o f ∙ append_assoc s.sent (message ∷ []) _)
          | inr k ↦ rw (h, k)
        ]
        | inr h ↦ elim (Bool-cases (auto_attach_enabled s.ownership (some c))) [
          | inl k ↦ rw (h, k) (attach-told quiet p c n d o f)
          | inr k ↦ rw (h, k) (sym (append_nil s.sent))
        ]
      ]

  publish_found-owner :
      (s : State Regexp B) (p q : ℕ) (c : ℕ)
      → record_for_target s.ownership (load s.pair_cells p).ids.page_target_id ≡ some q
      → (load s.ownership.records q).owner ≡ some c
      → (load s.ownership.records q).cancelled ≡ false
      → publish_owned_pair env s p ≡ publish_to env s c p
  unfolding publish_owned_pair record_details
  publish_found-owner s p q c e o f = rw (e, o, f)

  -- For a page that is registered to a connected client `c`, not cancelled, and not attached on the
  -- root session yet, provided encoding/json reads back the target id of the attachment's
  -- parameters: `publishOwnedPair` sends to `c`, and to nobody else, that the target is created if
  -- `c` discovers targets, and then that it is attached if `c` attaches to targets automatically.
  pub publish_owned_pair-told :
      (s : State Regexp B) (p q : ℕ) (c : ℕ)
      → let pair = load s.pair_cells p in
        pair.ids.page_target_id ≢ ""
        → env.decode_payload (some (env.marshal (attached_params pair)))
          ≡ some
              (record { target_id = ""; info_target_id = pair.ids.page_target_id; frame_id = "" })
        → record_for_target s.ownership pair.ids.page_target_id ≡ some q
        → (load s.ownership.records q).owner ≡ some c
        → (load s.ownership.records q).cancelled ≡ false
        → owner_for_target s.ownership pair.ids.page_target_id ≡ some c
        → pair.page_attached_root ≡ false
        → (publish_owned_pair env s p).sent ≡ s.sent ++ (created s c p ++ attached s c p)
  publish_owned_pair-told s p q c n d e x f o a =
      ap (λ (y : State Regexp B). y.sent) (publish_found-owner s p q c e x f)
      ∙ publish_to-told s p c n d o a
