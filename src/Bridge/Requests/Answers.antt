-- ===== src/Bridge/Requests/Answers.antt =====
-- pkg/bridge/events.go: a request that the backend holds back is let go, or its client can answer it.
use foxbridge.Common.{
  ℕ, String, ◌≡◌, refl, ap, ◌∙◌, inl, inr, Bool, true, false, List, [], ◌∷◌, ◌++◌, ◌⊎◌, ◌||◌, none,
  some, is_some, string_key, nat_key, ◌==◌, if◌then◌else◌, Bool-cases, Option-cases, arith,
}
use foxbridge.Dict.{get-put}
use foxbridge.Bridge.Ownership.{Registry}
use foxbridge.Bridge.Ownership.Requests.{request_owned, set_request_owner}
use foxbridge.Cdp.Message.{pos, Message}
use foxbridge.Bridge.Ownership.Connections.{connection_closed_locked}
use foxbridge.Bridge.Ownership.Queries.{session_owner}
use foxbridge.Bridge.Json.{Json, object}
use foxbridge.Bridge.Routing.{emit_event, cdp_frame_id_for_session}
use foxbridge.Bridge.State.{State, Env, emit, emit_raw}
use foxbridge.Bridge.State.Sends.{emit-sends}
use foxbridge.Bridge.Requests.{
  owned_or_none, request_session, request_intercepted, announce_paused, pauses_request,
}
use foxbridge.Bridge.Requests.Params.{
  Intercepted, Work, sent_params, paused_params, request_fields, is_empty, continue_request,
  continue_unattributed, intercepted_url, intercepted_resource_type,
}

owned-set :
    (r : Registry) (request_id session_id : String)
    → (request_id == "") ≡ false
    → (session_id == "") ≡ false
    → request_owned (set_request_owner r request_id session_id) session_id request_id ≡ true
unfolding request_owned set_request_owner
owned-set r request_id session_id a b =
    rw (a, b, get-put r.request_owners request_id session_id request_id) (ground arith)

session_owner-set :
    (r : Registry) (request_id session_id : String)
    → session_owner (set_request_owner r request_id session_id) session_id
      ≡ session_owner r session_id
unfolding session_owner set_request_owner connection_closed_locked
session_owner-set r request_id session_id =
    elim (Bool-cases (request_id == "" || session_id == "")) [
      | inl e ↦ rw e refl
      | inr e ↦ rw e refl
    ]

module _ {Regexp B : Type 0} where
  owned_or_none-owned :
      (s : State Regexp B) (session_id : String)
      → (owned_or_none s session_id == "") ≡ false
      → is_some (session_owner s.ownership (owned_or_none s session_id)) ≡ true
  owned_or_none-owned s session_id h = ground arith

  -- A session that a request is given has an owner.
  request_session-owned :
      (s : State Regexp B) (k frame_id : String)
      → (request_session s k frame_id == "") ≡ false
      → (c : ℕ) × (session_owner s.ownership (request_session s k frame_id) ≡ some c)
  unfolding request_session
  request_session-owned s k frame_id h =
      let session_id = request_session s k frame_id in
      elim (Option-cases (session_owner s.ownership session_id)) [
        | inl n ↦ absurd (let o = owned_or_none-owned s _ h in ground arith)
        | inr (c, e) ↦ (c, e)
      ]

module _ {B : Type 0} (env : Env B) where
  abbrev pub event : String → Json → String → Message
  event method params session_id = record {
    id = pos 0;
    method = method;
    params = some (env.marshal params);
    result = none;
    error = none;
    session_id = session_id;
  }

module _ {Regexp B : Type 0} (env : Env B) where
  -- The client `c` has been sent a Network.requestWillBeSent and then the Fetch.requestPaused that names the
  -- request, both on the session, and nobody has been sent anything else.
  abbrev pub Told : String → Intercepted → ℕ → State Regexp B → State Regexp B → Type 0
  Told session_id ev c s s' =
      (sent : Json) × (request : Json) × (frame_id : String) × (s'.sent
        ≡ (s.sent ++ (c, event env "Network.requestWillBeSent" sent session_id) ∷ [])
          ++ (
            c,
            event env "Fetch.requestPaused"
                (paused_params ev.request_id request frame_id (intercepted_resource_type ev))
                session_id,
          )
            ∷ [])

  abbrev pub IsHandled : String → Intercepted → State Regexp B → State Regexp B × List Work → Type 0
  IsHandled k ev s (s', work) =
      let session_id = request_session s k ev.frame_id in
      ((session_id ≡ "") × (work ≡ continue_unattributed ev.request_id ∷ []) × (s' ≡ s))
      ⊎ ((request_owned s'.ownership session_id ev.request_id ≡ true)
          × (((work ≡ [])
                × ((c : ℕ) × (session_owner s.ownership session_id ≡ some c)
                    × Told session_id ev c s s'))
              ⊎ ((work ≡ continue_request session_id ev.request_id ∷ []) × (s'.sent ≡ s.sent))))

  emit-ownership :
      (s : State Regexp B) (method : String) (params : Json) (session_id : String)
      → (emit env s method params session_id).ownership ≡ s.ownership
  emit-ownership s method params session_id =
      ap (λ (y : State Regexp B). y.ownership) (emit-sends env s method params session_id)

  announce_paused-ownership :
      (s : State Regexp B) (session_id : String) (ev : Intercepted)
      → (announce_paused env s session_id ev).ownership ≡ s.ownership
  unfolding announce_paused
  announce_paused-ownership s session_id ev =
      emit-ownership _ "Fetch.requestPaused" _ session_id
      ∙ emit-ownership s "Network.requestWillBeSent" _ session_id

  emit-told :
      (s : State Regexp B) (method : String) (params : Json) (session_id : String) (c : ℕ)
      → session_owner s.ownership session_id ≡ some c
      → (emit env s method params session_id).sent
        ≡ s.sent ++ (c, event env method params session_id) ∷ []
  unfolding emit emit_raw emit_event
  emit-told s method params session_id c h = rw h

  announce_paused-Told :
      (s : State Regexp B) (session_id : String) (ev : Intercepted) (c : ℕ)
      → session_owner s.ownership session_id ≡ some c
      → Told session_id ev c s (announce_paused env s session_id ev)
  unfolding announce_paused
  announce_paused-Told s session_id ev c h =
      let method = if ev.url == "" then ev.nested_method else ev.method in
      let headers = if is_empty ev.headers then ev.nested_headers else ev.headers in
      let resource_type = intercepted_resource_type ev in
      let frame_id = cdp_frame_id_for_session s.sessions session_id ev.frame_id in
      let sent =
        sent_params ev.request_id (intercepted_url ev) method headers resource_type frame_id in
      let s' = emit env s "Network.requestWillBeSent" sent session_id in
      let paused =
        paused_params ev.request_id (object (request_fields (intercepted_url ev) method headers))
          frame_id resource_type in
      let owned =
        ap (λ r. session_owner r session_id)
          (emit-ownership s "Network.requestWillBeSent" sent session_id)
        ∙ h in
      (
        sent,
        object (request_fields (intercepted_url ev) method headers),
        frame_id,
        emit-told s' "Fetch.requestPaused" paused session_id c owned
            ∙ ap (λ l. l ++ (c, event env "Fetch.requestPaused" paused session_id) ∷ [])
                (emit-told s "Network.requestWillBeSent" sent session_id c h),
      )

  module _ (match_string : Regexp → String → Bool) (equal_fold : String → String → Bool) where
    -- Every Browser.requestIntercepted event with the id of a request that the backend holds back is handled.
    -- A request without a session is let go by the bridge. Any other is owned by its session afterwards,
    -- so that the client's answer is let through, and either the bridge lets it go, or the owner of the
    -- session is told that it is paused. To let it go is the one piece of work that the handler
    -- starts, and then nobody is told anything.
    pub request_intercepted-answerable :
        (s : State Regexp B) (k : String) (ev : Intercepted)
        → (ev.request_id == "") ≡ false
        → IsHandled k ev s (request_intercepted env match_string equal_fold s k ev)
    unfolding request_intercepted
    request_intercepted-answerable s k ev h =
        let session_id = request_session s k ev.frame_id in
        elim (Bool-cases (session_id == "")) [
          | inl e ↦ rw e (inl (ground arith, refl, refl))
          | inr e ↦ rw e (
              let owned = owned-set s.ownership ev.request_id session_id h e in
              let (c, live) = request_session-owned s k ev.frame_id e in
              let s' : State Regexp B = record s {
                ownership = set_request_owner s.ownership ev.request_id session_id;
              } in
              elim (Bool-cases (
                pauses_request env match_string equal_fold s' session_id (intercepted_url ev)
                  (intercepted_resource_type ev))) [
                    | inl p ↦ rw p (
                        inr (
                          rw (announce_paused-ownership s' session_id ev) owned,
                          inl (
                            refl,
                            (
                              c,
                              live,
                              announce_paused-Told s' session_id ev c
                                  (session_owner-set s.ownership ev.request_id session_id ∙ live),
                            ),
                          ),
                        ))
                    | inr p ↦ rw p (inr (owned, inr (refl, refl)))
                  ])
        ]
