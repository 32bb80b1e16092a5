-- ===== src/Bridge/State/Sends.antt =====
-- pkg/bridge/bridge.go: sending changes nothing but what is sent.
use foxbridge.Common.{String, ◌≡◌, ap, ◌∙◌, inl, inr, Option, some, Option-cases}
use foxbridge.Bridge.Json.{Json}
use foxbridge.Bridge.Routing.{emit_event}
use foxbridge.Bridge.State.{State, Env, emit, emit_raw}

module _ {Regexp B : Type 0} (env : Env B) where
  pub emit_raw-sends :
      (s : State Regexp B) (method : String) (params : Option String) (session_id : String)
      → emit_raw env s method params session_id
        ≡ record s { sent = (emit_raw env s method params session_id).sent }
  unfolding emit_raw
  emit_raw-sends s method params session_id =
      elim (Option-cases
        (emit_event env.decode_payload s.sessions s.ownership method params session_id)) [
          | inl n ↦ rw n
          | inr (m, e) ↦ rw e
        ]

  pub emit-sends :
      (s : State Regexp B) (method : String) (params : Json) (session_id : String)
      → emit env s method params session_id
        ≡ record s { sent = (emit env s method params session_id).sent }
  unfolding emit
  emit-sends s method params session_id =
      emit_raw-sends s method (some (env.marshal params)) session_id

  pub emit-after :
      (s x : State Regexp B) (method : String) (params : Json) (session_id : String)
      → x ≡ record s { sent = x.sent }
      → emit env x method params session_id
        ≡ record s { sent = (emit env x method params session_id).sent }
  emit-after s x method params session_id h =
      emit-sends x method params session_id
      ∙ ap (λ (y : State Regexp B). record y { sent = (emit env x method params session_id).sent })
          h
