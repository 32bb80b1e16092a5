-- ===== src/Bridge/Routing/Events.antt =====
-- pkg/bridge/bridge.go: an event reaches only a client that is there and that owns what it is about.
use foxbridge.Common.{
  ℕ, String, ◌≡◌, ◌≢◌, ◌⊎◌, inl, inr, false, Option, none, some, arith, string_key, nat_key,
  Option-cases,
}
use foxbridge.Cdp.Message.{Message}
use foxbridge.Cdp.Session.{SessionManager}
use foxbridge.Bridge.Ownership.{Registry}
use foxbridge.Bridge.Ownership.Connections.{connection_closed_locked}
use foxbridge.Bridge.Ownership.Queries.{owner_for_target, session_owner}
use foxbridge.Bridge.Routing.{
  Payload, owner_for_event, emit_event, session_for_frame, payload_owner,
}

module _ (r : Registry) (c : ℕ) where
  owner_for_target-live :
      (t : String) → owner_for_target r t ≡ some c → connection_closed_locked r (some c) ≡ false
  unfolding owner_for_target
  owner_for_target-live t h = ground arith

  session_owner-live :
      (s : String)
      → session_owner r s ≡ some c
      → (s ≢ "") × (connection_closed_locked r (some c) ≡ false)
  unfolding session_owner
  session_owner-live s h = ground arith

  module _ (decode : Option String → Option Payload) (sm : SessionManager) where
    payload_owner-live :
        (p : Option Payload)
        → payload_owner sm r p ≡ some c
        → connection_closed_locked r (some c) ≡ false
    payload_owner-live none h = ground arith
    payload_owner-live (some p) h = elim (Option-cases (session_for_frame sm r p.frame_id)) [
      | inl n ↦
          (ground
            (arith, n, owner_for_target-live p.target_id, owner_for_target-live p.info_target_id))
      | inr (s, e) ↦ ground (
        arith,
        e,
        owner_for_target-live p.target_id,
        owner_for_target-live p.info_target_id,
        session_owner-live s,
      )
    ]

    -- An event that is sent goes to a client that has not been closed. If the event names a
    -- session, the client owns that session, and the message carries the session.
    pub emit_event-owned :
        (method : String) (raw : Option String) (session_id : String) (msg : Message)
        → emit_event decode sm r method raw session_id ≡ some (c, msg)
        → (connection_closed_locked r (some c) ≡ false)
          × (session_id ≡ "" ⊎ session_owner r session_id ≡ some c)
          × (msg.session_id ≡ session_id)
    unfolding emit_event owner_for_event
    emit_event-owned method raw session_id msg h =
        elim (Option-cases (session_owner r session_id)) [
          | inl n ↦ ground (arith, n, payload_owner-live (decode raw))
          | inr (d, e) ↦ ground (arith, e, session_owner-live session_id)
        ]
