-- ===== src/Recording/Replay.antt =====
-- pkg/recording/replay.go: one session of the replay server. encoding/json is a parameter, and so
-- is the connection, which accepts a write or fails.
pub mod Rounds
pub mod Order
pub mod Complete
use foxbridge.Common.{
  ◌≡◌, ◌⊎◌, ℕ, suc, String, Bool, true, false, not, List, [], ◌∷◌, ◌++◌, Option, none, some,
  string_key, ◌==◌, if◌then◌else◌, get_elem?, drop,
}
use foxbridge.Cdp.Message.{Message}
use foxbridge.Recording.{Entry}

-- `sent` is what the client has been sent.
pub record ReplaySession : Type 0 where
  pub entries : List Entry
  pub pos : ℕ
  pub sent : List String

-- How a call of a session ends.
pub data Status : Type 0 where
  ok marshal_failed write_failed : Status
  exhausted expected_outbound mismatch : Status
  -- the nil message of an entry is read for the text of an error
  panicked : Status
  invalid_inbound : Status

module _ (marshal : Option Message → Option String) (accepts : List String → String → Bool) where
  -- The loop of `flushOutboundUntilInput`, over the entries from `pos` on.
  unfoldable pub flush_from : List Entry → ReplaySession → ReplaySession × Status
  flush_from [] s = (s, ok)
  flush_from (entry ∷ rest) s = elim (entry.direction == "out") [
    | false ↦ (s, ok)
    | true ↦
        let s' = record s { pos = suc s.pos } in
        elim (marshal entry.message) [
          | none ↦ (s', marshal_failed)
          | some frame ↦ elim (accepts s.sent frame) [
            | false ↦ (s', write_failed)
            | true ↦ flush_from rest (record s' { sent = s.sent ++ frame ∷ [] })
          ]
        ]
  ]

  unfoldable pub flush_outbound_until_input : ReplaySession → ReplaySession × Status
  unfolding flush_from
  flush_outbound_until_input s = flush_from (drop s.pos s.entries) s

  abbrev same_text : Option String → Option String → Bool
  same_text (some left) (some right) = left == right
  same_text _ _ = false

  unfoldable pub messages_equivalent : Option Message → Option Message → Bool
  messages_equivalent a b = same_text (marshal a) (marshal b)

  unfoldable mismatched : Entry → Status
  mismatched entry = elim entry.message [ none ↦ panicked | some m ↦ mismatch ]

  unfoldable pub accept_entry : ReplaySession → Message → Option Entry → ReplaySession × Status
  unfolding messages_equivalent mismatched
  accept_entry s msg none = (s, exhausted)
  accept_entry s msg (some entry) =
      if not (entry.direction == "in")
      then (s, expected_outbound)
      else if not (messages_equivalent entry.message (some msg))
      then (s, mismatched entry)
      else (record s { pos = suc s.pos }, ok)

  unfoldable pub accept_inbound : ReplaySession → Message → ReplaySession × Status
  unfolding accept_entry
  accept_inbound s msg = accept_entry s msg (get_elem? s.entries s.pos)

  -- The steps of the loop of `handleWS` after a frame has been parsed.
  unfoldable pub flush_accepted : ReplaySession × Status → ReplaySession × Status
  unfolding flush_outbound_until_input
  flush_accepted (s, ok) = flush_outbound_until_input s
  flush_accepted (s, status) = (s, status)

  module _ (unmarshal : String → Option Message) where
    unfoldable pub receive : ReplaySession → String → ReplaySession × Status
    unfolding flush_accepted accept_inbound
    receive s frame = elim (unmarshal frame) [
      | none ↦ (s, invalid_inbound)
      | some msg ↦ flush_accepted (accept_inbound s msg)
    ]

    -- The loop itself, on the frames that the client sends before it closes the connection.
    unfoldable pub serve : ReplaySession × Status → List String → ReplaySession × Status
    unfolding receive
    serve (s, ok) [] = (s, ok)
    serve (s, ok) (frame ∷ frames) = serve (receive s frame) frames
    serve (s, status) frames = (s, status)

    unfoldable pub handle_ws : List Entry → List String → ReplaySession × Status
    unfolding serve flush_outbound_until_input
    handle_ws entries frames =
        serve (flush_outbound_until_input (record { entries = entries; pos = 0; sent = [] })) frames

    -- The entries are played when each "out" is sent and each "in" is received, in their order:
    -- `sent` are the texts of the former, `frames` are equivalent to the latter.
    unfoldable pub Played : List Entry → List String → List String → Type 0
    Played [] sent frames = (sent ≡ []) × (frames ≡ [])
    Played (entry ∷ entries) sent frames =
        (entry.direction ≡ "out")
          × ((text : String) × (later : List String) × (marshal entry.message ≡ some text)
              × (sent ≡ text ∷ later)
              × Played entries later frames)
        ⊎ (entry.direction ≡ "in")
          × ((frame : String) × (later : List String) × (msg : Message) × (frames ≡ frame ∷ later)
              × (unmarshal frame ≡ some msg)
              × (messages_equivalent entry.message (some msg) ≡ true)
              × Played entries sent later)
