-- ===== src/Recording/Replay/Complete.antt =====
-- pkg/recording: a client that sends what was recorded is played back what was recorded.
use foxbridge.Common.{
  string_discrete, ◌==◌, suc, ◌+◌, String, ◌≡◌, refl, sym, ap, ◌∙◌, inl, inr, Bool, true, false,
  List, [], ◌∷◌, ◌++◌, Option, some, arith, string_key, length, append_assoc, append_nil,
  length-append,
}
use foxbridge.Cdp.Message.{Message}
use foxbridge.Recording.{Entry}
use foxbridge.Recording.Replay.Rounds.{at_pos, from_pos}
use foxbridge.Recording.Replay.{
  ReplaySession, Status, ok, Played, flush_from, flush_outbound_until_input, messages_equivalent,
  accept_inbound, accept_entry, flush_accepted, receive, serve, handle_ws,
}

in_not_out : (◌==◌ {K = String} "in" "out") ≡ false
unfolding string_discrete
in_not_out = refl

not_out : (entry : Entry) → entry.direction ≡ "in" → (entry.direction == "out") ≡ false
not_out entry h = rw h in_not_out

module _ (marshal : Option Message → Option String) (accepts : List String → String → Bool)
    (unmarshal : String → Option Message)
    (open_line : (sent : List String) (text : String) → accepts sent text ≡ true) where
  flush_from-out :
      (entry : Entry) (rest : List Entry) (s : ReplaySession) (text : String)
      → entry.direction ≡ "out"
      → marshal entry.message ≡ some text
      → flush_from marshal accepts (entry ∷ rest) s
        ≡ flush_from marshal accepts rest (record s { pos = suc s.pos; sent = s.sent ++ text ∷ [] })
  unfolding flush_from
  flush_from-out entry rest s text h m = ground (arith, open_line s.sent text)

  flush_from-in :
      (entry : Entry) (rest : List Entry) (s : ReplaySession)
      → entry.direction ≡ "in"
      → flush_from marshal accepts (entry ∷ rest) s ≡ (s, ok)
  unfolding flush_from
  flush_from-in entry rest s h = ground (arith, not_out entry h)

  accept_entry-in :
      (s : ReplaySession) (msg : Message) (entry : Entry)
      → entry.direction ≡ "in"
      → messages_equivalent marshal accepts entry.message (some msg) ≡ true
      → accept_entry marshal accepts s msg (some entry) ≡ (record s { pos = suc s.pos }, ok)
  unfolding accept_entry
  accept_entry-in s msg entry h m = ground arith

  module _ (done rest : List Entry) (entry : Entry) (s : ReplaySession)
      (e : s.entries ≡ done ++ entry ∷ rest) (p : s.pos ≡ length done) where
    accept_inbound-in :
        (msg : Message)
        → entry.direction ≡ "in"
        → messages_equivalent marshal accepts entry.message (some msg) ≡ true
        → accept_inbound marshal accepts s msg ≡ (record s { pos = suc s.pos }, ok)
    unfolding accept_inbound
    accept_inbound-in msg h m = rw (at_pos done rest entry s e p, accept_entry-in s msg entry h m)

    receive-in :
        (frame : String) (msg : Message)
        → entry.direction ≡ "in"
        → unmarshal frame ≡ some msg
        → messages_equivalent marshal accepts entry.message (some msg) ≡ true
        → receive marshal accepts unmarshal s frame
          ≡ flush_from marshal accepts rest (record s { pos = suc s.pos })
    unfolding receive flush_accepted flush_outbound_until_input
    receive-in frame msg h u m =
        ground (arith, accept_inbound-in msg h m, from_pos done rest entry s e p, u)

  ends : ReplaySession → List Entry → List String → ReplaySession × Status
  ends s todo sent = (record s { pos = s.pos + length todo; sent = s.sent ++ sent }, ok)

  serve-step :
      (s : ReplaySession) (frame : String) (later frames : List String)
      → frames ≡ frame ∷ later
      → serve marshal accepts unmarshal (s, ok) frames
        ≡ serve marshal accepts unmarshal (receive marshal accepts unmarshal s frame) later
  unfolding serve
  serve-step s frame later frames a = rw a

  serve-Played :
      (done todo : List Entry) (s : ReplaySession) (sent frames : List String)
      → s.entries ≡ done ++ todo
      → s.pos ≡ length done
      → Played marshal accepts unmarshal todo sent frames
      → serve marshal accepts unmarshal (flush_from marshal accepts todo s) frames
        ≡ ends s todo sent
  unfolding Played ends
  serve-Played done [] s sent frames e p (a, b) =
      unfold flush_from serve in ground (arith, append_nil s.sent)
  serve-Played done (entry ∷ rest) s sent frames e p (inl (h, (text, later, m, a, q))) =
      let s' : ReplaySession = record s { pos = suc s.pos; sent = s.sent ++ text ∷ [] } in
      let i =
        serve-Played (done ++ entry ∷ []) rest s' later frames
          (e ∙ sym (append_assoc done (entry ∷ []) rest))
          (omega (arith, length-append done (entry ∷ []), p)) q in
      let n : suc s.pos + length rest ≡ s.pos + length (entry ∷ rest) = omega arith in
      rw (flush_from-out entry rest s text h m, i, a, append_assoc s.sent (text ∷ []) later, n)
  serve-Played done (entry ∷ rest) s sent frames e p (inr (h, (frame, later, msg, a, u, m, q))) =
      let s' : ReplaySession = record s { pos = suc s.pos } in
      let i =
        serve-Played (done ++ entry ∷ []) rest s' sent later
          (e ∙ sym (append_assoc done (entry ∷ []) rest))
          (omega (arith, length-append done (entry ∷ []), p)) q in
      let start =
        ap (λ x. serve marshal accepts unmarshal x frames) (flush_from-in entry rest s h) in
      let first =
        ap (λ x. serve marshal accepts unmarshal x later)
          (receive-in done rest entry s e p frame msg h u m) in
      let n : suc s.pos + length rest ≡ s.pos + length (entry ∷ rest) = omega arith in
      start ∙ serve-step s frame later frames a ∙ first ∙ rw (i, n)

  -- A client whose frames are equivalent to the recorded "in" messages, one by one and in their
  -- order, over a connection that accepts every write: the session consumes the whole recording
  -- and all the frames, ends without an error, and has sent exactly the texts of the "out" messages.
  pub handle_ws-Played :
      (entries : List Entry) (sent frames : List String)
      → Played marshal accepts unmarshal entries sent frames
      → handle_ws marshal accepts unmarshal entries frames
        ≡ (record { entries = entries; pos = length entries; sent = sent }, ok)
  unfolding handle_ws flush_outbound_until_input ends
  handle_ws-Played entries sent frames q =
      serve-Played [] entries (record { entries = entries; pos = 0; sent = [] }) sent frames refl
        refl q
      ∙ ap (λ n. (record { entries = entries; pos = n; sent = sent }, ok)) (omega arith)
