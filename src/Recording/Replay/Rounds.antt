-- ===== src/Recording/Replay/Rounds.antt =====
-- pkg/recording/replay.go: one round of a replay: what it sends, and where it stops.
use foxbridge.Common.{
  subst⁻¹, ℕ, suc, ◌+◌, String, ◌≡◌, ◌≢◌, refl, sym, ◌∙◌, ◌⊎◌, inl, inr, Bool, true, List, [], ◌∷◌,
  ◌++◌, Option, some, arith, string_key, ◌==◌, get_elem?, drop, length, drop-append,
  get_elem?-append, append_assoc, append_nil, length-append, Bool-cases, Option-cases,
}
use foxbridge.Cdp.Message.{Message}
use foxbridge.Recording.{Entry}
use foxbridge.Recording.Replay.{
  ReplaySession, Status, ok, mismatched, mismatch, panicked, invalid_inbound, exhausted,
  expected_outbound, marshal_failed, write_failed, Played, flush_from, flush_outbound_until_input,
  messages_equivalent, accept_inbound, accept_entry, flush_accepted, receive,
}

module _ (done rest : List Entry) (entry : Entry) (s : ReplaySession)
    (e : s.entries ≡ done ++ entry ∷ rest) (p : s.pos ≡ length done) where
  pub at_pos : get_elem? s.entries s.pos ≡ some entry
  at_pos = rw (e, p, get_elem?-append done (entry ∷ rest))

  pub from_pos : drop (suc s.pos) s.entries ≡ rest
  from_pos =
      let q : (done ++ entry ∷ []) ++ rest ≡ s.entries =
        append_assoc done (entry ∷ []) rest ∙ sym e in
      let n : length (done ++ entry ∷ []) ≡ suc s.pos =
        omega (arith, length-append done (entry ∷ []), p) in
      rw (sym q, sym n, drop-append (done ++ entry ∷ []) rest)

module _ (marshal : Option Message → Option String) (accepts : List String → String → Bool)
    (unmarshal : String → Option Message) where
  pub Played-append :
      (a b : List Entry) (s t f g : List String)
      → Played marshal accepts unmarshal a s f
      → Played marshal accepts unmarshal b t g
      → Played marshal accepts unmarshal (a ++ b) (s ++ t) (f ++ g)
  unfolding Played
  Played-append [] b s t f g (p, q) h = rw (p, q) h
  Played-append (e ∷ a) b s t f g (inl (d, (text, later, m, p, q))) h =
      inl (d, (text, later ++ t, m, rw p, Played-append a b later t f g q h))
  Played-append (e ∷ a) b s t f g (inr (d, (frame, later, msg, p, u, m, q))) h =
      inr (d, (frame, later ++ g, msg, rw p, u, m, Played-append a b s t later g q h))

  -- What one call leads to: some further entries are played, with the frames `used`, and unless it
  -- ends with an error the position is behind them.
  abbrev pub Advance : ReplaySession → List Entry → List String → ReplaySession × Status → Type 0
  Advance s todo used out =
      (played : List Entry) × (rest : List Entry) × (sent : List String) × (todo ≡ played ++ rest)
      × (out.0.entries ≡ s.entries)
      × (out.0.sent ≡ s.sent ++ sent)
      × Played marshal accepts unmarshal played sent used
      × (out.1 ≡ ok → out.0.pos ≡ s.pos + length played)

  pub stays :
      (s : ReplaySession) (todo : List Entry) (used : List String) (n : ℕ) (st : Status)
      → used ≡ []
      → (st ≡ ok → n ≡ s.pos)
      → Advance s todo used (record s { pos = n }, st)
  unfolding Played
  stays s todo used n st u h =
      ([], todo, [], refl, refl, sym (append_nil s.sent), (refl, u), λ e. omega (arith, h e))

  pub flush_from-cases :
      (entry : Entry) (rest : List Entry) (s : ReplaySession)
      → ((n : ℕ) × (st : Status) × (flush_from marshal accepts (entry ∷ rest) s
            ≡ (record s { pos = n }, st))
          × (st ≡ ok → n ≡ s.pos))
        ⊎ ((text : String) × (entry.direction ≡ "out")
            × (marshal entry.message ≡ some text)
            × (flush_from marshal accepts (entry ∷ rest) s
                ≡ flush_from marshal accepts rest
                    (record s { pos = suc s.pos; sent = s.sent ++ text ∷ [] })))
  unfolding flush_from
  flush_from-cases entry rest s = elim (Bool-cases (entry.direction == "out")) [
    | inr n ↦ inl (s.pos, ok, ground arith, λ e. refl)
    | inl y ↦ elim (Option-cases (marshal entry.message)) [
      | inl m ↦ inl (suc s.pos, marshal_failed, ground arith, λ e. ground arith)
      | inr (text, m) ↦ elim (Bool-cases (accepts s.sent text)) [
        | inr w ↦ inl (suc s.pos, write_failed, ground arith, λ e. ground arith)
        | inl w ↦ inr (text, ground arith, m, ground arith)
      ]
    ]
  ]

  pub flush_from-advances :
      (todo : List Entry) (s : ReplaySession)
      → Advance s todo [] (flush_from marshal accepts todo s)
  unfolding Played
  flush_from-advances [] s = unfold flush_from in stays s [] [] s.pos ok refl (λ e. refl)
  flush_from-advances (entry ∷ rest) s = elim (flush_from-cases entry rest s) [
    | inl (n, st, e, h) ↦
        subst⁻¹ (Advance s (entry ∷ rest) []) e (stays s (entry ∷ rest) [] n st refl h)
    | inr (text, d, m, e) ↦
        let s' : ReplaySession = record s { pos = suc s.pos; sent = s.sent ++ text ∷ [] } in
        let (played, left, sent, t, i, j, q, n) = flush_from-advances rest s' in
        subst⁻¹ (Advance s (entry ∷ rest) []) e (
          entry ∷ played,
          left,
          text ∷ sent,
          rw t,
          i,
          j ∙ append_assoc s.sent (text ∷ []) sent,
          inl (d, (text, sent, m, refl, q)),
          λ h. omega (arith, n h),
        )
  ]

  pub refused-passed_on :
      (s : ReplaySession) (st : Status) → st ≢ ok → flush_accepted marshal accepts (s, st) ≡ (s, st)
  unfolding flush_accepted
  refused-passed_on s ok h = absurd (h refl)
  refused-passed_on s marshal_failed h = refl
  refused-passed_on s write_failed h = refl
  refused-passed_on s exhausted h = refl
  refused-passed_on s expected_outbound h = refl
  refused-passed_on s mismatch h = refl
  refused-passed_on s panicked h = refl
  refused-passed_on s invalid_inbound h = refl

  pub accept_entry-cases :
      (s : ReplaySession) (msg : Message) (entry : Entry)
      → ((st : Status) × (st ≢ ok) × (accept_entry marshal accepts s msg (some entry) ≡ (s, st)))
        ⊎ ((entry.direction ≡ "in")
            × (messages_equivalent marshal accepts entry.message (some msg) ≡ true)
            × (accept_entry marshal accepts s msg (some entry)
                ≡ (record s { pos = suc s.pos }, ok)))
  unfolding accept_entry mismatched
  accept_entry-cases s msg entry = elim (Bool-cases (entry.direction == "in")) [
    | inr n ↦ inl (expected_outbound, (λ h. ground arith), ground arith)
    | inl y ↦ elim (Bool-cases (messages_equivalent marshal accepts entry.message (some msg))) [
      | inl q ↦ inr (ground arith, q, ground arith)
      | inr n ↦ elim (Option-cases entry.message) [
        | inl o ↦ inl (panicked, (λ h. ground arith), ground arith)
        | inr (m, o) ↦ inl (mismatch, (λ h. ground arith), ground arith)
      ]
    ]
  ]

  pub receive-cases :
      (done todo : List Entry) (s : ReplaySession) (frame : String)
      → s.entries ≡ done ++ todo
      → s.pos ≡ length done
      → ((st : Status) × (st ≢ ok) × (receive marshal accepts unmarshal s frame ≡ (s, st)))
        ⊎ ((entry : Entry) × (rest : List Entry) × (msg : Message) × (todo ≡ entry ∷ rest)
            × (entry.direction ≡ "in")
            × (unmarshal frame ≡ some msg)
            × (messages_equivalent marshal accepts entry.message (some msg) ≡ true)
            × (receive marshal accepts unmarshal s frame
                ≡ flush_from marshal accepts rest (record s { pos = suc s.pos })))
  unfolding receive flush_outbound_until_input
  receive-cases done [] s frame e p = elim (Option-cases (unmarshal frame)) [
    | inl u ↦ inl (invalid_inbound, (λ h. ground arith), ground arith)
    | inr (msg, u) ↦
        let a : accept_inbound marshal accepts s msg ≡ (s, exhausted) =
          unfold accept_inbound accept_entry in rw (e, p, get_elem?-append done []) in
        inl (exhausted, (λ h. ground arith), ground (arith, a, refused-passed_on s exhausted))
  ]
  receive-cases done (entry ∷ rest) s frame e p = elim (Option-cases (unmarshal frame)) [
    | inl u ↦ inl (invalid_inbound, (λ h. ground arith), ground arith)
    | inr (msg, u) ↦
        let a : accept_inbound marshal accepts s msg
            ≡ accept_entry marshal accepts s msg (some entry) =
          unfold accept_inbound in rw (at_pos done rest entry s e p) in
        elim (accept_entry-cases s msg entry) [
          | inl (st, n, q) ↦ inl (st, n, ground (arith, refused-passed_on s st n))
          | inr (d, m, q) ↦ inr (
            entry,
            rest,
            msg,
            refl,
            d,
            u,
            m,
            unfold flush_accepted in ground (arith, from_pos done rest entry s e p),
          )
        ]
  ]
