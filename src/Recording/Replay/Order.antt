-- ===== src/Recording/Replay/Order.antt =====
-- pkg/recording/replay.go: whatever a client sends, it is played back the recording in its order.
use foxbridge.Common.{
  subst⁻¹, suc, String, ◌≡◌, ◌≢◌, refl, sym, ap, ◌∙◌, ◌⊎◌, inl, inr, Bool, true, List, [], ◌∷◌,
  ◌++◌, Option, some, arith, string_key, length, append_assoc, append_nil, length-append,
}
use foxbridge.Cdp.Message.{Message}
use foxbridge.Recording.{Entry}
use foxbridge.Recording.Replay.{
  ReplaySession, Status, ok, mismatch, panicked, invalid_inbound, exhausted, expected_outbound,
  marshal_failed, write_failed, Played, flush_from, flush_outbound_until_input, messages_equivalent,
  receive, serve, handle_ws,
}
use foxbridge.Recording.Replay.Rounds.{Advance, Played-append, flush_from-advances, receive-cases}

module _ (marshal : Option Message → Option String) (accepts : List String → String → Bool)
    (unmarshal : String → Option Message) where
  serve-ends :
      (s : ReplaySession) (st : Status) (frames : List String)
      → (st ≢ ok) ⊎ (frames ≡ [])
      → serve marshal accepts unmarshal (s, st) frames ≡ (s, st)
  unfolding serve
  serve-ends s ok [] h = refl
  serve-ends s ok (frame ∷ frames) h = ground arith
  serve-ends s marshal_failed frames h = refl
  serve-ends s write_failed frames h = refl
  serve-ends s exhausted frames h = refl
  serve-ends s expected_outbound frames h = refl
  serve-ends s mismatch frames h = refl
  serve-ends s panicked frames h = refl
  serve-ends s invalid_inbound frames h = refl

  Played-one :
      (entry : Entry) (frame : String) (msg : Message)
      → entry.direction ≡ "in"
      → unmarshal frame ≡ some msg
      → messages_equivalent marshal accepts entry.message (some msg) ≡ true
      → Played marshal accepts unmarshal (entry ∷ []) [] (frame ∷ [])
  unfolding Played
  Played-one entry frame msg d u m = inr (d, (frame, [], msg, refl, u, m, (refl, refl)))

  Behind : ReplaySession → List Entry → Type 0
  Behind s todo = (done : List Entry) × (s.entries ≡ done ++ todo) × (s.pos ≡ length done)

  receive-advances :
      (s : ReplaySession) (todo : List Entry) (used : List String) (out : ReplaySession)
      (frame : String)
      → Behind s todo
      → Advance marshal accepts unmarshal s todo used (out, ok)
      → Advance marshal accepts unmarshal s todo used (receive marshal accepts unmarshal out frame)
          × ((receive marshal accepts unmarshal out frame).1 ≢ ok)
        ⊎ Advance marshal accepts unmarshal s todo
            (used ++ frame ∷ [])
            (receive marshal accepts unmarshal out frame)
  unfolding Behind
  receive-advances s todo used out frame (done, e, p) (played, rest, sent, t, i, j, q, n) =
      let f : out.entries ≡ (done ++ played) ++ rest =
        i ∙ e ∙ ap (λ l. done ++ l) t ∙ sym (append_assoc done played rest) in
      let m : out.pos ≡ length (done ++ played) =
        omega (arith, n refl, p, length-append done played) in
      elim (receive-cases marshal accepts unmarshal (done ++ played) rest out frame f m) [
        | inl (st, b, r) ↦ inl (
          subst⁻¹ (Advance marshal accepts unmarshal s todo used) r
              (played, rest, sent, t, i, j, q, λ h. absurd (b h)),
          rw r b,
        )
        | inr (entry, rest', msg, l, d, u, v, r) ↦
            let next : ReplaySession = record out { pos = suc out.pos } in
            let (played', left, sent', t', i', j', q', n') =
              flush_from-advances marshal accepts unmarshal rest' next in
            inr (
              subst⁻¹ (Advance marshal accepts unmarshal s todo (used ++ frame ∷ [])) r (
                played ++ entry ∷ played',
                left,
                sent ++ sent',
                t
                    ∙ ap (λ x. played ++ x) (l ∙ ap (λ x. entry ∷ x) t')
                    ∙ sym (append_assoc played (entry ∷ played') left),
                i' ∙ i,
                j' ∙ ap (λ x. x ++ sent') j ∙ append_assoc s.sent sent sent',
                Played-append marshal accepts unmarshal played (entry ∷ played') sent sent' used
                    (frame ∷ []) q
                    (Played-append marshal accepts unmarshal (entry ∷ []) played' [] sent'
                      (frame ∷ []) [] (Played-one entry frame msg d u v) q'),
                λ h. omega (arith, n' h, n refl, length-append played (entry ∷ played')),
              ))
      ]

  serve-next :
      (s : ReplaySession) (frame : String) (frames : List String)
      → serve marshal accepts unmarshal (s, ok) (frame ∷ frames)
        ≡ serve marshal accepts unmarshal (receive marshal accepts unmarshal s frame) frames
  unfolding serve
  serve-next s frame frames = refl

  ended :
      (s : ReplaySession) (todo : List Entry) (used frames : List String)
      (out : ReplaySession × Status)
      → (out.1 ≢ ok) ⊎ (frames ≡ [])
      → Advance marshal accepts unmarshal s todo used out
      → Advance marshal accepts unmarshal s todo
          (used ++ [])
          (serve marshal accepts unmarshal out frames)
  ended s todo used frames out h a =
      subst⁻¹ (Advance marshal accepts unmarshal s todo (used ++ []))
        (serve-ends out.0 out.1 frames h)
        (subst⁻¹ (λ u. Advance marshal accepts unmarshal s todo u out) (append_nil used) a)

  Served : ReplaySession → List Entry → List String → List String → ReplaySession × Status → Type 0
  Served s todo used frames out =
      (more : List String) × (unused : List String) × (frames ≡ more ++ unused)
      × Advance marshal accepts unmarshal s todo (used ++ more) out

  serve-advances :
      (s : ReplaySession) (todo : List Entry) (used frames : List String)
      (out : ReplaySession × Status)
      → Behind s todo
      → Advance marshal accepts unmarshal s todo used out
      → Served s todo used frames (serve marshal accepts unmarshal out frames)
  unfolding Served
  serve-advances s todo used [] out b a = ([], [], refl, ended s todo used [] out (inr refl) a)
  serve-advances s todo used (frame ∷ frames) (out, ok) b a =
      let next = receive marshal accepts unmarshal out frame in
      elim (receive-advances s todo used out frame b a) [
        | inl (a', n) ↦ (
          [],
          frame ∷ frames,
          refl,
          subst⁻¹ (Advance marshal accepts unmarshal s todo (used ++ []))
              (serve-next out frame frames) (ended s todo used frames next (inl n) a'),
        )
        | inr a' ↦
            let (more, unused, e, a'') =
              serve-advances s todo (used ++ frame ∷ []) frames next b a' in
            (
              frame ∷ more,
              unused,
              rw e,
              subst⁻¹ (Advance marshal accepts unmarshal s todo (used ++ frame ∷ more))
                  (serve-next out frame frames)
                  (subst⁻¹
                    (λ u.
                      Advance marshal accepts unmarshal s todo u
                        (serve marshal accepts unmarshal next frames))
                    (sym (append_assoc used (frame ∷ []) more)) a''),
            )
      ]
  serve-advances s todo used (frame ∷ frames) (out, st) b a = (
    [],
    frame ∷ frames,
    refl,
    ended s todo used (frame ∷ frames) (out, st) (inl (λ h. ground arith)) a,
  )

  -- Whatever the recording, the frames that a client sends and the writes that fail: what the
  -- session has sent when it ends plays a first part of the recording against a first part of the
  -- frames. So the texts sent are those of the first "out" entries, in their order, and the "in"
  -- entries among them are equivalent, one by one, to the first frames.
  pub handle_ws-ordered :
      (entries : List Entry) (frames : List String)
      → (played : List Entry) × (rest : List Entry) × (used : List String) × (unused : List String)
        × (entries ≡ played ++ rest)
        × (frames ≡ used ++ unused)
        × Played marshal accepts unmarshal played
            (handle_ws marshal accepts unmarshal entries frames).0.sent
            used
  unfolding handle_ws flush_outbound_until_input Behind Served
  handle_ws-ordered entries frames =
      let s : ReplaySession = record { entries = entries; pos = 0; sent = [] } in
      let start = flush_from marshal accepts entries s in
      let (used, unused, f, (played, rest, sent, t, i, j, q, n)) =
        serve-advances s entries [] frames start ([], refl, refl)
          (flush_from-advances marshal accepts unmarshal entries s) in
      (
        played,
        rest,
        used,
        unused,
        t,
        f,
        subst⁻¹ (λ x. Played marshal accepts unmarshal played x used) j q,
      )
