-- ===== src/Bridge/Streams/Owners.antt =====
-- pkg/bridge/io.go: a stream is for the session that printed it.
use foxbridge.Common.{
  String, ◌≡◌, ◌≢◌, ◌⊎◌, refl, sym, ◌∙◌, false, none, some, arith, string_key, ◌==◌, if◌then◌else◌,
  inl, inr, string_discrete, differ, Bool-cases,
}
use foxbridge.Dict.{get, get-delete}
use foxbridge.Cdp.Message.{Message}
use foxbridge.Bridge.Streams.{Streams, is_foreign, handle_io, handle_of, stream_not_found}

-- The session has printed the stream, or no session is noted for it.
abbrev pub MayUse : Streams → String → String → Type 0
MayUse s handle session_id =
    (get s.pdf_owners handle ≡ none)
    ⊎ (get s.pdf_owners handle ≡ some "")
    ⊎ (get s.pdf_owners handle ≡ some session_id)

is_foreign-MayUse :
    (s : Streams) (handle session_id : String)
    → is_foreign s handle session_id ≡ false
    → MayUse s handle session_id
unfolding is_foreign
is_foreign-MayUse s handle session_id h = ground arith

MayUse-own :
    (s : Streams) (handle session_id : String)
    → MayUse s handle session_id
    → is_foreign s handle session_id ≡ false
unfolding is_foreign
MayUse-own s handle session_id h = ground arith

is_foreign-owners :
    (s s' : Streams) (handle session_id : String)
    → get s.pdf_owners handle ≡ get s'.pdf_owners handle
    → is_foreign s handle session_id ≡ is_foreign s' handle session_id
unfolding is_foreign
is_foreign-owners s s' handle session_id h = rw h refl

module _ (decode_handle : String → String) (read_result : String → String) where
  read_not_close : ◌≢◌ {A = String} "IO.close" "IO.read"
  unfolding string_discrete
  read_not_close = differ {K = String} _ _ refl

  -- The streams that a session may not use, those that another session has printed, are safe from its IO
  -- messages. What it is answered does not depend on their contents: in two states that have the same owners and
  -- the same streams for the session, it gets the same answer. And no IO message of it changes or removes them.
  pub handle_io-isolated :
      (s s' : Streams) (msg : Message)
      → ((h : String) → get s.pdf_owners h ≡ get s'.pdf_owners h)
      → ((h : String) → MayUse s h msg.session_id → get s.pdf_streams h ≡ get s'.pdf_streams h)
      → ((handle_io decode_handle read_result s msg).1
          ≡ (handle_io decode_handle read_result s' msg).1)
        × ((h : String)
            → ¬ MayUse s h msg.session_id
            → let after = (handle_io decode_handle read_result s msg).0 in
              (get after.pdf_streams h ≡ get s.pdf_streams h)
              × (get after.pdf_owners h ≡ get s.pdf_owners h))
  unfolding handle_io
  handle_io-isolated s s' msg owners streams =
      let handle = handle_of decode_handle read_result msg in
      let same = is_foreign-owners s s' handle msg.session_id (owners handle) in
      elim (Bool-cases (is_foreign s handle msg.session_id)) [
        | inl f ↦ (ground (arith, sym same ∙ f), λ h n. ground arith)
        | inr f ↦
            let mine = is_foreign-MayUse s handle msg.session_id f in
            (
              ground (arith, sym same ∙ f, streams handle mine),
              λ h n.
                  let other : (handle == h) ≡ false = ground (arith, mine, n) in
                  ground (
                    arith,
                    other,
                    get-delete s.pdf_streams handle h,
                    get-delete s.pdf_owners handle h,
                  ),
            )
      ]

  -- When a session has closed a stream and got no error: no session can read that stream any more, and whoever
  -- reads another one gets the answer that it would have got before.
  pub handle_io-closes :
      (s : Streams) (msg again : Message)
      → msg.method ≡ "IO.close"
      → (handle_io decode_handle read_result s msg).1.1 ≡ none
      → again.method ≡ "IO.read"
      → let closed = handle_of decode_handle read_result msg in
        let handle = handle_of decode_handle read_result again in
        (handle_io decode_handle read_result (handle_io decode_handle read_result s msg).0 again).1
        ≡ (if closed == handle
            then stream_not_found handle
            else (handle_io decode_handle read_result s again).1)
  unfolding handle_io is_foreign
  handle_io-closes s msg again m ok r =
      let closed = handle_of decode_handle read_result msg in
      let handle = handle_of decode_handle read_result again in
      ground (
        arith,
        read_not_close,
        get-delete s.pdf_streams closed handle,
        get-delete s.pdf_owners closed handle,
      )
