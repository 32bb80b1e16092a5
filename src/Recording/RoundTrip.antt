-- ===== src/Recording/RoundTrip.antt =====
-- pkg/recording: a session that is recorded to a file is played back from that file. encoding/json is
-- a parameter, with what the recorder and the replay server rely on as hypotheses.
use foxbridge.Common.{
  ◌+◌, ◌%◌, ◌^◌, String, ◌≡◌, refl, ap, sym, ◌∙◌, ◌⊎◌, inl, inr, Bool, true, List, [], ◌∷◌, ◌++◌,
  Option, some, arith, string_key, length, append_assoc, append_nil,
}
use foxbridge.Cdp.Message.{Message}
use foxbridge.Recording.{Entry}
use foxbridge.Recording.Capture.{
  Recorder, new_recorder, clone_message, write_entry, record_message, record_all, load_entries,
  load_file,
}
use foxbridge.Recording.Replay.{ok, Played, messages_equivalent, handle_ws}
use foxbridge.Recording.Replay.Complete.{handle_ws-Played}

-- A session: the messages in their order, each with its direction. `outs` and `ins` are the texts
-- that the server sent and received. What it received was a message.
unfoldable pub Transcript :
    (Option Message → Option String)
    → List (String × Option Message)
    → List String
    → List String
    → Type 0
Transcript marshal [] outs ins = (outs ≡ []) × (ins ≡ [])
Transcript marshal ((direction, msg) ∷ l) outs ins =
    (direction ≡ "out")
      × ((text : String) × (later : List String) × (marshal msg ≡ some text)
          × (outs ≡ text ∷ later)
          × Transcript marshal l later ins)
    ⊎ (direction ≡ "in")
      × ((text : String) × (later : List String) × (sent : Message) × (msg ≡ some sent)
          × (marshal msg ≡ some text)
          × (ins ≡ text ∷ later)
          × Transcript marshal l outs later)

same_text-equal :
    (marshal : Option Message → Option String) (accepts : List String → String → Bool)
    {a b : Option Message} {text : String}
    → marshal a ≡ some text
    → marshal b ≡ some text
    → messages_equivalent marshal accepts a b ≡ true
unfolding messages_equivalent
same_text-equal marshal accepts h k = ground arith

module _ (marshal : Option Message → Option String) (accepts : List String → String → Bool)
    (unmarshal : String → Option Message) {Line : Type 0} (encode : Entry → Option Line)
    (decode : Line → Option Entry)
    -- empty raw messages are omitted, like nil ones
    (omits_empty : (msg : Option Message) → marshal (clone_message msg) ≡ marshal msg)
    -- an entry whose message can be written can be written itself, and is read again with the same
    -- direction and with an equal text of its message
    (reads_entry : (entry : Entry) (text : String)
      → marshal entry.message ≡ some text
      → (line : Line) × (again : Entry) × (encode entry ≡ some line)
        × (decode line ≡ some again)
        × (again.direction ≡ entry.direction)
        × (marshal again.message ≡ some text))
    -- a message, which is not nil, is read from its text, and what is read has that text
    (reads_message : (msg : Message) (text : String)
      → marshal (some msg) ≡ some text
      → (again : Message) × (unmarshal text ≡ some again) × (marshal (some again) ≡ some text))
    (open_line : (sent : List String) (text : String) → accepts sent text ≡ true) where
  Decodes : List Line → List Entry → Type 0
  Decodes lines [] = lines ≡ []
  Decodes lines (entry ∷ entries) =
      (line : Line) × (rest : List Line) × (lines ≡ line ∷ rest)
      × (decode line ≡ some entry)
      × Decodes rest entries

  load_entries-Decodes :
      (acc : List Entry) (lines : List Line) (entries : List Entry)
      → Decodes lines entries
      → load_entries decode acc lines ≡ some (acc ++ entries)
  unfolding Decodes load_entries
  load_entries-Decodes acc lines [] h = rw (h, append_nil acc)
  load_entries-Decodes acc lines (entry ∷ entries) (line, rest, e, d, h) = rw (
    e,
    d,
    load_entries-Decodes (acc ++ entry ∷ []) rest entries h,
    append_assoc acc (entry ∷ []) entries,
  )

  Recorded : Recorder Line → List (String × Option Message) → List String → List String → Type 0
  Recorded r l outs ins =
      (lines : List Line) × (entries : List Entry) × ((record_all encode r l).file
        ≡ r.file ++ lines)
      × Decodes lines entries
      × Played marshal accepts unmarshal entries outs ins

  record_one :
      (r : Recorder Line) (direction : String) (msg : Option Message) (text : String)
      → marshal msg ≡ some text
      → (line : Line) × (entry : Entry) × ((record_message encode r direction msg).0.file
          ≡ r.file ++ line ∷ [])
        × (decode line ≡ some entry)
        × (entry.direction ≡ direction)
        × (marshal entry.message ≡ some text)
  unfolding record_message write_entry
  record_one r direction msg text m =
      let entry : Entry = record {
        seq = (r.seq + 1) % 2 ^ 64;
        direction = direction;
        message = clone_message msg;
      } in
      let (line, again, e, d, i, t) = reads_entry entry text (omits_empty msg ∙ m) in
      (line, again, rw e, d, i, t)

  record_all-Recorded :
      (r : Recorder Line) (l : List (String × Option Message)) (outs ins : List String)
      → Transcript marshal l outs ins
      → Recorded r l outs ins
  unfolding Transcript Recorded record_all Decodes Played
  record_all-Recorded r [] outs ins h = ([], [], sym (append_nil r.file), refl, h)
  record_all-Recorded r ((direction, msg) ∷ l) outs ins (inl (o, (text, later, m, e, h))) =
      let (line, entry, f, d, i, t) = record_one r direction msg text m in
      let (lines, entries, f', d', p) =
        record_all-Recorded (record_message encode r direction msg).0 l later ins h in
      (
        line ∷ lines,
        entry ∷ entries,
        rw (f', f, append_assoc r.file (line ∷ []) lines),
        (line, lines, refl, d, d'),
        inl (i ∙ o, (text, later, t, e, p)),
      )
  record_all-Recorded r ((direction, msg) ∷ l) outs ins (inr (o, (text, later, sent, g, m, e, h))) =
      let (line, entry, f, d, i, t) = record_one r direction msg text m in
      let (lines, entries, f', d', p) =
        record_all-Recorded (record_message encode r direction msg).0 l outs later h in
      let (again, u, a) = reads_message sent text (ap marshal (sym g) ∙ m) in
      (
        line ∷ lines,
        entry ∷ entries,
        rw (f', f, append_assoc r.file (line ∷ []) lines),
        (line, lines, refl, d, d'),
        inr (i ∙ o, (text, later, again, e, u, same_text-equal marshal accepts t a, p)),
      )

  -- For encoding/json as the hypotheses describe it and a connection that accepts every write: a
  -- session that a new recorder has recorded is loaded from the file, and a client that sends the
  -- recorded inbound texts again is sent exactly the recorded outbound texts; the session ends
  -- without an error, at the end of the recording.
  pub replay-record :
      (history : List (String × Option Message)) (outs ins : List String)
      → Transcript marshal history outs ins
      → (entries : List Entry) × (load_file decode (record_all encode new_recorder history)
          ≡ some entries)
        × (handle_ws marshal accepts unmarshal entries ins
            ≡ (record { entries = entries; pos = length entries; sent = outs }, ok))
  unfolding Recorded
  replay-record history outs ins h =
      let (lines, entries, f, d, p) = record_all-Recorded new_recorder history outs ins h in
      (
        entries,
        rw f (load_entries-Decodes [] lines entries d),
        handle_ws-Played marshal accepts unmarshal open_line entries outs ins p,
      )
