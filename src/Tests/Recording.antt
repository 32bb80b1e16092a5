-- ===== src/Tests/Recording.antt =====
-- pkg/recording at a concrete session, with a stand-in for encoding/json: a text for each method.
use foxbridge.Common.{
  String, ◌≡◌, refl, Bool, true, List, [], ◌∷◌, ◌++◌, Option, none, some, inl, inr, arith,
  string_key, length, string_discrete,
}
use foxbridge.Cdp.Message.{pos, Message}
use foxbridge.Recording.{Entry}
use foxbridge.Recording.Capture.{new_recorder, record_all, load_file, clone_message}
use foxbridge.Recording.Replay.{handle_ws, Played, ok, messages_equivalent}
use foxbridge.Recording.Replay.Order.{handle_ws-ordered}
use foxbridge.Recording.Replay.Complete.{handle_ws-Played}
use foxbridge.Recording.RoundTrip.{Transcript, replay-record}

abbrev message : String → Message
message method = record {
  id = pos 0;
  method = method;
  params = none;
  result = none;
  error = none;
  session_id = "";
}

abbrev marshal : Option Message → Option String
marshal none = some "null"
marshal (some msg) = some msg.method

abbrev unmarshal : String → Option Message
unmarshal text = some (message text)

abbrev accepts : List String → String → Bool
accepts sent text = true

abbrev entry : String → String → Entry
entry direction method = record { seq = 0; direction = direction; message = some (message method) }

abbrev entries : List Entry
entries = entry "out" "hello" ∷ entry "in" "go" ∷ entry "out" "done" ∷ []

entries-Played : Played marshal accepts unmarshal entries ("hello" ∷ "done" ∷ []) ("go" ∷ [])
unfolding Played messages_equivalent string_discrete
entries-Played = inl (
  refl,
  (
    "hello",
    "done" ∷ [],
    refl,
    refl,
    inr (
      refl,
      (
        "go",
        [],
        message "go",
        refl,
        refl,
        refl,
        inl (refl, ("done", [], refl, refl, (refl, refl))),
      ),
    ),
  ),
)

handle_ws-Played_example :
    handle_ws marshal accepts unmarshal entries ("go" ∷ [])
    ≡ (record { entries = entries; pos = length entries; sent = "hello" ∷ "done" ∷ [] }, ok)
handle_ws-Played_example =
    handle_ws-Played marshal accepts unmarshal (λ sent text. refl) entries ("hello" ∷ "done" ∷ [])
      ("go" ∷ []) entries-Played

handle_ws-ordered_example :
    (played : List Entry) × (rest : List Entry) × (used : List String) × (unused : List String)
    × (entries ≡ played ++ rest)
    × ("stop" ∷ [] ≡ used ++ unused)
    × Played marshal accepts unmarshal played
        (handle_ws marshal accepts unmarshal entries ("stop" ∷ [])).0.sent
        used
handle_ws-ordered_example = handle_ws-ordered marshal accepts unmarshal entries ("stop" ∷ [])

abbrev encode : Entry → Option (String × String)
encode e = elim (marshal e.message) [ none ↦ none | some text ↦ some (e.direction, text) ]

abbrev decode : String × String → Option Entry
decode (direction, text) = some (entry direction text)

clones : (msg : Option Message) → marshal (clone_message msg) ≡ marshal msg
clones none = refl
clones (some msg) = refl

reads_entry :
    (e : Entry) (text : String)
    → marshal e.message ≡ some text
    → (line : String × String) × (again : Entry) × (encode e ≡ some line)
      × (decode line ≡ some again)
      × (again.direction ≡ e.direction)
      × (marshal again.message ≡ some text)
reads_entry e text h = ((e.direction, text), entry e.direction text, ground arith, refl, refl, refl)

reads_message :
    (msg : Message) (text : String)
    → marshal (some msg) ≡ some text
    → (again : Message) × (unmarshal text ≡ some again) × (marshal (some again) ≡ some text)
reads_message msg text h = (message text, refl, refl)

abbrev history : List (String × Option Message)
history =
    ("out", some (message "hello"))
    ∷ ("in", some (message "go"))
    ∷ ("out", some (message "done"))
    ∷ []

history-Transcript : Transcript marshal history ("hello" ∷ "done" ∷ []) ("go" ∷ [])
unfolding Transcript
history-Transcript = inl (
  refl,
  (
    "hello",
    "done" ∷ [],
    refl,
    refl,
    inr (
      refl,
      (
        "go",
        [],
        message "go",
        refl,
        refl,
        refl,
        inl (refl, ("done", [], refl, refl, (refl, refl))),
      ),
    ),
  ),
)

replay-record_example :
    (loaded : List Entry) × (load_file decode (record_all encode new_recorder history)
      ≡ some loaded)
    × (handle_ws marshal accepts unmarshal loaded ("go" ∷ [])
        ≡ (record { entries = loaded; pos = length loaded; sent = "hello" ∷ "done" ∷ [] }, ok))
replay-record_example =
    replay-record marshal accepts unmarshal encode decode clones reads_entry reads_message
      (λ sent text. refl) history ("hello" ∷ "done" ∷ []) ("go" ∷ []) history-Transcript
