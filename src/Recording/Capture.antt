-- ===== src/Recording/Capture.antt =====
-- pkg/recording/capture.go: the recorder. encoding/json is a parameter: `Line` is the type of an
-- encoded entry, and the file is the list of those written to it.
use foxbridge.Common.{
  ◌>>=◌, ℕ, ◌+◌, ◌%◌, ◌^◌, String, Bool, true, false, List, [], ◌∷◌, ◌++◌, Option, none, some,
  string_key, ◌==◌, if◌then◌else◌,
}
use foxbridge.Cdp.Message.{Message}
use foxbridge.Recording.{Entry}

-- `seq` is Go's int, in two's complement on 64 bits.
pub record Recorder (Line : Type 0) : Type 0 where
  pub file : List Line
  pub seq : ℕ

abbrev pub new_recorder : {Line : Type 0} → Recorder Line
new_recorder = record { file = []; seq = 0 }

-- append([]byte(nil), raw...), which is nil for an empty slice
abbrev pub clone_raw : Option String → Option String
clone_raw none = none
clone_raw (some raw) = if raw == "" then none else some raw

abbrev pub clone_message : Option Message → Option Message
clone_message none = none
clone_message (some msg) =
    some (record msg { params = clone_raw msg.params; result = clone_raw msg.result })

module _ {Line : Type 0} (encode : Entry → Option Line) where
  -- The number is used up although the entry cannot be encoded.
  unfoldable pub write_entry : Recorder Line → Option Line → Recorder Line × Bool
  write_entry r none = (r, false)
  write_entry r (some line) = (record r { file = r.file ++ line ∷ [] }, true)

  -- The Boolean tells that no error is returned.
  unfoldable pub record_message : Recorder Line → String → Option Message → Recorder Line × Bool
  unfolding write_entry
  record_message r direction msg =
      let seq = (r.seq + 1) % 2 ^ 64 in
      write_entry (record r { seq = seq })
        (encode (record { seq = seq; direction = direction; message = clone_message msg }))

  -- The calls that the connections of a server make, in their order.
  unfoldable pub record_all : Recorder Line → List (String × Option Message) → Recorder Line
  unfolding record_message
  record_all r [] = r
  record_all r ((direction, msg) ∷ l) = record_all (record_message r direction msg).0 l

module _ {Line : Type 0} (decode : Line → Option Entry) where
  -- `none` is the error of an entry that cannot be decoded.
  unfoldable pub load_entries : List Entry → List Line → Option (List Entry)
  load_entries entries [] = some entries
  load_entries entries (line ∷ file) = do
    entry ← decode line
    load_entries (entries ++ entry ∷ []) file

  abbrev pub load_file : Recorder Line → Option (List Entry)
  load_file r = load_entries [] r.file
