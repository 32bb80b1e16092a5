-- ===== src/Bridge/Streams.antt =====
-- pkg/bridge/io.go: the streams of printed pages. The decoding of the handle, which ignores its
-- errors, and the encoding of the result are parameters.
pub mod Owners
use Prim.Native.String.{◌++◌}
use foxbridge.Common.{
  String, Bool, true, not, ◌&&◌, Option, none, some, string_key, ◌==◌, if◌then◌else◌,
}
use foxbridge.Dict.{Dict, get, delete}
use foxbridge.Cdp.Message.{Message, Error, negsuc}

-- The maps `pdfStreams` and `pdfOwners` of the bridge.
pub record Streams : Type 0 where
  pub pdf_streams : Dict String String
  pub pdf_owners : Dict String String

abbrev owner_or_empty : Option String → String
owner_or_empty none = ""
owner_or_empty (some owner) = owner

-- The stream has an owner, which is not the session.
unfoldable pub is_foreign : Streams → String → String → Bool
is_foreign s handle session_id =
    let owner = owner_or_empty (get s.pdf_owners handle) in
    not (owner == "") && not (owner == session_id)

abbrev pub Answer : Type 0
Answer = Option String × Option Error

abbrev pub stream_not_found : String → Answer
stream_not_found handle =
    (none, some (record { code = negsuc 31999; message = "stream not found: " ++ handle }))

module _ (decode_handle : String → String) (read_result : String → String) where
  abbrev pub handle_of : Message → String
  handle_of msg = elim msg.params [ none ↦ "" | some raw ↦ decode_handle raw ]

  abbrev read_found : String → Option String → Answer
  read_found handle none = stream_not_found handle
  read_found handle (some text) = (some (read_result text), none)

  unfoldable pub handle_io : Streams → Message → Streams × Answer
  handle_io s msg =
      let handle = handle_of msg in
      if msg.method == "IO.read"
      then if is_foreign s handle msg.session_id
        then (s, stream_not_found handle)
        else (s, read_found handle (get s.pdf_streams handle))
      else if msg.method == "IO.close"
      then if is_foreign s handle msg.session_id then (s, stream_not_found handle) else (
        record {
          pdf_streams = delete s.pdf_streams handle;
          pdf_owners = delete s.pdf_owners handle;
        },
        (some "{}", none),
      )
      else (s, (some "{}", none))
