-- ===== src/Juggler.antt =====
-- pkg/backend/juggler/client.go and messages.go: the client of the Juggler protocol. Callers and the read loop
-- run at the same time: a history is a sequence of the steps below, each of which the code performs under a
-- lock or as one operation on a channel.
pub mod Delivery
use Prim.Native.String.{◌++◌ as text_append}
use foxbridge.Common.{
  ℕ, ◌+◌, ◌%◌, ◌^◌, String, ◌≡◌, Bool, true, false, not, ◌&&◌, List, [], ◌∷◌, ◌++◌, Option, none,
  some, string_key, nat_key, ◌==◌, if◌then◌else◌,
}
use foxbridge.Dict.{Dict, empty, get, put, delete}
use foxbridge.Heap.{Heap, nothing, load, store, alloc}

pub record Error : Type 0 where
  pub message : String
  pub details : String

-- A message of the protocol, its id an int in two's complement on 64 bits. `none` stands for parameters, a
-- result or an error that is nil.
pub record Message : Type 0 where
  pub id : ℕ
  pub method : String
  pub params : Option String
  pub result : Option String
  pub error : Option Error
  pub session_id : String

-- `Error.Error`.
unfoldable pub error_text : Error → String
error_text e =
    if not (e.details == "") then text_append e.message (text_append ": " e.details) else e.message

unfoldable pub is_event : Message → Bool
is_event m = m.id == 0 && not (m.method == "")

unfoldable pub is_response : Message → Bool
is_response m = not (m.id == 0) && m.method == ""

-- A handler is a number. A channel of capacity one is a cell that holds a message or none; `pending` has the
-- pointers of the channels. `is_done` says that the channel `done` is closed. `running` are the handlers that the
-- read loop has still to return from, the first of them being run: it runs them itself, and receives nothing
-- meanwhile.
pub record Client : Type 0 where
  pub next_id : ℕ
  pub pending : Dict ℕ ℕ
  pub channels : Heap (Option Message)
  pub handlers : Dict String (List ℕ)
  pub is_done : Bool
  pub running : List ℕ

unfoldable pub new_client : Client
new_client = record {
  next_id = 0;
  pending = empty;
  channels = nothing none;
  handlers = empty;
  is_done = false;
  running = [];
}

-- The beginning of `CallWithContext`: the number and the channel of the call, and the message it sends. The
-- counter is an int, in two's complement on 64 bits.
unfoldable pub begin_call : Client → String → String → Option String → Client × ℕ × ℕ × Message
begin_call c session_id method params =
    let id = (c.next_id + 1) % 2 ^ 64 in
    let p = c.channels.next in
    (
      record c { next_id = id; channels = alloc c.channels none; pending = put c.pending id p },
      id,
      p,
      record {
        id = id;
        method = method;
        params = params;
        result = none;
        error = none;
        session_id = session_id;
      },
    )

-- The call is given up with an error: sending fails, or the context ends.
unfoldable pub give_up : Client → ℕ → Client
give_up c id = record c { pending = delete c.pending id }

-- What the caller returns: a result or an error.
pub data Returned : Type 0 where
  result : Option String → Returned
  error : String → Returned

abbrev outcome : Message → Option Error → Returned
outcome m none = result m.result
outcome m (some e) = error (error_text e)

-- `resp := <-ch` in the `select` of the call, once there is a response.
unfoldable pub take : Client → ℕ → Option (Client × Returned)
take c p = elim (load c.channels p) [
  | none ↦ none
  | some m ↦ some (record c { channels = store c.channels p none }, outcome m m.error)
]

abbrev result_of : Option (Client × Returned) → List Returned
result_of none = []
result_of (some (c, r)) = r ∷ []

abbrev handlers_of : Option (List ℕ) → List ℕ
handlers_of none = []
handlers_of (some l) = l

-- `<-c.done` in the `select`: the entry of the call stays where it is.
unfoldable pub leave : Client → Option (Client × Returned)
leave c = if c.is_done then some (c, error "client closed") else none

-- What the call returns by the cases of its `select` that are ready, of which Go picks one. The end of the context
-- is `give_up`.
unfoldable pub ready_cases : Client → ℕ → List Returned
unfolding take leave
ready_cases c p = result_of (take c p) ++ result_of (leave c)

abbrev rest_of : List ℕ → List ℕ
rest_of [] = []
rest_of (h ∷ l) = l

unfoldable pub subscribe : Client → String → ℕ → Client
subscribe c event h = record c {
  handlers = put c.handlers event (handlers_of (get c.handlers event) ++ h ∷ []);
}

unfoldable pub close : Client → Client
close c = record c { is_done = true }

-- `ch <- msg`: `none` is a read loop that blocks, since the channel has a message already.
unfoldable pub send_to : Client → Message → ℕ → Option Client
send_to c m p = elim (load c.channels p) [
  | none ↦ some (record c { channels = store c.channels p (some m) })
  | some old ↦ none
]

abbrev deliver : Client → Message → Option ℕ → Option Client
deliver c m none = some c
deliver c m (some p) = send_to (record c { pending = delete c.pending m.id }) m p

-- One round of the read loop on a message, up to the handlers of an event.
unfoldable pub read_message : Client → Message → Option Client
read_message c m =
    if is_response m
    then deliver c m (get c.pending m.id)
    else if is_event m
    then some (record c { running = handlers_of (get c.handlers m.method) })
    else some c

-- The first handler returns. One that panics or waits for ever never does.
unfoldable pub handler_returned : Client → Client
handler_returned c = record c { running = rest_of c.running }

-- The round in which `Receive` fails.
unfoldable pub read_failed : Client → Client
read_failed c = if c.is_done then c else close c

-- The states that some interleaving of callers and the read loop leads to. What a handler does to the client is
-- steps of callers, and the read loop receives only once the handlers of the last event have returned.
pub data Reach : Client → Type 0 where
  new : Reach new_client
  began :
      (c : Client) (session_id method : String) (params : Option String)
      → Reach c
      → Reach (begin_call c session_id method params).0
  gave_up : (c : Client) (id : ℕ) → Reach c → Reach (give_up c id)
  took : (c c' : Client) (p : ℕ) (r : Returned) → Reach c → take c p ≡ some (c', r) → Reach c'
  left : (c c' : Client) (r : Returned) → Reach c → leave c ≡ some (c', r) → Reach c'
  subscribed : (c : Client) (event : String) (h : ℕ) → Reach c → Reach (subscribe c event h)
  closed : (c : Client) → Reach c → Reach (close c)
  read :
      (c c' : Client) (m : Message)
      → Reach c
      → c.running ≡ []
      → read_message c m ≡ some c'
      → Reach c'
  ran : (c : Client) → Reach c → Reach (handler_returned c)
  failed : (c : Client) → Reach c → c.running ≡ [] → Reach (read_failed c)
