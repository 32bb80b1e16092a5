-- ===== src/Tests/Juggler.antt =====
-- pkg/backend/juggler/client.go at concrete inputs: one call and its response.
use foxbridge.Common.{
  ℕ, ◌≡◌, ◌≢◌, refl, true, false, [], ◌∷◌, if◌then◌else◌, none, some, ℕ_discrete, string_discrete,
  nat_key,
}
use foxbridge.Dict.{empty, get, put}
use foxbridge.Heap.{load, store, nothing}
use foxbridge.Juggler.{
  Message, Client, Reach, new, began, new_client, begin_call, is_response, read_message, take,
  result, error, ready_cases, is_event,
}
use foxbridge.Juggler.Delivery.{read_message-returns, read_message-answers}

abbrev response : Message
response = record {
  id = 1;
  method = "";
  params = none;
  result = some "{}";
  error = none;
  session_id = "";
}

abbrev waiting : Client
waiting = (begin_call new_client "js" "Page.navigate" none).0

waiting-Reach : Reach waiting
waiting-Reach = began new_client "js" "Page.navigate" none new

is_reply : is_response response ≡ true
unfolding is_response string_discrete ℕ_discrete
is_reply = refl

is_waited : get waiting.pending 1 ≡ some 0
unfolding begin_call new_client get put empty ℕ_discrete nothing
is_waited = refl

is_no_event : is_event response ≡ false
unfolding is_event string_discrete ℕ_discrete
is_no_event = refl

is_idle : waiting.running ≡ []
unfolding begin_call new_client
is_idle = refl

read_message-returns_example :
    (c' : Client) × (read_message waiting response ≡ some c') × (c'.running ≡ [])
read_message-returns_example = read_message-returns waiting-Reach is_idle response is_no_event

read_message-answers_example :
    (c' : Client) × (read_message waiting response ≡ some c')
    × (ready_cases c' 0
        ≡ result (some "{}") ∷ (if waiting.is_done then error "client closed" ∷ [] else []))
    × (take c' 0 ≡ some (record c' { channels = store c'.channels 0 none }, result (some "{}")))
    × (read_message c' response ≡ some c')
    × ((j q : ℕ)
        → j ≢ 1
        → get waiting.pending j ≡ some q
        → (get c'.pending j ≡ some q) × (load c'.channels q ≡ none))
read_message-answers_example =
    read_message-answers response response 0 waiting-Reach is_reply is_reply refl is_waited
