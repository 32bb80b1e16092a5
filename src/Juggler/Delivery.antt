-- ===== src/Juggler/Delivery.antt =====
-- pkg/backend/juggler/client.go: responses reach their calls, and the read loop never blocks on one.
use foxbridge.Common.{
  ℕ, ◌<◌, String, ◌≡◌, ◌≢◌, refl, ap, sym, ◌∙◌, subst⁻¹, inl, inr, Bool, true, false, List, [], ◌∷◌,
  if◌then◌else◌, Option, none, some, string_key, nat_key, Bool-cases, Option-cases, arith,
}
use foxbridge.Dict.{Dict, get, delete, dict_laws}
use foxbridge.Heap.{load, store, heap_laws}
use foxbridge.Juggler.{
  Message, Client, Reach, new, began, gave_up, took, left, subscribed, closed, read, ran, failed,
  new_client, leave, ready_cases, error, handler_returned, begin_call, give_up, take, subscribe,
  close, send_to, read_message, read_failed, is_response, Returned, outcome, is_event, handlers_of,
}

-- Every call that waits has a channel of its own, which exists and is empty.
pub record IsReady (c : Client) : Type 0 where
  pub empties : (id p : ℕ) → get c.pending id ≡ some p → load c.channels p ≡ none
  pub exist : (id p : ℕ) → get c.pending id ≡ some p → p < c.channels.next
  pub own : (i j p : ℕ) → get c.pending i ≡ some p → get c.pending j ≡ some p → i ≡ j

new_client-IsReady : IsReady new_client
unfolding new_client
new_client-IsReady = record {
  empties = λ id p h. grind (arith, dict_laws, h);
  exist = λ id p h. grind (arith, dict_laws, h);
  own = λ i j p h k. grind (arith, dict_laws, h);
}

begin_call-IsReady :
    (c : Client) (session_id method : String) (params : Option String)
    → IsReady c
    → IsReady (begin_call c session_id method params).0
unfolding begin_call
begin_call-IsReady c session_id method params r = record {
  empties = λ id p h. grind (arith, dict_laws, heap_laws, h, r.empties, r.exist);
  exist = λ id p h. grind (arith, dict_laws, heap_laws, h, r.exist);
  own = λ i j p h k. grind (arith, dict_laws, heap_laws, h, k, r.own, r.exist);
}

give_up-IsReady : (c : Client) (id : ℕ) → IsReady c → IsReady (give_up c id)
unfolding give_up
give_up-IsReady c id r = record {
  empties = λ i p h. grind (arith, dict_laws, h, r.empties);
  exist = λ i p h. grind (arith, dict_laws, h, r.exist);
  own = λ i j p h k. grind (arith, dict_laws, h, k, r.own);
}

-- The client in a result, where there is one.
abbrev got {ℓ} : {A : Type ℓ} → Client → Option (Client × A) → Client
got c none = c
got c (some (c', a)) = c'

abbrev or_same : Client → Option Client → Client
or_same c none = c
or_same c (some c') = c'

emptied-IsReady :
    (c : Client) (p : ℕ) → IsReady c → IsReady (record c { channels = store c.channels p none })
emptied-IsReady c p r = record {
  empties = λ i q h. grind (arith, heap_laws, h, r.empties);
  exist = λ i q h. grind (arith, heap_laws, h, r.exist);
  own = λ i j q h k. r.own i j q h k;
}

take-IsReady :
    (c c' : Client) (p : ℕ) (r : Returned) → IsReady c → take c p ≡ some (c', r) → IsReady c'
unfolding take
take-IsReady c c' p r ready h = elim (Option-cases (load c.channels p)) [
  | inl n ↦ absurd (ground arith)
  | inr (m, e) ↦
      let told : take c p
          ≡ some (record c { channels = store c.channels p none }, outcome m m.error) =
        rw (take, e) refl in
      subst⁻¹ IsReady (ap (got c) (sym h ∙ told)) (emptied-IsReady c p ready)
]

-- The state after a response has reached the channel that waits for it.
delivered-IsReady :
    (c : Client) (m : Message) (p : ℕ)
    → IsReady c
    → get c.pending m.id ≡ some p
    → IsReady (record c { pending = delete c.pending m.id; channels = store c.channels p (some m) })
delivered-IsReady c m p r w = record {
  empties = λ i q h. grind (arith, heap_laws, dict_laws, h, w, r.own m.id i p w, r.empties i q);
  exist = λ i q h. grind (arith, heap_laws, dict_laws, h, r.exist);
  own = λ i j q h k. grind (arith, dict_laws, h, k, r.own);
}

-- The round of the read loop on a response that a call waits for.
read_message-waited :
    (c : Client) (m : Message) (p : ℕ)
    → IsReady c
    → is_response m ≡ true
    → get c.pending m.id ≡ some p
    → read_message c m
      ≡ some (record c { pending = delete c.pending m.id; channels = store c.channels p (some m) })
unfolding read_message send_to
read_message-waited c m p r h w = rw (read_message, h, w, send_to, r.empties m.id p w) refl

read_message-dropped :
    (c : Client) (m : Message)
    → is_response m ≡ true
    → get c.pending m.id ≡ none
    → read_message c m ≡ some c
unfolding read_message
read_message-dropped c m h w = rw (read_message, h, w) refl

same-IsReady :
    {c : Client} {h : Dict String (List ℕ)} {b : Bool} {l : List ℕ}
    → IsReady c
    → IsReady (record c { handlers = h; is_done = b; running = l })
same-IsReady r = record { empties = r.empties; exist = r.exist; own = r.own }

-- Every round gets to the handlers, if there are any, and leaves the calls ready.
read_message-IsReady :
    (c : Client) (m : Message)
    → IsReady c
    → (c' : Client) × (read_message c m ≡ some c')
      × IsReady c'
      × (is_event m ≡ false → c'.running ≡ c.running)
unfolding read_message
read_message-IsReady c m r = elim (Bool-cases (is_response m)) [
  | inl h ↦ elim (Option-cases (get c.pending m.id)) [
    | inl n ↦ (c, read_message-dropped c m h n, r, λ e. refl)
    | inr (p, w) ↦ (_, read_message-waited c m p r h w, delivered-IsReady c m p r w, λ e. refl)
  ]
  | inr h ↦ elim (Bool-cases (is_event m)) [
    | inl e ↦ (
      record c { running = handlers_of (get c.handlers m.method) },
      rw (h, e) refl,
      same-IsReady r,
      λ n. cc,
    )
    | inr e ↦ (c, rw (h, e) refl, r, λ n. refl)
  ]
]

read-IsReady : (c c' : Client) (m : Message) → IsReady c → read_message c m ≡ some c' → IsReady c'
read-IsReady c c' m r h =
    let (d, e, ready, k) = read_message-IsReady c m r in
    subst⁻¹ IsReady (ap (or_same c) (sym h ∙ e)) ready

left-IsReady : (c c' : Client) (r : Returned) → IsReady c → leave c ≡ some (c', r) → IsReady c'
unfolding leave
left-IsReady c c' r ready h = elim (Bool-cases c.is_done) [
  | inl d ↦
      let told : leave c ≡ some (c, error "client closed") = rw (leave, d) refl in
      subst⁻¹ IsReady (ap (got c) (sym h ∙ told)) ready
  | inr d ↦ absurd (ground arith)
]

pub Reach-IsReady : {c : Client} → Reach c → IsReady c
unfolding subscribe close read_failed handler_returned
Reach-IsReady new = new_client-IsReady
Reach-IsReady (began c session_id method params r) =
    begin_call-IsReady c session_id method params (Reach-IsReady r)
Reach-IsReady (gave_up c id r) = give_up-IsReady c id (Reach-IsReady r)
Reach-IsReady (took c c' p o r h) = take-IsReady c c' p o (Reach-IsReady r) h
Reach-IsReady (left c c' o r h) = left-IsReady c c' o (Reach-IsReady r) h
Reach-IsReady (subscribed c event h r) = same-IsReady (Reach-IsReady r)
Reach-IsReady (closed c r) = same-IsReady (Reach-IsReady r)
Reach-IsReady (read c c' m r i h) = read-IsReady c c' m (Reach-IsReady r) h
Reach-IsReady (ran c r) = same-IsReady (Reach-IsReady r)
Reach-IsReady (failed c r i) = elim (Bool-cases c.is_done) [
  | inl h ↦ rw h (same-IsReady (Reach-IsReady r))
  | inr h ↦ rw h (same-IsReady (Reach-IsReady r))
]

-- In every state that an interleaving of callers and the read loop leads to, in which the loop is not running
-- handlers: it gets through a message that is not an event, and is ready for the next one. No channel that it
-- sends a response to is full.
pub read_message-returns :
    {c : Client}
    → Reach c
    → c.running ≡ []
    → (m : Message) → is_event m ≡ false
    → (c' : Client) × (read_message c m ≡ some c') × (c'.running ≡ [])
read_message-returns {c} r i m h =
    let (c', e, ready, k) = read_message-IsReady c m (Reach-IsReady r) in (c', e, k h ∙ i)

ready_cases-filled :
    (c : Client) (m : Message) (p : ℕ)
    → load c.channels p ≡ some m
    → ready_cases c p ≡ outcome m m.error ∷ (if c.is_done then error "client closed" ∷ [] else [])
unfolding ready_cases take leave
ready_cases-filled c m p h = elim (Bool-cases c.is_done) [
  | inl d ↦ rw (ready_cases, take, leave, h, d) refl
  | inr d ↦ rw (ready_cases, take, leave, h, d) refl
]

-- In every such state, when a response with the number of a pending call is read: of the cases that its `select`
-- waits for, that of the response is ready, and it makes the call return the result or the error of the response.
-- That of the closed client is ready just if the client is closed. The other pending calls stay so, with
-- empty channels, and a second response with the number changes nothing.
pub read_message-answers :
    {c : Client} (m again : Message) (p : ℕ)
    → Reach c
    → is_response m ≡ true
    → is_response again ≡ true
    → again.id ≡ m.id
    → get c.pending m.id ≡ some p
    → (c' : Client) × (read_message c m ≡ some c')
      × (ready_cases c' p
          ≡ outcome m m.error ∷ (if c.is_done then error "client closed" ∷ [] else []))
      × (take c' p ≡ some (record c' { channels = store c'.channels p none }, outcome m m.error))
      × (read_message c' again ≡ some c')
      × ((j q : ℕ)
          → j ≢ m.id
          → get c.pending j ≡ some q
          → (get c'.pending j ≡ some q) × (load c'.channels q ≡ none))
unfolding take
read_message-answers {c} m again p reach h i e w =
    let r = Reach-IsReady reach in
    let c' : Client = record c {
      pending = delete c.pending m.id;
      channels = store c.channels p (some m);
    } in
    let ready = delivered-IsReady c m p r w in
    let gone : get c'.pending again.id ≡ none = rw e (grind (arith, dict_laws)) in
    let kept : (j q : ℕ) → j ≢ m.id → get c.pending j ≡ some q → get c'.pending j ≡ some q =
      λ j q n g. grind (arith, dict_laws, g, n) in
    let at : load c'.channels p ≡ some m = grind (arith, heap_laws) in
    (
      c',
      read_message-waited c m p r h w,
      ready_cases-filled c' m p at,
      rw (take, at) refl,
      read_message-dropped c' again i gone,
      λ j q n g. (kept j q n g, ready.empties j q (kept j q n g)),
    )
