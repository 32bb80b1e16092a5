-- ===== src/Bridge/Release/Once.antt =====
-- pkg/bridge/bridge.go: a page is closed once, and its client is told once.
use foxbridge.Common.{
  ℕ, String, ◌≡◌, ap, sym, ◌∙◌, subst⁻¹, inl, inr, Bool, true, false, List, [], ◌∷◌, ◌++◌, Option,
  none, some, arith, string_key, nat_key, Bool-cases, if◌then◌else◌, append_assoc, append_nil,
}
use foxbridge.Heap.{load, load-store}
use foxbridge.Cdp.Message.{pos, Message}
use foxbridge.Bridge.Ownership.{Registry, TargetRecord}
use foxbridge.Bridge.Ownership.Cleanup.{begin_cleanup, remove}
use foxbridge.Bridge.Ownership.Requests.{clear_requests}
use foxbridge.Bridge.Ownership.Queries.{record_details}
use foxbridge.Bridge.Json.{str, object}
use foxbridge.Bridge.State.{State, Env, call_juggler, send_owned_event}
use foxbridge.Bridge.Release.{
  clear_record_state, disable_fetch_if_unused, close_page, announce_end, drop_record, close_begun,
  close_record,
}
use foxbridge.Bridge.Release.Forgets.{close_record-begun, begin_cleanup-ids, released}

begin_cleanup-marks :
    (r : Registry) (p : ℕ)
    → (begin_cleanup r (some p)).1 ≡ true
    → (load (begin_cleanup r (some p)).0.records p).cleaned ≡ true
unfolding begin_cleanup
begin_cleanup-marks r p h = grind (arith, load-store)

pub cleaned-refused :
    (r : Registry) (p : ℕ)
    → (load r.records p).cleaned ≡ true
    → (begin_cleanup r (some p)).1 ≡ false
unfolding begin_cleanup
cleaned-refused r p h = ground arith

remove-cleaned :
    (r : Registry) (p : ℕ)
    → (load r.records p).cleaned ≡ true
    → (load (remove r (some p)).records p).cleaned ≡ true
unfolding remove
remove-cleaned r p h = grind (arith, load-store)

module _ {B : Type 0} (env : Env B) where
  -- The messages that tell the owner of a page that it is gone.
  pub farewell : Option ℕ → String → String → List (ℕ × Message)
  farewell none page target = []
  farewell (some c) page target =
      (
        c,
        record {
          id = pos 0;
          method = "Target.detachedFromTarget";
          params =
              some (env.marshal (object (("sessionId", str page) ∷ ("targetId", str target) ∷ [])));
          result = none;
          error = none;
          session_id = "";
        },
      )
      ∷ (
        c,
        record {
          id = pos 0;
          method = "Target.targetDestroyed";
          params = some (env.marshal (object (("targetId", str target) ∷ [])));
          result = none;
          error = none;
          session_id = "";
        },
      )
      ∷ []

begin_cleanup-target :
    (r : Registry) (p : ℕ)
    → (load (begin_cleanup r (some p)).0.records p).page_target_id
      ≡ (load r.records p).page_target_id
unfolding begin_cleanup
begin_cleanup-target r p = grind (arith, load-store)

module _ {Regexp B : Type 0} (env : Env B) where
  pub close_record-not_begun :
      (s : State Regexp B) (p : ℕ) (b : Bool)
      → (begin_cleanup s.ownership (some p)).1 ≡ false
      → close_record env s p b ≡ s
  unfolding close_record
  close_record-not_begun s p b h = rw h

  released-cleaned :
      (s : State Regexp B) (r : Registry) (p : ℕ) (x : B) (l : List (ℕ × Message))
      → (load r.records p).cleaned ≡ true
      → (load (released env s r p x l).ownership.records p).cleaned ≡ true
  unfolding drop_record clear_record_state clear_requests
  released-cleaned s r p x l h =
      remove-cleaned (clear_requests r (load r.records p).page_session_id) p h

  pub close_record-cleaned :
      (s : State Regexp B) (p : ℕ) (b : Bool)
      → (begin_cleanup s.ownership (some p)).1 ≡ true
      → (load (close_record env s p b).ownership.records p).cleaned ≡ true
  close_record-cleaned s p b h =
      let s' = close_record env s p b in
      subst⁻¹ (λ (x : State Regexp B). (load x.ownership.records p).cleaned ≡ true)
        (close_record-begun env s p b h)
        (released-cleaned s (begin_cleanup s.ownership (some p)).0 p s'.backend s'.sent
          (begin_cleanup-marks s.ownership p h))

  -- Closing a record that `closeRecord` has been called for does nothing: no call of the backend, no
  -- event, no change of the state.
  pub close_record_twice :
      (s : State Regexp B) (p : ℕ) (b b' : Bool)
      → close_record env (close_record env s p b) p b' ≡ close_record env s p b
  close_record_twice s p b b' = elim (Bool-cases (begin_cleanup s.ownership (some p)).1) [
    | inl h ↦
        close_record-not_begun (close_record env s p b) p b'
          (cleaned-refused (close_record env s p b).ownership p (close_record-cleaned s p b h))
    | inr h ↦ ap (λ x. close_record env x p b') (close_record-not_begun s p b h) ∙ other h
  ]
    where
      other :
          (begin_cleanup s.ownership (some p)).1 ≡ false
          → close_record env s p b' ≡ close_record env s p b
      other h = close_record-not_begun s p b' h ∙ sym (close_record-not_begun s p b h)

  close_page-sent :
      (s : State Regexp B) (t : TargetRecord) (b : Bool) → (close_page env s t b).sent ≡ s.sent
  unfolding close_page call_juggler
  close_page-sent s t b = ground arith

  disable_fetch-sent : (s : State Regexp B) → (disable_fetch_if_unused env s).sent ≡ s.sent
  unfolding disable_fetch_if_unused call_juggler
  disable_fetch-sent s = ground arith

  announce_end-sent :
      (s : State Regexp B) (owner : Option ℕ) (t : TargetRecord)
      → (announce_end env s owner t).sent
        ≡ s.sent ++ farewell env owner t.page_session_id t.page_target_id
  unfolding announce_end send_owned_event farewell
  announce_end-sent s none t = sym (append_nil s.sent)
  announce_end-sent s (some c) t = append_assoc s.sent _ _

  close_begun-sent :
      (s : State Regexp B) (owner : Option ℕ) (p : ℕ) (b : Bool)
      → let t = load s.ownership.records p in
        (close_begun env s owner p b).sent
        ≡ s.sent ++ farewell env owner t.page_session_id t.page_target_id
  unfolding close_begun drop_record
  close_begun-sent s owner p b =
      let t = load s.ownership.records p in
      let closed = close_page env s t b in
      let cleared = clear_record_state closed t in
      announce_end-sent (disable_fetch_if_unused env cleared) owner t
      ∙ ap (λ l. l ++ farewell env owner t.page_session_id t.page_target_id)
          (disable_fetch-sent cleared ∙ unfold clear_record_state in close_page-sent s t b)

  -- The messages that `closeRecord` sends: to the owner of a record that is not cleaned up yet, that
  -- the page is detached and destroyed; else none.
  pub close_record-sent :
      (s : State Regexp B) (p : ℕ) (b : Bool)
      → let t = load s.ownership.records p in
        (close_record env s p b).sent
        ≡ s.sent
          ++ (if (begin_cleanup s.ownership (some p)).1
              then farewell env t.owner t.page_session_id t.page_target_id
              else [])
  unfolding close_record record_details
  close_record-sent s p b = elim (Bool-cases (begin_cleanup s.ownership (some p)).1) [
    | inr h ↦ rw h (sym (append_nil s.sent))
    | inl h ↦
        let (i, j, k) = begin_cleanup-ids s.ownership p in
        let owner = (load s.ownership.records p).owner in
        rw h (
          close_begun-sent (record s { ownership = (begin_cleanup s.ownership (some p)).0 }) owner p
            b
          ∙ rw (i, begin_cleanup-target s.ownership p))
  ]
