-- ===== src/Bridge/Contexts/Numbers.antt =====
-- pkg/bridge/events.go: the numbers of execution contexts are fresh, and stay with their sessions.
use foxbridge.Common.{
  ℕ, ◌+◌, ◌%◌, ◌^◌, ◌≤◌, ◌<◌, String, ◌≡◌, refl, ap, sym, ◌∙◌, subst⁻¹, inl, inr, ◌⊎◌, true, false,
  List, [], ◌∷◌, none, some, arith, string_key, nat_key, Bool-cases, Option-cases, ◌==◌,
  if◌then◌else◌, length, is_some,
}
use native.Mathlib.Decide.{dec_le}
use foxbridge.Dict.{Dict, get, put, get-put}
use foxbridge.Cdp.Session.{get_by_juggler_session}
use foxbridge.Bridge.State.{
  State, Env, IsolatedWorldInfo, next_ctx_id, resolve_cdp_session, cdp_frame,
}
use foxbridge.Bridge.State.Sends.{emit-sends}
use foxbridge.Bridge.Contexts.{
  ContextCreated, register_context, learn_frame, create_isolated, create_worlds, create_default,
  context_created, worlds_of, context_params, unique_id_of,
}

order-cases : (a b : ℕ) → (a ≤ b) ⊎ (b < a)
order-cases a b = elim (dec_le a b) [ yes h ↦ inl h | no n ↦ inr (omega (arith, n)) ]

below-put :
    (d : Dict ℕ String) (c : ℕ) (v : String) (j : ℕ) → j ≤ c → get (put d (c + 1) v) j ≡ get d j
below-put d c v j h = rw (get-put d (c + 1) v j) (ground arith)

above-put :
    (d : Dict ℕ String) (c : ℕ) (v : String) (j : ℕ) → c + 1 < j → get (put d (c + 1) v) j ≡ get d j
above-put d c v j h = rw (get-put d (c + 1) v j) (ground arith)

at-put :
    (d : Dict ℕ String) (c : ℕ) (v : String) (j : ℕ)
    → c < j
    → j ≤ c + 1
    → get (put d (c + 1) v) j ≡ some v
at-put d c v j h i = rw (get-put d (c + 1) v j) (ground arith)

module _ {Regexp B : Type 0} where
  -- No number above the counter has been given out.
  pub record IsBounded (s : State Regexp B) : Type 0 where
    pub contexts : (k : ℕ) → s.ctx_counter < k → get s.ctx_map k ≡ none
    pub owners : (k : ℕ) → s.ctx_counter < k → get s.ctx_owners k ≡ none

  -- From `s` to `s'` the next `n` numbers have been given to contexts of the session, in both maps,
  -- and no other number has changed.
  pub record Numbers (session_id : String) (n : ℕ) (s s' : State Regexp B) : Type 0 where
    pub counter : s'.ctx_counter ≡ s.ctx_counter + n
    pub kept_contexts : (k : ℕ) → k ≤ s.ctx_counter → get s'.ctx_map k ≡ get s.ctx_map k
    pub kept_owners : (k : ℕ) → k ≤ s.ctx_counter → get s'.ctx_owners k ≡ get s.ctx_owners k
    pub given :
        (k : ℕ)
        → s.ctx_counter < k
        → k ≤ s'.ctx_counter
        → (is_some (get s'.ctx_map k) ≡ true) × (get s'.ctx_owners k ≡ some session_id)
    pub bounded : IsBounded s → IsBounded s'

  -- The parts of the state that the numbers are about are the same.
  abbrev SameNumbers : State Regexp B → State Regexp B → Type 0
  SameNumbers s s' =
      (s'.ctx_counter ≡ s.ctx_counter) × (s'.ctx_map ≡ s.ctx_map) × (s'.ctx_owners ≡ s.ctx_owners)

  Numbers-none : (k : String) (s s' : State Regexp B) → SameNumbers s s' → Numbers k 0 s s'
  Numbers-none k s s' (c, m, o) = record {
    counter = omega (arith, c);
    kept_contexts = λ j h. rw m;
    kept_owners = λ j h. rw o;
    given = λ j h i. absurd (omega (arith, c));
    bounded = λ b. record {
      contexts = λ j h. rw m (b.contexts j (omega (arith, c)));
      owners = λ j h. rw o (b.owners j (omega (arith, c)));
    };
  }

  Numbers-trans :
      (k : String) (m n : ℕ) (a b c : State Regexp B)
      → Numbers k m a b
      → Numbers k n b c
      → Numbers k (m + n) a c
  Numbers-trans k m n a b c x y = record {
    counter = omega (arith, x.counter, y.counter);
    kept_contexts = λ j h. y.kept_contexts j (omega (arith, x.counter)) ∙ x.kept_contexts j h;
    kept_owners = λ j h. y.kept_owners j (omega (arith, x.counter)) ∙ x.kept_owners j h;
    given = λ j h i. elim (order-cases j b.ctx_counter) [
      | inl l ↦ (
        ap is_some (y.kept_contexts j l) ∙ (x.given j h l).0,
        y.kept_owners j l ∙ (x.given j h l).1,
      )
      | inr l ↦ y.given j l i
    ];
    bounded = λ z. y.bounded (x.bounded z);
  }

  learn_frame-same : (s : State Regexp B) (k f : String) → SameNumbers s (learn_frame s k f)
  unfolding learn_frame
  learn_frame-same s k f = elim (Bool-cases (f == "")) [
    | inl h ↦ rw h (refl, refl, refl)
    | inr h ↦ rw h (elim (Option-cases (get_by_juggler_session s.sessions k)) [
      | inl n ↦ rw n (elim (Bool-cases (is_some (get s.pending_frame_ids k))) [
        | inl b ↦ rw b (refl, refl, refl)
        | inr b ↦ rw b (refl, refl, refl)
      ])
      | inr (info, e) ↦ rw e (elim (Bool-cases (info.frame_id == "")) [
        | inl b ↦ rw b (refl, refl, refl)
        | inr b ↦ rw b (refl, refl, refl)
      ])
    ])
  ]

  -- One number is taken, and both maps have it.
  abbrev Step : String → State Regexp B → State Regexp B → Type 0
  Step session_id s s' =
      (s'.ctx_counter ≡ s.ctx_counter + 1)
      × ((id : String) × (s'.ctx_map ≡ put s.ctx_map (s.ctx_counter + 1) id))
      × (s'.ctx_owners ≡ put s.ctx_owners (s.ctx_counter + 1) session_id)

  Step-Numbers : (k : String) (s s' : State Regexp B) → Step k s s' → Numbers k 1 s s'
  Step-Numbers k s s' (c, (id, m), o) = record {
    counter = c;
    kept_contexts = λ j h. rw m (below-put s.ctx_map s.ctx_counter id j h);
    kept_owners = λ j h. rw o (below-put s.ctx_owners s.ctx_counter k j h);
    given = λ j h i. (
      rw (m, at-put s.ctx_map s.ctx_counter id j h (omega (arith, c, i))) refl,
      rw o (at-put s.ctx_owners s.ctx_counter k j h (omega (arith, c, i))),
    );
    bounded = λ b. record {
      contexts = λ j h. rw m (
          above-put s.ctx_map s.ctx_counter id j (omega (arith, c, h))
          ∙ b.contexts j (omega (arith, c, h)));
      owners = λ j h. rw o (
          above-put s.ctx_owners s.ctx_counter k j (omega (arith, c, h))
          ∙ b.owners j (omega (arith, c, h)));
    };
  }

unwrapped : (n : ℕ) → n + 1 < 2 ^ 63 → (n + 1) % 2 ^ 64 ≡ n + 1
unwrapped n h = omega (arith, h)

module _ {Regexp B : Type 0} (env : Env B) where
  create_isolated-Numbers :
      (s : State Regexp B) (session_id context_id frame_id : String) (world : IsolatedWorldInfo)
      → s.ctx_counter + 1 < 2 ^ 63
      → Numbers session_id 1 s (create_isolated env s session_id context_id frame_id world)
  unfolding create_isolated next_ctx_id register_context
  create_isolated-Numbers s session_id context_id frame_id world h =
      let s2 = register_context (next_ctx_id s).0 (next_ctx_id s).1 context_id session_id in
      let unique_id = unique_id_of frame_id world.world_name in
      Step-Numbers session_id s _ (
        subst⁻¹ (λ (x : State Regexp B). Step session_id s x)
          (emit-sends env
            (record s2 { ctx_unique_owners = put s2.ctx_unique_owners unique_id session_id })
            "Runtime.executionContextCreated"
            (context_params (next_ctx_id s).1 world.world_name unique_id false "isolated" frame_id)
            session_id)
          (
            unwrapped s.ctx_counter h,
            (context_id, rw (unwrapped s.ctx_counter h) refl),
            rw (unwrapped s.ctx_counter h) refl,
          ))

  create_worlds-Numbers :
      (s : State Regexp B) (session_id context_id frame_id : String) (l : List IsolatedWorldInfo)
      → s.ctx_counter + length l < 2 ^ 63
      → Numbers session_id (length l) s (create_worlds env s session_id context_id frame_id l)
  unfolding create_worlds
  create_worlds-Numbers s session_id context_id frame_id [] h =
      Numbers-none session_id s s (refl, refl, refl)
  create_worlds-Numbers s session_id context_id frame_id (world ∷ l) h =
      let s' = create_isolated env s session_id context_id frame_id world in
      let one = create_isolated-Numbers s session_id context_id frame_id world (omega (arith, h)) in
      subst⁻¹ (λ n. Numbers session_id n s (create_worlds env s' session_id context_id frame_id l))
        (omega arith)
        (Numbers-trans session_id 1 (length l) s s' _ one (
          create_worlds-Numbers s' session_id context_id frame_id l
            (omega (arith, h, one.counter))))

  create_default-Numbers :
      (s : State Regexp B) (k : String) (ev : ContextCreated)
      → s.ctx_counter + 1 < 2 ^ 63
      → Numbers (resolve_cdp_session s k) 1 s (create_default env s k ev).0
  unfolding create_default next_ctx_id register_context
  create_default-Numbers s k ev h =
      let session_id = resolve_cdp_session s k in
      let learned = learn_frame (next_ctx_id s).0 k ev.frame_id in
      let (c, m, o) = learn_frame-same (next_ctx_id s).0 k ev.frame_id in
      let s2 = register_context learned (next_ctx_id s).1 ev.execution_context_id session_id in
      let s3 = record s2 {
        latest_ctx = put s2.latest_ctx k ev.execution_context_id;
        ctx_unique_owners = put s2.ctx_unique_owners ev.execution_context_id session_id;
      } in
      Step-Numbers session_id s _ (
        subst⁻¹ (λ (x : State Regexp B). Step session_id s x)
          (emit-sends env s3 "Runtime.executionContextCreated"
            (context_params (next_ctx_id s).1 ev.name ev.execution_context_id true "default"
              (cdp_frame s3 k ev.frame_id))
            session_id)
          (
            c ∙ unwrapped s.ctx_counter h,
            (ev.execution_context_id, rw (m, unwrapped s.ctx_counter h) refl),
            rw (o, unwrapped s.ctx_counter h) refl,
          ))

  -- The worlds that an event makes contexts for, besides the default one.
  abbrev pub worlds_made : State Regexp B → String → ContextCreated → List IsolatedWorldInfo
  worlds_made s k ev =
      if resolve_cdp_session s k == ""
      then []
      else worlds_of (get (create_default env s k ev).0.isolated_worlds (resolve_cdp_session s k))

  context_created-given :
      (s : State Regexp B) (k : String) (ev : ContextCreated)
      → let made = 1 + length (worlds_made s k ev) in
        s.ctx_counter + made < 2 ^ 63
        → Numbers (resolve_cdp_session s k) made s (context_created env s k ev)
  unfolding context_created
  context_created-given s k ev h =
      let session_id = resolve_cdp_session s k in
      let s1 = (create_default env s k ev).0 in
      let one = create_default-Numbers s k ev (omega (arith, h)) in
      let worlds = worlds_of (get s1.isolated_worlds session_id) in
      elim (Bool-cases (session_id == "")) [
        | inl e ↦ rw e one
        | inr e ↦
            let room =
              subst⁻¹ (λ t. s.ctx_counter + (1 + length (if t then [] else worlds)) < 2 ^ 63)
                (sym e) h in
            rw e (
              Numbers-trans session_id 1 (length worlds) s s1 _ one (
                create_worlds-Numbers s1 session_id ev.execution_context_id
                  (create_default env s k ev).1 worlds (omega (arith, room, one.counter))))
      ]

  -- In a state in which no number above the counter has been given out, and as long as the counter
  -- stays below 2 ^ 63, an event for a new execution context gives the next numbers to its contexts,
  -- one for the default one and one for each isolated world of the session: they were free, both maps
  -- have them for the session afterwards, and no smaller number changes. The state after it is such
  -- a state again.
  pub context_created-Numbers :
      (s : State Regexp B) (k : String) (ev : ContextCreated)
      → let made = 1 + length (worlds_made s k ev) in
        let s' = context_created env s k ev in
        s.ctx_counter + made < 2 ^ 63
        → IsBounded s
        → Numbers (resolve_cdp_session s k) made s s'
          × IsBounded s'
          × (s'.ctx_counter < 2 ^ 63)
          × ((id : ℕ) → s.ctx_counter < id → get s.ctx_map id ≡ none)
  context_created-Numbers s k ev h b =
      let all = context_created-given s k ev h in
      (all, all.bounded b, omega (arith, all.counter, h), b.contexts)
