-- ===== src/Dict/Loops.antt =====
-- What a loop over a map sees: the pairs that `get` gives.
use foxbridge.Common.{◌≡◌, ◌∙◌, ◌≢◌, inl, inr, List, [], ◌∷◌, some, arith, Key, In}
use foxbridge.Dict.{Dict, get, bindings, find, without, present, find-present}

module _ {K V : Type 0} ⦃key : Key K⦄ where
  In-find : (l : List (K × V)) (k : K) (v : V) → find l k ≡ some v → In (k, v) l
  unfolding find
  In-find [] k v h = cc
  In-find ((i, w) ∷ l) k v h = elim (key.decide_eq i k) [
    | yes e ↦ inl (ground arith)
    | no n ↦ inr (In-find l k v (ground arith))
  ]

  -- Every pair of the map is visited.
  pub In-bindings : (d : Dict K V) (k : K) (v : V) → get d k ≡ some v → In (k, v) (bindings d)
  unfolding get bindings
  In-bindings d k v h = In-find (present d.entries) k v (find-present d.entries k ∙ h)

  In-without :
      (l : List (K × V)) (j k : K) (v : V) → In (k, v) (without l j) → (j ≢ k) × In (k, v) l
  unfolding without
  In-without [] j k v h = absurd h
  In-without ((i, w) ∷ l) j k v h = ground (arith, In-without l j k v)

  find-In-present : (l : List (K × V)) (k : K) (v : V) → In (k, v) (present l) → find l k ≡ some v
  unfolding find present
  find-In-present [] k v h = absurd h
  find-In-present ((i, w) ∷ l) k v h =
      ground (arith, In-without (present l) i k v, find-In-present l k v)

  -- A loop visits no other pair.
  pub get-In-bindings : (d : Dict K V) (k : K) (v : V) → In (k, v) (bindings d) → get d k ≡ some v
  unfolding get bindings
  get-In-bindings d k v h = find-In-present d.entries k v h
