-- ===== src/Dict.antt =====
-- Go's map, for any type of keys that can be compared. The representation is private: clients
-- have the laws of this file and of its child.
pub mod Loops
use foxbridge.Common.{
  ℕ, ◌≡◌, refl, ap, List, [], ◌∷◌, Option, none, some, Bool, true, false, arith, Key, ◌==◌,
  if◌then◌else◌, length,
}

pub record Dict {ℓ} (K V : Type ℓ) : Type ℓ where
  entries : List (K × V)

module _ {ℓ} {K V : Type ℓ} ⦃key : Key K⦄ where
  find : List (K × V) → K → Option V
  find [] j = none
  find ((k, v) ∷ l) j = if k == j then some v else find l j

  without : List (K × V) → K → List (K × V)
  without [] j = []
  without ((k, v) ∷ l) j = let rest = without l j in if k == j then rest else (k, v) ∷ rest

  -- One pair for each key that is present: the first.
  present : List (K × V) → List (K × V)
  present [] = []
  present ((k, v) ∷ l) = (k, v) ∷ without (present l) k

  dropped : (K → V → Bool) → List (K × V) → List (K × V)
  dropped p [] = []
  dropped p ((k, v) ∷ l) =
      let rest = without (dropped p l) k in if p k v then rest else (k, v) ∷ rest

  unfoldable pub empty : Dict K V
  empty = record { entries = [] }

  -- v, ok := m[k]
  unfoldable pub get : Dict K V → K → Option V
  unfolding find
  get d k = find d.entries k

  -- m[k] = v
  unfoldable pub put : Dict K V → K → V → Dict K V
  unfolding without
  put d k v = record { entries = (k, v) ∷ without d.entries k }

  -- delete(m, k)
  unfoldable pub delete : Dict K V → K → Dict K V
  unfolding without
  delete d k = record { entries = without d.entries k }

  -- for k, v := range m { if p(k, v) { delete(m, k) } }
  unfoldable pub delete_where : (K → V → Bool) → Dict K V → Dict K V
  unfolding dropped without
  delete_where p d = record { entries = dropped p d.entries }

  -- range m, in one of its orders.
  unfoldable pub bindings : Dict K V → List (K × V)
  unfolding present without
  bindings d = present d.entries

  find-without :
      (l : List (K × V)) (k j : K) → find (without l k) j ≡ (if k == j then none else find l j)
  unfolding find without
  find-without [] k j = ground arith
  find-without ((i, v) ∷ l) k j = ground (arith, find-without l k j)

  find-dropped :
      (p : K → V → Bool) (l : List (K × V)) (j : K)
      → find (dropped p l) j
        ≡ (elim (find l j) [ none ↦ none | some v ↦ if p j v then none else some v ])
  unfolding find dropped
  find-dropped p [] j = refl
  find-dropped p ((i, v) ∷ l) j = ground (arith, find-dropped p l j, find-without (dropped p l) i j)

  find-present : (l : List (K × V)) (j : K) → find (present l) j ≡ find l j
  unfolding find present
  find-present [] j = refl
  find-present ((i, v) ∷ l) j = ground (arith, find-present l j, find-without (present l) i j)

  pub get-empty : (j : K) → get empty j ≡ none
  unfolding get empty
  get-empty j = refl

  pub get-put :
      (d : Dict K V) (k : K) (v : V) (j : K)
      → get (put d k v) j ≡ (if k == j then some v else get d j)
  unfolding get put
  get-put d k v j = ground (arith, find-without d.entries k j)

  pub get-delete :
      (d : Dict K V) (k j : K) → get (delete d k) j ≡ (if k == j then none else get d j)
  unfolding get delete
  get-delete d k j = find-without d.entries k j

  pub get-delete_where :
      (p : K → V → Bool) (d : Dict K V) (j : K)
      → get (delete_where p d) j
        ≡ (elim (get d j) [ none ↦ none | some v ↦ if p j v then none else some v ])
  unfolding get delete_where
  get-delete_where p d j = find-dropped p d.entries j

pub ruleset dict_laws = (get-empty, get-put, get-delete, get-delete_where)
