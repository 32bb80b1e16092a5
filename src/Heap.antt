-- ===== src/Heap.antt =====
-- The store behind Go's pointers: a pointer is the number of a cell, and cells are handed out in
-- order. Two maps that hold one pointer see each other's writes.
use foxbridge.Common.{ℕ, suc, ◌≡◌, refl, nat_key, ◌==◌, if◌then◌else◌}

pub record Heap {ℓ} (A : Type ℓ) : Type ℓ where
  pub cell : ℕ → A
  pub next : ℕ

module _ {ℓ} {A : Type ℓ} where
  -- A store with no cell in use.
  unfoldable pub nothing : A → Heap A
  nothing zero_value = record { cell = λ p. zero_value; next = 0 }

  unfoldable pub load : Heap A → ℕ → A
  load h p = h.cell p

  -- *p = a
  unfoldable pub store : Heap A → ℕ → A → Heap A
  store h p a = record h { cell = λ q. if p == q then a else h.cell q }

  -- &A{...}: the new pointer is `h.next`.
  unfoldable pub alloc : Heap A → A → Heap A
  alloc h a = record { cell = λ q. if h.next == q then a else h.cell q; next = suc h.next }

  pub load-store :
      (h : Heap A) (p : ℕ) (a : A) (q : ℕ) → load (store h p a) q ≡ (if p == q then a else load h q)
  unfolding load store
  load-store h p a q = refl

  pub load-alloc :
      (h : Heap A) (a : A) (q : ℕ) → load (alloc h a) q ≡ (if h.next == q then a else load h q)
  unfolding load alloc
  load-alloc h a q = refl

  pub next-store : (h : Heap A) (p : ℕ) (a : A) → (store h p a).next ≡ h.next
  unfolding store
  next-store h p a = refl

  pub next-alloc : (h : Heap A) (a : A) → (alloc h a).next ≡ suc h.next
  unfolding alloc
  next-alloc h a = refl

pub ruleset heap_laws = (load-store, load-alloc, next-store, next-alloc)
