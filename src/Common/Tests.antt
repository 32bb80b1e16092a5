-- ===== src/Common/Tests.antt =====
-- The conditional, equality tests on keys, and case splits that keep an equation.
use Prim.Native.Nat.{ℕ, compare, Ordering}
use Prim.Native.String.{String}
use mathlib.Core.Path.{◌≡◌, refl}
use mathlib.Core.Logic.{◌⊎◌, inl, inr, ◌↔◌}
use mathlib.Core.Bool.{Bool, true, false}
use mathlib.Core.Option.{Option, none, some}
use native.Mathlib.Omega.{arith}
use native.Mathlib.Decide.{ℕ_discrete}
use text.Mathlib.Text.{◌==◌ as str_eq}
use text.Mathlib.TextEquality.{eq_iff}

infix 1 if◌then◌else◌
abbrev pub if◌then◌else◌ {ℓ} : {A : Type ℓ} → Bool → A → A → A
if true then x else y = x
if false then x else y = y

abbrev pub ltb : ℕ → ℕ → Bool
ltb a b = elim (compare a b) [ Ordering.lt ↦ true | _ ↦ false ]

pub Bool-cases : (b : Bool) → (b ≡ true) ⊎ (b ≡ false)
Bool-cases true = inl refl
Bool-cases false = inr refl

pub Option-cases {ℓ} : {A : Type ℓ} (o : Option A) → (o ≡ none) ⊎ ((a : A) × (o ≡ some a))
Option-cases none = inl refl
Option-cases (some a) = inr (a, refl)

decide_string :
    (a b : String) (t : Bool) → (t ≡ true) ↔ (a ≡ b) → (t ≡ true) ⊎ (t ≡ false) → Dec (a ≡ b)
decide_string a b t e (inl h) = yes (e.0 h)
decide_string a b t e (inr h) = no (λ p. cc (e.1 p, h))

-- The library has the Boolean test of two texts; this is the decision.
unfoldable pub string_discrete : Discrete String
unfolding decide_string Bool-cases
string_discrete a b = decide_string a b (str_eq a b) (eq_iff a b) (Bool-cases (str_eq a b))

-- A type of map keys.
pub record Key {ℓ} (K : Type ℓ) : Type ℓ where
  pub decide_eq : Discrete K

instance abbrev pub string_key : Key String
string_key = record { decide_eq = string_discrete }

instance abbrev pub nat_key : Key ℕ
nat_key = record { decide_eq = ℕ_discrete }

abbrev pub is_yes {ℓ} : {P : Type ℓ} → Dec P → Bool
is_yes (yes p) = true
is_yes (no n) = false

abbrev pub is_some {ℓ} : {A : Type ℓ} → Option A → Bool
is_some none = false
is_some (some a) = true

-- Go's == on texts and on numbers.
infix 50 ◌==◌
abbrev pub ◌==◌ {ℓ} : {K : Type ℓ} ⦃k : Key K⦄ → K → K → Bool
◌==◌ ⦃k⦄ a b = is_yes (k.decide_eq a b)

-- A chain of calls that can fail.
infixl 5 ◌>>=◌
abbrev pub ◌>>=◌ {ℓ κ} : {A : Type ℓ} {B : Type κ} → Option A → (A → Option B) → Option B
none >>= f = none
some a >>= f = f a

pub differ {ℓ} : {K : Type ℓ} ⦃k : Key K⦄ (a b : K) → (a == b) ≡ false → ¬ (a ≡ b)
differ a b h e = ground arith
