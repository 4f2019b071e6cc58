-- ===== src/Common/Tests.antt =====
-- Boolean tests on the native numbers, the conditional, and case splits that keep the equation.
use Prim.Native.Nat.{ℕ, compare, Ordering, suc, ◌+◌}
use mathlib.Core.Path.{◌≡◌, refl}
use mathlib.Core.Logic.{◌↔◌, ◌⊎◌, inl, inr}
use mathlib.Core.Bool.{Bool, true, false, ◌||◌}
use mathlib.Core.Option.{Option, none, some}
use mathlib.Core.List.{List, [], ◌∷◌, ◌++◌}
use native.Mathlib.Omega.{arith}

abbrev pub ltb : ℕ → ℕ → Bool
ltb a b = elim (compare a b) [ Ordering.lt ↦ true | _ ↦ false ]

abbrev pub leb : ℕ → ℕ → Bool
leb a b = elim (compare a b) [ Ordering.gt ↦ false | _ ↦ true ]

abbrev pub nat_beq : ℕ → ℕ → Bool
nat_beq a b = elim (compare a b) [ Ordering.eq ↦ true | _ ↦ false ]

infix 1 if◌then◌else◌
abbrev pub if◌then◌else◌ {ℓ} : {A : Type ℓ} → Bool → A → A → A
if true then x else y = x
if false then x else y = y

pub nat_beq_iff : (a b : ℕ) → (nat_beq a b ≡ true) ↔ (a ≡ b)
nat_beq_iff a b = ground arith

pub Bool-cases : (b : Bool) → (b ≡ true) ⊎ (b ≡ false)
Bool-cases true = inl refl
Bool-cases false = inr refl

pub Option-cases {ℓ} : {A : Type ℓ} (o : Option A) → (o ≡ none) ⊎ ((a : A) × (o ≡ some a))
Option-cases none = inl refl
Option-cases (some a) = inr (a, refl)

-- Decidable equality as an instance: one `==` for numbers, integers and byte strings.
pub record Eq {ℓ} (K : Type ℓ) : Type ℓ where
  pub beq : K → K → Bool
  pub beq_iff : (k j : K) → (beq k j ≡ true) ↔ (k ≡ j)

instance abbrev pub nat_eq : Eq ℕ
nat_eq = record { beq = nat_beq; beq_iff = λ m n. nat_beq_iff m n }

module _ {ℓ} {A : Type ℓ} where
  abbrev pub length : List A → ℕ
  length [] = 0
  length (x ∷ xs) = suc (length xs)

  -- `x is not None`
  abbrev pub is_some : Option A → Bool
  is_some none = false
  is_some (some a) = true

  pub length-append : (xs ys : List A) → length (xs ++ ys) ≡ length xs + length ys
  length-append [] ys = omega arith
  length-append (x ∷ xs) ys = omega (arith, length-append xs ys)

infix 50 ◌==◌
abbrev pub ◌==◌ {ℓ} : {K : Type ℓ} ⦃e : Eq K⦄ → K → K → Bool
◌==◌ ⦃e⦄ k j = e.beq k j

module _ {ℓ} {A : Type ℓ} ⦃e : Eq A⦄ where
  -- `x in xs`
  unfoldable pub list_contains : A → List A → Bool
  list_contains a [] = false
  list_contains a (x ∷ xs) = a == x || list_contains a xs

  -- `xs.remove(a)`: the first occurrence goes.
  unfoldable pub list_remove : A → List A → List A
  list_remove a [] = []
  list_remove a (x ∷ xs) = if a == x then xs else x ∷ list_remove a xs

  pub beq_refl : (a : A) → (a == a) ≡ true
  beq_refl a = (e.beq_iff a a).1 refl

  pub list_contains-append :
      (a : A) (xs ys : List A)
      → list_contains a (xs ++ ys) ≡ (list_contains a xs || list_contains a ys)
  unfolding list_contains
  list_contains-append a [] ys = refl
  list_contains-append a (x ∷ xs) ys = ground (arith, list_contains-append a xs ys)

  -- Removing an element that was just appended, and that was not there before, gives the list back.
  pub list_remove-append_fresh :
      (a : A) (xs : List A) → list_contains a xs ≡ false → list_remove a (xs ++ a ∷ []) ≡ xs
  unfolding list_contains list_remove
  list_remove-append_fresh a [] h = rw (beq_refl a)
  list_remove-append_fresh a (x ∷ xs) h = ground (arith, list_remove-append_fresh a xs)

  -- What differs from the removed element stays.
  pub list_contains-remove_ne :
      (a b : A) (xs : List A)
      → (a == b) ≡ false
      → list_contains a xs ≡ true
      → list_contains a (list_remove b xs) ≡ true
  unfolding list_contains list_remove
  list_contains-remove_ne a b [] n h = h
  list_contains-remove_ne a b (x ∷ xs) n h =
      ground (arith, list_contains-remove_ne a b xs n, e.beq_iff b x, e.beq_iff a x, e.beq_iff a b)

  pub length-list_remove :
      (a : A) (xs : List A) → list_contains a xs ≡ true → length (list_remove a xs) + 1 ≡ length xs
  unfolding list_contains list_remove
  length-list_remove a [] h = ground arith
  length-list_remove a (x ∷ xs) h = ground (arith, length-list_remove a xs)

-- The first of two that is there.
abbrev pub or_else {ℓ} : {A : Type ℓ} → Option A → Option A → Option A
or_else none b = b
or_else (some a) b = some a

-- `a == b` of Booleans
abbrev pub bool_eq : Bool → Bool → Bool
bool_eq true b = b
bool_eq false true = false
bool_eq false false = true

pub some-injective {ℓ} : {A : Type ℓ} {a b : A} → some a ≡ some b → a ≡ b
some-injective e = cc
