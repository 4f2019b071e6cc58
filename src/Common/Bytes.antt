-- ===== src/Common/Bytes.antt =====
-- Byte strings, their equality test, and `int.to_bytes(k, byteorder="big")`.
use raiden_common.Common.Tests.{Eq, nat_beq, length, length-append}
use Prim.Native.Nat.{ℕ, zero, suc, ◌/◌, ◌%◌, ◌^◌, ◌<◌}
use mathlib.Core.Path.{◌≡◌, refl, sym, ap₂, ◌∙◌}
use mathlib.Core.Logic.{◌↔◌}
use mathlib.Core.Bool.{Bool, true, false, ◌&&◌}
use mathlib.Core.List.{List, [], ◌∷◌, ◌++◌}
use native.Mathlib.Omega.{arith}
use native.Mathlib.Nat.{pow-suc}

abbrev pub Bytes : Type 0
Bytes = List ℕ

unfoldable pub bytes_beq : Bytes → Bytes → Bool
bytes_beq [] [] = true
bytes_beq [] (y ∷ ys) = false
bytes_beq (x ∷ xs) [] = false
bytes_beq (x ∷ xs) (y ∷ ys) = nat_beq x y && bytes_beq xs ys

pub bytes_beq_iff : (a b : Bytes) → (bytes_beq a b ≡ true) ↔ (a ≡ b)
unfolding bytes_beq
bytes_beq_iff [] [] = (λ _. refl, λ _. refl)
bytes_beq_iff [] (y ∷ ys) = (λ h. cc, λ h. cc)
bytes_beq_iff (x ∷ xs) [] = (λ h. cc, λ h. cc)
bytes_beq_iff (x ∷ xs) (y ∷ ys) = ground (arith, bytes_beq_iff xs ys)

instance abbrev pub bytes_eq : Eq Bytes
bytes_eq = record { beq = bytes_beq; beq_iff = bytes_beq_iff }

-- The last `k` digits of `n` in base 256, highest first.
unfoldable pub to_bytes : ℕ → ℕ → Bytes
to_bytes zero n = []
to_bytes (suc k) n = to_bytes k (n / 256) ++ n % 256 ∷ []

cons_injective : {x y : ℕ} {xs ys : Bytes} → x ∷ xs ≡ y ∷ ys → (x ≡ y) × (xs ≡ ys)
cons_injective h = (cc, cc)

pub append-split :
    (xs ys : Bytes) (us vs : Bytes)
    → length xs ≡ length ys
    → xs ++ us ≡ ys ++ vs
    → (xs ≡ ys) × (us ≡ vs)
append-split [] [] us vs e h = (refl, h)
append-split [] (y ∷ ys) us vs e h = absurd (omega arith)
append-split (x ∷ xs) [] us vs e h = absurd (omega arith)
append-split (x ∷ xs) (y ∷ ys) us vs e h =
    let rest = append-split xs ys us vs (omega arith) (cons_injective h).1 in
    (ap₂ ◌∷◌ (cons_injective h).0 rest.0, rest.1)

pub length-to_bytes : (k n : ℕ) → length (to_bytes k n) ≡ k
unfolding to_bytes
length-to_bytes zero n = refl
length-to_bytes (suc k) n =
    omega (arith, length-append (to_bytes k (n / 256)) (n % 256 ∷ []), length-to_bytes k (n / 256))

-- Numbers of at most `k` digits are told apart by their digits.
pub to_bytes-injective :
    (k m n : ℕ) → m < 256 ^ k → n < 256 ^ k → to_bytes k m ≡ to_bytes k n → m ≡ n
unfolding to_bytes
to_bytes-injective zero m n p q h = omega arith
to_bytes-injective (suc k) m n p q h =
    let parts =
      append-split (to_bytes k (m / 256)) (to_bytes k (n / 256)) (m % 256 ∷ []) (n % 256 ∷ [])
        (length-to_bytes k (m / 256) ∙ sym (length-to_bytes k (n / 256))) h in
    let high =
      to_bytes-injective k (m / 256) (n / 256) (omega (arith, pow-suc 256 k))
        (omega (arith, pow-suc 256 k)) parts.0 in
    let low : m % 256 ≡ n % 256 = cc (parts.1) in omega arith
