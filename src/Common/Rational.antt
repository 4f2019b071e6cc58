-- ===== src/Common/Rational.antt =====
-- Python's `fractions.Fraction`: a numerator over a positive denominator. They need not be coprime
-- here, so equality is tested by `beq_ℚ`; and sequences indexed as in Python.
use raiden_common.Common.{
  ℕ, zero, suc, ◌+◌, ◌*◌, ◌/◌, ◌%◌, Bool, ◌&&◌, List, [], ◌∷◌, ltb, if◌then◌else◌, ◌==◌, nat_eq,
}
use raiden_common.Common.Bytes.{bytes_eq}
use raiden_common.Common.Int.{
  ℤ, pos, negsuc, pos_part, neg_part, sub_ℕ, ◌+ℤ◌, ◌-ℤ◌, ltb_ℤ, leb_ℤ, int_eq,
}
use raiden_common.Common.Outcome.{Failure, Outcome, ok, raised}

infixl 70 ◌*ℤ◌
unfoldable pub ◌*ℤ◌ : ℤ → ℤ → ℤ
a *ℤ b =
    sub_ℕ (pos_part a * pos_part b + neg_part a * neg_part b)
      (pos_part a * neg_part b + neg_part a * pos_part b)

pub record ℚ : Type 0 where
  pub numerator : ℤ
  pub denominator : ℕ

abbrev pub integer : ℤ → ℚ
integer n = record { numerator = n; denominator = 1 }

infixl 65 ◌+ℚ◌ ◌-ℚ◌
infixl 70 ◌*ℚ◌
unfoldable pub ◌+ℚ◌ : ℚ → ℚ → ℚ
unfolding ◌*ℤ◌ ◌+ℤ◌
a +ℚ b = record {
  numerator = a.numerator *ℤ pos b.denominator +ℤ b.numerator *ℤ pos a.denominator;
  denominator = a.denominator * b.denominator;
}

unfoldable pub ◌-ℚ◌ : ℚ → ℚ → ℚ
unfolding ◌*ℤ◌ ◌-ℤ◌
a -ℚ b = record {
  numerator = a.numerator *ℤ pos b.denominator -ℤ b.numerator *ℤ pos a.denominator;
  denominator = a.denominator * b.denominator;
}

unfoldable pub ◌*ℚ◌ : ℚ → ℚ → ℚ
unfolding ◌*ℤ◌
a *ℚ b = record {
  numerator = a.numerator *ℤ b.numerator;
  denominator = a.denominator * b.denominator;
}

-- `ZeroDivisionError` at zero; a negative divisor turns the signs.
unfoldable pub divide : ℚ → ℚ → Outcome ℚ
unfolding ◌*ℤ◌
divide a b = elim b.numerator [
  | pos zero ↦ raised Failure.division_by_zero
  | pos (suc n) ↦
      ok (record {
        numerator = a.numerator *ℤ pos b.denominator;
        denominator = a.denominator * suc n;
      })
  | negsuc n ↦ ok (record {
    numerator = a.numerator *ℤ (pos 0 -ℤ pos b.denominator);
    denominator = a.denominator * suc n;
  })
]

unfoldable pub ltb_ℚ : ℚ → ℚ → Bool
unfolding ◌*ℤ◌
ltb_ℚ a b = ltb_ℤ (a.numerator *ℤ pos b.denominator) (b.numerator *ℤ pos a.denominator)

unfoldable pub leb_ℚ : ℚ → ℚ → Bool
unfolding ◌*ℤ◌
leb_ℚ a b = leb_ℤ (a.numerator *ℤ pos b.denominator) (b.numerator *ℤ pos a.denominator)

unfoldable pub beq_ℚ : ℚ → ℚ → Bool
unfolding leb_ℚ
beq_ℚ a b = leb_ℚ a b && leb_ℚ b a

unfoldable pub min_ℚ : ℚ → ℚ → ℚ
unfolding ltb_ℚ
min_ℚ a b = if ltb_ℚ b a then b else a

unfoldable pub max_ℚ : ℚ → ℚ → ℚ
unfolding ltb_ℚ
max_ℚ a b = if ltb_ℚ a b then b else a

unfoldable pub abs_ℚ : ℚ → ℚ
abs_ℚ a = record {
  numerator = pos (pos_part a.numerator + neg_part a.numerator);
  denominator = a.denominator;
}

-- `round(n / d)`: to the nearest integer, and to the even one of two.
unfoldable pub round_half_even : ℕ → ℕ → ℕ
round_half_even n d =
    let floor = n / d in
    let rest = 2 * (n % d) in
    if ltb rest d
    then floor
    else if ltb d rest
    then floor + 1
    else if floor % 2 == 0
    then floor
    else floor + 1

module _ {ℓ} {A : Type ℓ} where
  -- `items[i]`
  unfoldable pub item : List A → ℕ → Outcome A
  item [] i = raised Failure.index_error
  item (a ∷ items) zero = ok a
  item (a ∷ items) (suc i) = item items i

  -- `items[-1]`
  unfoldable pub last_item : List A → Outcome A
  last_item [] = raised Failure.index_error
  last_item (a ∷ []) = ok a
  last_item (a ∷ b ∷ items) = last_item (b ∷ items)

  -- `items[i - 1]`, which is the last item at zero.
  unfoldable pub item_before : List A → ℕ → Outcome A
  unfolding item last_item
  item_before items zero = last_item items
  item_before items (suc i) = item items i

  -- `items.insert(i, a)`
  unfoldable pub insert_at : ℕ → A → List A → List A
  insert_at zero a items = a ∷ items
  insert_at (suc i) a [] = a ∷ []
  insert_at (suc i) a (b ∷ items) = b ∷ insert_at i a items
