-- ===== src/Fees/Ascending.antt =====
-- The x-axis of a mediation fee function.
use raiden_common.Common.{
  ℕ, zero, suc, ◌*◌, ◌<◌, ◌≡◌, refl, inl, inr, Bool, true, false, not, ◌&&◌, List, [], ◌∷◌, ◌++◌,
  map, arith, Bool-cases,
}
use raiden_common.Common.Int.{ℤ, pos, negsuc, pos_part, neg_part, ◌-ℤ◌, ltb_ℤ, leb_ℤ, -ℤ_parts}
use raiden_common.Common.Outcome.{ok}
use raiden_common.Common.Rational.{
  ◌*ℤ◌, ℚ, integer, ◌-ℚ◌, divide, ltb_ℚ, leb_ℚ, beq_ℚ, min_ℚ, max_ℚ,
}
use raiden_common.Fees.{
  Interpolate, is_ascending, slopes_of, make_interpolate, insert_sorted, sorted_set, limited,
  collect_x_values,
}

trichotomy : (x y : ℚ) → ltb_ℚ x y ≡ false → beq_ℚ x y ≡ false → ltb_ℚ y x ≡ true
unfolding ltb_ℚ leb_ℚ beq_ℚ
trichotomy x y h k =
    compared (x.numerator *ℤ pos y.denominator) (y.numerator *ℤ pos x.denominator) h k
  where
    compared : (a b : ℤ) → ltb_ℤ a b ≡ false → leb_ℤ a b && leb_ℤ b a ≡ false → ltb_ℤ b a ≡ true
    compared a b h k = ground arith

-- Behind a smaller item the list stays ascending.
insert_sorted-above :
    (x y : ℚ) (ys : List ℚ)
    → ltb_ℚ y x ≡ true
    → is_ascending (y ∷ ys) ≡ true
    → is_ascending (insert_sorted x ys) ≡ true
    → is_ascending (y ∷ insert_sorted x ys) ≡ true
unfolding is_ascending insert_sorted
insert_sorted-above x y [] above sorted inner = rw above refl
insert_sorted-above x y (z ∷ zs) above sorted inner = elim (Bool-cases (ltb_ℚ x z)) [
  | inl less ↦ rw (less, insert_sorted) (ground (arith, rw (less, insert_sorted) at inner))
  | inr other ↦ elim (Bool-cases (beq_ℚ x z)) [
    | inl same ↦ rw (other, insert_sorted, same) sorted
    | inr greater ↦
        rw (other, insert_sorted, greater)
          (ground (arith, rw (other, insert_sorted, greater) at inner))
  ]
]

tail-ascending : (y : ℚ) (ys : List ℚ) → is_ascending (y ∷ ys) ≡ true → is_ascending ys ≡ true
unfolding is_ascending
tail-ascending y [] h = refl
tail-ascending y (z ∷ zs) h = ground arith

insert_sorted-ascending :
    (x : ℚ) (ys : List ℚ) → is_ascending ys ≡ true → is_ascending (insert_sorted x ys) ≡ true
unfolding insert_sorted is_ascending
insert_sorted-ascending x [] h = refl
insert_sorted-ascending x (y ∷ ys) h =
    let inner = insert_sorted-ascending x ys (tail-ascending y ys h) in
    elim (Bool-cases (ltb_ℚ x y)) [
      | inl less ↦ rw (less, insert_sorted) (rw (less, is_ascending) h)
      | inr other ↦ elim (Bool-cases (beq_ℚ x y)) [
        | inl same ↦ rw (other, insert_sorted, same) h
        | inr greater ↦
            rw (other, insert_sorted, greater)
              (insert_sorted-above x y ys (trichotomy x y other greater) h inner)
      ]
    ]

sorted_set-ascending : (xs : List ℚ) → is_ascending (sorted_set xs) ≡ true
unfolding sorted_set is_ascending
sorted_set-ascending [] = refl
sorted_set-ascending (x ∷ xs) = insert_sorted-ascending x (sorted_set xs) (sorted_set-ascending xs)

positive_lem : (d : ℤ) → neg_part d < pos_part d → (n : ℕ) × (d ≡ pos (suc n))
positive_lem (pos zero) h = absurd (omega arith)
positive_lem (pos (suc n)) h = (n, refl)
positive_lem (negsuc n) h = absurd (omega arith)

difference-positive : (u v : ℤ) → ltb_ℤ v u ≡ true → (n : ℕ) × (u -ℤ v ≡ pos (suc n))
difference-positive u v h = positive_lem (u -ℤ v) (ground (arith, -ℤ_parts u v))

divide-positive :
    (y1 y2 x1 x2 : ℚ) → ltb_ℚ x1 x2 ≡ true → (slope : ℚ) × (divide (y2 -ℚ y1) (x2 -ℚ x1) ≡ ok slope)
unfolding divide ltb_ℚ ◌-ℚ◌
divide-positive y1 y2 x1 x2 h =
    let (n, e) =
      difference-positive (x2.numerator *ℤ pos x1.denominator) (x1.numerator *ℤ pos x2.denominator)
        h in
    (
      record {
        numerator = (y2 -ℚ y1).numerator *ℤ pos (x2.denominator * x1.denominator);
        denominator = y2.denominator * y1.denominator * suc n;
      },
      rw e refl,
    )

slopes_of-ascending :
    (xs ys : List ℚ) → is_ascending xs ≡ true → (slopes : List ℚ) × (slopes_of xs ys ≡ ok slopes)
unfolding slopes_of is_ascending
slopes_of-ascending [] ys h = ([], refl)
slopes_of-ascending (x1 ∷ []) ys h = ([], refl)
slopes_of-ascending (x1 ∷ x2 ∷ xs) [] h = ([], refl)
slopes_of-ascending (x1 ∷ x2 ∷ xs) (y1 ∷ []) h = ([], refl)
slopes_of-ascending (x1 ∷ x2 ∷ xs) (y1 ∷ y2 ∷ ys) h =
    let (slope, e) = divide-positive y1 y2 x1 x2 (ground arith) in
    let (slopes, e') = slopes_of-ascending (x2 ∷ xs) (y2 ∷ ys) (ground arith) in
    (slope ∷ slopes, rw (e, slopes_of, e') refl)

-- Not below zero.
abbrev pub are_amounts : List ℚ → Bool
are_amounts [] = true
are_amounts (x ∷ xs) = not (ltb_ℚ x (integer (pos 0))) && are_amounts xs

insert_sorted-are_amounts :
    (x : ℚ) (ys : List ℚ)
    → ltb_ℚ x (integer (pos 0)) ≡ false
    → are_amounts ys ≡ true
    → are_amounts (insert_sorted x ys) ≡ true
unfolding insert_sorted
insert_sorted-are_amounts x [] h k = rw h refl
insert_sorted-are_amounts x (y ∷ ys) h k =
    let rest = insert_sorted-are_amounts x ys h (ground arith) in
    elim (Bool-cases (ltb_ℚ x y)) [
      | inl less ↦ rw (less, insert_sorted, h) k
      | inr other ↦ elim (Bool-cases (beq_ℚ x y)) [
        | inl same ↦ rw (other, insert_sorted, same) k
        | inr greater ↦ rw (other, insert_sorted, greater) (ground arith)
      ]
    ]

limited_lem :
    (balance_out max_x x : ℚ) → ltb_ℚ (limited balance_out max_x x) (integer (pos 0)) ≡ false
unfolding limited max_ℚ
limited_lem balance_out max_x x =
    elim (Bool-cases (ltb_ℚ (min_ℚ (min_ℚ x balance_out) max_x) (integer (pos 0)))) [
      | inl below ↦ rw (below, limited) refl
      | inr above ↦ rw (above, limited) above
    ]

sorted_set-are_amounts :
    (balance_out max_x : ℚ) (xs : List ℚ)
    → are_amounts (sorted_set (map (limited balance_out max_x) xs)) ≡ true
unfolding sorted_set
sorted_set-are_amounts balance_out max_x [] = refl
sorted_set-are_amounts balance_out max_x (x ∷ xs) =
    insert_sorted-are_amounts (limited balance_out max_x x)
      (sorted_set (map (limited balance_out max_x) xs)) (limited_lem balance_out max_x x)
      (sorted_set-are_amounts balance_out max_x xs)

-- The points that an `Interpolate` takes, with any values: strictly ascending and not below zero; no
-- slope between them divides by zero.
abbrev pub Interpolates : List ℚ → List ℚ → Type 0
Interpolates x_list y_list =
    (is_ascending x_list ≡ true)
    × (are_amounts x_list ≡ true)
    × ((slopes : List ℚ) × (make_interpolate x_list y_list
          ≡ ok (record { x_list = x_list; y_list = y_list; slopes = slopes })))

-- Whatever the penalty functions, balances and limits are, and whatever fees are at these points,
-- the x-values that `_collect_x_values` finds make an `Interpolate`: they are in strictly ascending
-- order, so neither its constructor refuses them nor any slope divides by zero; and none of them is
-- below zero.
pub collect_x_values-Interpolates :
    (penalty_in penalty_out : Interpolate) (balance_in balance_out max_x : ℚ) (y_list : List ℚ)
    → Interpolates (collect_x_values penalty_in penalty_out balance_in balance_out max_x) y_list
unfolding collect_x_values make_interpolate
collect_x_values-Interpolates penalty_in penalty_out balance_in balance_out max_x y_list =
    let points =
      map (λ x. x -ℚ balance_in) penalty_in.x_list
      ++ map (λ x. balance_out -ℚ x) penalty_out.x_list in
    let x_list = sorted_set (map (limited balance_out max_x) points) in
    let ascending = sorted_set-ascending (map (limited balance_out max_x) points) in
    let (slopes, e) = slopes_of-ascending x_list y_list ascending in
    (
      ascending,
      sorted_set-are_amounts balance_out max_x points,
      (slopes, rw (ascending, make_interpolate, e) refl),
    )
