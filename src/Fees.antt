-- ===== src/Fees.antt =====
-- mediated_transfer/mediation_fee.py: `Interpolate`, and the fee that a mediator takes as a function
-- of the amount, in exact fractions as in the source.
pub mod Amount
pub mod Ascending
use raiden_common.Common.{
  ℕ, zero, suc, ◌+◌, ◌-◌, Bool, true, ◌&&◌, ◌||◌, Option, none, some, List, [], ◌∷◌, ◌++◌, map,
  if◌then◌else◌, length,
}
use raiden_common.Common.Int.{pos}
use raiden_common.Common.Outcome.{Failure, Outcome, ok, assert, ◌>>=◌, ◌>>◌}
use raiden_common.Common.Rational.{
  ℚ, integer, ◌+ℚ◌, ◌-ℚ◌, ◌*ℚ◌, divide, ltb_ℚ, leb_ℚ, beq_ℚ, min_ℚ, max_ℚ, abs_ℚ, item, last_item,
  item_before, insert_at,
}
use raiden_common.State.{FeeScheduleState}

pub record Interpolate : Type 0 where
  pub x_list : List ℚ
  pub y_list : List ℚ
  pub slopes : List ℚ

unfoldable pub is_ascending : List ℚ → Bool
unfolding ltb_ℚ
is_ascending [] = true
is_ascending (x ∷ []) = true
is_ascending (x ∷ y ∷ rest) = ltb_ℚ x y && is_ascending (y ∷ rest)

unfoldable pub slopes_of : List ℚ → List ℚ → Outcome (List ℚ)
unfolding ◌-ℚ◌ divide
slopes_of (x1 ∷ x2 ∷ xs) (y1 ∷ y2 ∷ ys) = do
  slope ← divide (y2 -ℚ y1) (x2 -ℚ x1)
  rest ← slopes_of (x2 ∷ xs) (y2 ∷ ys)
  ok (slope ∷ rest)
slopes_of xs ys = ok []

-- `Interpolate(x_list, y_list)`
unfoldable pub make_interpolate : List ℚ → List ℚ → Outcome Interpolate
unfolding is_ascending slopes_of
make_interpolate x_list y_list = do
  assert (is_ascending x_list) Failure.value_error
  slopes ← slopes_of x_list y_list
  ok (record { x_list = x_list; y_list = y_list; slopes = slopes })

-- `bisect_right` of the standard library, on a sorted list: how many items are at most `x`.
unfoldable pub bisect_right : List ℚ → ℚ → ℕ
unfolding leb_ℚ
bisect_right [] x = 0
bisect_right (y ∷ ys) x = if leb_ℚ y x then suc (bisect_right ys x) else 0

-- `Interpolate.__call__`
unfoldable pub interpolate : Interpolate → ℚ → Outcome ℚ
unfolding item last_item item_before bisect_right leb_ℚ beq_ℚ ◌+ℚ◌ ◌-ℚ◌ ◌*ℚ◌
interpolate f x = do
  first ← item f.x_list 0
  last ← last_item f.x_list
  assert (leb_ℚ first x && leb_ℚ x last) Failure.value_error
  if beq_ℚ x last then last_item f.y_list else (do
    let i = bisect_right f.x_list x
    x1 ← item_before f.x_list i
    y1 ← item_before f.y_list i
    slope ← item_before f.slopes i
    ok (y1 +ℚ slope *ℚ (x -ℚ x1)))

-- `sorted(set(...))`: an item that is there already is left out.
unfoldable pub insert_sorted : ℚ → List ℚ → List ℚ
unfolding ltb_ℚ beq_ℚ
insert_sorted x [] = x ∷ []
insert_sorted x (y ∷ ys) =
    let rest = insert_sorted x ys in
    if ltb_ℚ x y then x ∷ y ∷ ys else if beq_ℚ x y then y ∷ ys else y ∷ rest

unfoldable pub sorted_set : List ℚ → List ℚ
unfolding insert_sorted
sorted_set [] = []
sorted_set (x ∷ xs) = insert_sorted x (sorted_set xs)

-- `max(min(x, balance_out, max_x), 0)`
unfoldable pub limited : ℚ → ℚ → ℚ → ℚ
unfolding min_ℚ max_ℚ
limited balance_out max_x x = max_ℚ (min_ℚ (min_ℚ x balance_out) max_x) (integer (pos 0))

unfoldable pub collect_x_values : Interpolate → Interpolate → ℚ → ℚ → ℚ → List ℚ
unfolding sorted_set limited ◌-ℚ◌
collect_x_values penalty_func_in penalty_func_out balance_in balance_out max_x = sorted_set (
    map (limited balance_out max_x) (
      map (λ x. x -ℚ balance_in) penalty_func_in.x_list
      ++ map (λ x. balance_out -ℚ x) penalty_func_out.x_list))

-- `sign(y1) * sign(y2) == -1`
unfoldable pub changes_sign : ℚ → ℚ → Bool
unfolding ltb_ℚ
changes_sign y1 y2 =
    let zero_fee = integer (pos 0) in
    ltb_ℚ y1 zero_fee && ltb_ℚ zero_fee y2 || ltb_ℚ zero_fee y1 && ltb_ℚ y2 zero_fee

-- One round of the loop of `_cap_fees`: the points, with the intersection behind position `i`.
unfoldable pub cap_step : ℕ → List ℚ × List ℚ → Outcome (List ℚ × List ℚ)
unfolding changes_sign item divide abs_ℚ insert_at bisect_right ◌+ℚ◌ ◌-ℚ◌ ◌*ℚ◌
cap_step i (x_list, y_list) = do
  y1 ← item y_list i
  y2 ← item y_list (i + 1)
  x1 ← item x_list i
  x2 ← item x_list (i + 1)
  if changes_sign y1 y2
      then (do
        share ← divide (abs_ℚ y1) (abs_ℚ (y2 -ℚ y1))
        let new_x = x1 +ℚ share *ℚ (x2 -ℚ x1)
        let new_index = bisect_right x_list new_x
        ok (insert_at new_index new_x x_list, insert_at new_index (integer (pos 0)) y_list))
      else ok (x_list, y_list)

-- The number of rounds is fixed before the first one, though the lists grow.
unfoldable pub cap_rounds : ℕ → ℕ → List ℚ × List ℚ → Outcome (List ℚ × List ℚ)
unfolding cap_step
cap_rounds zero i points = ok points
cap_rounds (suc rounds) i points = do points' ← cap_step i points; cap_rounds rounds (i + 1) points'

unfoldable pub cap_fees_at : List ℚ → List ℚ → Outcome (List ℚ × List ℚ)
unfolding cap_rounds max_ℚ
cap_fees_at x_list y_list = do
  (xs, ys) ← cap_rounds (length x_list - 1) 0 (x_list, y_list)
  ok (xs, map (λ y. max_ℚ y (integer (pos 0))) ys)

abbrev pub points_of : List (ℕ × ℕ) → List ℚ × List ℚ
points_of points = (map (λ p. integer (pos p.0)) points, map (λ p. integer (pos p.1)) points)

-- `_penalty_func`, which the constructor of the schedule computes from `imbalance_penalty`.
unfoldable pub penalty_func : Option (List (ℕ × ℕ)) → Outcome (Option Interpolate)
unfolding make_interpolate
penalty_func none = ok none
penalty_func (some []) = ok none
penalty_func (some (p ∷ points)) = do
  let (x_list, y_list) = points_of (p ∷ points)
  f ← make_interpolate x_list y_list
  ok (some f)

-- `FeeScheduleState.fee`: the whole sum depends on the penalty function.
unfoldable pub fee : FeeScheduleState → Option Interpolate → ℚ → ℚ → Outcome ℚ
unfolding interpolate abs_ℚ ◌+ℚ◌ ◌-ℚ◌ ◌*ℚ◌
fee schedule none balance amount = ok (integer (pos 0))
fee schedule (some penalty) balance amount = do
  after ← interpolate penalty (balance +ℚ amount)
  before ← interpolate penalty balance
  ok (
      integer (pos schedule.flat)
      +ℚ record { numerator = pos schedule.proportional; denominator = 1000000 } *ℚ abs_ℚ amount
      +ℚ (after -ℚ before))
