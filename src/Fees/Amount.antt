-- ===== src/Fees/Amount.antt =====
-- `_mediation_fee_func` of mediation_fee.py, and `find_intersection` and `get_amount_without_fees` of
-- mediator.py.
use raiden_common.Channel.Balance.{get_balance}
use raiden_common.Common.{
  ℕ, zero, suc, ◌+◌, Bool, not, ◌&&◌, ◌||◌, Option, none, some, List, [], ◌∷◌, map, if◌then◌else◌,
  is_some, ◌==◌, bool_eq, nat_eq,
}
use raiden_common.Common.Bytes.{bytes_eq}
use raiden_common.Common.Int.{ℤ, pos, negsuc, ◌+ℤ◌, ◌-ℤ◌, int_eq}
use raiden_common.Common.Outcome.{Failure, Outcome, ok, raised, assert, ◌>>=◌, ◌>>◌}
use raiden_common.Common.Rational.{
  ℚ, integer, ◌+ℚ◌, ◌-ℚ◌, ◌*ℚ◌, divide, ltb_ℚ, round_half_even, item, last_item, item_before,
}
use raiden_common.Fees.{
  Interpolate, make_interpolate, collect_x_values, cap_fees_at, penalty_func, fee,
}
use raiden_common.State.{FeeScheduleState, NettingChannelState}

-- `except ValueError: raise UndefinedMediationFee()`
abbrev pub or_undefined {ℓ} : {A : Type ℓ} → Outcome A → Outcome A
or_undefined (raised Failure.value_error) = raised Failure.undefined_mediation_fee
or_undefined o = o

-- `Interpolate([0, capacity], [0, 0])` where the schedule has no penalty function.
unfoldable pub penalty_or_dummy : Option Interpolate → ℤ → Outcome Interpolate
unfolding make_interpolate
penalty_or_dummy (some f) capacity = ok f
penalty_or_dummy none capacity =
    let zero_fee = integer (pos 0) in
    make_interpolate (zero_fee ∷ integer capacity ∷ []) (zero_fee ∷ zero_fee ∷ [])

-- What `_mediation_fee_func` is given besides the schedules; one of the two amounts is given.
pub record FeeArguments : Type 0 where
  pub balance_in : ℤ
  pub balance_out : ℤ
  pub receivable : ℤ
  pub amount_with_fees : Option ℕ
  pub amount_without_fees : Option ℕ
  pub cap_fees : Bool

abbrev pub amount_or : Option ℕ → ℚ → ℚ
amount_or none x = x
amount_or (some n) x = integer (pos n)

-- The fees of both channels at the point `x`.
unfoldable pub fee_at :
    FeeScheduleState → Interpolate → FeeScheduleState → Interpolate → FeeArguments → ℚ → Outcome ℚ
unfolding fee ◌+ℚ◌ ◌-ℚ◌
fee_at schedule_in penalty_in schedule_out penalty_out a x = do
  taken_in ←
      fee schedule_in (some penalty_in) (integer a.balance_in) (amount_or a.amount_with_fees x)
  taken_out ←
      fee schedule_out (some penalty_out) (integer a.balance_out)
        (integer (pos 0) -ℚ amount_or a.amount_without_fees x)
  ok (taken_in +ℚ taken_out)

unfoldable pub fees_at : (ℚ → Outcome ℚ) → List ℚ → Outcome (List ℚ)
fees_at f [] = ok []
fees_at f (x ∷ xs) = do y ← f x; ys ← fees_at f xs; ok (y ∷ ys)

unfoldable pub mediation_fee_func :
    FeeScheduleState → FeeScheduleState → FeeArguments → Outcome Interpolate
unfolding penalty_func penalty_or_dummy collect_x_values fees_at fee_at cap_fees_at make_interpolate
    ◌+ℤ◌
mediation_fee_func schedule_in schedule_out a = do
  assert (not (is_some a.amount_with_fees && is_some a.amount_without_fees)) Failure.fee_arguments
  assert (not (a.balance_out == pos 0 || a.receivable == pos 0)) Failure.undefined_mediation_fee
  func_in ← penalty_func schedule_in.imbalance_penalty
  func_out ← penalty_func schedule_out.imbalance_penalty
  penalty_in ← penalty_or_dummy func_in (a.balance_in +ℤ a.receivable)
  penalty_out ← penalty_or_dummy func_out a.balance_out
  let x_list =
      collect_x_values penalty_in penalty_out (integer a.balance_in) (integer a.balance_out)
        (integer (if is_some a.amount_with_fees then a.balance_out else a.receivable))
  y_list ← or_undefined (fees_at (fee_at schedule_in penalty_in schedule_out penalty_out a) x_list)
  points ← if a.cap_fees then cap_fees_at x_list y_list else ok (x_list, y_list)
  make_interpolate points.0 points.1

-- The first position at which the fees are no longer on the side of the line where they begin.
unfoldable pub first_crossing : Bool → List ℚ → List ℚ → ℕ → Option ℕ
unfolding ltb_ℚ
first_crossing below (y ∷ ys) (l ∷ ls) i =
    let rest = first_crossing below ys ls (i + 1) in
    if (if below then ltb_ℚ y l else ltb_ℚ l y) then rest else some i
first_crossing below ys ls i = none

-- The line falls from the amount: `amount_with_fees - x`.
unfoldable pub line_of : ℕ → List ℚ → List ℚ
unfolding ◌-ℚ◌
line_of amount_with_fees x_list = map (λ x. integer (pos amount_with_fees) -ℚ x) x_list

unfoldable pub find_intersection : Interpolate → ℕ → Outcome (Option ℚ)
unfolding line_of first_crossing item item_before last_item divide ltb_ℚ ◌+ℚ◌ ◌-ℚ◌ ◌*ℚ◌
find_intersection fee_func amount_with_fees = do
  let line = line_of amount_with_fees fee_func.x_list
  y ← item fee_func.y_list 0
  l ← item line 0
  elim (first_crossing (ltb_ℚ y l) fee_func.y_list line 0) [
    | none ↦ ok none
    | some i ↦ (do
      x1 ← item_before fee_func.x_list i
      x2 ← item fee_func.x_list i
      yf1 ← item_before fee_func.y_list i
      yf2 ← item fee_func.y_list i
      yl1 ← item_before line i
      yl2 ← item line i
      share ← divide ((yl1 -ℚ yf1) *ℚ (x2 -ℚ x1)) ((yf2 -ℚ yf1) -ℚ (yl2 -ℚ yl1))
      ok (some (share +ℚ x1)))
  ]

-- `except UndefinedMediationFee: return None`
abbrev pub or_none {ℓ} : {A : Type ℓ} → Outcome (Option A) → Outcome (Option A)
or_none (raised Failure.undefined_mediation_fee) = ok none
or_none o = o

-- `None` at zero or below; else the nearest integer.
unfoldable pub rounded_amount : ℚ → Option ℕ
unfolding round_half_even
rounded_amount q = elim q.numerator [
  | pos zero ↦ none
  | pos (suc n) ↦ some (round_half_even (suc n) q.denominator)
  | negsuc n ↦ none
]

unfoldable pub get_amount_without_fees :
    ℕ → NettingChannelState → NettingChannelState → Outcome (Option ℕ)
unfolding get_balance mediation_fee_func find_intersection rounded_amount ◌-ℤ◌
get_amount_without_fees amount_with_fees channel_in channel_out = do
  let balance_in = get_balance channel_in.our_state channel_in.partner_state
  let balance_out = get_balance channel_out.our_state channel_out.partner_state
  let receivable =
      pos (channel_in.our_state.contract_balance + channel_in.partner_state.contract_balance)
      -ℤ balance_in
  assert (bool_eq channel_in.fee_schedule.cap_fees channel_out.fee_schedule.cap_fees)
      Failure.cap_fees_differ
  found ← or_none (do
    fee_func ← mediation_fee_func channel_in.fee_schedule channel_out.fee_schedule (record {
      balance_in = balance_in;
      balance_out = balance_out;
      receivable = receivable;
      amount_with_fees = some amount_with_fees;
      amount_without_fees = none;
      cap_fees = channel_in.fee_schedule.cap_fees;
    })
    find_intersection fee_func amount_with_fees)
  elim found [ none ↦ ok none | some amount ↦ ok (rounded_amount amount) ]
