-- ===== src/Examples/Charges.antt =====
-- Tests of the mediation fees.
-- A penalty of 10 at either end of a channel of 100.
use raiden_common.Common.{◌≡◌, refl, List, [], ◌∷◌, length}
use raiden_common.Common.Int.{pos, ◌-ℤ◌}
use raiden_common.Common.Rational.{◌*ℤ◌, ℚ, integer, ◌-ℚ◌, ltb_ℚ, leb_ℚ, beq_ℚ, min_ℚ, max_ℚ}
use raiden_common.Fees.{Interpolate, insert_sorted, sorted_set, limited, collect_x_values}
use raiden_common.Fees.Ascending.{Interpolates, collect_x_values-Interpolates}

abbrev edges : Interpolate
edges = record {
  x_list = integer (pos 0) ∷ integer (pos 50) ∷ integer (pos 100) ∷ [];
  y_list = integer (pos 10) ∷ integer (pos 0) ∷ integer (pos 10) ∷ [];
  slopes = [];
}

abbrev edge_values : List ℚ
edge_values = collect_x_values edges edges (integer (pos 20)) (integer (pos 60)) (integer (pos 60))

four_values : length edge_values ≡ 4
unfolding collect_x_values sorted_set insert_sorted limited ◌-ℚ◌ ◌*ℤ◌ ltb_ℚ beq_ℚ leb_ℚ min_ℚ max_ℚ
    ◌-ℤ◌
four_values = refl

collect_x_values-Interpolates_example : Interpolates edge_values edges.y_list
collect_x_values-Interpolates_example =
    collect_x_values-Interpolates edges edges (integer (pos 20)) (integer (pos 60))
      (integer (pos 60)) edges.y_list
