-- ===== src/Channel/Withdraw/Order.antt =====
-- The pending withdraws of our side: a dictionary by the total that is withdrawn, in the order of the
-- requests.
use raiden_common.Common.{◌≡◌, ◌⊎◌, Bool, true, none, [], ◌∷◌, nat_eq}
use raiden_common.Common.Bytes.{bytes_eq}
use raiden_common.Common.Dict.{Dict, lookup}
use raiden_common.Common.Int.{ℤ, pos, ◌<ℤ◌, int_eq}
use raiden_common.State.{PendingWithdrawState}

-- Each withdraw stands under its total, and no two under the same.
abbrev pub IsKeyed : Dict ℤ PendingWithdrawState → Type 0
IsKeyed [] = Unit
IsKeyed ((k, w) ∷ d) = (k ≡ w.total_withdraw) × (lookup k d ≡ none) × IsKeyed d

-- All totals are above an amount.
abbrev pub AreAbove : ℤ → Dict ℤ PendingWithdrawState → Type 0
AreAbove amount [] = Unit
AreAbove amount ((k, w) ∷ d) = (amount <ℤ w.total_withdraw) × AreAbove amount d

-- All totals are above those of the earlier requests.
abbrev pub IsAscending : Dict ℤ PendingWithdrawState → Type 0
IsAscending [] = Unit
IsAscending ((k, w) ∷ d) = AreAbove w.total_withdraw d × IsAscending d

-- Outside of a cooperative settlement the totals are positive and ascending.
abbrev pub IsOrdered : Bool → Dict ℤ PendingWithdrawState → Type 0
IsOrdered coop_settle d = IsKeyed d × ((coop_settle ≡ true) ⊎ (AreAbove (pos 0) d × IsAscending d))
