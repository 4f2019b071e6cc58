-- ===== src/Channel/Withdraw/Totals.antt =====
-- The total withdraw of a side with a new pending withdraw.
use raiden_common.Channel.Balance.{transferred_of, get_balance}
use raiden_common.Channel.Balance.Conserve.{balance_of, get_balance-balance_of}
use raiden_common.Common.{
  ℕ, ◌≡◌, refl, sym, ap, ◌∙◌, subst, inl, inr, [], ◌∷◌, arith, Bool-cases, ◌==◌, nat_eq,
}
use raiden_common.Common.Bytes.{bytes_eq}
use raiden_common.Common.Dict.{Dict, insert}
use raiden_common.Common.Int.{ℤ, ◌+ℤ◌, ◌-ℤ◌, ◌≤ℤ◌, beq_ℤ_iff, max_ℤ, eq_of_parts, int_laws, int_eq}
use raiden_common.State.{
  PendingWithdrawState, NettingChannelEndState, largest_key, max_key, offchain_total_withdraw,
  total_withdraw,
}

largest_key-ge : (best : ℤ) (d : Dict ℤ PendingWithdrawState) → best ≤ℤ largest_key best d
unfolding largest_key
largest_key-ge best [] = omega arith
largest_key-ge best ((k, w) ∷ d) = ground (arith, largest_key-ge (max_ℤ best k) d)

largest_key-same :
    (k : ℤ) (d : Dict ℤ PendingWithdrawState) → largest_key k d ≤ℤ k → largest_key k d ≡ k
largest_key-same k d h = eq_of_parts _ _ (omega (arith, h, largest_key-ge k d))

max_ℤ-right : (a b : ℤ) → a ≤ℤ b → max_ℤ a b ≡ b
max_ℤ-right a b h = ground (arith, eq_of_parts a b)

max_ℤ-left : (a b : ℤ) → b ≤ℤ a → max_ℤ a b ≡ a
max_ℤ-left a b h = ground arith

largest_key-insert :
    (best k : ℤ) (w : PendingWithdrawState) (d : Dict ℤ PendingWithdrawState)
    → largest_key best d ≤ℤ k
    → largest_key best (insert k w d) ≡ k
unfolding largest_key insert
largest_key-insert best k w [] h = max_ℤ-right best k h
largest_key-insert best k w ((j, v) ∷ d) h = elim (Bool-cases (k == j)) [
  | inr other ↦ rw other (largest_key-insert (max_ℤ best j) k w d h)
  | inl same ↦
      let e : k ≡ j = (beq_ℤ_iff k j).0 same in
      let low : best ≤ℤ k = ground (arith, largest_key-ge (max_ℤ best j) d) in
      let bound : largest_key k d ≤ℤ k =
        subst (λ z. largest_key z d ≤ℤ k) (ap (max_ℤ best) (sym e) ∙ max_ℤ-right best k low) h in
      rw same (ap (λ z. largest_key z d) (max_ℤ-right best k low) ∙ largest_key-same k d bound)
]

pub max_key-insert :
    (k : ℤ) (w : PendingWithdrawState) (d : Dict ℤ PendingWithdrawState)
    → max_key d ≤ℤ k
    → max_key (insert k w d) ≡ k
unfolding max_key insert
max_key-insert k w [] h = refl
max_key-insert k w ((j, v) ∷ d) h = elim (Bool-cases (k == j)) [
  | inr other ↦ rw other (largest_key-insert j k w d h)
  | inl same ↦
      rw same
        (largest_key-same k d (subst (λ z. largest_key z d ≤ℤ k) (sym ((beq_ℤ_iff k j).0 same)) h))
]

-- The total withdraw of a side that got a pending withdraw of at least its total before.
pub total_withdraw-insert :
    (s s' : NettingChannelEndState) (amount : ℤ) (w : PendingWithdrawState)
    → s'.withdraws_pending ≡ insert amount w s.withdraws_pending
    → s'.onchain_total_withdraw ≡ s.onchain_total_withdraw
    → total_withdraw s ≤ℤ amount
    → total_withdraw s' ≡ amount
unfolding total_withdraw offchain_total_withdraw
total_withdraw-insert s s' amount w pending onchain h =
    let below : max_key s.withdraws_pending ≤ℤ amount = ground arith in
    let onchain_below : s.onchain_total_withdraw ≤ℤ amount = ground arith in
    (λ i. max_ℤ (max_key (pending i)) (onchain i))
    ∙ ap (λ z. max_ℤ z s.onchain_total_withdraw) (max_key-insert amount w s.withdraws_pending below)
    ∙ max_ℤ-left amount s.onchain_total_withdraw onchain_below

-- What the withdraw adds to the total is taken from the balance.
pub get_balance-withdrawn :
    (s s' r : NettingChannelEndState) (amount : ℤ)
    → s'.contract_balance ≡ s.contract_balance
    → s'.balance_proof ≡ s.balance_proof
    → total_withdraw s' ≡ amount
    → get_balance s' r +ℤ (amount -ℤ total_withdraw s) ≡ get_balance s r
get_balance-withdrawn s s' r amount deposit proof total =
    let received = transferred_of r.balance_proof in
    let new : get_balance s' r
        ≡ balance_of s.contract_balance amount (transferred_of s.balance_proof) received =
      get_balance-balance_of s' r
      ∙ (λ i. balance_of (deposit i) (total i) (transferred_of (proof i)) received) in
    ap (λ z. z +ℤ (amount -ℤ total_withdraw s)) new
    ∙ exchange s.contract_balance amount (total_withdraw s) (transferred_of s.balance_proof)
        received
    ∙ sym (get_balance-balance_of s r)
  where
    exchange :
        (deposit : ℕ) (a b : ℤ) (spent earned : ℕ)
        → balance_of deposit a spent earned +ℤ (a -ℤ b) ≡ balance_of deposit b spent earned
    exchange deposit a b spent earned = omega int_laws
