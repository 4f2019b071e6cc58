-- ===== src/Channel/Balance/Conserve.antt =====
-- Balances before and after a change of one side, and the bounds of what can be distributed.
use raiden_common.Channel.Balance.{
  get_amount_locked, transferred_of, get_capacity, get_balance, get_current_balanceproof,
  get_distributable,
}
use raiden_common.Common.{ℕ, ◌+◌, ◌-◌, ◌≡◌, refl, sym, ap, ◌∙◌}
use raiden_common.Common.Int.{ℤ, pos, ◌+ℤ◌, ◌-ℤ◌, ◌≤ℤ◌, int_laws, min_ℤ-le}
use raiden_common.External.{External}
use raiden_common.State.{uint256_max, NettingChannelEndState, NettingChannelState, total_withdraw}

-- The balances of the two sides add up to the capacity of the channel, in every state.
pub get_balance-conserve :
    (c : NettingChannelState)
    → get_balance c.our_state c.partner_state +ℤ get_balance c.partner_state c.our_state
      ≡ get_capacity c
unfolding get_balance get_capacity
get_balance-conserve c = omega int_laws

-- What a side has locked does not exceed its balance.
abbrev pub IsSolvent : NettingChannelEndState → NettingChannelEndState → Type 0
IsSolvent sender receiver = pos (get_amount_locked sender) ≤ℤ get_balance sender receiver

-- What can be distributed, together with what is locked, is within the balance.
pub get_distributable_bounds :
    (x : External) (sender receiver : NettingChannelEndState)
    → (get_distributable x sender receiver +ℤ pos (get_amount_locked sender)
        ≤ℤ get_balance sender receiver)
      × (get_distributable x sender receiver ≤ℤ pos uint256_max)
unfolding get_distributable
get_distributable_bounds x sender receiver =
    let current = get_current_balanceproof x sender in
    let limit = uint256_max - current.transferred_amount - current.locked_amount in
    let bounds =
      min_ℤ-le (pos limit) (get_balance sender receiver -ℤ pos (get_amount_locked sender)) in
    omega (int_laws, bounds)

-- What can be distributed fits the contract's word beside what is transferred and locked.
pub get_distributable_room :
    (x : External) (sender receiver : NettingChannelEndState)
    → get_distributable x sender receiver
      ≤ℤ pos (
          uint256_max
          - (get_current_balanceproof x sender).transferred_amount
          - (get_current_balanceproof x sender).locked_amount)
unfolding get_distributable
get_distributable_room x sender receiver =
    (min_ℤ-le
      (pos (
        uint256_max
        - (get_current_balanceproof x sender).transferred_amount
        - (get_current_balanceproof x sender).locked_amount))
      (get_balance sender receiver -ℤ pos (get_amount_locked sender))).0

abbrev pub balance_of : ℕ → ℤ → ℕ → ℕ → ℤ
balance_of deposit withdraw sent received = pos deposit -ℤ withdraw -ℤ pos sent +ℤ pos received

balance_of-moved :
    (deposit : ℕ) (withdraw : ℤ) (sent moved received : ℕ)
    → balance_of deposit withdraw (sent + moved) received +ℤ pos moved
      ≡ balance_of deposit withdraw sent received
balance_of-moved deposit withdraw sent moved received = omega int_laws

balance_of-received :
    (deposit : ℕ) (withdraw : ℤ) (sent moved received : ℕ)
    → balance_of deposit withdraw sent (received + moved)
      ≡ balance_of deposit withdraw sent received +ℤ pos moved
balance_of-received deposit withdraw sent moved received = omega int_laws

pub get_balance-balance_of :
    (s r : NettingChannelEndState)
    → get_balance s r
      ≡ balance_of s.contract_balance
          (total_withdraw s)
          (transferred_of s.balance_proof)
          (transferred_of r.balance_proof)
unfolding get_balance total_withdraw
get_balance-balance_of s r = refl

-- A new balance proof of the sender that transfers `moved` more than the last one takes as much
-- from the sender's balance, and gives it to the receiver.
pub get_balance-moved :
    (s s' r : NettingChannelEndState) (moved : ℕ)
    → s'.contract_balance ≡ s.contract_balance
    → total_withdraw s' ≡ total_withdraw s
    → transferred_of s'.balance_proof ≡ transferred_of s.balance_proof + moved
    → (get_balance s' r +ℤ pos moved ≡ get_balance s r)
      × (get_balance r s' ≡ get_balance r s +ℤ pos moved)
get_balance-moved s s' r moved a b d =
    let received = transferred_of r.balance_proof in
    let spent : get_balance s' r
        ≡ balance_of s.contract_balance (total_withdraw s) (transferred_of s.balance_proof + moved)
            received =
      get_balance-balance_of s' r ∙ (λ i. balance_of (a i) (b i) (d i) received) in
    (
      ap (λ z. z +ℤ pos moved) spent
          ∙ balance_of-moved s.contract_balance (total_withdraw s) (transferred_of s.balance_proof)
              moved received
          ∙ sym (get_balance-balance_of s r),
      get_balance-balance_of r s'
          ∙ ap (λ z. balance_of r.contract_balance (total_withdraw r) received z) d
          ∙ balance_of-received r.contract_balance (total_withdraw r) received moved
              (transferred_of s.balance_proof)
          ∙ ap (λ z. z +ℤ pos moved) (sym (get_balance-balance_of r s)),
    )
