-- ===== src/Channel/Balance.antt =====
-- transfer/channel.py: what each side owns, has locked, and may spend.
pub mod Conserve
use raiden_common.Channel.Locks.{get_number_of_pending_transfers}
use raiden_common.Channel.Status.{is_state_opened, get_status}
use raiden_common.Common.{
  ℕ, ◌+◌, ◌-◌, ◌*◌, Bool, true, false, not, ◌&&◌, Option, none, some, ltb, leb, if◌then◌else◌,
}
use raiden_common.Common.Bytes.{Bytes}
use raiden_common.Common.Dict.{sum_values}
use raiden_common.Common.Int.{ℤ, pos, ◌+ℤ◌, ◌-ℤ◌, ltb_ℤ, leb_ℤ, max_ℤ, min_ℤ}
use raiden_common.External.{External}
use raiden_common.State.{
  uint256_max, maximum_pending_transfers, BalanceProofState, content_of, NettingChannelEndState,
  NettingChannelState, offchain_total_withdraw, total_withdraw,
}
use raiden_common.State.Make.{locksroot_of_no_locks}

unfoldable pub get_amount_unclaimed_onchain : NettingChannelEndState → ℕ
get_amount_unclaimed_onchain end_state =
    sum_values (λ u. u.lock.amount) end_state.secrethashes_to_onchain_unlockedlocks

unfoldable pub get_amount_locked : NettingChannelEndState → ℕ
unfolding get_amount_unclaimed_onchain
get_amount_locked end_state =
    sum_values (λ l. l.amount) end_state.secrethashes_to_lockedlocks
    + sum_values (λ u. u.lock.amount) end_state.secrethashes_to_unlockedlocks
    + get_amount_unclaimed_onchain end_state

-- `balance_proof.transferred_amount`, and 0 without a balance proof.
abbrev pub transferred_of : Option BalanceProofState → ℕ
transferred_of none = 0
transferred_of (some b) = (content_of b).transferred_amount

-- The capacity of a channel: all deposits less all withdraws.
unfoldable pub get_capacity : NettingChannelState → ℤ
unfolding total_withdraw
get_capacity channel_state =
    pos channel_state.our_state.contract_balance
    -ℤ total_withdraw channel_state.our_state
    +ℤ pos channel_state.partner_state.contract_balance
    -ℤ total_withdraw channel_state.partner_state

-- `_get_balance`
unfoldable pub get_balance_with : NettingChannelEndState → NettingChannelEndState → Bool → ℤ
get_balance_with sender receiver subtract_withdraws =
    let max_withdraw = max_ℤ (offchain_total_withdraw sender) sender.onchain_total_withdraw in
    pos sender.contract_balance
    -ℤ (if subtract_withdraws then max_withdraw else pos 0)
    -ℤ pos (transferred_of sender.balance_proof)
    +ℤ pos (transferred_of receiver.balance_proof)

unfoldable pub get_balance : NettingChannelEndState → NettingChannelEndState → ℤ
unfolding get_balance_with
get_balance sender receiver = get_balance_with sender receiver true

unfoldable pub get_max_withdraw_amount : NettingChannelEndState → NettingChannelEndState → ℤ
unfolding get_balance_with
get_max_withdraw_amount sender receiver = get_balance_with sender receiver false

-- `BalanceProofData`
pub record BalanceProofData : Type 0 where
  pub locksroot : Bytes
  pub nonce : ℕ
  pub transferred_amount : ℕ
  pub locked_amount : ℕ

-- The locked amount is that of the locks, not the one in the balance proof.
unfoldable pub get_current_balanceproof : External → NettingChannelEndState → BalanceProofData
get_current_balanceproof x end_state = elim end_state.balance_proof [
  | none ↦ record {
    locksroot = locksroot_of_no_locks x;
    nonce = 0;
    transferred_amount = 0;
    locked_amount = 0;
  }
  | some b ↦ record {
    locksroot = (content_of b).locksroot;
    nonce = end_state.nonce;
    transferred_amount = (content_of b).transferred_amount;
    locked_amount = get_amount_locked end_state;
  }
]

-- `max(UINT256_MAX - transferred_amount - locked_amount, 0)` is subtraction that stops at 0.
unfoldable pub get_distributable : External → NettingChannelEndState → NettingChannelEndState → ℤ
get_distributable x sender receiver =
    let current = get_current_balanceproof x sender in
    let overflow_limit = uint256_max - current.transferred_amount - current.locked_amount in
    min_ℤ (pos overflow_limit) (get_balance sender receiver -ℤ pos (get_amount_locked sender))

unfoldable pub get_next_nonce : NettingChannelEndState → ℕ
get_next_nonce end_state = end_state.nonce + 1

unfoldable pub is_valid_amount : External → NettingChannelEndState → ℕ → Bool
is_valid_amount x end_state amount =
    let current = get_current_balanceproof x end_state in
    leb (current.transferred_amount + current.locked_amount + amount) uint256_max

unfoldable pub is_valid_channel_total_withdraw : ℤ → Bool
is_valid_channel_total_withdraw channel_total_withdraw =
    leb_ℤ channel_total_withdraw (pos uint256_max)

pub data ChannelUsability : Type 0 where
  usable not_opened invalid_settle_timeout reached_pending_limit : ChannelUsability
  not_enough_distributable balance_proof_would_overflow locktimeout_mismatch : ChannelUsability

-- `lock_timeout is None or reveal_timeout < lock_timeout <= settle_timeout`
abbrev pub is_lock_timeout_valid : NettingChannelState → Option ℕ → Bool
is_lock_timeout_valid channel_state none = true
is_lock_timeout_valid channel_state (some t) =
    leb t channel_state.settle_timeout && ltb channel_state.reveal_timeout t

unfoldable pub is_channel_usable_for_new_transfer :
    External → NettingChannelState → ℕ → Option ℕ → ChannelUsability
unfolding get_number_of_pending_transfers
is_channel_usable_for_new_transfer x channel_state transfer_amount lock_timeout =
    let ours = channel_state.our_state in
    if not (is_state_opened (get_status channel_state))
    then ChannelUsability.not_opened
    else if ltb channel_state.settle_timeout (channel_state.reveal_timeout * 2)
    then ChannelUsability.invalid_settle_timeout
    else if leb maximum_pending_transfers (get_number_of_pending_transfers ours)
    then ChannelUsability.reached_pending_limit
    else if ltb_ℤ (get_distributable x ours channel_state.partner_state) (pos transfer_amount)
    then ChannelUsability.not_enough_distributable
    else if not (is_valid_amount x ours transfer_amount)
    then ChannelUsability.balance_proof_would_overflow
    else if not (is_lock_timeout_valid channel_state lock_timeout)
    then ChannelUsability.locktimeout_mismatch
    else ChannelUsability.usable

abbrev pub is_usable : ChannelUsability → Bool
is_usable ChannelUsability.usable = true
is_usable other = false

unfoldable pub is_channel_usable_for_mediation : External → NettingChannelState → ℕ → ℕ → Bool
unfolding is_channel_usable_for_new_transfer
is_channel_usable_for_mediation x channel_state transfer_amount lock_timeout =
    is_usable
      (is_channel_usable_for_new_transfer x channel_state transfer_amount (some lock_timeout))
