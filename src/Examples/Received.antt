-- ===== src/Examples/Received.antt =====
-- Tests of the handlers of received messages.
use raiden_common.Channel.Balance.{
  get_amount_unclaimed_onchain, get_amount_locked, get_balance_with, get_balance,
  get_current_balanceproof, get_distributable, get_next_nonce,
}
use raiden_common.Channel.Balance.Conserve.{IsSolvent}
use raiden_common.Channel.Invariant.Moves.{TakesLock, LeavesLock}
use raiden_common.Channel.Locks.{
  is_lock_pending, is_lock_expired, get_lock, del_unclaimed_lock, del_lock, compute_locks_with,
  compute_locks_without, join, compute_locksroot,
}
use raiden_common.Channel.Receive.{
  Handled, accept_balance_proof, add_lockedlock, handle_receive_lockedtransfer,
  handle_refundtransfer, handle_receive_lock_expired, handle_unlock,
}
use raiden_common.Channel.Receive.Amounts.{
  handle_receive_lockedtransfer-TakesLock, handle_unlock-LeavesLock,
}
use raiden_common.Channel.Receive.Authentic.{
  handle_receive_lockedtransfer-IsUsable, handle_receive_lockedtransfer-replay,
}
use raiden_common.Channel.Receive.Consistent.{
  handle_receive_lockedtransfer-IsConsistent, handle_refundtransfer-IsConsistent,
  handle_unlock-IsConsistent, handle_receive_lock_expired-IsConsistent,
}
use raiden_common.Channel.Receive.Sound.{Refuses}
use raiden_common.Channel.Sanity.Consistent.{IsConsistent}
use raiden_common.Channel.Status.{
  transaction_state, status_before_settle, status_of, get_status, get_receiver_expiration_threshold,
}
use raiden_common.Channel.Validate.{
  is_valid_signature, signed_bytes, is_valid_balanceproof_signature,
  is_balance_proof_safe_for_onchain_operations, is_balance_proof_usable_onchain,
  compare_balance_proof, check_locks_with, valid_lockedtransfer_check, is_valid_lockedtransfer,
  expiring_lock, check_lock_expired, is_valid_lock_expired, is_valid_unlock,
}
use raiden_common.Channel.Validate.Accepted.{IsUsable}
use raiden_common.Common.{
  ◌≤◌, ◌≡◌, refl, ◌⊎◌, true, false, none, some, [], length, is_some, list_contains, list_remove,
  nat_eq,
}
use raiden_common.Common.Bytes.{bytes_beq, to_bytes, bytes_eq}
use raiden_common.Common.Dict.{lookup, insert, erase, sum_values}
use raiden_common.Common.Int.{◌+ℤ◌, ◌-ℤ◌, int_eq}
use raiden_common.Common.Outcome.{Outcome, ok, raised}
use raiden_common.Events.{LockedTransferUnsignedState, ReceiveTransferRefund}
use raiden_common.Examples.{
  toy, ten, proof_over, transfer_ten, unlock_ten, expire_ten, fresh_channel, locked_channel,
  fresh_channel-IsConsistent, ten-Fits, locked_channel-IsConsistent,
}
use raiden_common.State.{
  maximum_pending_transfers, HashTimeLockState, largest_key, max_key, offchain_total_withdraw,
}
use raiden_common.State.Make.{encoded, hash_balance_data}

-- The result of a handler that returns.
abbrev pub handled_of : Outcome Handled → Handled
handled_of (ok r) = r
handled_of (raised e) = record { is_valid = false; channel = fresh_channel; events = [] }

transfer_ten_accepted :
    (handle_receive_lockedtransfer toy fresh_channel transfer_ten none).is_valid ≡ true
unfolding handle_receive_lockedtransfer is_valid_lockedtransfer is_balance_proof_usable_onchain
    get_status is_valid_balanceproof_signature compute_locks_with list_contains check_locks_with
    compare_balance_proof bytes_beq to_bytes compute_locksroot encoded get_current_balanceproof
    get_distributable ◌-ℤ◌ get_balance ◌+ℤ◌ get_amount_locked get_amount_unclaimed_onchain
    get_balance_with get_next_nonce join accept_balance_proof add_lockedlock status_before_settle
    status_of transaction_state is_balance_proof_safe_for_onchain_operations is_valid_signature
    signed_bytes valid_lockedtransfer_check insert sum_values hash_balance_data largest_key max_key
    offchain_total_withdraw
transfer_ten_accepted = refl

handle_receive_lockedtransfer-IsConsistent_example :
    IsConsistent toy (handle_receive_lockedtransfer toy fresh_channel transfer_ten none).channel
unfolding is_lock_pending lookup
handle_receive_lockedtransfer-IsConsistent_example =
    handle_receive_lockedtransfer-IsConsistent toy fresh_channel transfer_ten none
      fresh_channel-IsConsistent ten-Fits refl

handle_receive_lockedtransfer-TakesLock_example :
    Refuses fresh_channel (handle_receive_lockedtransfer toy fresh_channel transfer_ten none)
    ⊎ (TakesLock fresh_channel.partner_state locked_channel.partner_state fresh_channel.our_state
          ten
        × IsSolvent locked_channel.partner_state fresh_channel.our_state
        × (length locked_channel.partner_state.pending_locks ≤ maximum_pending_transfers)
        × (locked_channel.our_state ≡ fresh_channel.our_state))
unfolding is_lock_pending lookup
handle_receive_lockedtransfer-TakesLock_example =
    handle_receive_lockedtransfer-TakesLock toy fresh_channel transfer_ten none
      fresh_channel-IsConsistent.partner refl

handle_receive_lockedtransfer-IsUsable_example :
    IsUsable toy transfer_ten.balance_proof fresh_channel fresh_channel.partner_state
handle_receive_lockedtransfer-IsUsable_example =
    handle_receive_lockedtransfer-IsUsable toy fresh_channel transfer_ten none transfer_ten_accepted

handle_receive_lockedtransfer-replay_example :
    Refuses locked_channel (handle_receive_lockedtransfer toy locked_channel transfer_ten (some 1))
handle_receive_lockedtransfer-replay_example =
    handle_receive_lockedtransfer-replay toy fresh_channel transfer_ten none (some 1)
      transfer_ten_accepted

abbrev refund_ten : ReceiveTransferRefund
refund_ten = record { transfer = transfer_ten }

-- The transfer that the refund gives back.
abbrev refunded : LockedTransferUnsignedState
refunded = record {
  payment_identifier = 3;
  token = 8;
  lock = record { amount = 10; expiration = 50; secrethash = 7 };
  target = 1;
  initiator = 2;
  balance_proof = (proof_over 1 0 10 (to_bytes 32 1)).content;
  route_states = [];
  metadata = none;
  secret = none;
}

handle_refundtransfer-IsConsistent_example :
    IsConsistent toy (handle_refundtransfer toy refunded fresh_channel refund_ten none).channel
unfolding is_lock_pending lookup
handle_refundtransfer-IsConsistent_example =
    handle_refundtransfer-IsConsistent toy refunded fresh_channel refund_ten none
      fresh_channel-IsConsistent ten-Fits refl

handle_unlock-IsConsistent_example :
    (r : Handled) × (handle_unlock toy locked_channel unlock_ten none ≡ ok r)
    × IsConsistent toy r.channel
handle_unlock-IsConsistent_example =
    handle_unlock-IsConsistent toy locked_channel unlock_ten none locked_channel-IsConsistent

handle_unlock-LeavesLock_example :
    (r : Handled) × (handle_unlock toy locked_channel unlock_ten none ≡ ok r)
    × (Refuses locked_channel r
        ⊎ ((lock : HashTimeLockState) × (get_lock locked_channel.partner_state 7 ≡ some lock)
            × LeavesLock locked_channel.partner_state r.channel.partner_state
                locked_channel.our_state lock lock.amount
            × (r.channel.our_state ≡ locked_channel.our_state)))
handle_unlock-LeavesLock_example =
    handle_unlock-LeavesLock toy locked_channel unlock_ten none locked_channel-IsConsistent.partner

abbrev pub unlocked_outcome : Handled
unlocked_outcome = handled_of (handle_unlock toy locked_channel unlock_ten none)

pub unlock_ten_ok :
    (handle_unlock toy locked_channel unlock_ten none ≡ ok unlocked_outcome)
    × (unlocked_outcome.is_valid ≡ true)
    × (is_some (get_lock unlocked_outcome.channel.partner_state 7) ≡ false)
unfolding handle_unlock handle_receive_lockedtransfer lookup get_lock is_valid_unlock
    compute_locks_without list_remove del_lock del_unclaimed_lock is_lock_pending erase
    is_valid_lockedtransfer is_balance_proof_usable_onchain get_status
    is_valid_balanceproof_signature compute_locks_with list_contains check_locks_with
    compare_balance_proof bytes_beq to_bytes compute_locksroot encoded get_current_balanceproof
    get_distributable ◌-ℤ◌ get_balance ◌+ℤ◌ get_amount_locked get_amount_unclaimed_onchain
    get_balance_with get_next_nonce join accept_balance_proof add_lockedlock status_before_settle
    status_of transaction_state is_balance_proof_safe_for_onchain_operations is_valid_signature
    signed_bytes valid_lockedtransfer_check insert sum_values hash_balance_data largest_key max_key
    offchain_total_withdraw
unlock_ten_ok = (refl, refl, refl)

handle_receive_lock_expired-IsConsistent_example :
    IsConsistent toy (handle_receive_lock_expired toy locked_channel expire_ten 55 none).channel
handle_receive_lock_expired-IsConsistent_example =
    handle_receive_lock_expired-IsConsistent toy locked_channel expire_ten 55 none
      locked_channel-IsConsistent

expire_ten_accepted :
    (handle_receive_lock_expired toy locked_channel expire_ten 55 none).is_valid ≡ true
unfolding handle_receive_lock_expired handle_receive_lockedtransfer lookup is_valid_lock_expired
    expiring_lock check_lock_expired compute_locks_without list_remove del_unclaimed_lock erase
    is_lock_expired get_receiver_expiration_threshold is_valid_lockedtransfer
    is_balance_proof_usable_onchain get_status is_valid_balanceproof_signature compute_locks_with
    list_contains check_locks_with compare_balance_proof bytes_beq to_bytes compute_locksroot
    encoded get_current_balanceproof get_distributable ◌-ℤ◌ get_balance ◌+ℤ◌ get_amount_locked
    get_amount_unclaimed_onchain get_balance_with get_next_nonce join accept_balance_proof
    add_lockedlock status_before_settle status_of transaction_state
    is_balance_proof_safe_for_onchain_operations is_valid_signature signed_bytes
    valid_lockedtransfer_check insert sum_values hash_balance_data largest_key max_key
    offchain_total_withdraw
expire_ten_accepted = refl

-- One block earlier it is refused.
expire_ten_refused :
    (handle_receive_lock_expired toy locked_channel expire_ten 54 none).is_valid ≡ false
unfolding handle_receive_lock_expired handle_receive_lockedtransfer lookup is_valid_lock_expired
    expiring_lock check_lock_expired compute_locks_without list_remove del_unclaimed_lock erase
    is_lock_expired get_receiver_expiration_threshold is_valid_lockedtransfer
    is_balance_proof_usable_onchain get_status is_valid_balanceproof_signature compute_locks_with
    list_contains check_locks_with compare_balance_proof bytes_beq to_bytes compute_locksroot
    encoded get_current_balanceproof get_distributable ◌-ℤ◌ get_balance ◌+ℤ◌ get_amount_locked
    get_amount_unclaimed_onchain get_balance_with get_next_nonce join accept_balance_proof
    add_lockedlock status_before_settle status_of transaction_state
    is_balance_proof_safe_for_onchain_operations is_valid_signature signed_bytes
    valid_lockedtransfer_check insert sum_values hash_balance_data largest_key max_key
    offchain_total_withdraw
expire_ten_refused = refl
