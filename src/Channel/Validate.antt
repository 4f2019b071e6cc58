-- ===== src/Channel/Validate.antt =====
-- transfer/channel.py: the checks of received messages that carry a balance proof.
pub mod Accepted
pub mod Removal
use raiden_common.Channel.Balance.{get_current_balanceproof, get_distributable, get_next_nonce}
use raiden_common.Channel.Locks.{
  is_lock_expired, lock_of, get_lock, compute_locks_with, compute_locks_without, compute_locksroot,
}
use raiden_common.Channel.Status.{is_state_opened, get_status, get_receiver_expiration_threshold}
use raiden_common.Common.{
  ℕ, ◌+◌, Bool, false, not, ◌&&◌, Option, none, some, ltb, leb, if◌then◌else◌, length, ◌==◌,
  or_else, nat_eq,
}
use raiden_common.Common.Bytes.{Bytes, bytes_eq}
use raiden_common.Common.Dict.{lookup, contains}
use raiden_common.Common.Int.{ℤ, pos, ◌-ℤ◌, ltb_ℤ, int_eq}
use raiden_common.Events.{
  MessageName, Reason, SuccessOrError, LockedTransferUnsignedState, LockedTransferSignedState,
  ReceiveUnlock, ReceiveLockExpired, ReceiveTransferRefund,
}
use raiden_common.External.{External}
use raiden_common.State.{
  uint256_max, maximum_pending_transfers, HashTimeLockState, BalanceProofSignedState,
  PendingLocksState, NettingChannelEndState, NettingChannelState,
}
use raiden_common.State.Make.{encoded, hash_balance_data}

-- `PendingLocksStateOrError`
pub data LocksOrError : Type 0 where
  valid : PendingLocksState → LocksOrError
  invalid : Reason → LocksOrError

unfoldable pub is_valid_signature : External → Bytes → ℕ → ℕ → SuccessOrError
is_valid_signature x content signature sender_address = elim (x.recover content signature) [
  | none ↦ SuccessOrError.error Reason.signature_not_recovered
  | some signer_address ↦
      if sender_address == signer_address
      then SuccessOrError.success
      else SuccessOrError.error Reason.signature_of_other
]

-- The bytes that the sender of a balance proof has signed.
unfoldable pub signed_bytes : External → BalanceProofSignedState → Bytes
unfolding hash_balance_data
signed_bytes x balance_proof =
    x.pack_balance_proof balance_proof.nonce
      (hash_balance_data x balance_proof.transferred_amount balance_proof.locked_amount
        balance_proof.locksroot)
      balance_proof.message_hash balance_proof.canonical_identifier

unfoldable pub is_valid_balanceproof_signature :
    External → BalanceProofSignedState → ℕ → SuccessOrError
unfolding is_valid_signature signed_bytes
is_valid_balanceproof_signature x balance_proof sender_address =
    is_valid_signature x (signed_bytes x balance_proof) balance_proof.signature sender_address

unfoldable pub is_balance_proof_safe_for_onchain_operations : BalanceProofSignedState → Bool
is_balance_proof_safe_for_onchain_operations balance_proof =
    leb (balance_proof.transferred_amount + balance_proof.locked_amount) uint256_max

unfoldable pub is_balance_proof_usable_onchain :
    External
    → BalanceProofSignedState
    → NettingChannelState
    → NettingChannelEndState
    → SuccessOrError
unfolding is_balance_proof_safe_for_onchain_operations get_next_nonce
is_balance_proof_usable_onchain x received channel_state sender_state =
    let received_id = received.canonical_identifier in
    let channel_id = channel_state.canonical_identifier in
    if not (is_state_opened (get_status channel_state))
    then SuccessOrError.error Reason.channel_already_closed
    else if not (received_id.channel_identifier == channel_id.channel_identifier)
    then SuccessOrError.error Reason.channel_identifier_differs
    else if not (received_id.token_network_address == channel_id.token_network_address)
    then SuccessOrError.error Reason.token_network_address_differs
    else if not (received_id.chain_identifier == channel_id.chain_identifier)
    then SuccessOrError.error Reason.chain_id_differs
    else if not (is_balance_proof_safe_for_onchain_operations received)
    then SuccessOrError.error Reason.would_overflow_onchain
    else if not (received.nonce == get_next_nonce sender_state)
    then SuccessOrError.error Reason.nonce_not_sequential
    else is_valid_balanceproof_signature x received sender_state.address

-- The comparison of a balance proof with the amounts and the locksroot that it must have; the
-- amounts are integers, since what the code subtracts may be larger than what it subtracts from.
unfoldable pub compare_balance_proof : BalanceProofSignedState → Bytes → ℕ → ℤ → Option Reason
compare_balance_proof received locksroot transferred_amount locked_amount =
    if not (received.locksroot == locksroot)
    then some Reason.locksroot_differs
    else if not (received.transferred_amount == transferred_amount)
    then some Reason.transferred_amount_differs
    else if not (pos received.locked_amount == locked_amount)
    then some Reason.locked_amount_differs
    else none

-- The tests of `valid_lockedtransfer_check` once the new pending locks are known.
unfoldable pub check_locks_with :
    External
    → NettingChannelEndState
    → NettingChannelEndState
    → BalanceProofSignedState
    → HashTimeLockState
    → PendingLocksState
    → Option Reason
check_locks_with x sender_state receiver_state received lock pending_locks =
    let current = get_current_balanceproof x sender_state in
    if ltb maximum_pending_transfers (length pending_locks)
    then some Reason.too_many_pending_transfers
    else elim (compare_balance_proof received (compute_locksroot x pending_locks)
        current.transferred_amount (pos (current.locked_amount + lock.amount))) [
          | some r ↦ some r
          | none ↦
              if ltb_ℤ (get_distributable x sender_state receiver_state) (pos lock.amount)
              then some Reason.lock_larger_than_distributable
              else none
        ]

-- The result of a check: the new pending locks, or the message.
abbrev pub locks_unless : MessageName → PendingLocksState → Option Reason → LocksOrError
locks_unless name pending_locks none = valid pending_locks
locks_unless name pending_locks (some r) = invalid (Reason.invalid_message name r)

unfoldable pub valid_lockedtransfer_check :
    External
    → NettingChannelState
    → NettingChannelEndState
    → NettingChannelEndState
    → MessageName
    → BalanceProofSignedState
    → HashTimeLockState
    → LocksOrError
valid_lockedtransfer_check x channel_state sender_state receiver_state name received lock =
    elim (is_balance_proof_usable_onchain x received channel_state sender_state) [
      | SuccessOrError.error r ↦ invalid (Reason.invalid_message name r)
      | SuccessOrError.success ↦ elim (compute_locks_with sender_state.pending_locks lock) [
        | none ↦ invalid (Reason.invalid_message name Reason.same_lock_handled_twice)
        | some pending_locks ↦
            locks_unless name pending_locks
              (check_locks_with x sender_state receiver_state received lock pending_locks)
      ]
    ]

unfoldable pub is_valid_lockedtransfer :
    External
    → LockedTransferSignedState
    → NettingChannelState
    → NettingChannelEndState
    → NettingChannelEndState
    → LocksOrError
unfolding valid_lockedtransfer_check
is_valid_lockedtransfer x transfer_state channel_state sender_state receiver_state =
    valid_lockedtransfer_check x channel_state sender_state receiver_state
      MessageName.locked_transfer transfer_state.balance_proof transfer_state.lock

-- The lock that a `LockExpired` message is about: a locked one, or one whose secret is known.
unfoldable pub expiring_lock : NettingChannelEndState → ℕ → Option HashTimeLockState
expiring_lock end_state secrethash =
    or_else (lookup secrethash end_state.secrethashes_to_lockedlocks)
      (lock_of (lookup secrethash end_state.secrethashes_to_unlockedlocks))

-- The tests of `is_valid_lock_expired` once the remaining locks are known.
unfoldable pub check_lock_expired :
    External
    → BalanceProofSignedState
    → NettingChannelEndState
    → NettingChannelEndState
    → HashTimeLockState
    → ℕ
    → PendingLocksState
    → Option Reason
unfolding get_receiver_expiration_threshold
check_lock_expired x received sender_state receiver_state lock block_number pending_locks =
    let current = get_current_balanceproof x sender_state in
    elim (is_lock_expired receiver_state lock block_number
      (get_receiver_expiration_threshold lock.expiration)) [
        | SuccessOrError.error r ↦ some r
        | SuccessOrError.success ↦
            compare_balance_proof received (compute_locksroot x pending_locks)
              current.transferred_amount (pos current.locked_amount -ℤ pos lock.amount)
      ]

unfoldable pub is_valid_lock_expired :
    External
    → ReceiveLockExpired
    → NettingChannelState
    → NettingChannelEndState
    → NettingChannelEndState
    → ℕ
    → LocksOrError
is_valid_lock_expired x state_change channel_state sender_state receiver_state block_number =
    let name = MessageName.lock_expired in
    let received = state_change.balance_proof in
    let partner = channel_state.partner_state in
    if contains state_change.secrethash partner.secrethashes_to_onchain_unlockedlocks
    then invalid (Reason.invalid_message name Reason.lock_unlocked_on_chain)
    else elim (expiring_lock partner state_change.secrethash) [
      | none ↦ invalid (Reason.invalid_message name Reason.lock_not_known)
      | some lock ↦ elim (is_balance_proof_usable_onchain x received channel_state sender_state) [
        | SuccessOrError.error r ↦ invalid (Reason.invalid_message name r)
        | SuccessOrError.success ↦
            elim (compute_locks_without sender_state.pending_locks (encoded lock)) [
              | none ↦ invalid (Reason.invalid_message name Reason.same_lock_handled_twice)
              | some pending_locks ↦ locks_unless name pending_locks (
                  check_lock_expired x received sender_state receiver_state lock block_number
                    pending_locks)
            ]
      ]
    ]

unfoldable pub is_valid_unlock :
    External → ReceiveUnlock → NettingChannelState → NettingChannelEndState → LocksOrError
is_valid_unlock x unlock channel_state sender_state =
    let name = MessageName.unlock in
    let received = unlock.balance_proof in
    let current = get_current_balanceproof x sender_state in
    elim (get_lock sender_state unlock.secrethash) [
      | none ↦ invalid (Reason.invalid_message name Reason.no_corresponding_lock)
      | some lock ↦ elim (compute_locks_without sender_state.pending_locks (encoded lock)) [
        | none ↦ invalid (Reason.invalid_message name Reason.lock_not_known)
        | some pending_locks ↦
            elim (is_balance_proof_usable_onchain x received channel_state sender_state) [
              | SuccessOrError.error r ↦ invalid (Reason.invalid_message name r)
              | SuccessOrError.success ↦ locks_unless name pending_locks (
                  compare_balance_proof received (compute_locksroot x pending_locks)
                    (current.transferred_amount + lock.amount)
                    (pos current.locked_amount -ℤ pos lock.amount))
            ]
      ]
    ]

unfoldable pub refund_transfer_matches_transfer :
    LockedTransferSignedState → LockedTransferUnsignedState → Bool
refund_transfer_matches_transfer refund_transfer transfer =
    if refund_transfer.balance_proof.sender == transfer.target
    then false
    else transfer.payment_identifier == refund_transfer.payment_identifier
      && transfer.lock.amount == refund_transfer.lock.amount
      && transfer.lock.secrethash == refund_transfer.lock.secrethash
      && transfer.target == refund_transfer.target
      && transfer.lock.expiration == refund_transfer.lock.expiration
      && transfer.token == refund_transfer.token

unfoldable pub is_valid_refund :
    External
    → ReceiveTransferRefund
    → NettingChannelState
    → NettingChannelEndState
    → NettingChannelEndState
    → LockedTransferUnsignedState
    → LocksOrError
unfolding refund_transfer_matches_transfer
is_valid_refund x refund channel_state sender_state receiver_state received_transfer =
    elim (valid_lockedtransfer_check x channel_state sender_state receiver_state
      MessageName.refund_transfer refund.transfer.balance_proof refund.transfer.lock) [
        | invalid r ↦ invalid r
        | valid pending_locks ↦
            if refund_transfer_matches_transfer refund.transfer received_transfer
            then valid pending_locks
            else invalid Reason.refund_does_not_match
      ]
