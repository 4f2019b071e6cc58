-- ===== src/Examples/Sent.antt =====
-- Tests of the messages that a node sends, and of their delivery.
use raiden_common.Channel.Balance.{
  get_amount_unclaimed_onchain, get_amount_locked, get_balance_with, get_balance,
  get_current_balanceproof, get_distributable, get_next_nonce, is_valid_amount,
  is_channel_usable_for_new_transfer,
}
use raiden_common.Channel.Delivery.{Mirrors}
use raiden_common.Channel.Delivery.Transfer.{handle_receive_lockedtransfer-send_lockedtransfer}
use raiden_common.Channel.Delivery.Unlocking.{handle_unlock-send_unlock}
use raiden_common.Channel.Invariant.Moves.{LeavesLock}
use raiden_common.Channel.Locks.{
  is_lock_pending, is_lock_expired, is_ok, get_lock, get_number_of_pending_transfers,
  del_unclaimed_lock, del_lock, compute_locks_with, compute_locks_without, join, compute_locksroot,
}
use raiden_common.Channel.Receive.{
  Handled, accept_balance_proof, add_lockedlock, handle_receive_lockedtransfer, handle_unlock,
}
use raiden_common.Channel.Receive.Consistent.{handle_receive_lockedtransfer-IsConsistent}
use raiden_common.Channel.Sanity.Consistent.{IsConsistent}
use raiden_common.Channel.Send.{
  create_sendlockedtransfer, apply_balance_proof, send_lockedtransfer, UnlockDescription,
  create_unlock, send_unlock,
}
use raiden_common.Channel.Send.Consistent.{send_lockedtransfer-IsConsistent}
use raiden_common.Channel.Send.Leaves.{send_unlock-IsConsistent}
use raiden_common.Channel.Send.Succeeds.{HashesLocks, send_lockedtransfer-succeeds}
use raiden_common.Channel.Status.{transaction_state, status_before_settle, status_of, get_status}
use raiden_common.Channel.Validate.{
  is_valid_signature, signed_bytes, is_valid_balanceproof_signature,
  is_balance_proof_safe_for_onchain_operations, is_balance_proof_usable_onchain,
  compare_balance_proof, check_locks_with, valid_lockedtransfer_check, is_valid_lockedtransfer,
}
use raiden_common.Common.{
  ℕ, ◌≡◌, refl, true, false, none, some, [], ◌∷◌, ◌++◌, arith, length, list_contains, list_remove,
  nat_eq,
}
use raiden_common.Common.Bytes.{Bytes, bytes_beq, to_bytes, bytes_eq}
use raiden_common.Common.Dict.{lookup, insert, erase, sum_values}
use raiden_common.Common.Int.{◌+ℤ◌, ◌-ℤ◌, int_eq}
use raiden_common.Common.Outcome.{ok}
use raiden_common.Events.{
  LockedTransferSignedState, MessageHeader, SendLockedTransfer, SendUnlock, SendLockExpired,
  ReceiveUnlock,
}
use raiden_common.Examples.{
  toy_hash, toy, channel_id, empty_side, channel_between, ten, proof_over, describe_ten,
  fresh_channel, channel_between-IsConsistent, fresh_channel-IsConsistent, ten-Fits,
}
use raiden_common.State.{
  ChannelState, HashTimeLockState, BalanceProofUnsignedState, unsigned, PendingLocksState,
  NettingChannelState, largest_key, max_key, offchain_total_withdraw,
}
use raiden_common.State.Make.{
  encoded, make_lock, hash_balance_data, checked_amount, make_balance_proof,
}

join-nonempty :
    (locks : PendingLocksState) (lock : HashTimeLockState)
    → bytes_beq (toy_hash (join (locks ++ encoded lock ∷ []))) (to_bytes 32 0) ≡ false
unfolding join encoded to_bytes bytes_beq
join-nonempty [] lock = refl
join-nonempty ([] ∷ bs) lock = join-nonempty bs lock
join-nonempty ((b ∷ b') ∷ bs) lock = refl

length-toy_hash : (b : Bytes) → length (toy_hash b) ≡ 32
unfolding to_bytes
length-toy_hash [] = refl
length-toy_hash (b ∷ bs) = refl

toy-HashesLocks : HashesLocks toy
unfolding compute_locksroot
toy-HashesLocks = record {
  length_locksroot = λ locks. length-toy_hash (join locks);
  keccak_nonempty = join-nonempty;
}

send_lockedtransfer-succeeds_example :
    (e : SendLockedTransfer) × (c' : NettingChannelState) × (send_lockedtransfer toy fresh_channel
        describe_ten
      ≡ ok (e, c'))
unfolding is_channel_usable_for_new_transfer get_number_of_pending_transfers is_valid_amount
    is_valid_lockedtransfer is_balance_proof_usable_onchain get_status
    is_valid_balanceproof_signature compute_locks_with list_contains check_locks_with
    compare_balance_proof bytes_beq to_bytes compute_locksroot encoded get_current_balanceproof
    get_distributable ◌-ℤ◌ get_balance ◌+ℤ◌ get_amount_locked get_amount_unclaimed_onchain
    get_balance_with get_next_nonce join add_lockedlock status_before_settle status_of
    transaction_state insert sum_values largest_key max_key offchain_total_withdraw make_lock
    make_balance_proof checked_amount apply_balance_proof lookup
send_lockedtransfer-succeeds_example =
    send_lockedtransfer-succeeds toy fresh_channel describe_ten (some 50) toy-HashesLocks
      fresh_channel-IsConsistent.ours refl (omega arith) (omega arith) (omega arith) (omega arith)
      refl

abbrev our_proof : ℕ → ℕ → ℕ → Bytes → BalanceProofUnsignedState
our_proof nonce transferred locked root = (proof_over nonce transferred locked root).content

abbrev to_partner : ℕ → MessageHeader
to_partner message_identifier = record {
  recipient = 2;
  recipient_metadata = none;
  canonical_identifier = channel_id;
  message_identifier = message_identifier;
}

abbrev sent_ten : SendLockedTransfer
sent_ten = record {
  header = to_partner 4;
  transfer = record {
    payment_identifier = 3;
    token = 8;
    lock = ten;
    target = 2;
    initiator = 1;
    balance_proof = our_proof 1 0 10 (to_bytes 32 1);
    route_states = [];
    metadata = none;
    secret = none;
  };
}

-- The channel of 1 after it sent the transfer.
abbrev sent_channel : NettingChannelState
unfolding encoded
sent_channel = record fresh_channel {
  our_state = record (empty_side 1) {
    balance_proof = some (unsigned (our_proof 1 0 10 (to_bytes 32 1)));
    nonce = 1;
    pending_locks = encoded ten ∷ [];
    secrethashes_to_lockedlocks = (7, ten) ∷ [];
  };
}

sent_ten_ok : send_lockedtransfer toy fresh_channel describe_ten ≡ ok (sent_ten, sent_channel)
unfolding send_lockedtransfer create_sendlockedtransfer is_valid_lockedtransfer
    is_balance_proof_usable_onchain get_status is_valid_balanceproof_signature compute_locks_with
    list_contains check_locks_with compare_balance_proof bytes_beq to_bytes compute_locksroot
    encoded get_current_balanceproof get_distributable ◌-ℤ◌ get_balance ◌+ℤ◌ get_amount_locked
    get_amount_unclaimed_onchain get_balance_with get_next_nonce join add_lockedlock
    status_before_settle status_of transaction_state insert sum_values largest_key max_key
    offchain_total_withdraw make_lock make_balance_proof checked_amount apply_balance_proof lookup
    sent_channel
sent_ten_ok = refl

sent_channel-IsConsistent : IsConsistent toy sent_channel
unfolding is_lock_pending lookup
sent_channel-IsConsistent =
    send_lockedtransfer-IsConsistent toy fresh_channel describe_ten sent_ten sent_channel
      fresh_channel-IsConsistent refl sent_ten_ok

send_lockedtransfer-IsConsistent_example : IsConsistent toy sent_channel
unfolding is_lock_pending lookup
send_lockedtransfer-IsConsistent_example =
    send_lockedtransfer-IsConsistent toy fresh_channel describe_ten sent_ten sent_channel
      fresh_channel-IsConsistent refl sent_ten_ok

-- The channel as 2 has it, and the message that arrives there.
abbrev other_channel : NettingChannelState
other_channel = channel_between 2 1

abbrev delivered_ten : LockedTransferSignedState
delivered_ten = record {
  payment_identifier = 3;
  token = 8;
  lock = ten;
  target = 2;
  initiator = 1;
  message_identifier = 4;
  route_states = [];
  metadata = none;
  secret = none;
  balance_proof = record {
    content = our_proof 1 0 10 (to_bytes 32 1);
    message_hash = [];
    signature = 1;
    sender = 1;
  };
}

same_sides : (address : ℕ) → Mirrors (empty_side address) (empty_side address)
same_sides address = record {
  address = refl;
  contract_balance = refl;
  withdrawn = refl;
  nonce = refl;
  pending_locks = refl;
  locked = refl;
  transferred = refl;
}

delivered_ten-Mirrors :
    ((handle_receive_lockedtransfer toy other_channel delivered_ten none).is_valid ≡ true)
    × Mirrors sent_channel.our_state
        (handle_receive_lockedtransfer toy other_channel delivered_ten none).channel.partner_state
    × Mirrors sent_channel.partner_state
        (handle_receive_lockedtransfer toy other_channel delivered_ten none).channel.our_state
unfolding is_lock_pending lookup get_status status_of status_before_settle
delivered_ten-Mirrors =
    handle_receive_lockedtransfer-send_lockedtransfer toy fresh_channel other_channel describe_ten
      sent_ten sent_channel delivered_ten none fresh_channel-IsConsistent
      fresh_channel-IsConsistent.ours (same_sides 1) (same_sides 2) refl refl (omega arith) refl
      refl sent_ten_ok (record { same_lock = refl; same_content = refl; by_sender = refl })

handle_receive_lockedtransfer-send_lockedtransfer_example :
    ((handle_receive_lockedtransfer toy other_channel delivered_ten none).is_valid ≡ true)
    × Mirrors sent_channel.our_state
        (handle_receive_lockedtransfer toy other_channel delivered_ten none).channel.partner_state
    × Mirrors sent_channel.partner_state
        (handle_receive_lockedtransfer toy other_channel delivered_ten none).channel.our_state
unfolding is_lock_pending lookup get_status status_of status_before_settle
handle_receive_lockedtransfer-send_lockedtransfer_example =
    handle_receive_lockedtransfer-send_lockedtransfer toy fresh_channel other_channel describe_ten
      sent_ten sent_channel delivered_ten none fresh_channel-IsConsistent
      fresh_channel-IsConsistent.ours (same_sides 1) (same_sides 2) refl refl (omega arith) refl
      refl sent_ten_ok (record { same_lock = refl; same_content = refl; by_sender = refl })

abbrev unlock_description : UnlockDescription
unlock_description = record {
  message_identifier = 4;
  payment_identifier = 3;
  secret = 6;
  secrethash = 7;
  recipient_metadata = none;
}

abbrev sent_unlock : SendUnlock
sent_unlock = record {
  header = to_partner 4;
  payment_identifier = 3;
  token_address = 8;
  secret = 6;
  balance_proof = our_proof 2 10 0 (to_bytes 32 0);
}

-- Our side with this balance proof and no locks.
abbrev with_proof : BalanceProofUnsignedState → NettingChannelState
with_proof b = record fresh_channel {
  our_state = record (empty_side 1) { balance_proof = some (unsigned b); nonce = 2 };
}

sent_unlock_ok :
    send_unlock toy sent_channel unlock_description 20
    ≡ ok (sent_unlock, with_proof (our_proof 2 10 0 (to_bytes 32 0)))
unfolding send_unlock create_unlock get_lock is_lock_pending is_lock_expired compute_locks_without
    list_remove del_lock del_unclaimed_lock erase is_valid_lockedtransfer
    is_balance_proof_usable_onchain get_status is_valid_balanceproof_signature compute_locks_with
    list_contains check_locks_with compare_balance_proof bytes_beq to_bytes compute_locksroot
    encoded get_current_balanceproof get_distributable ◌-ℤ◌ get_balance ◌+ℤ◌ get_amount_locked
    get_amount_unclaimed_onchain get_balance_with get_next_nonce join add_lockedlock
    status_before_settle status_of transaction_state insert sum_values largest_key max_key
    offchain_total_withdraw make_lock make_balance_proof checked_amount apply_balance_proof lookup
    sent_channel
sent_unlock_ok = refl

send_unlock-IsConsistent_example :
    (lock : HashTimeLockState) × (get_lock sent_channel.our_state 7 ≡ some lock)
    × (is_ok (is_lock_expired sent_channel.our_state lock 20 lock.expiration) ≡ false)
    × LeavesLock sent_channel.our_state
        (with_proof (our_proof 2 10 0 (to_bytes 32 0))).our_state
        sent_channel.partner_state
        lock
        lock.amount
    × IsConsistent toy (with_proof (our_proof 2 10 0 (to_bytes 32 0)))
send_unlock-IsConsistent_example =
    send_unlock-IsConsistent toy sent_channel unlock_description 20 sent_unlock
      (with_proof (our_proof 2 10 0 (to_bytes 32 0))) sent_channel-IsConsistent sent_unlock_ok

abbrev sent_expired : SendLockExpired
sent_expired = record {
  header = to_partner 0;
  balance_proof = our_proof 2 0 0 (to_bytes 32 0);
  secrethash = 7;
}

-- The channel as 2 has it after the transfer, and the unlock that arrives there.
abbrev other_locked : NettingChannelState
other_locked = (handle_receive_lockedtransfer toy other_channel delivered_ten none).channel

abbrev delivered_unlock : ReceiveUnlock
delivered_unlock = record {
  balance_proof = record {
    content = our_proof 2 10 0 (to_bytes 32 0);
    message_hash = [];
    signature = 1;
    sender = 1;
  };
  message_identifier = 4;
  secret = 6;
  secrethash = 7;
}

other_locked-IsConsistent : IsConsistent toy other_locked
unfolding is_lock_pending lookup
other_locked-IsConsistent =
    handle_receive_lockedtransfer-IsConsistent toy other_channel delivered_ten none
      (channel_between-IsConsistent 2 1) ten-Fits refl

other_locked-ten :
    (get_lock other_locked.partner_state 7 ≡ get_lock sent_channel.our_state 7)
    × (get_status other_locked ≡ ChannelState.opened)
    × (other_locked.canonical_identifier ≡ channel_id)
unfolding is_valid_lockedtransfer is_balance_proof_usable_onchain get_status
    is_valid_balanceproof_signature compute_locks_with list_contains check_locks_with
    compare_balance_proof bytes_beq to_bytes compute_locksroot encoded get_current_balanceproof
    get_distributable ◌-ℤ◌ get_balance ◌+ℤ◌ get_amount_locked get_amount_unclaimed_onchain
    get_balance_with get_next_nonce join accept_balance_proof add_lockedlock status_before_settle
    status_of transaction_state is_balance_proof_safe_for_onchain_operations is_valid_signature
    signed_bytes valid_lockedtransfer_check insert sum_values hash_balance_data largest_key max_key
    offchain_total_withdraw handle_receive_lockedtransfer get_lock lookup sent_channel
other_locked-ten = (refl, refl, refl)

handle_unlock-send_unlock_example :
    (r : Handled) × (handle_unlock toy other_locked delivered_unlock none ≡ ok r)
    × (r.is_valid ≡ true)
    × Mirrors (with_proof (our_proof 2 10 0 (to_bytes 32 0))).our_state r.channel.partner_state
    × Mirrors (with_proof (our_proof 2 10 0 (to_bytes 32 0))).partner_state r.channel.our_state
unfolding sent_channel
handle_unlock-send_unlock_example =
    handle_unlock-send_unlock toy sent_channel other_locked unlock_description 20 sent_unlock
      (with_proof (our_proof 2 10 0 (to_bytes 32 0))) delivered_unlock none
      sent_channel-IsConsistent other_locked-IsConsistent.partner delivered_ten-Mirrors.1
      delivered_ten-Mirrors.2 other_locked-ten.2 other_locked-ten.1 other_locked-ten.0
      sent_unlock_ok (record { same_secrethash = refl; same_content = refl; by_sender = refl })
