-- ===== src/Channel/Send.antt =====
-- transfer/channel.py: the messages with a balance proof that this node sends.
pub mod Sound
pub mod Removed
pub mod Consistent
pub mod Leaves
pub mod Succeeds
use raiden_common.Channel.Balance.{
  get_amount_locked, transferred_of, get_distributable, get_next_nonce,
}
use raiden_common.Channel.Locks.{
  is_lock_pending, is_lock_expired, is_ok, get_lock, del_unclaimed_lock, del_lock,
  compute_locks_with, compute_locks_without, compute_locksroot,
}
use raiden_common.Channel.Receive.{add_lockedlock}
use raiden_common.Channel.Status.{is_state_opened, get_status}
use raiden_common.Common.{
  ℕ, ◌+◌, not, Option, none, some, List, [], ◌∷◌, leb, ◌==◌, or_else, nat_eq,
}
use raiden_common.Common.Bytes.{bytes_eq}
use raiden_common.Common.Int.{pos, ◌-ℤ◌, leb_ℤ, int_eq}
use raiden_common.Common.Outcome.{Failure, Outcome, ok, raised, assert, ◌>>=◌, ◌>>◌}
use raiden_common.Events.{MessageHeader, SendLockedTransfer, SendUnlock, SendLockExpired}
use raiden_common.External.{External}
use raiden_common.Routes.{RouteState, get_address_metadata}
use raiden_common.State.{
  uint256_max, HashTimeLockState, BalanceProofUnsignedState, unsigned, content_of,
  PendingLocksState, NettingChannelEndState, NettingChannelState,
}
use raiden_common.State.Make.{encoded, make_lock, locksroot_of_no_locks, make_balance_proof}

-- What the caller of `send_lockedtransfer` passes.
pub record TransferDescription : Type 0 where
  pub initiator : ℕ
  pub target : ℕ
  pub amount : ℕ
  pub message_identifier : ℕ
  pub payment_identifier : ℕ
  pub expiration : ℕ
  pub secret : Option ℕ
  pub secrethash : ℕ
  pub route_states : List RouteState
  pub recipient_metadata : Option ℕ
  pub previous_metadata : Option ℕ

-- `assert value, msg`, for what must be there.
abbrev pub require {ℓ} : {A : Type ℓ} → Option A → Failure → Outcome A
require none e = raised e
require (some a) e = ok a

abbrev pub header_to : NettingChannelState → Option ℕ → ℕ → MessageHeader
header_to channel_state recipient_metadata message_identifier = record {
  recipient = channel_state.partner_state.address;
  recipient_metadata = recipient_metadata;
  canonical_identifier = channel_state.canonical_identifier;
  message_identifier = message_identifier;
}

unfoldable pub create_sendlockedtransfer :
    External
    → NettingChannelState
    → TransferDescription
    → Outcome (SendLockedTransfer × PendingLocksState)
unfolding get_next_nonce get_address_metadata
create_sendlockedtransfer x channel_state t = do
  let ours = channel_state.our_state
  assert (leb_ℤ (pos t.amount) (get_distributable x ours channel_state.partner_state))
      Failure.not_enough_balance
  assert (is_state_opened (get_status channel_state)) Failure.channel_not_open
  lock ← make_lock t.amount t.expiration t.secrethash
  pending_locks ←
      require (compute_locks_with ours.pending_locks lock) Failure.lock_already_registered
  let transferred_amount = transferred_of ours.balance_proof
  assert (leb (transferred_amount + t.amount) uint256_max) Failure.result_would_overflow
  balance_proof ←
      make_balance_proof (get_next_nonce ours) transferred_amount
        (pos (get_amount_locked ours + t.amount)) (compute_locksroot x pending_locks)
        channel_state.canonical_identifier
  assert (not (balance_proof.locksroot == locksroot_of_no_locks x)) Failure.value_error
  ok (
    record {
      header =
          header_to channel_state
            (or_else t.recipient_metadata
              (get_address_metadata channel_state.partner_state.address t.route_states))
            t.message_identifier;
      transfer = record {
        payment_identifier = t.payment_identifier;
        token = channel_state.token_address;
        lock = lock;
        target = t.target;
        initiator = t.initiator;
        balance_proof = balance_proof;
        route_states = t.route_states;
        metadata = t.previous_metadata;
        secret = t.secret;
      };
    },
    pending_locks,
  )

-- Our state with the balance proof that was just made, its nonce and the new pending locks.
unfoldable pub apply_balance_proof :
    NettingChannelEndState → BalanceProofUnsignedState → PendingLocksState → NettingChannelEndState
apply_balance_proof end_state balance_proof pending_locks = record end_state {
  balance_proof = some (unsigned balance_proof);
  nonce = balance_proof.nonce;
  pending_locks = pending_locks;
}

unfoldable pub send_lockedtransfer :
    External
    → NettingChannelState
    → TransferDescription
    → Outcome (SendLockedTransfer × NettingChannelState)
send_lockedtransfer x channel_state t = do
  (event, pending_locks) ← create_sendlockedtransfer x channel_state t
  let transfer = event.transfer
  ok (
    event,
    record channel_state {
      our_state =
          add_lockedlock
            (apply_balance_proof channel_state.our_state transfer.balance_proof pending_locks)
            transfer.lock;
    },
  )

-- The arguments of `send_unlock` besides the channel.
pub record UnlockDescription : Type 0 where
  pub message_identifier : ℕ
  pub payment_identifier : ℕ
  pub secret : ℕ
  pub secrethash : ℕ
  pub recipient_metadata : Option ℕ

-- The Python function writes the new nonce into the channel itself; here `send_unlock` does.
unfoldable pub create_unlock :
    External
    → NettingChannelState
    → UnlockDescription
    → HashTimeLockState
    → ℕ
    → Outcome (SendUnlock × PendingLocksState)
unfolding get_next_nonce
create_unlock x channel_state u lock block_number = do
  let ours = channel_state.our_state
  assert (is_lock_pending ours lock.secrethash) Failure.lock_not_known
  assert (is_state_opened (get_status channel_state)) Failure.channel_not_open
  assert (not (is_ok (is_lock_expired ours lock block_number lock.expiration)))
      Failure.lock_is_expired
  our_balance_proof ← require ours.balance_proof Failure.no_balance_proof
  pending_locks ←
      require (compute_locks_without ours.pending_locks (encoded lock))
        Failure.lock_not_in_pending_locks
  balance_proof ←
      make_balance_proof (get_next_nonce ours)
        (lock.amount + (content_of our_balance_proof).transferred_amount)
        (pos (get_amount_locked ours) -ℤ pos lock.amount) (compute_locksroot x pending_locks)
        channel_state.canonical_identifier
  ok (
    record {
      header = header_to channel_state u.recipient_metadata u.message_identifier;
      payment_identifier = u.payment_identifier;
      token_address = channel_state.token_address;
      secret = u.secret;
      balance_proof = balance_proof;
    },
    pending_locks,
  )

unfoldable pub send_unlock :
    External
    → NettingChannelState
    → UnlockDescription
    → ℕ
    → Outcome (SendUnlock × NettingChannelState)
send_unlock x channel_state u block_number = do
  let ours = channel_state.our_state
  lock ← require (get_lock ours u.secrethash) Failure.lock_must_exist
  (unlock, pending_locks) ← create_unlock x channel_state u lock block_number
  our_state ← del_lock (apply_balance_proof ours unlock.balance_proof pending_locks) lock.secrethash
  ok (unlock, record channel_state { our_state = our_state })

-- `none` where the lock is not among the pending locks.
unfoldable pub create_sendexpiredlock :
    External
    → NettingChannelState
    → HashTimeLockState
    → ℕ
    → Option ℕ
    → Outcome (Option (SendLockExpired × PendingLocksState))
unfolding get_next_nonce
create_sendexpiredlock x channel_state locked_lock draws recipient_metadata = do
  let ours = channel_state.our_state
  our_balance_proof ← require ours.balance_proof Failure.no_balance_proof
  elim (compute_locks_without ours.pending_locks (encoded locked_lock)) [
    | none ↦ ok none
    | some pending_locks ↦ (do
      balance_proof ←
          make_balance_proof (get_next_nonce ours) (content_of our_balance_proof).transferred_amount
            (pos (get_amount_locked ours) -ℤ pos locked_lock.amount)
            (compute_locksroot x pending_locks) channel_state.canonical_identifier
      ok (
          some (
            record {
              header = header_to channel_state recipient_metadata (x.randint draws);
              balance_proof = balance_proof;
              secrethash = locked_lock.secrethash;
            },
            pending_locks,
          )))
  ]

-- The part of `send_lock_expired` behind the creation of the message: the events, the channel, and
-- the number of random draws.
unfoldable pub apply_expiredlock :
    NettingChannelState
    → HashTimeLockState
    → ℕ
    → Option (SendLockExpired × PendingLocksState)
    → List SendLockExpired × NettingChannelState × ℕ
apply_expiredlock channel_state locked_lock draws none = ([], channel_state, draws)
apply_expiredlock channel_state locked_lock draws (some (message, pending_locks)) = (
  message ∷ [],
  record channel_state {
    our_state =
        del_unclaimed_lock
          (apply_balance_proof channel_state.our_state message.balance_proof pending_locks)
          locked_lock.secrethash;
  },
  draws + 1,
)

unfoldable pub send_lock_expired :
    External
    → NettingChannelState
    → HashTimeLockState
    → ℕ
    → Option ℕ
    → Outcome (List SendLockExpired × NettingChannelState × ℕ)
unfolding apply_expiredlock
send_lock_expired x channel_state locked_lock draws recipient_metadata = do
  assert (is_state_opened (get_status channel_state)) Failure.channel_not_open
  created ← create_sendexpiredlock x channel_state locked_lock draws recipient_metadata
  ok (apply_expiredlock channel_state locked_lock draws created)
