-- ===== src/Channel/Locks.antt =====
-- transfer/channel.py: the locks of one side of a channel. A lock is first locked, then unlocked
-- (its secret is known) and, where the secret was registered on-chain, unlocked on-chain; and its
-- encoding stands in the list of pending locks, whose hash is the locksroot.
pub mod Secrets
pub mod OnchainSecret
use raiden_common.Channel.Status.{get_sender_expiration_threshold}
use raiden_common.Common.{
  ℕ, Bool, true, false, ◌||◌, Option, none, some, List, [], ◌∷◌, ◌++◌, ltb, if◌then◌else◌, length,
  is_some, list_contains, list_remove, or_else, nat_eq,
}
use raiden_common.Common.Bytes.{Bytes, bytes_eq}
use raiden_common.Common.Dict.{lookup, contains, insert, erase}
use raiden_common.Common.Int.{int_eq}
use raiden_common.Common.Outcome.{Failure, Outcome, ok, assert, ◌>>=◌, ◌>>◌}
use raiden_common.Events.{Reason, SuccessOrError}
use raiden_common.External.{External}
use raiden_common.State.{
  HashTimeLockState, UnlockPartialProofState, PendingLocksState, NettingChannelEndState,
  NettingChannelState,
}
use raiden_common.State.Make.{encoded}

unfoldable pub is_lock_pending : NettingChannelEndState → ℕ → Bool
is_lock_pending end_state secrethash =
    contains secrethash end_state.secrethashes_to_lockedlocks
    || contains secrethash end_state.secrethashes_to_unlockedlocks
    || contains secrethash end_state.secrethashes_to_onchain_unlockedlocks

unfoldable pub is_lock_locked : NettingChannelEndState → ℕ → Bool
is_lock_locked end_state secrethash = contains secrethash end_state.secrethashes_to_lockedlocks

unfoldable pub is_lock_expired : NettingChannelEndState → HashTimeLockState → ℕ → ℕ → SuccessOrError
is_lock_expired end_state lock block_number lock_expiration_threshold =
    if contains lock.secrethash end_state.secrethashes_to_onchain_unlockedlocks
    then SuccessOrError.error Reason.lock_unlocked_on_chain
    else if ltb block_number lock_expiration_threshold
    then SuccessOrError.error Reason.block_below_threshold
    else SuccessOrError.success

-- `bool(SuccessOrError)`
abbrev pub is_ok : SuccessOrError → Bool
is_ok SuccessOrError.success = true
is_ok (SuccessOrError.error r) = false

-- `is_transfer_expired`, at the lock of the transfer.
unfoldable pub is_transfer_expired : HashTimeLockState → NettingChannelState → ℕ → Bool
unfolding is_lock_expired get_sender_expiration_threshold
is_transfer_expired lock affected_channel block_number = is_ok (
    is_lock_expired affected_channel.our_state lock block_number
      (get_sender_expiration_threshold lock.expiration))

unfoldable pub is_secret_known : NettingChannelEndState → ℕ → Bool
is_secret_known end_state secrethash =
    contains secrethash end_state.secrethashes_to_unlockedlocks
    || contains secrethash end_state.secrethashes_to_onchain_unlockedlocks

unfoldable pub is_secret_known_offchain : NettingChannelEndState → ℕ → Bool
is_secret_known_offchain end_state secrethash =
    contains secrethash end_state.secrethashes_to_unlockedlocks

unfoldable pub is_secret_known_onchain : NettingChannelEndState → ℕ → Bool
is_secret_known_onchain end_state secrethash =
    contains secrethash end_state.secrethashes_to_onchain_unlockedlocks

abbrev pub secret_of : Option UnlockPartialProofState → Option ℕ
secret_of none = none
secret_of (some u) = some u.secret

abbrev pub lock_of : Option UnlockPartialProofState → Option HashTimeLockState
lock_of none = none
lock_of (some u) = some u.lock

unfoldable pub get_secret : NettingChannelEndState → ℕ → Option ℕ
get_secret end_state secrethash = secret_of (
    or_else (lookup secrethash end_state.secrethashes_to_unlockedlocks)
      (lookup secrethash end_state.secrethashes_to_onchain_unlockedlocks))

unfoldable pub get_lock : NettingChannelEndState → ℕ → Option HashTimeLockState
get_lock end_state secrethash = or_else (lookup secrethash end_state.secrethashes_to_lockedlocks) (
    or_else (lock_of (lookup secrethash end_state.secrethashes_to_unlockedlocks))
      (lock_of (lookup secrethash end_state.secrethashes_to_onchain_unlockedlocks)))

unfoldable pub lock_exists_in_either_channel_side : NettingChannelState → ℕ → Bool
unfolding get_lock
lock_exists_in_either_channel_side channel_state secrethash = is_some (
    or_else (get_lock channel_state.our_state secrethash)
      (get_lock channel_state.partner_state secrethash))

unfoldable pub get_number_of_pending_transfers : NettingChannelEndState → ℕ
get_number_of_pending_transfers end_state = length end_state.pending_locks

unfoldable pub del_unclaimed_lock : NettingChannelEndState → ℕ → NettingChannelEndState
del_unclaimed_lock end_state secrethash = record end_state {
  secrethashes_to_lockedlocks = erase secrethash end_state.secrethashes_to_lockedlocks;
  secrethashes_to_unlockedlocks = erase secrethash end_state.secrethashes_to_unlockedlocks;
}

-- `_del_lock`: from all three maps, and not from the pending locks.
unfoldable pub del_lock : NettingChannelEndState → ℕ → Outcome NettingChannelEndState
unfolding del_unclaimed_lock is_lock_pending
del_lock end_state secrethash = do
  assert (is_lock_pending end_state secrethash) Failure.lock_must_be_pending
  let rest = del_unclaimed_lock end_state secrethash
  ok (record rest {
    secrethashes_to_onchain_unlockedlocks =
        erase secrethash rest.secrethashes_to_onchain_unlockedlocks;
  })

unfoldable pub compute_locks_with : PendingLocksState → HashTimeLockState → Option PendingLocksState
compute_locks_with locks lock =
    if list_contains (encoded lock) locks then none else some (locks ++ encoded lock ∷ [])

unfoldable pub compute_locks_without : PendingLocksState → Bytes → Option PendingLocksState
compute_locks_without locks lock_encoded =
    if list_contains lock_encoded locks then some (list_remove lock_encoded locks) else none

-- `b"".join(locks)`
unfoldable pub join : List Bytes → Bytes
join [] = []
join (b ∷ bs) = b ++ join bs

unfoldable pub compute_locksroot : External → PendingLocksState → Bytes
unfolding join
compute_locksroot x locks = x.keccak (join locks)

-- The secret of a locked lock is learned: the lock moves to the unlocked ones.
unfoldable pub register_secret_endstate : NettingChannelEndState → ℕ → ℕ → NettingChannelEndState
register_secret_endstate end_state secret secrethash =
    elim (lookup secrethash end_state.secrethashes_to_lockedlocks) [
      | none ↦ end_state
      | some pending_lock ↦ record end_state {
        secrethashes_to_lockedlocks = erase secrethash end_state.secrethashes_to_lockedlocks;
        secrethashes_to_unlockedlocks =
            insert secrethash (record { lock = pending_lock; secret = secret })
              end_state.secrethashes_to_unlockedlocks;
      }
    ]

-- The lock that an on-chain secret is for: an unlocked one is preferred to a locked one.
unfoldable pub unclaimed_lock : NettingChannelEndState → ℕ → Option HashTimeLockState
unclaimed_lock end_state secrethash =
    or_else (lock_of (lookup secrethash end_state.secrethashes_to_unlockedlocks))
      (lookup secrethash end_state.secrethashes_to_lockedlocks)

-- `end_state.secrethashes_to_onchain_unlockedlocks[secrethash] = ...`
abbrev pub add_onchain : NettingChannelEndState → HashTimeLockState → ℕ → ℕ → NettingChannelEndState
add_onchain end_state lock secret secrethash = record end_state {
  secrethashes_to_onchain_unlockedlocks =
      insert secrethash (record { lock = lock; secret = secret })
        end_state.secrethashes_to_onchain_unlockedlocks;
}

-- The secret was registered on-chain in the given block; a lock that had expired by then stays.
unfoldable pub register_onchain_secret_endstate :
    NettingChannelEndState → ℕ → ℕ → ℕ → Bool → Outcome NettingChannelEndState
unfolding unclaimed_lock del_lock
register_onchain_secret_endstate end_state secret secrethash reveal_block_number delete_lock =
    elim (unclaimed_lock end_state secrethash) [
      | none ↦ ok end_state
      | some lock ↦ if ltb lock.expiration reveal_block_number then ok end_state else (do
        rest ← if delete_lock then del_lock end_state secrethash else ok end_state
        ok (add_onchain rest lock secret secrethash))
    ]

unfoldable pub register_offchain_secret : NettingChannelState → ℕ → ℕ → NettingChannelState
unfolding register_secret_endstate
register_offchain_secret channel_state secret secrethash = record channel_state {
  our_state = register_secret_endstate channel_state.our_state secret secrethash;
  partner_state = register_secret_endstate channel_state.partner_state secret secrethash;
}

unfoldable pub register_onchain_secret :
    NettingChannelState → ℕ → ℕ → ℕ → Bool → Outcome NettingChannelState
unfolding register_onchain_secret_endstate
register_onchain_secret channel_state secret secrethash reveal_block_number delete_lock = do
  ours ←
      register_onchain_secret_endstate channel_state.our_state secret secrethash reveal_block_number
        delete_lock
  theirs ←
      register_onchain_secret_endstate channel_state.partner_state secret secrethash
        reveal_block_number delete_lock
  ok (record channel_state { our_state = ours; partner_state = theirs })
