-- ===== src/Channel/Send/Succeeds.antt =====
-- When `send_lockedtransfer` returns: the conditions of `is_channel_usable_for_new_transfer`.
use raiden_common.Channel.Balance.{
  get_amount_locked, transferred_of, get_current_balanceproof, get_distributable, is_valid_amount,
  ChannelUsability, is_channel_usable_for_new_transfer,
}
use raiden_common.Channel.Invariant.{IsSound, current-locked_amount}
use raiden_common.Channel.Invariant.Moves.{transferred-current}
use raiden_common.Channel.Locks.{compute_locks_with, compute_locksroot}
use raiden_common.Channel.Send.{TransferDescription, create_sendlockedtransfer, send_lockedtransfer}
use raiden_common.Channel.Status.{is_state_opened, get_status}
use raiden_common.Common.{
  ℕ, ◌+◌, ◌≤◌, ◌<◌, ◌≡◌, refl, true, false, Option, [], ◌∷◌, ◌++◌, arith, leb, ◌==◌, length,
  list_contains, nat_eq,
}
use raiden_common.Common.Bytes.{Bytes, bytes_eq}
use raiden_common.Common.Int.{pos, ◌≤ℤ◌, leb_ℤ, int_eq}
use raiden_common.Common.Outcome.{ok, returns, returns-ok}
use raiden_common.Events.{SendLockedTransfer}
use raiden_common.External.{CanonicalIdentifier, External}
use raiden_common.State.{
  uint256_max, uint64_max, maximum_pending_transfers, HashTimeLockState, PendingLocksState,
  NettingChannelState,
}
use raiden_common.State.Make.{encoded, make_lock, locksroot_of_no_locks, make_balance_proof}

-- What a usable channel offers.
record CanSend (x : External) (c : NettingChannelState) (amount : ℕ) : Type 0 where
  opened : is_state_opened (get_status c) ≡ true
  covered : pos amount ≤ℤ get_distributable x c.our_state c.partner_state
  bounded :
      (get_current_balanceproof x c.our_state).transferred_amount
        + (get_current_balanceproof x c.our_state).locked_amount
        + amount
      ≤ uint256_max
  few : length c.our_state.pending_locks < maximum_pending_transfers

usable-CanSend :
    (x : External) (c : NettingChannelState) (amount : ℕ) (timeout : Option ℕ)
    → is_channel_usable_for_new_transfer x c amount timeout ≡ ChannelUsability.usable
    → CanSend x c amount
unfolding is_channel_usable_for_new_transfer is_valid_amount
usable-CanSend x c amount timeout h = record {
  opened = ground arith;
  covered = ground arith;
  bounded = ground arith;
  few = ground arith;
}

make_lock-succeeds :
    (amount expiration secrethash : ℕ)
    → amount ≤ uint256_max
    → expiration ≤ uint256_max
    → secrethash ≤ uint256_max
    → make_lock amount expiration secrethash
      ≡ ok (record { amount = amount; expiration = expiration; secrethash = secrethash })
unfolding make_lock
make_lock-succeeds amount expiration secrethash a e h = ground arith

make_balance_proof-succeeds :
    (nonce transferred locked : ℕ) (root : Bytes) (id : CanonicalIdentifier)
    → 0 < nonce
    → nonce ≤ uint64_max
    → transferred ≤ uint256_max
    → locked ≤ uint256_max
    → length root ≡ 32
    → id.channel_identifier ≤ uint256_max
    → make_balance_proof nonce transferred (pos locked) root id
      ≡ ok (record {
        nonce = nonce;
        transferred_amount = transferred;
        locked_amount = locked;
        locksroot = root;
        canonical_identifier = id;
      })
unfolding make_balance_proof
make_balance_proof-succeeds nonce transferred locked root id a b c d e f = ground arith

-- The hash gives 32 bytes, and no list of locks but the empty one has the hash of no locks.
pub record HashesLocks (x : External) : Type 0 where
  pub length_locksroot : (locks : PendingLocksState) → length (compute_locksroot x locks) ≡ 32
  pub keccak_nonempty :
      (locks : PendingLocksState) (lock : HashTimeLockState)
      → (compute_locksroot x (locks ++ encoded lock ∷ []) == locksroot_of_no_locks x) ≡ false

-- On a channel that is usable for a new transfer and whose own side is sound, sending succeeds, if
-- expiration, secret hash and channel identifier are in range, the lock is not among the pending
-- locks, the nonce does not overflow, and the hash gives 32 bytes and does not confuse pending
-- locks with none.
pub send_lockedtransfer-succeeds :
    (x : External) (c : NettingChannelState) (t : TransferDescription) (timeout : Option ℕ)
    → HashesLocks x
    → IsSound x c.our_state
    → is_channel_usable_for_new_transfer x c t.amount timeout ≡ ChannelUsability.usable
    → t.expiration ≤ uint256_max
    → t.secrethash ≤ uint256_max
    → c.our_state.nonce < uint64_max
    → c.canonical_identifier.channel_identifier ≤ uint256_max
    → list_contains
        (encoded
          (record { amount = t.amount; expiration = t.expiration; secrethash = t.secrethash }))
        c.our_state.pending_locks
      ≡ false
    → (e : SendLockedTransfer) × (c' : NettingChannelState) × (send_lockedtransfer x c t
        ≡ ok (e, c'))
unfolding send_lockedtransfer create_sendlockedtransfer compute_locks_with
send_lockedtransfer-succeeds x c t timeout hashes sound usable e h n id new =
    let w = usable-CanSend x c t.amount timeout usable in
    let lock : HashTimeLockState = record {
      amount = t.amount;
      expiration = t.expiration;
      secrethash = t.secrethash;
    } in
    let total : transferred_of c.our_state.balance_proof + get_amount_locked c.our_state + t.amount
        ≤ uint256_max =
      omega (
        arith,
        w.bounded,
        transferred-current x c.our_state,
        current-locked_amount x c.our_state sound,
      ) in
    let locks = c.our_state.pending_locks ++ encoded lock ∷ [] in
    let covered : leb_ℤ (pos t.amount) (get_distributable x c.our_state c.partner_state) ≡ true =
      ground (arith, w.covered) in
    let room : leb (transferred_of c.our_state.balance_proof + t.amount) uint256_max ≡ true =
      ground (arith, total) in
    let done : returns (send_lockedtransfer x c t) ≡ true =
      rw
        (
          covered,
          w.opened,
          make_lock-succeeds t.amount t.expiration t.secrethash (omega arith) e h,
          new,
          room,
          make_balance_proof-succeeds (c.our_state.nonce + 1)
              (transferred_of c.our_state.balance_proof) (get_amount_locked c.our_state + t.amount)
              (compute_locksroot x locks) c.canonical_identifier (omega arith) (omega arith)
              (omega arith) (omega arith) (hashes.length_locksroot locks) id,
          hashes.keccak_nonempty c.our_state.pending_locks lock,
        )
        refl in
    let (result, e) = returns-ok (send_lockedtransfer x c t) done in (result.0, result.1, e)
