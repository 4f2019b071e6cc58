-- ===== src/Channel/Send/Sound.antt =====
-- The messages that this node sends, and the invariant of its own side.
use raiden_common.Channel.Balance.{get_amount_locked, transferred_of, get_distributable}
use raiden_common.Channel.Invariant.{IsSound}
use raiden_common.Channel.Invariant.Add.{added-IsSound}
use raiden_common.Channel.Locks.{
  is_lock_pending, is_lock_expired, is_ok, get_lock, del_lock, compute_locks_with,
  compute_locks_without, compute_locksroot,
}
use raiden_common.Channel.Receive.{add_lockedlock}
use raiden_common.Channel.Send.{
  TransferDescription, require, create_sendlockedtransfer, apply_balance_proof, send_lockedtransfer,
  UnlockDescription, create_unlock, send_unlock,
}
use raiden_common.Channel.Status.{is_state_opened, get_status}
use raiden_common.Channel.Validate.Accepted.{compute_locks_with-some}
use raiden_common.Common.{ℕ, ◌+◌, ◌≤◌, ◌≡◌, true, false, Option, none, some, arith}
use raiden_common.Common.Bytes.{Bytes}
use raiden_common.Common.Int.{ℤ, pos, ◌-ℤ◌, ◌≤ℤ◌}
use raiden_common.Common.Outcome.{Failure, ok, >>=-eq-ok}
use raiden_common.Events.{LockedTransferUnsignedState, SendLockedTransfer, SendUnlock}
use raiden_common.External.{CanonicalIdentifier, External}
use raiden_common.State.{
  uint256_max, HashTimeLockState, BalanceProofUnsignedState, unsigned, PendingLocksState,
  NettingChannelEndState, NettingChannelState,
}
use raiden_common.State.Encoding.{make_lock-Fits}
use raiden_common.State.Make.{encoded, make_lock, make_balance_proof}

-- What holds when a locked transfer has been created.
pub record IsCreated (x : External) (c : NettingChannelState) (t : TransferDescription)
    (transfer : LockedTransferUnsignedState) (locks : PendingLocksState) : Type 0 where
  pub covered : pos t.amount ≤ℤ get_distributable x c.our_state c.partner_state
  pub opened : is_state_opened (get_status c) ≡ true
  pub made : make_lock t.amount t.expiration t.secrethash ≡ ok transfer.lock
  pub appended : compute_locks_with c.our_state.pending_locks transfer.lock ≡ some locks
  pub balance_proof :
      make_balance_proof
        (c.our_state.nonce + 1)
        (transferred_of c.our_state.balance_proof)
        (pos (get_amount_locked c.our_state + t.amount))
        (compute_locksroot x locks)
        c.canonical_identifier
      ≡ ok transfer.balance_proof

pub create_sendlockedtransfer-IsCreated :
    (x : External) (c : NettingChannelState) (t : TransferDescription) (e : SendLockedTransfer)
    (locks : PendingLocksState)
    → create_sendlockedtransfer x c t ≡ ok (e, locks)
    → IsCreated x c t e.transfer locks
unfolding create_sendlockedtransfer
create_sendlockedtransfer-IsCreated x c t e locks h = ground arith

pub require-ok {ℓ} :
    {A : Type ℓ} (o : Option A) (e : Failure) {a : A} → require o e ≡ ok a → o ≡ some a
require-ok none e h = cc
require-ok (some a) e h = cc

-- The fields of a balance proof that was made.
pub make_balance_proof-content :
    (nonce transferred : ℕ) (locked : ℤ) (root : Bytes) (id : CanonicalIdentifier)
    {b : BalanceProofUnsignedState}
    → make_balance_proof nonce transferred locked root id ≡ ok b
    → (b.nonce ≡ nonce)
      × (b.transferred_amount ≡ transferred)
      × (pos b.locked_amount ≡ locked)
      × (b.locksroot ≡ root)
      × (transferred ≤ uint256_max)
      × (b.locked_amount ≤ uint256_max)
      × (b.canonical_identifier ≡ id)
unfolding make_balance_proof
make_balance_proof-content nonce transferred locked root id h = ground arith

pub send_lockedtransfer-created :
    (x : External) (c : NettingChannelState) (t : TransferDescription) (e : SendLockedTransfer)
    (c' : NettingChannelState)
    → send_lockedtransfer x c t ≡ ok (e, c')
    → (made : SendLockedTransfer × PendingLocksState) × (create_sendlockedtransfer x c t ≡ ok made)
      × (made.0 ≡ e)
      × (record c {
        our_state =
            add_lockedlock
              (apply_balance_proof c.our_state made.0.transfer.balance_proof made.1)
              made.0.transfer.lock;
      }
          ≡ c')
unfolding send_lockedtransfer
send_lockedtransfer-created x c t e c' h =
    let (made, created, after) = >>=-eq-ok (create_sendlockedtransfer x c t) _ h in
    (made, created, cc after, cc after)

-- A locked transfer that was sent leaves our side sound, if its secret hash was not in use there.
pub send_lockedtransfer-IsSound :
    (x : External) (c : NettingChannelState) (t : TransferDescription) (e : SendLockedTransfer)
    (c' : NettingChannelState)
    → IsSound x c.our_state
    → is_lock_pending c.our_state t.secrethash ≡ false
    → send_lockedtransfer x c t ≡ ok (e, c')
    → IsSound x c'.our_state
unfolding apply_balance_proof
send_lockedtransfer-IsSound x c t e c' sound new h =
    let (made, created, _, after) = send_lockedtransfer-created x c t e c' h in
    let facts = create_sendlockedtransfer-IsCreated x c t made.0 made.1 created in
    let b = make_balance_proof-content _ _ _ _ _ facts.balance_proof in
    let lock = make_lock-Fits _ _ _ facts.made in
    let locks =
      compute_locks_with-some c.our_state.pending_locks made.0.transfer.lock facts.appended in
    rw (← after, locks.1)
      (added-IsSound c.our_state (unsigned made.0.transfer.balance_proof) made.0.transfer.lock x
        sound lock.0 (rw lock.3 new) (ground (arith, b.2, lock.1)) (rw (← locks.1) b.3))

-- What holds when an unlock has been created.
pub record IsUnlocked (x : External) (c : NettingChannelState) (lock : HashTimeLockState)
    (block_number : ℕ) (b : BalanceProofUnsignedState) (locks : PendingLocksState) : Type 0 where
  pub opened : is_state_opened (get_status c) ≡ true
  pub not_expired : is_ok (is_lock_expired c.our_state lock block_number lock.expiration) ≡ false
  pub removed : compute_locks_without c.our_state.pending_locks (encoded lock) ≡ some locks
  pub balance_proof :
      make_balance_proof
        (c.our_state.nonce + 1)
        (lock.amount + transferred_of c.our_state.balance_proof)
        (pos (get_amount_locked c.our_state) -ℤ pos lock.amount)
        (compute_locksroot x locks)
        c.canonical_identifier
      ≡ ok b

pub create_unlock-IsUnlocked :
    (x : External) (c : NettingChannelState) (u : UnlockDescription) (lock : HashTimeLockState)
    (block_number : ℕ) (e : SendUnlock) (locks : PendingLocksState)
    → create_unlock x c u lock block_number ≡ ok (e, locks)
    → IsUnlocked x c lock block_number e.balance_proof locks
unfolding create_unlock
create_unlock-IsUnlocked x c u lock block_number e locks h = ground arith

-- An unlock that was sent: its lock was known and the lock has left our side.
pub send_unlock-unlocked :
    (x : External) (c : NettingChannelState) (u : UnlockDescription) (block_number : ℕ)
    (e : SendUnlock) (c' : NettingChannelState)
    → send_unlock x c u block_number ≡ ok (e, c')
    → (lock : HashTimeLockState) × (made : SendUnlock × PendingLocksState) × (get_lock c.our_state
          u.secrethash
        ≡ some lock)
      × (create_unlock x c u lock block_number ≡ ok made)
      × (made.0 ≡ e)
      × (s : NettingChannelEndState) × (del_lock
            (apply_balance_proof c.our_state made.0.balance_proof made.1)
            lock.secrethash
          ≡ ok s)
      × (record c { our_state = s } ≡ c')
unfolding send_unlock
send_unlock-unlocked x c u block_number e c' h =
    let (lock, known, h1) =
      >>=-eq-ok (require (get_lock c.our_state u.secrethash) Failure.lock_must_exist) _ h in
    let (made, created, h2) = >>=-eq-ok (create_unlock x c u lock block_number) _ h1 in
    let (s, deleted, h3) =
      >>=-eq-ok
        (del_lock (apply_balance_proof c.our_state made.0.balance_proof made.1) lock.secrethash) _
        h2 in
    (
      lock,
      made,
      require-ok (get_lock c.our_state u.secrethash) _ known,
      created,
      cc h3,
      s,
      deleted,
      cc h3,
    )
