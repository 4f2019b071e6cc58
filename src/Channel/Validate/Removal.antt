-- ===== src/Channel/Validate/Removal.antt =====
-- What the checks of unlocks and of expired locks establish when they pass.
use raiden_common.Channel.Balance.{get_current_balanceproof}
use raiden_common.Channel.Locks.{
  is_lock_expired, get_lock, compute_locks_without, compute_locksroot,
}
use raiden_common.Channel.Status.{get_receiver_expiration_threshold}
use raiden_common.Channel.Validate.{
  valid, is_balance_proof_usable_onchain, compare_balance_proof, expiring_lock, check_lock_expired,
  is_valid_lock_expired, is_valid_unlock,
}
use raiden_common.Channel.Validate.Accepted.{
  IsUsable, is_balance_proof_usable_onchain-IsUsable, compare_balance_proof-none,
}
use raiden_common.Common.{
  ℕ, ◌+◌, ◌≤◌, ◌≡◌, ap, inl, inr, true, false, none, some, arith, Option-cases, list_contains,
  list_remove, nat_eq,
}
use raiden_common.Common.Bytes.{Bytes, bytes_eq}
use raiden_common.Common.Dict.{contains}
use raiden_common.Common.Int.{pos, pos_part, neg_part, ◌-ℤ◌, -ℤ_parts, int_eq}
use raiden_common.Events.{SuccessOrError, ReceiveUnlock, ReceiveLockExpired}
use raiden_common.External.{External}
use raiden_common.State.{
  default_number_of_block_confirmations, HashTimeLockState, BalanceProofSignedState,
  PendingLocksState, NettingChannelEndState, NettingChannelState,
}
use raiden_common.State.Make.{encoded}

pub compute_locks_without-some :
    (locks : PendingLocksState) (e : Bytes) {locks' : PendingLocksState}
    → compute_locks_without locks e ≡ some locks'
    → (list_contains e locks ≡ true) × (locks' ≡ list_remove e locks)
unfolding compute_locks_without
compute_locks_without-some locks e h = ground arith

-- Everything that an accepted message satisfies which takes `lock` out of the pending locks and
-- leaves the given amounts: an unlock, or an expired lock.
pub record AcceptsRemoval (x : External) (c : NettingChannelState) (sender : NettingChannelEndState)
    (b : BalanceProofSignedState) (lock : HashTimeLockState) (moved : ℕ) (locks : PendingLocksState)
    : Type 0 where
  pub usable : IsUsable x b c sender
  pub known : list_contains (encoded lock) sender.pending_locks ≡ true
  pub removed : locks ≡ list_remove (encoded lock) sender.pending_locks
  pub root : b.locksroot ≡ compute_locksroot x locks
  pub transferred :
      b.transferred_amount ≡ (get_current_balanceproof x sender).transferred_amount + moved
  pub locked : b.locked_amount + lock.amount ≡ (get_current_balanceproof x sender).locked_amount

is_valid_unlock-valid :
    (x : External) (u : ReceiveUnlock) (c : NettingChannelState) (sender : NettingChannelEndState)
    (lock : HashTimeLockState) (locks : PendingLocksState)
    → get_lock sender u.secrethash ≡ some lock
    → is_valid_unlock x u c sender ≡ valid locks
    → (is_balance_proof_usable_onchain x u.balance_proof c sender ≡ SuccessOrError.success)
      × (compute_locks_without sender.pending_locks (encoded lock) ≡ some locks)
      × (compare_balance_proof u.balance_proof
            (compute_locksroot x locks)
            ((get_current_balanceproof x sender).transferred_amount + lock.amount)
            (pos (get_current_balanceproof x sender).locked_amount -ℤ pos lock.amount)
          ≡ none)
unfolding is_valid_unlock
is_valid_unlock-valid x u c sender lock locks e h = ground arith

pub is_valid_unlock-known :
    (x : External) (u : ReceiveUnlock) (c : NettingChannelState) (sender : NettingChannelEndState)
    (locks : PendingLocksState)
    → is_valid_unlock x u c sender ≡ valid locks
    → (lock : HashTimeLockState) × (get_lock sender u.secrethash ≡ some lock)
unfolding is_valid_unlock
is_valid_unlock-known x u c sender locks h = elim (Option-cases (get_lock sender u.secrethash)) [
  | inl unknown ↦ absurd (ground arith)
  | inr known ↦ known
]

-- What is left after a subtraction that gives a natural number.
pub rest_of_sub : (n a b : ℕ) → pos n ≡ pos a -ℤ pos b → n + b ≡ a
rest_of_sub n a b e = omega (arith, -ℤ_parts (pos a) (pos b), ap pos_part e, ap neg_part e)

pub is_valid_unlock-AcceptsRemoval :
    (x : External) (u : ReceiveUnlock) (c : NettingChannelState) (sender : NettingChannelEndState)
    (lock : HashTimeLockState) (locks : PendingLocksState)
    → get_lock sender u.secrethash ≡ some lock
    → is_valid_unlock x u c sender ≡ valid locks
    → AcceptsRemoval x c sender u.balance_proof lock lock.amount locks
is_valid_unlock-AcceptsRemoval x u c sender lock locks e h =
    let parts = is_valid_unlock-valid x u c sender lock locks e h in
    let taken = compute_locks_without-some sender.pending_locks (encoded lock) parts.1 in
    let same = compare_balance_proof-none u.balance_proof (compute_locksroot x locks) _ _ parts.2 in
    record {
      usable = is_balance_proof_usable_onchain-IsUsable x u.balance_proof c sender parts.0;
      known = taken.0;
      removed = taken.1;
      root = same.0;
      transferred = same.1;
      locked = rest_of_sub u.balance_proof.locked_amount _ lock.amount same.2;
    }

is_valid_lock_expired-valid :
    (x : External) (m : ReceiveLockExpired) (c : NettingChannelState)
    (sender receiver : NettingChannelEndState) (block_number : ℕ) (lock : HashTimeLockState)
    (locks : PendingLocksState)
    → expiring_lock c.partner_state m.secrethash ≡ some lock
    → is_valid_lock_expired x m c sender receiver block_number ≡ valid locks
    → (is_balance_proof_usable_onchain x m.balance_proof c sender ≡ SuccessOrError.success)
      × (compute_locks_without sender.pending_locks (encoded lock) ≡ some locks)
      × (check_lock_expired x m.balance_proof sender receiver lock block_number locks ≡ none)
      × (contains m.secrethash c.partner_state.secrethashes_to_onchain_unlockedlocks ≡ false)
unfolding is_valid_lock_expired
is_valid_lock_expired-valid x m c sender receiver block_number lock locks e h = ground arith

pub is_valid_lock_expired-known :
    (x : External) (m : ReceiveLockExpired) (c : NettingChannelState)
    (sender receiver : NettingChannelEndState) (block_number : ℕ) (locks : PendingLocksState)
    → is_valid_lock_expired x m c sender receiver block_number ≡ valid locks
    → (lock : HashTimeLockState) × (expiring_lock c.partner_state m.secrethash ≡ some lock)
unfolding is_valid_lock_expired
is_valid_lock_expired-known x m c sender receiver block_number locks h =
    elim (Option-cases (expiring_lock c.partner_state m.secrethash)) [
      | inl unknown ↦ absurd (ground arith)
      | inr known ↦ known
    ]

check_lock_expired-none :
    (x : External) (b : BalanceProofSignedState) (sender receiver : NettingChannelEndState)
    (lock : HashTimeLockState) (block_number : ℕ) (locks : PendingLocksState)
    → check_lock_expired x b sender receiver lock block_number locks ≡ none
    → (is_lock_expired receiver lock block_number
          (get_receiver_expiration_threshold lock.expiration)
        ≡ SuccessOrError.success)
      × (compare_balance_proof b
            (compute_locksroot x locks)
            (get_current_balanceproof x sender).transferred_amount
            (pos (get_current_balanceproof x sender).locked_amount -ℤ pos lock.amount)
          ≡ none)
unfolding check_lock_expired
check_lock_expired-none x b sender receiver lock block_number locks h = ground arith

pub is_lock_expired-success :
    (s : NettingChannelEndState) (lock : HashTimeLockState) (block_number threshold : ℕ)
    → is_lock_expired s lock block_number threshold ≡ SuccessOrError.success
    → (contains lock.secrethash s.secrethashes_to_onchain_unlockedlocks ≡ false)
      × (threshold ≤ block_number)
unfolding is_lock_expired
is_lock_expired-success s lock block_number threshold h = ground arith

pub is_valid_lock_expired-AcceptsRemoval :
    (x : External) (m : ReceiveLockExpired) (c : NettingChannelState)
    (sender receiver : NettingChannelEndState) (block_number : ℕ) (lock : HashTimeLockState)
    (locks : PendingLocksState)
    → expiring_lock c.partner_state m.secrethash ≡ some lock
    → is_valid_lock_expired x m c sender receiver block_number ≡ valid locks
    → AcceptsRemoval x c sender m.balance_proof lock 0 locks
      × (contains m.secrethash c.partner_state.secrethashes_to_onchain_unlockedlocks ≡ false)
      × (lock.expiration + default_number_of_block_confirmations ≤ block_number)
unfolding get_receiver_expiration_threshold
is_valid_lock_expired-AcceptsRemoval x m c sender receiver block_number lock locks e h =
    let parts = is_valid_lock_expired-valid x m c sender receiver block_number lock locks e h in
    let taken = compute_locks_without-some sender.pending_locks (encoded lock) parts.1 in
    let late =
      check_lock_expired-none x m.balance_proof sender receiver lock block_number locks parts.2 in
    let same = compare_balance_proof-none m.balance_proof (compute_locksroot x locks) _ _ late.1 in
    (
      record {
        usable = is_balance_proof_usable_onchain-IsUsable x m.balance_proof c sender parts.0;
        known = taken.0;
        removed = taken.1;
        root = same.0;
        transferred = omega (arith, same.1);
        locked = rest_of_sub m.balance_proof.locked_amount _ lock.amount same.2;
      },
      parts.3,
      (is_lock_expired-success receiver lock block_number _ late.0).1,
    )
