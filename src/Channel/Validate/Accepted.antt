-- ===== src/Channel/Validate/Accepted.antt =====
-- What the checks of Channel/Validate.antt establish when they pass.
use raiden_common.Channel.Balance.{get_current_balanceproof, get_distributable}
use raiden_common.Channel.Locks.{compute_locks_with, compute_locksroot}
use raiden_common.Channel.Status.{is_state_opened, get_status}
use raiden_common.Channel.Validate.{
  LocksOrError, valid, invalid, signed_bytes, is_valid_balanceproof_signature,
  is_balance_proof_usable_onchain, compare_balance_proof, check_locks_with,
  valid_lockedtransfer_check,
}
use raiden_common.Common.{
  ℕ, ◌+◌, ◌≤◌, ◌≡◌, refl, ◌⊎◌, inl, inr, true, false, none, some, [], ◌∷◌, ◌++◌, arith, length,
  list_contains, nat_eq,
}
use raiden_common.Common.Bytes.{Bytes, bytes_beq_iff, bytes_eq}
use raiden_common.Common.Int.{ℤ, pos, ◌≤ℤ◌, beq_ℤ_iff, int_eq}
use raiden_common.Events.{MessageName, Reason, SuccessOrError}
use raiden_common.External.{External}
use raiden_common.State.{
  uint256_max, maximum_pending_transfers, ChannelState, HashTimeLockState, BalanceProofSignedState,
  PendingLocksState, NettingChannelEndState, NettingChannelState,
}
use raiden_common.State.Make.{encoded}

-- A balance proof that is usable on-chain.
pub record IsUsable (x : External) (b : BalanceProofSignedState) (c : NettingChannelState)
    (sender : NettingChannelEndState) : Type 0 where
  pub opened : get_status c ≡ ChannelState.opened
  pub bounded : b.transferred_amount + b.locked_amount ≤ uint256_max
  pub nonce : b.nonce ≡ sender.nonce + 1
  pub signed_by_sender : x.recover (signed_bytes x b) b.signature ≡ some sender.address

pub LocksOrError-cases :
    (r : LocksOrError)
    → ((e : Reason) × (r ≡ invalid e)) ⊎ ((locks : PendingLocksState) × (r ≡ valid locks))
LocksOrError-cases (invalid e) = inl (e, refl)
LocksOrError-cases (valid locks) = inr (locks, refl)

is_state_opened-eq : (s : ChannelState) → is_state_opened s ≡ true → s ≡ ChannelState.opened
is_state_opened-eq s h = ground arith

is_valid_balanceproof_signature-success :
    (x : External) (b : BalanceProofSignedState) (sender : ℕ)
    → is_valid_balanceproof_signature x b sender ≡ SuccessOrError.success
    → x.recover (signed_bytes x b) b.signature ≡ some sender
unfolding is_valid_balanceproof_signature
is_valid_balanceproof_signature-success x b sender h = ground arith

pub is_balance_proof_usable_onchain-IsUsable :
    (x : External) (b : BalanceProofSignedState) (c : NettingChannelState)
    (sender : NettingChannelEndState)
    → is_balance_proof_usable_onchain x b c sender ≡ SuccessOrError.success
    → IsUsable x b c sender
unfolding is_balance_proof_usable_onchain
is_balance_proof_usable_onchain-IsUsable x b c sender h = record {
  opened = ground (arith, is_state_opened-eq (get_status c));
  bounded = ground arith;
  nonce = ground arith;
  signed_by_sender = ground (arith, is_valid_balanceproof_signature-success x b sender.address);
}

pub compare_balance_proof-none :
    (b : BalanceProofSignedState) (root : Bytes) (transferred : ℕ) (locked : ℤ)
    → compare_balance_proof b root transferred locked ≡ none
    → (b.locksroot ≡ root) × (b.transferred_amount ≡ transferred) × (pos b.locked_amount ≡ locked)
unfolding compare_balance_proof
compare_balance_proof-none b root transferred locked h =
    ground (arith, bytes_beq_iff b.locksroot root, beq_ℤ_iff (pos b.locked_amount) locked)

-- Everything that an accepted locked transfer satisfies.
pub record AcceptsTransfer (x : External) (c : NettingChannelState)
    (sender receiver : NettingChannelEndState) (b : BalanceProofSignedState)
    (lock : HashTimeLockState) (locks : PendingLocksState) : Type 0 where
  pub usable : IsUsable x b c sender
  pub new_lock : list_contains (encoded lock) sender.pending_locks ≡ false
  pub appended : locks ≡ sender.pending_locks ++ encoded lock ∷ []
  pub few : length locks ≤ maximum_pending_transfers
  pub root : b.locksroot ≡ compute_locksroot x locks
  pub transferred : b.transferred_amount ≡ (get_current_balanceproof x sender).transferred_amount
  pub locked : b.locked_amount ≡ (get_current_balanceproof x sender).locked_amount + lock.amount
  pub covered : pos lock.amount ≤ℤ get_distributable x sender receiver

check_locks_with-none :
    (x : External) (sender receiver : NettingChannelEndState) (b : BalanceProofSignedState)
    (lock : HashTimeLockState) (locks : PendingLocksState)
    → check_locks_with x sender receiver b lock locks ≡ none
    → (length locks ≤ maximum_pending_transfers)
      × (compare_balance_proof b
            (compute_locksroot x locks)
            (get_current_balanceproof x sender).transferred_amount
            (pos ((get_current_balanceproof x sender).locked_amount + lock.amount))
          ≡ none)
      × (pos lock.amount ≤ℤ get_distributable x sender receiver)
unfolding check_locks_with
check_locks_with-none x sender receiver b lock locks h = ground arith

pub compute_locks_with-some :
    (locks : PendingLocksState) (lock : HashTimeLockState) {locks' : PendingLocksState}
    → compute_locks_with locks lock ≡ some locks'
    → (list_contains (encoded lock) locks ≡ false) × (locks' ≡ locks ++ encoded lock ∷ [])
unfolding compute_locks_with
compute_locks_with-some locks lock h = ground arith

valid_lockedtransfer_check-valid :
    (x : External) (c : NettingChannelState) (sender receiver : NettingChannelEndState)
    (name : MessageName) (b : BalanceProofSignedState) (lock : HashTimeLockState)
    (locks : PendingLocksState)
    → valid_lockedtransfer_check x c sender receiver name b lock ≡ valid locks
    → (is_balance_proof_usable_onchain x b c sender ≡ SuccessOrError.success)
      × (compute_locks_with sender.pending_locks lock ≡ some locks)
      × (check_locks_with x sender receiver b lock locks ≡ none)
unfolding valid_lockedtransfer_check
valid_lockedtransfer_check-valid x c sender receiver name b lock locks h = ground arith

pub valid_lockedtransfer_check-AcceptsTransfer :
    (x : External) (c : NettingChannelState) (sender receiver : NettingChannelEndState)
    (name : MessageName) (b : BalanceProofSignedState) (lock : HashTimeLockState)
    (locks : PendingLocksState)
    → valid_lockedtransfer_check x c sender receiver name b lock ≡ valid locks
    → AcceptsTransfer x c sender receiver b lock locks
valid_lockedtransfer_check-AcceptsTransfer x c sender receiver name b lock locks h =
    let parts = valid_lockedtransfer_check-valid x c sender receiver name b lock locks h in
    let added = compute_locks_with-some sender.pending_locks lock parts.1 in
    let checks = check_locks_with-none x sender receiver b lock locks parts.2 in
    let same =
      compare_balance_proof-none b (compute_locksroot x locks)
        (get_current_balanceproof x sender).transferred_amount
        (pos ((get_current_balanceproof x sender).locked_amount + lock.amount)) checks.1 in
    record {
      usable = is_balance_proof_usable_onchain-IsUsable x b c sender parts.0;
      new_lock = added.0;
      appended = added.1;
      few = checks.0;
      root = same.0;
      transferred = same.1;
      locked = ground (arith, same.2);
      covered = checks.2;
    }
