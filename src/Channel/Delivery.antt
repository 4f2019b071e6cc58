-- ===== src/Channel/Delivery.antt =====
-- Both ends of a channel: each node keeps its own side and a copy of the other's.
pub mod Transfer
pub mod Unlocking
use raiden_common.Channel.Balance.{
  get_amount_locked, transferred_of, get_balance, get_current_balanceproof, get_distributable,
}
use raiden_common.Channel.Balance.Conserve.{balance_of, get_balance-balance_of}
use raiden_common.Channel.Invariant.{IsSound, current-locked_amount}
use raiden_common.Channel.Invariant.Moves.{transferred-current}
use raiden_common.Channel.Locks.{compute_locks_with, compute_locksroot}
use raiden_common.Channel.Status.{get_status}
use raiden_common.Channel.Validate.{
  valid, is_valid_signature, signed_bytes, is_valid_balanceproof_signature,
  is_balance_proof_usable_onchain, compare_balance_proof, check_locks_with,
  valid_lockedtransfer_check,
}
use raiden_common.Common.{ℕ, ◌+◌, ◌-◌, ◌≤◌, ◌≡◌, sym, ◌∙◌, none, some, arith, length}
use raiden_common.Common.Bytes.{Bytes, bytes_beq_iff}
use raiden_common.Common.Int.{pos, ◌-ℤ◌, ◌≤ℤ◌, beq_ℤ_iff, min_ℤ}
use raiden_common.Events.{
  MessageName, SuccessOrError, LockedTransferUnsignedState, LockedTransferSignedState,
}
use raiden_common.External.{External}
use raiden_common.State.{
  uint256_max, maximum_pending_transfers, ChannelState, HashTimeLockState, BalanceProofSignedState,
  PendingLocksState, NettingChannelEndState, NettingChannelState, total_withdraw,
}

-- A side as its owner has it, and the copy at the other node. The balance proofs themselves
-- differ, since the copy has the signed one.
pub record Mirrors (s v : NettingChannelEndState) : Type 0 where
  pub address : v.address ≡ s.address
  pub contract_balance : v.contract_balance ≡ s.contract_balance
  pub withdrawn : total_withdraw v ≡ total_withdraw s
  pub nonce : v.nonce ≡ s.nonce
  pub pending_locks : v.pending_locks ≡ s.pending_locks
  pub locked : get_amount_locked v ≡ get_amount_locked s
  pub transferred : transferred_of v.balance_proof ≡ transferred_of s.balance_proof

pub get_balance-Mirrors :
    (s v r w : NettingChannelEndState)
    → Mirrors s v
    → Mirrors r w
    → get_balance v w ≡ get_balance s r
get_balance-Mirrors s v r w m n =
    get_balance-balance_of v w
    ∙ (λ i. balance_of (m.contract_balance i) (m.withdrawn i) (m.transferred i) (n.transferred i))
    ∙ sym (get_balance-balance_of s r)

-- Both nodes compute the same distributable amount.
pub get_distributable-Mirrors :
    (x : External) (s v r w : NettingChannelEndState)
    → IsSound x s
    → IsSound x v
    → Mirrors s v
    → Mirrors r w
    → get_distributable x v w ≡ get_distributable x s r
unfolding get_distributable
get_distributable-Mirrors x s v r w p q m n =
    let t : (get_current_balanceproof x v).transferred_amount
        ≡ (get_current_balanceproof x s).transferred_amount =
      transferred-current x v ∙ m.transferred ∙ sym (transferred-current x s) in
    let l : (get_current_balanceproof x v).locked_amount
        ≡ (get_current_balanceproof x s).locked_amount =
      current-locked_amount x v q ∙ m.locked ∙ sym (current-locked_amount x s p) in
    λ i.
      min_ℤ (pos (uint256_max - t i - l i)) (get_balance-Mirrors s v r w m n i -ℤ pos (m.locked i))

-- The network delivers what was sent: the received message has the lock and the balance proof of
-- the sent one, and a signature from which the sender is recovered.
pub record Delivers (x : External) (sender : ℕ) (sent : LockedTransferUnsignedState)
    (t : LockedTransferSignedState) : Type 0 where
  pub same_lock : t.lock ≡ sent.lock
  pub same_content : t.balance_proof.content ≡ sent.balance_proof
  pub by_sender : x.recover (signed_bytes x t.balance_proof) t.balance_proof.signature ≡ some sender

pub IsUsable-success :
    (x : External) (b : BalanceProofSignedState) (c : NettingChannelState)
    (sender : NettingChannelEndState)
    → get_status c ≡ ChannelState.opened
    → b.canonical_identifier ≡ c.canonical_identifier
    → b.transferred_amount + b.locked_amount ≤ uint256_max
    → b.nonce ≡ sender.nonce + 1
    → x.recover (signed_bytes x b) b.signature ≡ some sender.address
    → is_balance_proof_usable_onchain x b c sender ≡ SuccessOrError.success
unfolding is_balance_proof_usable_onchain is_valid_balanceproof_signature is_valid_signature
IsUsable-success x b c sender opened id bounded nonce signature = ground arith

compare_balance_proof-same :
    (b : BalanceProofSignedState) (root : Bytes) (transferred locked : ℕ)
    → b.locksroot ≡ root
    → b.transferred_amount ≡ transferred
    → b.locked_amount ≡ locked
    → compare_balance_proof b root transferred (pos locked) ≡ none
unfolding compare_balance_proof
compare_balance_proof-same b root transferred locked e f g =
    ground (arith, bytes_beq_iff b.locksroot root, beq_ℤ_iff (pos b.locked_amount) (pos locked))

pub check_locks_with-passes :
    (x : External) (sender receiver : NettingChannelEndState) (b : BalanceProofSignedState)
    (lock : HashTimeLockState) (locks : PendingLocksState)
    → length locks ≤ maximum_pending_transfers
    → b.locksroot ≡ compute_locksroot x locks
    → b.transferred_amount ≡ (get_current_balanceproof x sender).transferred_amount
    → b.locked_amount ≡ (get_current_balanceproof x sender).locked_amount + lock.amount
    → pos lock.amount ≤ℤ get_distributable x sender receiver
    → check_locks_with x sender receiver b lock locks ≡ none
unfolding check_locks_with
check_locks_with-passes x sender receiver b lock locks few root transferred locked covered =
    ground (
      arith,
      compare_balance_proof-same b (compute_locksroot x locks)
          (get_current_balanceproof x sender).transferred_amount
          ((get_current_balanceproof x sender).locked_amount + lock.amount) root transferred locked,
    )

pub valid_lockedtransfer_check-passes :
    (x : External) (c : NettingChannelState) (sender receiver : NettingChannelEndState)
    (name : MessageName) (b : BalanceProofSignedState) (lock : HashTimeLockState)
    (locks : PendingLocksState)
    → is_balance_proof_usable_onchain x b c sender ≡ SuccessOrError.success
    → compute_locks_with sender.pending_locks lock ≡ some locks
    → check_locks_with x sender receiver b lock locks ≡ none
    → valid_lockedtransfer_check x c sender receiver name b lock ≡ valid locks
unfolding valid_lockedtransfer_check
valid_lockedtransfer_check-passes x c sender receiver name b lock locks usable taken checked =
    ground arith
