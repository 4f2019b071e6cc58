-- ===== src/Channel/Receive/Consistent.antt =====
-- The invariant of the channel behind the handlers of received messages.
use native.Mathlib.Nat.{le_refl}
use raiden_common.Channel.Invariant.Moves.{left-IsSolvent, receiver-IsSolvent}
use raiden_common.Channel.Invariant.Remove.{without_lock}
use raiden_common.Channel.Locks.{is_lock_pending, get_lock}
use raiden_common.Channel.Receive.{
  Handled, accept_balance_proof, add_lockedlock, handle_receive_lockedtransfer,
  handle_refundtransfer, handle_receive_lock_expired, handle_unlock,
}
use raiden_common.Channel.Receive.Amounts.{received_moves, removed_moves}
use raiden_common.Channel.Receive.Removed.{unlock_cases, lock_expired_cases, removed-IsSound}
use raiden_common.Channel.Receive.Sound.{
  lockedtransfer_cases, refundtransfer_cases, accepted-IsSound,
}
use raiden_common.Channel.Sanity.Consistent.{IsConsistent, partner_updated}
use raiden_common.Channel.Validate.Accepted.{AcceptsTransfer}
use raiden_common.Channel.Validate.Removal.{AcceptsRemoval}
use raiden_common.Common.{ℕ, ◌≤◌, ◌≡◌, refl, inl, inr, false, Option, some, arith}
use raiden_common.Common.Outcome.{ok}
use raiden_common.Events.{
  LockedTransferUnsignedState, LockedTransferSignedState, ReceiveUnlock, ReceiveLockExpired,
  ReceiveTransferRefund,
}
use raiden_common.External.{External}
use raiden_common.State.{
  HashTimeLockState, BalanceProofSignedState, PendingLocksState, NettingChannelState,
}
use raiden_common.State.Encoding.{Fits}

accepted-IsConsistent :
    (x : External) (c : NettingChannelState) (b : BalanceProofSignedState)
    (lock : HashTimeLockState) (locks : PendingLocksState)
    → IsConsistent x c
    → AcceptsTransfer x c c.partner_state c.our_state b lock locks
    → Fits lock
    → is_lock_pending c.partner_state lock.secrethash ≡ false
    → IsConsistent x (record c {
      partner_state = add_lockedlock (accept_balance_proof c.partner_state b locks) lock;
    })
unfolding accept_balance_proof add_lockedlock
accepted-IsConsistent x c b lock locks h a f new =
    let s = c.partner_state in
    let r = c.our_state in
    let after = add_lockedlock (accept_balance_proof s b locks) lock in
    let facts = received_moves x c s r b lock locks a h.partner new in
    partner_updated x c after h (accepted-IsSound x c s r b lock locks a h.partner f new) facts.1
      facts.2 (receiver-IsSolvent s after r 0 facts.0.pays h.our_solvency) refl

removed-IsConsistent :
    (x : External) (c : NettingChannelState) (b : BalanceProofSignedState) (secrethash : ℕ)
    (lock : HashTimeLockState) (moved : ℕ) (locks : PendingLocksState)
    → IsConsistent x c
    → get_lock c.partner_state secrethash ≡ some lock
    → AcceptsRemoval x c c.partner_state b lock moved locks
    → moved ≤ lock.amount
    → IsConsistent x (record c {
      partner_state = without_lock (accept_balance_proof c.partner_state b locks) secrethash;
    })
unfolding accept_balance_proof
removed-IsConsistent x c b secrethash lock moved locks h known a small =
    let s = c.partner_state in
    let r = c.our_state in
    let after = without_lock (accept_balance_proof s b locks) secrethash in
    let facts = removed_moves x c s r b secrethash lock moved locks known a h.partner in
    partner_updated x c after h
      (removed-IsSound x c s b secrethash lock moved locks known a h.partner) facts.1
      (left-IsSolvent s after r lock moved facts.0 small h.partner_solvency)
      (receiver-IsSolvent s after r moved facts.0.pays h.our_solvency) refl

-- Whatever locked transfer is received, a consistent channel stays consistent, if the lock is in
-- range and its secret hash is not in use on the partner's side.
pub handle_receive_lockedtransfer-IsConsistent :
    (x : External) (c : NettingChannelState) (t : LockedTransferSignedState) (m : Option ℕ)
    → IsConsistent x c
    → Fits t.lock
    → is_lock_pending c.partner_state t.lock.secrethash ≡ false
    → IsConsistent x (handle_receive_lockedtransfer x c t m).channel
handle_receive_lockedtransfer-IsConsistent x c t m h f new = elim (lockedtransfer_cases x c t m) [
  | inl refusal ↦ rw refusal.1 h
  | inr (locks, a, after) ↦
      rw after.1 (accepted-IsConsistent x c t.balance_proof t.lock locks h a f new)
]

-- Whatever refund is received, a consistent channel stays consistent, if the lock is in range and
-- its secret hash is not in use on the partner's side.
pub handle_refundtransfer-IsConsistent :
    (x : External) (ours : LockedTransferUnsignedState) (c : NettingChannelState)
    (t : ReceiveTransferRefund) (m : Option ℕ)
    → IsConsistent x c
    → Fits t.transfer.lock
    → is_lock_pending c.partner_state t.transfer.lock.secrethash ≡ false
    → IsConsistent x (handle_refundtransfer x ours c t m).channel
handle_refundtransfer-IsConsistent x ours c t m h f new = elim (refundtransfer_cases x ours c t m) [
  | inl refusal ↦ rw refusal.1 h
  | inr (locks, a, _, after) ↦
      rw after.1
        (accepted-IsConsistent x c t.transfer.balance_proof t.transfer.lock locks h a f new)
]

-- Whatever unlock is received, its handler does not raise, and a consistent channel stays
-- consistent.
pub handle_unlock-IsConsistent :
    (x : External) (c : NettingChannelState) (u : ReceiveUnlock) (m : Option ℕ)
    → IsConsistent x c
    → (r : Handled) × (handle_unlock x c u m ≡ ok r) × IsConsistent x r.channel
handle_unlock-IsConsistent x c u m h =
    let (r, e, cases) = unlock_cases x c u m in
    (
      r,
      e,
      elim cases [
        | inl refusal ↦ rw refusal.1 h
        | inr (lock, locks, known, a, after) ↦ rw after.1 (
            removed-IsConsistent x c u.balance_proof u.secrethash lock lock.amount locks h known a
              (le_refl _))
      ],
    )

-- Whatever expiration of a lock is received, a consistent channel stays consistent.
pub handle_receive_lock_expired-IsConsistent :
    (x : External) (c : NettingChannelState) (e : ReceiveLockExpired) (block_number : ℕ)
    (m : Option ℕ)
    → IsConsistent x c
    → IsConsistent x (handle_receive_lock_expired x c e block_number m).channel
handle_receive_lock_expired-IsConsistent x c e block_number m h =
    elim (lock_expired_cases x c e block_number m) [
      | inl refusal ↦ rw refusal.1 h
      | inr (lock, locks, known, _, a, after) ↦ rw after.1 (
          removed-IsConsistent x c e.balance_proof e.secrethash lock 0 locks h known a
            (omega arith))
    ]
