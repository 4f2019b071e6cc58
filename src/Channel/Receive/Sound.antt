-- ===== src/Channel/Receive/Sound.antt =====
-- The cases of the handlers of received transfers, and the invariant of the partner's side.
use raiden_common.Channel.Invariant.{IsSound, current-locked_amount}
use raiden_common.Channel.Invariant.Add.{added-IsSound}
use raiden_common.Channel.Locks.{is_lock_pending}
use raiden_common.Channel.Receive.{
  Handled, accept_balance_proof, add_lockedlock, handle_receive_lockedtransfer,
  handle_refundtransfer,
}
use raiden_common.Channel.Validate.{
  valid, valid_lockedtransfer_check, is_valid_lockedtransfer, refund_transfer_matches_transfer,
  is_valid_refund,
}
use raiden_common.Channel.Validate.Accepted.{
  LocksOrError-cases, AcceptsTransfer, valid_lockedtransfer_check-AcceptsTransfer,
}
use raiden_common.Common.{ℕ, ◌≡◌, refl, ◌⊎◌, inl, inr, true, false, Option, arith, length}
use raiden_common.Events.{
  MessageName, LockedTransferUnsignedState, LockedTransferSignedState, ReceiveTransferRefund,
}
use raiden_common.External.{External}
use raiden_common.State.{
  HashTimeLockState, BalanceProofSignedState, signed, PendingLocksState, NettingChannelEndState,
  NettingChannelState,
}
use raiden_common.State.Encoding.{Fits}

-- A handler that does not accept a message reports it and leaves the channel alone.
abbrev pub Refuses : NettingChannelState → Handled → Type 0
Refuses c r = (r.is_valid ≡ false) × (r.channel ≡ c) × (length r.events ≡ 1)

-- A handler that accepts a message gives the partner this state, and changes nothing else.
abbrev pub Accepts : NettingChannelState → Handled → NettingChannelEndState → Type 0
Accepts c r partner =
    (r.is_valid ≡ true) × (r.channel ≡ record c { partner_state = partner }) × (length r.events ≡ 1)

-- A locked transfer is refused, or passes all checks and is taken over.
pub lockedtransfer_cases :
    (x : External) (c : NettingChannelState) (t : LockedTransferSignedState) (m : Option ℕ)
    → Refuses c (handle_receive_lockedtransfer x c t m)
      ⊎ ((locks : PendingLocksState) × AcceptsTransfer x c c.partner_state c.our_state
            t.balance_proof t.lock locks
          × Accepts c
              (handle_receive_lockedtransfer x c t m)
              (add_lockedlock (accept_balance_proof c.partner_state t.balance_proof locks) t.lock))
unfolding handle_receive_lockedtransfer is_valid_lockedtransfer
lockedtransfer_cases x c t m =
    elim (LocksOrError-cases (is_valid_lockedtransfer x t c c.partner_state c.our_state)) [
      | inl (r, e) ↦ inl (rw (e, handle_receive_lockedtransfer) (refl, refl, refl))
      | inr (locks, e) ↦ inr (
        locks,
        valid_lockedtransfer_check-AcceptsTransfer x c c.partner_state c.our_state
            MessageName.locked_transfer t.balance_proof t.lock locks e,
        rw (e, handle_receive_lockedtransfer) (refl, refl, refl),
      )
    ]

is_valid_refund-valid :
    (x : External) (t : ReceiveTransferRefund) (c : NettingChannelState)
    (sender receiver : NettingChannelEndState) (ours : LockedTransferUnsignedState)
    (locks : PendingLocksState)
    → is_valid_refund x t c sender receiver ours ≡ valid locks
    → (valid_lockedtransfer_check x c sender receiver MessageName.refund_transfer
          t.transfer.balance_proof t.transfer.lock
        ≡ valid locks)
      × (refund_transfer_matches_transfer t.transfer ours ≡ true)
unfolding is_valid_refund
is_valid_refund-valid x t c sender receiver ours locks h = ground arith

-- So is a refund, if it also matches the transfer that it gives back.
pub refundtransfer_cases :
    (x : External) (ours : LockedTransferUnsignedState) (c : NettingChannelState)
    (t : ReceiveTransferRefund) (m : Option ℕ)
    → Refuses c (handle_refundtransfer x ours c t m)
      ⊎ ((locks : PendingLocksState) × AcceptsTransfer x c c.partner_state c.our_state
            t.transfer.balance_proof t.transfer.lock locks
          × (refund_transfer_matches_transfer t.transfer ours ≡ true)
          × Accepts c (handle_refundtransfer x ours c t m) (
              add_lockedlock
                (accept_balance_proof c.partner_state t.transfer.balance_proof locks)
                t.transfer.lock))
unfolding handle_refundtransfer
refundtransfer_cases x ours c t m =
    elim (LocksOrError-cases (is_valid_refund x t c c.partner_state c.our_state ours)) [
      | inl (r, e) ↦ inl (rw (e, handle_refundtransfer) (refl, refl, refl))
      | inr (locks, e) ↦
          let parts = is_valid_refund-valid x t c c.partner_state c.our_state ours locks e in
          inr (
            locks,
            valid_lockedtransfer_check-AcceptsTransfer x c c.partner_state c.our_state
                MessageName.refund_transfer t.transfer.balance_proof t.transfer.lock locks parts.0,
            parts.1,
            rw (e, handle_refundtransfer) (refl, refl, refl),
          )
    ]

pub accepted-IsSound :
    (x : External) (c : NettingChannelState) (s r : NettingChannelEndState)
    (b : BalanceProofSignedState) (lock : HashTimeLockState) (locks : PendingLocksState)
    → AcceptsTransfer x c s r b lock locks
    → IsSound x s
    → Fits lock
    → is_lock_pending s lock.secrethash ≡ false
    → IsSound x (add_lockedlock (accept_balance_proof s b locks) lock)
unfolding accept_balance_proof
accepted-IsSound x c s r b lock locks a sound f new = rw a.appended (
    added-IsSound s (signed b) lock x sound f new
      (omega (arith, a.locked, current-locked_amount x s sound)) (rw (← a.appended) a.root))

-- Whether it is accepted or not, a locked transfer leaves the partner's side sound, if its lock is
-- in range and its secret hash is not in use there.
pub handle_receive_lockedtransfer-IsSound :
    (x : External) (c : NettingChannelState) (t : LockedTransferSignedState) (m : Option ℕ)
    → IsSound x c.partner_state
    → Fits t.lock
    → is_lock_pending c.partner_state t.lock.secrethash ≡ false
    → IsSound x (handle_receive_lockedtransfer x c t m).channel.partner_state
handle_receive_lockedtransfer-IsSound x c t m sound f new = elim (lockedtransfer_cases x c t m) [
  | inl refusal ↦ rw refusal.1 sound
  | inr (locks, a, after) ↦
      rw after.1 (
        accepted-IsSound x c c.partner_state c.our_state t.balance_proof t.lock locks a sound f new)
]

-- The same holds of a refund.
pub handle_refundtransfer-IsSound :
    (x : External) (ours : LockedTransferUnsignedState) (c : NettingChannelState)
    (t : ReceiveTransferRefund) (m : Option ℕ)
    → IsSound x c.partner_state
    → Fits t.transfer.lock
    → is_lock_pending c.partner_state t.transfer.lock.secrethash ≡ false
    → IsSound x (handle_refundtransfer x ours c t m).channel.partner_state
handle_refundtransfer-IsSound x ours c t m sound f new = elim (refundtransfer_cases x ours c t m) [
  | inl refusal ↦ rw refusal.1 sound
  | inr (locks, a, _, after) ↦ rw after.1 (
      accepted-IsSound x c c.partner_state c.our_state t.transfer.balance_proof t.transfer.lock
        locks a sound f new)
]
