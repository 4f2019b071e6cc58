-- ===== src/Channel/Receive/Authentic.antt =====
-- Who can change the partner's side: nonces and signatures of accepted messages.
use raiden_common.Channel.Receive.{
  Handled, accept_balance_proof, add_lockedlock, handle_receive_lockedtransfer,
  handle_receive_lock_expired, handle_unlock,
}
use raiden_common.Channel.Receive.Removed.{unlock_cases, lock_expired_cases}
use raiden_common.Channel.Receive.Sound.{Refuses, lockedtransfer_cases}
use raiden_common.Channel.Validate.Accepted.{IsUsable}
use raiden_common.Common.{ℕ, ◌≡◌, refl, inl, inr, true, Option, arith}
use raiden_common.Common.Outcome.{ok}
use raiden_common.Events.{LockedTransferSignedState, ReceiveUnlock, ReceiveLockExpired}
use raiden_common.External.{External}
use raiden_common.State.{NettingChannelState}

-- A locked transfer that is accepted carries the next nonce of the partner on an open channel, a
-- signature from which the partner's address is recovered, and amounts whose sum fits 256 bits.
pub handle_receive_lockedtransfer-IsUsable :
    (x : External) (c : NettingChannelState) (t : LockedTransferSignedState) (m : Option ℕ)
    → (handle_receive_lockedtransfer x c t m).is_valid ≡ true
    → IsUsable x t.balance_proof c c.partner_state
handle_receive_lockedtransfer-IsUsable x c t m was_valid = elim (lockedtransfer_cases x c t m) [
  | inl refusal ↦ cc (refusal.0, was_valid)
  | inr (locks, a, after) ↦ a.usable
]

-- An unlock that is accepted carries the next nonce of the partner on an open channel, a signature
-- from which the partner's address is recovered, and amounts whose sum fits 256 bits.
pub handle_unlock-IsUsable :
    (x : External) (c : NettingChannelState) (u : ReceiveUnlock) (m : Option ℕ) (r : Handled)
    → handle_unlock x c u m ≡ ok r
    → r.is_valid ≡ true
    → IsUsable x u.balance_proof c c.partner_state
handle_unlock-IsUsable x c u m r e was_valid =
    let (r', e', cases) = unlock_cases x c u m in
    elim cases [
      | inl refusal ↦ cc (refusal.0, was_valid, e, e')
      | inr (lock, locks, known, a, after) ↦ a.usable
    ]

-- An expiration of a lock that is accepted carries the next nonce of the partner on an open
-- channel, a signature from which the partner's address is recovered, and amounts whose sum fits
-- 256 bits.
pub handle_receive_lock_expired-IsUsable :
    (x : External) (c : NettingChannelState) (e : ReceiveLockExpired) (block_number : ℕ)
    (m : Option ℕ)
    → (handle_receive_lock_expired x c e block_number m).is_valid ≡ true
    → IsUsable x e.balance_proof c c.partner_state
handle_receive_lock_expired-IsUsable x c e block_number m was_valid =
    elim (lock_expired_cases x c e block_number m) [
      | inl refusal ↦ cc (refusal.0, was_valid)
      | inr (lock, locks, known, _, a, after) ↦ a.usable
    ]

accepted_nonce :
    (x : External) (c : NettingChannelState) (t : LockedTransferSignedState) (m : Option ℕ)
    → (handle_receive_lockedtransfer x c t m).is_valid ≡ true
    → (handle_receive_lockedtransfer x c t m).channel.partner_state.nonce ≡ t.balance_proof.nonce
unfolding accept_balance_proof add_lockedlock
accepted_nonce x c t m was_valid = elim (lockedtransfer_cases x c t m) [
  | inl refusal ↦ cc (refusal.0, was_valid)
  | inr (locks, a, after) ↦ rw after.1 refl
]

-- A locked transfer that was accepted is refused when it arrives again.
pub handle_receive_lockedtransfer-replay :
    (x : External) (c : NettingChannelState) (t : LockedTransferSignedState) (m n : Option ℕ)
    → (handle_receive_lockedtransfer x c t m).is_valid ≡ true
    → Refuses
        (handle_receive_lockedtransfer x c t m).channel
        (handle_receive_lockedtransfer x (handle_receive_lockedtransfer x c t m).channel t n)
handle_receive_lockedtransfer-replay x c t m n was_valid =
    elim (lockedtransfer_cases x (handle_receive_lockedtransfer x c t m).channel t n) [
      | inl refusal ↦ refusal
      | inr (locks, a, after) ↦
          absurd (omega (arith, a.usable.nonce, accepted_nonce x c t m was_valid))
    ]
