-- ===== src/Channel/Delivery/Transfer.antt =====
-- A locked transfer from one node to the other.
use raiden_common.Channel.Balance.{get_amount_locked, transferred_of, get_distributable}
use raiden_common.Channel.Balance.Conserve.{get_distributable_room}
use raiden_common.Channel.Delivery.{
  Mirrors, get_distributable-Mirrors, Delivers, IsUsable-success, check_locks_with-passes,
  valid_lockedtransfer_check-passes,
}
use raiden_common.Channel.Invariant.{IsSound, current-locked_amount}
use raiden_common.Channel.Invariant.Add.{added-amount}
use raiden_common.Channel.Invariant.Moves.{transferred-current}
use raiden_common.Channel.Locks.{is_lock_pending, compute_locks_with}
use raiden_common.Channel.Receive.{
  accept_balance_proof, add_lockedlock, handle_receive_lockedtransfer,
}
use raiden_common.Channel.Sanity.Consistent.{IsConsistent}
use raiden_common.Channel.Send.{TransferDescription, apply_balance_proof, send_lockedtransfer}
use raiden_common.Channel.Send.Sound.{
  IsCreated, create_sendlockedtransfer-IsCreated, make_balance_proof-content,
  send_lockedtransfer-created,
}
use raiden_common.Channel.Status.{get_status}
use raiden_common.Channel.Validate.{valid, is_balance_proof_usable_onchain, is_valid_lockedtransfer}
use raiden_common.Channel.Validate.Accepted.{compute_locks_with-some}
use raiden_common.Common.{
  ℕ, ◌+◌, ◌<◌, ◌≡◌, refl, sym, ap, ◌∙◌, subst, true, false, Option, some, [], ◌∷◌, ◌++◌, arith,
  length, length-append,
}
use raiden_common.Common.Int.{pos, pos_part, ◌≤ℤ◌}
use raiden_common.Common.Outcome.{ok}
use raiden_common.Events.{
  MessageName, SuccessOrError, LockedTransferUnsignedState, LockedTransferSignedState,
  SendLockedTransfer,
}
use raiden_common.External.{External}
use raiden_common.State.{
  maximum_pending_transfers, ChannelState, HashTimeLockState, BalanceProofUnsignedState, signed,
  unsigned, PendingLocksState, NettingChannelEndState, NettingChannelState, offchain_total_withdraw,
  total_withdraw,
}
use raiden_common.State.Encoding.{make_lock-Fits}
use raiden_common.State.Make.{encoded}

-- What the handler does with a transfer that passes its check.
handle_receive_lockedtransfer-valid :
    (x : External) (d : NettingChannelState) (t : LockedTransferSignedState) (m : Option ℕ)
    (locks : PendingLocksState)
    → is_valid_lockedtransfer x t d d.partner_state d.our_state ≡ valid locks
    → ((handle_receive_lockedtransfer x d t m).is_valid ≡ true)
      × ((handle_receive_lockedtransfer x d t m).channel ≡ record d {
        partner_state =
            add_lockedlock (accept_balance_proof d.partner_state t.balance_proof locks) t.lock;
      })
unfolding handle_receive_lockedtransfer
handle_receive_lockedtransfer-valid x d t m locks e =
    rw (e, handle_receive_lockedtransfer) (refl, refl)

-- The sent transfer passes the check of the receiver.
module _ (x : External) (c d : NettingChannelState) (t : TransferDescription)
    (transfer : LockedTransferUnsignedState) (locks : PendingLocksState)
    (message : LockedTransferSignedState) where
  delivered-valid :
      IsConsistent x c
      → IsSound x d.partner_state
      → Mirrors c.our_state d.partner_state
      → Mirrors c.partner_state d.our_state
      → d.canonical_identifier ≡ c.canonical_identifier
      → get_status d ≡ ChannelState.opened
      → length c.our_state.pending_locks < maximum_pending_transfers
      → is_lock_pending c.our_state t.secrethash ≡ false
      → IsCreated x c t transfer locks
      → Delivers x c.our_state.address transfer message
      → is_valid_lockedtransfer x message d d.partner_state d.our_state ≡ valid locks
  unfolding is_valid_lockedtransfer
  delivered-valid h sound ours partner same_id opened few new facts delivers =
      let s = c.our_state in
      let v = d.partner_state in
      let b = make_balance_proof-content _ _ _ _ _ facts.balance_proof in
      let lock = make_lock-Fits _ _ _ facts.made in
      let taken = compute_locks_with-some s.pending_locks transfer.lock facts.appended in
      let got = message.balance_proof in
      let content = delivers.same_content in
      let locked_now : got.locked_amount ≡ get_amount_locked s + transfer.lock.amount =
        ap (λ (z : BalanceProofUnsignedState). z.locked_amount) content
        ∙ omega (arith, ap pos_part b.2, lock.1) in
      let transferred_now : got.transferred_amount ≡ transferred_of s.balance_proof =
        ap (λ (z : BalanceProofUnsignedState). z.transferred_amount) content ∙ b.1 in
      let amount : message.lock.amount ≡ transfer.lock.amount =
        ap (λ (l : HashTimeLockState). l.amount) delivers.same_lock in
      let covered : pos message.lock.amount ≤ℤ get_distributable x v d.our_state =
        rw
          (
            amount,
            get_distributable-Mirrors x s v c.partner_state d.our_state h.ours sound ours partner,
            lock.1,
          )
          facts.covered in
      let usable : is_balance_proof_usable_onchain x got d v ≡ SuccessOrError.success =
        IsUsable-success x got d v opened
          (ap (λ (z : BalanceProofUnsignedState). z.canonical_identifier) content
            ∙ b.6
            ∙ sym same_id)
          (omega (
            arith,
            locked_now,
            transferred_now,
            h.our_bound,
            lock.1,
            facts.covered,
            get_distributable_room x s c.partner_state,
            transferred-current x s,
            current-locked_amount x s h.ours,
          ))
          (ap (λ (z : BalanceProofUnsignedState). z.nonce) content
            ∙ b.0
            ∙ ap (λ n. n + 1) (sym ours.nonce))
          (delivers.by_sender ∙ ap some (sym ours.address)) in
      let appended : compute_locks_with v.pending_locks message.lock ≡ some locks =
        rw (ours.pending_locks, delivers.same_lock) facts.appended in
      valid_lockedtransfer_check-passes x d v d.our_state MessageName.locked_transfer got
        message.lock locks usable appended
        (check_locks_with-passes x v d.our_state got message.lock locks
          (rw taken.1 (omega (arith, length-append s.pending_locks (encoded transfer.lock ∷ []))))
          (ap (λ (z : BalanceProofUnsignedState). z.locksroot) content ∙ b.3)
          (transferred_now ∙ sym ours.transferred ∙ sym (transferred-current x v))
          (omega (arith, locked_now, amount, ours.locked, current-locked_amount x v sound)) covered)

-- Both copies of the sender's side after the transfer.
transferred-Mirrors :
    (s v : NettingChannelEndState) (sent : LockedTransferUnsignedState)
    (message : LockedTransferSignedState) (locks : PendingLocksState)
    → Mirrors s v
    → message.lock ≡ sent.lock
    → message.balance_proof.content ≡ sent.balance_proof
    → locks ≡ s.pending_locks ++ encoded sent.lock ∷ []
    → is_lock_pending s sent.lock.secrethash ≡ false
    → is_lock_pending v sent.lock.secrethash ≡ false
    → Mirrors
        (add_lockedlock (apply_balance_proof s sent.balance_proof locks) sent.lock)
        (add_lockedlock (accept_balance_proof v message.balance_proof locks) message.lock)
unfolding apply_balance_proof accept_balance_proof add_lockedlock total_withdraw
    offchain_total_withdraw
transferred-Mirrors s v sent message locks h same_lock same taken new_s new_v =
    let s' = add_lockedlock (apply_balance_proof s sent.balance_proof locks) sent.lock in
    let v' = add_lockedlock (accept_balance_proof v message.balance_proof locks) message.lock in
    let locked_s : get_amount_locked s' ≡ get_amount_locked s + sent.lock.amount =
      rw taken (added-amount s (unsigned sent.balance_proof) sent.lock new_s) in
    let locked_v : get_amount_locked v' ≡ get_amount_locked v + sent.lock.amount =
      rw (taken, ← h.pending_locks, same_lock)
        (added-amount v (signed message.balance_proof) sent.lock new_v) in
    record {
      address = h.address;
      contract_balance = h.contract_balance;
      withdrawn = h.withdrawn;
      nonce = ap (λ (z : BalanceProofUnsignedState). z.nonce) same;
      pending_locks = refl;
      locked = omega (arith, locked_s, locked_v, h.locked);
      transferred = ap (λ (z : BalanceProofUnsignedState). z.transferred_amount) same;
    }

-- A locked transfer that a consistent node sends on a channel with fewer than 160 pending locks,
-- and that is delivered with a signature from which the sender is recovered, is accepted at the
-- other end, where the channel has the same identifier and is open, the sender's side is sound and
-- the copies of both sides agree, if the secret hash is not in use on either copy; and the copies
-- agree again afterwards.
pub handle_receive_lockedtransfer-send_lockedtransfer :
    (x : External) (c d : NettingChannelState) (t : TransferDescription) (e : SendLockedTransfer)
    (c' : NettingChannelState) (message : LockedTransferSignedState) (m : Option ℕ)
    → IsConsistent x c
    → IsSound x d.partner_state
    → Mirrors c.our_state d.partner_state
    → Mirrors c.partner_state d.our_state
    → d.canonical_identifier ≡ c.canonical_identifier
    → get_status d ≡ ChannelState.opened
    → length c.our_state.pending_locks < maximum_pending_transfers
    → is_lock_pending c.our_state t.secrethash ≡ false
    → is_lock_pending d.partner_state t.secrethash ≡ false
    → send_lockedtransfer x c t ≡ ok (e, c')
    → Delivers x c.our_state.address e.transfer message
    → ((handle_receive_lockedtransfer x d message m).is_valid ≡ true)
      × Mirrors c'.our_state (handle_receive_lockedtransfer x d message m).channel.partner_state
      × Mirrors c'.partner_state (handle_receive_lockedtransfer x d message m).channel.our_state
handle_receive_lockedtransfer-send_lockedtransfer x c d t e c' message m h sound ours partner
      same_id opened few new_s new_v sent delivers =
    let (made, created, same, after) = send_lockedtransfer-created x c t e c' sent in
    let facts : IsCreated x c t e.transfer made.1 =
      subst (λ (z : SendLockedTransfer). IsCreated x c t z.transfer made.1) same
        (create_sendlockedtransfer-IsCreated x c t made.0 made.1 created) in
    let lock = make_lock-Fits _ _ _ facts.made in
    let taken = compute_locks_with-some c.our_state.pending_locks e.transfer.lock facts.appended in
    let accepted = handle_receive_lockedtransfer-valid x d message m made.1 (
      delivered-valid x c d t e.transfer made.1 message h sound ours partner same_id opened few
        new_s facts delivers) in
    let state : c' ≡ record c {
      our_state =
          add_lockedlock (apply_balance_proof c.our_state e.transfer.balance_proof made.1)
            e.transfer.lock;
    } =
      sym after ∙ (λ i. record c {
        our_state =
            add_lockedlock (apply_balance_proof c.our_state (same i).transfer.balance_proof made.1)
              (same i).transfer.lock;
      }) in
    (
      accepted.0,
      rw (accepted.1, state)
          (transferred-Mirrors c.our_state d.partner_state e.transfer message made.1 ours
            delivers.same_lock delivers.same_content taken.1 (rw lock.3 new_s) (rw lock.3 new_v)),
      rw (accepted.1, state) partner,
    )
