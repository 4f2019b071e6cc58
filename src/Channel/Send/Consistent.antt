-- ===== src/Channel/Send/Consistent.antt =====
-- The amounts of our own side and the invariant of the channel behind what this node sends.
use raiden_common.Channel.Balance.{get_amount_locked, transferred_of, get_distributable}
use raiden_common.Channel.Balance.Conserve.{get_distributable_room, get_balance-moved}
use raiden_common.Channel.Invariant.{IsSound, current-locked_amount}
use raiden_common.Channel.Invariant.Add.{added-amount}
use raiden_common.Channel.Invariant.Moves.{
  Pays, IsBounded, TakesLock, LeavesLock, transferred-current, taken-IsSolvent, left-IsSolvent,
  receiver-IsSolvent,
}
use raiden_common.Channel.Invariant.Remove.{without_lock, without_lock-amount}
use raiden_common.Channel.Locks.{is_lock_pending, get_lock}
use raiden_common.Channel.Receive.{add_lockedlock}
use raiden_common.Channel.Sanity.Consistent.{IsConsistent, ours_updated}
use raiden_common.Channel.Send.{TransferDescription, apply_balance_proof, send_lockedtransfer}
use raiden_common.Channel.Send.Sound.{
  IsCreated, create_sendlockedtransfer-IsCreated, make_balance_proof-content,
  send_lockedtransfer-created, send_lockedtransfer-IsSound,
}
use raiden_common.Channel.Validate.Accepted.{compute_locks_with-some}
use raiden_common.Channel.Withdraw.{kept}
use raiden_common.Common.{ℕ, ◌+◌, ◌≤◌, ◌≡◌, refl, sym, ◌∙◌, subst, false, some, arith}
use raiden_common.Common.Bytes.{Bytes}
use raiden_common.Common.Int.{pos, ◌-ℤ◌, ◌≤ℤ◌}
use raiden_common.Common.Outcome.{ok}
use raiden_common.Events.{LockedTransferUnsignedState, SendLockedTransfer}
use raiden_common.External.{External}
use raiden_common.State.{
  HashTimeLockState, BalanceProofUnsignedState, unsigned, PendingLocksState, NettingChannelEndState,
  NettingChannelState, offchain_total_withdraw, total_withdraw,
}
use raiden_common.State.Encoding.{make_lock-Fits}
use raiden_common.State.Make.{make_balance_proof}

sent-Pays :
    (s : NettingChannelEndState) (lock : HashTimeLockState) (b : BalanceProofUnsignedState)
    (locks : PendingLocksState) (r : NettingChannelEndState)
    → b.transferred_amount ≡ transferred_of s.balance_proof
    → Pays s (add_lockedlock (apply_balance_proof s b locks) lock) r 0
unfolding apply_balance_proof add_lockedlock total_withdraw offchain_total_withdraw
sent-Pays s lock b locks r same =
    get_balance-moved s (add_lockedlock (apply_balance_proof s b locks) lock) r 0 refl refl
      (omega (arith, same))

pub sent_moves :
    (x : External) (c : NettingChannelState) (t : TransferDescription)
    (transfer : LockedTransferUnsignedState) (locks : PendingLocksState)
    → IsCreated x c t transfer locks
    → is_lock_pending c.our_state t.secrethash ≡ false
    → TakesLock c.our_state
        (add_lockedlock
          (apply_balance_proof c.our_state transfer.balance_proof locks)
          transfer.lock)
        c.partner_state
        transfer.lock
      × (transfer.lock.amount ≡ t.amount)
      × (transfer.balance_proof.transferred_amount ≡ transferred_of c.our_state.balance_proof)
unfolding apply_balance_proof add_lockedlock
sent_moves x c t transfer locks facts new =
    let s = c.our_state in
    let b = make_balance_proof-content _ _ _ _ _ facts.balance_proof in
    let lock = make_lock-Fits _ _ _ facts.made in
    let taken = compute_locks_with-some s.pending_locks transfer.lock facts.appended in
    (
      record {
        nonce = b.0;
        locked =
            rw taken.1
              (added-amount s (unsigned transfer.balance_proof) transfer.lock (rw lock.3 new));
        pays = sent-Pays s transfer.lock transfer.balance_proof locks c.partner_state b.1;
      },
      lock.1,
      b.1,
    )

-- A locked transfer that was sent, with a secret hash not in use on our side, takes the next nonce,
-- locks its amount on our side, and keeps both balances and the partner's side.
pub send_lockedtransfer-TakesLock :
    (x : External) (c : NettingChannelState) (t : TransferDescription) (e : SendLockedTransfer)
    (c' : NettingChannelState)
    → is_lock_pending c.our_state t.secrethash ≡ false
    → send_lockedtransfer x c t ≡ ok (e, c')
    → TakesLock c.our_state c'.our_state c.partner_state e.transfer.lock
      × (e.transfer.lock.amount ≡ t.amount)
      × (c'.partner_state ≡ c.partner_state)
send_lockedtransfer-TakesLock x c t e c' new h =
    let (made, created, same, after) = send_lockedtransfer-created x c t e c' h in
    let facts = create_sendlockedtransfer-IsCreated x c t made.0 made.1 created in
    let moves = sent_moves x c t made.0.transfer made.1 facts new in
    rw (← after, ← same) (moves.0, moves.1, refl)

sent-IsBounded :
    (x : External) (s r s' : NettingChannelEndState) (amount : ℕ)
    → IsSound x s
    → IsBounded s
    → pos amount ≤ℤ get_distributable x s r
    → get_amount_locked s' ≡ get_amount_locked s + amount
    → transferred_of s'.balance_proof ≡ transferred_of s.balance_proof
    → IsBounded s'
sent-IsBounded x s r s' amount sound bounded covered locked same =
    omega (
      arith,
      get_distributable_room x s r,
      transferred-current x s,
      current-locked_amount x s sound,
    )

-- Sending a locked transfer keeps a consistent channel consistent, if the secret hash was not in
-- use on our side.
pub send_lockedtransfer-IsConsistent :
    (x : External) (c : NettingChannelState) (t : TransferDescription) (e : SendLockedTransfer)
    (c' : NettingChannelState)
    → IsConsistent x c
    → is_lock_pending c.our_state t.secrethash ≡ false
    → send_lockedtransfer x c t ≡ ok (e, c')
    → IsConsistent x c'
unfolding apply_balance_proof add_lockedlock
send_lockedtransfer-IsConsistent x c t e c' h new sent_ok =
    let (made, created, same, after) = send_lockedtransfer-created x c t e c' sent_ok in
    let facts = create_sendlockedtransfer-IsCreated x c t made.0 made.1 created in
    let s = c.our_state in
    let r = c.partner_state in
    let lock = made.0.transfer.lock in
    let s' = add_lockedlock (apply_balance_proof s made.0.transfer.balance_proof made.1) lock in
    let moves = sent_moves x c t made.0.transfer made.1 facts new in
    let covered : pos lock.amount ≤ℤ get_distributable x s r = rw moves.1 facts.covered in
    let sound : IsSound x s' =
      subst (λ (z : NettingChannelState). IsSound x z.our_state) (sym after)
        (send_lockedtransfer-IsSound x c t e c' h.ours new sent_ok) in
    rw (← after) (
      ours_updated x c s' h sound
        (sent-IsBounded x s r s' lock.amount h.ours h.our_bound covered moves.0.locked moves.2)
        (taken-IsSolvent x s s' r lock.amount covered moves.0.locked moves.0.pays)
        (receiver-IsSolvent s s' r 0 moves.0.pays h.partner_solvency) refl refl)

removed_sent-Pays :
    (s : NettingChannelEndState) (h : ℕ) (b : BalanceProofUnsignedState) (locks : PendingLocksState)
    (r : NettingChannelEndState) (moved : ℕ)
    → b.transferred_amount ≡ transferred_of s.balance_proof + moved
    → Pays s (without_lock (apply_balance_proof s b locks) h) r moved
unfolding apply_balance_proof total_withdraw offchain_total_withdraw
removed_sent-Pays s h b locks r moved same =
    get_balance-moved s (without_lock (apply_balance_proof s b locks) h) r moved refl refl same

removed_sent_amount :
    (s : NettingChannelEndState) (h : ℕ) (b : BalanceProofUnsignedState) (locks : PendingLocksState)
    → get_amount_locked (without_lock (apply_balance_proof s b locks) h)
      ≡ get_amount_locked (without_lock s h)
unfolding apply_balance_proof get_amount_locked
removed_sent_amount s h b locks = refl

-- Our side after one of its locks was removed by a message that pays `moved`.
pub removed_sent_moves :
    (x : External) (c : NettingChannelState) (b : BalanceProofUnsignedState) (h : ℕ) (root : Bytes)
    (lock : HashTimeLockState) (moved : ℕ) (locks : PendingLocksState) {total : ℕ}
    → total ≡ transferred_of c.our_state.balance_proof + moved
    → make_balance_proof
        (c.our_state.nonce + 1)
        total
        (pos (get_amount_locked c.our_state) -ℤ pos lock.amount)
        root
        c.canonical_identifier
      ≡ ok b
    → get_lock c.our_state h ≡ some lock
    → IsSound x c.our_state
    → LeavesLock c.our_state
        (without_lock (apply_balance_proof c.our_state b locks) h)
        c.partner_state
        lock
        moved
      × (transferred_of (some (unsigned b)) ≡ transferred_of c.our_state.balance_proof + moved)
unfolding apply_balance_proof
removed_sent_moves x c b h root lock moved locks sum made known sound =
    let content = make_balance_proof-content _ _ _ _ _ made in
    let s = c.our_state in
    let locked = without_lock-amount s h lock sound.synced known in
    let same = removed_sent_amount s h b locks in
    let grown : b.transferred_amount ≡ transferred_of s.balance_proof + moved = content.1 ∙ sum in
    (
      record {
        nonce = content.0;
        locked = omega (arith, locked, same);
        pays = removed_sent-Pays s h b locks c.partner_state moved grown;
      },
      grown,
    )

-- A channel stays consistent when a lock leaves our side with a payment of at most its amount.
pub removed_sent-IsConsistent :
    (x : External) (c : NettingChannelState) (s' : NettingChannelEndState)
    (lock : HashTimeLockState) (moved : ℕ)
    → IsConsistent x c
    → IsSound x s'
    → LeavesLock c.our_state s' c.partner_state lock moved
    → transferred_of s'.balance_proof ≡ transferred_of c.our_state.balance_proof + moved
    → moved ≤ lock.amount
    → s'.initiated_coop_settle ≡ c.our_state.initiated_coop_settle
    → s'.withdraws_pending ≡ c.our_state.withdraws_pending
    → IsConsistent x (record c { our_state = s' })
removed_sent-IsConsistent x c s' lock moved h sound left paid small same kept =
    ours_updated x c s' h sound (omega (arith, left.locked, h.our_bound, paid))
      (left-IsSolvent c.our_state s' c.partner_state lock moved left small h.our_solvency)
      (receiver-IsSolvent c.our_state s' c.partner_state moved left.pays h.partner_solvency) same
      kept
