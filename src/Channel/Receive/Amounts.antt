-- ===== src/Channel/Receive/Amounts.antt =====
-- What each accepted message with a balance proof does to the amounts of the partner's side.
use raiden_common.Channel.Balance.{get_amount_locked, transferred_of}
use raiden_common.Channel.Balance.Conserve.{IsSolvent, get_balance-moved}
use raiden_common.Channel.Invariant.{IsSound, current-locked_amount}
use raiden_common.Channel.Invariant.Add.{added-amount}
use raiden_common.Channel.Invariant.Moves.{
  Pays, IsBounded, TakesLock, LeavesLock, transferred-current, taken-IsSolvent,
}
use raiden_common.Channel.Invariant.Remove.{without_lock, without_lock-amount}
use raiden_common.Channel.Locks.{is_lock_pending, get_lock}
use raiden_common.Channel.Receive.{
  Handled, accept_balance_proof, add_lockedlock, handle_receive_lockedtransfer,
  handle_receive_lock_expired, handle_unlock,
}
use raiden_common.Channel.Receive.Removed.{unlock_cases, lock_expired_cases}
use raiden_common.Channel.Receive.Sound.{Refuses, lockedtransfer_cases}
use raiden_common.Channel.Validate.Accepted.{AcceptsTransfer}
use raiden_common.Channel.Validate.Removal.{AcceptsRemoval}
use raiden_common.Common.{ℕ, ◌+◌, ◌≤◌, ◌≡◌, refl, ◌⊎◌, inl, inr, false, Option, some, arith, length}
use raiden_common.Common.Outcome.{ok}
use raiden_common.Events.{LockedTransferSignedState, ReceiveUnlock, ReceiveLockExpired}
use raiden_common.External.{External}
use raiden_common.State.{
  maximum_pending_transfers, default_number_of_block_confirmations, HashTimeLockState,
  BalanceProofSignedState, signed, PendingLocksState, NettingChannelEndState, NettingChannelState,
  offchain_total_withdraw, total_withdraw,
}

received-Pays :
    (s : NettingChannelEndState) (lock : HashTimeLockState) (b : BalanceProofSignedState)
    (locks : PendingLocksState) (r : NettingChannelEndState)
    → b.transferred_amount ≡ transferred_of s.balance_proof + 0
    → Pays s (add_lockedlock (accept_balance_proof s b locks) lock) r 0
unfolding accept_balance_proof add_lockedlock total_withdraw offchain_total_withdraw
received-Pays s lock b locks r sent =
    get_balance-moved s (add_lockedlock (accept_balance_proof s b locks) lock) r 0 refl refl sent

received_nonce :
    (s : NettingChannelEndState) (lock : HashTimeLockState) (b : BalanceProofSignedState)
    (locks : PendingLocksState)
    → (add_lockedlock (accept_balance_proof s b locks) lock).nonce ≡ b.nonce
unfolding accept_balance_proof add_lockedlock
received_nonce s lock b locks = refl

-- The sender's side after a locked transfer was accepted.
pub received_moves :
    (x : External) (c : NettingChannelState) (s r : NettingChannelEndState)
    (b : BalanceProofSignedState) (lock : HashTimeLockState) (locks : PendingLocksState)
    → AcceptsTransfer x c s r b lock locks
    → IsSound x s
    → is_lock_pending s lock.secrethash ≡ false
    → TakesLock s (add_lockedlock (accept_balance_proof s b locks) lock) r lock
      × IsBounded (add_lockedlock (accept_balance_proof s b locks) lock)
      × IsSolvent (add_lockedlock (accept_balance_proof s b locks) lock) r
unfolding accept_balance_proof add_lockedlock
received_moves x c s r b lock locks a sound new =
    let after = add_lockedlock (accept_balance_proof s b locks) lock in
    let sent : b.transferred_amount ≡ transferred_of s.balance_proof + 0 =
      omega (arith, a.transferred, transferred-current x s) in
    let locked : get_amount_locked after ≡ get_amount_locked s + lock.amount =
      rw a.appended (added-amount s (signed b) lock new) in
    let pays : Pays s after r 0 = received-Pays s lock b locks r sent in
    (
      record { nonce = a.usable.nonce; locked = locked; pays = pays },
      omega (arith, a.usable.bounded, a.locked, current-locked_amount x s sound, locked),
      taken-IsSolvent x s after r lock.amount a.covered locked pays,
    )

removed-Pays :
    (s : NettingChannelEndState) (h : ℕ) (b : BalanceProofSignedState) (locks : PendingLocksState)
    (r : NettingChannelEndState) (moved : ℕ)
    → b.transferred_amount ≡ transferred_of s.balance_proof + moved
    → Pays s (without_lock (accept_balance_proof s b locks) h) r moved
unfolding accept_balance_proof total_withdraw offchain_total_withdraw
removed-Pays s h b locks r moved sent =
    get_balance-moved s (without_lock (accept_balance_proof s b locks) h) r moved refl refl sent

removed_amount :
    (s : NettingChannelEndState) (h : ℕ) (b : BalanceProofSignedState) (locks : PendingLocksState)
    → get_amount_locked (without_lock (accept_balance_proof s b locks) h)
      ≡ get_amount_locked (without_lock s h)
unfolding accept_balance_proof get_amount_locked
removed_amount s h b locks = refl

-- The sender's side after one of its locks was removed.
pub removed_moves :
    (x : External) (c : NettingChannelState) (s r : NettingChannelEndState)
    (b : BalanceProofSignedState) (h : ℕ) (lock : HashTimeLockState) (moved : ℕ)
    (locks : PendingLocksState)
    → get_lock s h ≡ some lock
    → AcceptsRemoval x c s b lock moved locks
    → IsSound x s
    → LeavesLock s (without_lock (accept_balance_proof s b locks) h) r lock moved
      × IsBounded (without_lock (accept_balance_proof s b locks) h)
unfolding accept_balance_proof
removed_moves x c s r b h lock moved locks known a sound =
    let sent : b.transferred_amount ≡ transferred_of s.balance_proof + moved =
      omega (arith, a.transferred, transferred-current x s) in
    let locked = without_lock-amount s h lock sound.synced known in
    let same = removed_amount s h b locks in
    (
      record {
        nonce = a.usable.nonce;
        locked = omega (arith, locked, same);
        pays = removed-Pays s h b locks r moved sent;
      },
      omega (arith, a.usable.bounded, a.locked, current-locked_amount x s sound, locked, same),
    )

-- Where the partner's side is sound and the secret hash is not in use there, a received locked
-- transfer is refused and changes nothing, or it takes the next nonce, adds exactly its lock to
-- what the partner has locked, keeps both balances and our side, leaves at most 160 pending locks,
-- and leaves the partner able to pay all that it has locked.
pub handle_receive_lockedtransfer-TakesLock :
    (x : External) (c : NettingChannelState) (t : LockedTransferSignedState) (m : Option ℕ)
    → IsSound x c.partner_state
    → is_lock_pending c.partner_state t.lock.secrethash ≡ false
    → Refuses c (handle_receive_lockedtransfer x c t m)
      ⊎ (TakesLock c.partner_state
            (handle_receive_lockedtransfer x c t m).channel.partner_state
            c.our_state
            t.lock
          × IsSolvent (handle_receive_lockedtransfer x c t m).channel.partner_state c.our_state
          × (length (handle_receive_lockedtransfer x c t m).channel.partner_state.pending_locks
              ≤ maximum_pending_transfers)
          × ((handle_receive_lockedtransfer x c t m).channel.our_state ≡ c.our_state))
unfolding accept_balance_proof add_lockedlock
handle_receive_lockedtransfer-TakesLock x c t m sound new = elim (lockedtransfer_cases x c t m) [
  | inl refusal ↦ inl refusal
  | inr (locks, a, after) ↦
      let facts =
        received_moves x c c.partner_state c.our_state t.balance_proof t.lock locks a sound new in
      inr (rw after.1 (facts.0, facts.2, a.few, refl))
]

-- Where the partner's side is sound, the handler of unlocks returns, and a received unlock is
-- refused and changes nothing, or it names a lock of the partner, takes the next nonce, takes this
-- lock from what the partner has locked, pays exactly its amount to us, and keeps the rest of our
-- side.
pub handle_unlock-LeavesLock :
    (x : External) (c : NettingChannelState) (u : ReceiveUnlock) (m : Option ℕ)
    → IsSound x c.partner_state
    → (r : Handled) × (handle_unlock x c u m ≡ ok r)
      × (Refuses c r
          ⊎ ((lock : HashTimeLockState) × (get_lock c.partner_state u.secrethash ≡ some lock)
              × LeavesLock c.partner_state r.channel.partner_state c.our_state lock lock.amount
              × (r.channel.our_state ≡ c.our_state)))
handle_unlock-LeavesLock x c u m sound =
    let (r, e, cases) = unlock_cases x c u m in
    (
      r,
      e,
      elim cases [
        | inl refusal ↦ inl refusal
        | inr (lock, locks, known, a, after) ↦
            let facts =
              removed_moves x c c.partner_state c.our_state u.balance_proof u.secrethash lock
                lock.amount locks known a sound in
            inr (lock, known, rw after.1 facts.0, rw after.1 refl)
      ],
    )

-- Where the partner's side is sound, a received expiration is refused and changes nothing, or it
-- takes the next nonce and takes from the partner's locked amount a lock that expired at least five
-- blocks ago, and moves no tokens.
pub handle_receive_lock_expired-LeavesLock :
    (x : External) (c : NettingChannelState) (e : ReceiveLockExpired) (block_number : ℕ)
    (m : Option ℕ)
    → IsSound x c.partner_state
    → Refuses c (handle_receive_lock_expired x c e block_number m)
      ⊎ ((lock : HashTimeLockState) × (get_lock c.partner_state e.secrethash ≡ some lock)
          × (lock.expiration + default_number_of_block_confirmations ≤ block_number)
          × LeavesLock c.partner_state
              (handle_receive_lock_expired x c e block_number m).channel.partner_state
              c.our_state
              lock
              0
          × ((handle_receive_lock_expired x c e block_number m).channel.our_state ≡ c.our_state))
handle_receive_lock_expired-LeavesLock x c e block_number m sound =
    elim (lock_expired_cases x c e block_number m) [
      | inl refusal ↦ inl refusal
      | inr (lock, locks, known, late, a, after) ↦
          let facts =
            removed_moves x c c.partner_state c.our_state e.balance_proof e.secrethash lock 0 locks
              known a sound in
          inr (lock, known, late, rw after.1 facts.0, rw after.1 refl)
    ]
