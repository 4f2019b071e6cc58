-- ===== src/Channel/Send/Leaves.antt =====
-- Unlocks and expired locks that this node sends: the amounts, and the invariant of the channel.
use native.Mathlib.Nat.{le_refl}
use raiden_common.Channel.Invariant.{IsSound}
use raiden_common.Channel.Invariant.Moves.{LeavesLock}
use raiden_common.Channel.Invariant.Remove.{without_lock, get_lock-Holds}
use raiden_common.Channel.Locks.{is_lock_expired, is_ok, get_lock}
use raiden_common.Channel.Receive.Removed.{del_lock-known}
use raiden_common.Channel.Sanity.Consistent.{IsConsistent}
use raiden_common.Channel.Send.{apply_balance_proof, UnlockDescription, send_unlock}
use raiden_common.Channel.Send.Consistent.{removed_sent_moves, removed_sent-IsConsistent}
use raiden_common.Channel.Send.Removed.{sent-IsSound, get_lock-apply_balance_proof}
use raiden_common.Channel.Send.Sound.{IsUnlocked, create_unlock-IsUnlocked, send_unlock-unlocked}
use raiden_common.Common.{ℕ, ◌≡◌, refl, sym, ◌∙◌, subst, false, some, arith, nat_eq}
use raiden_common.Common.Bytes.{bytes_eq}
use raiden_common.Common.Int.{int_eq}
use raiden_common.Common.Outcome.{ok}
use raiden_common.Events.{SendUnlock}
use raiden_common.External.{External}
use raiden_common.State.{HashTimeLockState, PendingLocksState, NettingChannelState}

-- What `send_unlock` leaves behind.
pub record Unlocks (x : External) (c : NettingChannelState) (u : UnlockDescription)
    (block_number : ℕ) (e : SendUnlock) (c' : NettingChannelState) : Type 0 where
  pub lock : HashTimeLockState
  pub locks : PendingLocksState
  pub known : get_lock c.our_state u.secrethash ≡ some lock
  pub facts : IsUnlocked x c lock block_number e.balance_proof locks
  pub after : c' ≡ record c {
    our_state = without_lock (apply_balance_proof c.our_state e.balance_proof locks) u.secrethash;
  }

pub send_unlock-Unlocks :
    (x : External) (c : NettingChannelState) (u : UnlockDescription) (block_number : ℕ)
    (e : SendUnlock) (c' : NettingChannelState)
    → IsSound x c.our_state
    → send_unlock x c u block_number ≡ ok (e, c')
    → Unlocks x c u block_number e c'
send_unlock-Unlocks x c u block_number e c' sound h =
    let (lock, made, known, created, same_event, s, deleted, after) =
      send_unlock-unlocked x c u block_number e c' h in
    let facts = create_unlock-IsUnlocked x c u lock block_number made.0 made.1 created in
    let filed = (get_lock-Holds c.our_state u.secrethash lock sound.synced known).0 in
    let left =
      del_lock-known (apply_balance_proof c.our_state made.0.balance_proof made.1) u.secrethash (
        get_lock-apply_balance_proof c.our_state made.0.balance_proof made.1 u.secrethash
        ∙ known) in
    let same : s
        ≡ without_lock (apply_balance_proof c.our_state made.0.balance_proof made.1) u.secrethash =
      cc (left, deleted, filed) in
    record {
      lock = lock;
      locks = made.1;
      known = known;
      facts =
          subst (λ (m : SendUnlock). IsUnlocked x c lock block_number m.balance_proof made.1)
            same_event facts;
      after = sym after ∙ (λ i. record c { our_state = same i }) ∙ (λ i. record c {
        our_state =
            without_lock (apply_balance_proof c.our_state (same_event i).balance_proof made.1)
              u.secrethash;
      });
    }

-- An unlock that was sent on a consistent channel names a lock of ours that has not expired, and
-- pays exactly its amount to the partner; the channel stays consistent.
pub send_unlock-IsConsistent :
    (x : External) (c : NettingChannelState) (u : UnlockDescription) (block_number : ℕ)
    (e : SendUnlock) (c' : NettingChannelState)
    → IsConsistent x c
    → send_unlock x c u block_number ≡ ok (e, c')
    → (lock : HashTimeLockState) × (get_lock c.our_state u.secrethash ≡ some lock)
      × (is_ok (is_lock_expired c.our_state lock block_number lock.expiration) ≡ false)
      × LeavesLock c.our_state c'.our_state c.partner_state lock lock.amount
      × IsConsistent x c'
unfolding apply_balance_proof
send_unlock-IsConsistent x c u block_number e c' h sent =
    let w = send_unlock-Unlocks x c u block_number e c' h.ours sent in
    let s' = without_lock (apply_balance_proof c.our_state e.balance_proof w.locks) u.secrethash in
    let (left, paid) =
      removed_sent_moves x c e.balance_proof u.secrethash _ w.lock w.lock.amount w.locks
        (omega arith) w.facts.balance_proof w.known h.ours in
    let sound =
      sent-IsSound x c.our_state e.balance_proof u.secrethash _ _ _ w.lock w.locks h.ours w.known
        w.facts.removed w.facts.balance_proof in
    (
      w.lock,
      w.known,
      w.facts.not_expired,
      rw w.after left,
      rw w.after (
          removed_sent-IsConsistent x c s' w.lock w.lock.amount h sound left paid (le_refl _) refl
            refl),
    )
