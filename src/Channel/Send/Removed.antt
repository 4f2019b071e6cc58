-- ===== src/Channel/Send/Removed.antt =====
-- Unlocks and expired locks that this node sends, and the invariant of its own side.
use raiden_common.Channel.Balance.{get_amount_locked, transferred_of}
use raiden_common.Channel.Invariant.{IsSound}
use raiden_common.Channel.Invariant.Remove.{without_lock, get_lock-Holds, without_lock-IsSound}
use raiden_common.Channel.Locks.{get_lock, compute_locks_without, compute_locksroot}
use raiden_common.Channel.Receive.Removed.{del_lock-known, del_unclaimed_lock-without_lock}
use raiden_common.Channel.Send.{
  apply_balance_proof, UnlockDescription, send_unlock, create_sendexpiredlock, apply_expiredlock,
  send_lock_expired,
}
use raiden_common.Channel.Send.Sound.{
  make_balance_proof-content, create_unlock-IsUnlocked, send_unlock-unlocked,
}
use raiden_common.Channel.Status.{is_state_opened, get_status}
use raiden_common.Channel.Validate.Removal.{compute_locks_without-some, rest_of_sub}
use raiden_common.Common.{ℕ, ◌+◌, ◌≡◌, refl, ◌∙◌, false, Option, none, some, List, arith, nat_eq}
use raiden_common.Common.Bytes.{bytes_eq}
use raiden_common.Common.Dict.{contains}
use raiden_common.Common.Int.{pos, ◌-ℤ◌, int_eq}
use raiden_common.Common.Outcome.{Failure, ok, assert, >>=-eq-ok}
use raiden_common.Events.{SendUnlock, SendLockExpired}
use raiden_common.External.{CanonicalIdentifier, External}
use raiden_common.State.{
  HashTimeLockState, BalanceProofUnsignedState, unsigned, PendingLocksState, NettingChannelEndState,
  NettingChannelState,
}
use raiden_common.State.Make.{encoded, make_balance_proof}

-- Our side is sound after a lock has left it with a balance proof over the rest.
pub sent-IsSound :
    (x : External) (s : NettingChannelEndState) (b : BalanceProofUnsignedState) (h nonce t : ℕ)
    (id : CanonicalIdentifier) (lock : HashTimeLockState) (locks : PendingLocksState)
    → IsSound x s
    → get_lock s h ≡ some lock
    → compute_locks_without s.pending_locks (encoded lock) ≡ some locks
    → make_balance_proof nonce t
        (pos (get_amount_locked s) -ℤ pos lock.amount)
        (compute_locksroot x locks)
        id
      ≡ ok b
    → IsSound x (without_lock (apply_balance_proof s b locks) h)
unfolding apply_balance_proof
sent-IsSound x s b h nonce t id lock locks sound known taken made =
    let content = make_balance_proof-content _ _ _ _ _ made in
    let rest = compute_locks_without-some s.pending_locks (encoded lock) taken in
    rw rest.1 (
      without_lock-IsSound s h lock x (unsigned b) sound known
        (rest_of_sub b.locked_amount (get_amount_locked s) lock.amount content.2)
        (rw (← rest.1) content.3))

pub get_lock-apply_balance_proof :
    (s : NettingChannelEndState) (b : BalanceProofUnsignedState) (locks : PendingLocksState) (h : ℕ)
    → get_lock (apply_balance_proof s b locks) h ≡ get_lock s h
unfolding get_lock apply_balance_proof
get_lock-apply_balance_proof s b locks h = refl

-- An unlock that was sent leaves our side sound.
pub send_unlock-IsSound :
    (x : External) (c : NettingChannelState) (u : UnlockDescription) (block_number : ℕ)
    (e : SendUnlock) (c' : NettingChannelState)
    → IsSound x c.our_state
    → send_unlock x c u block_number ≡ ok (e, c')
    → IsSound x c'.our_state
send_unlock-IsSound x c u block_number e c' sound h =
    let (lock, made, known, created, _, s, deleted, after) =
      send_unlock-unlocked x c u block_number e c' h in
    let facts = create_unlock-IsUnlocked x c u lock block_number made.0 made.1 created in
    let filed = (get_lock-Holds c.our_state u.secrethash lock sound.synced known).0 in
    let left =
      del_lock-known (apply_balance_proof c.our_state made.0.balance_proof made.1) u.secrethash (
        get_lock-apply_balance_proof c.our_state made.0.balance_proof made.1 u.secrethash
        ∙ known) in
    let same : without_lock (apply_balance_proof c.our_state made.0.balance_proof made.1)
          u.secrethash
        ≡ s =
      cc (left, deleted, filed) in
    rw (← after, ← same)
      (sent-IsSound x c.our_state made.0.balance_proof u.secrethash _ _ _ lock made.1 sound known
        facts.removed facts.balance_proof)

-- What holds when an expired lock has been created.
pub create_sendexpiredlock-made :
    (x : External) (c : NettingChannelState) (lock : HashTimeLockState) (draws : ℕ) (m : Option ℕ)
    (e : SendLockExpired) (locks : PendingLocksState)
    → create_sendexpiredlock x c lock draws m ≡ ok (some (e, locks))
    → (compute_locks_without c.our_state.pending_locks (encoded lock) ≡ some locks)
      × (make_balance_proof
            (c.our_state.nonce + 1)
            (transferred_of c.our_state.balance_proof)
            (pos (get_amount_locked c.our_state) -ℤ pos lock.amount)
            (compute_locksroot x locks)
            c.canonical_identifier
          ≡ ok e.balance_proof)
unfolding create_sendexpiredlock
create_sendexpiredlock-made x c lock draws m e locks h = ground arith

apply_expiredlock-IsSound :
    (x : External) (c : NettingChannelState) (lock : HashTimeLockState) (draws : ℕ) (m : Option ℕ)
    (created : Option (SendLockExpired × PendingLocksState))
    → IsSound x c.our_state
    → get_lock c.our_state lock.secrethash ≡ some lock
    → contains lock.secrethash c.our_state.secrethashes_to_onchain_unlockedlocks ≡ false
    → create_sendexpiredlock x c lock draws m ≡ ok created
    → IsSound x (apply_expiredlock c lock draws created).1.our_state
unfolding apply_expiredlock apply_balance_proof
apply_expiredlock-IsSound x c lock draws m none sound known offchain e = sound
apply_expiredlock-IsSound x c lock draws m (some (message, locks)) sound known offchain e =
    let facts = create_sendexpiredlock-made x c lock draws m message locks e in
    rw
      (del_unclaimed_lock-without_lock (apply_balance_proof c.our_state message.balance_proof locks)
        lock.secrethash offchain)
      (sent-IsSound x c.our_state message.balance_proof lock.secrethash _ _ _ lock locks sound known
        facts.0 facts.1)

-- Announcing that a lock has expired, where the lock stands under its secret hash and was not
-- unlocked on-chain, leaves our side sound.
pub send_lock_expired-IsSound :
    (x : External) (c : NettingChannelState) (lock : HashTimeLockState) (draws : ℕ) (m : Option ℕ)
    (events : List SendLockExpired) (c' : NettingChannelState) (draws' : ℕ)
    → IsSound x c.our_state
    → get_lock c.our_state lock.secrethash ≡ some lock
    → contains lock.secrethash c.our_state.secrethashes_to_onchain_unlockedlocks ≡ false
    → send_lock_expired x c lock draws m ≡ ok (events, c', draws')
    → IsSound x c'.our_state
unfolding send_lock_expired
send_lock_expired-IsSound x c lock draws m events c' draws' sound known offchain h =
    let (_, opened, h1) =
      >>=-eq-ok (assert (is_state_opened (get_status c)) Failure.channel_not_open) _ h in
    let (created, e, h2) = >>=-eq-ok (create_sendexpiredlock x c lock draws m) _ h1 in
    let same : (apply_expiredlock c lock draws created).1 ≡ c' = cc h2 in
    rw (← same) (apply_expiredlock-IsSound x c lock draws m created sound known offchain e)
