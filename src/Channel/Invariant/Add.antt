-- ===== src/Channel/Invariant/Add.antt =====
-- The invariant when a lock is added.
use native.Mathlib.Nat.{le_refl}
use raiden_common.Channel.Balance.{get_amount_locked}
use raiden_common.Channel.Invariant.{Holds, HoldsProof, IsSynced, IsSound, install}
use raiden_common.Channel.Locks.{is_lock_pending, compute_locksroot}
use raiden_common.Channel.Receive.{add_lockedlock}
use raiden_common.Common.{
  ℕ, ◌+◌, ◌≡◌, refl, false, [], ◌∷◌, ◌++◌, arith, list_contains, beq_refl, list_contains-append,
  nat_eq,
}
use raiden_common.Common.Bytes.{bytes_eq}
use raiden_common.Common.Dict.{lookup-insert, sum_values-insert_new}
use raiden_common.Common.Int.{int_eq}
use raiden_common.Common.Keyed.{insert-AllEntries, AllEntries-map}
use raiden_common.External.{External}
use raiden_common.State.{
  HashTimeLockState, BalanceProofState, content_of, PendingLocksState, NettingChannelEndState,
}
use raiden_common.State.Encoding.{Fits}
use raiden_common.State.Make.{encoded}

module _ (s : NettingChannelEndState) (b : BalanceProofState) (lock : HashTimeLockState) where
  abbrev pub added_locks : PendingLocksState
  added_locks = s.pending_locks ++ encoded lock ∷ []

  abbrev pub added : NettingChannelEndState
  added = add_lockedlock (install s b added_locks) lock

  Holds-added : (h : ℕ) (l : HashTimeLockState) → Holds s.pending_locks h l → Holds added_locks h l
  Holds-added h l p = (
    p.0,
    p.1,
    ground (arith, list_contains-append (encoded l) s.pending_locks (encoded lock ∷ []), p.2),
  )

  new-Holds : Fits lock → Holds added_locks lock.secrethash lock
  unfolding list_contains
  new-Holds f = (
    refl,
    f,
    ground (
      arith,
      list_contains-append (encoded lock) s.pending_locks (encoded lock ∷ []),
      beq_refl (encoded lock),
    ),
  )

  pub added-amount :
      is_lock_pending s lock.secrethash ≡ false
      → get_amount_locked added ≡ get_amount_locked s + lock.amount
  unfolding add_lockedlock get_amount_locked is_lock_pending
  added-amount new = omega (
    arith,
    sum_values-insert_new (λ (l : HashTimeLockState). l.amount) lock.secrethash lock
        s.secrethashes_to_lockedlocks (ground arith),
  )

  added-IsSynced :
      IsSynced s → Fits lock → is_lock_pending s lock.secrethash ≡ false → IsSynced added
  unfolding add_lockedlock is_lock_pending
  added-IsSynced h f new = record {
    locked =
        insert-AllEntries (Holds added_locks) lock.secrethash lock s.secrethashes_to_lockedlocks
          (ground arith) (new-Holds f)
          (AllEntries-map _ (Holds added_locks) _ Holds-added h.locked);
    unlocked = AllEntries-map _ (HoldsProof added_locks) _ (λ k u. Holds-added k u.lock) h.unlocked;
    onchain = AllEntries-map _ (HoldsProof added_locks) _ (λ k u. Holds-added k u.lock) h.onchain;
    exclusive = λ k.
        ground (
          arith,
          h.exclusive k,
          lookup-insert lock.secrethash k lock s.secrethashes_to_lockedlocks,
        );
  }

  -- A lock of a new secret hash, with a balance proof for the larger amount, keeps the invariant.
  pub added-IsSound :
      (x : External)
      → IsSound x s
      → Fits lock
      → is_lock_pending s lock.secrethash ≡ false
      → (content_of b).locked_amount ≡ get_amount_locked s + lock.amount
      → (content_of b).locksroot ≡ compute_locksroot x (s.pending_locks ++ encoded lock ∷ [])
      → IsSound x (add_lockedlock (install s b (s.pending_locks ++ encoded lock ∷ [])) lock)
  unfolding add_lockedlock
  added-IsSound x h f new amount root = record {
    synced = added-IsSynced h.synced f new;
    backed = (omega (arith, added-amount new), root, le_refl _);
  }
