-- ===== src/Channel/Invariant/Remove.antt =====
-- The invariant when a lock is removed.
use native.Mathlib.Nat.{le_refl}
use raiden_common.Channel.Balance.{get_amount_locked}
use raiden_common.Channel.Invariant.{Holds, HoldsProof, IsSynced, IsSound, install}
use raiden_common.Channel.Locks.{lock_of, get_lock, compute_locksroot}
use raiden_common.Common.{
  ℕ, ◌+◌, ◌≡◌, refl, sym, ap, ◌∙◌, subst, ◌≢◌, ◌⊎◌, inl, inr, false, Option, none, some, arith,
  Bool-cases, Option-cases, ◌==◌, list_remove, list_contains-remove_ne, or_else, nat_eq,
}
use raiden_common.Common.Bytes.{bytes_beq, bytes_beq_iff, bytes_eq}
use raiden_common.Common.Dict.{
  Dict, lookup, erase, lookup-erase_ne, erase-absent, sum_values, sum_values-erase,
}
use raiden_common.Common.Int.{int_eq}
use raiden_common.Common.Keyed.{
  AllEntries, lookup-AllEntries, erase-AllEntries, lookup-erase_self, AllEntries-map_without,
}
use raiden_common.External.{External}
use raiden_common.State.{
  HashTimeLockState, UnlockPartialProofState, BalanceProofState, content_of, PendingLocksState,
  NettingChannelEndState,
}
use raiden_common.State.Encoding.{encoded-injective}
use raiden_common.State.Make.{encoded}

-- `get_lock` finds the lock in exactly one map, as the invariant says.
abbrev pub without_lock : NettingChannelEndState → ℕ → NettingChannelEndState
without_lock s h = record s {
  secrethashes_to_lockedlocks = erase h s.secrethashes_to_lockedlocks;
  secrethashes_to_unlockedlocks = erase h s.secrethashes_to_unlockedlocks;
  secrethashes_to_onchain_unlockedlocks = erase h s.secrethashes_to_onchain_unlockedlocks;
}

-- The part of the amount that a map loses when `h` is erased.
abbrev loss {ℓ} : {V : Type ℓ} → (V → ℕ) → Option V → ℕ
loss f none = 0
loss f (some v) = f v

sum_values-erase-loss {ℓ} :
    {V : Type ℓ} (f : V → ℕ) (h : ℕ) (d : Dict ℕ V)
    → sum_values f (erase h d) + loss f (lookup h d) ≡ sum_values f d
sum_values-erase-loss f h d = elim (Option-cases (lookup h d)) [
  | inl e ↦ rw (e, erase-absent h d e) (omega arith)
  | inr (v, e) ↦ rw e (sum_values-erase f h v d e)
]

-- Where `get_lock` and `expiring_lock` find a lock.
found_in :
    (a : Option HashTimeLockState) (b c : Option UnlockPartialProofState) (lock : HashTimeLockState)
    → or_else a (or_else (lock_of b) (lock_of c)) ≡ some lock
    → (a ≡ some lock)
      ⊎ ((u : UnlockPartialProofState) × (b ≡ some u) × (u.lock ≡ lock))
      ⊎ ((u : UnlockPartialProofState) × (c ≡ some u) × (u.lock ≡ lock))
found_in (some a) b c lock e = inl e
found_in none (some u) c lock e = inr (inl (u, refl, ground arith))
found_in none none (some u) lock e = inr (inr (u, refl, ground arith))
found_in none none none lock e = cc

-- Removing one lock from the pending locks keeps every lock of another secret hash there.
Holds-removed :
    (pending : PendingLocksState) (h : ℕ) (lock : HashTimeLockState)
    → Holds pending h lock
    → (k : ℕ) (l : HashTimeLockState) → k ≢ h
    → Holds pending k l
    → Holds (list_remove (encoded lock) pending) k l
Holds-removed pending h lock p k l ne q =
    (q.0, q.1, list_contains-remove_ne (encoded l) (encoded lock) pending differ q.2)
  where
    apart : encoded l ≢ encoded lock
    apart e = ne (
        sym q.0
        ∙ ap (λ (m : HashTimeLockState). m.secrethash) (encoded-injective l lock q.1 p.1 e)
        ∙ p.0)

    differ : bytes_beq (encoded l) (encoded lock) ≡ false
    differ = elim (Bool-cases (bytes_beq (encoded l) (encoded lock))) [
      | inl e ↦ absurd (apart ((bytes_beq_iff _ _).0 e))
      | inr e ↦ e
    ]

module _ (s : NettingChannelEndState) (h : ℕ) (lock : HashTimeLockState) where
  pub without_lock-amount :
      IsSynced s
      → get_lock s h ≡ some lock
      → get_amount_locked (without_lock s h) + lock.amount ≡ get_amount_locked s
  unfolding get_lock get_amount_locked
  without_lock-amount v found = ground (
    arith,
    v.exclusive h,
    sum_values-erase-loss (λ (l : HashTimeLockState). l.amount) h s.secrethashes_to_lockedlocks,
    sum_values-erase-loss (λ (u : UnlockPartialProofState). u.lock.amount) h
        s.secrethashes_to_unlockedlocks,
    sum_values-erase-loss (λ (u : UnlockPartialProofState). u.lock.amount) h
        s.secrethashes_to_onchain_unlockedlocks,
  )

  pub get_lock-Holds : IsSynced s → get_lock s h ≡ some lock → Holds s.pending_locks h lock
  unfolding get_lock
  get_lock-Holds v found =
      elim (found_in (lookup h s.secrethashes_to_lockedlocks)
        (lookup h s.secrethashes_to_unlockedlocks)
        (lookup h s.secrethashes_to_onchain_unlockedlocks) lock found) [
          | inl e ↦
              lookup-AllEntries (Holds s.pending_locks) h lock s.secrethashes_to_lockedlocks
                v.locked e
          | inr (inl (u, e, same)) ↦ subst (Holds s.pending_locks h) same (
              lookup-AllEntries (HoldsProof s.pending_locks) h u s.secrethashes_to_unlockedlocks
                v.unlocked e)
          | inr (inr (u, e, same)) ↦ subst (Holds s.pending_locks h) same (
              lookup-AllEntries (HoldsProof s.pending_locks) h u
                s.secrethashes_to_onchain_unlockedlocks v.onchain e)
        ]

  abbrev kept_locks : PendingLocksState
  kept_locks = list_remove (encoded lock) s.pending_locks

  -- A map without the secret hash of the lock still agrees with the pending locks.
  AllEntries-kept :
      (d : Dict ℕ HashTimeLockState)
      → Holds s.pending_locks h lock
      → AllEntries (Holds s.pending_locks) d
      → AllEntries (Holds kept_locks) (erase h d)
  AllEntries-kept d p v =
      AllEntries-map_without (Holds s.pending_locks) (Holds kept_locks) h (erase h d)
        (lookup-erase_self (Holds s.pending_locks) h d v) (Holds-removed s.pending_locks h lock p)
        (erase-AllEntries (Holds s.pending_locks) h d v)

  AllEntries-kept_proof :
      (d : Dict ℕ UnlockPartialProofState)
      → Holds s.pending_locks h lock
      → AllEntries (HoldsProof s.pending_locks) d
      → AllEntries (HoldsProof kept_locks) (erase h d)
  AllEntries-kept_proof d p v =
      AllEntries-map_without (HoldsProof s.pending_locks) (HoldsProof kept_locks) h (erase h d)
        (lookup-erase_self (HoldsProof s.pending_locks) h d v)
        (λ k u. Holds-removed s.pending_locks h lock p k u.lock)
        (erase-AllEntries (HoldsProof s.pending_locks) h d v)

  -- The maps and the pending locks agree after the lock has left them all.
  pub without_lock-IsSynced :
      (b : BalanceProofState)
      → IsSynced s
      → get_lock s h ≡ some lock
      → IsSynced (without_lock (install s b (list_remove (encoded lock) s.pending_locks)) h)
  without_lock-IsSynced b v found =
      let p = get_lock-Holds v found in
      record {
        locked = AllEntries-kept s.secrethashes_to_lockedlocks p v.locked;
        unlocked = AllEntries-kept_proof s.secrethashes_to_unlockedlocks p v.unlocked;
        onchain = AllEntries-kept_proof s.secrethashes_to_onchain_unlockedlocks p v.onchain;
        exclusive = λ k. elim (Bool-cases (k == h)) [
          | inl same ↦ ground (
            arith,
            lookup-erase_self (Holds s.pending_locks) h s.secrethashes_to_lockedlocks v.locked,
            lookup-erase_self (HoldsProof s.pending_locks) h s.secrethashes_to_unlockedlocks
                v.unlocked,
            lookup-erase_self (HoldsProof s.pending_locks) h s.secrethashes_to_onchain_unlockedlocks
                v.onchain,
          )
          | inr other ↦ ground (
            arith,
            v.exclusive k,
            lookup-erase_ne h k s.secrethashes_to_lockedlocks other,
            lookup-erase_ne h k s.secrethashes_to_unlockedlocks other,
            lookup-erase_ne h k s.secrethashes_to_onchain_unlockedlocks other,
          )
        ];
      }

  -- With a balance proof for the smaller amount, removing a lock keeps the invariant.
  pub without_lock-IsSound :
      (x : External) (b : BalanceProofState)
      → IsSound x s
      → get_lock s h ≡ some lock
      → (content_of b).locked_amount + lock.amount ≡ get_amount_locked s
      → (content_of b).locksroot ≡ compute_locksroot x (list_remove (encoded lock) s.pending_locks)
      → IsSound x (without_lock (install s b (list_remove (encoded lock) s.pending_locks)) h)
  unfolding get_amount_locked
  without_lock-IsSound x b v found amount root = record {
    synced = without_lock-IsSynced b v.synced found;
    backed = (removed_amount, root, le_refl _);
  }
    where
      same_maps :
          get_amount_locked (without_lock (install s b kept_locks) h)
          ≡ get_amount_locked (without_lock s h)
      same_maps = refl

      removed_amount :
          (content_of b).locked_amount ≡ get_amount_locked (without_lock (install s b kept_locks) h)
      removed_amount = omega (arith, same_maps, without_lock-amount v.synced found)
