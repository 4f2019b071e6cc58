-- ===== src/Channel/Locks/OnchainSecret.antt =====
-- Registering a secret on-chain, and the invariant of a side.
use raiden_common.Channel.Balance.{get_amount_locked}
use raiden_common.Channel.Invariant.{Holds, HoldsProof, IsSynced, IsSound}
use raiden_common.Channel.Invariant.Remove.{without_lock, without_lock-amount, get_lock-Holds}
use raiden_common.Channel.Locks.{
  get_lock, unclaimed_lock, add_onchain, register_onchain_secret_endstate,
}
use raiden_common.Channel.Locks.Secrets.{same-IsBackedBy}
use raiden_common.Channel.Receive.Removed.{del_lock-known}
use raiden_common.Common.{
  ℕ, ◌≡◌, refl, ◌⊎◌, inl, inr, true, some, arith, ltb, Bool-cases, Option-cases, ◌==◌, nat_eq,
}
use raiden_common.Common.Bytes.{bytes_eq}
use raiden_common.Common.Dict.{erase, lookup-insert, lookup-erase_ne, sum_values-insert_new}
use raiden_common.Common.Int.{int_eq}
use raiden_common.Common.Keyed.{insert-AllEntries, erase-AllEntries, lookup-erase_self}
use raiden_common.Common.Outcome.{ok}
use raiden_common.External.{External}
use raiden_common.State.{HashTimeLockState, UnlockPartialProofState, NettingChannelEndState}

abbrev pub onchain_at : NettingChannelEndState → ℕ → ℕ → HashTimeLockState → NettingChannelEndState
onchain_at s secret h lock = add_onchain (without_lock s h) lock secret h

abbrev pub claim_of : ℕ → HashTimeLockState → UnlockPartialProofState
claim_of secret lock = record { lock = lock; secret = secret }

unclaimed_lock-get_lock :
    (s : NettingChannelEndState) (h : ℕ) {lock : HashTimeLockState}
    → IsSynced s
    → unclaimed_lock s h ≡ some lock
    → get_lock s h ≡ some lock
unfolding unclaimed_lock get_lock
unclaimed_lock-get_lock s h v e = ground (arith, v.exclusive h)

onchain_at-amount :
    (s : NettingChannelEndState) (secret h : ℕ) (lock : HashTimeLockState)
    → IsSynced s
    → get_lock s h ≡ some lock
    → get_amount_locked (onchain_at s secret h lock) ≡ get_amount_locked s
unfolding get_amount_locked
onchain_at-amount s secret h lock v known = omega (
  arith,
  without_lock-amount s h lock v known,
  sum_values-insert_new (λ (u : UnlockPartialProofState). u.lock.amount) h (claim_of secret lock)
      (erase h s.secrethashes_to_onchain_unlockedlocks)
      (lookup-erase_self (HoldsProof s.pending_locks) h s.secrethashes_to_onchain_unlockedlocks
        v.onchain),
)

onchain_at-IsSynced :
    (s : NettingChannelEndState) (secret h : ℕ) (lock : HashTimeLockState)
    → IsSynced s
    → get_lock s h ≡ some lock
    → IsSynced (onchain_at s secret h lock)
onchain_at-IsSynced s secret h lock v known =
    let gone =
      lookup-erase_self (HoldsProof s.pending_locks) h s.secrethashes_to_onchain_unlockedlocks
        v.onchain in
    record {
      locked = erase-AllEntries (Holds s.pending_locks) h s.secrethashes_to_lockedlocks v.locked;
      unlocked =
          erase-AllEntries (HoldsProof s.pending_locks) h s.secrethashes_to_unlockedlocks
            v.unlocked;
      onchain =
          insert-AllEntries (HoldsProof s.pending_locks) h (claim_of secret lock)
            (erase h s.secrethashes_to_onchain_unlockedlocks) gone (get_lock-Holds s h lock v known)
            (erase-AllEntries (HoldsProof s.pending_locks) h s.secrethashes_to_onchain_unlockedlocks
              v.onchain);
      exclusive = λ k. elim (Bool-cases (k == h)) [
        | inl same ↦ ground (
          arith,
          lookup-erase_self (Holds s.pending_locks) h s.secrethashes_to_lockedlocks v.locked,
          lookup-erase_self (HoldsProof s.pending_locks) h s.secrethashes_to_unlockedlocks
              v.unlocked,
        )
        | inr other ↦ ground (
          arith,
          v.exclusive k,
          lookup-erase_ne h k s.secrethashes_to_lockedlocks other,
          lookup-erase_ne h k s.secrethashes_to_unlockedlocks other,
          lookup-erase_ne h k s.secrethashes_to_onchain_unlockedlocks other,
          lookup-insert h k (claim_of secret lock)
              (erase h s.secrethashes_to_onchain_unlockedlocks),
        )
      ];
    }

-- Registering a secret on-chain does nothing, or moves the lock that it is for.
pub register_onchain_secret_endstate-cases :
    (s : NettingChannelEndState) (secret h block_number : ℕ)
    → IsSynced s
    → (register_onchain_secret_endstate s secret h block_number true ≡ ok s)
      ⊎ ((lock : HashTimeLockState) × (get_lock s h ≡ some lock)
          × (register_onchain_secret_endstate s secret h block_number true
              ≡ ok (onchain_at s secret h lock)))
unfolding register_onchain_secret_endstate
register_onchain_secret_endstate-cases s secret h block_number v =
    elim (Option-cases (unclaimed_lock s h)) [
      | inl e ↦ inl (rw (e, register_onchain_secret_endstate) refl)
      | inr (lock, e) ↦ elim (Bool-cases (ltb lock.expiration block_number)) [
        | inl late ↦ inl (rw (e, register_onchain_secret_endstate, late) refl)
        | inr early ↦
            let known = unclaimed_lock-get_lock s h v e in
            inr (
              lock,
              known,
              rw (e, register_onchain_secret_endstate, early, del_lock-known s h known) refl,
            )
      ]
    ]

-- Registering a secret on-chain, with the lock deleted where it was, never raises on a sound side;
-- the side stays sound and its locked amount stays the same.
pub register_onchain_secret_endstate-IsSound :
    (x : External) (s : NettingChannelEndState) (secret h block_number : ℕ)
    → IsSound x s
    → (s' : NettingChannelEndState) × (register_onchain_secret_endstate s secret h block_number true
        ≡ ok s')
      × IsSound x s'
      × (get_amount_locked s' ≡ get_amount_locked s)
register_onchain_secret_endstate-IsSound x s secret h block_number v =
    elim (register_onchain_secret_endstate-cases s secret h block_number v.synced) [
      | inl same ↦ (s, same, v, refl)
      | inr (lock, known, after) ↦
          let amount = onchain_at-amount s secret h lock v.synced known in
          (
            onchain_at s secret h lock,
            after,
            record {
              synced = onchain_at-IsSynced s secret h lock v.synced known;
              backed =
                  same-IsBackedBy x s (onchain_at s secret h lock) s.balance_proof amount refl refl
                    v.backed;
            },
            amount,
          )
    ]
