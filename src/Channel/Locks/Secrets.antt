-- ===== src/Channel/Locks/Secrets.antt =====
-- Learning a secret off-chain, and the invariants.
use raiden_common.Channel.Balance.{get_amount_locked}
use raiden_common.Channel.Balance.Conserve.{IsSolvent}
use raiden_common.Channel.Delivery.{Mirrors, get_balance-Mirrors}
use raiden_common.Channel.Invariant.{Holds, HoldsProof, IsSynced, IsBackedBy, IsSound}
use raiden_common.Channel.Invariant.Moves.{IsBounded}
use raiden_common.Channel.Locks.{
  is_lock_locked, get_secret, get_lock, register_secret_endstate, register_offchain_secret,
}
use raiden_common.Channel.Sanity.Consistent.{IsConsistent, IsOrdered-transport}
use raiden_common.Common.{
  ℕ, ◌≡◌, refl, sym, ap, ◌∙◌, ◌⊎◌, inl, inr, false, Option, none, some, arith, Bool-cases,
  Option-cases, ◌==◌, nat_eq,
}
use raiden_common.Common.Bytes.{bytes_eq}
use raiden_common.Common.Dict.{
  lookup, insert, erase, lookup-insert, lookup-erase_ne, sum_values-insert_new, sum_values-erase,
}
use raiden_common.Common.Int.{pos_part, neg_part, int_laws, int_eq}
use raiden_common.Common.Keyed.{
  lookup-AllEntries, insert-AllEntries, erase-AllEntries, lookup-erase_self,
}
use raiden_common.External.{External}
use raiden_common.State.{
  HashTimeLockState, UnlockPartialProofState, BalanceProofState, NettingChannelEndState,
  NettingChannelState, offchain_total_withdraw, total_withdraw,
}

abbrev proof_of : ℕ → HashTimeLockState → UnlockPartialProofState
proof_of secret lock = record { lock = lock; secret = secret }

pub unlocked_at : NettingChannelEndState → ℕ → ℕ → HashTimeLockState → NettingChannelEndState
unfolding insert erase
unlocked_at s secret h lock = record s {
  secrethashes_to_lockedlocks = erase h s.secrethashes_to_lockedlocks;
  secrethashes_to_unlockedlocks =
      insert h (record { lock = lock; secret = secret }) s.secrethashes_to_unlockedlocks;
}

-- What must hold where a lock is moved to the unlocked ones.
unlocked_at-IsSynced :
    (s : NettingChannelEndState) (secret h : ℕ) (lock : HashTimeLockState)
    → IsSynced s
    → lookup h s.secrethashes_to_lockedlocks ≡ some lock
    → IsSynced (unlocked_at s secret h lock)
unfolding unlocked_at
unlocked_at-IsSynced s secret h lock v found = record {
  locked = erase-AllEntries (Holds s.pending_locks) h s.secrethashes_to_lockedlocks v.locked;
  unlocked =
      insert-AllEntries (HoldsProof s.pending_locks) h (record { lock = lock; secret = secret })
        s.secrethashes_to_unlockedlocks (ground (arith, v.exclusive h))
        (lookup-AllEntries (Holds s.pending_locks) h lock s.secrethashes_to_lockedlocks v.locked
          found)
        v.unlocked;
  onchain = v.onchain;
  exclusive = λ k. elim (Bool-cases (k == h)) [
    | inl same ↦ ground (
      arith,
      v.exclusive k,
      v.exclusive h,
      lookup-erase_self (Holds s.pending_locks) h s.secrethashes_to_lockedlocks v.locked,
      lookup-insert h k (proof_of secret lock) s.secrethashes_to_unlockedlocks,
    )
    | inr other ↦ ground (
      arith,
      v.exclusive k,
      lookup-erase_ne h k s.secrethashes_to_lockedlocks other,
      lookup-insert h k (proof_of secret lock) s.secrethashes_to_unlockedlocks,
    )
  ];
}

unlocked_at-amount :
    (s : NettingChannelEndState) (secret h : ℕ) (lock : HashTimeLockState)
    → IsSynced s
    → lookup h s.secrethashes_to_lockedlocks ≡ some lock
    → get_amount_locked (unlocked_at s secret h lock) ≡ get_amount_locked s
unfolding unlocked_at get_amount_locked
unlocked_at-amount s secret h lock v found = omega (
  arith,
  sum_values-erase (λ (l : HashTimeLockState). l.amount) h lock s.secrethashes_to_lockedlocks found,
  sum_values-insert_new (λ (u : UnlockPartialProofState). u.lock.amount) h
      (record { lock = lock; secret = secret }) s.secrethashes_to_unlockedlocks
      (ground (arith, v.exclusive h)),
)

-- A side that keeps its balance proof, pending locks, nonce and locked amount stays backed.
pub same-IsBackedBy :
    (x : External) (s s' : NettingChannelEndState) (b : Option BalanceProofState)
    → get_amount_locked s' ≡ get_amount_locked s
    → s'.pending_locks ≡ s.pending_locks
    → s'.nonce ≡ s.nonce
    → IsBackedBy x s b
    → IsBackedBy x s' b
same-IsBackedBy x s s' none amount pending nonce h = (amount ∙ h.0, pending ∙ h.1)
same-IsBackedBy x s s' (some b) amount pending nonce h =
    (h.0 ∙ sym amount, rw pending h.1, omega (arith, nonce, h.2))

-- The cases of registering a secret off-chain: the lock is not locked, or it moves.
pub register_secret_endstate-cases :
    (s : NettingChannelEndState) (secret h : ℕ)
    → (register_secret_endstate s secret h ≡ s)
      ⊎ ((lock : HashTimeLockState) × (lookup h s.secrethashes_to_lockedlocks ≡ some lock)
          × (register_secret_endstate s secret h ≡ unlocked_at s secret h lock))
unfolding register_secret_endstate unlocked_at
register_secret_endstate-cases s secret h =
    elim (Option-cases (lookup h s.secrethashes_to_lockedlocks)) [
      | inl e ↦ inl (rw (e, register_secret_endstate) refl)
      | inr (lock, e) ↦ inr (lock, e, rw (e, register_secret_endstate) refl)
    ]

-- Learning a secret off-chain keeps the locked amount, and keeps a side sound.
pub register_secret_endstate-IsSound :
    (x : External) (s : NettingChannelEndState) (secret h : ℕ)
    → IsSound x s
    → IsSound x (register_secret_endstate s secret h)
      × (get_amount_locked (register_secret_endstate s secret h) ≡ get_amount_locked s)
unfolding unlocked_at
register_secret_endstate-IsSound x s secret h v = elim (register_secret_endstate-cases s secret h) [
  | inl same ↦ rw same (v, refl)
  | inr (lock, found, after) ↦
      let amount = unlocked_at-amount s secret h lock v.synced found in
      rw after (
        record {
          synced = unlocked_at-IsSynced s secret h lock v.synced found;
          backed =
              same-IsBackedBy x s (unlocked_at s secret h lock) s.balance_proof amount refl refl
                v.backed;
        },
        amount,
      )
]

-- Once the secret of a locked lock is registered on a side whose maps agree with its pending locks,
-- the secret is known, the lock is still found, and it is no longer locked.
pub register_secret_endstate-get_secret :
    (s : NettingChannelEndState) (secret h : ℕ) (lock : HashTimeLockState)
    → IsSynced s
    → lookup h s.secrethashes_to_lockedlocks ≡ some lock
    → (get_secret (register_secret_endstate s secret h) h ≡ some secret)
      × (get_lock (register_secret_endstate s secret h) h ≡ some lock)
      × (is_lock_locked (register_secret_endstate s secret h) h ≡ false)
unfolding register_secret_endstate get_secret get_lock is_lock_locked
register_secret_endstate-get_secret s secret h lock v found = ground (
  arith,
  found,
  lookup-erase_self (Holds s.pending_locks) h s.secrethashes_to_lockedlocks v.locked,
  lookup-insert h h (proof_of secret lock) s.secrethashes_to_unlockedlocks,
)

-- Nothing that the balances depend on changes.
register_secret_endstate-Mirrors :
    (x : External) (s : NettingChannelEndState) (secret h : ℕ)
    → IsSound x s
    → Mirrors s (register_secret_endstate s secret h)
unfolding unlocked_at total_withdraw offchain_total_withdraw
register_secret_endstate-Mirrors x s secret h v = elim (register_secret_endstate-cases s secret h) [
  | inl same ↦ rw same (record {
    address = refl;
    contract_balance = refl;
    withdrawn = refl;
    nonce = refl;
    pending_locks = refl;
    locked = refl;
    transferred = refl;
  })
  | inr (lock, found, after) ↦ rw after (record {
    address = refl;
    contract_balance = refl;
    withdrawn = refl;
    nonce = refl;
    pending_locks = refl;
    locked = unlocked_at-amount s secret h lock v.synced found;
    transferred = refl;
  })
]

register_secret_endstate-kept :
    (s : NettingChannelEndState) (secret h : ℕ)
    → ((register_secret_endstate s secret h).initiated_coop_settle ≡ s.initiated_coop_settle)
      × ((register_secret_endstate s secret h).withdraws_pending ≡ s.withdraws_pending)
unfolding unlocked_at
register_secret_endstate-kept s secret h = elim (register_secret_endstate-cases s secret h) [
  | inl same ↦ rw same (refl, refl)
  | inr (lock, found, after) ↦ rw after (refl, refl)
]

mirror-IsSolvent :
    (s v r w : NettingChannelEndState) → Mirrors s v → Mirrors r w → IsSolvent s r → IsSolvent v w
mirror-IsSolvent s v r w m n h = omega (
  int_laws,
  m.locked,
  ap pos_part (get_balance-Mirrors s v r w m n),
  ap neg_part (get_balance-Mirrors s v r w m n),
)

mirror-IsBounded : (s v : NettingChannelEndState) → Mirrors s v → IsBounded s → IsBounded v
mirror-IsBounded s v m h = omega (arith, m.locked, m.transferred)

-- Learning a secret off-chain, for both sides at once, keeps a consistent channel consistent, and
-- keeps both balances and both locked amounts.
pub register_offchain_secret-IsConsistent :
    (x : External) (c : NettingChannelState) (secret h : ℕ)
    → IsConsistent x c
    → IsConsistent x (register_offchain_secret c secret h)
      × Mirrors c.our_state (register_offchain_secret c secret h).our_state
      × Mirrors c.partner_state (register_offchain_secret c secret h).partner_state
unfolding register_offchain_secret
register_offchain_secret-IsConsistent x c secret h v =
    let s = c.our_state in
    let r = c.partner_state in
    let s' = register_secret_endstate s secret h in
    let r' = register_secret_endstate r secret h in
    let m = register_secret_endstate-Mirrors x s secret h v.ours in
    let n = register_secret_endstate-Mirrors x r secret h v.partner in
    let p = register_secret_endstate-kept s secret h in
    let q = register_secret_endstate-kept r secret h in
    (
      record {
        ours = (register_secret_endstate-IsSound x s secret h v.ours).0;
        partner = (register_secret_endstate-IsSound x r secret h v.partner).0;
        our_solvency = mirror-IsSolvent s s' r r' m n v.our_solvency;
        partner_solvency = mirror-IsSolvent r r' s s' n m v.partner_solvency;
        our_bound = mirror-IsBounded s s' m v.our_bound;
        partner_bound = mirror-IsBounded r r' n v.partner_bound;
        ordered = IsOrdered-transport s s' r r' p.0 q.0 p.1 v.ordered;
      },
      m,
      n,
    )
