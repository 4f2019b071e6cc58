-- ===== src/Target/Locks.antt =====
-- The lock of a task under the channel operations that the target calls.
use raiden_common.Channel.Invariant.{Holds, HoldsProof, IsSynced, IsSound}
use raiden_common.Channel.Invariant.Remove.{without_lock}
use raiden_common.Channel.Locks.{
  get_lock, register_secret_endstate, register_onchain_secret_endstate, register_onchain_secret,
}
use raiden_common.Channel.Locks.OnchainSecret.{
  onchain_at, claim_of, register_onchain_secret_endstate-cases,
  register_onchain_secret_endstate-IsSound,
}
use raiden_common.Channel.Locks.Secrets.{
  register_secret_endstate-cases, register_secret_endstate-get_secret,
}
use raiden_common.Channel.Receive.{accept_balance_proof}
use raiden_common.Common.{
  ℕ, ◌≡◌, refl, inl, inr, true, none, some, arith, Option-cases, is_some, nat_eq,
}
use raiden_common.Common.Bytes.{bytes_eq}
use raiden_common.Common.Dict.{erase, lookup-insert}
use raiden_common.Common.Int.{int_eq}
use raiden_common.Common.Keyed.{lookup-erase_self}
use raiden_common.Common.Outcome.{ok}
use raiden_common.External.{External}
use raiden_common.State.{
  HashTimeLockState, BalanceProofSignedState, PendingLocksState, NettingChannelEndState,
  NettingChannelState,
}

pub known-lock :
    (s : NettingChannelEndState) (h : ℕ)
    → is_some (get_lock s h) ≡ true
    → (lock : HashTimeLockState) × (get_lock s h ≡ some lock)
known-lock s h k = elim (Option-cases (get_lock s h)) [
  | inl e ↦ absurd (ground arith)
  | inr (lock, e) ↦ (lock, e)
]

-- Learning the secret off-chain keeps the lock.
pub register_secret_endstate-known :
    (s : NettingChannelEndState) (secret h : ℕ)
    → IsSynced s
    → is_some (get_lock s h) ≡ true
    → is_some (get_lock (register_secret_endstate s secret h) h) ≡ true
register_secret_endstate-known s secret h v k = elim (register_secret_endstate-cases s secret h) [
  | inl same ↦ rw same k
  | inr (lock, found, after) ↦
      let kept = (register_secret_endstate-get_secret s secret h lock v found).1 in rw kept refl
]

get_lock-onchain_at :
    (s : NettingChannelEndState) (secret h : ℕ) (lock : HashTimeLockState)
    → IsSynced s
    → get_lock (onchain_at s secret h lock) h ≡ some lock
unfolding get_lock
get_lock-onchain_at s secret h lock v = ground (
  arith,
  lookup-erase_self (Holds s.pending_locks) h s.secrethashes_to_lockedlocks v.locked,
  lookup-erase_self (HoldsProof s.pending_locks) h s.secrethashes_to_unlockedlocks v.unlocked,
  lookup-insert h h (claim_of secret lock) (erase h s.secrethashes_to_onchain_unlockedlocks),
)

-- So does learning it on-chain.
pub register_onchain_secret_endstate-known :
    (s : NettingChannelEndState) (secret h block_number : ℕ) (s' : NettingChannelEndState)
    → IsSynced s
    → is_some (get_lock s h) ≡ true
    → register_onchain_secret_endstate s secret h block_number true ≡ ok s'
    → is_some (get_lock s' h) ≡ true
register_onchain_secret_endstate-known s secret h block_number s' v k e =
    elim (register_onchain_secret_endstate-cases s secret h block_number v) [
      | inl same ↦ let p : s ≡ s' = cc in rw (← p) k
      | inr (lock, known, after) ↦
          let p : onchain_at s secret h lock ≡ s' = cc in
          rw (← p) (rw (get_lock-onchain_at s secret h lock v) refl)
    ]

-- A removed lock is not found any more.
pub get_lock-without_lock :
    (s : NettingChannelEndState) (h : ℕ) → IsSynced s → get_lock (without_lock s h) h ≡ none
unfolding get_lock
get_lock-without_lock s h v = ground (
  arith,
  lookup-erase_self (Holds s.pending_locks) h s.secrethashes_to_lockedlocks v.locked,
  lookup-erase_self (HoldsProof s.pending_locks) h s.secrethashes_to_unlockedlocks v.unlocked,
  lookup-erase_self (HoldsProof s.pending_locks) h s.secrethashes_to_onchain_unlockedlocks
      v.onchain,
)

pub get_lock-removed :
    (s : NettingChannelEndState) (b : BalanceProofSignedState) (locks : PendingLocksState) (h : ℕ)
    → IsSynced s
    → get_lock (without_lock (accept_balance_proof s b locks) h) h ≡ none
unfolding accept_balance_proof get_lock
get_lock-removed s b locks h v = get_lock-without_lock s h v

-- Registering a secret on-chain never raises on a channel with two sound sides, and keeps the
-- partner's lock.
pub register_onchain_secret-IsSound :
    (x : External) (c : NettingChannelState) (secret h block_number : ℕ)
    → IsSound x c.our_state
    → IsSound x c.partner_state
    → (c' : NettingChannelState) × (register_onchain_secret c secret h block_number true ≡ ok c')
      × IsSound x c'.our_state
      × IsSound x c'.partner_state
      × (is_some (get_lock c.partner_state h) ≡ true → is_some (get_lock c'.partner_state h) ≡ true)
unfolding register_onchain_secret
register_onchain_secret-IsSound x c secret h block_number ours partner =
    let (a, ea, sa, _) =
      register_onchain_secret_endstate-IsSound x c.our_state secret h block_number ours in
    let (b, eb, sb, _) =
      register_onchain_secret_endstate-IsSound x c.partner_state secret h block_number partner in
    (
      record c { our_state = a; partner_state = b },
      rw (ea, eb) refl,
      sa,
      sb,
      λ k.
          register_onchain_secret_endstate-known c.partner_state secret h block_number b
            partner.synced k eb,
    )
