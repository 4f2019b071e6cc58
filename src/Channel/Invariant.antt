-- ===== src/Channel/Invariant.antt =====
-- What is invariant of one side of a channel between messages: its lock maps and its pending locks
-- agree, and its last balance proof is over them.
pub mod Add
pub mod Remove
pub mod Moves
use raiden_common.Channel.Balance.{get_amount_locked, get_current_balanceproof}
use raiden_common.Channel.Locks.{compute_locksroot}
use raiden_common.Common.{
  ℕ, ◌≤◌, ◌≡◌, refl, Bool, true, false, ◌&&◌, Option, none, some, [], arith, list_contains, nat_eq,
}
use raiden_common.Common.Bytes.{bytes_eq}
use raiden_common.Common.Dict.{contains}
use raiden_common.Common.Int.{int_eq}
use raiden_common.Common.Keyed.{AllEntries}
use raiden_common.External.{External}
use raiden_common.State.{
  HashTimeLockState, UnlockPartialProofState, BalanceProofState, content_of, PendingLocksState,
  NettingChannelEndState,
}
use raiden_common.State.Encoding.{Fits}
use raiden_common.State.Make.{encoded}

-- A lock filed under its own secret hash, in range, and among the pending locks.
abbrev pub Holds : PendingLocksState → ℕ → HashTimeLockState → Type 0
Holds pending h lock =
    (lock.secrethash ≡ h) × Fits lock × (list_contains (encoded lock) pending ≡ true)

abbrev pub HoldsProof : PendingLocksState → ℕ → UnlockPartialProofState → Type 0
HoldsProof pending h u = Holds pending h u.lock

abbrev pub AtMostOne : Bool → Bool → Bool → Type 0
AtMostOne a b c = ((a && b) ≡ false) × ((a && c) ≡ false) × ((b && c) ≡ false)

pub record IsSynced (s : NettingChannelEndState) : Type 0 where
  pub locked : AllEntries (Holds s.pending_locks) s.secrethashes_to_lockedlocks
  pub unlocked : AllEntries (HoldsProof s.pending_locks) s.secrethashes_to_unlockedlocks
  pub onchain : AllEntries (HoldsProof s.pending_locks) s.secrethashes_to_onchain_unlockedlocks
  pub exclusive :
      (h : ℕ)
      → AtMostOne
          (contains h s.secrethashes_to_lockedlocks)
          (contains h s.secrethashes_to_unlockedlocks)
          (contains h s.secrethashes_to_onchain_unlockedlocks)

-- The balance proof states the sum of the locks and their hash; without one there are no locks.
abbrev pub IsBackedBy : External → NettingChannelEndState → Option BalanceProofState → Type 0
IsBackedBy x s none = (get_amount_locked s ≡ 0) × (s.pending_locks ≡ [])
IsBackedBy x s (some b) =
    ((content_of b).locked_amount ≡ get_amount_locked s)
    × ((content_of b).locksroot ≡ compute_locksroot x s.pending_locks)
    × ((content_of b).nonce ≤ s.nonce)

pub record IsSound (x : External) (s : NettingChannelEndState) : Type 0 where
  pub synced : IsSynced s
  pub backed : IsBackedBy x s s.balance_proof

-- One side with a new balance proof over new pending locks.
abbrev pub install :
    NettingChannelEndState → BalanceProofState → PendingLocksState → NettingChannelEndState
install s b pending = record s {
  balance_proof = some b;
  nonce = (content_of b).nonce;
  pending_locks = pending;
}

backed_amount :
    (x : External) (s : NettingChannelEndState) (b : Option BalanceProofState)
    → s.balance_proof ≡ b
    → IsBackedBy x s b
    → (get_current_balanceproof x s).locked_amount ≡ get_amount_locked s
unfolding get_current_balanceproof
backed_amount x s none e h = ground arith
backed_amount x s (some b) e h = ground arith

-- The locked amount that messages are checked against is the sum of the locks.
pub current-locked_amount :
    (x : External) (s : NettingChannelEndState)
    → IsSound x s
    → (get_current_balanceproof x s).locked_amount ≡ get_amount_locked s
current-locked_amount x s h = backed_amount x s s.balance_proof refl h.backed
