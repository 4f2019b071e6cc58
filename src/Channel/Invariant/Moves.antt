-- ===== src/Channel/Invariant/Moves.antt =====
-- What a message does to the amounts of a channel, for the side that sends it and the side that
-- receives it.
use raiden_common.Channel.Balance.{
  get_amount_locked, transferred_of, get_balance, get_current_balanceproof, get_distributable,
}
use raiden_common.Channel.Balance.Conserve.{IsSolvent, get_distributable_bounds}
use raiden_common.Common.{ℕ, ◌+◌, ◌≤◌, ◌≡◌, refl, ap, inl, inr, Option-cases}
use raiden_common.Common.Int.{pos, pos_part, neg_part, ◌+ℤ◌, ◌≤ℤ◌, int_laws}
use raiden_common.External.{External}
use raiden_common.State.{uint256_max, HashTimeLockState, NettingChannelEndState}

-- The receiver's balance grows by what the sender's balance loses.
abbrev pub Pays :
    NettingChannelEndState → NettingChannelEndState → NettingChannelEndState → ℕ → Type 0
Pays s s' r moved =
    (get_balance s' r +ℤ pos moved ≡ get_balance s r)
    × (get_balance r s' ≡ get_balance r s +ℤ pos moved)

-- What a side has transferred and locked fits the contract's word.
abbrev pub IsBounded : NettingChannelEndState → Type 0
IsBounded s = transferred_of s.balance_proof + get_amount_locked s ≤ uint256_max

-- A side `s` that becomes `s'` by locking the amount of a new lock.
pub record TakesLock (s s' r : NettingChannelEndState) (lock : HashTimeLockState) : Type 0 where
  pub nonce : s'.nonce ≡ s.nonce + 1
  pub locked : get_amount_locked s' ≡ get_amount_locked s + lock.amount
  pub pays : Pays s s' r 0

-- A side that gives up a lock, and pays `moved` of it.
pub record LeavesLock (s s' r : NettingChannelEndState) (lock : HashTimeLockState) (moved : ℕ)
    : Type 0 where
  pub nonce : s'.nonce ≡ s.nonce + 1
  pub locked : get_amount_locked s' + lock.amount ≡ get_amount_locked s
  pub pays : Pays s s' r moved

pub transferred-current :
    (x : External) (s : NettingChannelEndState)
    → (get_current_balanceproof x s).transferred_amount ≡ transferred_of s.balance_proof
unfolding get_current_balanceproof
transferred-current x s = elim (Option-cases s.balance_proof) [
  | inl e ↦ rw e refl
  | inr (b, e) ↦ rw e refl
]

-- Locking an amount that is distributable leaves the sender solvent.
pub taken-IsSolvent :
    (x : External) (s s' r : NettingChannelEndState) (amount : ℕ)
    → pos amount ≤ℤ get_distributable x s r
    → get_amount_locked s' ≡ get_amount_locked s + amount
    → Pays s s' r 0
    → IsSolvent s' r
taken-IsSolvent x s s' r amount covered locked pays =
    omega (int_laws, get_distributable_bounds x s r, ap pos_part pays.0, ap neg_part pays.0)

-- Paying no more than the lock that is given up keeps the sender solvent.
pub left-IsSolvent :
    (s s' r : NettingChannelEndState) (lock : HashTimeLockState) (moved : ℕ)
    → LeavesLock s s' r lock moved
    → moved ≤ lock.amount
    → IsSolvent s r
    → IsSolvent s' r
left-IsSolvent s s' r lock moved h small solvent =
    omega (int_laws, h.locked, ap pos_part h.pays.0, ap neg_part h.pays.0)

-- The receiver only gains, so it stays solvent.
pub receiver-IsSolvent :
    (s s' r : NettingChannelEndState) (moved : ℕ)
    → Pays s s' r moved
    → IsSolvent r s
    → IsSolvent r s'
receiver-IsSolvent s s' r moved pays solvent =
    omega (int_laws, ap pos_part pays.1, ap neg_part pays.1)
