-- ===== src/Channel/Sanity/Consistent.antt =====
-- The invariant of a whole channel, and `sanity_check` under it.
use raiden_common.Channel.Balance.{get_capacity, get_balance, get_current_balanceproof}
use raiden_common.Channel.Balance.Conserve.{
  get_balance-conserve, IsSolvent, get_distributable_bounds,
}
use raiden_common.Channel.Invariant.{
  Holds, HoldsProof, IsSynced, IsBackedBy, IsSound, current-locked_amount,
}
use raiden_common.Channel.Invariant.Moves.{IsBounded}
use raiden_common.Channel.Locks.{compute_locksroot}
use raiden_common.Channel.Sanity.{
  check_withdraws, are_locks_pending, check_distributable, check_locked_amount, check_locksroot,
  sanity_check,
}
use raiden_common.Channel.Withdraw.{kept}
use raiden_common.Channel.Withdraw.Order.{IsKeyed, AreAbove, IsAscending, IsOrdered}
use raiden_common.Common.{
  ℕ, ◌≡◌, refl, sym, inl, inr, Bool, true, false, ◌||◌, Option, none, some, [], ◌∷◌, arith, is_some,
  beq_refl,
}
use raiden_common.Common.Bytes.{Bytes, bytes_beq, bytes_eq}
use raiden_common.Common.Dict.{Dict, all_values}
use raiden_common.Common.Int.{ℤ, pos, ltb_ℤ, leb_ℤ, beq_ℤ, int_eq}
use raiden_common.Common.Keyed.{AllEntries}
use raiden_common.Common.Outcome.{ok}
use raiden_common.External.{External}
use raiden_common.State.{
  BalanceProofState, PendingWithdrawState, NettingChannelEndState, NettingChannelState,
}

abbrev pub is_settling_cooperatively : NettingChannelState → Bool
is_settling_cooperatively c =
    is_some c.our_state.initiated_coop_settle || is_some c.partner_state.initiated_coop_settle

pub record IsConsistent (x : External) (c : NettingChannelState) : Type 0 where
  pub ours : IsSound x c.our_state
  pub partner : IsSound x c.partner_state
  pub our_solvency : IsSolvent c.our_state c.partner_state
  pub partner_solvency : IsSolvent c.partner_state c.our_state
  pub our_bound : IsBounded c.our_state
  pub partner_bound : IsBounded c.partner_state
  pub ordered : IsOrdered (is_settling_cooperatively c) c.our_state.withdraws_pending

bytes_beq_refl : (b : Bytes) → bytes_beq b b ≡ true
bytes_beq_refl b = beq_refl ⦃e = bytes_eq⦄ b

beq_ℤ_refl : (a : ℤ) → beq_ℤ a a ≡ true
beq_ℤ_refl a = beq_refl ⦃e = int_eq⦄ a

check_withdraws-settling :
    (previous : ℤ) (d : Dict ℤ PendingWithdrawState)
    → IsKeyed d
    → check_withdraws true previous d ≡ ok tt
unfolding check_withdraws
check_withdraws-settling previous [] keyed = refl
check_withdraws-settling previous ((k, w) ∷ d) keyed =
    rw (keyed.0, beq_ℤ_refl w.total_withdraw, check_withdraws-settling w.total_withdraw d keyed.2)
      refl

check_withdraws-ascending :
    (previous : ℤ) (d : Dict ℤ PendingWithdrawState)
    → IsKeyed d
    → AreAbove previous d
    → IsAscending d
    → check_withdraws false previous d ≡ ok tt
unfolding check_withdraws
check_withdraws-ascending previous [] keyed above ascending = refl
check_withdraws-ascending previous ((k, w) ∷ d) keyed above ascending =
    let less : ltb_ℤ previous w.total_withdraw ≡ true = ground (arith, above.0) in
    rw
      (
        keyed.0,
        beq_ℤ_refl w.total_withdraw,
        less,
        check_withdraws-ascending w.total_withdraw d keyed.2 ascending.0 ascending.1,
      )
      refl

check_withdraws-IsOrdered :
    (coop_settle : Bool) (d : Dict ℤ PendingWithdrawState)
    → IsOrdered coop_settle d
    → check_withdraws coop_settle (pos 0) d ≡ ok tt
check_withdraws-IsOrdered true d h = check_withdraws-settling (pos 0) d h.0
check_withdraws-IsOrdered false d (keyed, inl absurdity) = absurd (ground (arith, absurdity))
check_withdraws-IsOrdered false d (keyed, inr (above, ascending)) =
    check_withdraws-ascending (pos 0) d keyed above ascending

all_values-AllEntries {ℓ} :
    {V : Type ℓ} (P : ℕ → V → Type 0) (f : V → Bool) (d : Dict ℕ V)
    → ((h : ℕ) (v : V) → P h v → f v ≡ true)
    → AllEntries P d
    → all_values f d ≡ true
unfolding all_values
all_values-AllEntries P f [] imp h = refl
all_values-AllEntries P f ((k, v) ∷ d) imp h =
    ground (arith, imp k v, all_values-AllEntries P f d imp)

are_locks_pending-IsSynced : (s : NettingChannelEndState) → IsSynced s → are_locks_pending s ≡ true
unfolding are_locks_pending
are_locks_pending-IsSynced s h =
    rw
      (
        all_values-AllEntries (Holds s.pending_locks) _ s.secrethashes_to_lockedlocks (λ k l p. p.2)
            h.locked,
        all_values-AllEntries (HoldsProof s.pending_locks) _ s.secrethashes_to_unlockedlocks
            (λ k l p. p.2) h.unlocked,
        all_values-AllEntries (HoldsProof s.pending_locks) _ s.secrethashes_to_onchain_unlockedlocks
            (λ k l p. p.2) h.onchain,
      )
      refl

check_locked_amount-ok :
    (x : External) (s : NettingChannelEndState) → IsSound x s → check_locked_amount x s ≡ ok tt
unfolding check_locked_amount
check_locked_amount-ok x s h = ground (arith, current-locked_amount x s h)

current-locksroot :
    (x : External) (s : NettingChannelEndState) (b : Option BalanceProofState)
    → s.balance_proof ≡ b
    → IsBackedBy x s b
    → compute_locksroot x s.pending_locks ≡ (get_current_balanceproof x s).locksroot
unfolding get_current_balanceproof compute_locksroot
current-locksroot x s none e h = rw (e, h.1) refl
current-locksroot x s (some b) e h = rw e (sym h.1)

check_locksroot-ok :
    (x : External) (s : NettingChannelEndState) → IsSound x s → check_locksroot x s ≡ ok tt
unfolding check_locksroot
check_locksroot-ok x s h =
    rw
      (
        current-locksroot x s s.balance_proof refl h.backed,
        bytes_beq_refl (get_current_balanceproof x s).locksroot,
      )
      refl

check_distributable-ok :
    (x : External) (s r : NettingChannelEndState) → check_distributable x s r ≡ ok tt
unfolding check_distributable
check_distributable-ok x s r = ground (arith, get_distributable_bounds x s r)

-- A side that can pay what it has locked has no negative balance.
balance-positive :
    (s r : NettingChannelEndState) → IsSolvent s r → leb_ℤ (pos 0) (get_balance s r) ≡ true
balance-positive s r h = ground arith

-- All assertions of `sanity_check` pass in a consistent channel.
pub sanity_check-IsConsistent :
    (x : External) (c : NettingChannelState) → IsConsistent x c → sanity_check x c ≡ ok tt
unfolding sanity_check
sanity_check-IsConsistent x c h =
    rw
      (
        check_withdraws-IsOrdered (is_settling_cooperatively c) c.our_state.withdraws_pending
            h.ordered,
        balance-positive c.our_state c.partner_state h.our_solvency,
        balance-positive c.partner_state c.our_state h.partner_solvency,
        get_balance-conserve c,
        beq_ℤ_refl (get_capacity c),
        check_locked_amount-ok x c.partner_state h.partner,
        check_locked_amount-ok x c.our_state h.ours,
        check_distributable-ok x c.our_state c.partner_state,
        check_distributable-ok x c.partner_state c.our_state,
        check_locksroot-ok x c.our_state h.ours,
        check_locksroot-ok x c.partner_state h.partner,
        are_locks_pending-IsSynced c.partner_state h.partner.synced,
        are_locks_pending-IsSynced c.our_state h.ours.synced,
      )
      refl

-- The order depends on three fields only.
pub IsOrdered-transport :
    (ours ours' partner partner' : NettingChannelEndState)
    → ours'.initiated_coop_settle ≡ ours.initiated_coop_settle
    → partner'.initiated_coop_settle ≡ partner.initiated_coop_settle
    → ours'.withdraws_pending ≡ ours.withdraws_pending
    → IsOrdered
        (is_some ours.initiated_coop_settle || is_some partner.initiated_coop_settle)
        ours.withdraws_pending
    → IsOrdered
        (is_some ours'.initiated_coop_settle || is_some partner'.initiated_coop_settle)
        ours'.withdraws_pending
IsOrdered-transport ours ours' partner partner' p q r h = rw (p, q, r) h

-- A channel stays consistent when the partner's side changes and stays sound, bounded and solvent.
pub partner_updated :
    (x : External) (c : NettingChannelState) (s : NettingChannelEndState)
    → IsConsistent x c
    → IsSound x s
    → IsBounded s
    → IsSolvent s c.our_state
    → IsSolvent c.our_state s
    → s.initiated_coop_settle ≡ c.partner_state.initiated_coop_settle
    → IsConsistent x (record c { partner_state = s })
partner_updated x c s h sound bounded solvent ours same = record {
  ours = h.ours;
  partner = sound;
  our_solvency = ours;
  partner_solvency = solvent;
  our_bound = h.our_bound;
  partner_bound = bounded;
  ordered = IsOrdered-transport c.our_state c.our_state c.partner_state s refl same refl h.ordered;
}

-- So it does when our side changes, if the pending withdraws stay.
pub ours_updated :
    (x : External) (c : NettingChannelState) (s : NettingChannelEndState)
    → IsConsistent x c
    → IsSound x s
    → IsBounded s
    → IsSolvent s c.partner_state
    → IsSolvent c.partner_state s
    → s.initiated_coop_settle ≡ c.our_state.initiated_coop_settle
    → s.withdraws_pending ≡ c.our_state.withdraws_pending
    → IsConsistent x (record c { our_state = s })
ours_updated x c s h sound bounded solvent partner same kept = record {
  ours = sound;
  partner = h.partner;
  our_solvency = solvent;
  partner_solvency = partner;
  our_bound = bounded;
  partner_bound = h.partner_bound;
  ordered =
      IsOrdered-transport c.our_state s c.partner_state c.partner_state same refl kept h.ordered;
}
