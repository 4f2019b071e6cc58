-- ===== src/Channel/Sanity.antt =====
-- transfer/channel.py: `sanity_check`, the assertions that run after every state change.
pub mod Consistent
use raiden_common.Channel.Balance.{
  get_amount_locked, get_capacity, get_balance, get_current_balanceproof, get_distributable,
}
use raiden_common.Channel.Locks.{compute_locksroot}
use raiden_common.Common.{Bool, ◌&&◌, ◌||◌, [], ◌∷◌, ◌==◌, is_some, list_contains, nat_eq}
use raiden_common.Common.Bytes.{bytes_eq}
use raiden_common.Common.Dict.{Dict, all_values}
use raiden_common.Common.Int.{ℤ, pos, ◌+ℤ◌, ltb_ℤ, leb_ℤ, int_eq}
use raiden_common.Common.Outcome.{Failure, Outcome, ok, ◌>>◌, assert}
use raiden_common.External.{External}
use raiden_common.State.{PendingWithdrawState, NettingChannelEndState, NettingChannelState}
use raiden_common.State.Make.{encoded}

-- The pending withdraws have increasing amounts, above `previous`, and stand under their keys.
unfoldable pub check_withdraws : Bool → ℤ → Dict ℤ PendingWithdrawState → Outcome (Unit {0})
check_withdraws coop_settle previous [] = ok tt
check_withdraws coop_settle previous ((k, w) ∷ d) =
    let rest = check_withdraws coop_settle w.total_withdraw d in
    assert (coop_settle || ltb_ℤ previous w.total_withdraw) Failure.withdraws_not_ordered
    >> (assert (k == w.total_withdraw) Failure.withdraw_key_mismatch >> rest)

-- Every lock of the three maps is among the pending locks.
unfoldable pub are_locks_pending : NettingChannelEndState → Bool
are_locks_pending s =
    all_values (λ l. list_contains (encoded l) s.pending_locks) s.secrethashes_to_lockedlocks
    && all_values (λ u. list_contains (encoded u.lock) s.pending_locks)
        s.secrethashes_to_unlockedlocks
    && all_values (λ u. list_contains (encoded u.lock) s.pending_locks)
        s.secrethashes_to_onchain_unlockedlocks

-- The four assertions on amounts that are made for each side: `locked` and `balance` are its own.
unfoldable pub check_distributable :
    External → NettingChannelEndState → NettingChannelEndState → Outcome (Unit {0})
unfolding get_distributable get_balance get_amount_locked
check_distributable x sender receiver =
    assert
      (leb_ℤ (get_distributable x sender receiver +ℤ pos (get_amount_locked sender))
        (get_balance sender receiver))
      Failure.distributable_too_large

unfoldable pub check_locked_amount : External → NettingChannelEndState → Outcome (Unit {0})
unfolding get_current_balanceproof get_amount_locked
check_locked_amount x s =
    assert (get_amount_locked s == (get_current_balanceproof x s).locked_amount)
      Failure.locked_amount_mismatch

unfoldable pub check_locksroot : External → NettingChannelEndState → Outcome (Unit {0})
unfolding get_current_balanceproof compute_locksroot
check_locksroot x s =
    assert (compute_locksroot x s.pending_locks == (get_current_balanceproof x s).locksroot)
      Failure.locksroot_mismatch

unfoldable pub sanity_check : External → NettingChannelState → Outcome (Unit {0})
unfolding check_withdraws get_balance get_capacity check_locked_amount check_distributable
    check_locksroot are_locks_pending
sanity_check x channel_state = do
  let ours = channel_state.our_state
  let partner = channel_state.partner_state
  check_withdraws (is_some ours.initiated_coop_settle || is_some partner.initiated_coop_settle)
      (pos 0) ours.withdraws_pending
  assert (leb_ℤ (pos 0) (get_balance ours partner)) Failure.negative_balance
  assert (leb_ℤ (pos 0) (get_balance partner ours)) Failure.negative_balance
  assert (get_balance ours partner +ℤ get_balance partner ours == get_capacity channel_state)
      Failure.deposit_not_accounted
  check_locked_amount x partner
  check_locked_amount x ours
  check_distributable x ours partner
  check_distributable x partner ours
  check_locksroot x ours
  check_locksroot x partner
  assert (are_locks_pending partner) Failure.locks_out_of_sync
  assert (are_locks_pending ours) Failure.locks_out_of_sync
