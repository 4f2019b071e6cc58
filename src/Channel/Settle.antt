-- ===== src/Channel/Settle.antt =====
-- transfer/channel.py: the handlers of settlement, deposits, withdraws and unlocks on-chain.
use raiden_common.Channel.Balance.{get_capacity}
use raiden_common.Channel.Status.{
  is_state_settled, get_status, set_settled, set_coop_settled, update_contract_balance,
}
use raiden_common.Channel.Withdraw.{kept}
use raiden_common.Common.{
  ℕ, Bool, true, false, not, ◌&&◌, ◌||◌, Option, none, some, List, [], ◌∷◌, if◌then◌else◌, ◌==◌,
  nat_eq,
}
use raiden_common.Common.Bytes.{Bytes, bytes_eq}
use raiden_common.Common.Dict.{erase}
use raiden_common.Common.Int.{ℤ, pos, negsuc, int_eq}
use raiden_common.Common.Outcome.{Failure, Outcome, ok, raised, ◌>>=◌}
use raiden_common.Events.{Event, TransitionResult}
use raiden_common.External.{External}
use raiden_common.State.{CoopSettleState, NettingChannelEndState, NettingChannelState}
use raiden_common.State.Make.{locksroot_of_no_locks}

-- `ContractReceiveChannelSettled`
pub record ChannelSettled : Type 0 where
  pub channel_identifier : ℕ
  pub our_onchain_locksroot : Bytes
  pub our_transferred_amount : ℕ
  pub partner_onchain_locksroot : Bytes
  pub partner_transferred_amount : ℕ
  pub block_number : ℕ
  pub block_hash : ℕ

-- The amounts of a settlement agreed by the initiator of `c`, and no locks on either side.
abbrev pub matches_coop_settle : External → ChannelSettled → CoopSettleState → ℕ → ℕ → Bool
matches_coop_settle x action c initiator_amount partner_amount =
    c.total_withdraw_initiator == pos initiator_amount
    && c.total_withdraw_partner == pos partner_amount
    && action.our_onchain_locksroot == locksroot_of_no_locks x
    && action.partner_onchain_locksroot == locksroot_of_no_locks x

-- The transaction of a settlement that one side initiated, and whether it was this one.
unfoldable pub settle_coop :
    External
    → ChannelSettled
    → NettingChannelEndState
    → ℕ
    → ℕ
    → Outcome (NettingChannelEndState × Bool)
unfolding set_coop_settled
settle_coop x action end_state initiator_amount partner_amount =
    elim end_state.initiated_coop_settle [
      | none ↦ ok (end_state, false)
      | some c ↦
          if matches_coop_settle x action c initiator_amount partner_amount
          then (do
            end_state' ← set_coop_settled end_state action.block_number
            ok (end_state', true))
          else ok (end_state, false)
    ]

unfoldable pub settle_sides :
    External → NettingChannelState → ChannelSettled → Outcome NettingChannelState
unfolding settle_coop
settle_sides x channel_state action = do
  let ours = action.our_transferred_amount
  let theirs = action.partner_transferred_amount
  (our_state, by_us) ← settle_coop x action channel_state.our_state ours theirs
  (partner_state, by_partner) ← settle_coop x action channel_state.partner_state theirs ours
  let settled = record channel_state { our_state = our_state; partner_state = partner_state }
  if by_us || by_partner
      then ok (record settled {
        our_state = record our_state { onchain_total_withdraw = pos ours };
        partner_state = record partner_state { onchain_total_withdraw = pos theirs };
      })
      else ok settled

unfoldable pub handle_channel_settled :
    External → NettingChannelState → ChannelSettled → ℕ → Outcome TransitionResult
unfolding set_settled settle_sides
handle_channel_settled x channel_state action draws =
    if not (action.channel_identifier == channel_state.canonical_identifier.channel_identifier)
    then ok (kept channel_state [] draws)
    else (do
      c ← settle_sides x (set_settled channel_state action.block_number) action
      let clear =
          action.our_onchain_locksroot == locksroot_of_no_locks x
          && action.partner_onchain_locksroot == locksroot_of_no_locks x
      if clear
          then ok (record { new_state = none; events = []; draws = draws })
          else ok (
              kept
                (record c {
                  our_state = record c.our_state {
                    onchain_locksroot = action.our_onchain_locksroot;
                  };
                  partner_state = record c.partner_state {
                    onchain_locksroot = action.partner_onchain_locksroot;
                  };
                })
                (Event.contract_send_channel_batch_unlock c.canonical_identifier
                    c.partner_state.address action.block_hash
                  ∷ [])
                draws))

-- `calculate_imbalance_fees`, with its floating-point part as a parameter.
unfoldable pub calculate_imbalance_fees : External → ℤ → ℕ → Outcome (Option (List (ℕ × ℕ)))
calculate_imbalance_fees x (negsuc n) fee = raised Failure.negative_capacity
calculate_imbalance_fees x (pos capacity) fee =
    if fee == 0 || capacity == 0
    then ok none
    else (do curve ← x.imbalance_curve capacity fee; ok (some curve))

-- `proportional_imbalance_fee` is the one of the fee configuration for the token of the channel.
unfoldable pub update_fee_schedule_after_balance_change :
    External → NettingChannelState → ℕ → Outcome NettingChannelState
unfolding get_capacity calculate_imbalance_fees
update_fee_schedule_after_balance_change x channel_state proportional_imbalance_fee = do
  imbalance_penalty ←
      calculate_imbalance_fees x (get_capacity channel_state) proportional_imbalance_fee
  ok (record channel_state {
    fee_schedule = record channel_state.fee_schedule { imbalance_penalty = imbalance_penalty };
  })

unfoldable pub handle_channel_deposit :
    External → NettingChannelState → ℕ → ℕ → ℕ → ℕ → Outcome TransitionResult
unfolding update_contract_balance update_fee_schedule_after_balance_change
handle_channel_deposit x channel_state participant_address contract_balance fee draws = do
  let ours = channel_state.our_state
  let partner = channel_state.partner_state
  let deposited =
      if participant_address == ours.address
      then record channel_state { our_state = update_contract_balance ours contract_balance }
      else if participant_address == partner.address
      then record channel_state { partner_state = update_contract_balance partner contract_balance }
      else channel_state
  channel ← update_fee_schedule_after_balance_change x deposited fee
  ok (kept channel [] draws)

-- The total withdraw of one side is now on-chain, and no longer pending.
unfoldable pub withdraw_from : NettingChannelEndState → ℤ → NettingChannelEndState
withdraw_from end_state amount = record end_state {
  withdraws_pending = erase amount end_state.withdraws_pending;
  onchain_total_withdraw = amount;
}

unfoldable pub handle_channel_withdraw :
    External → NettingChannelState → ℕ → ℤ → ℕ → ℕ → Outcome TransitionResult
unfolding withdraw_from update_fee_schedule_after_balance_change
handle_channel_withdraw x channel_state participant amount fee draws =
    let ours = channel_state.our_state in
    let partner = channel_state.partner_state in
    if not (participant == ours.address || participant == partner.address)
    then ok (kept channel_state [] draws)
    else (do
      let withdrawn =
          if participant == ours.address
          then record channel_state { our_state = withdraw_from ours amount }
          else record channel_state { partner_state = withdraw_from partner amount }
      channel ← update_fee_schedule_after_balance_change x withdrawn fee
      ok (kept channel [] draws))

-- `no_unlock_left_to_do`
abbrev pub is_unlocked : External → NettingChannelState → Bool
is_unlocked x channel_state =
    channel_state.our_state.onchain_locksroot == locksroot_of_no_locks x
    && channel_state.partner_state.onchain_locksroot == locksroot_of_no_locks x

unfoldable pub handle_channel_batch_unlock :
    External → NettingChannelState → ℕ → ℕ → TransitionResult
unfolding get_status
handle_channel_batch_unlock x channel_state sender draws =
    let ours = channel_state.our_state in
    let partner = channel_state.partner_state in
    let unlocked =
      if sender == ours.address
      then record channel_state {
        our_state = record ours { onchain_locksroot = locksroot_of_no_locks x };
      }
      else if sender == partner.address
      then record channel_state {
        partner_state = record partner { onchain_locksroot = locksroot_of_no_locks x };
      }
      else channel_state in
    if not (is_state_settled (get_status channel_state))
    then kept channel_state [] draws
    else if is_unlocked x unlocked
    then record { new_state = none; events = []; draws = draws }
    else kept unlocked [] draws
