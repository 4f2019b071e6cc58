-- ===== src/Channel/Actions/Withdrawn.antt =====
-- Withdraws that this node starts, and requests that it receives.
use raiden_common.Channel.Actions.{Call, handle_action_withdraw, handle_receive_withdraw_request}
use raiden_common.Channel.Balance.{get_balance, get_next_nonce}
use raiden_common.Channel.Status.{
  is_state_opened, is_prior_to_closed, get_status, get_safe_initial_expiration,
}
use raiden_common.Channel.Transition.{StateChange, handle_state_transitions, state_transition}
use raiden_common.Channel.Withdraw.{pack_withdraw, send_withdraw_request}
use raiden_common.Channel.Withdraw.Totals.{total_withdraw-insert, get_balance-withdrawn}
use raiden_common.Channel.Withdraw.Validate.{
  is_valid_withdraw, is_valid_total_withdraw, is_valid_withdraw_request,
}
use raiden_common.Common.{
  ℕ, ◌+◌, ◌≡◌, refl, ap, ◌⊎◌, inl, inr, Bool, true, false, Option, none, some, arith, nat_eq,
}
use raiden_common.Common.Bytes.{bytes_eq}
use raiden_common.Common.Dict.{insert}
use raiden_common.Common.Int.{
  ℤ, pos, pos_part, neg_part, ◌+ℤ◌, ◌-ℤ◌, ◌≤ℤ◌, -ℤ_parts, int_laws, int_eq,
}
use raiden_common.Common.Outcome.{Failure, raised}
use raiden_common.Events.{SuccessOrError, ReceiveWithdraw, SuccessOrError-cases}
use raiden_common.External.{External}
use raiden_common.State.{PendingWithdrawState, NettingChannelState, total_withdraw}

-- What holds of an accepted total withdraw.
is_valid_total_withdraw-success :
    (c : NettingChannelState) (amount : ℤ) (allow_zero : Bool)
    → is_valid_total_withdraw c amount allow_zero ≡ SuccessOrError.success
    → (total_withdraw c.our_state ≤ℤ amount)
      × (amount -ℤ total_withdraw c.our_state ≤ℤ get_balance c.our_state c.partner_state)
      × (is_state_opened (get_status c) ≡ true)
unfolding is_valid_total_withdraw
is_valid_total_withdraw-success c amount allow_zero h =
    (ground (arith, -ℤ_parts amount (total_withdraw c.our_state)), ground arith, ground arith)

-- A withdraw that this node starts is refused and changes nothing, or the requested total is the
-- new total withdraw, what it adds is taken from our balance, which stays at zero or above, and
-- the nonce is the next one.
pub handle_action_withdraw-withdrawn :
    (x : External) (c : NettingChannelState) (amount : ℤ) (m : Option ℕ) (call : Call)
    → ((handle_action_withdraw x c amount m call).new_state ≡ some c)
      ⊎ ((c' : NettingChannelState) × ((handle_action_withdraw x c amount m call).new_state
            ≡ some c')
          × (total_withdraw c'.our_state ≡ amount)
          × (get_balance c'.our_state c'.partner_state +ℤ (amount -ℤ total_withdraw c.our_state)
              ≡ get_balance c.our_state c.partner_state)
          × (pos 0 ≤ℤ get_balance c'.our_state c'.partner_state)
          × (c'.our_state.nonce ≡ c.our_state.nonce + 1))
unfolding handle_action_withdraw send_withdraw_request get_next_nonce
handle_action_withdraw-withdrawn x c amount m call =
    elim (SuccessOrError-cases (is_valid_total_withdraw c amount false)) [
      | inr (r, e) ↦ inl (rw (e, handle_action_withdraw) refl)
      | inl e ↦
          let facts = is_valid_total_withdraw-success c amount false e in
          let prior : is_prior_to_closed (get_status c) ≡ true = ground arith in
          let ours = c.our_state in
          let expiration = get_safe_initial_expiration call.block_number c.reveal_timeout none in
          let w : PendingWithdrawState = record {
            total_withdraw = amount;
            expiration = expiration;
            nonce = ours.nonce + 1;
            recipient_metadata = m;
          } in
          let s' = record ours {
            nonce = ours.nonce + 1;
            withdraws_pending = insert amount w ours.withdraws_pending;
          } in
          let total = total_withdraw-insert ours s' amount w refl refl facts.0 in
          let balance = get_balance-withdrawn ours s' c.partner_state amount refl refl total in
          inr (
            record c { our_state = s' },
            rw (e, handle_action_withdraw, prior, send_withdraw_request) refl,
            total,
            balance,
            omega (int_laws, facts.1, ap pos_part balance, ap neg_part balance),
            refl,
          )
    ]

-- No withdraw request of a partner is ever processed: whatever the channel and the request, the
-- state transition raises, since the packing of withdraw messages is not implemented.
pub state_transition-receive_withdraw_request :
    (x : External) (c : NettingChannelState) (request : ReceiveWithdraw) (call : Call)
    → state_transition x c (StateChange.receive_withdraw_request request) call
      ≡ raised Failure.not_implemented
unfolding state_transition handle_state_transitions handle_receive_withdraw_request
    is_valid_withdraw_request is_valid_withdraw pack_withdraw
state_transition-receive_withdraw_request x c request call = refl
