-- ===== src/Examples/Onchain.antt =====
-- Tests of secrets, withdraws, the life cycle of a channel, and the amounts.
use raiden_common.Channel.Actions.{handle_action_withdraw}
use raiden_common.Channel.Actions.Withdrawn.{
  handle_action_withdraw-withdrawn, state_transition-receive_withdraw_request,
}
use raiden_common.Channel.Balance.{
  get_amount_locked, get_capacity, get_balance_with, get_balance, get_distributable, get_next_nonce,
  is_valid_channel_total_withdraw,
}
use raiden_common.Channel.Balance.Conserve.{get_balance-conserve, get_distributable_bounds}
use raiden_common.Channel.Delivery.{Mirrors}
use raiden_common.Channel.Invariant.{IsSynced, IsSound}
use raiden_common.Channel.Locks.{
  is_lock_locked, get_secret, get_lock, register_secret_endstate, register_onchain_secret_endstate,
  register_offchain_secret,
}
use raiden_common.Channel.Locks.OnchainSecret.{register_onchain_secret_endstate-IsSound}
use raiden_common.Channel.Locks.Secrets.{
  register_secret_endstate-get_secret, register_offchain_secret-IsConsistent,
}
use raiden_common.Channel.Onchain.{
  settle_if_due, handle_block, ChannelClosed, update_transfer, handle_channel_closed,
}
use raiden_common.Channel.Onchain.Lifecycle.{
  handle_channel_closed-closed, IsDue, handle_block-IsDue,
}
use raiden_common.Channel.Sanity.{sanity_check}
use raiden_common.Channel.Sanity.Consistent.{IsConsistent, sanity_check-IsConsistent}
use raiden_common.Channel.Status.{
  transaction_state, status_before_settle, status_of, get_status, succeeded_at, started_at, finish,
  set_closed, get_safe_initial_expiration,
}
use raiden_common.Channel.Transition.{StateChange, state_transition}
use raiden_common.Channel.Withdraw.{kept, send_withdraw_request, events_for_expired_withdraws}
use raiden_common.Channel.Withdraw.Expired.{events_for_expired_withdraws-reference}
use raiden_common.Channel.Withdraw.Validate.{is_valid_total_withdraw}
use raiden_common.Common.{
  ◌+◌, ◌≡◌, refl, ◌⊎◌, inr, true, false, none, some, [], ◌∷◌, arith, length, list_contains, nat_eq,
}
use raiden_common.Common.Bytes.{bytes_beq, to_bytes, bytes_eq}
use raiden_common.Common.Dict.{lookup, insert, sum_values}
use raiden_common.Common.Int.{pos, ◌+ℤ◌, ◌-ℤ◌, ◌≤ℤ◌, int_eq}
use raiden_common.Common.Outcome.{Failure, ok, raised}
use raiden_common.Events.{Event, TransitionResult, ReceiveWithdraw}
use raiden_common.Examples.{
  toy, channel_id, empty_side, ten, fresh_channel, locked_channel, channel_between-IsConsistent,
  ten-Fits, locked_channel-IsConsistent, call_at,
}
use raiden_common.State.{
  uint256_max, ChannelState, PendingWithdrawState, NettingChannelEndState, NettingChannelState,
  largest_key, max_key, offchain_total_withdraw, total_withdraw,
}
use raiden_common.State.Encoding.{encoded-injective}
use raiden_common.State.Make.{encoded}

register_offchain_secret-IsConsistent_example :
    IsConsistent toy (register_offchain_secret locked_channel 6 7)
    × Mirrors locked_channel.our_state (register_offchain_secret locked_channel 6 7).our_state
    × Mirrors locked_channel.partner_state
        (register_offchain_secret locked_channel 6 7).partner_state
register_offchain_secret-IsConsistent_example =
    register_offchain_secret-IsConsistent toy locked_channel 6 7 locked_channel-IsConsistent

abbrev one_lock : NettingChannelEndState
unfolding encoded
one_lock = record (empty_side 2) {
  secrethashes_to_lockedlocks = (7, ten) ∷ [];
  pending_locks = encoded ten ∷ [];
}

one_lock-IsSynced : IsSynced one_lock
unfolding lookup list_contains bytes_beq to_bytes encoded one_lock
one_lock-IsSynced = record {
  locked = ((refl, ten-Fits, refl), refl, tt);
  unlocked = tt;
  onchain = tt;
  exclusive = λ h. ground arith;
}

register_secret_endstate-get_secret_example :
    (get_secret (register_secret_endstate one_lock 6 7) 7 ≡ some 6)
    × (get_lock (register_secret_endstate one_lock 6 7) 7 ≡ some ten)
    × (is_lock_locked (register_secret_endstate one_lock 6 7) 7 ≡ false)
unfolding lookup one_lock
register_secret_endstate-get_secret_example =
    register_secret_endstate-get_secret one_lock 6 7 ten one_lock-IsSynced refl

-- The channel that was closed in block 30.
abbrev closed_channel : NettingChannelState
closed_channel = record fresh_channel { close_transaction = some (succeeded_at 30) }

abbrev settling_channel : NettingChannelState
settling_channel = record closed_channel { settle_transaction = some (started_at 131) }

abbrev settling : TransitionResult
settling = kept settling_channel (Event.contract_send_channel_settle channel_id 0 ∷ []) 0

settles_at_131 : handle_block toy closed_channel 131 0 (call_at 131) ≡ ok settling
unfolding handle_block get_status status_of status_before_settle transaction_state settle_if_due
settles_at_131 = refl

waits_at_130 : handle_block toy closed_channel 130 0 (call_at 130) ≡ ok (kept closed_channel [] 0)
unfolding handle_block get_status status_of status_before_settle transaction_state settle_if_due
waits_at_130 = refl

handle_block-IsDue_example :
    (settling_channel.settle_transaction ≡ closed_channel.settle_transaction)
    ⊎ IsDue closed_channel 131
handle_block-IsDue_example =
    handle_block-IsDue toy closed_channel 131 0 (call_at 131) settling settling_channel
      settles_at_131 refl

abbrev closing_seen : ChannelClosed
closing_seen = record {
  transaction_from = 1;
  canonical_identifier = channel_id;
  block_number = 30;
  block_hash = 0;
}

closes_at_30 : handle_channel_closed fresh_channel closing_seen 0 ≡ ok (kept closed_channel [] 0)
unfolding handle_channel_closed get_status status_of status_before_settle set_closed finish
    update_transfer
closes_at_30 = refl

handle_channel_closed-closed_example : get_status closed_channel ≡ ChannelState.closed
unfolding get_status status_of status_before_settle
handle_channel_closed-closed_example =
    handle_channel_closed-closed fresh_channel closing_seen 0 (kept closed_channel [] 0)
      closed_channel refl refl closes_at_30 refl

-- A withdraw of 40 is accepted.
withdraws_40 :
    length (handle_action_withdraw toy fresh_channel (pos 40) none (call_at 12)).events ≡ 1
unfolding handle_action_withdraw is_valid_total_withdraw get_status status_of status_before_settle
    transaction_state total_withdraw offchain_total_withdraw max_key largest_key get_balance
    get_balance_with ◌-ℤ◌ ◌+ℤ◌ is_valid_channel_total_withdraw send_withdraw_request get_next_nonce
    insert get_safe_initial_expiration
withdraws_40 = refl

handle_action_withdraw-withdrawn_example :
    ((handle_action_withdraw toy fresh_channel (pos 40) none (call_at 12)).new_state
      ≡ some fresh_channel)
    ⊎ ((c' : NettingChannelState) × ((handle_action_withdraw toy fresh_channel
            (pos 40)
            none
            (call_at 12)).new_state
          ≡ some c')
        × (total_withdraw c'.our_state ≡ pos 40)
        × (get_balance c'.our_state c'.partner_state
              +ℤ (pos 40 -ℤ total_withdraw fresh_channel.our_state)
            ≡ get_balance fresh_channel.our_state fresh_channel.partner_state)
        × (pos 0 ≤ℤ get_balance c'.our_state c'.partner_state)
        × (c'.our_state.nonce ≡ fresh_channel.our_state.nonce + 1))
handle_action_withdraw-withdrawn_example =
    handle_action_withdraw-withdrawn toy fresh_channel (pos 40) none (call_at 12)

abbrev request_40 : ReceiveWithdraw
request_40 = record {
  sender = 2;
  message_identifier = 4;
  canonical_identifier = channel_id;
  total_withdraw = pos 40;
  nonce = 1;
  expiration = 50;
  signature = 2;
  participant = 2;
  coop_settle = false;
  sender_metadata = none;
}

state_transition-receive_withdraw_request_example :
    state_transition toy fresh_channel
      (StateChange.receive_withdraw_request request_40)
      (call_at 12)
    ≡ raised Failure.not_implemented
state_transition-receive_withdraw_request_example =
    state_transition-receive_withdraw_request toy fresh_channel request_40 (call_at 12)

abbrev pending_40 : PendingWithdrawState
pending_40 = record {
  total_withdraw = pos 40;
  expiration = 20;
  nonce = 1;
  recipient_metadata = none;
}

abbrev pending_60 : PendingWithdrawState
pending_60 = record {
  total_withdraw = pos 60;
  expiration = 50;
  nonce = 2;
  recipient_metadata = none;
}

-- Two withdraws of 1 are pending.
abbrev withdrawing : NettingChannelState
withdrawing = record fresh_channel {
  our_state = record (empty_side 1) {
    withdraws_pending = (pos 40, pending_40) ∷ (pos 60, pending_60) ∷ [];
    nonce = 2;
  };
}

withdrawing-IsConsistent : IsConsistent toy withdrawing
unfolding get_balance get_amount_locked sum_values max_key offchain_total_withdraw lookup ◌+ℤ◌ ◌-ℤ◌
withdrawing-IsConsistent =
    let base = channel_between-IsConsistent 1 2 in
    record {
      ours = record {
        synced = record {
          locked = tt;
          unlocked = tt;
          onchain = tt;
          exclusive = λ h. (refl, refl, refl);
        };
        backed = (refl, refl);
      };
      partner = base.partner;
      our_solvency = omega arith;
      partner_solvency = omega arith;
      our_bound = base.our_bound;
      partner_bound = base.partner_bound;
      ordered = (
        (refl, refl, (refl, refl, tt)),
        inr ((omega arith, (omega arith, tt)), ((omega arith, tt), (tt, tt))),
      );
    }

sanity_check-IsConsistent_example : sanity_check toy withdrawing ≡ ok tt
sanity_check-IsConsistent_example =
    sanity_check-IsConsistent toy withdrawing withdrawing-IsConsistent

-- The first of them has expired.
abbrev expired_40 : NettingChannelEndState
expired_40 = record (empty_side 1) {
  nonce = 3;
  withdraws_expired =
      record { total_withdraw = pos 40; expiration = 20; nonce = 1; recipient_metadata = none }
      ∷ [];
  withdraws_pending = (pos 60, pending_60) ∷ [];
}

abbrev expired_message : Event
expired_message = Event.send_withdraw_expired (record {
  header = record {
    recipient = 2;
    recipient_metadata = none;
    canonical_identifier = channel_id;
    message_identifier = 0;
  };
  total_withdraw = pos 40;
  participant = 1;
  expiration = 20;
  nonce = 3;
})

events_for_expired_withdraws-reference_example :
    events_for_expired_withdraws toy withdrawing 35 0
    ≡ ok (record {
      channel = record withdrawing { our_state = expired_40 };
      events = expired_message ∷ [];
      draws = 1;
    })
unfolding lookup
events_for_expired_withdraws-reference_example =
    events_for_expired_withdraws-reference toy withdrawing 35 0 (refl, refl, (refl, refl, tt))

get_balance-conserve_example :
    get_balance locked_channel.our_state locked_channel.partner_state
      +ℤ get_balance locked_channel.partner_state locked_channel.our_state
    ≡ get_capacity locked_channel
get_balance-conserve_example = get_balance-conserve locked_channel

get_distributable_bounds_example :
    (get_distributable toy locked_channel.partner_state locked_channel.our_state
        +ℤ pos (get_amount_locked locked_channel.partner_state)
      ≤ℤ get_balance locked_channel.partner_state locked_channel.our_state)
    × (get_distributable toy locked_channel.partner_state locked_channel.our_state
        ≤ℤ pos uint256_max)
get_distributable_bounds_example =
    get_distributable_bounds toy locked_channel.partner_state locked_channel.our_state

encoded-injective_example : ten ≡ ten
encoded-injective_example = encoded-injective ten ten ten-Fits ten-Fits refl

register_onchain_secret_endstate-IsSound_example :
    (s' : NettingChannelEndState) × (register_onchain_secret_endstate locked_channel.partner_state 6
        7 40 true
      ≡ ok s')
    × IsSound toy s'
    × (get_amount_locked s' ≡ get_amount_locked locked_channel.partner_state)
register_onchain_secret_endstate-IsSound_example =
    register_onchain_secret_endstate-IsSound toy locked_channel.partner_state 6 7 40
      locked_channel-IsConsistent.partner
