-- ===== src/Channel/Transition.antt =====
-- transfer/channel.py: `handle_state_transitions`, by the class of the state change, and
-- `state_transition`, which checks the resulting state.
use raiden_common.Channel.Actions.{
  Call, handle_action_close, handle_action_coop_settle, handle_action_withdraw,
  handle_action_set_reveal_timeout, handle_receive_withdraw_request,
}
use raiden_common.Channel.Confirm.{
  handle_receive_withdraw_confirmation, handle_receive_withdraw_expired,
}
use raiden_common.Channel.Onchain.{
  handle_block, ChannelClosed, handle_channel_closed, handle_channel_updated_transfer,
}
use raiden_common.Channel.Sanity.{sanity_check}
use raiden_common.Channel.Settle.{
  ChannelSettled, handle_channel_settled, handle_channel_deposit, handle_channel_withdraw,
  handle_channel_batch_unlock,
}
use raiden_common.Channel.Withdraw.{pack_withdraw, kept}
use raiden_common.Common.{ℕ, Option, none, some, []}
use raiden_common.Common.Int.{ℤ}
use raiden_common.Common.Outcome.{Outcome, ok, ◌>>=◌, ◌>>◌}
use raiden_common.Events.{TransitionResult, ReceiveWithdraw, ReceiveWithdrawExpired}
use raiden_common.External.{External}
use raiden_common.State.{NettingChannelState}

pub data StateChange : Type 0 where
  action_close : ℕ → StateChange
  action_coop_settle : Option ℕ → StateChange
  action_withdraw : ℤ → Option ℕ → StateChange
  action_set_reveal_timeout : ℕ → StateChange
  receive_withdraw_request receive_withdraw_confirmation : ReceiveWithdraw → StateChange
  receive_withdraw_expired : ReceiveWithdrawExpired → StateChange
  -- the number and the hash of the block
  block : ℕ → ℕ → StateChange
  channel_closed : ChannelClosed → StateChange
  channel_updated_transfer : ℕ → StateChange
  channel_settled : ChannelSettled → StateChange
  -- the participant, the balance, and the imbalance fee configured for the token
  channel_deposit : ℕ → ℕ → ℕ → StateChange
  channel_withdraw : ℕ → ℤ → ℕ → StateChange
  channel_batch_unlock : ℕ → StateChange
  other : StateChange

unfoldable pub handle_state_transitions :
    External → NettingChannelState → StateChange → Call → Outcome TransitionResult
handle_state_transitions x c (StateChange.action_close identifier) call =
    handle_action_close c identifier call
handle_state_transitions x c (StateChange.action_coop_settle metadata) call =
    ok (handle_action_coop_settle x c metadata call)
handle_state_transitions x c (StateChange.action_withdraw amount metadata) call =
    ok (handle_action_withdraw x c amount metadata call)
handle_state_transitions x c (StateChange.action_set_reveal_timeout timeout) call =
    ok (handle_action_set_reveal_timeout c timeout call)
handle_state_transitions x c (StateChange.receive_withdraw_request action) call =
    handle_receive_withdraw_request x pack_withdraw c action call
handle_state_transitions x c (StateChange.receive_withdraw_confirmation action) call =
    handle_receive_withdraw_confirmation x pack_withdraw c action call
handle_state_transitions x c (StateChange.receive_withdraw_expired action) call =
    ok (handle_receive_withdraw_expired c action call)
handle_state_transitions x c (StateChange.block number hash) call =
    handle_block x c number hash call
handle_state_transitions x c (StateChange.channel_closed action) call =
    handle_channel_closed c action call.draws
handle_state_transitions x c (StateChange.channel_updated_transfer identifier) call =
    ok (handle_channel_updated_transfer c identifier call)
handle_state_transitions x c (StateChange.channel_settled action) call =
    handle_channel_settled x c action call.draws
handle_state_transitions x c (StateChange.channel_deposit participant balance fee) call =
    handle_channel_deposit x c participant balance fee call.draws
handle_state_transitions x c (StateChange.channel_withdraw participant amount fee) call =
    handle_channel_withdraw x c participant amount fee call.draws
handle_state_transitions x c (StateChange.channel_batch_unlock sender) call =
    ok (handle_channel_batch_unlock x c sender call.draws)
handle_state_transitions x c StateChange.other call = ok (kept c [] call.draws)

-- A channel that is not cleared has to pass the sanity check.
unfoldable pub state_transition :
    External → NettingChannelState → StateChange → Call → Outcome TransitionResult
unfolding handle_state_transitions sanity_check
state_transition x channel_state state_change call = do
  iteration ← handle_state_transitions x channel_state state_change call
  elim iteration.new_state [ none ↦ ok iteration | some c ↦ (do sanity_check x c; ok iteration) ]
