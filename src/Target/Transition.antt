-- ===== src/Target/Transition.antt =====
-- mediated_transfer/target.py: `state_transition`, by the class of the state change.
use raiden_common.Channel.Actions.{Call}
use raiden_common.Common.{ℕ, Option, none, some, [], ◌==◌, nat_eq}
use raiden_common.Common.Bytes.{bytes_eq}
use raiden_common.Common.Int.{int_eq}
use raiden_common.Common.Outcome.{Failure, Outcome, ok, raised, assert, ◌>>=◌, ◌>>◌}
use raiden_common.Events.{
  ReceiveUnlock, ReceiveLockExpired, ReceiveSecretReveal, ContractReceiveSecretReveal,
}
use raiden_common.External.{External}
use raiden_common.State.{NettingChannelState}
use raiden_common.Target.{
  TargetTransferState, TargetResult, ActionInitTarget, check_target, handle_inittarget,
}
use raiden_common.Target.Handlers.{
  handle_target_secretreveal, handle_target_onchain_secretreveal, handle_target_unlock,
  handle_target_block, handle_target_lock_expired,
}

pub data TargetChange : Type 0 where
  init : ActionInitTarget → TargetChange
  -- the number and the hash of the block
  block : ℕ → ℕ → TargetChange
  secretreveal : ReceiveSecretReveal → TargetChange
  onchain_secretreveal : ContractReceiveSecretReveal → TargetChange
  unlock : ReceiveUnlock → TargetChange
  lock_expired : ReceiveLockExpired → TargetChange
  other : TargetChange

-- `TransitionResult(target_state, [])`
abbrev pub unchanged_target : Option TargetTransferState → NettingChannelState → ℕ → TargetResult
unchanged_target target_state channel_state draws = record {
  new_state = target_state;
  channel = channel_state;
  events = [];
  draws = draws;
}

-- The handler of a state change that asserts the task to be there.
unfoldable pub handle_running_target :
    External
    → TargetTransferState
    → TargetChange
    → NettingChannelState
    → Call
    → Outcome TargetResult
handle_running_target x task (TargetChange.block number hash) c call = do
  assert (number == call.block_number) Failure.block_number_mismatch
  handle_target_block task c number hash call.draws
handle_running_target x task (TargetChange.secretreveal reveal) c call =
    ok (handle_target_secretreveal x task reveal c call)
handle_running_target x task (TargetChange.onchain_secretreveal reveal) c call =
    handle_target_onchain_secretreveal task reveal c call.draws
handle_running_target x task (TargetChange.unlock message) c call =
    handle_target_unlock x task message c call.draws
handle_running_target x task (TargetChange.lock_expired message) c call =
    ok (handle_target_lock_expired x task message c call)
handle_running_target x task (TargetChange.init action) c call =
    ok (unchanged_target (some task) c call.draws)
handle_running_target x task TargetChange.other c call =
    ok (unchanged_target (some task) c call.draws)

-- The part of `state_transition` before the sanity check.
unfoldable pub handle_target_change :
    External
    → Option TargetTransferState
    → TargetChange
    → NettingChannelState
    → Call
    → Outcome TargetResult
handle_target_change x none (TargetChange.init action) c call = handle_inittarget x action c call
handle_target_change x none TargetChange.other c call = ok (unchanged_target none c call.draws)
-- The block number is compared first.
handle_target_change x none (TargetChange.block number hash) c call = do
  assert (number == call.block_number) Failure.block_number_mismatch
  raised Failure.task_missing
handle_target_change x none change c call = raised Failure.task_missing
handle_target_change x (some task) change c call = handle_running_target x task change c call

unfoldable pub target_transition :
    External
    → Option TargetTransferState
    → TargetChange
    → NettingChannelState
    → Call
    → Outcome TargetResult
target_transition x target_state change c call = do
  iteration ← handle_target_change x target_state change c call
  check_target target_state iteration.new_state iteration.channel
  ok iteration
