-- ===== src/Mediator/Transition.antt =====
-- mediator.py: `state_transition`, by the class of the state change.
use raiden_common.Channel.Actions.{Call}
use raiden_common.Common.{ℕ, Option, none, some, []}
use raiden_common.Common.Outcome.{Failure, Outcome, ok, raised, ◌>>=◌, ◌>>◌}
use raiden_common.Events.{
  ReceiveUnlock, ReceiveLockExpired, ReceiveSecretReveal, ContractReceiveSecretReveal,
  ReceiveTransferRefund,
}
use raiden_common.External.{External}
use raiden_common.Mediator.{MediatorTransferState, MediatorStep, MediatorResult}
use raiden_common.Mediator.Handlers.{
  ActionInitMediator, as_result, stays, handle_init_mediator, handle_mediator_block,
  handle_mediator_refund, handle_mediator_secretreveal, handle_mediator_onchain_secretreveal,
}
use raiden_common.Mediator.Received.{handle_mediator_unlock, handle_mediator_lock_expired}
use raiden_common.Mediator.Sanity.{check_mediator, clear_if_finalized}
use raiden_common.Routes.{ChannelMap}

pub data MediatorChange : Type 0 where
  init : ActionInitMediator → MediatorChange
  -- the number and the hash of the block
  block : ℕ → ℕ → MediatorChange
  refund : ReceiveTransferRefund → MediatorChange
  secretreveal : ReceiveSecretReveal → MediatorChange
  onchain_secretreveal : ContractReceiveSecretReveal → MediatorChange
  unlock : ReceiveUnlock → MediatorChange
  lock_expired : ReceiveLockExpired → MediatorChange
  other : MediatorChange

-- The handlers that assert the task to be there; a block comes with its own number and hash.
unfoldable pub handle_running_mediator :
    External → MediatorTransferState → MediatorChange → ChannelMap → Call → Outcome MediatorStep
handle_running_mediator x state (MediatorChange.block number hash) m call =
    handle_mediator_block x state m (record call { block_number = number; block_hash = hash })
handle_running_mediator x state (MediatorChange.refund message) m call =
    handle_mediator_refund x state message m call
handle_running_mediator x state (MediatorChange.secretreveal reveal) m call =
    handle_mediator_secretreveal x state reveal m call
handle_running_mediator x state (MediatorChange.onchain_secretreveal reveal) m call =
    handle_mediator_onchain_secretreveal x state reveal m call.draws
handle_running_mediator x state (MediatorChange.unlock message) m call =
    handle_mediator_unlock x state message m call.draws
handle_running_mediator x state (MediatorChange.lock_expired message) m call =
    ok (handle_mediator_lock_expired x state message m call)
handle_running_mediator x state (MediatorChange.init action) m call =
    ok (stays state m [] call.draws)
handle_running_mediator x state MediatorChange.other m call = ok (stays state m [] call.draws)

-- The part of `state_transition` before the sanity check.
unfoldable pub handle_mediator_change :
    External
    → Option MediatorTransferState
    → MediatorChange
    → ChannelMap
    → Call
    → Outcome MediatorResult
handle_mediator_change x none (MediatorChange.init action) m call =
    handle_init_mediator x action m call
handle_mediator_change x none MediatorChange.other m call =
    ok (record { new_state = none; channels = m; events = []; draws = call.draws })
handle_mediator_change x none change m call = raised Failure.task_missing
handle_mediator_change x (some state) change m call = do
  step ← handle_running_mediator x state change m call
  ok (as_result step)

abbrev pub check_mediator_result : MediatorResult → Outcome (Unit {0})
check_mediator_result r = elim r.new_state [
  | none ↦ ok tt
  | some state ↦ check_mediator state r.channels
]

unfoldable pub mediator_transition :
    External
    → Option MediatorTransferState
    → MediatorChange
    → ChannelMap
    → Call
    → Outcome MediatorResult
mediator_transition x mediator_state change m call = do
  iteration ← handle_mediator_change x mediator_state change m call
  check_mediator_result iteration
  ok (clear_if_finalized iteration)
