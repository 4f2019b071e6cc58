-- ===== src/Channel/Status.antt =====
-- transfer/channel.py: the life cycle of a channel, as its transactions tell it, the block numbers
-- at which things expire, and the deposit.
use raiden_common.Common.{
  ℕ, ◌+◌, ◌-◌, ◌*◌, Bool, true, false, Option, none, some, ltb, leb, if◌then◌else◌, ◌==◌, is_some,
  nat_eq,
}
use raiden_common.Common.Bytes.{bytes_eq}
use raiden_common.Common.Int.{int_eq}
use raiden_common.Common.Outcome.{Failure, Outcome, ok, raised}
use raiden_common.State.{
  default_number_of_block_confirmations, ChannelState, TransactionResult,
  TransactionExecutionStatus, NettingChannelEndState, NettingChannelState,
}

abbrev pub is_state_opened : ChannelState → Bool
is_state_opened ChannelState.opened = true
is_state_opened other = false

abbrev pub is_state_closed : ChannelState → Bool
is_state_closed ChannelState.closed = true
is_state_closed other = false

abbrev pub is_state_settled : ChannelState → Bool
is_state_settled ChannelState.settled = true
is_state_settled other = false

-- `status in CHANNEL_STATES_PRIOR_TO_CLOSED`
abbrev pub is_prior_to_closed : ChannelState → Bool
is_prior_to_closed ChannelState.opened = true
is_prior_to_closed ChannelState.closing = true
is_prior_to_closed other = false

-- `transaction.result == SUCCESS`
abbrev pub finished_successfully : Option TransactionResult → Bool
finished_successfully (some TransactionResult.success) = true
finished_successfully other = false

-- The state that a transaction stands for: it succeeded, it is running, or it failed.
unfoldable pub transaction_state :
    ChannelState → ChannelState → TransactionExecutionStatus → ChannelState
transaction_state finished running t =
    if finished_successfully t.result
    then finished
    else if is_some t.finished_block_number
    then ChannelState.unusable
    else running

unfoldable pub status_before_settle : Option TransactionExecutionStatus → ChannelState
unfolding transaction_state
status_before_settle (some t) = transaction_state ChannelState.closed ChannelState.closing t
status_before_settle none = ChannelState.opened

unfoldable pub status_of :
    Option TransactionExecutionStatus → Option TransactionExecutionStatus → ChannelState
unfolding transaction_state status_before_settle
status_of (some t) close = transaction_state ChannelState.settled ChannelState.settling t
status_of none close = status_before_settle close

unfoldable pub get_status : NettingChannelState → ChannelState
unfolding status_of
get_status channel_state =
    status_of channel_state.settle_transaction channel_state.close_transaction

-- `TransactionExecutionStatus(None, block_number, SUCCESS)`
abbrev pub succeeded_at : ℕ → TransactionExecutionStatus
succeeded_at block_number = record {
  started_block_number = none;
  finished_block_number = some block_number;
  result = some TransactionResult.success;
}

-- `TransactionExecutionStatus(block_number, None, None)`
abbrev pub started_at : ℕ → TransactionExecutionStatus
started_at block_number = record {
  started_block_number = some block_number;
  finished_block_number = none;
  result = none;
}

-- `not number`: absent or zero.
abbrev pub is_falsy : Option ℕ → Bool
is_falsy none = true
is_falsy (some n) = n == 0

-- What `set_closed`, `set_settled` and `set_coop_settled` do to their transaction.
unfoldable pub finish : Option TransactionExecutionStatus → ℕ → Option TransactionExecutionStatus
finish none block_number = some (succeeded_at block_number)
finish (some t) block_number =
    if is_falsy t.finished_block_number
    then some (record t {
      finished_block_number = some block_number;
      result = some TransactionResult.success;
    })
    else some t

unfoldable pub set_closed : NettingChannelState → ℕ → NettingChannelState
unfolding finish
set_closed channel_state block_number = record channel_state {
  close_transaction = finish channel_state.close_transaction block_number;
}

unfoldable pub set_settled : NettingChannelState → ℕ → NettingChannelState
unfolding finish
set_settled channel_state block_number = record channel_state {
  settle_transaction = finish channel_state.settle_transaction block_number;
}

unfoldable pub set_coop_settled : NettingChannelEndState → ℕ → Outcome NettingChannelEndState
unfolding finish
set_coop_settled end_state block_number = elim end_state.initiated_coop_settle [
  | none ↦ raised Failure.no_coop_settle
  | some c ↦ ok (record end_state {
    initiated_coop_settle = some (record c { transaction = finish c.transaction block_number });
  })
]

-- The contract only ever raises a deposit.
unfoldable pub update_contract_balance : NettingChannelEndState → ℕ → NettingChannelEndState
update_contract_balance end_state contract_balance =
    if ltb end_state.contract_balance contract_balance
    then record end_state { contract_balance = contract_balance }
    else end_state

abbrev pub lock_timeout_blocks : Option ℕ → ℕ
lock_timeout_blocks none = 0
lock_timeout_blocks (some n) = n

-- `get_safe_initial_expiration`; a lock timeout of zero counts as none. The Python code's
-- `expiration - 1` is negative only where block number and timeout are both zero, which the
-- constructor of the channel state excludes.
unfoldable pub get_safe_initial_expiration : ℕ → ℕ → Option ℕ → ℕ
get_safe_initial_expiration block_number reveal_timeout lock_timeout =
    (if is_falsy lock_timeout
      then block_number + reveal_timeout * 2
      else block_number + lock_timeout_blocks lock_timeout)
    - 1

-- Five confirmations later, the receiver may accept an expiry message.
unfoldable pub get_receiver_expiration_threshold : ℕ → ℕ
get_receiver_expiration_threshold expiration = expiration + default_number_of_block_confirmations

unfoldable pub get_sender_expiration_threshold : ℕ → ℕ
get_sender_expiration_threshold expiration = expiration + default_number_of_block_confirmations * 2

unfoldable pub is_withdraw_expired : ℕ → ℕ → Bool
is_withdraw_expired block_number expiration_threshold = leb expiration_threshold block_number
