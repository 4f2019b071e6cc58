-- ===== src/Channel/Onchain.antt =====
-- transfer/channel.py: the handlers of new blocks and of what happened on-chain.
pub mod Lifecycle
use raiden_common.Channel.Actions.{Call, of_step}
use raiden_common.Channel.Send.{require}
use raiden_common.Channel.Status.{
  is_state_opened, is_state_closed, is_prior_to_closed, get_status, succeeded_at, started_at,
  is_falsy, set_closed,
}
use raiden_common.Channel.Withdraw.{kept, Step, events_for_expired_withdraws}
use raiden_common.Common.{
  ℕ, ◌+◌, not, ◌&&◌, ◌||◌, none, some, [], ◌∷◌, ◌++◌, ltb, if◌then◌else◌, ◌==◌, is_some, nat_eq,
}
use raiden_common.Common.Bytes.{bytes_eq}
use raiden_common.Common.Int.{int_eq}
use raiden_common.Common.Outcome.{Failure, Outcome, ok, raised, assert, ◌>>=◌, ◌>>◌}
use raiden_common.Events.{Event, TransitionResult}
use raiden_common.External.{CanonicalIdentifier, External}
use raiden_common.State.{signed, unsigned, NettingChannelState}

-- The part of `handle_block` for a closed channel: it is settled after the settle timeout.
unfoldable pub settle_if_due : Step → ℕ → ℕ → Outcome TransitionResult
unfolding get_status
settle_if_due s block_number block_hash =
    if not (is_state_closed (get_status s.channel)) then ok (of_step s) else (do
      close ← require s.channel.close_transaction Failure.close_transaction_not_set
      assert (not (is_falsy close.finished_block_number)) Failure.close_block_number_missing
      closed_block_number ← require close.finished_block_number Failure.close_block_number_missing
      if ltb (closed_block_number + s.channel.settle_timeout) block_number
          then ok (
              kept (record s.channel { settle_transaction = some (started_at block_number) })
                (s.events
                  ++ Event.contract_send_channel_settle s.channel.canonical_identifier block_hash
                    ∷ [])
                s.draws)
          else ok (of_step s))

unfoldable pub handle_block :
    External → NettingChannelState → ℕ → ℕ → Call → Outcome TransitionResult
unfolding get_status events_for_expired_withdraws settle_if_due
handle_block x channel_state block_number block_hash call = do
  assert (block_number == call.block_number) Failure.block_number_mismatch
  s ←
      if is_state_opened (get_status channel_state)
      then events_for_expired_withdraws x channel_state call.block_number call.draws
      else ok (record { channel = channel_state; events = []; draws = call.draws })
  settle_if_due s block_number block_hash

-- `ContractReceiveChannelClosed`
pub record ChannelClosed : Type 0 where
  pub transaction_from : ℕ
  pub canonical_identifier : CanonicalIdentifier
  pub block_number : ℕ
  pub block_hash : ℕ

-- The partner closed the channel, so its last balance proof has to be sent to the contract.
unfoldable pub update_transfer : NettingChannelState → ChannelClosed → ℕ → Outcome TransitionResult
update_transfer channel_state action draws =
    if action.transaction_from == channel_state.our_state.address
      || is_some channel_state.update_transaction
    then ok (kept channel_state [] draws)
    else elim channel_state.partner_state.balance_proof [
      | none ↦ ok (kept channel_state [] draws)
      | some (unsigned b) ↦ raised Failure.balance_proof_not_signed
      | some (signed b) ↦ ok (
          kept (record channel_state { update_transaction = some (started_at action.block_number) })
            (Event.contract_send_channel_update_transfer
                (action.block_number + channel_state.settle_timeout) b action.block_hash
              ∷ [])
            draws)
    ]

unfoldable pub handle_channel_closed :
    NettingChannelState → ChannelClosed → ℕ → Outcome TransitionResult
unfolding get_status set_closed update_transfer
handle_channel_closed channel_state action draws =
    if action.canonical_identifier.channel_identifier
        == channel_state.canonical_identifier.channel_identifier
      && is_prior_to_closed (get_status channel_state)
    then update_transfer (set_closed channel_state action.block_number) action draws
    else ok (kept channel_state [] draws)

unfoldable pub handle_channel_updated_transfer : NettingChannelState → ℕ → Call → TransitionResult
handle_channel_updated_transfer channel_state channel_identifier call =
    if channel_identifier == channel_state.canonical_identifier.channel_identifier
    then kept (record channel_state { update_transaction = some (succeeded_at call.block_number) })
        [] call.draws
    else kept channel_state [] call.draws
