-- ===== src/Target/Handlers.antt =====
-- mediated_transfer/target.py: the handlers of a task that runs.
-- `handle_offchain_secretreveal`
use raiden_common.Channel.Actions.{Call}
use raiden_common.Channel.Locks.{
  is_lock_expired, is_ok, is_transfer_expired, is_secret_known, get_lock, register_offchain_secret,
  register_onchain_secret,
}
use raiden_common.Channel.Receive.{
  canonical_identifier_unordered_queue, handle_receive_lock_expired, handle_unlock,
}
use raiden_common.Channel.Status.{get_receiver_expiration_threshold}
use raiden_common.Common.{
  ℕ, ◌+◌, true, not, ◌&&◌, none, some, List, [], ◌∷◌, ◌++◌, if◌then◌else◌, is_some,
}
use raiden_common.Common.Outcome.{Outcome, ok, ◌>>=◌}
use raiden_common.Events.{
  Reason, LockedTransferSignedState, Event, ReceiveUnlock, ReceiveLockExpired, ReceiveSecretReveal,
  ContractReceiveSecretReveal,
}
use raiden_common.External.{External}
use raiden_common.SecretRegistry.{is_valid_secret_reveal}
use raiden_common.State.{NettingChannelState}
use raiden_common.Target.{
  TargetState, TargetTransferState, TargetResult, is_expired, payer_address_metadata, waits,
  claim_failed, events_for_target_secretreveal,
}

unfoldable pub handle_target_secretreveal :
    External → TargetTransferState → ReceiveSecretReveal → NettingChannelState → Call → TargetResult
unfolding is_valid_secret_reveal is_transfer_expired register_offchain_secret payer_address_metadata
handle_target_secretreveal x target_state reveal channel_state call =
    let transfer = target_state.transfer in
    if is_valid_secret_reveal reveal.secrethash transfer.lock.secrethash
      && not (is_transfer_expired transfer.lock channel_state call.block_number)
    then record {
      new_state =
          some (record target_state {
            state = TargetState.reveal_secret;
            secret = some reveal.secret;
          });
      channel = register_offchain_secret channel_state reveal.secret reveal.secrethash;
      events =
          Event.send_secret_reveal (record {
            header = record {
              recipient = target_state.from_hop.node_address;
              recipient_metadata = payer_address_metadata transfer;
              canonical_identifier = canonical_identifier_unordered_queue;
              message_identifier = x.randint call.draws;
            };
            secret = reveal.secret;
          })
          ∷ [];
      draws = call.draws + 1;
    }
    else waits target_state channel_state [] call.draws

-- `handle_onchain_secretreveal`
unfoldable pub handle_target_onchain_secretreveal :
    TargetTransferState
    → ContractReceiveSecretReveal
    → NettingChannelState
    → ℕ
    → Outcome TargetResult
unfolding is_valid_secret_reveal register_onchain_secret
handle_target_onchain_secretreveal target_state reveal channel_state draws =
    if is_valid_secret_reveal reveal.secrethash target_state.transfer.lock.secrethash
    then (do
      c ←
          register_onchain_secret channel_state reveal.secret reveal.secrethash reveal.block_number
            true
      ok (
          waits
            (record target_state {
              state = TargetState.onchain_unlock;
              secret = some reveal.secret;
            })
            c [] draws))
    else ok (waits target_state channel_state [] draws)

-- The two events of a payment that was received.
abbrev pub received_payment : NettingChannelState → LockedTransferSignedState → List Event
received_payment channel_state transfer =
    Event.event_payment_received_success (record {
      token_network_registry_address = channel_state.token_network_registry_address;
      token_network_address = channel_state.canonical_identifier.token_network_address;
      identifier = transfer.payment_identifier;
      amount = transfer.lock.amount;
      initiator = transfer.initiator;
    })
    ∷ Event.event_unlock_claim_success transfer.payment_identifier transfer.lock.secrethash
    ∷ []

-- `handle_unlock`
unfoldable pub handle_target_unlock :
    External → TargetTransferState → ReceiveUnlock → NettingChannelState → ℕ → Outcome TargetResult
handle_target_unlock x target_state unlock channel_state draws = do
  let transfer = target_state.transfer
  handled ← handle_unlock x channel_state unlock (payer_address_metadata transfer)
  ok (
      if handled.is_valid
      then record {
        new_state = none;
        channel = handled.channel;
        events = handled.events ++ received_payment handled.channel transfer;
        draws = draws;
      }
      else waits target_state handled.channel handled.events draws)

-- `handle_block`
unfoldable pub handle_target_block :
    TargetTransferState → NettingChannelState → ℕ → ℕ → ℕ → Outcome TargetResult
handle_target_block target_state channel_state block_number block_hash draws =
    let lock = target_state.transfer.lock in
    let lock_has_expired = is_ok (
      is_lock_expired channel_state.our_state lock block_number
        (get_receiver_expiration_threshold lock.expiration)) in
    if lock_has_expired && not (is_expired target_state.state)
    then ok (
        waits (record target_state { state = TargetState.expired }) channel_state
          (claim_failed target_state.transfer Reason.lock_has_expired ∷ []) draws)
    else if is_secret_known channel_state.partner_state lock.secrethash
    then (do
      (task, events) ←
          events_for_target_secretreveal target_state channel_state block_number block_hash
      ok (waits task channel_state events draws))
    else ok (waits target_state channel_state [] draws)

-- `handle_lock_expired`; its assertion is that a channel state was returned, which it always is.
unfoldable pub handle_target_lock_expired :
    External → TargetTransferState → ReceiveLockExpired → NettingChannelState → Call → TargetResult
handle_target_lock_expired x target_state expiry channel_state call =
    let transfer = target_state.transfer in
    let handled =
      handle_receive_lock_expired x channel_state expiry call.block_number
        (payer_address_metadata transfer) in
    if is_some (get_lock handled.channel.partner_state transfer.lock.secrethash)
    then waits target_state handled.channel handled.events call.draws
    else record {
      new_state = none;
      channel = handled.channel;
      events = handled.events ++ claim_failed transfer Reason.lock_has_expired ∷ [];
      draws = call.draws;
    }
