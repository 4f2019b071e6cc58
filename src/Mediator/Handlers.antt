-- ===== src/Mediator/Handlers.antt =====
-- mediator.py: the handlers of state changes.
use raiden_common.Channel.Actions.{Call}
use raiden_common.Channel.Locks.{is_transfer_expired}
use raiden_common.Channel.Receive.{handle_receive_lockedtransfer, handle_refundtransfer}
use raiden_common.Channel.Send.{require}
use raiden_common.Common.{
  ℕ, Bool, false, not, ◌&&◌, ◌||◌, none, some, List, [], ◌∷◌, ◌++◌, if◌then◌else◌, is_some, ◌==◌,
  nat_eq,
}
use raiden_common.Common.Bytes.{bytes_eq}
use raiden_common.Common.Int.{int_eq}
use raiden_common.Common.Outcome.{Failure, Outcome, ok, ◌>>=◌}
use raiden_common.Events.{
  LockedTransferSignedState, Event, ReceiveSecretReveal, ContractReceiveSecretReveal,
  ReceiveTransferRefund,
}
use raiden_common.External.{External}
use raiden_common.Mediator.{MediatorTransferState, MediatorStep, MediatorResult, get_payer_channel}
use raiden_common.Mediator.Expire.{events_for_expired_pairs, events_to_remove_expired_locks}
use raiden_common.Mediator.Forward.{mediate_transfer}
use raiden_common.Mediator.Onchain.{
  events_for_onchain_secretreveal_if_dangerzone, events_for_onchain_secretreveal_if_closed,
}
use raiden_common.Mediator.Pay.{events_for_balanceproof}
use raiden_common.Mediator.Sanity.{last_pair}
use raiden_common.Mediator.Secrets.{
  get_waiting_channel, set_offchain_secret, set_onchain_secret, set_offchain_reveal_state,
  events_for_secretreveal,
}
use raiden_common.Routes.{
  HopState, RouteState, get_address_metadata, ChannelMap, get_channel, set_channel,
}
use raiden_common.SecretRegistry.{is_valid_secret_reveal}
use raiden_common.Target.{payer_address_metadata}

pub record ActionInitMediator : Type 0 where
  pub from_hop : HopState
  pub candidate_route_states : List RouteState
  pub from_transfer : LockedTransferSignedState

abbrev pub as_result : MediatorStep → MediatorResult
as_result s = record {
  new_state = some s.state;
  channels = s.channels;
  events = s.events;
  draws = s.draws;
}

-- `TransitionResult(mediator_state, events)` with the channels as they are.
abbrev pub stays : MediatorTransferState → ChannelMap → List Event → ℕ → MediatorStep
stays state m events draws = record { state = state; channels = m; events = events; draws = draws }

-- `handle_init`
unfoldable pub handle_init_mediator :
    External → ActionInitMediator → ChannelMap → Call → Outcome MediatorResult
handle_init_mediator x action m call =
    let transfer = action.from_transfer in
    elim (get_channel m action.from_hop.channel_identifier) [
      | none ↦ ok (record { new_state = none; channels = m; events = []; draws = call.draws })
      | some (r, payer_channel) ↦
          let handled =
            handle_receive_lockedtransfer x payer_channel transfer
              (payer_address_metadata transfer) in
          let m' = set_channel m r handled.channel in
          let state : MediatorTransferState = record {
            secrethash = transfer.lock.secrethash;
            routes = action.candidate_route_states;
            refunded_channels = [];
            secret = none;
            transfers_pair = [];
            waiting_transfer = none;
          } in
          if handled.is_valid
          then (do
            step ← mediate_transfer x state handled.channel m' transfer call.block_number call.draws
            ok (as_result (record step { events = handled.events ++ step.events })))
          else ok (record {
            new_state = none;
            channels = m';
            events = handled.events;
            draws = call.draws;
          })
    ]

-- Whether the transfer was sent on.
abbrev pub was_mediated : ℕ → List Event → Bool
was_mediated secrethash [] = false
was_mediated secrethash (Event.send_locked_transfer e ∷ events) =
    e.transfer.lock.secrethash == secrethash || was_mediated secrethash events
was_mediated secrethash (other ∷ events) = was_mediated secrethash events

-- A transfer that waits is tried again.
unfoldable pub retry_waiting :
    External → MediatorTransferState → ChannelMap → Call → Outcome MediatorStep
retry_waiting x state m call = elim state.waiting_transfer [
  | none ↦ ok (stays state m [] call.draws)
  | some w ↦ elim (get_waiting_channel m w) [
    | none ↦ ok (stays state m [] call.draws)
    | some (r, payer_channel) ↦ (do
      step ← mediate_transfer x state payer_channel m w.transfer call.block_number call.draws
      ok (
          if was_mediated w.transfer.lock.secrethash step.events
          then record step { state = record step.state { waiting_transfer = none } }
          else step))
  ]
]

-- `handle_block`
unfoldable pub handle_mediator_block :
    External → MediatorTransferState → ChannelMap → Call → Outcome MediatorStep
handle_mediator_block x state m call = do
  step ← retry_waiting x state m call
  removed ← events_to_remove_expired_locks x step.state step.channels call.block_number step.draws
  (pairs, reveals, sent) ←
      events_for_onchain_secretreveal_if_dangerzone removed.channels step.state.secrethash
        removed.pairs call.block_number call.block_hash
  let (final, failures) =
      events_for_expired_pairs (record step.state { transfers_pair = pairs }) removed.channels
        call.block_number
  ok (
      stays final removed.channels (step.events ++ failures ++ reveals ++ removed.events)
        removed.draws)

-- `handle_refundtransfer`
unfoldable pub handle_mediator_refund :
    External
    → MediatorTransferState
    → ReceiveTransferRefund
    → ChannelMap
    → Call
    → Outcome MediatorStep
handle_mediator_refund x state refund m call =
    if is_some state.secret then ok (stays state m [] call.draws) else (do
      pair ← require (last_pair state.transfers_pair) Failure.index_error
      let transfer = refund.transfer
      elim (get_channel m transfer.balance_proof.canonical_identifier.channel_identifier) [
        | none ↦ ok (stays state m [] call.draws)
        | some (r, payer_channel) ↦
            let handled = handle_refundtransfer x pair.payee_transfer payer_channel refund (
              get_address_metadata payer_channel.partner_state.address
                pair.payee_transfer.route_states) in
            let m' = set_channel m r handled.channel in
            let refunded = record state {
              refunded_channels =
                  state.refunded_channels
                  ++ payer_channel.canonical_identifier.channel_identifier ∷ [];
            } in
            if handled.is_valid
            then (do
              step ←
                  mediate_transfer x refunded handled.channel m' transfer call.block_number
                    call.draws
              ok (record step { events = handled.events ++ step.events }))
            else ok (stays state m' handled.events call.draws)
      ])

-- `secret_learned`
unfoldable pub secret_learned :
    External → MediatorTransferState → ChannelMap → Call → ℕ → ℕ → ℕ → Outcome MediatorStep
secret_learned x state m call secret secrethash payee_address = do
  let (learned, m', unexpected) = set_offchain_secret state m secret secrethash
  let informed = set_offchain_reveal_state payee_address learned.transfers_pair
  let (closed, onchain, sent) =
      events_for_onchain_secretreveal_if_closed m' informed secret secrethash call.block_hash
  let (revealed, reveals, draws) = events_for_secretreveal x secret closed call.draws
  paid ← events_for_balanceproof x call.block_number secret secrethash revealed m' draws
  ok (
      stays (record learned { transfers_pair = paid.pairs }) paid.channels
        (unexpected ++ reveals ++ paid.events ++ onchain) paid.draws)

-- `handle_offchain_secretreveal`
unfoldable pub handle_mediator_secretreveal :
    External
    → MediatorTransferState
    → ReceiveSecretReveal
    → ChannelMap
    → Call
    → Outcome MediatorStep
handle_mediator_secretreveal x state reveal m call =
    let ignored = stays state m [] call.draws in
    elim (last_pair state.transfers_pair) [
      | none ↦ ok ignored
      | some p ↦ elim (get_payer_channel m p) [
        | none ↦ ok ignored
        | some (r, c) ↦
            if not (is_some state.secret)
              && is_valid_secret_reveal reveal.secrethash state.secrethash
              && not (is_transfer_expired p.payer_transfer.lock c call.block_number)
            then secret_learned x state m call reveal.secret reveal.secrethash reveal.sender
            else ok ignored
      ]
    ]

-- `handle_onchain_secretreveal`
unfoldable pub handle_mediator_onchain_secretreveal :
    External
    → MediatorTransferState
    → ContractReceiveSecretReveal
    → ChannelMap
    → ℕ
    → Outcome MediatorStep
handle_mediator_onchain_secretreveal x state reveal m draws =
    if is_valid_secret_reveal reveal.secrethash state.secrethash
    then (do
      (learned, m', unexpected) ←
          set_onchain_secret state m reveal.secret reveal.secrethash reveal.block_number
      paid ←
          events_for_balanceproof x reveal.block_number reveal.secret reveal.secrethash
            learned.transfers_pair m' draws
      ok (
          stays (record learned { transfers_pair = paid.pairs }) paid.channels
            (unexpected ++ paid.events) paid.draws))
    else ok (stays state m [] draws)
