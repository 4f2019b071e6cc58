-- ===== src/Mediator/Received.antt =====
-- mediator.py: the handlers of unlocks and expired locks, which loop over the pairs.
use raiden_common.Channel.Actions.{Call}
use raiden_common.Channel.Locks.{get_lock}
use raiden_common.Channel.Receive.{Handled, handle_receive_lock_expired, handle_unlock}
use raiden_common.Common.{
  ℕ, Bool, true, false, none, some, List, [], ◌∷◌, ◌++◌, if◌then◌else◌, is_some, ◌==◌, nat_eq,
}
use raiden_common.Common.Bytes.{bytes_eq}
use raiden_common.Common.Int.{int_eq}
use raiden_common.Common.Outcome.{Outcome, ok, ◌>>=◌}
use raiden_common.Events.{Event, ReceiveUnlock, ReceiveLockExpired}
use raiden_common.External.{External}
use raiden_common.Mediator.{
  PayerState, MediationPairState, MediatorTransferState, MediatorStep, get_payer_channel,
}
use raiden_common.Mediator.Handlers.{stays}
use raiden_common.Mediator.Secrets.{get_waiting_channel}
use raiden_common.Routes.{RouteState, get_address_metadata, ChannelMap, get_channel, set_channel}
use raiden_common.State.{NettingChannelState}

-- Pairs, channels and events.
abbrev pub PairChanges : Type 0
PairChanges = List MediationPairState × ChannelMap × List Event

-- One round of `handle_unlock`.
unfoldable pub unlock_pair :
    External
    → ReceiveUnlock
    → List RouteState
    → MediationPairState
    → ChannelMap
    → Outcome (MediationPairState × ChannelMap × List Event)
unlock_pair x unlock routes p m =
    let sender = unlock.balance_proof.sender in
    if p.payer_transfer.balance_proof.sender == sender
    then (elim (get_channel m unlock.balance_proof.canonical_identifier.channel_identifier) [
      | none ↦ ok (p, m, [])
      | some (r, c) ↦ (do
        handled ← handle_unlock x c unlock (get_address_metadata sender routes)
        let m' = set_channel m r handled.channel
        ok (
            if handled.is_valid
            then (
              record p { payer_state = PayerState.balance_proof },
              m',
              handled.events
                  ++ Event.event_unlock_claim_success p.payee_transfer.payment_identifier
                      p.payee_transfer.lock.secrethash
                    ∷ [],
            )
            else (p, m', handled.events)))
    ])
    else ok (p, m, [])

unfoldable pub unlock_pairs :
    External
    → ReceiveUnlock
    → List RouteState
    → List MediationPairState
    → ChannelMap
    → Outcome PairChanges
unlock_pairs x unlock routes [] m = ok ([], m, [])
unlock_pairs x unlock routes (p ∷ pairs) m = do
  (p', m', events) ← unlock_pair x unlock routes p m
  (pairs', m'', more) ← unlock_pairs x unlock routes pairs m'
  ok (p' ∷ pairs', m'', events ++ more)

-- `handle_unlock`
unfoldable pub handle_mediator_unlock :
    External → MediatorTransferState → ReceiveUnlock → ChannelMap → ℕ → Outcome MediatorStep
handle_mediator_unlock x state unlock m draws = do
  (pairs, m', events) ← unlock_pairs x unlock state.routes state.transfers_pair m
  ok (stays (record state { transfers_pair = pairs }) m' events draws)

-- A received expiration on the channel at the reference.
abbrev pub expire_on :
    External → ReceiveLockExpired → ℕ → List RouteState → NettingChannelState → Handled
expire_on x expiry block_number routes c =
    handle_receive_lock_expired x c expiry block_number
      (get_address_metadata c.partner_state.address routes)

-- The loop of `handle_lock_expired`. A payer channel that is missing ends the handler, without any
-- event; what the rounds before have changed stays changed. The flag is whether all were there.
unfoldable pub expire_payers :
    External
    → ReceiveLockExpired
    → ℕ
    → MediatorTransferState
    → List MediationPairState
    → ChannelMap
    → Bool × List MediationPairState × ChannelMap × List Event
expire_payers x expiry block_number state [] m = (true, [], m, [])
expire_payers x expiry block_number state (p ∷ pairs) m = elim (get_payer_channel m p) [
  | none ↦ (false, p ∷ pairs, m, [])
  | some (r, c) ↦
      let handled = expire_on x expiry block_number state.routes c in
      let p' =
        if is_some (get_lock handled.channel.partner_state state.secrethash)
        then p
        else record p { payer_state = PayerState.expired } in
      let (complete, pairs', m', events) =
        expire_payers x expiry block_number state pairs (set_channel m r handled.channel) in
      (complete, p' ∷ pairs', m', handled.events ++ events)
]

-- The waiting transfer's channel.
unfoldable pub expire_waiting_channel :
    External → ReceiveLockExpired → ℕ → MediatorTransferState → ChannelMap → ChannelMap × List Event
expire_waiting_channel x expiry block_number state m = elim state.waiting_transfer [
  | none ↦ (m, [])
  | some w ↦ elim (get_waiting_channel m w) [
    | none ↦ (m, [])
    | some (r, c) ↦
        let handled = expire_on x expiry block_number state.routes c in
        (set_channel m r handled.channel, handled.events)
  ]
]

-- `handle_lock_expired`
unfoldable pub handle_mediator_lock_expired :
    External → MediatorTransferState → ReceiveLockExpired → ChannelMap → Call → MediatorStep
handle_mediator_lock_expired x state expiry m call =
    let (complete, pairs, m', events) =
      expire_payers x expiry call.block_number state state.transfers_pair m in
    let state' = record state { transfers_pair = pairs } in
    if complete
    then (let (m'', more) = expire_waiting_channel x expiry call.block_number state m' in
        stays state' m'' (events ++ more) call.draws)
    else stays state' m' [] call.draws
