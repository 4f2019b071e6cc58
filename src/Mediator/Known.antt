-- ===== src/Mediator/Known.antt =====
-- Every handler of the mediator keeps a paid transfer's secret known, or is an unlock that comes
-- before the secret.
use raiden_common.Channel.Actions.{Call}
use raiden_common.Channel.Locks.{get_lock}
use raiden_common.Channel.Receive.{Handled, handle_refundtransfer}
use raiden_common.Channel.Send.{require}
use raiden_common.Common.{
  ℕ, ◌≡◌, refl, ◌∙◌, subst, inl, inr, Bool, true, false, Option, none, some, List, [], ◌∷◌, ◌++◌,
  arith, if◌then◌else◌, Bool-cases, Option-cases, is_some, ◌==◌, nat_eq,
}
use raiden_common.Common.Bytes.{bytes_eq}
use raiden_common.Common.Int.{int_eq}
use raiden_common.Common.Outcome.{Failure, ok, assert, >>=-eq-ok, ok-injective}
use raiden_common.Events.{
  LockedTransferSignedState, Event, ReceiveLockExpired, ReceiveTransferRefund,
}
use raiden_common.External.{External}
use raiden_common.Mediator.{
  PayerState, MediationPairState, MediatorTransferState, MediatorStep, get_payer_channel,
}
use raiden_common.Mediator.Expire.{events_for_expired_pairs, events_to_remove_expired_locks}
use raiden_common.Mediator.Forward.{
  Forwarded, forward_transfer_pair, get_next_channel, try_routes, after_forward, mediate_transfer,
}
use raiden_common.Mediator.Handlers.{
  stays, was_mediated, retry_waiting, handle_mediator_block, handle_mediator_refund,
}
use raiden_common.Mediator.Onchain.{events_for_onchain_secretreveal_if_dangerzone}
use raiden_common.Mediator.Paid.{
  PaidIsKnown, NotMore, NotMore-cons, NotMore-append_unpaid, unpay_payer, expire_pairs-NotMore,
  reveal_dangerzone_pairs-NotMore, remove_expired_locks-NotMore,
}
use raiden_common.Mediator.Received.{expire_on, expire_payers}
use raiden_common.Mediator.Sanity.{is_paid, last_pair}
use raiden_common.Mediator.Secrets.{get_waiting_channel}
use raiden_common.Mediator.Sent.{Forwards, forward_transfer_pair-Forwards}
use raiden_common.Routes.{
  RouteState, get_address_metadata, ChannelMap, get_channel, set_channel, filter_acceptable_routes,
}
use raiden_common.State.{NettingChannelState}
use raiden_common.Target.{waits}

-- A step that pays no more pairs and keeps the secret.
abbrev pub KeepsUnpaid : MediatorTransferState → MediatorTransferState → Type 0
KeepsUnpaid old new = (new.secret ≡ old.secret) × NotMore new.transfers_pair old.transfers_pair

pub Keeps-PaidIsKnown :
    (old new : MediatorTransferState) → KeepsUnpaid old new → PaidIsKnown old → PaidIsKnown new
Keeps-PaidIsKnown old new k known e = rw k.0 (known (k.1 e))

try_routes-unpaid :
    (x : External) (transfer : LockedTransferSignedState) (payer_channel : NettingChannelState)
    (m : ChannelMap) (block_number draws : ℕ) (routes : List RouteState) (r : ℕ) (f : Forwarded)
    → try_routes x transfer payer_channel m block_number draws routes ≡ ok (some (r, f))
    → (payee_channel : NettingChannelState) × Forwards x transfer payee_channel block_number draws f
unfolding try_routes
try_routes-unpaid x transfer payer_channel m block_number draws [] r f h = absurd (ground arith)
try_routes-unpaid x transfer payer_channel m block_number draws (route ∷ routes) r f h =
    elim (Option-cases (
      get_next_channel m payer_channel.our_state.address
        payer_channel.canonical_identifier.token_network_address route)) [
          | inl e ↦
              try_routes-unpaid x transfer payer_channel m block_number draws routes r f
                (rw (e, try_routes) at h)
          | inr ((s, c), e) ↦
              let (forwarded, sent, h1) =
                >>=-eq-ok (forward_transfer_pair x transfer payer_channel c block_number draws) _
                  (rw (e, try_routes) at h) in
              elim (Option-cases forwarded) [
                | inl q ↦
                    try_routes-unpaid x transfer payer_channel m block_number draws routes r f
                      (rw q at h1)
                | inr (g, q) ↦
                    let same : g ≡ f = ground arith in
                    (
                      c,
                      forward_transfer_pair-Forwards x transfer payer_channel c block_number draws f
                          (sent ∙ (λ i. ok (q i)) ∙ (λ i. ok (some (same i)))),
                    )
              ]
        ]

pub mediate_transfer-Keeps :
    (x : External) (state : MediatorTransferState) (payer_channel : NettingChannelState)
    (m : ChannelMap) (transfer : LockedTransferSignedState) (block_number draws : ℕ)
    (step : MediatorStep)
    → mediate_transfer x state payer_channel m transfer block_number draws ≡ ok step
    → KeepsUnpaid state step.state
unfolding mediate_transfer
mediate_transfer-Keeps x state payer_channel m transfer block_number draws step h =
    let (_, _, h1) =
      >>=-eq-ok
        (assert (payer_channel.partner_state.address == transfer.balance_proof.sender)
          Failure.not_signed_by_sender)
        _ h in
    let (forwarded, tried, h2) =
      >>=-eq-ok
        (try_routes x transfer payer_channel m block_number draws (
          filter_acceptable_routes m state.routes state.refunded_channels
            payer_channel.canonical_identifier.token_network_address
            payer_channel.our_state.address))
        _ h1 in
    subst (λ t. KeepsUnpaid state t.state) (ok-injective h2) (after forwarded tried)
  where
    after :
        (forwarded : Option (ℕ × Forwarded))
        → try_routes x transfer payer_channel m block_number draws (
            filter_acceptable_routes m state.routes state.refunded_channels
              payer_channel.canonical_identifier.token_network_address
              payer_channel.our_state.address)
          ≡ ok forwarded
        → KeepsUnpaid state (after_forward transfer state m draws forwarded).state
    after none e = (refl, λ t. t)
    after (some (r, f)) e =
        let (c, facts) = try_routes-unpaid x transfer payer_channel m block_number draws _ r f e in
        (
          refl,
          NotMore-append_unpaid state.transfers_pair f.pair
              (rw (facts.payer_state, facts.payee_state) refl),
        )

retry_waiting-Keeps :
    (x : External) (state : MediatorTransferState) (m : ChannelMap) (call : Call)
    (step : MediatorStep)
    → retry_waiting x state m call ≡ ok step
    → KeepsUnpaid state step.state
unfolding retry_waiting
retry_waiting-Keeps x state m call step h = elim (Option-cases state.waiting_transfer) [
  | inl e ↦ unchanged (rw (e, retry_waiting) at h)
  | inr (w, e) ↦ elim (Option-cases (get_waiting_channel m w)) [
    | inl q ↦ unchanged (rw (e, retry_waiting, q) at h)
    | inr ((r, c), q) ↦
        let (tried, sent, h1) =
          >>=-eq-ok (mediate_transfer x state c m w.transfer call.block_number call.draws) _
            (rw (e, retry_waiting, q) at h) in
        let kept =
          mediate_transfer-Keeps x state c m w.transfer call.block_number call.draws tried sent in
        elim (Bool-cases (was_mediated w.transfer.lock.secrethash tried.events)) [
          | inl mediated ↦
              subst (λ t. KeepsUnpaid state t.state) (ok-injective (rw mediated at h1)) kept
          | inr waits ↦ subst (λ t. KeepsUnpaid state t.state) (ok-injective (rw waits at h1)) kept
        ]
  ]
]
  where
    unchanged : ok (stays state m [] call.draws) ≡ ok step → KeepsUnpaid state step.state
    unchanged e = subst (λ t. KeepsUnpaid state t.state) (ok-injective e) (refl, λ t. t)

pub handle_mediator_block-Keeps :
    (x : External) (state : MediatorTransferState) (m : ChannelMap) (call : Call)
    (step : MediatorStep)
    → handle_mediator_block x state m call ≡ ok step
    → KeepsUnpaid state step.state
unfolding handle_mediator_block events_to_remove_expired_locks
    events_for_onchain_secretreveal_if_dangerzone events_for_expired_pairs
handle_mediator_block-Keeps x state m call step h =
    let (tried, retried, h1) = >>=-eq-ok (retry_waiting x state m call) _ h in
    let (removed, removing, h2) =
      >>=-eq-ok
        (events_to_remove_expired_locks x tried.state tried.channels call.block_number tried.draws)
        _ h1 in
    let ((pairs, reveals, sent), revealing, h3) =
      >>=-eq-ok
        (events_for_onchain_secretreveal_if_dangerzone removed.channels tried.state.secrethash
          removed.pairs call.block_number call.block_hash)
        _ h2 in
    let kept = retry_waiting-Keeps x state m call tried retried in
    subst (λ t. KeepsUnpaid state t.state) (ok-injective h3)
      (
        kept.0,
        λ e. kept.1 (
            remove_expired_locks-NotMore x tried.state.secrethash call.block_number _
              tried.state.transfers_pair tried.channels tried.draws removed removing
              (reveal_dangerzone_pairs-NotMore removed.channels call.block_number call.block_hash _
                removed.pairs pairs reveals sent revealing
                (expire_pairs-NotMore removed.channels call.block_number pairs e))),
      )

pub handle_mediator_refund-Keeps :
    (x : External) (state : MediatorTransferState) (refund : ReceiveTransferRefund) (m : ChannelMap)
    (call : Call) (step : MediatorStep)
    → handle_mediator_refund x state refund m call ≡ ok step
    → KeepsUnpaid state step.state
unfolding handle_mediator_refund
handle_mediator_refund-Keeps x state refund m call step h =
    elim (Bool-cases (is_some state.secret)) [
      | inl known ↦ unchanged m [] (rw (known, handle_mediator_refund) at h)
      | inr unknown ↦
          let (pair, _, h1) =
            >>=-eq-ok (require (last_pair state.transfers_pair) Failure.index_error) _
              (rw (unknown, handle_mediator_refund) at h) in
          elim (Option-cases
            (get_channel m refund.transfer.balance_proof.canonical_identifier.channel_identifier)) [
              | inl e ↦ unchanged m [] (rw e at h1)
              | inr ((r, c), e) ↦ elim (Bool-cases (answer pair c).is_valid) [
                | inl accepted ↦
                    let (tried, sent, h2) =
                      >>=-eq-ok
                        (mediate_transfer x (refunded c) (answer pair c).channel
                          (set_channel m r (answer pair c).channel) refund.transfer
                          call.block_number call.draws)
                        _ (rw (e, accepted) at h1) in
                    subst (λ t. KeepsUnpaid state t.state) (ok-injective h2)
                      (mediate_transfer-Keeps x (refunded c) (answer pair c).channel
                        (set_channel m r (answer pair c).channel) refund.transfer call.block_number
                        call.draws tried sent)
                | inr refusal ↦
                    unchanged (set_channel m r (answer pair c).channel) (answer pair c).events
                      (rw (e, refusal) at h1)
              ]
            ]
    ]
  where
    unchanged :
        (m' : ChannelMap) (events : List Event)
        → ok (stays state m' events call.draws) ≡ ok step
        → KeepsUnpaid state step.state
    unchanged m' events e = subst (λ t. KeepsUnpaid state t.state) (ok-injective e) (refl, λ t. t)

    answer : MediationPairState → NettingChannelState → Handled
    answer pair c =
        handle_refundtransfer x pair.payee_transfer c refund
          (get_address_metadata c.partner_state.address pair.payee_transfer.route_states)

    refunded : NettingChannelState → MediatorTransferState
    refunded c = record state {
      refunded_channels = state.refunded_channels ++ c.canonical_identifier.channel_identifier ∷ [];
    }

pub expire_payers-NotMore :
    (x : External) (expiry : ReceiveLockExpired) (block_number : ℕ) (state : MediatorTransferState)
    (pairs : List MediationPairState) (m : ChannelMap)
    → NotMore (expire_payers x expiry block_number state pairs m).1 pairs
unfolding expire_payers
expire_payers-NotMore x expiry block_number state [] m = λ e. e
expire_payers-NotMore x expiry block_number state (p ∷ pairs) m =
    elim (Option-cases (get_payer_channel m p)) [
      | inl e ↦ rw (e, expire_payers) (λ t. t)
      | inr ((r, c), e) ↦
          let handled = expire_on x expiry block_number state.routes c in
          rw (e, expire_payers)
            (NotMore-cons
              (if is_some (get_lock handled.channel.partner_state state.secrethash)
                then p
                else record p { payer_state = PayerState.expired })
              p
              (expire_payers x expiry block_number state pairs (set_channel m r handled.channel)).1
              pairs
              (expired_payer p (is_some (get_lock handled.channel.partner_state state.secrethash)))
              (expire_payers-NotMore x expiry block_number state pairs
                (set_channel m r handled.channel)))
    ]
  where
    expired_payer :
        (p : MediationPairState) (b : Bool)
        → is_paid (if b then p else record p { payer_state = PayerState.expired }) ≡ true
        → is_paid p ≡ true
    expired_payer p true e = e
    expired_payer p false e = unpay_payer p PayerState.expired refl e
