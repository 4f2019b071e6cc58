-- ===== src/Mediator/SecretKnown.antt =====
-- The first assertion of `sanity_check`: a mediator that was paid, or has paid, knows the secret.
use raiden_common.Channel.Actions.{Call}
use raiden_common.Channel.Locks.{is_transfer_expired, register_onchain_secret}
use raiden_common.Common.{
  ℕ, ◌≡◌, refl, sym, ap, subst, ◌⊎◌, inl, inr, true, not, ◌&&◌, ◌||◌, some, List, [], arith,
  Bool-cases, Option-cases, is_some,
}
use raiden_common.Common.Outcome.{ok, >>=-eq-ok, ok-injective}
use raiden_common.Events.{Event, ReceiveUnlock, ReceiveSecretReveal, ContractReceiveSecretReveal}
use raiden_common.External.{External}
use raiden_common.Mediator.{MediatorTransferState, MediatorStep, get_payer_channel, any_of}
use raiden_common.Mediator.Handlers.{
  stays, secret_learned, handle_mediator_secretreveal, handle_mediator_onchain_secretreveal,
}
use raiden_common.Mediator.Known.{
  Keeps-PaidIsKnown, handle_mediator_block-Keeps, handle_mediator_refund-Keeps,
  expire_payers-NotMore,
}
use raiden_common.Mediator.Onchain.{events_for_onchain_secretreveal_if_closed}
use raiden_common.Mediator.Paid.{PaidIsKnown}
use raiden_common.Mediator.Pay.{events_for_balanceproof}
use raiden_common.Mediator.Received.{
  unlock_pairs, handle_mediator_unlock, expire_payers, handle_mediator_lock_expired,
}
use raiden_common.Mediator.Sanity.{is_paid, last_pair}
use raiden_common.Mediator.Secrets.{
  try_channel, get_waiting_channel, set_offchain_secret, register_onchain_in_pairs,
  set_onchain_secret, set_offchain_reveal_state, events_for_secretreveal,
}
use raiden_common.Mediator.Transition.{MediatorChange, handle_running_mediator}
use raiden_common.Routes.{ChannelMap}
use raiden_common.SecretRegistry.{is_valid_secret_reveal}

-- An unlock comes when the secret is known; other state changes come at any time.
abbrev pub ComesInTime : MediatorTransferState → MediatorChange → Type 0
ComesInTime state (MediatorChange.unlock message) = is_some state.secret ≡ true
ComesInTime state anything = Unit

set_offchain_secret-secret :
    (state : MediatorTransferState) (m : ChannelMap) (secret secrethash : ℕ)
    → (set_offchain_secret state m secret secrethash).0.secret ≡ some secret
unfolding set_offchain_secret
set_offchain_secret-secret state m secret secrethash = elim (Option-cases state.waiting_transfer) [
  | inl e ↦ rw (e, set_offchain_secret) refl
  | inr (w, e) ↦ rw (e, set_offchain_secret) refl
]

set_onchain_secret-secret :
    (state : MediatorTransferState) (m : ChannelMap) (secret secrethash block_number : ℕ)
    (learned : MediatorTransferState) (m' : ChannelMap) (events : List Event)
    → set_onchain_secret state m secret secrethash block_number ≡ ok (learned, m', events)
    → learned.secret ≡ some secret
unfolding set_onchain_secret
set_onchain_secret-secret state m secret secrethash block_number learned m' events h =
    let (m1, _, h1) =
      >>=-eq-ok (register_onchain_in_pairs secret secrethash block_number state.transfers_pair m) _
        h in
    elim (Option-cases state.waiting_transfer) [
      | inl e ↦
          ap (λ (t : MediatorTransferState × ChannelMap × List Event). t.0.secret)
            (sym (ok-injective (rw e at h1)))
      | inr (w, e) ↦
          let (m2, _, h2) =
            >>=-eq-ok
              (try_channel (λ c. register_onchain_secret c secret secrethash block_number true)
                (get_waiting_channel m1 w) m1)
              _ (rw e at h1) in
          ap (λ (t : MediatorTransferState × ChannelMap × List Event). t.0.secret)
            (sym (ok-injective h2))
    ]

carried :
    {s step : MediatorStep} {secret : ℕ}
    → s ≡ step
    → s.state.secret ≡ some secret
    → is_some step.state.secret ≡ true
carried e k = subst (λ (s : MediatorStep). is_some s.state.secret ≡ true) e (rw k refl)

secret_learned-known :
    (x : External) (state : MediatorTransferState) (m : ChannelMap) (call : Call)
    (secret secrethash payee : ℕ) (step : MediatorStep)
    → secret_learned x state m call secret secrethash payee ≡ ok step
    → is_some step.state.secret ≡ true
unfolding secret_learned
secret_learned-known x state m call secret secrethash payee step h =
    let (learned, m', _) = set_offchain_secret state m secret secrethash in
    let (closed, _, _) =
      events_for_onchain_secretreveal_if_closed m'
        (set_offchain_reveal_state payee learned.transfers_pair) secret secrethash
        call.block_hash in
    let (revealed, _, draws) = events_for_secretreveal x secret closed call.draws in
    let (paid, _, h1) =
      >>=-eq-ok (events_for_balanceproof x call.block_number secret secrethash revealed m' draws) _
        h in
    carried (ok-injective h1) (set_offchain_secret-secret state m secret secrethash)

-- A received secret is ignored, or known from then on.
handle_mediator_secretreveal-cases :
    (x : External) (state : MediatorTransferState) (reveal : ReceiveSecretReveal) (m : ChannelMap)
    (call : Call) (step : MediatorStep)
    → handle_mediator_secretreveal x state reveal m call ≡ ok step
    → (step.state ≡ state) ⊎ (is_some step.state.secret ≡ true)
unfolding handle_mediator_secretreveal
handle_mediator_secretreveal-cases x state reveal m call step h =
    elim (Option-cases (last_pair state.transfers_pair)) [
      | inl e ↦ ignored (rw (e, handle_mediator_secretreveal) at h)
      | inr (p, e) ↦ elim (Option-cases (get_payer_channel m p)) [
        | inl q ↦ ignored (rw (e, handle_mediator_secretreveal, q) at h)
        | inr ((r, c), q) ↦
            elim (Bool-cases (
              not (is_some state.secret)
              && is_valid_secret_reveal reveal.secrethash state.secrethash
              && not (is_transfer_expired p.payer_transfer.lock c call.block_number))) [
                | inl taken ↦ inr (
                    secret_learned-known x state m call reveal.secret reveal.secrethash
                      reveal.sender step (rw (e, handle_mediator_secretreveal, q, taken) at h))
                | inr refused_here ↦
                    ignored (rw (e, handle_mediator_secretreveal, q, refused_here) at h)
              ]
      ]
    ]
  where
    ignored :
        ok (stays state m [] call.draws) ≡ ok step
        → (step.state ≡ state) ⊎ (is_some step.state.secret ≡ true)
    ignored e = inl (ap (λ (s : MediatorStep). s.state) (sym (ok-injective e)))

handle_mediator_onchain_secretreveal-cases :
    (x : External) (state : MediatorTransferState) (reveal : ContractReceiveSecretReveal)
    (m : ChannelMap) (draws : ℕ) (step : MediatorStep)
    → handle_mediator_onchain_secretreveal x state reveal m draws ≡ ok step
    → (step.state ≡ state) ⊎ (is_some step.state.secret ≡ true)
unfolding handle_mediator_onchain_secretreveal
handle_mediator_onchain_secretreveal-cases x state reveal m draws step h =
    elim (Bool-cases (is_valid_secret_reveal reveal.secrethash state.secrethash)) [
      | inr other ↦ inl (
          ap (λ (s : MediatorStep). s.state)
            (sym (ok-injective (rw (other, handle_mediator_onchain_secretreveal) at h))))
      | inl same ↦
          let ((learned, m', events), registered, h1) =
            >>=-eq-ok
              (set_onchain_secret state m reveal.secret reveal.secrethash reveal.block_number) _
              (rw (same, handle_mediator_onchain_secretreveal) at h) in
          let (paid, _, h2) =
            >>=-eq-ok
              (events_for_balanceproof x reveal.block_number reveal.secret reveal.secrethash
                learned.transfers_pair m' draws)
              _ h1 in
          let known =
            set_onchain_secret-secret state m reveal.secret reveal.secrethash reveal.block_number
              learned m' events registered in
          inr (
            subst (λ (s : MediatorStep). is_some s.state.secret ≡ true) (ok-injective h2)
              (rw known refl))
    ]

handle_mediator_unlock-secret :
    (x : External) (state : MediatorTransferState) (unlock : ReceiveUnlock) (m : ChannelMap)
    (draws : ℕ) (step : MediatorStep)
    → handle_mediator_unlock x state unlock m draws ≡ ok step
    → step.state.secret ≡ state.secret
unfolding handle_mediator_unlock
handle_mediator_unlock-secret x state unlock m draws step h =
    let (changes, _, h1) =
      >>=-eq-ok (unlock_pairs x unlock state.routes state.transfers_pair m) _ h in
    ap (λ (s : MediatorStep). s.state.secret) (sym (ok-injective h1))

handle_running_mediator-PaidIsKnown :
    (x : External) (state : MediatorTransferState) (change : MediatorChange) (m : ChannelMap)
    (call : Call) (step : MediatorStep)
    → PaidIsKnown state
    → ComesInTime state change
    → handle_running_mediator x state change m call ≡ ok step
    → PaidIsKnown step.state
unfolding handle_running_mediator handle_mediator_lock_expired
handle_running_mediator-PaidIsKnown x state (MediatorChange.init action) m call step k t h =
    subst (λ (s : MediatorStep). PaidIsKnown s.state) (ok-injective h) k
handle_running_mediator-PaidIsKnown x state (MediatorChange.block number hash) m call step k t h =
    Keeps-PaidIsKnown state step.state (handle_mediator_block-Keeps x state m _ step h) k
handle_running_mediator-PaidIsKnown x state (MediatorChange.refund message) m call step k t h =
    Keeps-PaidIsKnown state step.state (handle_mediator_refund-Keeps x state message m call step h)
      k
handle_running_mediator-PaidIsKnown x state (MediatorChange.secretreveal reveal) m call step k t h =
    elim (handle_mediator_secretreveal-cases x state reveal m call step h) [
      | inl same ↦ subst PaidIsKnown (sym same) k
      | inr known ↦ λ e. known
    ]
handle_running_mediator-PaidIsKnown x state (MediatorChange.onchain_secretreveal reveal) m call step
      k t h =
    elim (handle_mediator_onchain_secretreveal-cases x state reveal m call.draws step h) [
      | inl same ↦ subst PaidIsKnown (sym same) k
      | inr known ↦ λ e. known
    ]
handle_running_mediator-PaidIsKnown x state (MediatorChange.unlock message) m call step k t h =
    λ e. rw (handle_mediator_unlock-secret x state message m call.draws step h) t
handle_running_mediator-PaidIsKnown x state (MediatorChange.lock_expired message) m call step k t
      h =
    subst (λ (s : MediatorStep). PaidIsKnown s.state) (ok-injective h)
      (elim (Bool-cases
        (expire_payers x message call.block_number state state.transfers_pair m).0) [
          | inl complete ↦
              rw (complete, handle_mediator_lock_expired)
                (λ e. k (
                  expire_payers-NotMore x message call.block_number state state.transfers_pair m e))
          | inr missing ↦
              rw (missing, handle_mediator_lock_expired)
                (λ e. k (
                  expire_payers-NotMore x message call.block_number state state.transfers_pair m e))
        ])
handle_running_mediator-PaidIsKnown x state MediatorChange.other m call step k t h =
    subst (λ (s : MediatorStep). PaidIsKnown s.state) (ok-injective h) k

-- What `sanity_check` asserts of the secret.
abbrev pub KnowsSecret : MediatorTransferState → Type 0
KnowsSecret state = (not (any_of is_paid state.transfers_pair) || is_some state.secret) ≡ true

-- Where `sanity_check` finds the secret of every paid transfer known, it still does after every
-- handler that returns, except for an unlock that comes before the secret is known.
pub handle_running_mediator-KnowsSecret :
    (x : External) (state : MediatorTransferState) (change : MediatorChange) (m : ChannelMap)
    (call : Call) (step : MediatorStep)
    → KnowsSecret state
    → ComesInTime state change
    → handle_running_mediator x state change m call ≡ ok step
    → KnowsSecret step.state
handle_running_mediator-KnowsSecret x state change m call step k t h =
    elim (Bool-cases (any_of is_paid step.state.transfers_pair)) [
      | inl paid ↦
          let known =
            handle_running_mediator-PaidIsKnown x state change m call step (λ e. ground arith) t h
              paid in
          rw (paid, known) refl
      | inr unpaid ↦ rw unpaid refl
    ]
