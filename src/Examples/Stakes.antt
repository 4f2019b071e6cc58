-- ===== src/Examples/Stakes.antt =====
-- Tests of the mediator: what it does where the secret is known.
-- Two channels of the mediator, one to the payer and one to the payee.
use raiden_common.Channel.Balance.{
  get_amount_unclaimed_onchain, get_amount_locked, get_current_balanceproof, get_next_nonce,
}
use raiden_common.Channel.Locks.{
  is_lock_pending, is_lock_expired, is_secret_known, is_secret_known_offchain,
  is_secret_known_onchain, get_secret, get_lock, del_unclaimed_lock, del_lock,
  compute_locks_without, join, compute_locksroot,
}
use raiden_common.Channel.Send.{apply_balance_proof, create_unlock, send_unlock}
use raiden_common.Channel.Status.{transaction_state, status_before_settle, status_of, get_status}
use raiden_common.Common.{
  ◌≤◌, ◌≡◌, refl, ◌⊎◌, true, none, some, [], ◌∷◌, ◌++◌, length, list_contains, list_remove, nat_eq,
}
use raiden_common.Common.Bytes.{bytes_beq, to_bytes, bytes_eq}
use raiden_common.Common.Dict.{lookup, insert, erase, sum_values}
use raiden_common.Common.Int.{◌+ℤ◌, ◌-ℤ◌, int_eq}
use raiden_common.Common.Outcome.{Failure, Outcome, ok, raised}
use raiden_common.Events.{Event}
use raiden_common.Examples.{toy, unlock_ten, fresh_channel, locked_channel, call_at}
use raiden_common.Examples.Mediated.{
  one_channel, waiting_task, pair_ten, after_onward, after_onward-IsConsistent,
}
use raiden_common.Examples.Received.{unlocked_outcome, unlock_ten_ok}
use raiden_common.Examples.Tasks.{learned_channel}
use raiden_common.Mediator.{
  PayerState, PayeeState, MediationPairState, WaitingState, MediatorTransferState, MediatorStep,
  payer_channel_identifier, payee_channel_identifier, get_payee_channel, get_payer_channel,
  payer_channels, has_secret_registration_started,
}
use raiden_common.Mediator.Early.{mediator_transition-early_unlock}
use raiden_common.Mediator.Handlers.{stays}
use raiden_common.Mediator.Once.{events_for_onchain_secretreveal-at_most_one}
use raiden_common.Mediator.Onchain.{
  in_dangerzone, reveal_in_dangerzone, reveal_dangerzone_pairs,
  events_for_onchain_secretreveal_if_dangerzone, events_for_onchain_secretreveal_if_closed,
}
use raiden_common.Mediator.Pay.{Payments, is_safe_to_pay, pay_payee, pay_if_safe}
use raiden_common.Mediator.Received.{unlock_pair, unlock_pairs, handle_mediator_unlock}
use raiden_common.Mediator.Safe.{PaysPayee, pay_if_safe-PaysPayee}
use raiden_common.Mediator.SecretKnown.{KnowsSecret, handle_running_mediator-KnowsSecret}
use raiden_common.Mediator.Transition.{MediatorChange, handle_running_mediator, mediator_transition}
use raiden_common.Routes.{get_address_metadata, ChannelMap, get_channel, set_channel}
use raiden_common.SecretRegistry.{events_for_onchain_secretreveal, is_safe_to_wait}
use raiden_common.State.{NettingChannelState}
use raiden_common.State.Make.{encoded, checked_amount, make_balance_proof}

abbrev two_channels : NettingChannelState → NettingChannelState → ChannelMap
two_channels payer payee = record {
  store = (1, payer) ∷ (2, payee) ∷ [];
  by_identifier = (5, 1) ∷ (6, 2) ∷ [];
  by_address = [];
}

abbrev revealed_ten : MediationPairState
revealed_ten = pair_ten PayerState.secret_revealed PayeeState.secret_revealed

abbrev at_stake : ChannelMap
at_stake = two_channels learned_channel after_onward

-- The pair after the transaction that registers the secret was sent.
abbrev registering_ten : MediationPairState
registering_ten = pair_ten PayerState.waiting_secret_reveal PayeeState.secret_revealed

endangered_ten :
    events_for_onchain_secretreveal_if_dangerzone at_stake 7 (revealed_ten ∷ revealed_ten ∷ []) 45 0
    ≡ ok (
      registering_ten ∷ registering_ten ∷ [],
      Event.contract_send_secret_reveal 50 6 0 ∷ [],
      true,
    )
unfolding events_for_onchain_secretreveal_if_dangerzone reveal_dangerzone_pairs reveal_in_dangerzone
    in_dangerzone payer_channels has_secret_registration_started get_payer_channel get_channel
    lookup payer_channel_identifier is_secret_known is_secret_known_onchain is_secret_known_offchain
    is_safe_to_wait get_secret events_for_onchain_secretreveal get_status status_before_settle
    status_of transaction_state
endangered_ten = refl

events_for_onchain_secretreveal-at_most_one_example :
    (1 ≤ 1)
    × (length
          (events_for_onchain_secretreveal_if_closed at_stake
            (revealed_ten ∷ revealed_ten ∷ [])
            6
            7
            0).1
        ≤ 1)
unfolding payer_channels has_secret_registration_started get_payer_channel get_channel lookup
    payer_channel_identifier is_secret_known_onchain
events_for_onchain_secretreveal-at_most_one_example =
    events_for_onchain_secretreveal-at_most_one at_stake (revealed_ten ∷ revealed_ten ∷ [])
      (registering_ten ∷ registering_ten ∷ []) 6 7 45 0
      (Event.contract_send_secret_reveal 50 6 0 ∷ []) true endangered_ten

abbrev no_payments : ChannelMap → Payments
no_payments m = record { pairs = []; channels = m; events = []; draws = 0 }

abbrev payments_of : Outcome Payments → Payments
payments_of (ok done) = done
payments_of (raised failure) = no_payments (one_channel fresh_channel)

abbrev paid_ten : Payments
paid_ten = payments_of (pay_if_safe toy 12 6 7 revealed_ten (no_payments at_stake))

paid_ten_ok : pay_if_safe toy 12 6 7 revealed_ten (no_payments at_stake) ≡ ok paid_ten
unfolding pay_if_safe pay_payee is_safe_to_pay is_safe_to_wait send_unlock create_unlock lookup
    get_payer_channel get_payee_channel get_channel payer_channel_identifier
    payee_channel_identifier get_status status_before_settle status_of transaction_state get_lock
    compute_locks_without list_remove make_balance_proof checked_amount apply_balance_proof encoded
    get_current_balanceproof ◌-ℤ◌ get_amount_locked get_amount_unclaimed_onchain get_next_nonce
    sum_values compute_locksroot join del_lock del_unclaimed_lock is_lock_pending erase
    get_address_metadata set_channel insert ◌+ℤ◌ is_lock_expired list_contains bytes_beq to_bytes
paid_ten_ok = refl

pay_if_safe-PaysPayee_example :
    (paid_ten ≡ record (no_payments at_stake) { pairs = revealed_ten ∷ [] })
    ⊎ PaysPayee toy 12 revealed_ten 7 2 after_onward (no_payments at_stake) paid_ten
unfolding lookup get_payee_channel get_channel payee_channel_identifier
pay_if_safe-PaysPayee_example =
    pay_if_safe-PaysPayee toy 12 6 7 revealed_ten (no_payments at_stake) paid_ten 2 after_onward
      refl after_onward-IsConsistent paid_ten_ok

abbrev early_task : MediatorTransferState
early_task = record (waiting_task WaitingState.waiting) {
  waiting_transfer = none;
  transfers_pair = pair_ten PayerState.pending PayeeState.pending ∷ [];
}

mediator_transition-early_unlock_example :
    mediator_transition toy
      (some early_task)
      (MediatorChange.unlock unlock_ten)
      (one_channel locked_channel)
      (call_at 12)
    ≡ raised Failure.mediator_secret_missing
unfolding get_channel lookup get_address_metadata
mediator_transition-early_unlock_example =
    mediator_transition-early_unlock toy early_task (pair_ten PayerState.pending PayeeState.pending)
      (one_channel locked_channel) unlock_ten (call_at 12) 1 locked_channel unlocked_outcome refl
      refl refl refl unlock_ten_ok.0 unlock_ten_ok.1

-- The same task where the secret is known, and after the unlock.
abbrev known_task : PayerState → MediatorTransferState
known_task payer_state = record early_task {
  secret = some 6;
  transfers_pair = pair_ten payer_state PayeeState.pending ∷ [];
}

abbrev unlocked_step : MediatorStep
unlocked_step =
    stays (known_task PayerState.balance_proof)
      (set_channel (one_channel locked_channel) 1 unlocked_outcome.channel)
      ((unlocked_outcome.events ++ Event.event_unlock_claim_success 3 7 ∷ []) ++ []) 0

unlocked_step_ok :
    handle_running_mediator toy
      (known_task PayerState.pending)
      (MediatorChange.unlock unlock_ten)
      (one_channel locked_channel)
      (call_at 12)
    ≡ ok unlocked_step
unfolding handle_running_mediator handle_mediator_unlock unlock_pairs unlock_pair get_channel lookup
    get_address_metadata
unlocked_step_ok = rw (unlock_ten_ok.0, unlock_ten_ok.1) refl

handle_running_mediator-KnowsSecret_example : KnowsSecret (known_task PayerState.balance_proof)
handle_running_mediator-KnowsSecret_example =
    handle_running_mediator-KnowsSecret toy (known_task PayerState.pending)
      (MediatorChange.unlock unlock_ten) (one_channel locked_channel) (call_at 12) unlocked_step
      refl refl unlocked_step_ok
