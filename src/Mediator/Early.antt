-- ===== src/Mediator/Early.antt =====
-- Two state changes that the mediator does not handle well.
use raiden_common.Channel.Actions.{Call}
use raiden_common.Channel.Receive.{Handled, handle_unlock}
use raiden_common.Channel.Status.{get_receiver_expiration_threshold}
use raiden_common.Common.{
  ℕ, ◌+◌, ◌≤◌, ◌≡◌, refl, inl, inr, true, none, some, [], ◌∷◌, arith, leb, nat_beq_iff, Bool-cases,
}
use raiden_common.Common.Outcome.{Failure, ok, raised}
use raiden_common.Events.{Reason, ReceiveUnlock}
use raiden_common.External.{External}
use raiden_common.Mediator.{
  MediationPairState, WaitingState, WaitingTransferState, MediatorTransferState, payee_is_paid,
}
use raiden_common.Mediator.Expire.{
  expire_pairs, expire_waiting, events_for_expired_pairs, remove_expired_locks,
  events_to_remove_expired_locks,
}
use raiden_common.Mediator.Forward.{try_routes, mediate_transfer}
use raiden_common.Mediator.Handlers.{stays, retry_waiting, handle_mediator_block}
use raiden_common.Mediator.Onchain.{
  reveal_dangerzone_pairs, events_for_onchain_secretreveal_if_dangerzone,
}
use raiden_common.Mediator.Received.{unlock_pair, unlock_pairs, handle_mediator_unlock}
use raiden_common.Mediator.Sanity.{check_mediator}
use raiden_common.Mediator.Secrets.{get_waiting_channel}
use raiden_common.Mediator.Transition.{
  MediatorChange, handle_running_mediator, handle_mediator_change, mediator_transition,
}
use raiden_common.Routes.{get_address_metadata, ChannelMap, get_channel, filter_acceptable_routes}
use raiden_common.State.{default_number_of_block_confirmations, NettingChannelState}
use raiden_common.Target.{waits, claim_failed}

-- A mediator that does not know the secret, with one pair, receives from its payer an unlock that
-- the channel accepts: the assertion on the secret fails, and the transition raises.
pub mediator_transition-early_unlock :
    (x : External) (state : MediatorTransferState) (p : MediationPairState) (m : ChannelMap)
    (unlock : ReceiveUnlock) (call : Call) (r : ℕ) (c : NettingChannelState) (handled : Handled)
    → state.secret ≡ none
    → state.transfers_pair ≡ p ∷ []
    → p.payer_transfer.balance_proof.sender ≡ unlock.balance_proof.sender
    → get_channel m unlock.balance_proof.canonical_identifier.channel_identifier ≡ some (r, c)
    → handle_unlock x c unlock (get_address_metadata unlock.balance_proof.sender state.routes)
      ≡ ok handled
    → handled.is_valid ≡ true
    → mediator_transition x (some state) (MediatorChange.unlock unlock) m call
      ≡ raised Failure.mediator_secret_missing
unfolding mediator_transition handle_mediator_change handle_running_mediator handle_mediator_unlock
    unlock_pairs unlock_pair check_mediator
mediator_transition-early_unlock x state p m unlock call r c handled unknown pairs sender there
      accepted valid_unlock =
    let same = (nat_beq_iff _ _).1 sender in
    elim (Bool-cases (payee_is_paid p.payee_state)) [
      | inl paid ↦ rw (pairs, same, there, accepted, valid_unlock, unknown, paid) refl
      | inr unpaid ↦ rw (pairs, same, there, accepted, valid_unlock, unknown, unpaid) refl
    ]

-- Without a route the attempt to mediate leaves the transfer waiting, as if it were new.
retry_waiting-waits :
    (x : External) (state : MediatorTransferState) (w : WaitingTransferState) (m : ChannelMap)
    (call : Call) (r : ℕ) (c : NettingChannelState)
    → state.waiting_transfer ≡ some w
    → state.routes ≡ []
    → get_waiting_channel m w ≡ some (r, c)
    → c.partner_state.address ≡ w.transfer.balance_proof.sender
    → retry_waiting x state m call
      ≡ ok (
          stays
            (record state {
              waiting_transfer =
                  some (record { transfer = w.transfer; state = WaitingState.waiting });
            })
            m
            []
            call.draws)
unfolding retry_waiting mediate_transfer filter_acceptable_routes try_routes
retry_waiting-waits x state w m call r c waits no_route there sender =
    let same = (nat_beq_iff _ _).1 sender in
    rw (waits, retry_waiting, there, mediate_transfer, same, no_route) refl

-- A task without pairs and without routes, whose transfer waits and was sent by the partner of the
-- channel it came on, which is still there: every block from five blocks after the expiration of the
-- lock on reports the failed claim, whether it was reported before or not, since the attempt to
-- mediate sets the state of the waiting transfer back.
pub handle_mediator_block-waiting :
    (x : External) (state : MediatorTransferState) (w : WaitingTransferState) (m : ChannelMap)
    (call : Call) (r : ℕ) (c : NettingChannelState)
    → state.waiting_transfer ≡ some w
    → state.transfers_pair ≡ []
    → state.routes ≡ []
    → get_waiting_channel m w ≡ some (r, c)
    → c.partner_state.address ≡ w.transfer.balance_proof.sender
    → w.transfer.lock.expiration + default_number_of_block_confirmations ≤ call.block_number
    → handle_mediator_block x state m call
      ≡ ok (
          stays
            (record state {
              transfers_pair = [];
              waiting_transfer = some (record w { state = WaitingState.expired });
            })
            m
            (claim_failed w.transfer Reason.lock_has_expired ∷ [])
            call.draws)
unfolding handle_mediator_block events_to_remove_expired_locks remove_expired_locks
    events_for_onchain_secretreveal_if_dangerzone reveal_dangerzone_pairs events_for_expired_pairs
    expire_pairs expire_waiting get_receiver_expiration_threshold
handle_mediator_block-waiting x state w m call r c waits none_yet no_route there sender late =
    let due : leb (w.transfer.lock.expiration + default_number_of_block_confirmations)
          call.block_number
        ≡ true =
      ground arith in
    rw
      (
        retry_waiting-waits x state w m call r c waits no_route there sender,
        handle_mediator_block,
        none_yet,
        due,
      )
      refl
