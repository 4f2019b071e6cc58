-- ===== src/Events.antt =====
-- The events of transfer/events.py and mediated_transfer/events.py that the channel produces, the
-- state changes of transfer/state_change.py and mediated_transfer/state_change.py that it handles,
-- and `TransitionResult` and `SuccessOrError` of transfer/architecture.py.
use raiden_common.Common.{ℕ, ◌≡◌, refl, ◌⊎◌, inl, inr, Bool, Option, List}
use raiden_common.Common.Int.{ℤ}
use raiden_common.External.{CanonicalIdentifier}
use raiden_common.Routes.{RouteState}
use raiden_common.State.{
  HashTimeLockState, BalanceProofUnsignedState, BalanceProofSignedState, NettingChannelState,
}

pub data MessageName : Type 0 where
  locked_transfer refund_transfer unlock lock_expired : MessageName

-- The error messages, without the values that are printed into them.
pub data Reason : Type 0 where
  lock_unlocked_on_chain block_below_threshold signature_not_recovered : Reason
  signature_of_other channel_already_closed channel_identifier_differs : Reason
  token_network_address_differs chain_id_differs would_overflow_onchain : Reason
  nonce_not_sequential lock_not_known same_lock_handled_twice too_many_pending_transfers : Reason
  locksroot_differs transferred_amount_differs locked_amount_differs : Reason
  lock_larger_than_distributable refund_does_not_match no_corresponding_lock : Reason
  channel_not_opened total_withdraw_decreased total_withdraw_not_increased : Reason
  insufficient_balance withdraw_overflow we_have_pending_locks partner_has_pending_locks : Reason
  we_have_pending_withdraws partner_has_pending_withdraws canonical_identifier_differs : Reason
  participant_differs sender_differs withdraw_not_found total_withdraw_differs : Reason
  expiration_differs withdraw_not_expired not_maximum_withdraw : Reason
  reveal_timeout_out_of_range lock_has_expired lock_timeout_unsafe : Reason
  mediator_has_waiting_transfer : Reason
  invalid_message : MessageName → Reason → Reason

-- `SuccessOrError`, with at most one message.
pub data SuccessOrError : Type 0 where
  success : SuccessOrError
  error : Reason → SuccessOrError

pub record LockedTransferUnsignedState : Type 0 where
  pub payment_identifier : ℕ
  pub token : ℕ
  pub lock : HashTimeLockState
  pub target : ℕ
  pub initiator : ℕ
  pub balance_proof : BalanceProofUnsignedState
  pub route_states : List RouteState
  pub metadata : Option ℕ
  pub secret : Option ℕ

pub record LockedTransferSignedState : Type 0 where
  pub payment_identifier : ℕ
  pub token : ℕ
  pub lock : HashTimeLockState
  pub target : ℕ
  pub initiator : ℕ
  pub message_identifier : ℕ
  pub route_states : List RouteState
  pub balance_proof : BalanceProofSignedState
  pub metadata : Option ℕ
  pub secret : Option ℕ

-- The fields of `SendMessageEvent`.
pub record MessageHeader : Type 0 where
  pub recipient : ℕ
  pub recipient_metadata : Option ℕ
  pub canonical_identifier : CanonicalIdentifier
  pub message_identifier : ℕ

pub record SendLockedTransfer : Type 0 where
  pub header : MessageHeader
  pub transfer : LockedTransferUnsignedState

pub record SendUnlock : Type 0 where
  pub header : MessageHeader
  pub payment_identifier : ℕ
  pub token_address : ℕ
  pub secret : ℕ
  pub balance_proof : BalanceProofUnsignedState

pub record SendLockExpired : Type 0 where
  pub header : MessageHeader
  pub balance_proof : BalanceProofUnsignedState
  pub secrethash : ℕ

-- The fields that the three withdraw messages share.
pub record WithdrawMessage : Type 0 where
  pub header : MessageHeader
  pub total_withdraw : ℤ
  pub participant : ℕ
  pub expiration : ℕ
  pub nonce : ℕ

pub record ContractSendChannelCoopSettle : Type 0 where
  pub canonical_identifier : CanonicalIdentifier
  pub our_total_withdraw : ℤ
  pub partner_total_withdraw : ℤ
  pub expiration : ℕ
  pub signature_our_withdraw : ℕ
  pub signature_partner_withdraw : ℕ
  pub triggered_by_block_hash : ℕ

pub record ContractSendChannelWithdraw : Type 0 where
  pub canonical_identifier : CanonicalIdentifier
  pub total_withdraw : ℤ
  pub partner_signature : ℕ
  pub expiration : ℕ
  pub triggered_by_block_hash : ℕ

pub record SendSecretReveal : Type 0 where
  pub header : MessageHeader
  pub secret : ℕ

pub record SendSecretRequest : Type 0 where
  pub header : MessageHeader
  pub payment_identifier : ℕ
  pub amount : ℕ
  pub expiration : ℕ
  pub secrethash : ℕ

pub record EventPaymentReceivedSuccess : Type 0 where
  pub token_network_registry_address : ℕ
  pub token_network_address : ℕ
  pub identifier : ℕ
  pub amount : ℕ
  pub initiator : ℕ

pub data Event : Type 0 where
  send_locked_transfer : SendLockedTransfer → Event
  send_unlock : SendUnlock → Event
  send_lock_expired : SendLockExpired → Event
  send_processed : MessageHeader → Event
  -- with the flag `coop_settle`
  send_withdraw_request : WithdrawMessage → Bool → Event
  send_withdraw_confirmation : WithdrawMessage → Event
  send_withdraw_expired : WithdrawMessage → Event
  contract_send_channel_withdraw : ContractSendChannelWithdraw → Event
  contract_send_channel_coop_settle : ContractSendChannelCoopSettle → Event
  -- the partner's balance proof and `triggered_by_block_hash`
  contract_send_channel_close : CanonicalIdentifier → Option BalanceProofSignedState → ℕ → Event
  contract_send_channel_settle : CanonicalIdentifier → ℕ → Event
  -- `expiration`, the balance proof and `triggered_by_block_hash`
  contract_send_channel_update_transfer : ℕ → BalanceProofSignedState → ℕ → Event
  -- `sender` and `triggered_by_block_hash`
  contract_send_channel_batch_unlock : CanonicalIdentifier → ℕ → ℕ → Event
  invalid_received_transfer_refund invalid_received_locked_transfer : ℕ → Reason → Event
  invalid_received_lock_expired invalid_received_unlock : ℕ → Reason → Event
  invalid_received_withdraw_request invalid_received_withdraw : ℤ → Reason → Event
  invalid_received_withdraw_expired invalid_action_withdraw : ℤ → Reason → Event
  invalid_action_coop_settle : ℤ → Reason → Event
  invalid_action_set_reveal_timeout : ℕ → Reason → Event
  send_secret_request : SendSecretRequest → Event
  send_secret_reveal : SendSecretReveal → Event
  -- `expiration`, the secret and `triggered_by_block_hash`
  contract_send_secret_reveal : ℕ → ℕ → ℕ → Event
  event_payment_received_success : EventPaymentReceivedSuccess → Event
  -- the identifier of the payment and the secret hash
  event_unlock_success event_unlock_claim_success : ℕ → ℕ → Event
  event_unlock_failed event_unlock_claim_failed : ℕ → ℕ → Reason → Event
  event_unexpected_secret_reveal : ℕ → Reason → Event

-- `TransitionResult`, with the number of draws made from the random generator, which the Python
-- code keeps in the generator itself. `new_state` is `none` when the channel is cleared.
pub record TransitionResult : Type 0 where
  pub new_state : Option NettingChannelState
  pub events : List Event
  pub draws : ℕ

-- `ReceiveUnlock`; `secrethash` is set to the hash of the secret when the message is decoded.
pub record ReceiveUnlock : Type 0 where
  pub balance_proof : BalanceProofSignedState
  pub message_identifier : ℕ
  pub secret : ℕ
  pub secrethash : ℕ

pub record ReceiveLockExpired : Type 0 where
  pub balance_proof : BalanceProofSignedState
  pub secrethash : ℕ
  pub message_identifier : ℕ

-- `secrethash` is set to the hash of the secret when the message is decoded.
pub record ReceiveSecretReveal : Type 0 where
  pub sender : ℕ
  pub secret : ℕ
  pub secrethash : ℕ

pub record ContractReceiveSecretReveal : Type 0 where
  pub secrethash : ℕ
  pub secret : ℕ
  pub block_number : ℕ

pub record ReceiveTransferRefund : Type 0 where
  pub transfer : LockedTransferSignedState

-- `ReceiveWithdrawRequest` and `ReceiveWithdrawConfirmation`; the last two fields belong to the
-- request alone.
pub record ReceiveWithdraw : Type 0 where
  pub sender : ℕ
  pub message_identifier : ℕ
  pub canonical_identifier : CanonicalIdentifier
  pub total_withdraw : ℤ
  pub nonce : ℕ
  pub expiration : ℕ
  pub signature : ℕ
  pub participant : ℕ
  pub coop_settle : Bool
  pub sender_metadata : Option ℕ

pub record ReceiveWithdrawExpired : Type 0 where
  pub sender : ℕ
  pub message_identifier : ℕ
  pub canonical_identifier : CanonicalIdentifier
  pub total_withdraw : ℤ
  pub nonce : ℕ
  pub expiration : ℕ
  pub participant : ℕ

pub SuccessOrError-cases :
    (r : SuccessOrError)
    → (r ≡ SuccessOrError.success) ⊎ ((e : Reason) × (r ≡ SuccessOrError.error e))
SuccessOrError-cases SuccessOrError.success = inl refl
SuccessOrError-cases (SuccessOrError.error e) = inr (e, refl)
