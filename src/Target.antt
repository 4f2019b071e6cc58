-- ===== src/Target.antt =====
-- mediated_transfer/target.py: the target of a mediated transfer. The channel is changed in place,
-- and so is the task; both are returned.
pub mod Handlers
pub mod Transition
pub mod Locks
pub mod Running
pub mod Progress
pub mod Start
pub mod Runs
pub mod Paid
use raiden_common.Channel.Actions.{Call}
use raiden_common.Channel.Locks.{is_ok, is_secret_known_offchain, get_secret, get_lock}
use raiden_common.Channel.Receive.{
  canonical_identifier_unordered_queue, handle_receive_lockedtransfer,
}
use raiden_common.Channel.Send.{require}
use raiden_common.Common.{
  ℕ, ◌+◌, Bool, true, false, not, ◌&&◌, Option, none, some, List, [], ◌∷◌, ◌++◌, if◌then◌else◌,
  is_some, ◌==◌, nat_eq,
}
use raiden_common.Common.Bytes.{bytes_eq}
use raiden_common.Common.Int.{int_eq}
use raiden_common.Common.Outcome.{Failure, Outcome, ok, assert, ◌>>=◌, ◌>>◌}
use raiden_common.Events.{Reason, LockedTransferSignedState, Event}
use raiden_common.External.{External}
use raiden_common.Routes.{HopState, get_address_metadata}
use raiden_common.SecretRegistry.{events_for_onchain_secretreveal, require_secret, is_safe_to_wait}
use raiden_common.State.{NettingChannelState}

-- `TargetTransferState.state`
pub data TargetState : Type 0 where
  expired reveal_secret onchain_secret_reveal onchain_unlock secret_request : TargetState

pub record TargetTransferState : Type 0 where
  pub from_hop : HopState
  pub transfer : LockedTransferSignedState
  pub secret : Option ℕ
  pub state : TargetState
  pub initiator_address_metadata : Option ℕ

-- `TransitionResult` with the channel and the number of random draws.
pub record TargetResult : Type 0 where
  pub new_state : Option TargetTransferState
  pub channel : NettingChannelState
  pub events : List Event
  pub draws : ℕ

pub record ActionInitTarget : Type 0 where
  pub from_hop : HopState
  pub transfer : LockedTransferSignedState
  pub received_valid_secret : Bool

-- `TargetTransferState(from_hop, transfer)`
abbrev pub fresh_task : HopState → LockedTransferSignedState → TargetTransferState
fresh_task from_hop transfer = record {
  from_hop = from_hop;
  transfer = transfer;
  secret = none;
  state = TargetState.secret_request;
  initiator_address_metadata = none;
}

abbrev pub is_expired : TargetState → Bool
is_expired TargetState.expired = true
is_expired other = false

abbrev pub is_revealed_onchain : TargetState → Bool
is_revealed_onchain TargetState.onchain_secret_reveal = true
is_revealed_onchain other = false

-- `transfer.payer_address_metadata`
unfoldable pub payer_address_metadata : LockedTransferSignedState → Option ℕ
unfolding get_address_metadata
payer_address_metadata transfer =
    get_address_metadata transfer.balance_proof.sender transfer.route_states

-- A result that leaves the channel as it is.
abbrev pub waits : TargetTransferState → NettingChannelState → List Event → ℕ → TargetResult
waits target_state channel_state events draws = record {
  new_state = some target_state;
  channel = channel_state;
  events = events;
  draws = draws;
}

abbrev pub claim_failed : LockedTransferSignedState → Reason → Event
claim_failed transfer reason =
    Event.event_unlock_claim_failed transfer.payment_identifier transfer.lock.secrethash reason

-- The lock is looked up if the task exists, before or afterwards.
unfoldable pub check_target :
    Option TargetTransferState
    → Option TargetTransferState
    → NettingChannelState
    → Outcome (Unit {0})
check_target none none channel_state = ok tt
check_target (some old) none channel_state =
    assert (not (is_some (get_lock channel_state.partner_state old.transfer.lock.secrethash)))
      Failure.lock_not_cleared
check_target old (some new) channel_state =
    assert (is_some (get_lock channel_state.partner_state new.transfer.lock.secrethash))
      Failure.lock_must_not_be_cleared

-- `events_for_onchain_secretreveal` of the target.
unfoldable pub events_for_target_secretreveal :
    TargetTransferState → NettingChannelState → ℕ → ℕ → Outcome (TargetTransferState × List Event)
events_for_target_secretreveal target_state channel_state block_number block_hash = do
  let transfer = target_state.transfer
  let expiration = transfer.lock.expiration
  safe_to_wait ← is_safe_to_wait expiration channel_state.reveal_timeout block_number
  let known = is_secret_known_offchain channel_state.partner_state transfer.lock.secrethash
  if not (is_ok safe_to_wait) && known && not (is_revealed_onchain target_state.state)
      then (do
        secret ← require_secret (get_secret channel_state.partner_state transfer.lock.secrethash)
        ok (
          record target_state { state = TargetState.onchain_secret_reveal },
          events_for_onchain_secretreveal channel_state secret expiration block_hash,
        ))
      else ok (target_state, [])

unfoldable pub request_secret : External → LockedTransferSignedState → ℕ → Event
unfolding get_address_metadata
request_secret x transfer draws = Event.send_secret_request (record {
  header = record {
    recipient = transfer.initiator;
    recipient_metadata = get_address_metadata transfer.initiator transfer.route_states;
    canonical_identifier = canonical_identifier_unordered_queue;
    message_identifier = x.randint draws;
  };
  payment_identifier = transfer.payment_identifier;
  amount = transfer.lock.amount;
  expiration = transfer.lock.expiration;
  secrethash = transfer.lock.secrethash;
})

-- The message that `handle_receive_lockedtransfer` returns with an invalid transfer.
abbrev pub errormsg_of : List Event → Option Reason
errormsg_of (Event.invalid_received_locked_transfer identifier reason ∷ []) = some reason
errormsg_of other = none

unfoldable pub handle_inittarget :
    External → ActionInitTarget → NettingChannelState → Call → Outcome TargetResult
handle_inittarget x action channel_state call = do
  let transfer = action.transfer
  assert
      (channel_state.canonical_identifier.channel_identifier
        == transfer.balance_proof.canonical_identifier.channel_identifier)
      Failure.channel_id_mismatch
  let handled =
      handle_receive_lockedtransfer x channel_state transfer (payer_address_metadata transfer)
  if handled.is_valid
      then (let task = fresh_task action.from_hop transfer in
          if action.received_valid_secret
          then ok (waits task handled.channel handled.events call.draws)
          else (do
            safe_to_wait ←
                is_safe_to_wait transfer.lock.expiration channel_state.reveal_timeout
                  call.block_number
            ok (
                if is_ok safe_to_wait
                then waits task handled.channel
                    (handled.events ++ request_secret x transfer call.draws ∷ []) (call.draws + 1)
                else waits task handled.channel handled.events call.draws)))
      else (do
        errormsg ← require (errormsg_of handled.events) Failure.error_message_missing
        ok (record {
          new_state = none;
          channel = handled.channel;
          events = handled.events ++ claim_failed transfer errormsg ∷ [];
          draws = call.draws;
        }))
