-- ===== src/Channel/Receive.antt =====
-- transfer/channel.py: the handlers of received messages that carry a balance proof. Each takes
-- the message into the partner's state and acknowledges it, or reports why it is invalid.
pub mod Sound
pub mod Removed
pub mod Amounts
pub mod Consistent
pub mod Authentic
use raiden_common.Channel.Locks.{del_unclaimed_lock, del_lock}
use raiden_common.Channel.Validate.{
  valid, invalid, is_valid_lockedtransfer, is_valid_lock_expired, is_valid_unlock, is_valid_refund,
}
use raiden_common.Common.{ℕ, Bool, true, false, Option, some, List, [], ◌∷◌, nat_eq}
use raiden_common.Common.Bytes.{bytes_eq}
use raiden_common.Common.Dict.{insert}
use raiden_common.Common.Int.{int_eq}
use raiden_common.Common.Outcome.{Outcome, ok, ◌>>=◌, ◌>>◌}
use raiden_common.Events.{
  LockedTransferUnsignedState, LockedTransferSignedState, Event, ReceiveUnlock, ReceiveLockExpired,
  ReceiveTransferRefund,
}
use raiden_common.External.{CanonicalIdentifier, External}
use raiden_common.State.{
  HashTimeLockState, BalanceProofSignedState, signed, PendingLocksState, NettingChannelEndState,
  NettingChannelState,
}

-- `CANONICAL_IDENTIFIER_UNORDERED_QUEUE`; the empty address is 0.
abbrev pub canonical_identifier_unordered_queue : CanonicalIdentifier
canonical_identifier_unordered_queue = record {
  chain_identifier = 0;
  token_network_address = 0;
  channel_identifier = 0;
}

-- `SendProcessed(...)`
abbrev pub processed : ℕ → Option ℕ → ℕ → Event
processed recipient recipient_metadata message_identifier = Event.send_processed (record {
  recipient = recipient;
  recipient_metadata = recipient_metadata;
  canonical_identifier = canonical_identifier_unordered_queue;
  message_identifier = message_identifier;
})

-- `EventsOrError`, with the channel state that the Python code changes in place. The message that
-- it also returns is the reason inside the event.
pub record Handled : Type 0 where
  pub is_valid : Bool
  pub channel : NettingChannelState
  pub events : List Event

-- A message that is refused changes nothing.
abbrev pub refused : NettingChannelState → Event → Handled
refused channel_state event = record {
  is_valid = false;
  channel = channel_state;
  events = event ∷ [];
}

-- The partner's state with a new balance proof, its nonce and the new pending locks.
unfoldable pub accept_balance_proof :
    NettingChannelEndState → BalanceProofSignedState → PendingLocksState → NettingChannelEndState
accept_balance_proof end_state balance_proof pending_locks = record end_state {
  balance_proof = some (signed balance_proof);
  nonce = balance_proof.nonce;
  pending_locks = pending_locks;
}

-- `end_state.secrethashes_to_lockedlocks[lock.secrethash] = lock`
unfoldable pub add_lockedlock : NettingChannelEndState → HashTimeLockState → NettingChannelEndState
add_lockedlock end_state lock = record end_state {
  secrethashes_to_lockedlocks = insert lock.secrethash lock end_state.secrethashes_to_lockedlocks;
}

unfoldable pub handle_receive_lockedtransfer :
    External → NettingChannelState → LockedTransferSignedState → Option ℕ → Handled
unfolding accept_balance_proof add_lockedlock
handle_receive_lockedtransfer x channel_state mediated_transfer recipient_metadata =
    let partner = channel_state.partner_state in
    elim (is_valid_lockedtransfer x mediated_transfer channel_state partner
      channel_state.our_state) [
        | invalid r ↦
            refused channel_state
              (Event.invalid_received_locked_transfer mediated_transfer.payment_identifier r)
        | valid pending_locks ↦ record {
          is_valid = true;
          channel = record channel_state {
            partner_state =
                add_lockedlock
                  (accept_balance_proof partner mediated_transfer.balance_proof pending_locks)
                  mediated_transfer.lock;
          };
          events =
              processed mediated_transfer.balance_proof.sender recipient_metadata
                mediated_transfer.message_identifier
              ∷ [];
        }
      ]

-- The recipient's metadata is looked up in the routes of the received transfer.
unfoldable pub handle_refundtransfer :
    External
    → LockedTransferUnsignedState
    → NettingChannelState
    → ReceiveTransferRefund
    → Option ℕ
    → Handled
unfolding accept_balance_proof add_lockedlock
handle_refundtransfer x received_transfer channel_state refund recipient_metadata =
    let partner = channel_state.partner_state in
    elim (is_valid_refund x refund channel_state partner channel_state.our_state
      received_transfer) [
        | invalid r ↦
            refused channel_state
              (Event.invalid_received_transfer_refund received_transfer.payment_identifier r)
        | valid pending_locks ↦ record {
          is_valid = true;
          channel = record channel_state {
            partner_state =
                add_lockedlock
                  (accept_balance_proof partner refund.transfer.balance_proof pending_locks)
                  refund.transfer.lock;
          };
          events =
              processed refund.transfer.balance_proof.sender recipient_metadata
                refund.transfer.message_identifier
              ∷ [];
        }
      ]

unfoldable pub handle_receive_lock_expired :
    External → NettingChannelState → ReceiveLockExpired → ℕ → Option ℕ → Handled
unfolding accept_balance_proof del_unclaimed_lock
handle_receive_lock_expired x channel_state state_change block_number recipient_metadata =
    let partner = channel_state.partner_state in
    elim (is_valid_lock_expired x state_change channel_state partner channel_state.our_state
      block_number) [
        | invalid r ↦
            refused channel_state (Event.invalid_received_lock_expired state_change.secrethash r)
        | valid pending_locks ↦ record {
          is_valid = true;
          channel = record channel_state {
            partner_state =
                del_unclaimed_lock
                  (accept_balance_proof partner state_change.balance_proof pending_locks)
                  state_change.secrethash;
          };
          events =
              processed state_change.balance_proof.sender recipient_metadata
                state_change.message_identifier
              ∷ [];
        }
      ]

unfoldable pub handle_unlock :
    External → NettingChannelState → ReceiveUnlock → Option ℕ → Outcome Handled
unfolding accept_balance_proof del_lock
handle_unlock x channel_state unlock recipient_metadata =
    let partner = channel_state.partner_state in
    elim (is_valid_unlock x unlock channel_state partner) [
      | invalid r ↦ ok (refused channel_state (Event.invalid_received_unlock unlock.secrethash r))
      | valid pending_locks ↦ (do
        partner' ←
            del_lock (accept_balance_proof partner unlock.balance_proof pending_locks)
              unlock.secrethash
        ok (record {
          is_valid = true;
          channel = record channel_state { partner_state = partner' };
          events =
              processed unlock.balance_proof.sender recipient_metadata unlock.message_identifier
              ∷ [];
        }))
    ]
