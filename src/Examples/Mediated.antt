-- ===== src/Examples/Mediated.antt =====
-- Tests of the mediator.
-- The channel that transfers are sent on with.
use raiden_common.Channel.Balance.{
  get_amount_unclaimed_onchain, get_amount_locked, get_balance_with, get_balance,
  get_current_balanceproof, get_distributable, get_next_nonce, is_valid_amount,
  is_channel_usable_for_new_transfer, is_channel_usable_for_mediation,
}
use raiden_common.Channel.Invariant.Moves.{TakesLock}
use raiden_common.Channel.Locks.{
  is_lock_pending, get_number_of_pending_transfers, compute_locks_with, join, compute_locksroot,
}
use raiden_common.Channel.Receive.{add_lockedlock}
use raiden_common.Channel.Sanity.Consistent.{IsConsistent}
use raiden_common.Channel.Send.{create_sendlockedtransfer, apply_balance_proof, send_lockedtransfer}
use raiden_common.Channel.Status.{transaction_state, status_before_settle, status_of, get_status}
use raiden_common.Channel.Validate.{
  is_valid_balanceproof_signature, is_balance_proof_usable_onchain, compare_balance_proof,
  check_locks_with, is_valid_lockedtransfer,
}
use raiden_common.Common.{◌≤◌, ◌≡◌, refl, true, none, some, [], ◌∷◌, arith, list_contains, nat_eq}
use raiden_common.Common.Bytes.{bytes_beq, to_bytes, bytes_eq}
use raiden_common.Common.Dict.{lookup, insert, sum_values}
use raiden_common.Common.Int.{◌+ℤ◌, ◌-ℤ◌, int_eq}
use raiden_common.Common.Outcome.{ok}
use raiden_common.Common.Rational.{
  ◌+ℚ◌, ◌-ℚ◌, ◌*ℚ◌, divide, ltb_ℚ, max_ℚ, abs_ℚ, round_half_even, item, last_item, item_before,
  insert_at,
}
use raiden_common.Events.{Reason, LockedTransferUnsignedState}
use raiden_common.Examples.{
  toy, channel_id, empty_side, channel_between, ten, transfer_ten, fresh_channel,
  channel_between-IsConsistent, call_at,
}
use raiden_common.Fees.{
  is_ascending, slopes_of, make_interpolate, bisect_right, interpolate, insert_sorted, sorted_set,
  limited, collect_x_values, changes_sign, cap_step, cap_rounds, cap_fees_at, penalty_func, fee,
}
use raiden_common.Fees.Amount.{
  penalty_or_dummy, fee_at, fees_at, mediation_fee_func, first_crossing, line_of, find_intersection,
  rounded_amount, get_amount_without_fees,
}
use raiden_common.Mediator.{
  PayerState, PayeeState, MediationPairState, WaitingState, WaitingTransferState,
  MediatorTransferState, is_send_transfer_almost_equal,
}
use raiden_common.Mediator.Early.{handle_mediator_block-waiting}
use raiden_common.Mediator.Forward.{
  Forwarded, describe_forward, forward_amount, forward_transfer_pair,
}
use raiden_common.Mediator.Handlers.{stays, handle_mediator_block}
use raiden_common.Mediator.Onward.{forward_transfer_pair-IsConsistent}
use raiden_common.Mediator.Reveals.{events_for_secretreveal-reference}
use raiden_common.Mediator.Secrets.{get_waiting_channel, reveal_to_payer, events_for_secretreveal}
use raiden_common.Routes.{get_address_metadata, ChannelMap, get_channel}
use raiden_common.State.{
  unsigned, NettingChannelState, largest_key, max_key, offchain_total_withdraw,
}
use raiden_common.State.Make.{encoded, make_lock, checked_amount, make_balance_proof}
use raiden_common.Target.{claim_failed}

abbrev onward_channel : NettingChannelState
onward_channel = record (channel_between 1 3) {
  canonical_identifier = record channel_id { channel_identifier = 6 };
}

onward_channel-IsConsistent : IsConsistent toy onward_channel
onward_channel-IsConsistent =
    let base = channel_between-IsConsistent 1 3 in
    record {
      ours = base.ours;
      partner = base.partner;
      our_solvency = base.our_solvency;
      partner_solvency = base.partner_solvency;
      our_bound = base.our_bound;
      partner_bound = base.partner_bound;
      ordered = base.ordered;
    }

abbrev pub one_channel : NettingChannelState → ChannelMap
one_channel c = record { store = (1, c) ∷ []; by_identifier = (5, 1) ∷ []; by_address = [] }

abbrev waits_for_ten : WaitingState → WaitingTransferState
waits_for_ten state = record { transfer = transfer_ten; state = state }

abbrev pub waiting_task : WaitingState → MediatorTransferState
waiting_task state = record {
  secrethash = 7;
  routes = [];
  refunded_channels = [];
  secret = none;
  transfers_pair = [];
  waiting_transfer = some (waits_for_ten state);
}

handle_mediator_block-waiting_example :
    handle_mediator_block toy
      (waiting_task WaitingState.expired)
      (one_channel fresh_channel)
      (call_at 56)
    ≡ ok (
        stays
          (waiting_task WaitingState.expired)
          (one_channel fresh_channel)
          (claim_failed transfer_ten Reason.lock_has_expired ∷ [])
          0)
unfolding get_waiting_channel get_channel lookup
handle_mediator_block-waiting_example =
    handle_mediator_block-waiting toy (waiting_task WaitingState.expired)
      (waits_for_ten WaitingState.expired) (one_channel fresh_channel) (call_at 56) 1 fresh_channel
      refl refl refl refl refl (omega arith)

abbrev onward_ten : LockedTransferUnsignedState
onward_ten = record {
  payment_identifier = 3;
  token = 8;
  lock = ten;
  target = 1;
  initiator = 2;
  balance_proof = record {
    nonce = 1;
    transferred_amount = 0;
    locked_amount = 10;
    locksroot = to_bytes 32 1;
    canonical_identifier = record channel_id { channel_identifier = 6 };
  };
  route_states = [];
  metadata = none;
  secret = none;
}

abbrev pub pair_ten : PayerState → PayeeState → MediationPairState
pair_ten payer_state payee_state = record {
  payer_transfer = transfer_ten;
  payee_address = 3;
  payee_transfer = onward_ten;
  payer_state = payer_state;
  payee_state = payee_state;
}

-- The channel after the transfer was sent on.
abbrev pub after_onward : NettingChannelState
after_onward = record onward_channel {
  our_state = record (empty_side 1) {
    balance_proof = some (unsigned onward_ten.balance_proof);
    nonce = 1;
    pending_locks = encoded ten ∷ [];
    secrethashes_to_lockedlocks = (7, ten) ∷ [];
  };
}

abbrev forwarded_ten : Forwarded
forwarded_ten = record {
  pair = pair_ten PayerState.pending PayeeState.pending;
  channel = after_onward;
  event = record {
    header = record {
      recipient = 3;
      recipient_metadata = none;
      canonical_identifier = record channel_id { channel_identifier = 6 };
      message_identifier = 0;
    };
    transfer = onward_ten;
  };
}

amount_ten : get_amount_without_fees 10 fresh_channel onward_channel ≡ ok (some 10)
unfolding get_amount_without_fees get_balance mediation_fee_func find_intersection rounded_amount
    ◌-ℤ◌ ◌+ℤ◌ penalty_func penalty_or_dummy collect_x_values fees_at fee_at cap_fees_at
    make_interpolate ◌+ℚ◌ ◌-ℚ◌ ◌*ℚ◌ line_of first_crossing item item_before last_item divide ltb_ℚ
    round_half_even fee interpolate abs_ℚ cap_rounds cap_step changes_sign max_ℚ insert_at
    bisect_right sorted_set limited insert_sorted slopes_of is_ascending get_balance_with
    offchain_total_withdraw max_key
amount_ten = refl

sent_onward :
    send_lockedtransfer toy onward_channel (describe_forward toy transfer_ten onward_channel 10 0)
    ≡ ok (forwarded_ten.event, after_onward)
unfolding send_lockedtransfer create_sendlockedtransfer is_valid_lockedtransfer
    is_balance_proof_usable_onchain get_status is_valid_balanceproof_signature compute_locks_with
    list_contains check_locks_with compare_balance_proof bytes_beq to_bytes compute_locksroot
    encoded get_current_balanceproof get_distributable ◌-ℤ◌ get_balance ◌+ℤ◌ get_amount_locked
    get_amount_unclaimed_onchain get_balance_with get_next_nonce join add_lockedlock
    status_before_settle status_of transaction_state insert sum_values largest_key max_key
    offchain_total_withdraw make_lock make_balance_proof checked_amount apply_balance_proof lookup
    get_address_metadata
sent_onward = refl

usable_onward : is_channel_usable_for_mediation toy onward_channel 10 38 ≡ true
unfolding is_channel_usable_for_mediation is_channel_usable_for_new_transfer get_status
    get_distributable get_balance get_amount_locked get_number_of_pending_transfers
    status_before_settle status_of transaction_state ◌-ℤ◌ ◌+ℤ◌ offchain_total_withdraw sum_values
    get_current_balanceproof is_valid_amount
usable_onward = refl

forwarded :
    forward_transfer_pair toy transfer_ten fresh_channel onward_channel 12 0
    ≡ ok (some forwarded_ten)
unfolding forward_transfer_pair forward_amount
forwarded = rw (amount_ten, forward_transfer_pair, usable_onward, sent_onward) refl

pub after_onward-IsConsistent : IsConsistent toy after_onward
unfolding is_lock_pending lookup
after_onward-IsConsistent =
    (forward_transfer_pair-IsConsistent toy transfer_ten fresh_channel onward_channel 12 0
      forwarded_ten onward_channel-IsConsistent refl refl forwarded).0

forward_transfer_pair-IsConsistent_example :
    IsConsistent toy after_onward
    × TakesLock onward_channel.our_state after_onward.our_state onward_channel.partner_state ten
    × (is_send_transfer_almost_equal onward_ten transfer_ten ≡ true)
    × (transfer_ten ≡ transfer_ten)
    × (PayerState.pending ≡ PayerState.pending)
    × (PayeeState.pending ≡ PayeeState.pending)
    × (38 ≤ 100)
unfolding is_lock_pending lookup
forward_transfer_pair-IsConsistent_example =
    forward_transfer_pair-IsConsistent toy transfer_ten fresh_channel onward_channel 12 0
      forwarded_ten onward_channel-IsConsistent refl refl forwarded

events_for_secretreveal-reference_example :
    events_for_secretreveal toy 6
      (pair_ten PayerState.pending PayeeState.pending
        ∷ pair_ten PayerState.pending PayeeState.secret_revealed
        ∷ [])
      0
    ≡ (
      pair_ten PayerState.pending PayeeState.pending
          ∷ pair_ten PayerState.secret_revealed PayeeState.secret_revealed
          ∷ [],
      reveal_to_payer toy transfer_ten 6 0 ∷ [],
      1,
    )
events_for_secretreveal-reference_example =
    events_for_secretreveal-reference toy 6
      (pair_ten PayerState.pending PayeeState.pending
        ∷ pair_ten PayerState.pending PayeeState.secret_revealed
        ∷ [])
      0
