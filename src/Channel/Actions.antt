-- ===== src/Channel/Actions.antt =====
-- transfer/channel.py: the handlers of the user's actions and of the withdraw messages.
pub mod Withdrawn
use raiden_common.Channel.Balance.{get_max_withdraw_amount, get_next_nonce}
use raiden_common.Channel.Locks.{get_number_of_pending_transfers}
use raiden_common.Channel.Send.{header_to}
use raiden_common.Channel.Status.{
  is_prior_to_closed, get_status, started_at, get_safe_initial_expiration,
}
use raiden_common.Channel.Withdraw.{kept, Step, send_withdraw_request, events_for_coop_settle}
use raiden_common.Channel.Withdraw.Validate.{
  WithdrawPacker, is_valid_total_withdraw, is_valid_action_coopsettle, is_valid_withdraw_request,
}
use raiden_common.Common.{
  ℕ, ◌*◌, true, false, not, ◌&&◌, ◌||◌, Option, none, some, List, [], ◌∷◌, ◌++◌, ltb, leb,
  if◌then◌else◌, ◌==◌, is_some, nat_eq,
}
use raiden_common.Common.Bytes.{bytes_eq}
use raiden_common.Common.Dict.{insert}
use raiden_common.Common.Int.{ℤ, int_eq}
use raiden_common.Common.Outcome.{Failure, Outcome, ok, raised, assert, ◌>>=◌, ◌>>◌}
use raiden_common.Events.{Reason, SuccessOrError, Event, TransitionResult, ReceiveWithdraw}
use raiden_common.External.{External}
use raiden_common.State.{
  BalanceProofSignedState, BalanceProofState, signed, unsigned, CoopSettleState,
  NettingChannelEndState, NettingChannelState, total_withdraw,
}

-- The arguments that every handler receives besides its state change.
pub record Call : Type 0 where
  pub block_number : ℕ
  pub block_hash : ℕ
  pub draws : ℕ

-- `TransitionResult(step.channel, step.events)`
abbrev pub of_step : Step → TransitionResult
of_step s = kept s.channel s.events s.draws

-- The partner's balance proof must be a signed one: `assert isinstance(...)`.
abbrev pub signed_or_none : Option BalanceProofState → Outcome (Option BalanceProofSignedState)
signed_or_none none = ok none
signed_or_none (some (signed b)) = ok (some b)
signed_or_none (some (unsigned b)) = raised Failure.balance_proof_not_signed

unfoldable pub events_for_close :
    NettingChannelState → ℕ → ℕ → Outcome (NettingChannelState × List Event)
unfolding get_status
events_for_close channel_state block_number block_hash =
    if not (is_prior_to_closed (get_status channel_state)) then ok (channel_state, []) else (do
      balance_proof ← signed_or_none channel_state.partner_state.balance_proof
      ok (
        record channel_state { close_transaction = some (started_at block_number) },
        Event.contract_send_channel_close channel_state.canonical_identifier balance_proof
              block_hash
            ∷ [],
      ))

unfoldable pub handle_action_close : NettingChannelState → ℕ → Call → Outcome TransitionResult
unfolding events_for_close
handle_action_close channel_state channel_identifier call = do
  assert (channel_state.canonical_identifier.channel_identifier == channel_identifier)
      Failure.ids_must_match
  (channel, events) ← events_for_close channel_state call.block_number call.block_hash
  ok (kept channel events call.draws)

unfoldable pub handle_action_coop_settle :
    External → NettingChannelState → Option ℕ → Call → TransitionResult
unfolding get_max_withdraw_amount is_valid_action_coopsettle get_safe_initial_expiration
    send_withdraw_request
handle_action_coop_settle x channel_state recipient_metadata call =
    let ours = channel_state.our_state in
    let our_max = get_max_withdraw_amount ours channel_state.partner_state in
    let partner_max = get_max_withdraw_amount channel_state.partner_state ours in
    let expiration =
      get_safe_initial_expiration call.block_number channel_state.reveal_timeout none in
    elim (is_valid_action_coopsettle channel_state our_max) [
      | SuccessOrError.error r ↦
          kept channel_state (Event.invalid_action_coop_settle our_max r ∷ []) call.draws
      | SuccessOrError.success ↦ of_step (
          send_withdraw_request x
            (record channel_state {
              our_state = record ours {
                initiated_coop_settle = some (record {
                  total_withdraw_initiator = our_max;
                  total_withdraw_partner = partner_max;
                  expiration = expiration;
                  partner_signature_request = none;
                  partner_signature_confirmation = none;
                  transaction = none;
                });
              };
            })
            our_max expiration call.draws recipient_metadata true)
    ]

unfoldable pub handle_action_withdraw :
    External → NettingChannelState → ℤ → Option ℕ → Call → TransitionResult
unfolding is_valid_total_withdraw get_safe_initial_expiration send_withdraw_request
handle_action_withdraw x channel_state amount recipient_metadata call =
    elim (is_valid_total_withdraw channel_state amount false) [
      | SuccessOrError.error r ↦
          kept channel_state (Event.invalid_action_withdraw amount r ∷ []) call.draws
      | SuccessOrError.success ↦ of_step (
          send_withdraw_request x channel_state amount
            (get_safe_initial_expiration call.block_number channel_state.reveal_timeout none)
            call.draws recipient_metadata false)
    ]

-- At least seven blocks, and at most half of the settle timeout.
unfoldable pub handle_action_set_reveal_timeout : NettingChannelState → ℕ → Call → TransitionResult
handle_action_set_reveal_timeout channel_state reveal_timeout call =
    if leb 7 reveal_timeout && leb (reveal_timeout * 2) channel_state.settle_timeout
    then kept (record channel_state { reveal_timeout = reveal_timeout }) [] call.draws
    else kept channel_state
        (Event.invalid_action_set_reveal_timeout reveal_timeout Reason.reveal_timeout_out_of_range
          ∷ [])
        call.draws

-- The partner's state after the checks of a withdraw request: the new pending withdraw and nonce.
unfoldable pub register_withdraw : NettingChannelEndState → ReceiveWithdraw → NettingChannelEndState
register_withdraw partner action = record partner {
  withdraws_pending =
      insert action.total_withdraw
        (record {
          total_withdraw = action.total_withdraw;
          expiration = action.expiration;
          nonce = action.nonce;
          recipient_metadata = action.sender_metadata;
        })
        partner.withdraws_pending;
  nonce = action.nonce;
}

-- What the request means for a cooperative settlement: an error, with the channel left as it is,
-- or the new channel and events.
pub data CoopSettleCheck : Type 0 where
  refuse : Reason → CoopSettleCheck
  proceed : Step → CoopSettleCheck

-- We have initiated a settlement, and the partner tells its total withdraw.
unfoldable pub answer_our_coop_settle :
    NettingChannelState → CoopSettleState → ReceiveWithdraw → Call → Outcome CoopSettleCheck
unfolding events_for_coop_settle
answer_our_coop_settle channel_state c action call =
    if not (c.expiration == action.expiration) then ok (refuse Reason.expiration_differs) else (do
      assert (c.total_withdraw_partner == action.total_withdraw) Failure.coop_settle_amount_mismatch
      ok (
          proceed (
            events_for_coop_settle channel_state
              (record c { partner_signature_request = some action.signature }) call.block_number
              call.block_hash call.draws)))

-- The partner initiates a settlement: we request our own withdraw. `events.extend(events)` doubles
-- the list of events.
unfoldable pub join_coop_settle :
    External → NettingChannelState → ReceiveWithdraw → Call → CoopSettleCheck
unfolding get_max_withdraw_amount get_number_of_pending_transfers send_withdraw_request
join_coop_settle x channel_state action call =
    let our_max = get_max_withdraw_amount channel_state.our_state channel_state.partner_state in
    let step =
      send_withdraw_request x
        (record channel_state {
          partner_state = record channel_state.partner_state {
            initiated_coop_settle = some (record {
              total_withdraw_initiator = action.total_withdraw;
              total_withdraw_partner = our_max;
              expiration = action.expiration;
              partner_signature_request = some action.signature;
              partner_signature_confirmation = none;
              transaction = none;
            });
          };
        })
        our_max action.expiration call.draws action.sender_metadata false in
    if ltb 0 (get_number_of_pending_transfers channel_state.our_state)
    then refuse Reason.we_have_pending_locks
    else proceed (record step { events = step.events ++ step.events })

unfoldable pub check_coop_settle :
    External → NettingChannelState → ReceiveWithdraw → Call → Outcome CoopSettleCheck
unfolding answer_our_coop_settle join_coop_settle get_max_withdraw_amount
    get_number_of_pending_transfers
check_coop_settle x channel_state action call =
    let ours = channel_state.our_state in
    let partner = channel_state.partner_state in
    if not (is_some ours.initiated_coop_settle || action.coop_settle)
    then ok (proceed (record { channel = channel_state; events = []; draws = call.draws }))
    else if not (get_max_withdraw_amount partner ours == action.total_withdraw)
    then ok (refuse Reason.not_maximum_withdraw)
    else if ltb 0 (get_number_of_pending_transfers partner)
    then ok (refuse Reason.partner_has_pending_locks)
    else elim ours.initiated_coop_settle [
      | some c ↦ answer_our_coop_settle channel_state c action call
      | none ↦ ok (join_coop_settle x channel_state action call)
    ]

-- The confirmation that closes the handling of a valid request.
unfoldable pub confirm_withdraw : Step → ReceiveWithdraw → TransitionResult
unfolding get_next_nonce
confirm_withdraw s action =
    let nonce = get_next_nonce s.channel.our_state in
    kept (record s.channel { our_state = record s.channel.our_state { nonce = nonce } })
      (s.events
        ++ Event.send_withdraw_confirmation (record {
          header = header_to s.channel action.sender_metadata action.message_identifier;
          total_withdraw = action.total_withdraw;
          participant = s.channel.partner_state.address;
          expiration = action.expiration;
          nonce = nonce;
        })
          ∷ [])
      s.draws

unfoldable pub handle_receive_withdraw_request :
    External
    → WithdrawPacker
    → NettingChannelState
    → ReceiveWithdraw
    → Call
    → Outcome TransitionResult
unfolding register_withdraw check_coop_settle confirm_withdraw
handle_receive_withdraw_request x pack channel_state action call = do
  let invalid_request =
      λ (r : Reason). Event.invalid_received_withdraw_request action.total_withdraw r ∷ []
  checked ← is_valid_withdraw_request x pack channel_state action
  elim checked [
    | SuccessOrError.error r ↦ ok (kept channel_state (invalid_request r) call.draws)
    | SuccessOrError.success ↦ (do
      let registered = record channel_state {
        partner_state = register_withdraw channel_state.partner_state action;
      }
      coop ← check_coop_settle x registered action call
      elim coop [
        | refuse r ↦ ok (kept registered (invalid_request r) call.draws)
        | proceed s ↦ ok (confirm_withdraw s action)
      ])
  ]
