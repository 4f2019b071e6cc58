-- ===== src/Channel/Confirm.antt =====
-- transfer/channel.py: the handlers of withdraw confirmations and of expired withdraws.
use raiden_common.Channel.Actions.{Call}
use raiden_common.Channel.Receive.{processed}
use raiden_common.Channel.Withdraw.{kept, Step, clear_coop_settle, events_for_coop_settle}
use raiden_common.Channel.Withdraw.Validate.{
  WithdrawPacker, is_valid_withdraw_confirmation, is_valid_withdraw_expired,
}
use raiden_common.Common.{
  ℕ, ◌+◌, not, Option, none, some, List, [], ◌∷◌, leb, if◌then◌else◌, is_some, nat_eq,
}
use raiden_common.Common.Bytes.{bytes_eq}
use raiden_common.Common.Dict.{lookup, erase}
use raiden_common.Common.Int.{int_eq}
use raiden_common.Common.Outcome.{Failure, Outcome, ok, assert, ◌>>=◌, ◌>>◌}
use raiden_common.Events.{
  Reason, SuccessOrError, Event, TransitionResult, ReceiveWithdraw, ReceiveWithdrawExpired,
}
use raiden_common.External.{External}
use raiden_common.State.{PendingWithdrawState, CoopSettleState, NettingChannelState}

abbrev pub metadata_of : Option PendingWithdrawState → Option ℕ
metadata_of none = none
metadata_of (some w) = w.recipient_metadata

-- A confirmation of a settlement that we initiated: keep the signature, and settle if all is there.
unfoldable pub confirm_coop_settle :
    NettingChannelState → CoopSettleState → ReceiveWithdraw → Call → Outcome Step
unfolding events_for_coop_settle
confirm_coop_settle channel_state c action call = do
  assert (not (is_some channel_state.partner_state.initiated_coop_settle))
      Failure.one_coop_settle_only
  ok (
      events_for_coop_settle channel_state
        (record c { partner_signature_confirmation = some action.signature }) call.block_number
        call.block_hash call.draws)

-- The on-chain withdraw, if no settlement is under way and there is time for it:
-- `expiration >= block_number - reveal_timeout`.
unfoldable pub withdraw_onchain : NettingChannelState → ReceiveWithdraw → Call → List Event
withdraw_onchain channel_state action call =
    if is_some channel_state.partner_state.initiated_coop_settle
    then []
    else if leb call.block_number (action.expiration + channel_state.reveal_timeout)
    then Event.contract_send_channel_withdraw (record {
      canonical_identifier = action.canonical_identifier;
      total_withdraw = action.total_withdraw;
      partner_signature = action.signature;
      expiration = action.expiration;
      triggered_by_block_hash = call.block_hash;
    })
      ∷ []
    else []

unfoldable pub after_confirmation : NettingChannelState → ReceiveWithdraw → Call → Outcome Step
unfolding confirm_coop_settle withdraw_onchain
after_confirmation channel_state action call = elim channel_state.our_state.initiated_coop_settle [
  | some c ↦ confirm_coop_settle channel_state c action call
  | none ↦ ok (record {
    channel = channel_state;
    events = withdraw_onchain channel_state action call;
    draws = call.draws;
  })
]

unfoldable pub handle_receive_withdraw_confirmation :
    External
    → WithdrawPacker
    → NettingChannelState
    → ReceiveWithdraw
    → Call
    → Outcome TransitionResult
unfolding after_confirmation
handle_receive_withdraw_confirmation x pack channel_state action call = do
  let partner = channel_state.partner_state
  let withdraw_state = lookup action.total_withdraw channel_state.our_state.withdraws_pending
  checked ← is_valid_withdraw_confirmation x pack channel_state action
  elim checked [
    | SuccessOrError.error r ↦ ok (
        kept channel_state (Event.invalid_received_withdraw action.total_withdraw r ∷ [])
          call.draws)
    | SuccessOrError.success ↦ (do
      s ←
          after_confirmation
            (record channel_state { partner_state = record partner { nonce = action.nonce } })
            action call
      ok (
          kept s.channel
            (processed partner.address (metadata_of withdraw_state) action.message_identifier
              ∷ s.events)
            s.draws))
  ]

unfoldable pub handle_receive_withdraw_expired :
    NettingChannelState → ReceiveWithdrawExpired → Call → TransitionResult
unfolding is_valid_withdraw_expired
handle_receive_withdraw_expired channel_state action call =
    let partner = channel_state.partner_state in
    let invalid_expired = λ (r : Reason).
      kept channel_state (Event.invalid_received_withdraw_expired action.total_withdraw r ∷ [])
        call.draws in
    elim (lookup action.total_withdraw partner.withdraws_pending) [
      | none ↦ invalid_expired Reason.withdraw_not_found
      | some w ↦ elim (is_valid_withdraw_expired channel_state action w call.block_number) [
        | SuccessOrError.error r ↦ invalid_expired r
        | SuccessOrError.success ↦
            kept
              (record channel_state {
                partner_state = record partner {
                  withdraws_pending = erase w.total_withdraw partner.withdraws_pending;
                  nonce = action.nonce;
                  initiated_coop_settle = clear_coop_settle partner.initiated_coop_settle w;
                };
              })
              (processed partner.address w.recipient_metadata action.message_identifier ∷ [])
              call.draws
      ]
    ]
