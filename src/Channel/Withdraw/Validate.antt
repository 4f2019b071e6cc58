-- ===== src/Channel/Withdraw/Validate.antt =====
-- transfer/channel.py: the checks of withdraw actions and messages.
use raiden_common.Channel.Balance.{get_balance, get_next_nonce, is_valid_channel_total_withdraw}
use raiden_common.Channel.Locks.{get_number_of_pending_transfers}
use raiden_common.Channel.Status.{
  is_state_opened, get_status, get_receiver_expiration_threshold, is_withdraw_expired,
}
use raiden_common.Channel.Validate.{is_valid_signature}
use raiden_common.Common.{
  ℕ, Bool, true, not, ◌&&◌, Option, none, some, List, [], ◌∷◌, ltb, if◌then◌else◌, ◌==◌, or_else,
  nat_eq,
}
use raiden_common.Common.Bytes.{Bytes, bytes_eq}
use raiden_common.Common.Dict.{lookup}
use raiden_common.Common.Int.{ℤ, pos, ◌+ℤ◌, ◌-ℤ◌, ltb_ℤ, int_eq}
use raiden_common.Common.Outcome.{Outcome, ok, ◌>>=◌}
use raiden_common.Events.{Reason, SuccessOrError, ReceiveWithdraw, ReceiveWithdrawExpired}
use raiden_common.External.{CanonicalIdentifier, External}
use raiden_common.State.{
  PendingWithdrawState, ExpiredWithdrawState, NettingChannelEndState, NettingChannelState,
  offchain_total_withdraw, total_withdraw, canonical_identifier_eq,
}

-- The packing of withdraw messages, a parameter of what calls it.
abbrev pub WithdrawPacker : Type 0
WithdrawPacker = CanonicalIdentifier → ℕ → ℤ → ℕ → Outcome Bytes

unfoldable pub is_valid_withdraw :
    External → WithdrawPacker → ReceiveWithdraw → Outcome SuccessOrError
unfolding is_valid_signature
is_valid_withdraw x pack message = do
  packed ←
      pack message.canonical_identifier message.participant message.total_withdraw
        message.expiration
  ok (is_valid_signature x packed message.signature message.sender)

-- The balance is compared, not what can be distributed: tokens in pending locks are not left out.
unfoldable pub is_valid_total_withdraw : NettingChannelState → ℤ → Bool → SuccessOrError
unfolding get_balance get_status is_valid_channel_total_withdraw total_withdraw
is_valid_total_withdraw channel_state our_total_withdraw allow_zero =
    let ours = channel_state.our_state in
    let partner = channel_state.partner_state in
    let withdraw_amount = our_total_withdraw -ℤ total_withdraw ours in
    if not (is_state_opened (get_status channel_state))
    then SuccessOrError.error Reason.channel_not_opened
    else if ltb_ℤ withdraw_amount (pos 0)
    then SuccessOrError.error Reason.total_withdraw_decreased
    else if not allow_zero && withdraw_amount == pos 0
    then SuccessOrError.error Reason.total_withdraw_not_increased
    else if ltb_ℤ (get_balance ours partner) withdraw_amount
    then SuccessOrError.error Reason.insufficient_balance
    else if not (is_valid_channel_total_withdraw (our_total_withdraw +ℤ total_withdraw partner))
    then SuccessOrError.error Reason.withdraw_overflow
    else SuccessOrError.success

unfoldable pub is_valid_action_coopsettle : NettingChannelState → ℤ → SuccessOrError
unfolding is_valid_total_withdraw get_number_of_pending_transfers offchain_total_withdraw
is_valid_action_coopsettle channel_state amount =
    let ours = channel_state.our_state in
    let partner = channel_state.partner_state in
    elim (is_valid_total_withdraw channel_state amount true) [
      | SuccessOrError.error r ↦ SuccessOrError.error r
      | SuccessOrError.success ↦
          if ltb 0 (get_number_of_pending_transfers ours)
          then SuccessOrError.error Reason.we_have_pending_locks
          else if ltb 0 (get_number_of_pending_transfers partner)
          then SuccessOrError.error Reason.partner_has_pending_locks
          else if ltb_ℤ (pos 0) (offchain_total_withdraw ours)
          then SuccessOrError.error Reason.we_have_pending_withdraws
          else if ltb_ℤ (pos 0) (offchain_total_withdraw partner)
          then SuccessOrError.error Reason.partner_has_pending_withdraws
          else SuccessOrError.success
    ]

-- The checks of a request behind the signature, which is computed first.
unfoldable pub check_withdraw_request :
    NettingChannelState → ReceiveWithdraw → SuccessOrError → SuccessOrError
unfolding get_balance get_next_nonce is_valid_channel_total_withdraw total_withdraw
    canonical_identifier_eq
check_withdraw_request channel_state request signature_check =
    let ours = channel_state.our_state in
    let partner = channel_state.partner_state in
    let withdraw_amount = request.total_withdraw -ℤ total_withdraw partner in
    if not (canonical_identifier_eq channel_state.canonical_identifier request.canonical_identifier)
    then SuccessOrError.error Reason.canonical_identifier_differs
    else if not (request.participant == partner.address)
    then SuccessOrError.error Reason.participant_differs
    else if not (request.sender == partner.address)
    then SuccessOrError.error Reason.sender_differs
    else if ltb_ℤ withdraw_amount (pos 0)
    then SuccessOrError.error Reason.total_withdraw_decreased
    else if ltb_ℤ (get_balance partner ours) withdraw_amount
    then SuccessOrError.error Reason.insufficient_balance
    else if not (request.nonce == get_next_nonce partner)
    then SuccessOrError.error Reason.nonce_not_sequential
    else if not (is_valid_channel_total_withdraw (request.total_withdraw +ℤ total_withdraw ours))
    then SuccessOrError.error Reason.withdraw_overflow
    else signature_check

unfoldable pub is_valid_withdraw_request :
    External → WithdrawPacker → NettingChannelState → ReceiveWithdraw → Outcome SuccessOrError
unfolding is_valid_withdraw check_withdraw_request
is_valid_withdraw_request x pack channel_state request = do
  signature_check ← is_valid_withdraw x pack request
  ok (check_withdraw_request channel_state request signature_check)

-- The first expired withdraw of the given amount, by its expiration block.
unfoldable pub find_expired : ℤ → List ExpiredWithdrawState → Option ℕ
find_expired amount [] = none
find_expired amount (w ∷ ws) =
    if w.total_withdraw == amount then some w.expiration else find_expired amount ws

abbrev pub expiration_of : Option PendingWithdrawState → Option ℕ
expiration_of none = none
expiration_of (some w) = some w.expiration

-- The expiration block of our withdraw that a confirmation is for: pending, or expired.
unfoldable pub confirmed_expiration : NettingChannelEndState → ℤ → Option ℕ
unfolding find_expired
confirmed_expiration ours amount =
    or_else (expiration_of (lookup amount ours.withdraws_pending))
      (find_expired amount ours.withdraws_expired)

-- The checks of a confirmation before the signature; `none` if all pass.
unfoldable pub check_withdraw_confirmation :
    NettingChannelState → ReceiveWithdraw → ℕ → Option Reason
unfolding get_next_nonce is_valid_channel_total_withdraw total_withdraw canonical_identifier_eq
check_withdraw_confirmation channel_state received expiration =
    let ours = channel_state.our_state in
    let partner = channel_state.partner_state in
    if not
      (canonical_identifier_eq channel_state.canonical_identifier received.canonical_identifier)
    then some Reason.canonical_identifier_differs
    else if not (received.total_withdraw == total_withdraw ours)
    then some Reason.total_withdraw_differs
    else if not (received.nonce == get_next_nonce partner)
    then some Reason.nonce_not_sequential
    else if not (received.expiration == expiration)
    then some Reason.expiration_differs
    else if not (received.participant == ours.address)
    then some Reason.participant_differs
    else if not (received.sender == partner.address)
    then some Reason.sender_differs
    else if not
        (is_valid_channel_total_withdraw (received.total_withdraw +ℤ total_withdraw partner))
    then some Reason.withdraw_overflow
    else none

unfoldable pub is_valid_withdraw_confirmation :
    External → WithdrawPacker → NettingChannelState → ReceiveWithdraw → Outcome SuccessOrError
unfolding confirmed_expiration check_withdraw_confirmation
is_valid_withdraw_confirmation x pack channel_state received =
    elim (confirmed_expiration channel_state.our_state received.total_withdraw) [
      | none ↦ ok (SuccessOrError.error Reason.withdraw_not_found)
      | some expiration ↦ elim (check_withdraw_confirmation channel_state received expiration) [
        | some r ↦ ok (SuccessOrError.error r)
        | none ↦ is_valid_withdraw x pack received
      ]
    ]

unfoldable pub is_valid_withdraw_expired :
    NettingChannelState → ReceiveWithdrawExpired → PendingWithdrawState → ℕ → SuccessOrError
unfolding get_next_nonce is_withdraw_expired get_receiver_expiration_threshold
    canonical_identifier_eq
is_valid_withdraw_expired channel_state state_change withdraw_state block_number =
    let partner = channel_state.partner_state in
    if not (
      is_withdraw_expired block_number
        (get_receiver_expiration_threshold withdraw_state.expiration))
    then SuccessOrError.error Reason.withdraw_not_expired
    else if not (
        canonical_identifier_eq channel_state.canonical_identifier
          state_change.canonical_identifier)
    then SuccessOrError.error Reason.canonical_identifier_differs
    else if not (state_change.sender == partner.address)
    then SuccessOrError.error Reason.sender_differs
    else if not (state_change.total_withdraw == withdraw_state.total_withdraw)
    then SuccessOrError.error Reason.total_withdraw_differs
    else if not (state_change.nonce == get_next_nonce partner)
    then SuccessOrError.error Reason.nonce_not_sequential
    else SuccessOrError.success
