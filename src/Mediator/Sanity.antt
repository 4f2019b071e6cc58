-- ===== src/Mediator/Sanity.antt =====
-- mediator.py: `sanity_check` and `clear_if_finalized`.
use raiden_common.Channel.Locks.{is_lock_pending}
use raiden_common.Common.{
  ℕ, Bool, false, not, ◌||◌, Option, none, some, List, [], ◌∷◌, if◌then◌else◌, is_some, ◌==◌,
  nat_eq,
}
use raiden_common.Common.Bytes.{bytes_eq}
use raiden_common.Common.Int.{int_eq}
use raiden_common.Common.Outcome.{Failure, Outcome, ok, ◌>>◌, assert}
use raiden_common.Mediator.{
  MediationPairState, WaitingTransferState, MediatorTransferState, MediatorResult, payee_is_paid,
  payer_is_paid, get_payee_channel, get_payer_channel, is_send_transfer_almost_equal, any_of,
}
use raiden_common.Routes.{ChannelMap, get_channel}
use raiden_common.State.{NettingChannelState}

-- Whether a side of the pair is paid.
abbrev pub is_paid : MediationPairState → Bool
is_paid p = payee_is_paid p.payee_state || payer_is_paid p.payer_state

-- The states of payer and payee are valid by their types.
unfoldable pub check_pairs : ChannelMap → List MediationPairState → Outcome (Unit {0})
check_pairs m [] = ok tt
check_pairs m (p ∷ pairs) =
    let rest = check_pairs m pairs in
    elim (get_payee_channel m p) [
      | none ↦ rest
      | some (r, c) ↦
          assert (is_send_transfer_almost_equal p.payee_transfer p.payer_transfer)
            Failure.transfers_too_different
          >> rest
    ]

-- Each pair behind the first is for a refund of the pair before it.
unfoldable pub check_refunds : ChannelMap → List MediationPairState → Outcome (Unit {0})
check_refunds m (original ∷ refund ∷ pairs) =
    let rest = check_refunds m (refund ∷ pairs) in
    assert (original.payee_address == refund.payer_transfer.balance_proof.sender)
      Failure.address_mismatch
    >> elim (get_payer_channel m refund) [
      | none ↦ rest
      | some (r, c) ↦
          assert (is_send_transfer_almost_equal original.payee_transfer refund.payer_transfer)
            Failure.transfers_too_different
          >> rest
    ]
check_refunds m pairs = ok tt

abbrev pub last_pair : List MediationPairState → Option MediationPairState
last_pair [] = none
last_pair (p ∷ []) = some p
last_pair (p ∷ q ∷ pairs) = last_pair (q ∷ pairs)

unfoldable pub check_waiting :
    ChannelMap → Option WaitingTransferState → Option MediationPairState → Outcome (Unit {0})
check_waiting m (some w) (some p) = elim (get_payee_channel m p) [
  | none ↦ ok tt
  | some (r, c) ↦
      assert (is_send_transfer_almost_equal p.payee_transfer w.transfer)
        Failure.transfers_too_different
]
check_waiting m waiting pair = ok tt

unfoldable pub check_secrethash : ℕ → List MediationPairState → Outcome (Unit {0})
check_secrethash secrethash [] = ok tt
check_secrethash secrethash (p ∷ pairs) =
    assert (secrethash == p.payer_transfer.lock.secrethash) Failure.secrethash_mismatch

-- `sanity_check`
unfoldable pub check_mediator : MediatorTransferState → ChannelMap → Outcome (Unit {0})
check_mediator state m = do
  assert (not (any_of is_paid state.transfers_pair) || is_some state.secret)
      Failure.mediator_secret_missing
  check_secrethash state.secrethash state.transfers_pair
  check_pairs m state.transfers_pair
  check_refunds m state.transfers_pair
  check_waiting m state.waiting_transfer (last_pair state.transfers_pair)

-- Whether a channel, where it is there, has the lock on the partner's side, or on ours.
abbrev pub is_pending_at_partner : Option (ℕ × NettingChannelState) → ℕ → Bool
is_pending_at_partner none secrethash = false
is_pending_at_partner (some (r, c)) secrethash = is_lock_pending c.partner_state secrethash

abbrev pub is_pending_at_us : Option (ℕ × NettingChannelState) → ℕ → Bool
is_pending_at_us none secrethash = false
is_pending_at_us (some (r, c)) secrethash = is_lock_pending c.our_state secrethash

abbrev pub has_pending_lock : ChannelMap → ℕ → MediationPairState → Bool
has_pending_lock m secrethash p =
    is_pending_at_partner (get_payer_channel m p) secrethash
    || is_pending_at_us (get_payee_channel m p) secrethash

abbrev pub has_waiting_lock : ChannelMap → ℕ → Option WaitingTransferState → Bool
has_waiting_lock m secrethash none = false
has_waiting_lock m secrethash (some w) =
    is_pending_at_partner
      (get_channel m w.transfer.balance_proof.canonical_identifier.channel_identifier) secrethash

unfoldable pub clear_if_finalized : MediatorResult → MediatorResult
clear_if_finalized iteration = elim iteration.new_state [
  | none ↦ iteration
  | some state ↦
      if any_of (has_pending_lock iteration.channels state.secrethash) state.transfers_pair
        || has_waiting_lock iteration.channels state.secrethash state.waiting_transfer
      then iteration
      else record iteration { new_state = none }
]
