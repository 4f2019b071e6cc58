-- ===== src/Mediator/Sent.antt =====
-- The transfer that a mediator sends on.
use raiden_common.Channel.Balance.{is_channel_usable_for_mediation}
use raiden_common.Channel.Send.{send_lockedtransfer}
use raiden_common.Common.{
  ℕ, zero, suc, ◌-◌, ◌≤◌, ◌≡◌, refl, subst, inl, inr, Option, none, some, arith, leb, Bool-cases,
  some-injective,
}
use raiden_common.Common.Outcome.{Failure, ok, assert, >>=-eq-ok, assert-eq-ok, ok-injective}
use raiden_common.Events.{LockedTransferSignedState}
use raiden_common.External.{External}
use raiden_common.Fees.Amount.{get_amount_without_fees}
use raiden_common.Mediator.{PayerState, PayeeState}
use raiden_common.Mediator.Forward.{
  Forwarded, describe_forward, forward_amount, forward_transfer_pair,
}
use raiden_common.State.{NettingChannelState}

-- What a forwarded transfer is: sent on the channel of the payee, in a pair that is pending.
pub record Forwards (x : External) (transfer : LockedTransferSignedState)
    (payee_channel : NettingChannelState) (block_number draws : ℕ) (f : Forwarded) : Type 0 where
  pub amount : ℕ
  pub sent :
      send_lockedtransfer x payee_channel (describe_forward x transfer payee_channel amount draws)
      ≡ ok (f.event, f.channel)
  pub within : transfer.lock.expiration - block_number ≤ payee_channel.settle_timeout
  pub payer_transfer : f.pair.payer_transfer ≡ transfer
  pub payee_transfer : f.pair.payee_transfer ≡ f.event.transfer
  pub payee_address : f.pair.payee_address ≡ payee_channel.partner_state.address
  pub payer_state : f.pair.payer_state ≡ PayerState.pending
  pub payee_state : f.pair.payee_state ≡ PayeeState.pending

forward_amount-Forwards :
    (x : External) (transfer : LockedTransferSignedState) (payee_channel : NettingChannelState)
    (amount block_number draws : ℕ) (f : Forwarded)
    → forward_amount x transfer payee_channel amount block_number draws ≡ ok (some f)
    → Forwards x transfer payee_channel block_number draws f
unfolding forward_amount
forward_amount-Forwards x transfer payee_channel amount block_number draws f h =
    elim (Bool-cases (
      is_channel_usable_for_mediation x payee_channel amount
        (transfer.lock.expiration - block_number))) [
          | inr unusable ↦ absurd (ground arith)
          | inl usable ↦
              let (_, fits, h1) =
                >>=-eq-ok
                  (assert
                    (leb (transfer.lock.expiration - block_number) payee_channel.settle_timeout)
                    Failure.settle_timeout_too_small)
                  _ (rw (usable, forward_amount) at h) in
              let ((event, channel), sent, h2) =
                >>=-eq-ok
                  (send_lockedtransfer x payee_channel
                    (describe_forward x transfer payee_channel amount draws))
                  _ h1 in
              let fits' = assert-eq-ok _ _ fits in
              subst (Forwards x transfer payee_channel block_number draws)
                (some-injective (ok-injective h2))
                (record {
                  amount = amount;
                  sent = sent;
                  within = ground arith;
                  payer_transfer = refl;
                  payee_transfer = refl;
                  payee_address = refl;
                  payer_state = refl;
                  payee_state = refl;
                })
        ]

pub forward_transfer_pair-Forwards :
    (x : External) (transfer : LockedTransferSignedState)
    (payer_channel payee_channel : NettingChannelState) (block_number draws : ℕ) (f : Forwarded)
    → forward_transfer_pair x transfer payer_channel payee_channel block_number draws ≡ ok (some f)
    → Forwards x transfer payee_channel block_number draws f
unfolding forward_transfer_pair
forward_transfer_pair-Forwards x transfer payer_channel payee_channel block_number draws f h =
    let (amount, _, h1) =
      >>=-eq-ok (get_amount_without_fees transfer.lock.amount payer_channel payee_channel) _ h in
    at_amount amount h1
  where
    at_amount :
        (amount : Option ℕ)
        → elim amount [
          | none ↦ ok none
          | some zero ↦ ok none
          | some (suc n) ↦ forward_amount x transfer payee_channel (suc n) block_number draws
        ]
          ≡ ok (some f)
        → Forwards x transfer payee_channel block_number draws f
    at_amount none e = absurd (ground arith)
    at_amount (some zero) e = absurd (ground arith)
    at_amount (some (suc n)) e =
        forward_amount-Forwards x transfer payee_channel (suc n) block_number draws f e
