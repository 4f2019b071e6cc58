-- ===== src/Mediator/Safe.antt =====
-- When the mediator pays a payee, and the transfer that it sends on.
use raiden_common.Channel.Invariant.Moves.{LeavesLock}
use raiden_common.Channel.Locks.{get_lock}
use raiden_common.Channel.Sanity.Consistent.{IsConsistent}
use raiden_common.Channel.Send.{UnlockDescription, send_unlock}
use raiden_common.Channel.Send.Leaves.{send_unlock-IsConsistent}
use raiden_common.Channel.Status.{is_state_opened, get_status}
use raiden_common.Common.{
  ℕ, ◌+◌, ◌<◌, ◌≡◌, sym, ap, ◌∙◌, ◌⊎◌, inl, inr, Bool, true, false, not, ◌&&◌, some, ◌∷◌, arith,
  Bool-cases, Option-cases,
}
use raiden_common.Common.Outcome.{ok, >>=-eq-ok, ok-injective}
use raiden_common.External.{External}
use raiden_common.Mediator.{
  PayeeState, MediationPairState, payee_knows_secret, payee_is_paid, get_payee_channel,
  get_payer_channel,
}
use raiden_common.Mediator.Pay.{Payments, is_safe_to_pay, pay_payee, pay_if_safe}
use raiden_common.Routes.{get_address_metadata, ChannelMap, set_channel}
use raiden_common.SecretRegistry.{is_safe_to_wait}
use raiden_common.State.{HashTimeLockState, NettingChannelState}

-- What one payment does: the payee knew the secret and was not paid, the payer's lock is not in
-- danger, and exactly the amount of a lock of ours moves to the payee on a channel that stays
-- consistent.
pub record PaysPayee (x : External) (block_number : ℕ) (p : MediationPairState) (secrethash r : ℕ)
    (c : NettingChannelState) (done done' : Payments) : Type 0 where
  pub knows : payee_knows_secret p.payee_state ≡ true
  pub unpaid : payee_is_paid p.payee_state ≡ false
  pub payer_reference : ℕ
  pub payer_channel : NettingChannelState
  pub payer : get_payer_channel done.channels p ≡ some (payer_reference, payer_channel)
  pub in_time : block_number + payer_channel.reveal_timeout < p.payer_transfer.lock.expiration
  pub channel : NettingChannelState
  pub lock : HashTimeLockState
  pub found : get_lock c.our_state secrethash ≡ some lock
  pub moved : LeavesLock c.our_state channel.our_state c.partner_state lock lock.amount
  pub consistent : IsConsistent x channel
  pub channels : done'.channels ≡ set_channel done.channels r channel
  pub pairs : done'.pairs ≡ record p { payee_state = PayeeState.balance_proof } ∷ done.pairs

is_safe_to_pay-in_time :
    (m : ChannelMap) (p : MediationPairState) (block_number : ℕ)
    → is_safe_to_pay (get_payer_channel m p) p block_number ≡ ok true
    → (r : ℕ) × (c : NettingChannelState) × (get_payer_channel m p ≡ some (r, c))
      × (block_number + c.reveal_timeout < p.payer_transfer.lock.expiration)
unfolding is_safe_to_pay is_safe_to_wait
is_safe_to_pay-in_time m p block_number h = elim (Option-cases (get_payer_channel m p)) [
  | inl e ↦ absurd (ground (arith, rw (e, is_safe_to_pay) at h))
  | inr ((r, c), e) ↦ (r, c, e, ground (arith, rw (e, is_safe_to_pay) at h))
]

-- Where the channel of the payee is consistent, a round of `events_for_balanceproof` that returns
-- leaves the pair and the channels as they are, or pays the payee as described by `PaysPayee`: only if
-- the payee knows the secret and is unpaid, and the payer's lock is not in danger; then exactly the
-- amount of our lock moves, and the channel stays consistent.
pub pay_if_safe-PaysPayee :
    (x : External) (block_number secret secrethash : ℕ) (p : MediationPairState)
    (done done' : Payments) (r : ℕ) (c : NettingChannelState)
    → get_payee_channel done.channels p ≡ some (r, c)
    → IsConsistent x c
    → pay_if_safe x block_number secret secrethash p done ≡ ok done'
    → (done' ≡ record done { pairs = p ∷ done.pairs })
      ⊎ PaysPayee x block_number p secrethash r c done done'
unfolding pay_if_safe pay_payee
pay_if_safe-PaysPayee x block_number secret secrethash p done done' r c there consistent h =
    let (safe, checked, h1) =
      >>=-eq-ok (is_safe_to_pay (get_payer_channel done.channels p) p block_number) _ h in
    elim (Bool-cases (
      is_state_opened (get_status c)
      && payee_knows_secret p.payee_state
      && not (payee_is_paid p.payee_state)
      && safe)) [
        | inr waits_here ↦ inl (sym (ok-injective (rw (there, waits_here) at h1)))
        | inl pays ↦
            let is_safe : safe ≡ true = ground arith in
            let (payer_reference, payer_channel, payer, in_time) =
              is_safe_to_pay-in_time done.channels p block_number
                (checked ∙ ap (λ (b : Bool). ok b) is_safe) in
            let ((unlock, c'), sent, h2) =
              >>=-eq-ok (send_unlock x c (description done) block_number) _
                (rw (there, pays) at h1) in
            let (lock, found, _, moved, after) =
              send_unlock-IsConsistent x c (description done) block_number unlock c' consistent
                sent in
            inr (record {
              knows = ground arith;
              unpaid = ground arith;
              payer_reference = payer_reference;
              payer_channel = payer_channel;
              payer = payer;
              in_time = in_time;
              channel = c';
              lock = lock;
              found = found;
              moved = moved;
              consistent = after;
              channels = ap (λ (d : Payments). d.channels) (sym (ok-injective h2));
              pairs = ap (λ (d : Payments). d.pairs) (sym (ok-injective h2));
            })
      ]
  where
    description : Payments → UnlockDescription
    description done = record {
      message_identifier = x.randint done.draws;
      payment_identifier = p.payee_transfer.payment_identifier;
      secret = secret;
      secrethash = secrethash;
      recipient_metadata = get_address_metadata p.payee_address p.payee_transfer.route_states;
    }
