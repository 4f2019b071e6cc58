-- ===== src/Mediator/Pay.antt =====
-- mediator.py: `events_for_balanceproof`, which pays the payees.
-- What the payment of the payees changes.
use raiden_common.Channel.Locks.{is_ok}
use raiden_common.Channel.Send.{send_unlock}
use raiden_common.Channel.Status.{is_state_opened, get_status}
use raiden_common.Common.{
  ℕ, ◌+◌, Bool, false, not, ◌&&◌, Option, none, some, List, [], ◌∷◌, ◌++◌, if◌then◌else◌,
}
use raiden_common.Common.Outcome.{Outcome, ok, ◌>>=◌}
use raiden_common.Events.{Event}
use raiden_common.External.{External}
use raiden_common.Mediator.{
  PayeeState, MediationPairState, payee_knows_secret, payee_is_paid, get_payee_channel,
  get_payer_channel,
}
use raiden_common.Routes.{get_address_metadata, ChannelMap, set_channel}
use raiden_common.SecretRegistry.{is_safe_to_wait}
use raiden_common.State.{NettingChannelState}

pub record Payments : Type 0 where
  pub pairs : List MediationPairState
  pub channels : ChannelMap
  pub events : List Event
  pub draws : ℕ

-- Whether the lock of the payer is far from its expiration; without a payer channel it is not.
unfoldable pub is_safe_to_pay :
    Option (ℕ × NettingChannelState) → MediationPairState → ℕ → Outcome Bool
is_safe_to_pay none p block_number = ok false
is_safe_to_pay (some (r, c)) p block_number = do
  safe ← is_safe_to_wait p.payer_transfer.lock.expiration c.reveal_timeout block_number
  ok (is_ok safe)

-- `send_unlock` on the payee's channel.
unfoldable pub pay_payee :
    External
    → ℕ
    → ℕ
    → ℕ
    → MediationPairState
    → ℕ
    → NettingChannelState
    → Payments
    → Outcome Payments
pay_payee x block_number secret secrethash p r c done = do
  (unlock, c') ←
      send_unlock x c
        (record {
          message_identifier = x.randint done.draws;
          payment_identifier = p.payee_transfer.payment_identifier;
          secret = secret;
          secrethash = secrethash;
          recipient_metadata = get_address_metadata p.payee_address p.payee_transfer.route_states;
        })
        block_number
  ok (record {
    pairs = record p { payee_state = PayeeState.balance_proof } ∷ done.pairs;
    channels = set_channel done.channels r c';
    events =
        done.events
        ++ Event.send_unlock unlock
          ∷ Event.event_unlock_success p.payer_transfer.payment_identifier
              p.payer_transfer.lock.secrethash
          ∷ [];
    draws = done.draws + 1;
  })

unfoldable pub pay_if_safe : External → ℕ → ℕ → ℕ → MediationPairState → Payments → Outcome Payments
pay_if_safe x block_number secret secrethash p done = do
  let unpaid = record done { pairs = p ∷ done.pairs }
  safe ← is_safe_to_pay (get_payer_channel done.channels p) p block_number
  elim (get_payee_channel done.channels p) [
    | none ↦ ok unpaid
    | some (r, c) ↦
        if is_state_opened (get_status c)
          && payee_knows_secret p.payee_state
          && not (payee_is_paid p.payee_state)
          && safe
        then pay_payee x block_number secret secrethash p r c done
        else ok unpaid
  ]

-- The last pair comes first.
unfoldable pub events_for_balanceproof :
    External → ℕ → ℕ → ℕ → List MediationPairState → ChannelMap → ℕ → Outcome Payments
events_for_balanceproof x block_number secret secrethash [] m draws =
    ok (record { pairs = []; channels = m; events = []; draws = draws })
events_for_balanceproof x block_number secret secrethash (p ∷ pairs) m draws = do
  done ← events_for_balanceproof x block_number secret secrethash pairs m draws
  pay_if_safe x block_number secret secrethash p done
