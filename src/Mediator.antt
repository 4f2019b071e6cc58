-- ===== src/Mediator.antt =====
-- mediated_transfer/mediator.py and the mediator's classes of mediated_transfer/state.py. The task
-- and the channels are changed in place by the Python code; here they are passed on and returned.
pub mod Sanity
pub mod Secrets
pub mod Pay
pub mod Onchain
pub mod Expire
pub mod Forward
pub mod Handlers
pub mod Received
pub mod Paid
pub mod Sent
pub mod Known
pub mod SecretKnown
pub mod Reveals
pub mod Once
pub mod Safe
pub mod Onward
pub mod Early
pub mod Transition
use raiden_common.Channel.Locks.{is_secret_known_onchain}
use raiden_common.Common.{
  ℕ, Bool, true, false, not, ◌&&◌, ◌||◌, Option, none, some, List, [], ◌∷◌, leb, if◌then◌else◌,
  ◌==◌, nat_eq,
}
use raiden_common.Common.Bytes.{bytes_eq}
use raiden_common.Common.Int.{int_eq}
use raiden_common.Events.{LockedTransferUnsignedState, LockedTransferSignedState, Event}
use raiden_common.Routes.{RouteState, ChannelMap, get_channel}
use raiden_common.State.{NettingChannelState}

-- `MediationPairState.payer_state`, without the prefix.
pub data PayerState : Type 0 where
  pending secret_revealed waiting_unlock waiting_secret_reveal balance_proof expired : PayerState

-- `MediationPairState.payee_state`
pub data PayeeState : Type 0 where
  pending secret_revealed contract_unlock balance_proof expired : PayeeState

pub record MediationPairState : Type 0 where
  pub payer_transfer : LockedTransferSignedState
  pub payee_address : ℕ
  pub payee_transfer : LockedTransferUnsignedState
  pub payer_state : PayerState
  pub payee_state : PayeeState

pub data WaitingState : Type 0 where
  waiting expired : WaitingState

pub record WaitingTransferState : Type 0 where
  pub transfer : LockedTransferSignedState
  pub state : WaitingState

pub record MediatorTransferState : Type 0 where
  pub secrethash : ℕ
  pub routes : List RouteState
  pub refunded_channels : List ℕ
  pub secret : Option ℕ
  pub transfers_pair : List MediationPairState
  pub waiting_transfer : Option WaitingTransferState

-- The result of a handler: the task, the channels, the events, and the number of random draws.
pub record MediatorStep : Type 0 where
  pub state : MediatorTransferState
  pub channels : ChannelMap
  pub events : List Event
  pub draws : ℕ

-- The same where there may be no task.
pub record MediatorResult : Type 0 where
  pub new_state : Option MediatorTransferState
  pub channels : ChannelMap
  pub events : List Event
  pub draws : ℕ

-- `state in STATE_SECRET_KNOWN`
abbrev pub payee_knows_secret : PayeeState → Bool
payee_knows_secret PayeeState.secret_revealed = true
payee_knows_secret PayeeState.contract_unlock = true
payee_knows_secret PayeeState.balance_proof = true
payee_knows_secret other = false

abbrev pub payer_knows_secret : PayerState → Bool
payer_knows_secret PayerState.secret_revealed = true
payer_knows_secret PayerState.waiting_unlock = true
payer_knows_secret PayerState.balance_proof = true
payer_knows_secret other = false

-- `state in STATE_TRANSFER_PAID`
abbrev pub payee_is_paid : PayeeState → Bool
payee_is_paid PayeeState.contract_unlock = true
payee_is_paid PayeeState.balance_proof = true
payee_is_paid other = false

abbrev pub payer_is_paid : PayerState → Bool
payer_is_paid PayerState.balance_proof = true
payer_is_paid other = false

-- `state in STATE_TRANSFER_FINAL`
abbrev pub payee_is_final : PayeeState → Bool
payee_is_final PayeeState.expired = true
payee_is_final other = payee_is_paid other

abbrev pub payer_is_final : PayerState → Bool
payer_is_final PayerState.balance_proof = true
payer_is_final PayerState.expired = true
payer_is_final other = false

abbrev pub is_payer_pending : PayerState → Bool
is_payer_pending PayerState.pending = true
is_payer_pending other = false

abbrev pub is_waiting_secret_reveal : PayerState → Bool
is_waiting_secret_reveal PayerState.waiting_secret_reveal = true
is_waiting_secret_reveal other = false

-- `pair in get_pending_transfer_pairs(...)`
abbrev pub is_pair_pending : MediationPairState → Bool
is_pair_pending p = not (payee_is_final p.payee_state) || not (payer_is_final p.payer_state)

unfoldable pub get_pending_transfer_pairs : List MediationPairState → List MediationPairState
get_pending_transfer_pairs [] = []
get_pending_transfer_pairs (p ∷ pairs) =
    let rest = get_pending_transfer_pairs pairs in if is_pair_pending p then p ∷ rest else rest

-- `is_lock_valid`
unfoldable pub is_lock_valid : ℕ → ℕ → Bool
is_lock_valid expiration block_number = leb block_number expiration

unfoldable pub payer_channel_identifier : MediationPairState → ℕ
payer_channel_identifier p = p.payer_transfer.balance_proof.canonical_identifier.channel_identifier

unfoldable pub payee_channel_identifier : MediationPairState → ℕ
payee_channel_identifier p = p.payee_transfer.balance_proof.canonical_identifier.channel_identifier

unfoldable pub get_payee_channel :
    ChannelMap → MediationPairState → Option (ℕ × NettingChannelState)
get_payee_channel m p = get_channel m (payee_channel_identifier p)

unfoldable pub get_payer_channel :
    ChannelMap → MediationPairState → Option (ℕ × NettingChannelState)
get_payer_channel m p = get_channel m (payer_channel_identifier p)

unfoldable pub is_send_transfer_almost_equal :
    LockedTransferUnsignedState → LockedTransferSignedState → Bool
is_send_transfer_almost_equal send received =
    send.payment_identifier == received.payment_identifier
    && send.token == received.token
    && send.lock.expiration == received.lock.expiration
    && send.lock.secrethash == received.lock.secrethash
    && send.initiator == received.initiator
    && send.target == received.target

-- The payer channels that are there.
unfoldable pub payer_channels : ChannelMap → List MediationPairState → List NettingChannelState
payer_channels m [] = []
payer_channels m (p ∷ pairs) =
    let rest = payer_channels m pairs in
    elim (get_payer_channel m p) [ none ↦ rest | some (r, c) ↦ c ∷ rest ]

abbrev pub any_of {ℓ} : {A : Type ℓ} → (A → Bool) → List A → Bool
any_of test [] = false
any_of test (a ∷ items) = test a || any_of test items

unfoldable pub has_secret_registration_started :
    List NettingChannelState → List MediationPairState → ℕ → Bool
has_secret_registration_started channel_states transfers_pair secrethash =
    any_of (λ c. is_secret_known_onchain c.partner_state secrethash) channel_states
    || any_of (λ p. is_waiting_secret_reveal p.payer_state) transfers_pair
