-- ===== src/SecretRegistry.antt =====
-- What initiator, mediator and target share about secrets: transfer/secret_registry.py,
-- `is_valid_secret_reveal` of transfer/utils, and `is_safe_to_wait` of mediator.py.
use raiden_common.Channel.Locks.{is_ok}
use raiden_common.Channel.Status.{is_state_closed, is_prior_to_closed, get_status}
use raiden_common.Common.{
  ℕ, zero, suc, ◌+◌, ◌-◌, ◌<◌, ◌≡◌, refl, ◌↔◌, ◌⊎◌, inl, inr, Bool, true, ◌||◌, Option, some, List,
  [], ◌∷◌, arith, ltb, if◌then◌else◌, Bool-cases, ◌==◌, nat_eq,
}
use raiden_common.Common.Bytes.{bytes_eq}
use raiden_common.Common.Int.{int_eq}
use raiden_common.Common.Outcome.{Failure, Outcome, ok, raised, assert, ◌>>◌}
use raiden_common.Events.{Reason, SuccessOrError, Event}
use raiden_common.State.{ChannelState, NettingChannelState}

-- `status in CHANNEL_STATES_UP_TO_CLOSED`
abbrev pub is_up_to_closed : ChannelState → Bool
is_up_to_closed status = is_prior_to_closed status || is_state_closed status

unfoldable pub events_for_onchain_secretreveal : NettingChannelState → ℕ → ℕ → ℕ → List Event
unfolding get_status
events_for_onchain_secretreveal channel_state secret expiration block_hash =
    if is_up_to_closed (get_status channel_state)
    then Event.contract_send_secret_reveal expiration secret block_hash ∷ []
    else []

unfoldable pub is_valid_secret_reveal : ℕ → ℕ → Bool
is_valid_secret_reveal secrethash transfer_secrethash = secrethash == transfer_secrethash

-- `assert secret`. A secret is the number of its bytes in bijective base 256: 0 is the empty secret,
-- which Python takes for false like `None`.
abbrev pub require_secret : Option ℕ → Outcome ℕ
require_secret (some (suc n)) = ok (suc n)
require_secret other = raised Failure.secret_missing

pub require_secret-cases :
    (secret : ℕ)
    → ((secret ≡ 0) × (require_secret (some secret) ≡ raised Failure.secret_missing))
      ⊎ (require_secret (some secret) ≡ ok secret)
require_secret-cases zero = inl (refl, refl)
require_secret-cases (suc n) = inr refl

-- Once the lock has expired the Python code's timeout is negative; here it is 0. Both are below
-- the reveal timeout, which is positive.
unfoldable pub is_safe_to_wait : ℕ → ℕ → ℕ → Outcome SuccessOrError
is_safe_to_wait lock_expiration reveal_timeout block_number = do
  assert (ltb 0 block_number) Failure.block_number_not_positive
  assert (ltb 0 reveal_timeout) Failure.reveal_timeout_not_positive
  assert (ltb reveal_timeout lock_expiration) Failure.expiration_too_early
  ok (
      if ltb reveal_timeout (lock_expiration - block_number)
      then SuccessOrError.success
      else SuccessOrError.error Reason.lock_timeout_unsafe)

-- What `is_safe_to_wait` asserts.
abbrev pub CanWait : ℕ → ℕ → ℕ → Type 0
CanWait lock_expiration reveal_timeout block_number =
    (0 < block_number) × (0 < reveal_timeout) × (reveal_timeout < lock_expiration)

-- The assertions hold exactly where there is a result, and waiting is safe exactly where more than
-- the reveal timeout is left before the lock expires.
pub is_safe_to_wait-CanWait :
    (expiration reveal_timeout block_number : ℕ)
    → CanWait expiration reveal_timeout block_number
    → (r : SuccessOrError) × (is_safe_to_wait expiration reveal_timeout block_number ≡ ok r)
      × ((is_ok r ≡ true) ↔ (block_number + reveal_timeout < expiration))
unfolding is_safe_to_wait
is_safe_to_wait-CanWait expiration reveal_timeout block_number h =
    elim (Bool-cases (ltb reveal_timeout (expiration - block_number))) [
      | inl safe ↦ (SuccessOrError.success, ground arith, (λ _. ground arith, λ _. refl))
      | inr unsafe ↦ (
        SuccessOrError.error Reason.lock_timeout_unsafe,
        ground arith,
        (λ e. cc, λ e. ground arith),
      )
    ]
