-- ===== src/Common/Outcome.antt =====
-- A call that may raise. What was written before a raise is lost: `StateManager.dispatch`
-- (storage/wal.py) works on a deep copy of the state, which an exception discards.
use mathlib.Core.Bool.{Bool, true, false}
use raiden_common.Common.{◌≡◌, refl}

-- The exceptions of the modelled code, one constructor for each statement that raises.
pub data Failure : Type 0 where
  not_enough_balance channel_not_open lock_already_registered result_would_overflow : Failure
  lock_not_known lock_is_expired lock_not_in_pending_locks lock_must_exist : Failure
  lock_must_be_pending no_balance_proof balance_proof_not_signed ids_must_match : Failure
  no_coop_settle one_coop_settle_only coop_settle_amount_mismatch : Failure
  block_number_mismatch close_transaction_not_set close_block_number_missing : Failure
  withdraws_not_ordered withdraw_key_mismatch negative_balance deposit_not_accounted : Failure
  locked_amount_mismatch distributable_too_large locksroot_mismatch locks_out_of_sync : Failure
  value_error overflow_error key_error not_implemented negative_capacity : Failure
  imbalance_fee_too_high : Failure
  block_number_not_positive reveal_timeout_not_positive expiration_too_early : Failure
  secret_missing channel_id_mismatch error_message_missing task_missing : Failure
  lock_not_cleared lock_must_not_be_cleared mediator_secret_missing secrethash_mismatch : Failure
  transfers_too_different address_mismatch settle_timeout_too_small already_unlocked : Failure
  not_signed_by_sender pair_missing division_by_zero index_error : Failure
  undefined_mediation_fee fee_arguments cap_fees_differ : Failure

pub data Outcome {ℓ} (A : Type ℓ) : Type ℓ where
  ok : A → Outcome A
  raised : Failure → Outcome A

infixl 5 ◌>>=◌ ◌>>◌
abbrev pub ◌>>=◌ {ℓ κ} : {C : Type ℓ} {D : Type κ} → Outcome C → (C → Outcome D) → Outcome D
ok c >>= next = next c
raised e >>= next = raised e

abbrev pub ◌>>◌ {ℓ} : {B : Type ℓ} → Outcome (Unit {0}) → Outcome B → Outcome B
m >> k = m >>= λ _. k

-- `assert b, msg`, and `if not b: raise`.
abbrev pub assert : Bool → Failure → Outcome (Unit {0})
assert true e = ok tt
assert false e = raised e

pub >>=-eq-ok {ℓ κ} :
    {C : Type ℓ} {D : Type κ} (first : Outcome C) (next : C → Outcome D) {d : D}
    → (first >>= next) ≡ ok d
    → (c : C) × (first ≡ ok c) × (next c ≡ ok d)
>>=-eq-ok (raised e) next h = cc
>>=-eq-ok (ok c) next h = (c, refl, h)

pub assert-eq-ok : (b : Bool) (e : Failure) {u : Unit {0}} → assert b e ≡ ok u → b ≡ true
assert-eq-ok true e h = refl
assert-eq-ok false e h = cc

-- Whether there is a result.
abbrev pub returns {ℓ} : {A : Type ℓ} → Outcome A → Bool
returns (ok a) = true
returns (raised e) = false

pub returns-ok {ℓ} : {A : Type ℓ} (o : Outcome A) → returns o ≡ true → (a : A) × (o ≡ ok a)
returns-ok (ok a) h = (a, refl)
returns-ok (raised e) h = cc

pub ok-injective {ℓ} : {A : Type ℓ} {a b : A} → ok a ≡ ok b → a ≡ b
ok-injective e = cc
