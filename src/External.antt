-- ===== src/External.antt =====
-- What the state machine calls and the repository does not implement: the hash and the recovery
-- of a signer (eth_utils, eth_keys behind utils/signer.py), the byte layout of signed balance
-- proofs (raiden_contracts behind utils/packing.py), the generator of random numbers, and
-- floating point. It is a parameter of every definition that uses it.
use raiden_common.Common.{ℕ, Option, List}
use raiden_common.Common.Bytes.{Bytes}
use raiden_common.Common.Outcome.{Outcome}

-- transfer/identifiers.py: addresses and identifiers are only compared, so they are numbers.
pub record CanonicalIdentifier : Type 0 where
  pub chain_identifier : ℕ
  pub token_network_address : ℕ
  pub channel_identifier : ℕ

pub record External : Type 0 where
  pub keccak : Bytes → Bytes
  -- `recover(data, signature)`; `none` where it raises.
  pub recover : Bytes → ℕ → Option ℕ
  -- `proofs.pack_balance_proof` at a nonce, a balance hash and an additional hash.
  pub pack_balance_proof : ℕ → Bytes → Bytes → CanonicalIdentifier → Bytes
  -- The value of the n-th call of `prng.randint(0, UINT64_MAX)`.
  pub randint : ℕ → ℕ
  -- The floating-point part of `calculate_imbalance_fees`, at a positive capacity and fee.
  pub imbalance_curve : ℕ → ℕ → Outcome (List (ℕ × ℕ))
