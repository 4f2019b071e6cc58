-- ===== src/State/Make.antt =====
-- The constructors that check their arguments: `Lock` (messages/transfers.py) behind
-- `HashTimeLockState`, and `BalanceProofUnsignedState` (transfer/architecture.py) with
-- `hash_balance_data` (transfer/utils/__init__.py).
use raiden_common.Common.{ℕ, ◌&&◌, [], ◌++◌, ltb, leb, if◌then◌else◌, ◌==◌, length, nat_eq}
use raiden_common.Common.Bytes.{Bytes, to_bytes, bytes_eq}
use raiden_common.Common.Int.{ℤ, pos, negsuc, int_eq}
use raiden_common.Common.Outcome.{Failure, Outcome, ok, raised, assert, ◌>>=◌, ◌>>◌}
use raiden_common.External.{CanonicalIdentifier, External}
use raiden_common.State.{uint256_max, uint64_max, HashTimeLockState, BalanceProofUnsignedState}

-- `Lock.as_bytes`, which is `HashTimeLockState.encoded`.
unfoldable pub encoded : HashTimeLockState → Bytes
encoded lock =
    to_bytes 32 lock.expiration ++ (to_bytes 32 lock.amount ++ to_bytes 32 lock.secrethash)

-- `HashTimeLockState(amount, expiration, secrethash)`: the lock must fit its byte format.
unfoldable pub make_lock : ℕ → ℕ → ℕ → Outcome HashTimeLockState
make_lock amount expiration secrethash = do
  assert (leb amount uint256_max) Failure.value_error
  assert (leb expiration uint256_max) Failure.value_error
  assert (leb secrethash uint256_max) Failure.value_error
  ok (record { amount = amount; expiration = expiration; secrethash = secrethash })

module _ (x : External) where
  open x use {keccak}

  -- `LOCKSROOT_OF_NO_LOCKS`
  abbrev pub locksroot_of_no_locks : Bytes
  locksroot_of_no_locks = keccak []

  -- The assertions on the length of the locksroot hold for the fields of every balance proof that
  -- was constructed, and it is called on nothing else.
  unfoldable pub hash_balance_data : ℕ → ℕ → Bytes → Bytes
  hash_balance_data transferred_amount locked_amount locksroot =
      if transferred_amount == 0 && locked_amount == 0 && locksroot == locksroot_of_no_locks
      then to_bytes 32 0
      else keccak (to_bytes 32 transferred_amount ++ (to_bytes 32 locked_amount ++ locksroot))

-- `locked_amount.to_bytes(32)` raises on what is negative or too large.
unfoldable pub checked_amount : ℤ → Outcome ℕ
checked_amount (pos n) = if leb n uint256_max then ok n else raised Failure.overflow_error
checked_amount (negsuc n) = raised Failure.overflow_error

-- `BalanceProofUnsignedState(nonce, transferred_amount, locked_amount, locksroot, ...)`.
unfoldable pub make_balance_proof :
    ℕ → ℕ → ℤ → Bytes → CanonicalIdentifier → Outcome BalanceProofUnsignedState
unfolding checked_amount
make_balance_proof nonce transferred_amount locked_amount locksroot canonical_identifier = do
  assert (ltb 0 nonce) Failure.value_error
  assert (leb nonce uint64_max) Failure.value_error
  assert (leb transferred_amount uint256_max) Failure.value_error
  assert (length locksroot == 32) Failure.value_error
  assert (leb canonical_identifier.channel_identifier uint256_max) Failure.value_error
  locked ← checked_amount locked_amount
  ok (record {
    nonce = nonce;
    transferred_amount = transferred_amount;
    locked_amount = locked;
    locksroot = locksroot;
    canonical_identifier = canonical_identifier;
  })
