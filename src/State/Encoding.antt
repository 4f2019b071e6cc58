-- ===== src/State/Encoding.antt =====
-- The byte format of locks.
use raiden_common.Common.{ℕ, ◌≤◌, ◌≡◌, sym, ◌∙◌, arith, length}
use raiden_common.Common.Bytes.{to_bytes, append-split, length-to_bytes, to_bytes-injective}
use raiden_common.Common.Outcome.{ok}
use raiden_common.State.{uint256_max, HashTimeLockState}
use raiden_common.State.Make.{encoded, make_lock}

-- The range that `Lock.__post_init__` enforces.
pub record Fits (lock : HashTimeLockState) : Type 0 where
  pub amount : lock.amount ≤ uint256_max
  pub expiration : lock.expiration ≤ uint256_max
  pub secrethash : lock.secrethash ≤ uint256_max

to_bytes32-injective :
    (m n : ℕ) → m ≤ uint256_max → n ≤ uint256_max → to_bytes 32 m ≡ to_bytes 32 n → m ≡ n
to_bytes32-injective m n p q = to_bytes-injective 32 m n (omega arith) (omega arith)

same_length : (m n : ℕ) → length (to_bytes 32 m) ≡ length (to_bytes 32 n)
same_length m n = length-to_bytes 32 m ∙ sym (length-to_bytes 32 n)

-- Two locks in range with the same encoding are the same lock.
pub encoded-injective : (l m : HashTimeLockState) → Fits l → Fits m → encoded l ≡ encoded m → l ≡ m
unfolding encoded
encoded-injective l m p q e =
    let first = append-split _ _ _ _ (same_length l.expiration m.expiration) e in
    let second = append-split _ _ _ _ (same_length l.amount m.amount) first.1 in
    let same_expiration =
      to_bytes32-injective l.expiration m.expiration p.expiration q.expiration first.0 in
    let same_amount = to_bytes32-injective l.amount m.amount p.amount q.amount second.0 in
    let same_secrethash =
      to_bytes32-injective l.secrethash m.secrethash p.secrethash q.secrethash second.1 in
    λ i. record {
      amount = same_amount i;
      expiration = same_expiration i;
      secrethash = same_secrethash i;
    }

pub make_lock-Fits :
    (a e h : ℕ) {lock : HashTimeLockState}
    → make_lock a e h ≡ ok lock
    → Fits lock × (lock.amount ≡ a) × (lock.expiration ≡ e) × (lock.secrethash ≡ h)
unfolding make_lock
make_lock-Fits a e h p = ground arith
