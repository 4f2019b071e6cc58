-- ===== src/Examples.antt =====
-- Concrete data for the tests: a hash and a signature scheme, and the two ends of a channel between
-- the addresses 1 and 2 with a deposit of 100 each.
pub mod Received
pub mod Sent
pub mod Onchain
pub mod Tasks
pub mod Mediated
pub mod Stakes
pub mod Charges
use raiden_common.Channel.Actions.{Call}
use raiden_common.Channel.Balance.{
  get_amount_unclaimed_onchain, get_amount_locked, get_balance_with, get_balance,
  get_current_balanceproof, get_distributable, get_next_nonce,
}
use raiden_common.Channel.Invariant.{IsSound}
use raiden_common.Channel.Locks.{
  is_lock_pending, get_lock, compute_locks_with, join, compute_locksroot,
}
use raiden_common.Channel.Receive.{
  accept_balance_proof, add_lockedlock, handle_receive_lockedtransfer,
}
use raiden_common.Channel.Receive.Consistent.{handle_receive_lockedtransfer-IsConsistent}
use raiden_common.Channel.Sanity.Consistent.{IsConsistent}
use raiden_common.Channel.Send.{TransferDescription}
use raiden_common.Channel.Status.{transaction_state, status_before_settle, status_of, get_status}
use raiden_common.Channel.Validate.{
  is_valid_signature, signed_bytes, is_valid_balanceproof_signature,
  is_balance_proof_safe_for_onchain_operations, is_balance_proof_usable_onchain,
  compare_balance_proof, check_locks_with, valid_lockedtransfer_check, is_valid_lockedtransfer,
}
use raiden_common.Common.{
  ℕ, ◌≡◌, refl, inr, true, none, some, [], ◌∷◌, arith, list_contains, nat_eq,
}
use raiden_common.Common.Bytes.{Bytes, bytes_beq, to_bytes, bytes_eq}
use raiden_common.Common.Dict.{lookup, insert, sum_values}
use raiden_common.Common.Int.{pos, ◌+ℤ◌, ◌-ℤ◌, int_eq}
use raiden_common.Common.Outcome.{ok}
use raiden_common.Events.{LockedTransferSignedState, ReceiveUnlock, ReceiveLockExpired}
use raiden_common.External.{CanonicalIdentifier, External}
use raiden_common.Fees.{fee}
use raiden_common.State.{
  HashTimeLockState, BalanceProofSignedState, NettingChannelEndState, NettingChannelState,
  largest_key, max_key, offchain_total_withdraw,
}
use raiden_common.State.Encoding.{Fits}
use raiden_common.State.Make.{encoded, hash_balance_data}

-- 32 bytes, which only tell whether the input is empty.
abbrev pub toy_hash : Bytes → Bytes
toy_hash [] = to_bytes 32 0
toy_hash (b ∷ bs) = to_bytes 32 1

-- A signature is the address of its signer.
abbrev pub toy : External
toy = record {
  keccak = toy_hash;
  recover = λ content signature. some signature;
  pack_balance_proof = λ nonce balance_hash additional_hash identifier. balance_hash;
  randint = λ n. n;
  imbalance_curve = λ capacity fee. ok [];
}

abbrev pub channel_id : CanonicalIdentifier
channel_id = record { chain_identifier = 1; token_network_address = 9; channel_identifier = 5 }

abbrev pub empty_side : ℕ → NettingChannelEndState
empty_side address = record {
  address = address;
  contract_balance = 100;
  onchain_total_withdraw = pos 0;
  withdraws_pending = [];
  initiated_coop_settle = none;
  expired_coop_settles = [];
  withdraws_expired = [];
  secrethashes_to_lockedlocks = [];
  secrethashes_to_unlockedlocks = [];
  secrethashes_to_onchain_unlockedlocks = [];
  balance_proof = none;
  pending_locks = [];
  onchain_locksroot = [];
  nonce = 0;
}

abbrev pub channel_between : ℕ → ℕ → NettingChannelState
channel_between a b = record {
  canonical_identifier = channel_id;
  token_address = 8;
  token_network_registry_address = 7;
  reveal_timeout = 10;
  settle_timeout = 100;
  fee_schedule = record { cap_fees = true; flat = 0; proportional = 0; imbalance_penalty = none };
  our_state = empty_side a;
  partner_state = empty_side b;
  open_transaction = record { finished_block_number = 1; started_block_number = none };
  close_transaction = none;
  settle_transaction = none;
  update_transaction = none;
}

abbrev pub ten : HashTimeLockState
ten = record { amount = 10; expiration = 50; secrethash = 7 }

-- A balance proof of the address 2, over the given locks.
abbrev pub proof_over : ℕ → ℕ → ℕ → Bytes → BalanceProofSignedState
proof_over nonce transferred locked root = record {
  content = record {
    nonce = nonce;
    transferred_amount = transferred;
    locked_amount = locked;
    locksroot = root;
    canonical_identifier = channel_id;
  };
  message_hash = [];
  signature = 2;
  sender = 2;
}

abbrev pub transfer_ten : LockedTransferSignedState
transfer_ten = record {
  payment_identifier = 3;
  token = 8;
  lock = ten;
  target = 1;
  initiator = 2;
  message_identifier = 4;
  route_states = [];
  balance_proof = proof_over 1 0 10 (to_bytes 32 1);
  metadata = none;
  secret = none;
}

abbrev pub unlock_ten : ReceiveUnlock
unlock_ten = record {
  balance_proof = proof_over 2 10 0 (to_bytes 32 0);
  message_identifier = 4;
  secret = 6;
  secrethash = 7;
}

abbrev pub expire_ten : ReceiveLockExpired
expire_ten = record {
  balance_proof = proof_over 2 0 0 (to_bytes 32 0);
  secrethash = 7;
  message_identifier = 4;
}

abbrev pub describe_ten : TransferDescription
describe_ten = record {
  initiator = 1;
  target = 2;
  amount = 10;
  message_identifier = 4;
  payment_identifier = 3;
  expiration = 50;
  secret = none;
  secrethash = 7;
  route_states = [];
  recipient_metadata = none;
  previous_metadata = none;
}

-- The channel between 1 and 2 as 1 has it, open and without transfers.
abbrev pub fresh_channel : NettingChannelState
fresh_channel = channel_between 1 2

-- The same channel with the lock of `transfer_ten` on the partner's side.
abbrev pub locked_channel : NettingChannelState
locked_channel = (handle_receive_lockedtransfer toy fresh_channel transfer_ten none).channel

empty_side-IsSound : (address : ℕ) → IsSound toy (empty_side address)
unfolding get_amount_locked sum_values lookup
empty_side-IsSound address = record {
  synced = record { locked = tt; unlocked = tt; onchain = tt; exclusive = λ h. (refl, refl, refl) };
  backed = (refl, refl);
}

pub channel_between-IsConsistent : (a b : ℕ) → IsConsistent toy (channel_between a b)
unfolding get_balance get_amount_locked sum_values max_key offchain_total_withdraw ◌+ℤ◌ ◌-ℤ◌
channel_between-IsConsistent a b = record {
  ours = empty_side-IsSound a;
  partner = empty_side-IsSound b;
  our_solvency = omega arith;
  partner_solvency = omega arith;
  our_bound = omega arith;
  partner_bound = omega arith;
  ordered = (tt, inr (tt, tt));
}

pub fresh_channel-IsConsistent : IsConsistent toy fresh_channel
fresh_channel-IsConsistent = channel_between-IsConsistent 1 2

pub ten-Fits : Fits ten
ten-Fits = record { amount = omega arith; expiration = omega arith; secrethash = omega arith }

pub locked_channel-IsConsistent : IsConsistent toy locked_channel
unfolding is_lock_pending lookup
locked_channel-IsConsistent =
    handle_receive_lockedtransfer-IsConsistent toy fresh_channel transfer_ten none
      fresh_channel-IsConsistent ten-Fits refl

-- What the received transfer left behind.
pub locked_channel-ten :
    (lookup 7 locked_channel.partner_state.secrethashes_to_lockedlocks ≡ some ten)
    × (get_lock locked_channel.partner_state 7 ≡ some ten)
    × (locked_channel.reveal_timeout ≡ 10)
    × (locked_channel.canonical_identifier ≡ channel_id)
unfolding lookup get_lock handle_receive_lockedtransfer is_valid_lockedtransfer
    is_balance_proof_usable_onchain get_status is_valid_balanceproof_signature compute_locks_with
    list_contains check_locks_with compare_balance_proof bytes_beq to_bytes compute_locksroot
    encoded get_current_balanceproof get_distributable ◌-ℤ◌ get_balance ◌+ℤ◌ get_amount_locked
    get_amount_unclaimed_onchain get_balance_with get_next_nonce join accept_balance_proof
    add_lockedlock status_before_settle status_of transaction_state
    is_balance_proof_safe_for_onchain_operations is_valid_signature signed_bytes
    valid_lockedtransfer_check insert sum_values hash_balance_data largest_key max_key
    offchain_total_withdraw
locked_channel-ten = (refl, refl, refl, refl)

abbrev pub call_at : ℕ → Call
call_at block_number = record { block_number = block_number; block_hash = 0; draws = 0 }
