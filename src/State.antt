-- ===== src/State.antt =====
-- The data of a netting channel: transfer/state.py, the balance proofs of
-- transfer/architecture.py and the fee schedule of mediated_transfer/mediation_fee.py.
-- A 32-byte secret hash is the number that its bytes spell. Secrets, signatures, addresses and
-- metadata are opaque numbers. Amounts that a constructor keeps at zero or above are naturals;
-- withdraw amounts and computed balances are integers.
pub mod Make
pub mod Encoding
pub use raiden_common.External.{CanonicalIdentifier}
use raiden_common.Common.{ℕ, ◌-◌, ◌*◌, ◌^◌, Bool, ◌&&◌, Option, List, [], ◌∷◌, ◌==◌, nat_eq}
use raiden_common.Common.Bytes.{Bytes, bytes_eq}
use raiden_common.Common.Dict.{Dict}
use raiden_common.Common.Int.{ℤ, pos, max_ℤ, int_eq}

-- constants.py
abbrev pub uint256_max : ℕ
uint256_max = 2 ^ 256 - 1

abbrev pub uint64_max : ℕ
uint64_max = 2 ^ 64 - 1

abbrev pub maximum_pending_transfers : ℕ
maximum_pending_transfers = 160

-- settings.py
abbrev pub default_number_of_block_confirmations : ℕ
default_number_of_block_confirmations = 5

pub data ChannelState : Type 0 where
  closed closing opened settled settling unusable : ChannelState

-- `encoded` is computed from the other fields, see `State.Make`.
pub record HashTimeLockState : Type 0 where
  pub amount : ℕ
  pub expiration : ℕ
  pub secrethash : ℕ

-- The other fields of the class repeat those of the lock.
pub record UnlockPartialProofState : Type 0 where
  pub lock : HashTimeLockState
  pub secret : ℕ

pub data TransactionResult : Type 0 where
  success failure : TransactionResult

pub record TransactionExecutionStatus : Type 0 where
  pub started_block_number : Option ℕ
  pub finished_block_number : Option ℕ
  pub result : Option TransactionResult

pub record SuccessfulTransactionState : Type 0 where
  pub finished_block_number : ℕ
  pub started_block_number : Option ℕ

pub record BalanceProofUnsignedState : Type 0 where
  pub nonce : ℕ
  pub transferred_amount : ℕ
  pub locked_amount : ℕ
  pub locksroot : Bytes
  pub canonical_identifier : CanonicalIdentifier

pub record BalanceProofSignedState : Type 0 where
  pub content : BalanceProofUnsignedState
  pub open content use *
  pub message_hash : Bytes
  pub signature : ℕ
  pub sender : ℕ

-- `Union[BalanceProofSignedState, BalanceProofUnsignedState]`
pub data BalanceProofState : Type 0 where
  signed : BalanceProofSignedState → BalanceProofState
  unsigned : BalanceProofUnsignedState → BalanceProofState

-- The fields that both classes have.
abbrev pub content_of : BalanceProofState → BalanceProofUnsignedState
content_of (signed b) = b.content
content_of (unsigned b) = b

pub record PendingWithdrawState : Type 0 where
  pub total_withdraw : ℤ
  pub expiration : ℕ
  pub nonce : ℕ
  pub recipient_metadata : Option ℕ

pub record ExpiredWithdrawState : Type 0 where
  pub total_withdraw : ℤ
  pub expiration : ℕ
  pub nonce : ℕ
  pub recipient_metadata : Option ℕ

pub record CoopSettleState : Type 0 where
  pub total_withdraw_initiator : ℤ
  pub total_withdraw_partner : ℤ
  pub expiration : ℕ
  pub partner_signature_request : Option ℕ
  pub partner_signature_confirmation : Option ℕ
  pub transaction : Option TransactionExecutionStatus

-- `PendingLocksState` holds just the list `locks`.
abbrev pub PendingLocksState : Type 0
PendingLocksState = List Bytes

pub record NettingChannelEndState : Type 0 where
  pub address : ℕ
  pub contract_balance : ℕ
  pub onchain_total_withdraw : ℤ
  pub withdraws_pending : Dict ℤ PendingWithdrawState
  pub initiated_coop_settle : Option CoopSettleState
  pub expired_coop_settles : List CoopSettleState
  pub withdraws_expired : List ExpiredWithdrawState
  pub secrethashes_to_lockedlocks : Dict ℕ HashTimeLockState
  pub secrethashes_to_unlockedlocks : Dict ℕ UnlockPartialProofState
  pub secrethashes_to_onchain_unlockedlocks : Dict ℕ UnlockPartialProofState
  pub balance_proof : Option BalanceProofState
  pub pending_locks : PendingLocksState
  pub onchain_locksroot : Bytes
  pub nonce : ℕ

pub record FeeScheduleState : Type 0 where
  pub cap_fees : Bool
  pub flat : ℕ
  pub proportional : ℕ
  pub imbalance_penalty : Option (List (ℕ × ℕ))

pub record NettingChannelState : Type 0 where
  pub canonical_identifier : CanonicalIdentifier
  pub token_address : ℕ
  pub token_network_registry_address : ℕ
  pub reveal_timeout : ℕ
  pub settle_timeout : ℕ
  pub fee_schedule : FeeScheduleState
  pub our_state : NettingChannelEndState
  pub partner_state : NettingChannelEndState
  pub open_transaction : SuccessfulTransactionState
  pub close_transaction : Option TransactionExecutionStatus
  pub settle_transaction : Option TransactionExecutionStatus
  pub update_transaction : Option TransactionExecutionStatus

-- `max(self.withdraws_pending, default=0)`: the largest key.
unfoldable pub largest_key : ℤ → Dict ℤ PendingWithdrawState → ℤ
largest_key best [] = best
largest_key best ((k, w) ∷ d) = largest_key (max_ℤ best k) d

unfoldable pub max_key : Dict ℤ PendingWithdrawState → ℤ
unfolding largest_key
max_key [] = pos 0
max_key ((k, w) ∷ d) = largest_key k d

unfoldable pub offchain_total_withdraw : NettingChannelEndState → ℤ
unfolding max_key
offchain_total_withdraw end_state = max_key end_state.withdraws_pending

-- `NettingChannelEndState.total_withdraw`
unfoldable pub total_withdraw : NettingChannelEndState → ℤ
total_withdraw end_state =
    max_ℤ (offchain_total_withdraw end_state) end_state.onchain_total_withdraw

-- The generated `__eq__` of the frozen dataclass.
unfoldable pub canonical_identifier_eq : CanonicalIdentifier → CanonicalIdentifier → Bool
canonical_identifier_eq a b =
    a.chain_identifier == b.chain_identifier
    && a.token_network_address == b.token_network_address
    && a.channel_identifier == b.channel_identifier
