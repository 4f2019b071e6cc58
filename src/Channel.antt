-- ===== src/Channel.antt =====
-- The payment channel state machine, transfer/channel.py.
pub mod Status
pub mod Locks
pub mod Balance
pub mod Validate
pub mod Receive
pub mod Send
pub mod Withdraw
pub mod Actions
pub mod Confirm
pub mod Onchain
pub mod Settle
pub mod Sanity
pub mod Transition
pub mod Invariant
pub mod Delivery
