-- ===== src/Lib.antt =====
-- The payment channels of Raiden and the two state machines of received payments: transfer/channel.py,
-- transfer/mediated_transfer/target.py and mediator.py, and the data they work on.
--
-- A channel links two nodes. Each keeps the state of both sides: deposits, the balance proof of
-- each side (a signed statement of what it has transferred and locked), and the locks that are
-- pending. The handlers take user actions, messages of the partner and events of the chain, change
-- the state and emit events; `state_transition` runs
-- `sanity_check` behind the handlers that it dispatches to, unless the channel is cleared.
--
-- A payment that arrives on a channel starts a task, on the node it is for a target and else a
-- mediator. The target asks for the secret, reveals it to the payer and is paid by the payer's
-- unlock; the mediator sends the transfer on, and when it learns the secret reveals it to the payer
-- and pays the payee. Both change channels by the functions of transfer/channel.py, and both react
-- to blocks: near the expiration of a lock the secret is registered on-chain, behind it the lock is
-- removed.
--
-- All paths below are under raiden_common/.
--   Common            numbers, bytes, dictionaries with insertion order, signed integers, and
--                     `Outcome`, where every exception or failed assertion is a `Failure`.
--   External          what is a parameter: keccak, recovery of a signer, the byte layout of signed
--                     balance proofs (raiden_contracts behind utils/packing.py), the random
--                     generator, and the floating-point part of the imbalance fees.
--   State, Events     transfer/state.py, the balance proofs of transfer/architecture.py, the events
--                     and state changes of transfer/; State/Make has the constructors that check
--                     their arguments, and the byte format of locks (messages/transfers.py).
--   Channel           transfer/channel.py. Status: get_status, thresholds. Locks: the lock maps and
--                     secrets. Balance: balances, distributable amounts, usability. Validate and
--                     Withdraw/Validate: the is_valid_* functions. Receive, Send: messages with a
--                     balance proof. Withdraw, Actions, Confirm: withdraws, cooperative settlement
--                     and user actions. Onchain, Settle: blocks and contract events. Sanity:
--                     sanity_check. Transition: handle_state_transitions and state_transition.
--   Routes            routes (transfer/state.py, transfer/routes.py), and the channels of a node:
--                     objects by reference, found by identifier or by the partner's address.
--   SecretRegistry    transfer/secret_registry.py, and the tests that target and mediator share.
--   Fees              mediation_fee.py; Fees/Amount has `_mediation_fee_func` and, of mediator.py,
--                     find_intersection and get_amount_without_fees.
--   Target            mediated_transfer/target.py: its data, sanity_check and handle_inittarget.
--                     Handlers: the other handlers. Transition: state_transition.
--   Mediator          mediated_transfer/mediator.py: its data and tests. Sanity, Secrets, Pay,
--                     Onchain, Expire, Forward: the steps of the handlers. Handlers, Received: the
--                     handlers. Transition: state_transition.
--   Channel/*/..., the other children of Target and Mediator
--                     the proofs, in modules named for what they prove.
--   Channel/Delivery  both ends of a channel at once.
--   Examples          tests at concrete data.
--
-- The Python code changes objects in place; here every function returns the new state. An object
-- that two names share is written back where the code relies on that (`events_for_coop_settle`).
-- Functions that return a triple of a flag, a message and locks return `LocksOrError`; messages are
-- constructors of `Reason`, without the numbers that are formatted into them, and without a difference
-- in upper case (`Lock expired`). The random generator
-- is the count of draws made from it. The state machine is finite and its loops run over lists, so
-- no definition needs fuel. Amounts are unbounded like Python's; the bounds that the code checks
-- (`uint256_max`, `uint64_max`) are written out.
--
-- Addresses, hashes and secrets are numbers. A secret stands for its bytes in bijective base 256, so
-- that 0 is the empty one, which an assertion takes for missing (`require_secret`).
--
-- The invariant is `IsConsistent`: the three lock maps of each side agree with its pending locks
-- (`IsSynced`), the balance proof is over them (`IsBackedBy`), each side can pay what it has locked
-- (`IsSolvent`), and the pending withdraws of our side
-- stand under their totals, which are positive and ascending unless the channel is being settled
-- cooperatively (`IsOrdered`).
--
-- Target and mediator get the channels that the dispatch looks up for them. A mediator may have the
-- same channel in several pairs, so its channels are in one store and every change is written back
-- under the reference of the object.
--
-- Not modelled: the initiator (transfer/mediated_transfer/initiator.py), the dispatch in
-- transfer/node.py and transfer/token_network.py, path finding (routing.py), storage, the network and
-- the services, which are separate parts; filter_reachable_routes, which only tests use; and the
-- computation of the penalty points of a fee schedule, which is floating point and a parameter.
pub mod Common
pub mod External
pub mod State
pub mod Routes
pub mod Events
pub mod Channel
pub mod SecretRegistry
pub mod Fees
pub mod Target
pub mod Mediator
pub mod Examples
