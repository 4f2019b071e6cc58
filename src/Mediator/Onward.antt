-- ===== src/Mediator/Onward.antt =====
-- The transfer that a mediator sends on is for the same payment as the one that it received.
use raiden_common.Channel.Invariant.Moves.{TakesLock}
use raiden_common.Channel.Locks.{is_lock_pending}
use raiden_common.Channel.Sanity.Consistent.{IsConsistent}
use raiden_common.Channel.Send.{TransferDescription, create_sendlockedtransfer, send_lockedtransfer}
use raiden_common.Channel.Send.Consistent.{
  send_lockedtransfer-TakesLock, send_lockedtransfer-IsConsistent,
}
use raiden_common.Channel.Send.Sound.{
  create_sendlockedtransfer-IsCreated, send_lockedtransfer-created,
}
use raiden_common.Common.{ℕ, ◌-◌, ◌≤◌, ◌≡◌, ◌∙◌, subst, true, false, some, arith}
use raiden_common.Common.Outcome.{ok}
use raiden_common.Events.{
  LockedTransferUnsignedState, LockedTransferSignedState, SendLockedTransfer,
}
use raiden_common.External.{External}
use raiden_common.Mediator.{PayerState, PayeeState, is_send_transfer_almost_equal}
use raiden_common.Mediator.Forward.{Forwarded, describe_forward, forward_transfer_pair}
use raiden_common.Mediator.Sent.{forward_transfer_pair-Forwards}
use raiden_common.State.{HashTimeLockState, PendingLocksState, NettingChannelState}
use raiden_common.State.Make.{make_lock}

send_lockedtransfer-copies :
    (x : External) (c : NettingChannelState) (t : TransferDescription) (e : SendLockedTransfer)
    (locks : PendingLocksState)
    → create_sendlockedtransfer x c t ≡ ok (e, locks)
    → (e.transfer.payment_identifier ≡ t.payment_identifier)
      × (e.transfer.token ≡ c.token_address)
      × (e.transfer.initiator ≡ t.initiator)
      × (e.transfer.target ≡ t.target)
unfolding create_sendlockedtransfer
send_lockedtransfer-copies x c t e locks h = ground arith

make_lock-fields :
    (amount expiration secrethash : ℕ) (lock : HashTimeLockState)
    → make_lock amount expiration secrethash ≡ ok lock
    → (lock.expiration ≡ expiration) × (lock.secrethash ≡ secrethash)
unfolding make_lock
make_lock-fields amount expiration secrethash lock h = ground arith

almost_equal :
    (send : LockedTransferUnsignedState) (received : LockedTransferSignedState)
    → send.payment_identifier ≡ received.payment_identifier
    → send.token ≡ received.token
    → send.lock.expiration ≡ received.lock.expiration
    → send.lock.secrethash ≡ received.lock.secrethash
    → send.initiator ≡ received.initiator
    → send.target ≡ received.target
    → is_send_transfer_almost_equal send received ≡ true
unfolding is_send_transfer_almost_equal
almost_equal send received a b c d e f = ground arith

forwarded_event :
    (x : External) (transfer : LockedTransferSignedState) (payee_channel : NettingChannelState)
    (amount draws : ℕ) (e : SendLockedTransfer) (c' : NettingChannelState)
    → payee_channel.token_address ≡ transfer.token
    → send_lockedtransfer x payee_channel (describe_forward x transfer payee_channel amount draws)
      ≡ ok (e, c')
    → is_send_transfer_almost_equal e.transfer transfer ≡ true
forwarded_event x transfer payee_channel amount draws e c' same_token sent =
    let t = describe_forward x transfer payee_channel amount draws in
    let (made, created, same, _) = send_lockedtransfer-created x payee_channel t e c' sent in
    let facts = create_sendlockedtransfer-IsCreated x payee_channel t made.0 made.1 created in
    let (a, b, i, g) = send_lockedtransfer-copies x payee_channel t made.0 made.1 created in
    let (d, h) =
      make_lock-fields amount transfer.lock.expiration transfer.lock.secrethash made.0.transfer.lock
        facts.made in
    subst (λ (e : SendLockedTransfer). is_send_transfer_almost_equal e.transfer transfer ≡ true)
      same (almost_equal made.0.transfer transfer a (b ∙ same_token) d h i g)

-- Where a received transfer is sent on over a consistent channel of the same token, on which its
-- secret hash is not in use on our side, the channel stays consistent and the lock is on our side;
-- the two transfers agree on payment, token, expiration, secret hash, initiator and target, as
-- `sanity_check` asserts; the new pair is pending on both sides; and the lock does not outlast the
-- settle timeout of the channel.
pub forward_transfer_pair-IsConsistent :
    (x : External) (transfer : LockedTransferSignedState)
    (payer_channel payee_channel : NettingChannelState) (block_number draws : ℕ) (f : Forwarded)
    → IsConsistent x payee_channel
    → is_lock_pending payee_channel.our_state transfer.lock.secrethash ≡ false
    → payee_channel.token_address ≡ transfer.token
    → forward_transfer_pair x transfer payer_channel payee_channel block_number draws ≡ ok (some f)
    → IsConsistent x f.channel
      × TakesLock payee_channel.our_state f.channel.our_state payee_channel.partner_state
          f.pair.payee_transfer.lock
      × (is_send_transfer_almost_equal f.pair.payee_transfer transfer ≡ true)
      × (f.pair.payer_transfer ≡ transfer)
      × (f.pair.payer_state ≡ PayerState.pending)
      × (f.pair.payee_state ≡ PayeeState.pending)
      × (transfer.lock.expiration - block_number ≤ payee_channel.settle_timeout)
forward_transfer_pair-IsConsistent x transfer payer_channel payee_channel block_number draws f
      consistent new same_token h =
    let facts =
      forward_transfer_pair-Forwards x transfer payer_channel payee_channel block_number draws f
        h in
    let t = describe_forward x transfer payee_channel facts.amount draws in
    (
      send_lockedtransfer-IsConsistent x payee_channel t f.event f.channel consistent new
          facts.sent,
      rw facts.payee_transfer
          (send_lockedtransfer-TakesLock x payee_channel t f.event f.channel new facts.sent).0,
      rw facts.payee_transfer (
          forwarded_event x transfer payee_channel facts.amount draws f.event f.channel same_token
            facts.sent),
      facts.payer_transfer,
      facts.payer_state,
      facts.payee_state,
      facts.within,
    )
