-- ===== src/Target/Paid.antt =====
-- What the target learns and is paid, and how an expired task behaves at new blocks.
use raiden_common.Channel.Actions.{Call}
use raiden_common.Channel.Invariant.{IsSynced, IsSound}
use raiden_common.Channel.Invariant.Moves.{LeavesLock}
use raiden_common.Channel.Locks.{
  is_lock_expired, is_transfer_expired, is_secret_known, is_secret_known_offchain, get_secret,
  get_lock, register_offchain_secret,
}
use raiden_common.Channel.Locks.Secrets.{register_secret_endstate-get_secret}
use raiden_common.Channel.Receive.{canonical_identifier_unordered_queue}
use raiden_common.Channel.Receive.Amounts.{removed_moves}
use raiden_common.Channel.Receive.Removed.{unlock_cases}
use raiden_common.Channel.Status.{get_status, get_receiver_expiration_threshold}
use raiden_common.Common.{
  ℕ, ◌+◌, ◌≤◌, ◌<◌, ◌≡◌, refl, ◌≢◌, ◌⊎◌, inl, inr, true, false, none, some, List, [], ◌∷◌, ◌++◌,
  arith, Bool-cases, length, ◌==◌, nat_eq,
}
use raiden_common.Common.Bytes.{bytes_eq}
use raiden_common.Common.Dict.{lookup, contains}
use raiden_common.Common.Int.{int_eq}
use raiden_common.Common.Outcome.{ok}
use raiden_common.Events.{Reason, MessageHeader, Event, ReceiveUnlock, ReceiveSecretReveal}
use raiden_common.External.{External}
use raiden_common.SecretRegistry.{
  is_up_to_closed, events_for_onchain_secretreveal, is_valid_secret_reveal, is_safe_to_wait,
}
use raiden_common.State.{
  default_number_of_block_confirmations, HashTimeLockState, NettingChannelState,
}
use raiden_common.Target.{
  TargetState, TargetTransferState, TargetResult, payer_address_metadata, waits, claim_failed,
  events_for_target_secretreveal,
}
use raiden_common.Target.Handlers.{
  handle_target_secretreveal, received_payment, handle_target_unlock, handle_target_block,
}

-- Where the partner's side is sound and has the lock of the task under the message's secret hash,
-- the handler of unlocks returns: either the message is refused, and channel and task stay, or the
-- task ends, exactly the amount of the lock has been paid to us, and that amount is reported as
-- received.
pub handle_target_unlock-LeavesLock :
    (x : External) (task : TargetTransferState) (unlock : ReceiveUnlock) (c : NettingChannelState)
    (draws : ℕ)
    → IsSound x c.partner_state
    → get_lock c.partner_state unlock.secrethash ≡ some task.transfer.lock
    → (r : TargetResult) × (handle_target_unlock x task unlock c draws ≡ ok r)
      × (((r.new_state ≡ some task) × (r.channel ≡ c) × (length r.events ≡ 1))
          ⊎ ((r.new_state ≡ none)
              × LeavesLock c.partner_state r.channel.partner_state c.our_state task.transfer.lock
                  task.transfer.lock.amount
              × ((events : List Event) × (r.events
                    ≡ events ++ received_payment r.channel task.transfer))))
unfolding handle_target_unlock
handle_target_unlock-LeavesLock x task unlock c draws sound found =
    let (r, e, cases) = unlock_cases x c unlock (payer_address_metadata task.transfer) in
    elim cases [
      | inl refusal ↦ (
        waits task r.channel r.events draws,
        rw (e, handle_target_unlock, refusal.0) refl,
        inl (refl, refusal.1, refusal.2),
      )
      | inr (lock, locks, found', a, after) ↦
          let same : lock ≡ task.transfer.lock = cc in
          let moves =
            removed_moves x c c.partner_state c.our_state unlock.balance_proof unlock.secrethash
              lock lock.amount locks found' a sound in
          (
            record {
              new_state = none;
              channel = r.channel;
              events = r.events ++ received_payment r.channel task.transfer;
              draws = draws;
            },
            rw (e, handle_target_unlock, after.0) refl,
            inr (refl, rw (after.1, ← same) moves.0, (r.events, refl)),
          )
    ]

-- Unless the secret is for another lock or the lock has been expired for ten blocks without being
-- unlocked on-chain, in which case nothing changes, a received secret is kept by the task, becomes
-- known for the lock, which the partner's side has, and is passed on to the node before us.
pub handle_target_secretreveal-reveals :
    (x : External) (task : TargetTransferState) (reveal : ReceiveSecretReveal)
    (c : NettingChannelState) (call : Call) (lock : HashTimeLockState)
    → IsSynced c.partner_state
    → lookup task.transfer.lock.secrethash c.partner_state.secrethashes_to_lockedlocks ≡ some lock
    → (((reveal.secrethash ≢ task.transfer.lock.secrethash)
          ⊎ (is_transfer_expired task.transfer.lock c call.block_number ≡ true))
        × (handle_target_secretreveal x task reveal c call ≡ waits task c [] call.draws))
      ⊎ ((reveal.secrethash ≡ task.transfer.lock.secrethash)
          × (is_transfer_expired task.transfer.lock c call.block_number ≡ false)
          × ((handle_target_secretreveal x task reveal c call).new_state
              ≡ some
                  (record task { state = TargetState.reveal_secret; secret = some reveal.secret }))
          × (get_secret
                (handle_target_secretreveal x task reveal c call).channel.partner_state
                task.transfer.lock.secrethash
              ≡ some reveal.secret)
          × ((header : MessageHeader) × (header.recipient ≡ task.from_hop.node_address)
              × ((handle_target_secretreveal x task reveal c call).events
                  ≡ Event.send_secret_reveal (record { header = header; secret = reveal.secret })
                    ∷ [])))
unfolding handle_target_secretreveal is_valid_secret_reveal register_offchain_secret
handle_target_secretreveal-reveals x task reveal c call lock v found =
    elim (Bool-cases (reveal.secrethash == task.transfer.lock.secrethash)) [
      | inr other ↦ inl (inl (ground arith), rw other refl)
      | inl same ↦ elim (Bool-cases (is_transfer_expired task.transfer.lock c call.block_number)) [
        | inl late ↦ inl (inr late, rw (same, late) refl)
        | inr early ↦
            let equal : reveal.secrethash ≡ task.transfer.lock.secrethash = ground arith in
            inr (
              equal,
              early,
              rw (same, early) refl,
              rw (same, early, equal)
                  ((register_secret_endstate-get_secret c.partner_state reveal.secret
                    task.transfer.lock.secrethash lock v found).0),
              (
                record {
                  recipient = task.from_hop.node_address;
                  recipient_metadata = payer_address_metadata task.transfer;
                  canonical_identifier = canonical_identifier_unordered_queue;
                  message_identifier = x.randint call.draws;
                },
                refl,
                rw (same, early) refl,
              ),
            )
      ]
    ]

-- A task that has expired, on a channel that is opened, closing or closed, with a secret that is
-- known off-chain and is not empty, where our side has no lock of that secret hash unlocked on-chain
-- and the reveal timeout is positive and less than the lock's expiration. At a block five blocks or
-- more after that expiration the transaction that reveals the secret on-chain is sent all the same,
-- and the task goes back to `onchain_secret_reveal`; from there any such block that is not earlier
-- reports the failure again and takes the task back to `expired`.
pub handle_target_block-expired :
    (task : TargetTransferState) (c : NettingChannelState)
    (first first_hash second second_hash draws secret : ℕ)
    → lookup task.transfer.lock.secrethash c.partner_state.secrethashes_to_unlockedlocks
      ≡ some (record { lock = task.transfer.lock; secret = secret })
    → 0 < secret
    → is_up_to_closed (get_status c) ≡ true
    → contains task.transfer.lock.secrethash c.our_state.secrethashes_to_onchain_unlockedlocks
      ≡ false
    → 0 < c.reveal_timeout
    → c.reveal_timeout < task.transfer.lock.expiration
    → task.transfer.lock.expiration + default_number_of_block_confirmations ≤ first
    → first ≤ second
    → let expired_task = record task { state = TargetState.expired } in
      let revealing = record task { state = TargetState.onchain_secret_reveal } in
      (handle_target_block expired_task c first first_hash draws
        ≡ ok (
            waits revealing c
              (Event.contract_send_secret_reveal task.transfer.lock.expiration secret first_hash
                ∷ [])
              draws))
      × (handle_target_block revealing c second second_hash draws
          ≡ ok (
              waits expired_task c (claim_failed task.transfer Reason.lock_has_expired ∷ []) draws))
unfolding handle_target_block events_for_target_secretreveal events_for_onchain_secretreveal
    is_safe_to_wait is_secret_known is_secret_known_offchain get_secret is_lock_expired
    get_receiver_expiration_threshold
handle_target_block-expired task c first first_hash second second_hash draws secret known there
      status offchain positive room due later =
    (ground arith, ground arith)
