-- ===== src/Target/Progress.antt =====
-- A task and its lock come and go together: of its assertions, `state_transition` of the target can
-- only fail the one on an empty secret.
use raiden_common.Channel.Actions.{Call}
use raiden_common.Channel.Invariant.{IsSound}
use raiden_common.Channel.Locks.{get_lock}
use raiden_common.Common.{
  ℕ, ◌≡◌, refl, ◌⊎◌, inl, inr, true, Option, none, some, nat_beq_iff, is_some,
}
use raiden_common.Common.Outcome.{ok}
use raiden_common.External.{External}
use raiden_common.SecretRegistry.{CanWait}
use raiden_common.State.{NettingChannelState}
use raiden_common.Target.{TargetTransferState, check_target}
use raiden_common.Target.Running.{
  Matches, Keeps, Proceeds, FailsOnEmpty, handle_target_secretreveal-Keeps,
  handle_target_onchain_secretreveal-Proceeds, handle_target_unlock-Proceeds,
  handle_target_lock_expired-Keeps, handle_target_block-Proceeds,
}
use raiden_common.Target.Transition.{
  TargetChange, unchanged_target, handle_running_target, handle_target_change, target_transition,
}

-- A state change that belongs to the task: a block is the current one, and an unlock is routed to
-- the task by its secret hash (transfer/node.py).
abbrev pub BelongsTo : ℕ → Call → TargetChange → Type 0
BelongsTo h call (TargetChange.block number hash) = number ≡ call.block_number
BelongsTo h call (TargetChange.unlock message) = message.secrethash ≡ h
BelongsTo h call anything = Unit

check_target-Matches :
    (task : TargetTransferState) (new_state : Option TargetTransferState) (c : NettingChannelState)
    → Matches task.transfer c.partner_state new_state
    → check_target (some task) new_state c ≡ ok tt
unfolding check_target
check_target-Matches task none c m = rw m refl
check_target-Matches task (some t) c m = rw (m.0, m.1) refl

module _ (x : External) (task : TargetTransferState) (c : NettingChannelState)
    (ours : IsSound x c.our_state) (partner : IsSound x c.partner_state)
    (known : is_some (get_lock c.partner_state task.transfer.lock.secrethash) ≡ true) where
  unchanged-Proceeds : (draws : ℕ) → Keeps x task.transfer (unchanged_target (some task) c draws)
  unchanged-Proceeds draws = record { ours = ours; partner = partner; matches = (refl, known) }

  -- Only a block can meet an empty secret.
  handle_running_target-Proceeds :
      (change : TargetChange) (call : Call)
      → CanWait task.transfer.lock.expiration c.reveal_timeout call.block_number
      → BelongsTo task.transfer.lock.secrethash call change
      → FailsOnEmpty c task.transfer.lock.secrethash (handle_running_target x task change c call)
        ⊎ Proceeds x task.transfer (handle_running_target x task change c call)
  unfolding handle_running_target
  handle_running_target-Proceeds (TargetChange.block number hash) call h b =
      rw (b, (nat_beq_iff call.block_number call.block_number).1 refl)
        (handle_target_block-Proceeds x task c ours partner known call.block_number hash call.draws
          h)
  handle_running_target-Proceeds (TargetChange.secretreveal reveal) call h b =
      inr (_, refl, handle_target_secretreveal-Keeps x task c ours partner known reveal call)
  handle_running_target-Proceeds (TargetChange.onchain_secretreveal reveal) call h b =
      inr
        (handle_target_onchain_secretreveal-Proceeds x task c ours partner known reveal call.draws)
  handle_running_target-Proceeds (TargetChange.unlock message) call h b =
      inr (handle_target_unlock-Proceeds x task c ours partner known message call.draws b)
  handle_running_target-Proceeds (TargetChange.lock_expired message) call h b =
      inr (_, refl, handle_target_lock_expired-Keeps x task c ours partner known message call)
  handle_running_target-Proceeds (TargetChange.init action) call h b =
      inr (_, refl, unchanged-Proceeds call.draws)
  handle_running_target-Proceeds TargetChange.other call h b =
      inr (_, refl, unchanged-Proceeds call.draws)

  -- Where both sides of the channel are sound, the partner's side has the lock of the task, the
  -- block and the reveal timeout are positive, the lock expires after more than the reveal timeout,
  -- and the state change belongs to the task: the transition of a running task either fails with
  -- the assertion on the secret of the lock, only if that secret is known and empty, or it returns.
  -- Then both sides are sound afterwards, and either the task goes on with the same transfer and
  -- the lock is still there, or task and lock are both gone.
  pub target_transition-Proceeds :
      (change : TargetChange) (call : Call)
      → CanWait task.transfer.lock.expiration c.reveal_timeout call.block_number
      → BelongsTo task.transfer.lock.secrethash call change
      → FailsOnEmpty c task.transfer.lock.secrethash (target_transition x (some task) change c call)
        ⊎ Proceeds x task.transfer (target_transition x (some task) change c call)
  unfolding target_transition handle_target_change
  target_transition-Proceeds change call h b =
      elim (handle_running_target-Proceeds change call h b) [
        | inl (empty, fails) ↦ inl (empty, rw (fails, target_transition) refl)
        | inr (r, e, keeps) ↦ inr (
          r,
          rw (e, target_transition, check_target-Matches task r.new_state r.channel keeps.matches)
              refl,
          keeps,
        )
      ]
