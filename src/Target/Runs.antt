-- ===== src/Target/Runs.antt =====
-- A task over any sequence of state changes.
use raiden_common.Channel.Actions.{Call}
use raiden_common.Channel.Invariant.{IsSound}
use raiden_common.Channel.Locks.{get_lock}
use raiden_common.Common.{◌≡◌, refl, sym, ◌∙◌, subst, inl, inr, true, Option, some, arith, is_some}
use raiden_common.Common.Outcome.{ok}
use raiden_common.External.{External}
use raiden_common.SecretRegistry.{CanWait}
use raiden_common.State.{NettingChannelState}
use raiden_common.Target.{TargetTransferState, TargetResult}
use raiden_common.Target.Progress.{BelongsTo, target_transition-Proceeds}
use raiden_common.Target.Running.{Matches, Keeps}
use raiden_common.Target.Transition.{TargetChange, target_transition}

-- The task and the channel that a sequence of state changes leads to. Each state change belongs to
-- the task, and comes at a time at which the waiting time can be computed.
pub data TargetRun (x : External) (task : TargetTransferState) (c : NettingChannelState)
    : Option TargetTransferState → NettingChannelState → Type 0 where
  here : TargetRun x task c (some task) c
  next :
      {t : TargetTransferState} {c' : NettingChannelState} (change : TargetChange) (call : Call)
      (r : TargetResult)
      → TargetRun x task c (some t) c'
      → CanWait t.transfer.lock.expiration c'.reveal_timeout call.block_number
      → BelongsTo t.transfer.lock.secrethash call change
      → target_transition x (some t) change c' call ≡ ok r
      → TargetRun x task c r.new_state r.channel

same_result : {r s : TargetResult} → ok r ≡ ok s → r ≡ s
same_result e = cc

-- Whatever sequence of its state changes a task goes through on a channel with two sound sides whose
-- partner's side has the lock of the task: both sides stay sound, and as long as there is a task it
-- is for the same transfer and the partner's side has its lock; once there is none, the lock is gone.
pub TargetRun-Matches :
    (x : External) (task : TargetTransferState) (c : NettingChannelState)
    → IsSound x c.our_state
    → IsSound x c.partner_state
    → is_some (get_lock c.partner_state task.transfer.lock.secrethash) ≡ true
    → {n : Option TargetTransferState} {c' : NettingChannelState} → TargetRun x task c n c'
    → IsSound x c'.our_state × IsSound x c'.partner_state × Matches task.transfer c'.partner_state n
TargetRun-Matches x task c ours partner known here = (ours, partner, (refl, known))
TargetRun-Matches x task c ours partner known (next {t = t} {c' = c'} change call r run h b e) =
    let (ours', partner', (same, known')) = TargetRun-Matches x task c ours partner known run in
    let here_known : is_some (get_lock c'.partner_state t.transfer.lock.secrethash) ≡ true =
      rw same known' in
    elim (target_transition-Proceeds x t c' ours' partner' here_known change call h b) [
      | inl (empty, fails) ↦ absurd (ground (arith, sym fails ∙ e))
      | inr (r', e', keeps) ↦
          let final : Keeps x task.transfer r =
            subst (λ transfer. Keeps x transfer r) same
              (subst (Keeps x t.transfer) (same_result (sym e' ∙ e)) keeps) in
          (final.ours, final.partner, final.matches)
    ]
