-- ===== src/Target/Start.antt =====
-- `handle_inittarget`: a task is made for a valid transfer only, and the secret is requested only
-- where there is time to use it.
use mathlib.Core.List.{append-nil}
use raiden_common.Channel.Actions.{Call}
use raiden_common.Channel.Locks.{is_ok, get_lock}
use raiden_common.Channel.Receive.{
  Handled, accept_balance_proof, add_lockedlock, handle_receive_lockedtransfer,
}
use raiden_common.Channel.Receive.Sound.{lockedtransfer_cases}
use raiden_common.Channel.Validate.{is_valid_lockedtransfer}
use raiden_common.Channel.Validate.Accepted.{LocksOrError-cases}
use raiden_common.Common.{
  ℕ, ◌+◌, ◌<◌, ◌≡◌, refl, sym, ◌⊎◌, inl, inr, Bool, true, false, not, ◌&&◌, Option, none, some,
  List, [], ◌∷◌, ◌++◌, arith, ltb, if◌then◌else◌, nat_beq_iff, Bool-cases, nat_eq,
}
use raiden_common.Common.Bytes.{bytes_eq}
use raiden_common.Common.Dict.{lookup-insert}
use raiden_common.Common.Int.{int_eq}
use raiden_common.Common.Outcome.{ok}
use raiden_common.Events.{Reason, LockedTransferSignedState, Event}
use raiden_common.External.{External}
use raiden_common.SecretRegistry.{CanWait, is_safe_to_wait-CanWait}
use raiden_common.State.{HashTimeLockState, NettingChannelEndState, NettingChannelState}
use raiden_common.Target.{
  TargetResult, ActionInitTarget, fresh_task, payer_address_metadata, waits, claim_failed,
  check_target, request_secret, errormsg_of, handle_inittarget,
}
use raiden_common.Target.Transition.{TargetChange, handle_target_change, target_transition}

errormsg_of-refused :
    (x : External) (c : NettingChannelState) (t : LockedTransferSignedState) (m : Option ℕ)
    → (handle_receive_lockedtransfer x c t m).is_valid ≡ false
    → (e : Reason) × (errormsg_of (handle_receive_lockedtransfer x c t m).events ≡ some e)
unfolding handle_receive_lockedtransfer
errormsg_of-refused x c t m h =
    elim (LocksOrError-cases (is_valid_lockedtransfer x t c c.partner_state c.our_state)) [
      | inl (r, e) ↦ (r, rw (e, handle_receive_lockedtransfer) refl)
      | inr (locks, e) ↦ absurd (ground (arith, e))
    ]

get_lock-added :
    (s : NettingChannelEndState) (lock : HashTimeLockState)
    → get_lock (add_lockedlock s lock) lock.secrethash ≡ some lock
unfolding get_lock add_lockedlock
get_lock-added s lock =
    rw
      (
        lookup-insert lock.secrethash lock.secrethash lock s.secrethashes_to_lockedlocks,
        (nat_beq_iff lock.secrethash lock.secrethash).1 refl,
      )
      refl

-- The transfer is valid and its secret is not known yet, and there is time to use the secret.
abbrev pub asks : ActionInitTarget → NettingChannelState → ℕ → Bool
asks action c block_number =
    not action.received_valid_secret
    && ltb (block_number + c.reveal_timeout) action.transfer.lock.expiration

-- What `handle_inittarget` does with a transfer that is not valid, and with one that is.
abbrev pub Ignores : ActionInitTarget → NettingChannelState → TargetResult → Type 0
Ignores action c r =
    (r.new_state ≡ none)
    × (r.channel ≡ c)
    × ((e : Reason) × (events : List Event) × (r.events
          ≡ events ++ claim_failed action.transfer e ∷ []))

abbrev pub Begins : External → ActionInitTarget → NettingChannelState → Call → TargetResult → Type 0
Begins x action c call r =
    let handled =
      handle_receive_lockedtransfer x c action.transfer (payer_address_metadata action.transfer) in
    (r.new_state ≡ some (fresh_task action.from_hop action.transfer))
    × (r.channel ≡ handled.channel)
    × (get_lock r.channel.partner_state action.transfer.lock.secrethash ≡ some action.transfer.lock)
    × (r.events
        ≡ handled.events
          ++ (if asks action c call.block_number
              then request_secret x action.transfer call.draws ∷ []
              else []))

module _ (x : External) (action : ActionInitTarget) (c : NettingChannelState) (call : Call) where
  abbrev handled_init : Handled
  handled_init =
      handle_receive_lockedtransfer x c action.transfer (payer_address_metadata action.transfer)

  -- For a transfer on this channel, at positive block and reveal timeout, with a lock that expires
  -- after more than the reveal timeout, starting a target returns. Either the transfer is refused:
  -- there is no task, the channel is unchanged and the failure is reported; or the task is made, the
  -- partner's side has the lock of the transfer, and the secret is requested exactly if it is not
  -- known already and more than the reveal timeout is left before the lock expires.
  pub target_transition-init :
      c.canonical_identifier.channel_identifier
        ≡ action.transfer.balance_proof.canonical_identifier.channel_identifier
      → CanWait action.transfer.lock.expiration c.reveal_timeout call.block_number
      → (r : TargetResult) × (target_transition x none (TargetChange.init action) c call ≡ ok r)
        × (Ignores action c r ⊎ Begins x action c call r)
  unfolding target_transition handle_target_change handle_inittarget check_target
  target_transition-init same h =
      let on_channel = (nat_beq_iff _ _).1 same in
      elim (lockedtransfer_cases x c action.transfer (payer_address_metadata action.transfer)) [
        | inl refusal ↦
            let (e, told) = errormsg_of-refused x c action.transfer _ refusal.0 in
            (
              record {
                new_state = none;
                channel = handled_init.channel;
                events = handled_init.events ++ claim_failed action.transfer e ∷ [];
                draws = call.draws;
              },
              rw (on_channel, refusal.0, told) refl,
              inl (refl, refusal.1, (e, handled_init.events, refl)),
            )
        | inr (locks, a, after) ↦
            let partner =
              add_lockedlock
                (accept_balance_proof c.partner_state action.transfer.balance_proof locks)
                action.transfer.lock in
            let found : get_lock handled_init.channel.partner_state action.transfer.lock.secrethash
                ≡ some action.transfer.lock =
              rw after.1 (
                get_lock-added
                  (accept_balance_proof c.partner_state action.transfer.balance_proof locks)
                  action.transfer.lock) in
            let (safe, e, exactly) = is_safe_to_wait-CanWait _ _ _ h in
            elim (Bool-cases action.received_valid_secret) [
              | inl given ↦ (
                waits (fresh_task action.from_hop action.transfer) handled_init.channel
                    handled_init.events call.draws,
                rw (on_channel, after.0, given, found) refl,
                inr (refl, refl, found, rw given (sym (append-nil _))),
              )
              | inr fresh ↦ elim (Bool-cases (is_ok safe)) [
                | inl early ↦ (
                  waits (fresh_task action.from_hop action.transfer) handled_init.channel
                      (handled_init.events ++ request_secret x action.transfer call.draws ∷ [])
                      (call.draws + 1),
                  rw (on_channel, after.0, fresh, e, early, found) refl,
                  inr (refl, refl, found, rw (fresh, in_time (exactly.0 early)) refl),
                )
                | inr late ↦ (
                  waits (fresh_task action.from_hop action.transfer) handled_init.channel
                      handled_init.events call.draws,
                  rw (on_channel, after.0, fresh, e, late, found) refl,
                  inr (
                    refl,
                    refl,
                    found,
                    rw (fresh, too_late (λ t. ground (arith, exactly.1 t))) (sym (append-nil _)),
                  ),
                )
              ]
            ]
      ]
    where
      in_time :
          call.block_number + c.reveal_timeout < action.transfer.lock.expiration
          → ltb (call.block_number + c.reveal_timeout) action.transfer.lock.expiration ≡ true
      in_time t = ground arith

      too_late :
          ¬ (call.block_number + c.reveal_timeout < action.transfer.lock.expiration)
          → ltb (call.block_number + c.reveal_timeout) action.transfer.lock.expiration ≡ false
      too_late t = ground arith
