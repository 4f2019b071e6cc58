-- ===== src/Target/Running.antt =====
-- The handlers of a running task: they return, and the task exists as long as its lock does.
use raiden_common.Channel.Actions.{Call}
use raiden_common.Channel.Invariant.{IsSound}
use raiden_common.Channel.Locks.{
  is_lock_expired, is_ok, is_transfer_expired, is_secret_known, is_secret_known_offchain,
  get_secret, get_lock, register_offchain_secret,
}
use raiden_common.Channel.Locks.Secrets.{register_secret_endstate-IsSound}
use raiden_common.Channel.Receive.{handle_receive_lock_expired}
use raiden_common.Channel.Receive.Removed.{
  unlock_cases, lock_expired_cases, removed-IsSound, handle_receive_lock_expired-IsSound,
}
use raiden_common.Channel.Status.{get_receiver_expiration_threshold}
use raiden_common.Common.{
  ℕ, ◌≡◌, refl, ◌⊎◌, inl, inr, Bool, true, not, ◌&&◌, Option, none, some, List, [], ◌∷◌, ◌++◌,
  arith, Bool-cases, Option-cases, is_some, ◌==◌, nat_eq,
}
use raiden_common.Common.Bytes.{bytes_eq}
use raiden_common.Common.Dict.{lookup}
use raiden_common.Common.Int.{int_eq}
use raiden_common.Common.Outcome.{Failure, Outcome, ok, raised}
use raiden_common.Events.{
  Reason, LockedTransferSignedState, Event, ReceiveUnlock, ReceiveLockExpired, ReceiveSecretReveal,
  ContractReceiveSecretReveal,
}
use raiden_common.External.{External}
use raiden_common.Mediator.Handlers.{stays}
use raiden_common.SecretRegistry.{
  events_for_onchain_secretreveal, is_valid_secret_reveal, require_secret-cases, CanWait,
  is_safe_to_wait-CanWait,
}
use raiden_common.State.{NettingChannelEndState, NettingChannelState}
use raiden_common.Target.{
  TargetState, TargetTransferState, TargetResult, is_expired, is_revealed_onchain,
  payer_address_metadata, waits, claim_failed, events_for_target_secretreveal,
}
use raiden_common.Target.Handlers.{
  handle_target_secretreveal, handle_target_onchain_secretreveal, received_payment,
  handle_target_unlock, handle_target_block, handle_target_lock_expired,
}
use raiden_common.Target.Locks.{
  register_secret_endstate-known, get_lock-removed, register_onchain_secret-IsSound,
}

-- A task stands for a lock of the partner, and the lock of no task is gone.
abbrev pub Matches :
    LockedTransferSignedState → NettingChannelEndState → Option TargetTransferState → Type 0
Matches transfer partner none = get_lock partner transfer.lock.secrethash ≡ none
Matches transfer partner (some task) =
    (task.transfer ≡ transfer) × (is_some (get_lock partner transfer.lock.secrethash) ≡ true)

pub record Keeps (x : External) (transfer : LockedTransferSignedState) (r : TargetResult)
    : Type 0 where
  pub ours : IsSound x r.channel.our_state
  pub partner : IsSound x r.channel.partner_state
  pub matches : Matches transfer r.channel.partner_state r.new_state

-- A result with the properties above.
abbrev pub Proceeds : External → LockedTransferSignedState → Outcome TargetResult → Type 0
Proceeds x transfer o = (r : TargetResult) × (o ≡ ok r) × Keeps x transfer r

handle_receive_lock_expired-our_state :
    (x : External) (c : NettingChannelState) (e : ReceiveLockExpired) (block_number : ℕ)
    (m : Option ℕ)
    → (handle_receive_lock_expired x c e block_number m).channel.our_state ≡ c.our_state
handle_receive_lock_expired-our_state x c e block_number m =
    elim (lock_expired_cases x c e block_number m) [
      | inl refusal ↦ rw refusal.1 refl
      | inr (lock, locks, found, _, _, after) ↦ rw after.1 refl
    ]

-- A secret that is known off-chain is found.
is_secret_known_offchain-get_secret :
    (s : NettingChannelEndState) (h : ℕ)
    → is_secret_known_offchain s h ≡ true
    → (secret : ℕ) × (get_secret s h ≡ some secret)
unfolding is_secret_known_offchain get_secret
is_secret_known_offchain-get_secret s h k =
    elim (Option-cases (lookup h s.secrethashes_to_unlockedlocks)) [
      | inl e ↦ absurd (ground arith)
      | inr (u, e) ↦ (u.secret, ground arith)
    ]

-- The secret of the lock is known and empty, and so the result is the failure of `assert secret`.
abbrev pub FailsOnEmpty {ℓ} : {A : Type ℓ} → NettingChannelState → ℕ → Outcome A → Type ℓ
FailsOnEmpty c secrethash o =
    (get_secret c.partner_state secrethash ≡ some 0) × (o ≡ raised Failure.secret_missing)

-- Revealing the secret on-chain fails for an empty secret only, where the waiting time can be
-- computed.
pub events_for_target_secretreveal-returns :
    (task : TargetTransferState) (c : NettingChannelState) (block_number block_hash : ℕ)
    → CanWait task.transfer.lock.expiration c.reveal_timeout block_number
    → FailsOnEmpty c task.transfer.lock.secrethash
        (events_for_target_secretreveal task c block_number block_hash)
      ⊎ ((t : TargetTransferState) × (events : List Event) × (events_for_target_secretreveal task c
              block_number block_hash
            ≡ ok (t, events))
          × (t.transfer ≡ task.transfer))
unfolding events_for_target_secretreveal
events_for_target_secretreveal-returns task c block_number block_hash h =
    let (r, e, _) = is_safe_to_wait-CanWait _ _ _ h in
    elim (Bool-cases (
      not (is_ok r)
      && is_secret_known_offchain c.partner_state task.transfer.lock.secrethash
      && not (is_revealed_onchain task.state))) [
        | inl reveals ↦
            let (secret, found) =
              is_secret_known_offchain-get_secret c.partner_state task.transfer.lock.secrethash
                (ground arith) in
            elim (require_secret-cases secret) [
              | inl (empty, fails) ↦ inl (
                rw (found, empty) refl,
                rw (e, events_for_target_secretreveal, reveals, found, fails) refl,
              )
              | inr there ↦ inr (
                record task { state = TargetState.onchain_secret_reveal },
                events_for_onchain_secretreveal c secret task.transfer.lock.expiration block_hash,
                rw (e, events_for_target_secretreveal, reveals, found, there) refl,
                refl,
              )
            ]
        | inr waiting ↦ inr (task, [], rw (e, events_for_target_secretreveal, waiting) refl, refl)
      ]

module _ (x : External) (task : TargetTransferState) (c : NettingChannelState)
    (ours : IsSound x c.our_state) (partner : IsSound x c.partner_state)
    (known : is_some (get_lock c.partner_state task.transfer.lock.secrethash) ≡ true) where
  -- The channel and the transfer of the task stay the same.
  waits-Keeps :
      (t : TargetTransferState) (events : List Event) (draws : ℕ)
      → t.transfer ≡ task.transfer
      → Keeps x task.transfer (waits t c events draws)
  waits-Keeps t events draws same = record {
    ours = ours;
    partner = partner;
    matches = (same, known);
  }

  pub handle_target_secretreveal-Keeps :
      (reveal : ReceiveSecretReveal) (call : Call)
      → Keeps x task.transfer (handle_target_secretreveal x task reveal c call)
  unfolding handle_target_secretreveal is_valid_secret_reveal register_offchain_secret
  handle_target_secretreveal-Keeps reveal call =
      elim (Bool-cases (
        is_valid_secret_reveal reveal.secrethash task.transfer.lock.secrethash
        && not (is_transfer_expired task.transfer.lock c call.block_number))) [
          | inl accepted ↦
              let same : reveal.secrethash ≡ task.transfer.lock.secrethash = ground arith in
              rw (accepted, handle_target_secretreveal)
                (record {
                  ours =
                      (register_secret_endstate-IsSound x c.our_state reveal.secret
                        reveal.secrethash ours).0;
                  partner =
                      (register_secret_endstate-IsSound x c.partner_state reveal.secret
                        reveal.secrethash partner).0;
                  matches = (
                    refl,
                    rw same (
                        register_secret_endstate-known c.partner_state reveal.secret
                          task.transfer.lock.secrethash partner.synced known),
                  );
                })
          | inr ignored ↦
              rw (ignored, handle_target_secretreveal) (waits-Keeps task [] call.draws refl)
        ]

  pub handle_target_onchain_secretreveal-Proceeds :
      (reveal : ContractReceiveSecretReveal) (draws : ℕ)
      → Proceeds x task.transfer (handle_target_onchain_secretreveal task reveal c draws)
  unfolding handle_target_onchain_secretreveal is_valid_secret_reveal
  handle_target_onchain_secretreveal-Proceeds reveal draws =
      elim (Bool-cases (reveal.secrethash == task.transfer.lock.secrethash)) [
        | inl accepted ↦
            let same : reveal.secrethash ≡ task.transfer.lock.secrethash = ground arith in
            let (c', e, sound_ours, sound_partner, stays) =
              register_onchain_secret-IsSound x c reveal.secret reveal.secrethash
                reveal.block_number ours partner in
            (
              waits
                  (record task { state = TargetState.onchain_unlock; secret = some reveal.secret })
                  c' [] draws,
              rw (accepted, handle_target_onchain_secretreveal, e) refl,
              record {
                ours = sound_ours;
                partner = sound_partner;
                matches = (refl, rw (← same) (stays (rw same known)));
              },
            )
        | inr ignored ↦ (
          waits task c [] draws,
          rw (ignored, handle_target_onchain_secretreveal) refl,
          waits-Keeps task [] draws refl,
        )
      ]

  pub handle_target_unlock-Proceeds :
      (unlock : ReceiveUnlock) (draws : ℕ)
      → unlock.secrethash ≡ task.transfer.lock.secrethash
      → Proceeds x task.transfer (handle_target_unlock x task unlock c draws)
  unfolding handle_target_unlock
  handle_target_unlock-Proceeds unlock draws same =
      let m = payer_address_metadata task.transfer in
      let (r, e, cases) = unlock_cases x c unlock m in
      elim cases [
        | inl refusal ↦ (
          waits task r.channel r.events draws,
          rw (e, handle_target_unlock, refusal.0) refl,
          rw refusal.1 (waits-Keeps task r.events draws refl),
        )
        | inr (lock, locks, found, a, after) ↦ (
          record {
            new_state = none;
            channel = r.channel;
            events = r.events ++ received_payment r.channel task.transfer;
            draws = draws;
          },
          rw (e, handle_target_unlock, after.0) refl,
          rw after.1 (record {
            ours = ours;
            partner =
                removed-IsSound x c c.partner_state unlock.balance_proof unlock.secrethash lock
                  lock.amount locks found a partner;
            matches = rw (← same) (
                get_lock-removed c.partner_state unlock.balance_proof locks unlock.secrethash
                  partner.synced);
          }),
        )
      ]

  pub handle_target_lock_expired-Keeps :
      (expiry : ReceiveLockExpired) (call : Call)
      → Keeps x task.transfer (handle_target_lock_expired x task expiry c call)
  unfolding handle_target_lock_expired
  handle_target_lock_expired-Keeps expiry call =
      let m = payer_address_metadata task.transfer in
      let r = handle_receive_lock_expired x c expiry call.block_number m in
      let sound_ours : IsSound x r.channel.our_state =
        rw (handle_receive_lock_expired-our_state x c expiry call.block_number m) ours in
      let sound_partner =
        handle_receive_lock_expired-IsSound x c expiry call.block_number m partner in
      elim (Bool-cases (is_some (get_lock r.channel.partner_state task.transfer.lock.secrethash))) [
        | inl stays ↦
            rw (stays, handle_target_lock_expired)
              (record { ours = sound_ours; partner = sound_partner; matches = (refl, stays) })
        | inr gone ↦
            rw (gone, handle_target_lock_expired)
              (record { ours = sound_ours; partner = sound_partner; matches = ground arith })
      ]

  pub handle_target_block-Proceeds :
      (block_number block_hash draws : ℕ)
      → CanWait task.transfer.lock.expiration c.reveal_timeout block_number
      → FailsOnEmpty c task.transfer.lock.secrethash
          (handle_target_block task c block_number block_hash draws)
        ⊎ Proceeds x task.transfer (handle_target_block task c block_number block_hash draws)
  unfolding handle_target_block
  handle_target_block-Proceeds block_number block_hash draws h =
      elim (Bool-cases (is_due block_number)) [
        | inl due ↦ inr (
          waits (record task { state = TargetState.expired }) c
              (claim_failed task.transfer Reason.lock_has_expired ∷ []) draws,
          rw (due, handle_target_block) refl,
          waits-Keeps _ _ draws refl,
        )
        | inr early ↦
            elim (Bool-cases (is_secret_known c.partner_state task.transfer.lock.secrethash)) [
              | inl learned ↦
                  elim (events_for_target_secretreveal-returns task c block_number block_hash h) [
                    | inl (empty, fails) ↦
                        inl (empty, rw (early, handle_target_block, learned, fails) refl)
                    | inr (t, events, e, same) ↦ inr (
                      waits t c events draws,
                      rw (early, handle_target_block, learned, e) refl,
                      waits-Keeps t events draws same,
                    )
                  ]
              | inr unknown ↦ inr (
                waits task c [] draws,
                rw (early, handle_target_block, unknown) refl,
                waits-Keeps task [] draws refl,
              )
            ]
      ]
    where
      is_due : ℕ → Bool
      is_due block_number =
          is_ok (
            is_lock_expired c.our_state task.transfer.lock block_number
              (get_receiver_expiration_threshold task.transfer.lock.expiration))
          && not (is_expired task.state)
