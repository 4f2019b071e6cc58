-- ===== src/Examples/Tasks.antt =====
-- Tests of the target.
use raiden_common.Channel.Invariant.{IsSound}
use raiden_common.Channel.Invariant.Moves.{LeavesLock}
use raiden_common.Channel.Locks.{is_transfer_expired, get_secret, get_lock}
use raiden_common.Channel.Status.{status_before_settle, status_of, get_status}
use raiden_common.Common.{
  ◌≡◌, refl, ◌≢◌, ◌⊎◌, true, false, none, some, List, [], ◌∷◌, ◌++◌, arith, length, is_some, nat_eq,
}
use raiden_common.Common.Bytes.{bytes_eq}
use raiden_common.Common.Dict.{lookup}
use raiden_common.Common.Int.{int_eq}
use raiden_common.Common.Outcome.{ok}
use raiden_common.Events.{Reason, MessageHeader, Event, ReceiveSecretReveal}
use raiden_common.Examples.{
  toy, empty_side, ten, transfer_ten, unlock_ten, fresh_channel, locked_channel,
  locked_channel-IsConsistent, locked_channel-ten, call_at,
}
use raiden_common.Examples.Received.{unlocked_outcome, unlock_ten_ok}
use raiden_common.Routes.{HopState, get_address_metadata}
use raiden_common.State.{NettingChannelState}
use raiden_common.Target.{
  TargetState, TargetTransferState, TargetResult, ActionInitTarget, fresh_task,
  payer_address_metadata, waits, claim_failed, check_target,
}
use raiden_common.Target.Handlers.{
  handle_target_secretreveal, received_payment, handle_target_unlock, handle_target_block,
}
use raiden_common.Target.Paid.{
  handle_target_unlock-LeavesLock, handle_target_secretreveal-reveals, handle_target_block-expired,
}
use raiden_common.Target.Progress.{target_transition-Proceeds}
use raiden_common.Target.Running.{Matches, Proceeds, FailsOnEmpty}
use raiden_common.Target.Runs.{here, next, TargetRun-Matches}
use raiden_common.Target.Start.{Ignores, Begins, target_transition-init}
use raiden_common.Target.Transition.{
  TargetChange, handle_running_target, handle_target_change, target_transition,
}

abbrev from_two : HopState
from_two = record { node_address = 2; channel_identifier = 5 }

abbrev task_ten : TargetTransferState
task_ten = fresh_task from_two transfer_ten

known_ten : is_some (get_lock locked_channel.partner_state 7) ≡ true
known_ten = rw locked_channel-ten.1 refl

abbrev by_unlock : TargetChange
by_unlock = TargetChange.unlock unlock_ten

target_transition-Proceeds_example :
    FailsOnEmpty locked_channel 7
      (target_transition toy (some task_ten) by_unlock locked_channel (call_at 12))
    ⊎ Proceeds toy transfer_ten
        (target_transition toy (some task_ten) by_unlock locked_channel (call_at 12))
target_transition-Proceeds_example =
    target_transition-Proceeds toy task_ten locked_channel locked_channel-IsConsistent.ours
      locked_channel-IsConsistent.partner known_ten by_unlock (call_at 12)
      (rw locked_channel-ten.2 (omega arith)) refl

-- The result of the unlock.
abbrev paid_off : TargetResult
paid_off = record {
  new_state = none;
  channel = unlocked_outcome.channel;
  events = unlocked_outcome.events ++ received_payment unlocked_outcome.channel transfer_ten;
  draws = 0;
}

paid_off_ok :
    target_transition toy (some task_ten) by_unlock locked_channel (call_at 12) ≡ ok paid_off
unfolding target_transition handle_target_change handle_running_target handle_target_unlock
    check_target payer_address_metadata get_address_metadata
paid_off_ok = rw (unlock_ten_ok.0, unlock_ten_ok.1, unlock_ten_ok.2) refl

TargetRun-Matches_example :
    IsSound toy unlocked_outcome.channel.our_state
    × IsSound toy unlocked_outcome.channel.partner_state
    × Matches transfer_ten unlocked_outcome.channel.partner_state none
TargetRun-Matches_example =
    TargetRun-Matches toy task_ten locked_channel locked_channel-IsConsistent.ours
      locked_channel-IsConsistent.partner known_ten
      (next by_unlock (call_at 12) paid_off here (rw locked_channel-ten.2 (omega arith)) refl
        paid_off_ok)

abbrev init_ten : ActionInitTarget
init_ten = record { from_hop = from_two; transfer = transfer_ten; received_valid_secret = false }

target_transition-init_example :
    (r : TargetResult) × (target_transition toy none
        (TargetChange.init init_ten)
        fresh_channel
        (call_at 12)
      ≡ ok r)
    × (Ignores init_ten fresh_channel r ⊎ Begins toy init_ten fresh_channel (call_at 12) r)
target_transition-init_example =
    target_transition-init toy init_ten fresh_channel (call_at 12) refl (omega arith)

handle_target_unlock-LeavesLock_example :
    (r : TargetResult) × (handle_target_unlock toy task_ten unlock_ten locked_channel 0 ≡ ok r)
    × (((r.new_state ≡ some task_ten) × (r.channel ≡ locked_channel) × (length r.events ≡ 1))
        ⊎ ((r.new_state ≡ none)
            × LeavesLock locked_channel.partner_state r.channel.partner_state
                locked_channel.our_state ten 10
            × ((events : List Event) × (r.events
                  ≡ events ++ received_payment r.channel transfer_ten))))
handle_target_unlock-LeavesLock_example =
    handle_target_unlock-LeavesLock toy task_ten unlock_ten locked_channel 0
      locked_channel-IsConsistent.partner locked_channel-ten.1

abbrev reveal_six : ReceiveSecretReveal
reveal_six = record { sender = 2; secret = 6; secrethash = 7 }

abbrev revealed_six : TargetResult
revealed_six = handle_target_secretreveal toy task_ten reveal_six locked_channel (call_at 12)

handle_target_secretreveal-reveals_example :
    (((7 ≢ ten.secrethash) ⊎ (is_transfer_expired ten locked_channel 12 ≡ true))
      × (revealed_six ≡ waits task_ten locked_channel [] 0))
    ⊎ ((ten.secrethash ≡ ten.secrethash)
        × (is_transfer_expired ten locked_channel 12 ≡ false)
        × (revealed_six.new_state
            ≡ some (record task_ten { state = TargetState.reveal_secret; secret = some 6 }))
        × (get_secret revealed_six.channel.partner_state 7 ≡ some 6)
        × ((header : MessageHeader) × (header.recipient ≡ from_two.node_address)
            × (revealed_six.events
                ≡ Event.send_secret_reveal (record { header = header; secret = 6 }) ∷ [])))
handle_target_secretreveal-reveals_example =
    handle_target_secretreveal-reveals toy task_ten reveal_six locked_channel (call_at 12) ten
      locked_channel-IsConsistent.partner.synced locked_channel-ten.0

-- The partner's side after the secret was learned off-chain.
abbrev pub learned_channel : NettingChannelState
learned_channel = record fresh_channel {
  partner_state = record (empty_side 2) {
    secrethashes_to_unlockedlocks = (7, record { lock = ten; secret = 6 }) ∷ [];
  };
}

handle_target_block-expired_example :
    (handle_target_block (record task_ten { state = TargetState.expired }) learned_channel 55 0 0
      ≡ ok (
          waits
            (record task_ten { state = TargetState.onchain_secret_reveal })
            learned_channel
            (Event.contract_send_secret_reveal 50 6 0 ∷ [])
            0))
    × (handle_target_block
          (record task_ten { state = TargetState.onchain_secret_reveal })
          learned_channel
          56
          0
          0
        ≡ ok (
            waits
              (record task_ten { state = TargetState.expired })
              learned_channel
              (claim_failed transfer_ten Reason.lock_has_expired ∷ [])
              0))
unfolding lookup get_status status_of status_before_settle
handle_target_block-expired_example =
    handle_target_block-expired task_ten learned_channel 55 0 56 0 0 6 refl (omega arith) refl refl
      (omega arith) (omega arith) (omega arith) (omega arith)
