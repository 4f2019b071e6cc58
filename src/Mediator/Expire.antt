-- ===== src/Mediator/Expire.antt =====
-- mediator.py: `events_for_expired_pairs` and `events_to_remove_expired_locks`.
use raiden_common.Channel.Locks.{is_lock_expired, is_ok, is_transfer_expired, lock_of}
use raiden_common.Channel.Send.{send_lock_expired}
use raiden_common.Channel.Status.{
  is_state_opened, get_status, get_receiver_expiration_threshold, get_sender_expiration_threshold,
}
use raiden_common.Common.{
  ℕ, Bool, true, false, not, ◌&&◌, Option, none, some, List, [], ◌∷◌, ◌++◌, map, leb, if◌then◌else◌,
  nat_eq,
}
use raiden_common.Common.Bytes.{bytes_eq}
use raiden_common.Common.Dict.{lookup, contains}
use raiden_common.Common.Int.{int_eq}
use raiden_common.Common.Outcome.{Failure, Outcome, ok, assert, ◌>>=◌, ◌>>◌}
use raiden_common.Events.{Reason, Event}
use raiden_common.External.{External}
use raiden_common.Mediator.{
  PayerState, PayeeState, MediationPairState, WaitingState, WaitingTransferState,
  MediatorTransferState, is_pair_pending, get_payee_channel, get_payer_channel,
}
use raiden_common.Routes.{RouteState, get_address_metadata, ChannelMap, set_channel}
use raiden_common.State.{HashTimeLockState, NettingChannelEndState, NettingChannelState}
use raiden_common.Target.{claim_failed}

-- The claim of an expired lock of a payer has failed.
unfoldable pub expire_pair : ChannelMap → ℕ → MediationPairState → MediationPairState × List Event
expire_pair m block_number p =
    if is_pair_pending p
    then (elim (get_payer_channel m p) [
      | none ↦ (p, [])
      | some (r, c) ↦
          if is_transfer_expired p.payer_transfer.lock c block_number
          then (
            record p { payer_state = PayerState.expired },
            claim_failed p.payer_transfer Reason.lock_has_expired ∷ [],
          )
          else (p, [])
    ])
    else (p, [])

unfoldable pub expire_pairs :
    ChannelMap → ℕ → List MediationPairState → List MediationPairState × List Event
expire_pairs m block_number [] = ([], [])
expire_pairs m block_number (p ∷ pairs) =
    let (p', events) = expire_pair m block_number p in
    let (pairs', more) = expire_pairs m block_number pairs in (p' ∷ pairs', events ++ more)

abbrev pub is_waiting_expired : WaitingState → Bool
is_waiting_expired WaitingState.expired = true
is_waiting_expired WaitingState.waiting = false

unfoldable pub expire_waiting :
    ℕ → Option WaitingTransferState → Option WaitingTransferState × List Event
expire_waiting block_number none = (none, [])
expire_waiting block_number (some w) =
    if not (is_waiting_expired w.state)
      && leb (get_receiver_expiration_threshold w.transfer.lock.expiration) block_number
    then (
      some (record w { state = WaitingState.expired }),
      claim_failed w.transfer Reason.lock_has_expired ∷ [],
    )
    else (some w, [])

-- The task and the events.
unfoldable pub events_for_expired_pairs :
    MediatorTransferState → ChannelMap → ℕ → MediatorTransferState × List Event
events_for_expired_pairs state m block_number =
    let (pairs, events) = expire_pairs m block_number state.transfers_pair in
    let (waiting, more) = expire_waiting block_number state.waiting_transfer in
    (record state { transfers_pair = pairs; waiting_transfer = waiting }, events ++ more)

-- The lock that was sent to the payee, unless it was unlocked on-chain.
unfoldable pub sent_lock : NettingChannelEndState → ℕ → Outcome (Option HashTimeLockState)
sent_lock s secrethash = elim (lookup secrethash s.secrethashes_to_lockedlocks) [
  | some lock ↦ (do
    assert (not (contains secrethash s.secrethashes_to_unlockedlocks)) Failure.already_unlocked
    ok (some lock))
  | none ↦ ok (lock_of (lookup secrethash s.secrethashes_to_unlockedlocks))
]

-- What removing the expired locks changes.
pub record Removals : Type 0 where
  pub pairs : List MediationPairState
  pub channels : ChannelMap
  pub events : List Event
  pub draws : ℕ

abbrev pub is_removable : NettingChannelState → HashTimeLockState → ℕ → Bool
is_removable c lock block_number =
    is_ok (
      is_lock_expired c.our_state lock block_number
        (get_sender_expiration_threshold lock.expiration))
    && is_state_opened (get_status c)

-- One round of the loop; the routes are those of the first pair's payer transfer.
unfoldable pub remove_expired_lock :
    External → ℕ → ℕ → List RouteState → MediationPairState → ChannelMap → ℕ → Outcome Removals
remove_expired_lock x secrethash block_number routes p m draws =
    let kept_pair : Removals = record {
      pairs = p ∷ [];
      channels = m;
      events = [];
      draws = draws;
    } in
    elim (get_payee_channel m p) [
      | none ↦ ok kept_pair
      | some (r, c) ↦ (do
        found ← sent_lock c.our_state secrethash
        elim found [
          | none ↦ ok kept_pair
          | some lock ↦
              if is_removable c lock block_number
              then (do
                (expired, c', draws') ←
                    send_lock_expired x c lock draws (get_address_metadata p.payee_address routes)
                ok (record {
                  pairs = record p { payee_state = PayeeState.expired } ∷ [];
                  channels = set_channel m r c';
                  events =
                      map Event.send_lock_expired expired
                      ++ Event.event_unlock_failed p.payee_transfer.payment_identifier
                          p.payee_transfer.lock.secrethash Reason.lock_has_expired
                        ∷ [];
                  draws = draws';
                }))
              else ok kept_pair
        ])
    ]

unfoldable pub remove_expired_locks :
    External → ℕ → ℕ → List RouteState → List MediationPairState → ChannelMap → ℕ → Outcome Removals
remove_expired_locks x secrethash block_number routes [] m draws =
    ok (record { pairs = []; channels = m; events = []; draws = draws })
remove_expired_locks x secrethash block_number routes (p ∷ pairs) m draws = do
  first ← remove_expired_lock x secrethash block_number routes p m draws
  rest ← remove_expired_locks x secrethash block_number routes pairs first.channels first.draws
  ok (record rest { pairs = first.pairs ++ rest.pairs; events = first.events ++ rest.events })

abbrev pub routes_of_first : List MediationPairState → List RouteState
routes_of_first [] = []
routes_of_first (p ∷ pairs) = p.payer_transfer.route_states

unfoldable pub events_to_remove_expired_locks :
    External → MediatorTransferState → ChannelMap → ℕ → ℕ → Outcome Removals
events_to_remove_expired_locks x state m block_number draws =
    remove_expired_locks x state.secrethash block_number (routes_of_first state.transfers_pair)
      state.transfers_pair m draws
