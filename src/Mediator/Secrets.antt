-- ===== src/Mediator/Secrets.antt =====
-- mediator.py: a secret is learned, and revealed to the payers.
use raiden_common.Channel.Locks.{register_offchain_secret, register_onchain_secret}
use raiden_common.Channel.Receive.{canonical_identifier_unordered_queue}
use raiden_common.Common.{
  ℕ, ◌+◌, Bool, true, not, ◌&&◌, Option, none, some, List, [], ◌∷◌, ◌++◌, if◌then◌else◌, ◌==◌,
  nat_eq,
}
use raiden_common.Common.Bytes.{bytes_eq}
use raiden_common.Common.Int.{int_eq}
use raiden_common.Common.Outcome.{Outcome, ok, ◌>>=◌}
use raiden_common.Events.{Reason, LockedTransferSignedState, Event}
use raiden_common.External.{External}
use raiden_common.Mediator.{
  PayerState, PayeeState, MediationPairState, WaitingTransferState, MediatorTransferState,
  payee_knows_secret, payer_knows_secret, is_payer_pending, get_payee_channel, get_payer_channel,
}
use raiden_common.Routes.{ChannelMap, get_channel, set_channel}
use raiden_common.State.{NettingChannelState}
use raiden_common.Target.{payer_address_metadata}

-- A change of one channel, where it is there.
unfoldable pub change_channel :
    (NettingChannelState → NettingChannelState)
    → Option (ℕ × NettingChannelState)
    → ChannelMap
    → ChannelMap
change_channel f none m = m
change_channel f (some (r, c)) m = set_channel m r (f c)

unfoldable pub try_channel :
    (NettingChannelState → Outcome NettingChannelState)
    → Option (ℕ × NettingChannelState)
    → ChannelMap
    → Outcome ChannelMap
try_channel f none m = ok m
try_channel f (some (r, c)) m = do c' ← f c; ok (set_channel m r c')

-- The channel of a waiting transfer.
unfoldable pub get_waiting_channel :
    ChannelMap → WaitingTransferState → Option (ℕ × NettingChannelState)
get_waiting_channel m w =
    get_channel m w.transfer.balance_proof.canonical_identifier.channel_identifier

unfoldable pub register_offchain_in_pairs :
    ℕ → ℕ → List MediationPairState → ChannelMap → ChannelMap
register_offchain_in_pairs secret secrethash [] m = m
register_offchain_in_pairs secret secrethash (p ∷ pairs) m =
    let learn = λ (c : NettingChannelState). register_offchain_secret c secret secrethash in
    let with_payer = change_channel learn (get_payer_channel m p) m in
    let with_payee = change_channel learn (get_payee_channel with_payer p) with_payer in
    register_offchain_in_pairs secret secrethash pairs with_payee

-- The channel and the event of a transfer that waits although its secret was revealed.
unfoldable pub set_offchain_secret :
    MediatorTransferState → ChannelMap → ℕ → ℕ → MediatorTransferState × ChannelMap × List Event
set_offchain_secret state m secret secrethash =
    let state' = record state { secret = some secret } in
    let m' = register_offchain_in_pairs secret secrethash state.transfers_pair m in
    elim state.waiting_transfer [
      | none ↦ (state', m', [])
      | some w ↦ (
        state',
        change_channel (λ c. register_offchain_secret c secret secrethash)
            (get_waiting_channel m' w) m',
        Event.event_unexpected_secret_reveal secrethash Reason.mediator_has_waiting_transfer ∷ [],
      )
    ]

unfoldable pub register_onchain_in_pairs :
    ℕ → ℕ → ℕ → List MediationPairState → ChannelMap → Outcome ChannelMap
register_onchain_in_pairs secret secrethash block_number [] m = ok m
register_onchain_in_pairs secret secrethash block_number (p ∷ pairs) m = do
  let learn =
      λ (c : NettingChannelState). register_onchain_secret c secret secrethash block_number true
  with_payer ← try_channel learn (get_payer_channel m p) m
  with_payee ← try_channel learn (get_payee_channel with_payer p) with_payer
  register_onchain_in_pairs secret secrethash block_number pairs with_payee

unfoldable pub set_onchain_secret :
    MediatorTransferState
    → ChannelMap
    → ℕ
    → ℕ
    → ℕ
    → Outcome (MediatorTransferState × ChannelMap × List Event)
set_onchain_secret state m secret secrethash block_number = do
  let state' = record state { secret = some secret }
  m' ← register_onchain_in_pairs secret secrethash block_number state.transfers_pair m
  elim state.waiting_transfer [
    | none ↦ ok (state', m', [])
    | some w ↦ (do
      m'' ←
          try_channel (λ c. register_onchain_secret c secret secrethash block_number true)
            (get_waiting_channel m' w) m'
      ok (
        state',
        m'',
        Event.event_unexpected_secret_reveal secrethash Reason.mediator_has_waiting_transfer ∷ [],
      ))
  ]

unfoldable pub set_offchain_reveal_state : ℕ → List MediationPairState → List MediationPairState
set_offchain_reveal_state payee_address [] = []
set_offchain_reveal_state payee_address (p ∷ pairs) =
    (if p.payee_address == payee_address
      then record p { payee_state = PayeeState.secret_revealed }
      else p)
    ∷ set_offchain_reveal_state payee_address pairs

-- The payee knows the secret and the payer does not.
abbrev pub should_send_secret : MediationPairState → Bool
should_send_secret p =
    payee_knows_secret p.payee_state
    && not (payer_knows_secret p.payer_state)
    && is_payer_pending p.payer_state

unfoldable pub reveal_to_payer : External → LockedTransferSignedState → ℕ → ℕ → Event
reveal_to_payer x transfer secret draws = Event.send_secret_reveal (record {
  header = record {
    recipient = transfer.balance_proof.sender;
    recipient_metadata = payer_address_metadata transfer;
    canonical_identifier = canonical_identifier_unordered_queue;
    message_identifier = x.randint draws;
  };
  secret = secret;
})

-- Pairs, events and draws.
abbrev pub PairEvents : Type 0
PairEvents = List MediationPairState × List Event × ℕ

abbrev pub reveal_secret_of : External → ℕ → MediationPairState → PairEvents → PairEvents
reveal_secret_of x secret p (pairs, events, draws) =
    if should_send_secret p
    then (
      record p { payer_state = PayerState.secret_revealed } ∷ pairs,
      events ++ reveal_to_payer x p.payer_transfer secret draws ∷ [],
      draws + 1,
    )
    else (p ∷ pairs, events, draws)

-- The last pair comes first.
unfoldable pub events_for_secretreveal : External → ℕ → List MediationPairState → ℕ → PairEvents
events_for_secretreveal x secret [] draws = ([], [], draws)
events_for_secretreveal x secret (p ∷ pairs) draws =
    reveal_secret_of x secret p (events_for_secretreveal x secret pairs draws)
