-- ===== src/Mediator/Forward.antt =====
-- mediator.py: `forward_transfer_pair` and `mediate_transfer`.
use raiden_common.Channel.Balance.{is_channel_usable_for_mediation}
use raiden_common.Channel.Send.{TransferDescription, send_lockedtransfer}
use raiden_common.Common.{
  ℕ, zero, suc, ◌+◌, ◌-◌, Option, none, some, List, [], ◌∷◌, ◌++◌, leb, if◌then◌else◌, ◌==◌, nat_eq,
}
use raiden_common.Common.Bytes.{bytes_eq}
use raiden_common.Common.Dict.{lookup}
use raiden_common.Common.Int.{int_eq}
use raiden_common.Common.Outcome.{Failure, Outcome, ok, assert, ◌>>=◌, ◌>>◌}
use raiden_common.Events.{LockedTransferSignedState, SendLockedTransfer, Event}
use raiden_common.External.{External}
use raiden_common.Fees.Amount.{get_amount_without_fees}
use raiden_common.Mediator.{
  PayerState, PayeeState, MediationPairState, WaitingState, MediatorTransferState, MediatorStep,
}
use raiden_common.Routes.{
  RouteState, hop_after, get_address_metadata, ChannelMap, get_channel_to, set_channel,
  filter_acceptable_routes,
}
use raiden_common.State.{NettingChannelState}

-- A pair with the event and the payee's channel, where the transfer was sent on.
pub record Forwarded : Type 0 where
  pub pair : MediationPairState
  pub channel : NettingChannelState
  pub event : SendLockedTransfer

abbrev pub describe_forward :
    External → LockedTransferSignedState → NettingChannelState → ℕ → ℕ → TransferDescription
describe_forward x transfer payee_channel amount draws = record {
  initiator = transfer.initiator;
  target = transfer.target;
  amount = amount;
  message_identifier = x.randint draws;
  payment_identifier = transfer.payment_identifier;
  expiration = transfer.lock.expiration;
  secret = transfer.secret;
  secrethash = transfer.lock.secrethash;
  route_states = transfer.route_states;
  recipient_metadata =
      get_address_metadata payee_channel.partner_state.address transfer.route_states;
  previous_metadata = transfer.metadata;
}

-- The new pair, with the event and the channel.
abbrev pub forwarded_pair :
    LockedTransferSignedState
    → NettingChannelState
    → SendLockedTransfer
    → NettingChannelState
    → Forwarded
forwarded_pair transfer payee_channel event channel = record {
  pair = record {
    payer_transfer = transfer;
    payee_address = payee_channel.partner_state.address;
    payee_transfer = event.transfer;
    payer_state = PayerState.pending;
    payee_state = PayeeState.pending;
  };
  channel = channel;
  event = event;
}

-- Sending the transfer on, for a given amount. Once the lock has expired the Python code's timeout
-- is negative, and 0 here; a channel is usable with neither.
unfoldable pub forward_amount :
    External
    → LockedTransferSignedState
    → NettingChannelState
    → ℕ
    → ℕ
    → ℕ
    → Outcome (Option Forwarded)
forward_amount x transfer payee_channel amount block_number draws =
    let lock_timeout = transfer.lock.expiration - block_number in
    if is_channel_usable_for_mediation x payee_channel amount lock_timeout
    then (do
      assert (leb lock_timeout payee_channel.settle_timeout) Failure.settle_timeout_too_small
      (event, channel) ←
          send_lockedtransfer x payee_channel
            (describe_forward x transfer payee_channel amount draws)
      ok (some (forwarded_pair transfer payee_channel event channel)))
    else ok none

-- `not amount_after_fees`: absent or zero.
unfoldable pub forward_transfer_pair :
    External
    → LockedTransferSignedState
    → NettingChannelState
    → NettingChannelState
    → ℕ
    → ℕ
    → Outcome (Option Forwarded)
forward_transfer_pair x transfer payer_channel payee_channel block_number draws = do
  amount ← get_amount_without_fees transfer.lock.amount payer_channel payee_channel
  elim amount [
    | none ↦ ok none
    | some zero ↦ ok none
    | some (suc n) ↦ forward_amount x transfer payee_channel (suc n) block_number draws
  ]

-- `route_state.swaps.get(our_address, token_network_address)`
abbrev pub swapped_network : Option ℕ → ℕ → ℕ
swapped_network none token_network = token_network
swapped_network (some other) token_network = other

-- The channel that a route leads on to.
unfoldable pub get_next_channel : ChannelMap → ℕ → ℕ → RouteState → Option (ℕ × NettingChannelState)
get_next_channel m our_address token_network route = elim (hop_after route our_address) [
  | none ↦ none
  | some next_hop ↦
      get_channel_to m (swapped_network (lookup our_address route.swaps) token_network) next_hop
]

-- The loop over the routes: the first one on which the transfer can be sent on, with the reference
-- of its channel.
unfoldable pub try_routes :
    External
    → LockedTransferSignedState
    → NettingChannelState
    → ChannelMap
    → ℕ
    → ℕ
    → List RouteState
    → Outcome (Option (ℕ × Forwarded))
try_routes x transfer payer_channel m block_number draws [] = ok none
try_routes x transfer payer_channel m block_number draws (route ∷ routes) =
    let rest = try_routes x transfer payer_channel m block_number draws routes in
    elim (get_next_channel m payer_channel.our_state.address
      payer_channel.canonical_identifier.token_network_address route) [
        | none ↦ rest
        | some (r, payee_channel) ↦ (do
          forwarded ←
              forward_transfer_pair x transfer payer_channel payee_channel block_number draws
          elim forwarded [ none ↦ rest | some f ↦ ok (some (r, f)) ])
      ]

abbrev pub after_forward :
    LockedTransferSignedState
    → MediatorTransferState
    → ChannelMap
    → ℕ
    → Option (ℕ × Forwarded)
    → MediatorStep
after_forward transfer state m draws none = record {
  state = record state {
    waiting_transfer = some (record { transfer = transfer; state = WaitingState.waiting });
  };
  channels = m;
  events = [];
  draws = draws;
}
after_forward transfer state m draws (some (r, f)) = record {
  state = record state { transfers_pair = state.transfers_pair ++ f.pair ∷ [] };
  channels = set_channel m r f.channel;
  events = Event.send_locked_transfer f.event ∷ [];
  draws = draws + 1;
}

unfoldable pub mediate_transfer :
    External
    → MediatorTransferState
    → NettingChannelState
    → ChannelMap
    → LockedTransferSignedState
    → ℕ
    → ℕ
    → Outcome MediatorStep
mediate_transfer x state payer_channel m transfer block_number draws = do
  assert (payer_channel.partner_state.address == transfer.balance_proof.sender)
      Failure.not_signed_by_sender
  let routes =
      filter_acceptable_routes m state.routes state.refunded_channels
        payer_channel.canonical_identifier.token_network_address payer_channel.our_state.address
  forwarded ← try_routes x transfer payer_channel m block_number draws routes
  ok (after_forward transfer state m draws forwarded)
