-- ===== src/Routes.antt =====
-- transfer/state.py: `HopState`, `RouteState` and `get_address_metadata`; and transfer/routes.py.
-- `addresses_to_channel` and `channelidentifiers_to_channels` hold the same channel objects, which
-- the handlers change in place: the objects are kept in one store under a reference, and both
-- dictionaries hold references.
use raiden_common.Common.{
  ℕ, Bool, false, not, ◌&&◌, Option, none, some, List, [], ◌∷◌, if◌then◌else◌, ◌==◌, list_contains,
  or_else, nat_eq,
}
use raiden_common.Common.Bytes.{bytes_eq}
use raiden_common.Common.Dict.{Dict, lookup, insert}
use raiden_common.Common.Int.{ℤ, int_eq}
use raiden_common.State.{NettingChannelState}

pub record HopState : Type 0 where
  pub node_address : ℕ
  pub channel_identifier : ℕ

pub record RouteState : Type 0 where
  pub route : List ℕ
  pub address_to_metadata : Dict ℕ ℕ
  pub swaps : Dict ℕ ℕ
  pub estimated_fee : ℤ

-- The address behind the first occurrence of the given one.
unfoldable pub next_address : ℕ → List ℕ → Option ℕ
next_address address [] = none
next_address address (a ∷ []) = none
next_address address (a ∷ b ∷ route) =
    if a == address then some b else next_address address (b ∷ route)

unfoldable pub hop_after : RouteState → ℕ → Option ℕ
unfolding next_address
hop_after r address = next_address address r.route

unfoldable pub get_address_metadata : ℕ → List RouteState → Option ℕ
unfolding lookup
get_address_metadata address [] = none
get_address_metadata address (r ∷ route_states) =
    or_else (lookup address r.address_to_metadata) (get_address_metadata address route_states)

-- The channels by reference, and the references by channel identifier (of one token network), and
-- by token network and address of the partner.
pub record ChannelMap : Type 0 where
  pub store : Dict ℕ NettingChannelState
  pub by_identifier : Dict ℕ ℕ
  pub by_address : List (ℕ × ℕ × ℕ)

abbrev pub dereference : Dict ℕ NettingChannelState → Option ℕ → Option (ℕ × NettingChannelState)
dereference store none = none
dereference store (some r) = elim (lookup r store) [ none ↦ none | some c ↦ some (r, c) ]

-- `channelidentifiers_to_channels.get(channel_identifier)`, with the reference.
unfoldable pub get_channel : ChannelMap → ℕ → Option (ℕ × NettingChannelState)
unfolding lookup
get_channel m channel_identifier = dereference m.store (lookup channel_identifier m.by_identifier)

unfoldable pub find_reference : ℕ → ℕ → List (ℕ × ℕ × ℕ) → Option ℕ
find_reference token_network address [] = none
find_reference token_network address ((t, a, r) ∷ rest) =
    if t == token_network && a == address then some r else find_reference token_network address rest

-- `addresses_to_channel.get((token_network, address))`
unfoldable pub get_channel_to : ChannelMap → ℕ → ℕ → Option (ℕ × NettingChannelState)
unfolding lookup find_reference
get_channel_to m token_network address =
    dereference m.store (find_reference token_network address m.by_address)

-- The channel object is changed in place.
unfoldable pub set_channel : ChannelMap → ℕ → NettingChannelState → ChannelMap
unfolding insert
set_channel m r c = record m { store = insert r c m.store }

-- Whether the route leads on to a channel that is not in the list.
unfoldable pub is_acceptable : ChannelMap → List ℕ → ℕ → ℕ → RouteState → Bool
unfolding hop_after get_channel_to list_contains
is_acceptable m blacklisted_channel_ids token_network our_address route =
    elim (hop_after route our_address) [
      | none ↦ false
      | some next_hop ↦ elim (get_channel_to m token_network next_hop) [
        | none ↦ false
        | some (r, c) ↦
            not (list_contains c.canonical_identifier.channel_identifier blacklisted_channel_ids)
      ]
    ]

unfoldable pub filter_acceptable_routes :
    ChannelMap → List RouteState → List ℕ → ℕ → ℕ → List RouteState
unfolding is_acceptable
filter_acceptable_routes m [] blacklisted_channel_ids token_network our_address = []
filter_acceptable_routes m (route ∷ rest) blacklisted_channel_ids token_network our_address =
    let routes =
      filter_acceptable_routes m rest blacklisted_channel_ids token_network our_address in
    if is_acceptable m blacklisted_channel_ids token_network our_address route
    then route ∷ routes
    else routes
