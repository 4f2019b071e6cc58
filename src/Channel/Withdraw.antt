-- ===== src/Channel/Withdraw.antt =====
-- transfer/channel.py: withdraws and cooperative settlement. `pack_withdraw` of utils/packing.py
-- raises NotImplementedError; the definitions that call it take the packing function as an
-- argument, so that what they do with a working one can be stated too.
pub mod Validate
pub mod Totals
pub mod Order
pub mod Expired
use raiden_common.Channel.Balance.{get_next_nonce}
use raiden_common.Channel.Send.{header_to}
use raiden_common.Channel.Status.{
  is_prior_to_closed, get_status, started_at, get_sender_expiration_threshold, is_withdraw_expired,
}
use raiden_common.Common.{
  ℕ, ◌+◌, Bool, true, false, not, ◌&&◌, Option, none, some, List, [], ◌∷◌, ◌++◌, map, leb,
  if◌then◌else◌, ◌==◌, is_some, nat_eq,
}
use raiden_common.Common.Bytes.{Bytes, bytes_eq}
use raiden_common.Common.Dict.{contains, insert, erase}
use raiden_common.Common.Int.{ℤ, int_eq}
use raiden_common.Common.Outcome.{Failure, Outcome, ok, raised, assert, ◌>>=◌, ◌>>◌}
use raiden_common.Events.{Event, TransitionResult}
use raiden_common.External.{CanonicalIdentifier, External}
use raiden_common.State.{
  PendingWithdrawState, CoopSettleState, NettingChannelEndState, NettingChannelState,
  total_withdraw,
}

-- utils/packing.py
unfoldable pub pack_withdraw : CanonicalIdentifier → ℕ → ℤ → ℕ → Outcome Bytes
pack_withdraw canonical_identifier participant total_withdraw expiration =
    raised Failure.not_implemented

-- A handler that keeps the channel.
abbrev pub kept : NettingChannelState → List Event → ℕ → TransitionResult
kept channel_state events draws = record {
  new_state = some channel_state;
  events = events;
  draws = draws;
}

-- What a helper that changes the channel gives back.
pub record Step : Type 0 where
  pub channel : NettingChannelState
  pub events : List Event
  pub draws : ℕ

unfoldable pub send_withdraw_request :
    External → NettingChannelState → ℤ → ℕ → ℕ → Option ℕ → Bool → Step
unfolding get_status get_next_nonce
send_withdraw_request x channel_state amount expiration draws recipient_metadata coop_settle =
    let ours = channel_state.our_state in
    let nonce = get_next_nonce ours in
    if not (is_prior_to_closed (get_status channel_state))
    then record { channel = channel_state; events = []; draws = draws }
    else record {
      channel = record channel_state {
        our_state = record ours {
          nonce = nonce;
          withdraws_pending =
              insert amount
                (record {
                  total_withdraw = amount;
                  expiration = expiration;
                  nonce = nonce;
                  recipient_metadata = recipient_metadata;
                })
                ours.withdraws_pending;
        };
      };
      events =
          Event.send_withdraw_request
            (record {
              header = header_to channel_state recipient_metadata (x.randint draws);
              total_withdraw = amount;
              participant = ours.address;
              expiration = expiration;
              nonce = nonce;
            })
            coop_settle
          ∷ [];
      draws = draws + 1;
    }

-- `coop_settle is not None and` it has this amount and expiration.
abbrev pub is_coop_settle_of : Option CoopSettleState → PendingWithdrawState → Bool
is_coop_settle_of none w = false
is_coop_settle_of (some c) w =
    c.total_withdraw_initiator == w.total_withdraw && c.expiration == w.expiration

abbrev pub clear_coop_settle :
    Option CoopSettleState → PendingWithdrawState → Option CoopSettleState
clear_coop_settle c w = if is_coop_settle_of c w then none else c

-- The body of the loop for one expired withdraw, on our state.
unfoldable pub expire_withdraw :
    NettingChannelEndState → PendingWithdrawState → Outcome NettingChannelEndState
unfolding get_next_nonce
expire_withdraw ours w = do
  assert (contains w.total_withdraw ours.withdraws_pending) Failure.key_error
  ok (record ours {
    nonce = get_next_nonce ours;
    initiated_coop_settle = clear_coop_settle ours.initiated_coop_settle w;
    withdraws_expired =
        ours.withdraws_expired
        ++ (record {
          total_withdraw = w.total_withdraw;
          expiration = w.expiration;
          nonce = w.nonce;
          recipient_metadata = w.recipient_metadata;
        })
          ∷ [];
    withdraws_pending = erase w.total_withdraw ours.withdraws_pending;
  })

-- The loop of `events_for_expired_withdraws` over the pending withdraws; it stops at the first
-- that is not expired. Our state, the messages and the number of draws after it.
unfoldable pub expire_withdraws :
    External
    → NettingChannelState
    → ℕ
    → List PendingWithdrawState
    → NettingChannelEndState
    → ℕ
    → Outcome (NettingChannelEndState × List Event × ℕ)
unfolding is_withdraw_expired get_sender_expiration_threshold expire_withdraw
expire_withdraws x channel_state block_number [] ours draws = ok (ours, [], draws)
expire_withdraws x channel_state block_number (w ∷ ws) ours draws =
    elim (is_withdraw_expired block_number (get_sender_expiration_threshold w.expiration)) [
      | false ↦ ok (ours, [], draws)
      | true ↦ (do
        ours' ← expire_withdraw ours w
        (last, events, draws') ← expire_withdraws x channel_state block_number ws ours' (draws + 1)
        ok (
          last,
          Event.send_withdraw_expired (record {
            header = header_to channel_state w.recipient_metadata (x.randint draws);
            total_withdraw = w.total_withdraw;
            participant = ours.address;
            expiration = w.expiration;
            nonce = ours'.nonce;
          })
              ∷ events,
          draws',
        ))
    ]

unfoldable pub events_for_expired_withdraws : External → NettingChannelState → ℕ → ℕ → Outcome Step
unfolding expire_withdraws
events_for_expired_withdraws x channel_state block_number draws = do
  let ours = channel_state.our_state
  (ours', events, draws') ←
      expire_withdraws x channel_state block_number (map (λ e. e.1) ours.withdraws_pending) ours
        draws
  ok (record {
    channel = record channel_state { our_state = ours' };
    events = events;
    draws = draws';
  })

-- Both signatures of the partner are there, and there is time for the transaction:
-- `expiration >= block_number - reveal_timeout`.
abbrev pub is_ready_to_settle : NettingChannelState → CoopSettleState → ℕ → Bool
is_ready_to_settle channel_state c block_number =
    is_some c.partner_signature_request
    && is_some c.partner_signature_confirmation
    && leb block_number (c.expiration + channel_state.reveal_timeout)

abbrev pub signature_or_zero : Option ℕ → ℕ
signature_or_zero none = 0
signature_or_zero (some s) = s

-- `coop_settle_state` is the object that our state holds: it is written back there, with the
-- signature that the caller has just set.
unfoldable pub events_for_coop_settle : NettingChannelState → CoopSettleState → ℕ → ℕ → ℕ → Step
events_for_coop_settle channel_state c block_number block_hash draws =
    let set = λ (c' : CoopSettleState). record channel_state {
      our_state = record channel_state.our_state { initiated_coop_settle = some c' };
    } in
    if is_ready_to_settle channel_state c block_number
    then record {
      channel = set (record c { transaction = some (started_at block_number) });
      events =
          Event.contract_send_channel_coop_settle (record {
            canonical_identifier = channel_state.canonical_identifier;
            our_total_withdraw = c.total_withdraw_initiator;
            partner_total_withdraw = c.total_withdraw_partner;
            expiration = c.expiration;
            signature_our_withdraw = signature_or_zero c.partner_signature_confirmation;
            signature_partner_withdraw = signature_or_zero c.partner_signature_request;
            triggered_by_block_hash = block_hash;
          })
          ∷ [];
      draws = draws;
    }
    else record { channel = set c; events = []; draws = draws }
