-- ===== src/Mediator/Onchain.antt =====
-- mediator.py: the secret is registered on-chain, and locks expire.
use raiden_common.Channel.Locks.{is_ok, is_secret_known, get_secret, get_lock}
use raiden_common.Channel.Status.{is_state_closed, get_status}
use raiden_common.Common.{
  ℕ, Bool, true, false, not, ◌&&◌, Option, none, some, List, [], ◌∷◌, ◌++◌, if◌then◌else◌,
}
use raiden_common.Common.Outcome.{Outcome, ok, ◌>>=◌}
use raiden_common.Events.{Event}
use raiden_common.Mediator.{
  PayerState, MediationPairState, is_pair_pending, get_payer_channel, payer_channels,
  has_secret_registration_started,
}
use raiden_common.Routes.{ChannelMap}
use raiden_common.SecretRegistry.{events_for_onchain_secretreveal, require_secret, is_safe_to_wait}
use raiden_common.State.{NettingChannelState}

abbrev pub found_secret : NettingChannelState → ℕ → Outcome ℕ
found_secret c secrethash = require_secret (get_secret c.partner_state secrethash)

-- Pairs, events, and whether a transaction was sent.
abbrev pub Reveals : Type 0
Reveals = List MediationPairState × List Event × Bool

abbrev pub prepend : MediationPairState → List Event → Reveals → Reveals
prepend p events (pairs, more, sent) = (p ∷ pairs, events ++ more, sent)

abbrev pub reveal_waits : MediationPairState → MediationPairState
reveal_waits p = record p { payer_state = PayerState.waiting_secret_reveal }

-- Whether the pair is pending, its payer channel is there, its lock is near its expiration and the
-- secret is known: then the payer channel.
unfoldable pub in_dangerzone :
    ChannelMap → ℕ → MediationPairState → Outcome (Option NettingChannelState)
in_dangerzone m block_number p =
    if is_pair_pending p
    then (elim (get_payer_channel m p) [
      | none ↦ ok none
      | some (r, c) ↦ (do
        safe ← is_safe_to_wait p.payer_transfer.lock.expiration c.reveal_timeout block_number
        ok (
            if not (is_ok safe) && is_secret_known c.partner_state p.payer_transfer.lock.secrethash
            then some c
            else none))
    ])
    else ok none

-- One round of the loop: the changed pair, its events, and whether a transaction was sent by now.
unfoldable pub reveal_in_dangerzone :
    ChannelMap
    → ℕ
    → ℕ
    → Bool
    → MediationPairState
    → Outcome (MediationPairState × List Event × Bool)
reveal_in_dangerzone m block_number block_hash sent p = do
  endangered ← in_dangerzone m block_number p
  elim endangered [
    | none ↦ ok (p, [], sent)
    | some c ↦ if sent then ok (reveal_waits p, [], true) else (do
      secret ← found_secret c p.payer_transfer.lock.secrethash
      ok (
        reveal_waits p,
        events_for_onchain_secretreveal c secret p.payer_transfer.lock.expiration block_hash,
        true,
      ))
  ]

unfoldable pub reveal_dangerzone_pairs :
    ChannelMap → ℕ → ℕ → Bool → List MediationPairState → Outcome Reveals
reveal_dangerzone_pairs m block_number block_hash sent [] = ok ([], [], sent)
reveal_dangerzone_pairs m block_number block_hash sent (p ∷ pairs) = do
  (p', events, sent') ← reveal_in_dangerzone m block_number block_hash sent p
  rest ← reveal_dangerzone_pairs m block_number block_hash sent' pairs
  ok (prepend p' events rest)

unfoldable pub events_for_onchain_secretreveal_if_dangerzone :
    ChannelMap → ℕ → List MediationPairState → ℕ → ℕ → Outcome Reveals
events_for_onchain_secretreveal_if_dangerzone m secrethash pairs block_number block_hash =
    reveal_dangerzone_pairs m block_number block_hash
      (has_secret_registration_started (payer_channels m pairs) pairs secrethash) pairs

-- One round of the loop over the pairs whose payer channel is closed.
unfoldable pub reveal_if_closed :
    ChannelMap → ℕ → ℕ → ℕ → Bool → MediationPairState → MediationPairState × List Event × Bool
reveal_if_closed m secret secrethash block_hash sent p =
    if is_pair_pending p
    then (elim (get_payer_channel m p) [
      | none ↦ (p, [], sent)
      | some (r, c) ↦
          if is_state_closed (get_status c)
          then (if sent
              then (reveal_waits p, [], true)
              else elim (get_lock c.partner_state secrethash) [
                | none ↦ (reveal_waits p, [], false)
                | some lock ↦ (
                  reveal_waits p,
                  events_for_onchain_secretreveal c secret lock.expiration block_hash,
                  true,
                )
              ])
          else (p, [], sent)
    ])
    else (p, [], sent)

unfoldable pub reveal_closed_pairs :
    ChannelMap → ℕ → ℕ → ℕ → Bool → List MediationPairState → Reveals
reveal_closed_pairs m secret secrethash block_hash sent [] = ([], [], sent)
reveal_closed_pairs m secret secrethash block_hash sent (p ∷ pairs) =
    let (p', events, sent') = reveal_if_closed m secret secrethash block_hash sent p in
    prepend p' events (reveal_closed_pairs m secret secrethash block_hash sent' pairs)

unfoldable pub events_for_onchain_secretreveal_if_closed :
    ChannelMap → List MediationPairState → ℕ → ℕ → ℕ → Reveals
events_for_onchain_secretreveal_if_closed m pairs secret secrethash block_hash =
    reveal_closed_pairs m secret secrethash block_hash
      (has_secret_registration_started (payer_channels m pairs) pairs secrethash) pairs
