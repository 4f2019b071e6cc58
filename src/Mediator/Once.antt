-- ===== src/Mediator/Once.antt =====
-- The mediator sends at most one transaction to register a secret.
use raiden_common.Channel.Locks.{get_lock}
use raiden_common.Channel.Status.{is_state_closed, get_status}
use raiden_common.Common.{
  ℕ, ◌+◌, ◌≤◌, ◌≡◌, inl, inr, Bool, List, [], ◌∷◌, arith, Bool-cases, Option-cases, length,
  length-append,
}
use raiden_common.Common.Outcome.{ok}
use raiden_common.Events.{Event}
use raiden_common.Mediator.{
  MediationPairState, is_pair_pending, get_payer_channel, payer_channels,
  has_secret_registration_started,
}
use raiden_common.Mediator.Onchain.{
  events_for_onchain_secretreveal_if_dangerzone, reveal_if_closed, reveal_closed_pairs,
  events_for_onchain_secretreveal_if_closed,
}
use raiden_common.Mediator.Reveals.{
  left, events_for_onchain_secretreveal-length, reveal_dangerzone_pairs-left,
}
use raiden_common.Routes.{ChannelMap}

reveal_if_closed-left :
    (m : ChannelMap) (secret secrethash block_hash : ℕ) (sent : Bool) (p : MediationPairState)
    → length (reveal_if_closed m secret secrethash block_hash sent p).1
        + left (reveal_if_closed m secret secrethash block_hash sent p).2
      ≤ left sent
unfolding reveal_if_closed
reveal_if_closed-left m secret secrethash block_hash sent p =
    elim (Bool-cases (is_pair_pending p)) [
      | inr final ↦ rw (final, reveal_if_closed) (omega arith)
      | inl pending ↦ elim (Option-cases (get_payer_channel m p)) [
        | inl e ↦ rw (pending, reveal_if_closed, e) (omega arith)
        | inr ((r, c), e) ↦ elim (Bool-cases (is_state_closed (get_status c))) [
          | inr other ↦ rw (pending, reveal_if_closed, e, other) (omega arith)
          | inl closed ↦ elim (Bool-cases sent) [
            | inl over ↦ rw (pending, reveal_if_closed, e, closed, over) (omega arith)
            | inr fresh ↦ elim (Option-cases (get_lock c.partner_state secrethash)) [
              | inl none_left ↦
                  rw (pending, reveal_if_closed, e, closed, fresh, none_left) (omega arith)
              | inr (lock, found) ↦
                  rw (pending, reveal_if_closed, e, closed, fresh, found)
                    (omega (
                      arith,
                      events_for_onchain_secretreveal-length c secret lock.expiration block_hash,
                    ))
            ]
          ]
        ]
      ]
    ]

reveal_closed_pairs-left :
    (m : ChannelMap) (secret secrethash block_hash : ℕ) (sent : Bool)
    (pairs : List MediationPairState)
    → length (reveal_closed_pairs m secret secrethash block_hash sent pairs).1
        + left (reveal_closed_pairs m secret secrethash block_hash sent pairs).2
      ≤ left sent
unfolding reveal_closed_pairs
reveal_closed_pairs-left m secret secrethash block_hash sent [] = omega arith
reveal_closed_pairs-left m secret secrethash block_hash sent (p ∷ pairs) =
    let first = reveal_if_closed m secret secrethash block_hash sent p in
    let rest = reveal_closed_pairs m secret secrethash block_hash first.2 pairs in
    rw (length-append first.1 rest.1) (
      omega (
        arith,
        reveal_if_closed-left m secret secrethash block_hash sent p,
        reveal_closed_pairs-left m secret secrethash block_hash first.2 pairs,
      ))

-- Whatever the pairs, a block at which locks are in danger, where its handling returns, and a secret
-- that is learned while channels are closed each lead to at most one transaction that registers the
-- secret, and to none if the secret is known on-chain at a payer's channel or a pair waits for a
-- registration.
pub events_for_onchain_secretreveal-at_most_one :
    (m : ChannelMap) (pairs pairs' : List MediationPairState)
    (secret secrethash block_number block_hash : ℕ) (events : List Event) (sent : Bool)
    → events_for_onchain_secretreveal_if_dangerzone m secrethash pairs block_number block_hash
      ≡ ok (pairs', events, sent)
    → (length events
        ≤ left (has_secret_registration_started (payer_channels m pairs) pairs secrethash))
      × (length (events_for_onchain_secretreveal_if_closed m pairs secret secrethash block_hash).1
          ≤ left (has_secret_registration_started (payer_channels m pairs) pairs secrethash))
unfolding events_for_onchain_secretreveal_if_dangerzone events_for_onchain_secretreveal_if_closed
events_for_onchain_secretreveal-at_most_one m pairs pairs' secret secrethash block_number block_hash
      events sent h =
    let started = has_secret_registration_started (payer_channels m pairs) pairs secrethash in
    (
      omega (
        arith,
        reveal_dangerzone_pairs-left m block_number block_hash started pairs pairs' events sent h,
      ),
      omega (arith, reveal_closed_pairs-left m secret secrethash block_hash started pairs),
    )
