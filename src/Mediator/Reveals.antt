-- ===== src/Mediator/Reveals.antt =====
-- How often, and to whom, the mediator reveals a secret.
use mathlib.Core.List.{reverse, reverse_aux, reverse-append}
use raiden_common.Common.{
  ℕ, suc, ◌+◌, ◌≤◌, ◌≡◌, refl, ap, subst, inl, inr, Bool, true, false, List, [], ◌∷◌, ◌++◌, map,
  arith, if◌then◌else◌, Bool-cases, Option-cases, length, length-append,
}
use raiden_common.Common.Outcome.{ok, >>=-eq-ok, ok-injective}
use raiden_common.Events.{LockedTransferSignedState, Event}
use raiden_common.External.{External}
use raiden_common.Mediator.{PayerState, MediationPairState}
use raiden_common.Mediator.Onchain.{
  found_secret, Reveals, in_dangerzone, reveal_in_dangerzone, reveal_dangerzone_pairs,
}
use raiden_common.Mediator.Secrets.{should_send_secret, reveal_to_payer, events_for_secretreveal}
use raiden_common.Routes.{ChannelMap}
use raiden_common.SecretRegistry.{events_for_onchain_secretreveal}
use raiden_common.State.{NettingChannelState}

-- The payers of the pairs that should be informed, in the order of the pairs.
abbrev pub uninformed_payers : List MediationPairState → List LockedTransferSignedState
uninformed_payers [] = []
uninformed_payers (p ∷ pairs) =
    let rest = uninformed_payers pairs in
    if should_send_secret p then p.payer_transfer ∷ rest else rest

-- One message for each transfer, with consecutive message identifiers.
abbrev pub reveal_to_payers : External → ℕ → ℕ → List LockedTransferSignedState → List Event
reveal_to_payers x secret draws [] = []
reveal_to_payers x secret draws (t ∷ transfers) =
    reveal_to_payer x t secret draws ∷ reveal_to_payers x secret (draws + 1) transfers

abbrev pub informed : MediationPairState → MediationPairState
informed p =
    if should_send_secret p then record p { payer_state = PayerState.secret_revealed } else p

reveal_to_payers-append :
    (x : External) (secret draws : ℕ) (ts : List LockedTransferSignedState)
    (t : LockedTransferSignedState)
    → reveal_to_payers x secret draws (ts ++ t ∷ [])
      ≡ reveal_to_payers x secret draws ts ++ reveal_to_payer x t secret (draws + length ts) ∷ []
reveal_to_payers-append x secret draws [] t =
    let same : draws ≡ draws + 0 = omega arith in
    ap (λ (d : ℕ). reveal_to_payer x t secret d ∷ []) same
reveal_to_payers-append x secret draws (u ∷ ts) t =
    let shift : draws + 1 + length ts ≡ draws + suc (length ts) = omega arith in
    rw (reveal_to_payers-append x secret (draws + 1) ts t, shift) refl

length-reverse_aux {ℓ} :
    {A : Type ℓ} (xs ys : List A) → length (reverse_aux xs ys) ≡ length xs + length ys
length-reverse_aux [] ys = omega arith
length-reverse_aux (x ∷ xs) ys = omega (arith, length-reverse_aux xs (x ∷ ys))

-- The loop over the pairs from the last to the first does what it does in one go: it informs the
-- payers of exactly those pairs whose payee knows the secret and whose payer waits, the last one
-- first, each with a fresh message identifier, and marks those pairs only.
pub events_for_secretreveal-reference :
    (x : External) (secret : ℕ) (pairs : List MediationPairState) (draws : ℕ)
    → events_for_secretreveal x secret pairs draws ≡ (
      map informed pairs,
      reveal_to_payers x secret draws (reverse (uninformed_payers pairs)),
      draws + length (uninformed_payers pairs),
    )
unfolding events_for_secretreveal
events_for_secretreveal-reference x secret [] draws =
    let same : draws ≡ draws + 0 = omega arith in λ i. ([], [], same i)
events_for_secretreveal-reference x secret (p ∷ pairs) draws =
    elim (Bool-cases (should_send_secret p)) [
      | inl sends ↦
          let ts = uninformed_payers pairs in
          rw
            (
              events_for_secretreveal-reference x secret pairs draws,
              sends,
              reverse-append (p.payer_transfer ∷ []) ts,
              reveal_to_payers-append x secret draws (reverse ts) p.payer_transfer,
              length-reverse_aux ts [],
            )
            (λ i. (
              record p { payer_state = PayerState.secret_revealed } ∷ map informed pairs,
              reveal_to_payers x secret draws (reverse ts)
                  ++ reveal_to_payer x p.payer_transfer secret (next_draw (length ts) i) ∷ [],
              total (length ts) i,
            ))
      | inr silent ↦ rw (events_for_secretreveal-reference x secret pairs draws, silent) refl
    ]
  where
    next_draw : (n : ℕ) → draws + n ≡ draws + (n + 0)
    next_draw n = omega arith

    total : (n : ℕ) → draws + n + 1 ≡ draws + suc n
    total n = omega arith

-- How many transactions may still be sent: none after the first.
abbrev pub left : Bool → ℕ
left true = 0
left false = 1

pub events_for_onchain_secretreveal-length :
    (c : NettingChannelState) (secret expiration block_hash : ℕ)
    → length (events_for_onchain_secretreveal c secret expiration block_hash) ≤ 1
unfolding events_for_onchain_secretreveal
events_for_onchain_secretreveal-length c secret expiration block_hash = ground arith

reveal_in_dangerzone-left :
    (m : ChannelMap) (block_number block_hash : ℕ) (sent : Bool) (p p' : MediationPairState)
    (events : List Event) (sent' : Bool)
    → reveal_in_dangerzone m block_number block_hash sent p ≡ ok (p', events, sent')
    → length events + left sent' ≤ left sent
unfolding reveal_in_dangerzone
reveal_in_dangerzone-left m block_number block_hash sent p p' events sent' h =
    let (endangered, _, h1) = >>=-eq-ok (in_dangerzone m block_number p) _ h in
    elim (Option-cases endangered) [
      | inl e ↦ round p' events sent' [] sent (omega arith) (ok-injective (rw e at h1))
      | inr (c, e) ↦ elim (Bool-cases sent) [
        | inl over ↦
            rw over
              (round p' events sent' [] true (omega arith) (ok-injective (rw (e, over) at h1)))
        | inr fresh ↦
            let (secret, _, h2) =
              >>=-eq-ok (found_secret c p.payer_transfer.lock.secrethash) _ (rw (e, fresh) at h1) in
            rw fresh (
              round p' events sent'
                (events_for_onchain_secretreveal c secret p.payer_transfer.lock.expiration
                  block_hash)
                true
                (omega (
                  arith,
                  events_for_onchain_secretreveal-length c secret p.payer_transfer.lock.expiration
                      block_hash,
                ))
                (ok-injective h2))
      ]
    ]
  where
    round :
        (p' : MediationPairState) (events : List Event) (sent' : Bool) (es : List Event) (s : Bool)
        {n : ℕ} {q : MediationPairState}
        → length es + left s ≤ n
        → ◌≡◌ {A = MediationPairState × List Event × Bool} (q, es, s) (p', events, sent')
        → length events + left sent' ≤ n
    round p' events sent' es s {n = n} bound e =
        subst (λ (r : MediationPairState × List Event × Bool). length r.1 + left r.2 ≤ n) e bound

pub reveal_dangerzone_pairs-left :
    (m : ChannelMap) (block_number block_hash : ℕ) (sent : Bool)
    (pairs pairs' : List MediationPairState) (events : List Event) (sent' : Bool)
    → reveal_dangerzone_pairs m block_number block_hash sent pairs ≡ ok (pairs', events, sent')
    → length events + left sent' ≤ left sent
unfolding reveal_dangerzone_pairs
reveal_dangerzone_pairs-left m block_number block_hash sent [] pairs' events sent' h = ground arith
reveal_dangerzone_pairs-left m block_number block_hash sent (p ∷ pairs) pairs' events sent' h =
    let ((q, es, s), first, h1) =
      >>=-eq-ok (reveal_in_dangerzone m block_number block_hash sent p) _ h in
    let ((qs, more, t), rest, h2) =
      >>=-eq-ok (reveal_dangerzone_pairs m block_number block_hash s pairs) _ h1 in
    let same : es ++ more ≡ events = ap (λ (r : Reveals). r.1) (ok-injective h2) in
    let flag : t ≡ sent' = ap (λ (r : Reveals). r.2) (ok-injective h2) in
    rw (← same, ← flag, length-append es more)
      (omega (
        arith,
        reveal_in_dangerzone-left m block_number block_hash sent p q es s first,
        reveal_dangerzone_pairs-left m block_number block_hash s pairs qs more t rest,
      ))
