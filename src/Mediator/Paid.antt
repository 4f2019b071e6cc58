-- ===== src/Mediator/Paid.antt =====
-- A transfer that is paid has a known secret: the first assertion of `sanity_check`.
use raiden_common.Channel.Withdraw.{kept}
use raiden_common.Common.{
  ℕ, ◌≡◌, refl, subst, ◌⊎◌, inl, inr, Bool, true, false, List, [], ◌∷◌, ◌++◌, arith, Bool-cases,
  is_some,
}
use raiden_common.Common.Outcome.{ok, >>=-eq-ok}
use raiden_common.Events.{Event}
use raiden_common.External.{External}
use raiden_common.Mediator.{
  PayerState, PayeeState, MediationPairState, MediatorTransferState, payee_is_paid, payer_is_paid,
  any_of,
}
use raiden_common.Mediator.Expire.{
  expire_pair, expire_pairs, Removals, remove_expired_lock, remove_expired_locks,
}
use raiden_common.Mediator.Onchain.{reveal_waits, reveal_in_dangerzone, reveal_dangerzone_pairs}
use raiden_common.Mediator.Sanity.{is_paid}
use raiden_common.Routes.{RouteState, ChannelMap}

-- Where one of the pairs is paid, the task knows the secret.
abbrev pub PaidIsKnown : MediatorTransferState → Type 0
PaidIsKnown state = any_of is_paid state.transfers_pair ≡ true → is_some state.secret ≡ true

-- No pair is newly paid.
abbrev pub NotMore : List MediationPairState → List MediationPairState → Type 0
NotMore new old = any_of is_paid new ≡ true → any_of is_paid old ≡ true

pub NotMore-cons :
    (p' p : MediationPairState) (new old : List MediationPairState)
    → (is_paid p' ≡ true → is_paid p ≡ true)
    → NotMore new old
    → NotMore (p' ∷ new) (p ∷ old)
NotMore-cons p' p new old h k e = elim (Bool-cases (is_paid p')) [
  | inl paid ↦ ground (arith, h paid)
  | inr unpaid ↦ ground (arith, k (ground arith))
]

pub NotMore-append_unpaid :
    (pairs : List MediationPairState) (p : MediationPairState)
    → is_paid p ≡ false
    → NotMore (pairs ++ p ∷ []) pairs
NotMore-append_unpaid [] p u e = ground arith
NotMore-append_unpaid (q ∷ pairs) p u e = elim (Bool-cases (is_paid q)) [
  | inl paid ↦ ground arith
  | inr unpaid ↦ ground (arith, NotMore-append_unpaid pairs p u (ground arith))
]

-- A payer whose state is not `balance_proof` is not paid.
pub unpay_payer :
    (p : MediationPairState) (s : PayerState)
    → payer_is_paid s ≡ false
    → is_paid (record p { payer_state = s }) ≡ true
    → is_paid p ≡ true
unpay_payer p s u e = ground arith

unpay_payee :
    (p : MediationPairState) (s : PayeeState)
    → payee_is_paid s ≡ false
    → is_paid (record p { payee_state = s }) ≡ true
    → is_paid p ≡ true
unpay_payee p s u e = ground arith

expire_pair-unpaid :
    (m : ChannelMap) (block_number : ℕ) (p : MediationPairState)
    → is_paid (expire_pair m block_number p).0 ≡ true
    → is_paid p ≡ true
unfolding expire_pair
expire_pair-unpaid m block_number p e = ground arith

pub expire_pairs-NotMore :
    (m : ChannelMap) (block_number : ℕ) (pairs : List MediationPairState)
    → NotMore (expire_pairs m block_number pairs).0 pairs
unfolding expire_pairs
expire_pairs-NotMore m block_number [] = λ e. e
expire_pairs-NotMore m block_number (p ∷ pairs) =
    NotMore-cons (expire_pair m block_number p).0 p (expire_pairs m block_number pairs).0 pairs
      (expire_pair-unpaid m block_number p) (expire_pairs-NotMore m block_number pairs)

-- A round leaves the pair, or lets its payer wait for the secret on-chain.
pub reveal_in_dangerzone-cases :
    (m : ChannelMap) (block_number block_hash : ℕ) (sent : Bool) (p p' : MediationPairState)
    (events : List Event) (sent' : Bool)
    → reveal_in_dangerzone m block_number block_hash sent p ≡ ok (p', events, sent')
    → (p' ≡ p) ⊎ (p' ≡ reveal_waits p)
unfolding reveal_in_dangerzone
reveal_in_dangerzone-cases m block_number block_hash sent p p' events sent' h = ground arith

reveal_in_dangerzone-unpaid :
    (m : ChannelMap) (block_number block_hash : ℕ) (sent : Bool) (p p' : MediationPairState)
    (events : List Event) (sent' : Bool)
    → reveal_in_dangerzone m block_number block_hash sent p ≡ ok (p', events, sent')
    → is_paid p' ≡ true
    → is_paid p ≡ true
unfolding reveal_in_dangerzone
reveal_in_dangerzone-unpaid m block_number block_hash sent p p' events sent' h e =
    elim (reveal_in_dangerzone-cases m block_number block_hash sent p p' events sent' h) [
      | inl same ↦ rw (← same) e
      | inr same ↦
          unpay_payer p PayerState.waiting_secret_reveal refl (subst (λ q. is_paid q ≡ true) same e)
    ]

pub reveal_dangerzone_pairs-NotMore :
    (m : ChannelMap) (block_number block_hash : ℕ) (sent : Bool)
    (pairs pairs' : List MediationPairState) (events : List Event) (sent' : Bool)
    → reveal_dangerzone_pairs m block_number block_hash sent pairs ≡ ok (pairs', events, sent')
    → NotMore pairs' pairs
unfolding reveal_dangerzone_pairs
reveal_dangerzone_pairs-NotMore m block_number block_hash sent [] pairs' events sent' h =
    λ e. ground arith
reveal_dangerzone_pairs-NotMore m block_number block_hash sent (p ∷ pairs) pairs' events sent' h =
    let ((q, es, s), first, h1) =
      >>=-eq-ok (reveal_in_dangerzone m block_number block_hash sent p) _ h in
    let ((qs, more, t), rest, h2) =
      >>=-eq-ok (reveal_dangerzone_pairs m block_number block_hash s pairs) _ h1 in
    let same : q ∷ qs ≡ pairs' = cc in
    subst (λ l. NotMore l (p ∷ pairs)) same
      (NotMore-cons q p qs pairs
        (reveal_in_dangerzone-unpaid m block_number block_hash sent p q es s first)
        (reveal_dangerzone_pairs-NotMore m block_number block_hash s pairs qs more t rest))

remove_expired_lock-cases :
    (x : External) (secrethash block_number : ℕ) (routes : List RouteState) (p : MediationPairState)
    (m : ChannelMap) (draws : ℕ) (first : Removals)
    → remove_expired_lock x secrethash block_number routes p m draws ≡ ok first
    → (first.pairs ≡ p ∷ []) ⊎ (first.pairs ≡ record p { payee_state = PayeeState.expired } ∷ [])
unfolding remove_expired_lock
remove_expired_lock-cases x secrethash block_number routes p m draws first h = ground arith

pub remove_expired_locks-NotMore :
    (x : External) (secrethash block_number : ℕ) (routes : List RouteState)
    (pairs : List MediationPairState) (m : ChannelMap) (draws : ℕ) (done : Removals)
    → remove_expired_locks x secrethash block_number routes pairs m draws ≡ ok done
    → NotMore done.pairs pairs
unfolding remove_expired_locks
remove_expired_locks-NotMore x secrethash block_number routes [] m draws done h = λ e. ground arith
remove_expired_locks-NotMore x secrethash block_number routes (p ∷ pairs) m draws done h =
    let (first, e1, h1) =
      >>=-eq-ok (remove_expired_lock x secrethash block_number routes p m draws) _ h in
    let (rest, e2, h2) =
      >>=-eq-ok
        (remove_expired_locks x secrethash block_number routes pairs first.channels first.draws) _
        h1 in
    let same : first.pairs ++ rest.pairs ≡ done.pairs = cc in
    let fewer =
      remove_expired_locks-NotMore x secrethash block_number routes pairs first.channels first.draws
        rest e2 in
    subst (λ l. NotMore l (p ∷ pairs)) same
      (elim (remove_expired_lock-cases x secrethash block_number routes p m draws first e1) [
        | inl kept ↦ rw kept (NotMore-cons p p rest.pairs pairs (λ e. e) fewer)
        | inr gone ↦ rw gone (
            NotMore-cons (record p { payee_state = PayeeState.expired }) p rest.pairs pairs
              (unpay_payee p PayeeState.expired refl) fewer)
      ])
