-- ===== src/Channel/Receive/Removed.antt =====
-- The cases of the handlers of unlocks and expired locks, and the invariant of the partner's side.
use raiden_common.Channel.Invariant.{IsSound, install, current-locked_amount}
use raiden_common.Channel.Invariant.Remove.{without_lock, without_lock-IsSound}
use raiden_common.Channel.Locks.{is_lock_pending, get_lock, del_unclaimed_lock, del_lock}
use raiden_common.Channel.Receive.{
  processed, Handled, refused, accept_balance_proof, handle_receive_lock_expired, handle_unlock,
}
use raiden_common.Channel.Receive.Sound.{Refuses, Accepts}
use raiden_common.Channel.Validate.{expiring_lock, is_valid_lock_expired, is_valid_unlock}
use raiden_common.Channel.Validate.Accepted.{LocksOrError-cases}
use raiden_common.Channel.Validate.Removal.{
  AcceptsRemoval, is_valid_unlock-known, is_valid_unlock-AcceptsRemoval,
  is_valid_lock_expired-known, is_valid_lock_expired-AcceptsRemoval,
}
use raiden_common.Common.{
  ℕ, ◌+◌, ◌≤◌, ◌≡◌, refl, ◌∙◌, ◌⊎◌, inl, inr, true, false, Option, none, some, [], ◌∷◌, arith,
  nat_eq,
}
use raiden_common.Common.Bytes.{bytes_eq}
use raiden_common.Common.Dict.{lookup, contains, erase-absent}
use raiden_common.Common.Int.{int_eq}
use raiden_common.Common.Outcome.{ok}
use raiden_common.Events.{Event, ReceiveUnlock, ReceiveLockExpired}
use raiden_common.External.{External}
use raiden_common.State.{
  default_number_of_block_confirmations, HashTimeLockState, BalanceProofSignedState,
  BalanceProofState, signed, PendingLocksState, NettingChannelEndState, NettingChannelState,
}

pub get_lock-pending :
    (s : NettingChannelEndState) (h : ℕ) {lock : HashTimeLockState}
    → get_lock s h ≡ some lock
    → is_lock_pending s h ≡ true
unfolding get_lock is_lock_pending
get_lock-pending s h e = ground arith

-- `_del_lock` succeeds where the lock is known.
pub del_lock-known :
    (s : NettingChannelEndState) (h : ℕ) {lock : HashTimeLockState}
    → get_lock s h ≡ some lock
    → del_lock s h ≡ ok (without_lock s h)
unfolding del_lock del_unclaimed_lock
del_lock-known s h e = rw (get_lock-pending s h e)

pub get_lock-install :
    (s : NettingChannelEndState) (b : BalanceProofState) (locks : PendingLocksState) (h : ℕ)
    → get_lock (install s b locks) h ≡ get_lock s h
unfolding get_lock
get_lock-install s b locks h = refl

-- The handler of unlocks never raises: it refuses the message, or takes the lock from everywhere.
pub unlock_cases :
    (x : External) (c : NettingChannelState) (u : ReceiveUnlock) (m : Option ℕ)
    → (r : Handled) × (handle_unlock x c u m ≡ ok r)
      × (Refuses c r
          ⊎ ((lock : HashTimeLockState) × (locks : PendingLocksState) × (get_lock c.partner_state
                  u.secrethash
                ≡ some lock)
              × AcceptsRemoval x c c.partner_state u.balance_proof lock lock.amount locks
              × Accepts c r (
                  without_lock
                    (accept_balance_proof c.partner_state u.balance_proof locks)
                    u.secrethash)))
unfolding handle_unlock accept_balance_proof
unlock_cases x c u m = elim (LocksOrError-cases (is_valid_unlock x u c c.partner_state)) [
  | inl (r, e) ↦ (
    refused c (Event.invalid_received_unlock u.secrethash r),
    rw (e, handle_unlock) refl,
    inl (refl, refl, refl),
  )
  | inr (locks, e) ↦
      let known = is_valid_unlock-known x u c c.partner_state locks e in
      let deleted =
        del_lock-known (accept_balance_proof c.partner_state u.balance_proof locks) u.secrethash (
          get_lock-install c.partner_state (signed u.balance_proof) locks u.secrethash ∙ known.1) in
      (
        record {
          is_valid = true;
          channel = record c {
            partner_state =
                without_lock (accept_balance_proof c.partner_state u.balance_proof locks)
                  u.secrethash;
          };
          events = processed u.balance_proof.sender m u.message_identifier ∷ [];
        },
        rw (e, handle_unlock, deleted) refl,
        inr (
          known.0,
          locks,
          known.1,
          is_valid_unlock-AcceptsRemoval x u c c.partner_state known.0 locks known.1 e,
          (refl, refl, refl),
        ),
      )
]

expiring_lock-get_lock :
    (s : NettingChannelEndState) (h : ℕ) {lock : HashTimeLockState}
    → expiring_lock s h ≡ some lock
    → get_lock s h ≡ some lock
unfolding expiring_lock get_lock
expiring_lock-get_lock s h e = ground arith

pub del_unclaimed_lock-without_lock :
    (s : NettingChannelEndState) (h : ℕ)
    → contains h s.secrethashes_to_onchain_unlockedlocks ≡ false
    → del_unclaimed_lock s h ≡ without_lock s h
unfolding del_unclaimed_lock
del_unclaimed_lock-without_lock s h e = rw (erase-absent h _ absent)
  where
    absent : lookup h s.secrethashes_to_onchain_unlockedlocks ≡ none
    absent = ground arith

-- An expired lock is refused, or it is known, not unlocked on-chain, has been expired for five
-- blocks, and is taken from everywhere.
pub lock_expired_cases :
    (x : External) (c : NettingChannelState) (e : ReceiveLockExpired) (block_number : ℕ)
    (m : Option ℕ)
    → Refuses c (handle_receive_lock_expired x c e block_number m)
      ⊎ ((lock : HashTimeLockState) × (locks : PendingLocksState) × (get_lock c.partner_state
              e.secrethash
            ≡ some lock)
          × (lock.expiration + default_number_of_block_confirmations ≤ block_number)
          × AcceptsRemoval x c c.partner_state e.balance_proof lock 0 locks
          × Accepts c (handle_receive_lock_expired x c e block_number m) (
              without_lock
                (accept_balance_proof c.partner_state e.balance_proof locks)
                e.secrethash))
unfolding handle_receive_lock_expired accept_balance_proof
lock_expired_cases x c e block_number m =
    elim (LocksOrError-cases
      (is_valid_lock_expired x e c c.partner_state c.our_state block_number)) [
        | inl (r, q) ↦ inl (rw (q, handle_receive_lock_expired) (refl, refl, refl))
        | inr (locks, q) ↦
            let known =
              is_valid_lock_expired-known x e c c.partner_state c.our_state block_number locks q in
            let facts =
              is_valid_lock_expired-AcceptsRemoval x e c c.partner_state c.our_state block_number
                known.0 locks known.1 q in
            let deleted =
              del_unclaimed_lock-without_lock
                (accept_balance_proof c.partner_state e.balance_proof locks) e.secrethash facts.1 in
            inr (
              known.0,
              locks,
              expiring_lock-get_lock c.partner_state e.secrethash known.1,
              facts.2,
              facts.0,
              rw (q, handle_receive_lock_expired) (refl, accepted c deleted, refl),
            )
      ]
  where
    accepted :
        (c : NettingChannelState) {a b : NettingChannelEndState}
        → a ≡ b
        → record c { partner_state = a } ≡ record c { partner_state = b }
    accepted c p = λ i. record c { partner_state = p i }

pub removed-IsSound :
    (x : External) (c : NettingChannelState) (s : NettingChannelEndState)
    (b : BalanceProofSignedState) (h : ℕ) (lock : HashTimeLockState) (moved : ℕ)
    (locks : PendingLocksState)
    → get_lock s h ≡ some lock
    → AcceptsRemoval x c s b lock moved locks
    → IsSound x s
    → IsSound x (without_lock (accept_balance_proof s b locks) h)
unfolding accept_balance_proof
removed-IsSound x c s b h lock moved locks known a sound = rw a.removed (
    without_lock-IsSound s h lock x (signed b) sound known
      (omega (arith, a.locked, current-locked_amount x s sound)) (rw (← a.removed) a.root))

-- An unlock message, accepted or not, leaves the partner's side sound, and its handler does not
-- raise.
pub handle_unlock-IsSound :
    (x : External) (c : NettingChannelState) (u : ReceiveUnlock) (m : Option ℕ)
    → IsSound x c.partner_state
    → (r : Handled) × (handle_unlock x c u m ≡ ok r) × IsSound x r.channel.partner_state
handle_unlock-IsSound x c u m sound =
    let (r, e, cases) = unlock_cases x c u m in
    (
      r,
      e,
      elim cases [
        | inl refusal ↦ rw refusal.1 sound
        | inr (lock, locks, known, a, after) ↦ rw after.1 (
            removed-IsSound x c c.partner_state u.balance_proof u.secrethash lock lock.amount locks
              known a sound)
      ],
    )

-- An expired lock, accepted or not, leaves the partner's side sound.
pub handle_receive_lock_expired-IsSound :
    (x : External) (c : NettingChannelState) (e : ReceiveLockExpired) (block_number : ℕ)
    (m : Option ℕ)
    → IsSound x c.partner_state
    → IsSound x (handle_receive_lock_expired x c e block_number m).channel.partner_state
handle_receive_lock_expired-IsSound x c e block_number m sound =
    elim (lock_expired_cases x c e block_number m) [
      | inl refusal ↦ rw refusal.1 sound
      | inr (lock, locks, known, _, a, after) ↦ rw after.1 (
          removed-IsSound x c c.partner_state e.balance_proof e.secrethash lock 0 locks known a
            sound)
    ]
