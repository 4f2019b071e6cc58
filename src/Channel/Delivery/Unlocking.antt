-- ===== src/Channel/Delivery/Unlocking.antt =====
-- An unlock from one node to the other.
use raiden_common.Channel.Balance.{get_amount_locked, transferred_of, get_current_balanceproof}
use raiden_common.Channel.Delivery.{Mirrors, IsUsable-success}
use raiden_common.Channel.Invariant.{IsSynced, IsSound, current-locked_amount}
use raiden_common.Channel.Invariant.Moves.{transferred-current}
use raiden_common.Channel.Invariant.Remove.{without_lock, without_lock-amount}
use raiden_common.Channel.Locks.{get_lock, compute_locks_without, compute_locksroot}
use raiden_common.Channel.Receive.{processed, Handled, accept_balance_proof, handle_unlock}
use raiden_common.Channel.Receive.Removed.{del_lock-known, get_lock-install}
use raiden_common.Channel.Sanity.Consistent.{IsConsistent}
use raiden_common.Channel.Send.{apply_balance_proof, UnlockDescription, send_unlock}
use raiden_common.Channel.Send.Leaves.{send_unlock-Unlocks}
use raiden_common.Channel.Send.Sound.{make_balance_proof-content}
use raiden_common.Channel.Status.{get_status}
use raiden_common.Channel.Validate.{
  valid, signed_bytes, is_balance_proof_usable_onchain, compare_balance_proof, is_valid_unlock,
}
use raiden_common.Channel.Validate.Removal.{rest_of_sub}
use raiden_common.Common.{ℕ, ◌+◌, ◌≡◌, refl, sym, ap, ◌∙◌, true, Option, none, some, [], ◌∷◌, arith}
use raiden_common.Common.Bytes.{Bytes, bytes_beq_iff}
use raiden_common.Common.Int.{ℤ, pos, ◌-ℤ◌, beq_ℤ_iff}
use raiden_common.Common.Outcome.{ok}
use raiden_common.Events.{SuccessOrError, SendUnlock, ReceiveUnlock}
use raiden_common.External.{External}
use raiden_common.State.{
  ChannelState, HashTimeLockState, BalanceProofUnsignedState, BalanceProofSignedState, signed,
  PendingLocksState, NettingChannelEndState, NettingChannelState, offchain_total_withdraw,
  total_withdraw,
}
use raiden_common.State.Make.{encoded}

-- The network delivers the unlock that was sent.
pub record DeliversUnlock (x : External) (sender secrethash : ℕ) (sent : SendUnlock)
    (u : ReceiveUnlock) : Type 0 where
  pub same_secrethash : u.secrethash ≡ secrethash
  pub same_content : u.balance_proof.content ≡ sent.balance_proof
  pub by_sender : x.recover (signed_bytes x u.balance_proof) u.balance_proof.signature ≡ some sender

compare_balance_proof-passes :
    (b : BalanceProofSignedState) (root : Bytes) (transferred : ℕ) (locked : ℤ)
    → b.locksroot ≡ root
    → b.transferred_amount ≡ transferred
    → pos b.locked_amount ≡ locked
    → compare_balance_proof b root transferred locked ≡ none
unfolding compare_balance_proof
compare_balance_proof-passes b root transferred locked e f g =
    ground (arith, bytes_beq_iff b.locksroot root, beq_ℤ_iff (pos b.locked_amount) locked)

is_valid_unlock-passes :
    (x : External) (u : ReceiveUnlock) (d : NettingChannelState) (v : NettingChannelEndState)
    (lock : HashTimeLockState) (locks : PendingLocksState)
    → get_lock v u.secrethash ≡ some lock
    → compute_locks_without v.pending_locks (encoded lock) ≡ some locks
    → is_balance_proof_usable_onchain x u.balance_proof d v ≡ SuccessOrError.success
    → compare_balance_proof u.balance_proof
        (compute_locksroot x locks)
        ((get_current_balanceproof x v).transferred_amount + lock.amount)
        (pos (get_current_balanceproof x v).locked_amount -ℤ pos lock.amount)
      ≡ none
    → is_valid_unlock x u d v ≡ valid locks
unfolding is_valid_unlock
is_valid_unlock-passes x u d v lock locks known taken usable same = ground arith

handle_unlock-valid :
    (x : External) (d : NettingChannelState) (u : ReceiveUnlock) (m : Option ℕ)
    (lock : HashTimeLockState) (locks : PendingLocksState)
    → get_lock d.partner_state u.secrethash ≡ some lock
    → is_valid_unlock x u d d.partner_state ≡ valid locks
    → (r : Handled) × (handle_unlock x d u m ≡ ok r)
      × (r.is_valid ≡ true)
      × (r.channel ≡ record d {
        partner_state =
            without_lock (accept_balance_proof d.partner_state u.balance_proof locks) u.secrethash;
      })
unfolding handle_unlock accept_balance_proof
handle_unlock-valid x d u m lock locks known e =
    let deleted =
      del_lock-known (accept_balance_proof d.partner_state u.balance_proof locks) u.secrethash
        (get_lock-install d.partner_state (signed u.balance_proof) locks u.secrethash ∙ known) in
    (
      record {
        is_valid = true;
        channel = record d {
          partner_state =
              without_lock (accept_balance_proof d.partner_state u.balance_proof locks)
                u.secrethash;
        };
        events = processed u.balance_proof.sender m u.message_identifier ∷ [];
      },
      rw (e, handle_unlock, deleted) refl,
      refl,
      refl,
    )

-- Both copies of the sender's side after the unlock.
unlocked-Mirrors :
    (s v : NettingChannelEndState) (b : BalanceProofUnsignedState) (got : BalanceProofSignedState)
    (h : ℕ) (lock : HashTimeLockState) (locks : PendingLocksState)
    → Mirrors s v
    → got.content ≡ b
    → IsSynced s
    → IsSynced v
    → get_lock s h ≡ some lock
    → get_lock v h ≡ some lock
    → Mirrors
        (without_lock (apply_balance_proof s b locks) h)
        (without_lock (accept_balance_proof v got locks) h)
unfolding apply_balance_proof accept_balance_proof total_withdraw offchain_total_withdraw
    get_amount_locked
unlocked-Mirrors s v b got h lock locks m same p q known_s known_v = record {
  address = m.address;
  contract_balance = m.contract_balance;
  withdrawn = m.withdrawn;
  nonce = ap (λ (z : BalanceProofUnsignedState). z.nonce) same;
  pending_locks = refl;
  locked = omega (
    arith,
    m.locked,
    without_lock-amount s h lock p known_s,
    without_lock-amount v h lock q known_v,
  );
  transferred = ap (λ (z : BalanceProofUnsignedState). z.transferred_amount) same;
}

-- An unlock that a consistent node sends, and that is delivered with a signature from which the
-- sender is recovered, is accepted at the other end, where the channel has the same identifier and
-- is open, the sender's side is sound, the copies of both sides agree and the same lock is filed;
-- and the copies agree again afterwards.
pub handle_unlock-send_unlock :
    (x : External) (c d : NettingChannelState) (t : UnlockDescription) (block_number : ℕ)
    (e : SendUnlock) (c' : NettingChannelState) (u : ReceiveUnlock) (m : Option ℕ)
    → IsConsistent x c
    → IsSound x d.partner_state
    → Mirrors c.our_state d.partner_state
    → Mirrors c.partner_state d.our_state
    → d.canonical_identifier ≡ c.canonical_identifier
    → get_status d ≡ ChannelState.opened
    → get_lock d.partner_state t.secrethash ≡ get_lock c.our_state t.secrethash
    → send_unlock x c t block_number ≡ ok (e, c')
    → DeliversUnlock x c.our_state.address t.secrethash e u
    → (r : Handled) × (handle_unlock x d u m ≡ ok r)
      × (r.is_valid ≡ true)
      × Mirrors c'.our_state r.channel.partner_state
      × Mirrors c'.partner_state r.channel.our_state
handle_unlock-send_unlock x c d t block_number e c' u m h sound ours partner same_id opened
      same_lock sent delivers =
    let w = send_unlock-Unlocks x c t block_number e c' h.ours sent in
    let s = c.our_state in
    let v = d.partner_state in
    let b = make_balance_proof-content _ _ _ _ _ w.facts.balance_proof in
    let got = u.balance_proof in
    let content = delivers.same_content in
    let rest = rest_of_sub e.balance_proof.locked_amount (get_amount_locked s) w.lock.amount b.2 in
    let locked_now : got.locked_amount ≡ e.balance_proof.locked_amount =
      ap (λ (z : BalanceProofUnsignedState). z.locked_amount) content in
    let transferred_now : got.transferred_amount ≡ w.lock.amount + transferred_of s.balance_proof =
      ap (λ (z : BalanceProofUnsignedState). z.transferred_amount) content ∙ b.1 in
    let known_v : get_lock v t.secrethash ≡ some w.lock = same_lock ∙ w.known in
    let known : get_lock v u.secrethash ≡ some w.lock =
      ap (get_lock v) delivers.same_secrethash ∙ known_v in
    let current : (get_current_balanceproof x v).locked_amount ≡ get_amount_locked s =
      current-locked_amount x v sound ∙ ours.locked in
    let usable : is_balance_proof_usable_onchain x got d v ≡ SuccessOrError.success =
      IsUsable-success x got d v opened
        (ap (λ (z : BalanceProofUnsignedState). z.canonical_identifier) content ∙ b.6 ∙ sym same_id)
        (omega (arith, locked_now, transferred_now, rest, h.our_bound))
        (ap (λ (z : BalanceProofUnsignedState). z.nonce) content
          ∙ b.0
          ∙ ap (λ n. n + 1) (sym ours.nonce))
        (delivers.by_sender ∙ ap some (sym ours.address)) in
    let compared =
      compare_balance_proof-passes got (compute_locksroot x w.locks)
        ((get_current_balanceproof x v).transferred_amount + w.lock.amount)
        (pos (get_current_balanceproof x v).locked_amount -ℤ pos w.lock.amount)
        (ap (λ (z : BalanceProofUnsignedState). z.locksroot) content ∙ b.3)
        (omega (arith, transferred_now, ours.transferred, transferred-current x v))
        (ap pos locked_now ∙ b.2 ∙ ap (λ n. pos n -ℤ pos w.lock.amount) (sym current)) in
    let taken : compute_locks_without v.pending_locks (encoded w.lock) ≡ some w.locks =
      ap (λ z. compute_locks_without z (encoded w.lock)) ours.pending_locks ∙ w.facts.removed in
    let (r, returned, accepted, after) =
      handle_unlock-valid x d u m w.lock w.locks known
        (is_valid_unlock-passes x u d v w.lock w.locks known taken usable compared) in
    (
      r,
      returned,
      accepted,
      rw (after, w.after, delivers.same_secrethash)
          (unlocked-Mirrors s v e.balance_proof got t.secrethash w.lock w.locks ours content
            h.ours.synced sound.synced w.known known_v),
      rw (after, w.after) partner,
    )
