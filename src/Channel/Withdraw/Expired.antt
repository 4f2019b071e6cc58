-- ===== src/Channel/Withdraw/Expired.antt =====
-- The loop over the expired withdraws of our side, and what it does in one go.
use mathlib.Core.List.{append-nil, append_assoc}
use raiden_common.Channel.Balance.{get_next_nonce}
use raiden_common.Channel.Send.{header_to}
use raiden_common.Channel.Status.{get_sender_expiration_threshold, is_withdraw_expired}
use raiden_common.Channel.Withdraw.{
  is_coop_settle_of, clear_coop_settle, expire_withdraw, expire_withdraws,
  events_for_expired_withdraws,
}
use raiden_common.Channel.Withdraw.Order.{IsKeyed}
use raiden_common.Common.{
  ℕ, suc, ◌+◌, ◌*◌, ◌≡◌, refl, sym, inl, inr, Bool, Option, none, List, [], ◌∷◌, ◌++◌, map, arith,
  leb, if◌then◌else◌, Bool-cases, length, beq_refl, nat_eq,
}
use raiden_common.Common.Bytes.{bytes_eq}
use raiden_common.Common.Dict.{Dict, lookup, erase}
use raiden_common.Common.Int.{ℤ, int_eq}
use raiden_common.Common.Outcome.{Outcome, ok}
use raiden_common.Events.{Event}
use raiden_common.External.{External}
use raiden_common.Mediator.Reveals.{left}
use raiden_common.State.{
  default_number_of_block_confirmations, PendingWithdrawState, ExpiredWithdrawState,
  CoopSettleState, NettingChannelEndState, NettingChannelState,
}

-- Whether a withdraw has been expired for twice the number of block confirmations.
abbrev pub is_due : ℕ → PendingWithdrawState → Bool
is_due block_number w = leb (w.expiration + default_number_of_block_confirmations * 2) block_number

-- The withdraws before the first that is not due, and the entries from there on.
abbrev pub due_withdraws : ℕ → Dict ℤ PendingWithdrawState → List PendingWithdrawState
due_withdraws block_number [] = []
due_withdraws block_number ((k, w) ∷ d) =
    let rest = due_withdraws block_number d in if is_due block_number w then w ∷ rest else []

abbrev pub remaining : ℕ → Dict ℤ PendingWithdrawState → Dict ℤ PendingWithdrawState
remaining block_number [] = []
remaining block_number ((k, w) ∷ d) =
    let rest = remaining block_number d in if is_due block_number w then rest else (k, w) ∷ d

-- One message for each withdraw, with consecutive nonces and message identifiers.
abbrev pub expiry_messages :
    External → NettingChannelState → ℕ → ℕ → ℕ → List PendingWithdrawState → List Event
expiry_messages x c participant nonce draws [] = []
expiry_messages x c participant nonce draws (w ∷ ws) =
    Event.send_withdraw_expired (record {
      header = header_to c w.recipient_metadata (x.randint draws);
      total_withdraw = w.total_withdraw;
      participant = participant;
      expiration = w.expiration;
      nonce = nonce + 1;
    })
    ∷ expiry_messages x c participant (nonce + 1) (draws + 1) ws

abbrev pub as_expired : PendingWithdrawState → ExpiredWithdrawState
as_expired w = record {
  total_withdraw = w.total_withdraw;
  expiration = w.expiration;
  nonce = w.nonce;
  recipient_metadata = w.recipient_metadata;
}

-- The cooperative settlement, unless one of the withdraws is its own.
abbrev pub settlement_left :
    Option CoopSettleState → List PendingWithdrawState → Option CoopSettleState
settlement_left c [] = c
settlement_left c (w ∷ ws) =
    let rest = settlement_left c ws in if is_coop_settle_of c w then none else rest

-- Our side after the withdraws `ws` were expired and the entries `left` stayed pending.
abbrev pub after_expiry :
    NettingChannelEndState
    → List PendingWithdrawState
    → Dict ℤ PendingWithdrawState
    → NettingChannelEndState
after_expiry s ws left = record s {
  nonce = s.nonce + length ws;
  initiated_coop_settle = settlement_left s.initiated_coop_settle ws;
  withdraws_expired = s.withdraws_expired ++ map as_expired ws;
  withdraws_pending = left;
}

-- The result of the loop: our side, the messages and the draws.
abbrev Expiry : Type 0
Expiry = NettingChannelEndState × List Event × ℕ

abbrev expiry_of :
    External
    → NettingChannelState
    → NettingChannelEndState
    → List PendingWithdrawState
    → Dict ℤ PendingWithdrawState
    → ℕ
    → Expiry
expiry_of x c s ws left draws =
    (after_expiry s ws left, expiry_messages x c s.address s.nonce draws ws, draws + length ws)

settlement_left-none : (ws : List PendingWithdrawState) → settlement_left none ws ≡ none
settlement_left-none [] = refl
settlement_left-none (w ∷ ws) = settlement_left-none ws

settlement_left-clear :
    (c : Option CoopSettleState) (w : PendingWithdrawState) (ws : List PendingWithdrawState)
    → settlement_left (clear_coop_settle c w) ws ≡ settlement_left c (w ∷ ws)
settlement_left-clear c w ws = elim (Bool-cases (is_coop_settle_of c w)) [
  | inl own ↦ rw own (settlement_left-none ws)
  | inr other ↦ rw other refl
]

expiry_of-nothing :
    (x : External) (c : NettingChannelState) (s : NettingChannelEndState)
    (left : Dict ℤ PendingWithdrawState) (draws : ℕ)
    → s.withdraws_pending ≡ left
    → ◌≡◌ {A = Outcome Expiry} (ok (s, [], draws)) (ok (expiry_of x c s [] left draws))
expiry_of-nothing x c s left draws same =
    let nonce : s.nonce ≡ s.nonce + 0 = omega arith in
    let drawn : draws ≡ draws + 0 = omega arith in
    let filed : s.withdraws_expired ≡ s.withdraws_expired ++ [] =
      sym (append-nil s.withdraws_expired) in
    λ i. ok (
      record s { nonce = nonce i; withdraws_expired = filed i; withdraws_pending = same i },
      [],
      drawn i,
    )

-- Our side after the first pending withdraw has expired.
abbrev after_first :
    NettingChannelEndState
    → PendingWithdrawState
    → Dict ℤ PendingWithdrawState
    → NettingChannelEndState
after_first s w d = record s {
  nonce = s.nonce + 1;
  initiated_coop_settle = clear_coop_settle s.initiated_coop_settle w;
  withdraws_expired = s.withdraws_expired ++ as_expired w ∷ [];
  withdraws_pending = d;
}

expire_withdraw-first :
    (s : NettingChannelEndState) (k : ℤ) (w : PendingWithdrawState)
    (d : Dict ℤ PendingWithdrawState)
    → k ≡ w.total_withdraw
    → s.withdraws_pending ≡ (k, w) ∷ d
    → expire_withdraw s w ≡ ok (after_first s w d)
unfolding expire_withdraw lookup erase get_next_nonce
expire_withdraw-first s k w d key same = rw (same, key, beq_refl ⦃e = int_eq⦄ w.total_withdraw) refl

-- The rest of the loop after the first message.
abbrev add_message :
    External
    → NettingChannelState
    → NettingChannelEndState
    → PendingWithdrawState
    → ℕ
    → Expiry
    → Expiry
add_message x c s w draws (last, events, draws') = (
  last,
  Event.send_withdraw_expired (record {
    header = header_to c w.recipient_metadata (x.randint draws);
    total_withdraw = w.total_withdraw;
    participant = s.address;
    expiration = w.expiration;
    nonce = s.nonce + 1;
  })
      ∷ events,
  draws',
)

expiry_of-step :
    (x : External) (c : NettingChannelState) (s : NettingChannelEndState) (w : PendingWithdrawState)
    (ws : List PendingWithdrawState) (d left : Dict ℤ PendingWithdrawState) (draws : ℕ)
    → ◌≡◌ {A = Outcome Expiry}
        (ok (add_message x c s w draws (expiry_of x c (after_first s w d) ws left (draws + 1))))
        (ok (expiry_of x c s (w ∷ ws) left draws))
expiry_of-step x c s w ws d left draws =
    let nonce : s.nonce + 1 + length ws ≡ s.nonce + suc (length ws) = omega arith in
    let drawn : draws + 1 + length ws ≡ draws + suc (length ws) = omega arith in
    let filed = append_assoc s.withdraws_expired (as_expired w ∷ []) (map as_expired ws) in
    let settlement = settlement_left-clear s.initiated_coop_settle w ws in
    λ i. ok (
      record s {
        nonce = nonce i;
        initiated_coop_settle = settlement i;
        withdraws_expired = filed i;
        withdraws_pending = left;
      },
      expiry_messages x c s.address s.nonce draws (w ∷ ws),
      drawn i,
    )

is_due_lem :
    (block_number : ℕ) (w : PendingWithdrawState)
    → is_withdraw_expired block_number (get_sender_expiration_threshold w.expiration)
      ≡ is_due block_number w
unfolding is_withdraw_expired get_sender_expiration_threshold
is_due_lem block_number w = refl

expire_withdraws-reference :
    (x : External) (c : NettingChannelState) (block_number : ℕ) (d : Dict ℤ PendingWithdrawState)
    (s : NettingChannelEndState) (draws : ℕ)
    → IsKeyed d
    → s.withdraws_pending ≡ d
    → expire_withdraws x c block_number (map (λ e. e.1) d) s draws
      ≡ ok (expiry_of x c s (due_withdraws block_number d) (remaining block_number d) draws)
unfolding expire_withdraws
expire_withdraws-reference x c block_number [] s draws keyed same =
    expiry_of-nothing x c s [] draws same
expire_withdraws-reference x c block_number ((k, w) ∷ d) s draws keyed same =
    elim (Bool-cases (is_due block_number w)) [
      | inr fresh ↦
          rw (is_due_lem block_number w, fresh, expire_withdraws)
            (expiry_of-nothing x c s ((k, w) ∷ d) draws same)
      | inl late ↦
          rw
            (
              is_due_lem block_number w,
              late,
              expire_withdraws,
              expire_withdraw-first s k w d keyed.0 same,
              expire_withdraws-reference x c block_number d (after_first s w d) (draws + 1) keyed.2
                  refl,
            )
            (expiry_of-step x c s w (due_withdraws block_number d) d (remaining block_number d)
              draws)
    ]

-- Where each pending withdraw stands under its total, and no two under the same, expiring withdraws
-- returns: our side has dropped the pending withdraws before the first that is not expired for twice
-- the number of block confirmations, and filed them as expired in their order; one message was sent
-- for each, with its total and expiration, and with consecutive nonces and message identifiers; and
-- a cooperative settlement that one of them belongs to is given up.
pub events_for_expired_withdraws-reference :
    (x : External) (c : NettingChannelState) (block_number draws : ℕ)
    → IsKeyed c.our_state.withdraws_pending
    → events_for_expired_withdraws x c block_number draws
      ≡ ok (record {
        channel = record c {
          our_state =
              after_expiry c.our_state
                (due_withdraws block_number c.our_state.withdraws_pending)
                (remaining block_number c.our_state.withdraws_pending);
        };
        events =
            expiry_messages x c c.our_state.address c.our_state.nonce draws
              (due_withdraws block_number c.our_state.withdraws_pending);
        draws = draws + length (due_withdraws block_number c.our_state.withdraws_pending);
      })
unfolding events_for_expired_withdraws
events_for_expired_withdraws-reference x c block_number draws keyed =
    rw
      (expire_withdraws-reference x c block_number c.our_state.withdraws_pending c.our_state draws
        keyed refl)
      refl
