-- ===== src/Channel/Onchain/Lifecycle.antt =====
-- The life cycle of a channel: opened, closing, closed, settling, settled.
use raiden_common.Channel.Actions.{Call}
use raiden_common.Channel.Onchain.{
  settle_if_due, handle_block, ChannelClosed, update_transfer, handle_channel_closed,
}
use raiden_common.Channel.Send.{require}
use raiden_common.Channel.Send.Sound.{require-ok}
use raiden_common.Channel.Status.{
  is_state_opened, is_state_closed, is_prior_to_closed, transaction_state, status_before_settle,
  status_of, get_status, is_falsy, finish, set_closed,
}
use raiden_common.Channel.Withdraw.{Step, expire_withdraws, events_for_expired_withdraws}
use raiden_common.Common.{
  ℕ, ◌+◌, ◌<◌, ◌≡◌, refl, ap, ◌∙◌, subst, ◌⊎◌, inl, inr, true, not, Option, none, some, [], map,
  arith, ltb, if◌then◌else◌, Bool-cases, ◌==◌, nat_eq,
}
use raiden_common.Common.Bytes.{bytes_eq}
use raiden_common.Common.Int.{int_eq}
use raiden_common.Common.Outcome.{Failure, ok, assert, >>=-eq-ok}
use raiden_common.Events.{TransitionResult}
use raiden_common.External.{External}
use raiden_common.State.{
  ChannelState, TransactionExecutionStatus, NettingChannelEndState, NettingChannelState,
}

transaction_state-closing :
    (t : TransactionExecutionStatus)
    → is_prior_to_closed (status_before_settle (some t)) ≡ true
    → t.finished_block_number ≡ none
unfolding status_before_settle transaction_state
transaction_state-closing t h = ground arith

finish-closed :
    (close : Option TransactionExecutionStatus) (block_number : ℕ)
    → is_prior_to_closed (status_before_settle close) ≡ true
    → status_before_settle (finish close block_number) ≡ ChannelState.closed
unfolding finish status_before_settle transaction_state
finish-closed none block_number h = refl
finish-closed (some t) block_number h = rw (transaction_state-closing t h) refl

status_of-prior :
    (settle close : Option TransactionExecutionStatus)
    → is_prior_to_closed (status_of settle close) ≡ true
    → settle ≡ none
unfolding status_of transaction_state
status_of-prior none close h = refl
status_of-prior (some t) close h = absurd (ground arith)

-- An open or closing channel that is set closed is closed.
pub set_closed-get_status :
    (c : NettingChannelState) (block_number : ℕ)
    → is_prior_to_closed (get_status c) ≡ true
    → get_status (set_closed c block_number) ≡ ChannelState.closed
unfolding get_status set_closed status_of
set_closed-get_status c block_number h =
    let no_settle = status_of-prior c.settle_transaction c.close_transaction h in
    rw no_settle (finish-closed c.close_transaction block_number (rw no_settle at h))

update_transfer-get_status :
    (c : NettingChannelState) (action : ChannelClosed) (draws : ℕ) (r : TransitionResult)
    (c' : NettingChannelState)
    → update_transfer c action draws ≡ ok r
    → r.new_state ≡ some c'
    → (c'.settle_transaction ≡ c.settle_transaction) × (c'.close_transaction ≡ c.close_transaction)
unfolding update_transfer
update_transfer-get_status c action draws r c' h e = ground arith

-- When the handler returns, an open or closing channel whose closing is seen on-chain under its
-- identifier is closed.
pub handle_channel_closed-closed :
    (c : NettingChannelState) (action : ChannelClosed) (draws : ℕ) (r : TransitionResult)
    (c' : NettingChannelState)
    → is_prior_to_closed (get_status c) ≡ true
    → action.canonical_identifier.channel_identifier ≡ c.canonical_identifier.channel_identifier
    → handle_channel_closed c action draws ≡ ok r
    → r.new_state ≡ some c'
    → get_status c' ≡ ChannelState.closed
unfolding handle_channel_closed
handle_channel_closed-closed c action draws r c' prior id h e =
    let done : update_transfer (set_closed c action.block_number) action draws ≡ ok r =
      ground arith in
    let kept_transactions =
      update_transfer-get_status (set_closed c action.block_number) action draws r c' done e in
    same_status (set_closed c action.block_number) c' kept_transactions.0 kept_transactions.1
    ∙ set_closed-get_status c action.block_number prior
  where
    same_status :
        (d d' : NettingChannelState)
        → d'.settle_transaction ≡ d.settle_transaction
        → d'.close_transaction ≡ d.close_transaction
        → get_status d' ≡ get_status d
    same_status d d' p q = λ i. status_of (p i) (q i)

expired-kept :
    (x : External) (c : NettingChannelState) (block_number draws : ℕ) (s : Step)
    → events_for_expired_withdraws x c block_number draws ≡ ok s
    → (our_state : NettingChannelEndState) × (s.channel ≡ record c { our_state = our_state })
unfolding events_for_expired_withdraws
expired-kept x c block_number draws s h =
    let (result, _, after) =
      >>=-eq-ok
        (expire_withdraws x c block_number (map (λ e. e.1) c.our_state.withdraws_pending)
          c.our_state draws)
        _ h in
    (result.0, cc after)

-- When the settlement of a channel is due.
pub record IsDue (c : NettingChannelState) (block_number : ℕ) : Type 0 where
  pub close : TransactionExecutionStatus
  pub closed_at : ℕ
  pub closing : c.close_transaction ≡ some close
  pub finished : close.finished_block_number ≡ some closed_at
  pub is_closed : is_state_closed (get_status c) ≡ true
  pub late : closed_at + c.settle_timeout < block_number

settle_if_due-IsDue :
    (s : Step) (block_number block_hash : ℕ) (r : TransitionResult) (c' : NettingChannelState)
    → settle_if_due s block_number block_hash ≡ ok r
    → r.new_state ≡ some c'
    → (c'.settle_transaction ≡ s.channel.settle_transaction) ⊎ IsDue s.channel block_number
unfolding settle_if_due
settle_if_due-IsDue s block_number block_hash r c' h e =
    elim (Bool-cases (is_state_closed (get_status s.channel))) [
      | inr running ↦ inl (ground arith)
      | inl closed ↦
          let body = rw closed at h in
          let (close, closing, h1) =
            >>=-eq-ok (require s.channel.close_transaction Failure.close_transaction_not_set) _
              body in
          let (_, _, h2) =
            >>=-eq-ok
              (assert (not (is_falsy close.finished_block_number))
                Failure.close_block_number_missing)
              _ h1 in
          let (n, finished, h3) =
            >>=-eq-ok (require close.finished_block_number Failure.close_block_number_missing) _
              h2 in
          elim (Bool-cases (ltb (n + s.channel.settle_timeout) block_number)) [
            | inl late ↦ inr (record {
              close = close;
              closed_at = n;
              closing = require-ok s.channel.close_transaction _ closing;
              finished = require-ok close.finished_block_number _ finished;
              is_closed = closed;
              late = ground arith;
            })
            | inr early ↦ inl (ground arith)
          ]
    ]

-- A block that leaves a channel changes its settle transaction only where the channel was closed,
-- more than the settle timeout before that block.
pub handle_block-IsDue :
    (x : External) (c : NettingChannelState) (block_number block_hash : ℕ) (call : Call)
    (r : TransitionResult) (c' : NettingChannelState)
    → handle_block x c block_number block_hash call ≡ ok r
    → r.new_state ≡ some c'
    → (c'.settle_transaction ≡ c.settle_transaction) ⊎ IsDue c block_number
unfolding handle_block
handle_block-IsDue x c block_number block_hash call r c' h e =
    let (_, _, h1) =
      >>=-eq-ok (assert (block_number == call.block_number) Failure.block_number_mismatch) _ h in
    let (s, step, h2) =
      >>=-eq-ok
        (if is_state_opened (get_status c)
          then events_for_expired_withdraws x c call.block_number call.draws
          else ok (record { channel = c; events = []; draws = call.draws }))
        _ h1 in
    let (ours, same) = stepped s step in
    let due = settle_if_due-IsDue s block_number block_hash r c' h2 e in carry s ours same due
  where
    stepped :
        (s : Step)
        → (if is_state_opened (get_status c)
            then events_for_expired_withdraws x c call.block_number call.draws
            else ok (record { channel = c; events = []; draws = call.draws }))
          ≡ ok s
        → (ours : NettingChannelEndState) × (s.channel ≡ record c { our_state = ours })
    stepped s q = elim (Bool-cases (is_state_opened (get_status c))) [
      | inl opened ↦ expired-kept x c call.block_number call.draws s (rw opened at q)
      | inr other ↦ (c.our_state, ground arith)
    ]

    carry :
        (s : Step) (ours : NettingChannelEndState)
        → s.channel ≡ record c { our_state = ours }
        → (c'.settle_transaction ≡ s.channel.settle_transaction) ⊎ IsDue s.channel block_number
        → (c'.settle_transaction ≡ c.settle_transaction) ⊎ IsDue c block_number
    carry s ours same (inl p) =
        inl (p ∙ ap (λ (z : NettingChannelState). z.settle_transaction) same)
    carry s ours same (inr d) =
        let due = subst (λ z. IsDue z block_number) same d in
        inr (record {
          close = due.close;
          closed_at = due.closed_at;
          closing = due.closing;
          finished = due.finished;
          is_closed = due.is_closed;
          late = due.late;
        })
