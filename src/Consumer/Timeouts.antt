-- ===== src/Consumer/Timeouts.antt =====
-- What takes a transaction out of the queue, and how long a client may stay silent
-- (mautrix_asmux/api/as_websocket.py).
use mautrix_asmux.Prelude.{
  ℕ, zero, suc, ◌+◌, ◌-◌, ◌*◌, ◌≤◌, ◌≡◌, inl, inr, refl, Bool, true, false, List, [], ◌∷◌, ◌++◌,
  Str, leb, if◌then◌else◌, arith, Bool-cases,
}
use mautrix_asmux.Result.{Result, ok, err}
use mautrix_asmux.Json.{Fields}
use mautrix_asmux.Events.{Events, pop_expired_pdu, events_is_empty, max_pdu_age_ms}
use mautrix_asmux.Consumer.{
  Link, Reply, answered, timed_out, failed, Effect, ask, send, not_acknowledged, body_raised,
  timeout_of, send_plain, send_legacy, send_next_txn, Round, report_of, after_timeout, recover,
  send_rest, handle_popped, consume_txn,
}

-- Why the entries of a round are removed from the stream.
pub data Reason {O : Type 0} (link : Link) (reply : Reply) (rest : Events O) : Type 0 where
  was_sent : reply ≡ answered → Reason link reply rest
  was_empty : events_is_empty rest ≡ true → Reason link reply rest
  cannot_repeat : link.proto ≡ 2 → reply ≡ timed_out → Reason link reply rest

send_plain-Reason :
    {O : Type 0} (how : Effect) (link : Link) (reply : Reply) (rest : Events O)
    → body_raised (send_plain how link reply).0 ≡ false
    → Reason link reply rest
unfolding send_plain
send_plain-Reason how link answered rest h = was_sent refl
send_plain-Reason how link timed_out rest h = cc
send_plain-Reason how link failed rest h = cc

send_legacy-Reason :
    {O : Type 0} (link : Link) (reply : Reply) (rest : Events O)
    → link.proto ≡ 2
    → body_raised (send_legacy link reply).0 ≡ false
    → Reason link reply rest
unfolding send_legacy
send_legacy-Reason link answered rest old h = was_sent refl
send_legacy-Reason link timed_out rest old h = cannot_repeat old refl
send_legacy-Reason link failed rest old h = cc

send_next_txn-Reason :
    {O : Type 0} (link : Link) (timeout : ℕ) (reply : Reply) (rest : Events O)
    → body_raised (send_next_txn link timeout reply).0 ≡ false
    → Reason link reply rest
unfolding send_next_txn
send_next_txn-Reason link timeout reply rest h = elim (Bool-cases (leb 3 link.proto)) [
  | inl new ↦ send_plain-Reason (ask timeout) link reply rest (rw (send_next_txn, new) at h)
  | inr old ↦ elim (Bool-cases (leb 2 link.proto)) [
    | inl two ↦
        send_legacy-Reason link reply rest (ground arith) (rw (send_next_txn, old, two) at h)
    | inr one ↦ send_plain-Reason send link reply rest (rw (send_next_txn, old, one) at h)
  ]
]

recover_lem : (wake : Bool) (r : Round) → (recover wake r).sent ≡ r.sent
unfolding recover after_timeout
recover_lem wake r = ground arith

send_rest-Reason :
    {O : Type 0} (link : Link) (reply : Reply) (popped : List Fields × Events O)
    → body_raised (send_rest link reply popped).sent ≡ false
    → Reason link reply popped.1
unfolding send_rest
send_rest-Reason link reply (expired, rest) h = elim (Bool-cases (events_is_empty rest)) [
  | inl empty ↦ was_empty empty
  | inr full ↦ send_next_txn-Reason link (timeout_of link) reply rest (rw (send_rest, full) at h)
]

handle_popped-Reason :
    {O : Type 0} (wake : Bool) (link : Link) (reply : Reply) (r : Result (List Fields × Events O))
    → body_raised (handle_popped wake link reply r).sent ≡ false
    → (popped : List Fields × Events O) × (r ≡ ok popped) × Reason link reply popped.1
unfolding handle_popped
handle_popped-Reason wake link reply (err e) h = cc
handle_popped-Reason wake link reply (ok popped) h = (
  popped,
  refl,
  send_rest-Reason link reply popped (rw (recover_lem wake (send_rest link reply popped)) at h),
)

-- The entries of a transaction are removed from the stream only if it was read without an exception,
-- and what is left of it behind the expired PDUs was sent, or is nothing, or could not be repeated,
-- because a client of protocol 2 has not answered in time.
pub consume_txn-Reason :
    {O : Type 0} (owner_mxid : Str) (now : ℕ) (wake : Bool) (link : Link) (reply : Reply)
    (txn : Events O)
    → body_raised (consume_txn owner_mxid now wake link reply txn).sent ≡ false
    → (popped : List Fields × Events O) × (pop_expired_pdu owner_mxid max_pdu_age_ms now txn
        ≡ ok popped)
      × Reason link reply popped.1
unfolding consume_txn
consume_txn-Reason owner_mxid now wake link reply txn h =
    handle_popped-Reason wake link reply (pop_expired_pdu owner_mxid max_pdu_age_ms now txn) h

-- `n` rounds for one transaction that has something to send, none of which is answered in time.
unfoldable pub silent_rounds : {O : Type 0} → ℕ → Bool → Events O → Link → Link × List Effect
unfolding recover send_rest
silent_rounds zero wake rest link = (link, [])
silent_rounds (suc n) wake rest link =
    let r = recover wake (send_rest link timed_out ([], rest)) in
    let (last, effects) = silent_rounds n wake rest r.link in (last, r.effects ++ effects)

-- The longest time that is waited for answers.
abbrev pub waited : List Effect → ℕ
waited [] = 0
waited (ask t ∷ es) = t + waited es
waited (_ ∷ es) = waited es

abbrev pub closes : List Effect → ℕ
closes [] = 0
closes (not_acknowledged ∷ es) = 1 + closes es
closes (_ ∷ es) = closes es

silent_round_lem :
    {O : Type 0} (wake : Bool) (rest : Events O) (link : Link)
    → 3 ≤ link.proto
    → events_is_empty rest ≡ false
    → let r = recover wake (send_rest link timed_out ([], rest)) in
      (r.link ≡ record link { timeouts = link.timeouts + 1 })
      × ((es : List Effect) → waited (r.effects ++ es) ≡ timeout_of link + waited es)
      × ((es : List Effect)
          → closes (r.effects ++ es) ≡ (if leb 7 (link.timeouts + 1) then 1 else 0) + closes es)
unfolding recover send_rest send_next_txn send_plain after_timeout report_of
silent_round_lem wake rest link new full = (ground arith, λ es. ground arith, λ es. ground arith)

silent_rounds_late :
    {O : Type 0} (n : ℕ) (wake : Bool) (rest : Events O) (link : Link)
    → 3 ≤ link.proto
    → events_is_empty rest ≡ false
    → 1 ≤ link.timeouts
    → let (last, es) = silent_rounds n wake rest link in
      (last.timeouts ≡ link.timeouts + n)
      × (waited es ≡ 30 * n)
      × (closes es + (link.timeouts - 6) ≡ (link.timeouts + n) - 6)
unfolding silent_rounds timeout_of
silent_rounds_late zero wake rest link new full late = (omega arith, refl, omega arith)
silent_rounds_late (suc n) wake rest link new full late =
    let r = recover wake (send_rest link timed_out ([], rest)) in
    let (same, waits, shuts) = silent_round_lem wake rest link new full in
    let (_, es) = silent_rounds n wake rest r.link in
    ground (
      arith,
      waits es,
      shuts es,
      silent_rounds_late n wake rest (record link { timeouts = link.timeouts + 1 }) new full
          (omega arith),
    )

-- Over protocol 3, a client that leaves n + 1 rounds in a row unanswered, none of them an empty
-- transaction, is waited for 5 seconds and then n times 30 seconds, and is asked to close in each
-- round from the seventh on, thus for the first time when it was silent for 185 seconds.
pub silent_rounds_bounds :
    {O : Type 0} (n : ℕ) (wake : Bool) (rest : Events O) (link : Link)
    → 3 ≤ link.proto
    → events_is_empty rest ≡ false
    → link.timeouts ≡ 0
    → let (last, es) = silent_rounds (n + 1) wake rest link in
      (last.timeouts ≡ n + 1) × (waited es ≡ 5 + 30 * n) × (closes es ≡ n - 5)
unfolding silent_rounds timeout_of
silent_rounds_bounds n wake rest link new full fresh =
    let r = recover wake (send_rest link timed_out ([], rest)) in
    let (_, waits, shuts) = silent_round_lem wake rest link new full in
    let (_, es) = silent_rounds n wake rest r.link in
    ground (
      arith,
      waits es,
      shuts es,
      silent_rounds_late n wake rest (record link { timeouts = link.timeouts + 1 }) new full
          (omega arith),
    )
