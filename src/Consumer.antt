-- ===== src/Consumer.antt =====
-- The consumer of the queue of one appservice over its websocket: `_send_next_txn`,
-- `_consume_queue_one` and `_consume_queue` (mautrix_asmux/api/as_websocket.py). Times are in whole
-- seconds. What is started in the background and what is waited for are effects, in order.
pub mod Fifo
pub mod Timeouts
use mautrix_asmux.Prelude.{
  ℕ, ◌+◌, ◌-◌, Bool, true, false, Option, none, some, List, [], ◌∷◌, ◌++◌, Str, ltb, leb, nat_beq,
  if◌then◌else◌, is_empty, is_some, nat_eq,
}
use mautrix_asmux.Result.{Result, ok, err}
use mautrix_asmux.Json.{Fields}
use mautrix_asmux.Dict
use mautrix_asmux.Dict.{Dict}
use mautrix_asmux.Events.{Events, pop_expired_pdu, events_is_empty, max_pdu_age_ms}
use mautrix_asmux.Events.Wire.{Codec}
use mautrix_asmux.Redis.{Stream, Entries}
use mautrix_asmux.Queue.{Outcome, waiting, raised, nothing, yielded, next, acknowledge, push}

abbrev pub first_send_timeout : ℕ
first_send_timeout = 5

abbrev pub retry_send_timeout : ℕ
retry_send_timeout = 30

abbrev pub timeout_count_limit : ℕ
timeout_count_limit = 7

abbrev pub min_wakeup_push_delay : ℕ
min_wakeup_push_delay = 3

-- The fields of a `WebsocketHandler` that the consumer uses.
pub record Link : Type 0 where
  pub proto : ℕ
  pub timeouts : ℕ
  pub last_received : ℕ
  pub dead : Bool

-- How `ws.request` or `ws.send` ends: it returns, it raises `TimeoutError`, or another exception.
pub data Reply : Type 0 where
  answered timed_out failed : Reply

pub data Effect : Type 0 where
  ask : ℕ → Effect
  send : Effect
  successful_metrics failed_metrics : Effect
  report_expired : List Fields → Effect
  not_acknowledged : Effect
  wakeup : Effect

-- How the body of `async with queue.next()` ends. `confirmed`: the transaction was sent; `skipped`:
-- there was nothing to send; `given_up`: it was dropped, by the protocol that cannot repeat.
pub data Sent : Type 0 where
  confirmed skipped given_up : Sent
  send_timed_out send_raised : Sent

abbrev pub body_raised : Sent → Bool
body_raised send_timed_out = true
body_raised send_raised = true
body_raised _ = false

-- `timeout = FIRST_SEND_TIMEOUT if ws.timeouts == 0 else RETRY_SEND_TIMEOUT`
unfoldable pub timeout_of : Link → ℕ
timeout_of link = if nat_beq link.timeouts 0 then first_send_timeout else retry_send_timeout

-- Protocol 3, and the one without acknowledgements: an exception goes to the caller.
unfoldable pub send_plain : Effect → Link → Reply → Sent × Link × List Effect
send_plain how link answered =
    (confirmed, record link { timeouts = 0 }, how ∷ successful_metrics ∷ [])
send_plain how link timed_out = (send_timed_out, link, how ∷ [])
send_plain how link failed = (send_raised, link, how ∷ [])

-- Protocol 2, where a timeout drops the transaction.
unfoldable pub send_legacy : Link → Reply → Sent × Link × List Effect
send_legacy link answered =
    (confirmed, record link { timeouts = 0 }, ask retry_send_timeout ∷ successful_metrics ∷ [])
send_legacy link timed_out = (
  given_up,
  record link { timeouts = link.timeouts + 1 },
  ask retry_send_timeout ∷ failed_metrics ∷ [],
)
send_legacy link failed = (send_raised, link, ask retry_send_timeout ∷ [])

-- `_send_next_txn`
unfoldable pub send_next_txn : Link → ℕ → Reply → Sent × Link × List Effect
unfolding send_plain send_legacy
send_next_txn link timeout reply =
    if leb 3 link.proto
    then send_plain (ask timeout) link reply
    else if leb 2 link.proto
    then send_legacy link reply
    else send_plain send link reply

-- What one round has done: how the body ended, the socket, the effects, and the entries that were
-- removed from the stream.
pub record Round : Type 0 where
  pub sent : Sent
  pub link : Link
  pub effects : List Effect

unfoldable pub report_of : List Fields → List Effect
report_of [] = []
report_of (e ∷ es) = report_expired (e ∷ es) ∷ []

-- `except asyncio.TimeoutError`, where `wake` is what `should_wakeup` says
unfoldable pub after_timeout : Bool → Round → Round
after_timeout wake r =
    let n = r.link.timeouts + 1 in
    record r {
      link = record r.link { timeouts = n };
      effects =
          r.effects
          ++ (if leb timeout_count_limit n
              then not_acknowledged ∷ []
              else if wake
              then wakeup ∷ []
              else []);
    }

-- The two `except` clauses: any other exception is only logged, as there is a transaction.
unfoldable pub recover : Bool → Round → Round
unfolding after_timeout
recover wake r = elim r.sent [ send_timed_out ↦ after_timeout wake r | _ ↦ r ]

-- The body of the `async with`, for the PDUs that are not expired.
unfoldable pub send_rest : {O : Type 0} → Link → Reply → List Fields × Events O → Round
unfolding report_of send_next_txn timeout_of
send_rest link reply (expired, txn) =
    if events_is_empty txn
    then record { sent = skipped; link = link; effects = report_of expired }
    else let (sent, link', effects) = send_next_txn link (timeout_of link) reply in
      record { sent = sent; link = link'; effects = report_of expired ++ effects }

unfoldable pub handle_popped :
    {O : Type 0} → Bool → Link → Reply → Result (List Fields × Events O) → Round
unfolding send_rest recover
handle_popped wake link reply (err _) = record { sent = send_raised; link = link; effects = [] }
handle_popped wake link reply (ok popped) = recover wake (send_rest link reply popped)

-- `_consume_queue_one` behind the yield of a transaction
unfoldable pub consume_txn : {O : Type 0} → Str → ℕ → Bool → Link → Reply → Events O → Round
unfolding handle_popped
consume_txn owner_mxid now wake link reply txn =
    handle_popped wake link reply (pop_expired_pdu owner_mxid max_pdu_age_ms now txn)

-- `should_wakeup` with `az.push_key`, `self.websockets.get(az.id)` and `self.prev_wakeup_push`
unfoldable pub should_wakeup : Bool → Option Link → Dict ℕ ℕ → ℕ → ℕ → Bool → ℕ → ℕ → Bool
should_wakeup has_key ws prev_wakeup_push az now only_if_ws_timeout since_push since_message =
    if has_key
    then (let recent =
          ltb now ((elim (Dict.get az prev_wakeup_push) [ none ↦ 0 | some t ↦ t ]) + since_push) in
        elim ws [
          | none ↦ if recent then false else true
          | some link ↦
              if (if only_if_ws_timeout then nat_beq link.timeouts 0 else false)
              then false
              else if ltb now (link.last_received + since_message)
              then false
              else if recent
              then false
              else true
        ])
    else false

-- What happens in one turn of the loop of `_consume_queue`: the transactions that other tasks push
-- before the read and while it is sent, how the request ends, the clock in milliseconds, what
-- `should_wakeup` says, and whether the socket is dead behind it. Polls that found nothing are left
-- out.
pub record Visit (O : Type 0) : Type 0 where
  pub before : List (Events O)
  pub during : List (Events O)
  pub reply : Reply
  pub now : ℕ
  pub wake : Bool
  pub dies : Bool

module _ {O : Type 0} (codec : Codec O) (union : List Str → List Str → List Str) (redis : Stream)
    (owner_mxid : Str) where
  open redis use {State, xdel}

  -- The stream, and what the consumer has done: the rounds, each with its transaction. `running` is
  -- false once an exception of `queue.next` has ended the loop.
  pub record World : Type 0 where
    pub stream : State
    pub link : Link
    pub running : Bool
    pub rounds : List (Round × Events O)

  unfoldable pub push_txns : List (Events O) → State → State
  push_txns [] s = s
  push_txns (txn ∷ txns) s = push_txns txns (push codec union redis txn s)

  unfoldable pub die : Bool → Link → Link
  die b link = if b then record link { dead = true } else link

  -- Behind the `yield` of a transaction, up to the end of the `async with`.
  unfoldable pub finish_round : Visit O → World → State → Events O → List ℕ → World
  unfolding die
  finish_round v w s txn ids =
      let r = consume_txn owner_mxid v.now v.wake w.link v.reply txn in
      record w {
        stream = acknowledge codec union redis (body_raised r.sent) ids (push_txns v.during s);
        link = die v.dies r.link;
        rounds = w.rounds ++ (r, txn) ∷ [];
      }

  unfoldable pub consume_queue_one : Visit O → World → State → World
  unfolding finish_round die
  consume_queue_one v w s = elim (next codec union redis false (some s ∷ [])) [
    | yielded txn ids ↦ finish_round v w s txn ids
    | raised _ ↦ record w { stream = push_txns v.during s; running = false }
    | _ ↦ record w { stream = push_txns v.during s; link = die v.dies w.link }
  ]

  -- `while not ws.dead`; the pushes go on when the loop has ended.
  unfoldable pub turn : Visit O → World → World
  unfolding consume_queue_one
  turn v w =
      let s = push_txns v.before w.stream in
      if (if w.link.dead then false else w.running)
      then consume_queue_one v w s
      else record w { stream = push_txns v.during s }

  unfoldable pub consume_queue : List (Visit O) → World → World
  unfolding turn
  consume_queue [] w = w
  consume_queue (v ∷ vs) w = consume_queue vs (turn v w)
