-- ===== src/Requester/SyncErrors.antt =====
-- The errors of the sync proxy, which a bridge is told: `handle_syncproxy_error`
-- (mautrix_asmux/api/as_proxy.py), `send_syncproxy_error` and `handle_syncproxy_error_request`
-- (mautrix_asmux/api/as_requester.py), and `post_syncproxy_error` (mautrix_asmux/api/as_websocket.py).
pub mod Told
use mautrix_asmux.Prelude.{
  ℕ, ◌+◌, Bool, true, false, not, Option, none, some, List, [], ◌∷◌, ◌++◌, Str, text, str_eq,
  nat_eq, ◌==◌, leb, keep, one_of, if◌then◌else◌, is_some,
}
use mautrix_asmux.Errors.{
  Exn, http, HttpError, type_error, value_error, key_error, connection_error,
}
use mautrix_asmux.Result.{Result, ok, err, or_raise}
use mautrix_asmux.Exec.{Exec, pure, raise, lift, gets, modify, ◌>>=◌, ◌>>◌}
use mautrix_asmux.Json.{Json, str, obj, Fields, get}
use mautrix_asmux.Json.Holding.{item}
use mautrix_asmux.Env.{Env}
use mautrix_asmux.Store.{Store, AppService, read}
use mautrix_asmux.Database.Azs
use mautrix_asmux.Requester.{Answer, replied, request_timed_out, handle_request_over_redis}

unfoldable pub sync_answer : Option (Answer Json × ℕ) → Result Json
sync_answer none = err type_error
sync_answer (some (request_timed_out, _)) = ok (str (text "websocket-send-fail"))
sync_answer (some (replied v, _)) = ok v

-- `send_syncproxy_error`; the replies are what the attempts take from the list, decoded.
unfoldable pub send_syncproxy_error : AppService → (ℕ → Option Json) → Result Json
unfolding sync_answer handle_request_over_redis
send_syncproxy_error az replies =
    if az.push
    then err (http HttpError.syncproxy_error_not_supported)
    else sync_answer (handle_request_over_redis replies)

-- The database and its caches, and the ids of the transactions that are done.
pub record Receiver : Type 0 where
  pub store : Store
  pub transactions : List Str

unfoldable pub parse_id : Env → Option Str → Result ℕ
parse_id env none = err (http HttpError.missing_appservice_id_query)
parse_id env (some s) = or_raise (env.parse_uuid s) (http HttpError.invalid_appservice_id_query)

unfoldable pub get_az : ℕ → Exec Receiver (Option ℕ)
get_az id s = let (r, store) = Azs.get id s.store in (r, record s { store = store })

-- `self.transactions.add(txn_id)`
unfoldable pub mark_done : Str → Receiver → Receiver
mark_done txn_id s = record s { transactions = txn_id ∷ s.transactions }

unfoldable pub pass_on : Str → ℕ → (ℕ → Option Json) → Option ℕ → Exec Receiver (ℕ × Json)
unfolding send_syncproxy_error mark_done
pass_on txn_id id replies none = raise (http HttpError.appservice_not_found)
pass_on txn_id id replies (some r) = do
  az ← gets (λ (s : Receiver). read s.store.azs r)
  sent ← lift (send_syncproxy_error az replies)
  modify (mark_done txn_id)
  pure (id, sent)

-- `handle_syncproxy_error`: the one entry of `sent_to`. The header is what `_read_transaction_header`
-- returns or raises, of which the id of the transaction matters here, and the id of the appservice
-- stands in the query.
unfoldable pub handle_syncproxy_error :
    Env → Result Str → Option Str → (ℕ → Option Json) → Exec Receiver (ℕ × Json)
unfolding parse_id get_az pass_on
handle_syncproxy_error env header appservice_id replies = do
  txn_id ← lift header
  id ← lift (parse_id env appservice_id)
  found ← get_az id
  pass_on txn_id id replies found

-- How the request over a websocket ends: with an answer, a timeout, or another exception.
pub data Posting : Type 0 where
  acknowledged timed_out failed : Posting

-- The websocket of the appservice at this instance.
pub record Peer : Type 0 where
  pub proto : ℕ
  pub timeouts : ℕ

-- `post_syncproxy_error`: what it returns, and the websocket behind it. Over the first protocol,
-- which has no answers, `acknowledged` says that the sending did not raise.
unfoldable pub post_syncproxy_error : Option Peer → Posting → Str × Option Peer
post_syncproxy_error none p = (text "websocket-not-connected", none)
post_syncproxy_error (some ws) acknowledged = (text "ok", some ws)
post_syncproxy_error (some ws) timed_out =
    (text "websocket-send-fail", some (record ws { timeouts = ws.timeouts + 1 }))
post_syncproxy_error (some ws) failed = (text "websocket-send-fail", some ws)

-- The other instance: its tables, `in_flight_syncproxy_error_requests`, its websockets by the id of
-- the appservice, and what this handler has pushed, with the appservice and the transaction that name
-- the list.
pub record Instance : Type 0 where
  pub store : Store
  pub in_flight : List Str
  pub websockets : ℕ → Option Peer
  pub pushed : List (ℕ × Str × Str)

-- What the messages that are handled at the same time make of `in_flight_syncproxy_error_requests` while
-- this one waits for `AppService.get`, for the websocket, and for Redis. Their answers are not listed,
-- and the websockets stay as they are meanwhile.
pub record Others : Type 0 where
  pub lookup : List Str → List Str
  pub posting : List Str → List Str
  pub pushing : List Str → List Str

-- How `_push_request_response` ends: the answer is in the list, or it raises, and the argument says
-- whether Redis has put the answer there.
pub data Push : Type 0 where
  stored : Push
  push_failed : Bool → Push

unfoldable pub find_az : Others → ℕ → Exec Instance (Option ℕ)
find_az o id s =
    let (r, store) = Azs.get id s.store in
    (r, record s { store = store; in_flight = o.lookup s.in_flight })

-- An id in a message is a text.
unfoldable pub text_of : Json → Result Str
text_of (str s) = ok s
text_of _ = err type_error

-- `websockets[id]` behind `post_syncproxy_error`
unfoldable pub set_peer : ℕ → Option Peer → (ℕ → Option Peer) → ℕ → Option Peer
set_peer id ws websockets j = if id == j then ws else websockets j

-- `_push_request_response` and the removal from the set, which raises where the id is not there; where
-- the push raised, the id stays.
unfoldable pub push_answer : Push → ℕ × Str × Str → Exec Instance (Unit {0})
push_answer stored (id, txn_id, response) s =
    let t : Instance = record s { pushed = (id, txn_id, response) ∷ s.pushed } in
    if one_of txn_id s.in_flight
    then (ok tt, record t { in_flight = keep (λ j. not (j == txn_id)) s.in_flight })
    else (err key_error, t)
push_answer (push_failed there) answer s =
    (err connection_error, if there then record s { pushed = answer ∷ s.pushed } else s)

-- The part for an appservice that is connected here.
unfoldable pub answer_here : Others → Posting → Push → ℕ → Str → Exec Instance (Unit {0})
unfolding post_syncproxy_error set_peer push_answer
answer_here o p q id txn_id s =
    let (response, ws) = post_syncproxy_error (s.websockets id) p in
    let t : Instance = record s {
      in_flight = o.pushing (o.posting (txn_id ∷ s.in_flight));
      websockets = set_peer id ws s.websockets;
    } in
    push_answer q (id, txn_id, response) t

unfoldable pub answer_if : Others → Posting → Push → Str → Option ℕ → Exec Instance (Unit {0})
unfolding answer_here
answer_if o p q txn_id none s = (ok tt, s)
answer_if o p q txn_id (some r) s =
    let key = (read s.store.azs r).id in
    if is_some (s.websockets key) then answer_here o p q key txn_id s else (ok tt, s)

-- `handle_syncproxy_error_request` behind the test of the set, which is not tested again
unfoldable pub handle_new : Env → Fields → Str → Others → Posting → Push → Exec Instance (Unit {0})
unfolding find_az text_of answer_if
handle_new env request txn_id o p q = do
  az_id ← lift (item (text "az_id") (obj request))
  s_id ← lift (text_of az_id)
  id ← lift (or_raise (env.parse_uuid s_id) value_error)
  found ← find_az o id
  told ← lift (item (text "data") (obj request))
  answer_if o p q txn_id found

unfoldable pub handle_if_new :
    Env → Fields → Str → Others → Posting → Push → Exec Instance (Unit {0})
unfolding handle_new
handle_if_new env request txn_id o p q s =
    if one_of txn_id s.in_flight then (ok tt, s) else handle_new env request txn_id o p q s

-- `handle_syncproxy_error_request`, for a message that is an object.
unfoldable pub handle_syncproxy_error_request :
    Env → Fields → Others → Posting → Push → Exec Instance (Unit {0})
unfolding handle_if_new text_of
handle_syncproxy_error_request env request o p q = do
  v ← lift (item (text "txn_id") (obj request))
  txn_id ← lift (text_of v)
  handle_if_new env request txn_id o p q
