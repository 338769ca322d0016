-- ===== src/Requester.antt =====
-- Requests between two instances over Redis, and how a transaction is handed on
-- (mautrix_asmux/api/as_requester.py).
pub mod Attempts
pub mod InFlight
pub mod Commands
pub mod Pongs
pub mod Pings
pub mod SyncErrors
pub mod Wakeups
use mautrix_asmux.Prelude.{
  ℕ, zero, suc, ◌+◌, Bool, true, false, not, ◌&&◌, ◌||◌, Option, none, some, List, [], ◌∷◌, ◌++◌,
  Str, text, str_eq, ◌==◌, leb, nat_beq, keep, if◌then◌else◌, is_empty, one_of,
}
use mautrix_asmux.Errors.{Exn, http, HttpError, key_error, type_error}
use mautrix_asmux.Result.{Result, ok, err, ◌>>=◌, or_raise}
use mautrix_asmux.Json.{Json, null, num, str, arr, obj, Fields, end, field, get}
use mautrix_asmux.Store.{AppService}

-- How `_handle_request_over_redis` ends.
pub data Answer {ℓ} (A : Type ℓ) : Type ℓ where
  replied : A → Answer A
  request_timed_out : Answer A

abbrev pub max_attempts : ℕ
max_attempts = 5

-- `replies k` is what `BLPOP` returns in attempt k; the number counts the messages published.
-- `none`: the fuel ran out.
module _ {ℓ} {A : Type ℓ} (replies : ℕ → Option A) where
  unfoldable pub publish_loop : ℕ → ℕ → Option (Answer A × ℕ)
  publish_loop zero attempt = none
  publish_loop (suc fuel) attempt =
      let rest = publish_loop fuel (attempt + 1) in
      elim (replies attempt) [
        | some a ↦ some (replied a, attempt)
        | none ↦ if leb max_attempts attempt then some (request_timed_out, attempt) else rest
      ]

  -- `_handle_request_over_redis`, with as many rounds of fuel as there are attempts
  unfoldable pub handle_request_over_redis : Option (Answer A × ℕ)
  unfolding publish_loop
  handle_request_over_redis = publish_loop max_attempts 1

-- How `post_command` ends: a reply with its data, a `WebsocketErrorResponse`, no websocket, a
-- timeout, or another exception with its text.
pub data Posted : Type 0 where
  posted : Option Json → Posted
  error_response : Fields → Posted
  not_connected timed_out : Posted
  other : Str → Posted

-- `status` and `resp` of `handle_bridge_command_request`
unfoldable pub command_result : Posted → ℕ × Json
command_result (posted none) = (200, null)
command_result (posted (some v)) = (200, v)
command_result (error_response d) = (400, obj d)
command_result not_connected = (503, str (text "websocket not connected"))
command_result timed_out = (504, str (text "timed out waiting for response"))
command_result (other e) = (502, str e)

-- `{"status": status, "resp": resp}`, and how `exec_command` reads it.
unfoldable pub result_fields : ℕ × Json → Fields
result_fields (status, resp) = field (text "status") (num status) (field (text "resp") resp end)

unfoldable pub as_status : Json → Result ℕ
as_status (num n) = ok n
as_status _ = err type_error

unfoldable pub read_result : Fields → Result (ℕ × Json)
unfolding as_status
read_result d = do
  status ← or_raise (get (text "status") d) key_error
  n ← as_status status
  resp ← or_raise (get (text "resp") d) key_error
  ok (n, resp)

unfoldable pub read_answer : Option (Answer Fields × ℕ) → Result (ℕ × Json)
unfolding read_result
read_answer none = err type_error
read_answer (some (request_timed_out, _)) = ok (504, str (text "timed out waiting for response"))
read_answer (some (replied d, _)) = read_result d

-- `exec_command`, without the wakeup that may come first
unfoldable pub exec_command : AppService → (ℕ → Option Fields) → Result (ℕ × Json)
unfolding read_answer handle_request_over_redis
exec_command az replies =
    if az.push
    then err (http HttpError.exec_not_supported)
    else read_answer (handle_request_over_redis replies)

unfoldable pub is_container : Json → Bool
is_container (arr _) = true
is_container (obj _) = true
is_container _ = false

-- `show` is the format of a value in a text.
unfoldable pub send_fail : (Json → Str) → Json → Fields
send_fail show resp =
    field (text "errcode") (str (text "FI.MAU.WEBSOCKET_SEND_FAIL"))
      (field (text "error") (str (text "Failed to send command: " ++ show resp)) end)

-- The end of `ManagementAPI.exec_appservice`
unfoldable pub exec_response : (Json → Str) → ℕ × Json → ℕ × Json
unfolding is_container send_fail
exec_response show (status, resp) =
    if (nat_beq status 200 || nat_beq status 400) && is_container resp
    then (status, resp)
    else (status, obj (send_fail show resp))

-- The requests of one kind that an instance handles: the messages that have passed the test and wait
-- for `AppService.get`, `in_flight_command_requests`, the calls of `post_command` that have begun and
-- those that have ended, by the id of the request.
pub record Handler : Type 0 where
  pub waiting : List Str
  pub in_flight : List Str
  pub begun : List Str
  pub ended : List Str

-- `handle_bridge_command_request` up to the `await`
unfoldable pub check_request : Str → Handler → Handler
check_request id h = if one_of id h.in_flight then h else record h { waiting = id ∷ h.waiting }

unfoldable pub without_first : Str → List Str → List Str
without_first id [] = []
without_first id (j ∷ l) = let rest = without_first id l in if j == id then l else j ∷ rest

-- Behind the `await`, up to the call of `post_command`; the argument says whether the appservice was
-- found and is connected here. The set is not tested again.
unfoldable pub begin_request : Bool → Str → Handler → Handler
unfolding without_first
begin_request connected id h =
    let waiting : List Str = without_first id h.waiting in
    if connected
    then record h { waiting = waiting; in_flight = id ∷ h.in_flight; begun = id ∷ h.begun }
    else record h { waiting = waiting }

-- Behind the call; the argument says whether the answer could be pushed. Where it raised, the id
-- stays in the set.
unfoldable pub end_request : Bool → Str → Handler → Handler
end_request pushed id h =
    let done : Handler = record h { ended = id ∷ h.ended } in
    if pushed then record done { in_flight = keep (λ j. not (j == id)) h.in_flight } else done

-- What `send_transaction` does, in order.
pub data Handed : Type 0 where
  push_http push_websocket ensure_pusher check_later : Handed
  send_wakeup : ℕ → Handed

unfoldable pub wakeups : Bool → List Handed
wakeups wake = if wake then send_wakeup 0 ∷ send_wakeup 15 ∷ [] else []

-- `send_transaction`, where `wake` is what `should_wakeup` says
unfoldable pub send_transaction : AppService → Bool → Str × List Handed
unfolding wakeups
send_transaction az wake =
    if az.push && is_empty az.address
    then (text "no-address", [])
    else if az.push
    then (text "ok", push_http ∷ ensure_pusher ∷ [])
    else (text "ok", push_websocket ∷ (wakeups wake ++ check_later ∷ []))
