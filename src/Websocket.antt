-- ===== src/Websocket.antt =====
-- `WebsocketHandler`: requests over a websocket, their answers, and the requests of the other side
-- (mautrix_asmux/api/websocket_util.py). Log messages are left out.
pub mod Pending
pub mod Settled
pub mod Answers
pub mod Called
use mautrix_asmux.Prelude.{
  ℕ, ◌+◌, Bool, true, false, not, ◌||◌, Option, none, some, List, [], ◌∷◌, ◌++◌, Str, text, nat_eq,
  str_eq, nat_beq, if◌then◌else◌, is_some, one_of,
}
use mautrix_asmux.Errors.{
  Exn, key_error, type_error, attribute_error, invalid_state, connection_error,
}
use mautrix_asmux.Result.{Result, ok, err}
use mautrix_asmux.Json.{Json, null, bool, num, str, arr, obj, Fields, get, is_one_of}
use mautrix_asmux.Exec.{Exec, pure, raise, lift, gets, modify, raise_if, ◌>>=◌, ◌>>◌}
use mautrix_asmux.Dict
use mautrix_asmux.Dict.{Dict}

-- The future of a request: not made yet, waiting, cancelled by its reader, or done.
pub data Future : Type 0 where
  absent pending cancelled : Future
  result : Option Json → Future
  error_response : Json → Future
  closed : Future

-- What is started in the background: a message that is sent, or a call of a handler.
pub data Task : Type 0 where
  send_unknown_command : ℕ → Json → Task
  call_handler : Str → Option ℕ → Option Json → Task

-- A waiter is the command of its request; the future is the one with the number of the request.
pub record Socket : Type 0 where
  pub prev_req_id : ℕ
  pub request_waiters : Dict ℕ Str
  pub command_handlers : List Str
  pub futures : ℕ → Future
  pub tasks : List Task

abbrev pub set_future : ℕ → Future → Socket → Socket
set_future id f s = record s { futures = λ j. if nat_beq id j then f else s.futures j }

-- `set_handler`
unfoldable pub set_handler : Str → Socket → Socket
set_handler command s = record s { command_handlers = command ∷ s.command_handlers }

-- `fut.set_result` and `fut.set_exception`
unfoldable pub complete : ℕ → Future → Exec Socket (Unit {0})
complete id f s = elim (s.futures id) [
  | pending ↦ (ok tt, set_future id f s)
  | _ ↦ (err invalid_state, s)
]

-- `request` up to the `await`, which then waits for the future with the number that is returned. The
-- argument `sent` says whether `send_json` has gone through.
unfoldable pub request : Str → Bool → Bool → Exec Socket ℕ
request command raise_errors sent = do
  modify (λ s. record s { prev_req_id = s.prev_req_id + 1 })
  req_id ← gets (λ s. s.prev_req_id)
  modify (set_future req_id pending)
  modify (λ s. record s { request_waiters = Dict.set req_id command s.request_waiters })
  raise_if (if sent then false else raise_errors) connection_error
  pure req_id

-- The reader gives up: `asyncio.wait_for` cancels the future that it waits for.
unfoldable pub cancel : ℕ → Socket → Socket
cancel id s = elim (s.futures id) [ pending ↦ set_future id cancelled s | _ ↦ s ]

-- The body of the loop of `_clear_request_waiters`
unfoldable pub close_waiter : Socket → ℕ → Socket
close_waiter s id = elim (s.futures id) [ pending ↦ set_future id closed s | _ ↦ s ]

unfoldable pub close_waiters : Dict ℕ Str → Socket → Socket
unfolding close_waiter
close_waiters [] s = s
close_waiters ((id, _) ∷ waiters) s = close_waiters waiters (close_waiter s id)

unfoldable pub clear_request_waiters : Socket → Socket
unfolding close_waiters
clear_request_waiters s = record (close_waiters s.request_waiters s) { request_waiters = [] }

-- `WebsocketErrorResponse(data)`, which reads `data["message"]`: an absent `data` is `None`.
unfoldable pub error_of : Option Json → Result Future
error_of (some (obj d)) = elim (get (text "message") d) [
  | none ↦ err key_error
  | some _ ↦ ok (error_response (obj d))
]
error_of _ = err type_error

-- The branch for a command without a handler
unfoldable pub answer_unknown : Json → Option ℕ → Socket → Socket
answer_unknown command none s = s
answer_unknown command (some id) s =
    if nat_beq id 0 then s else record s { tasks = s.tasks ++ send_unknown_command id command ∷ [] }

-- The answer to a request of ours. A waiter whose future was cancelled is only dropped.
unfoldable pub resolve : Bool → ℕ → Option Json → Exec Socket (Unit {0})
unfolding complete error_of
resolve is_error id payload s =
    let popped : Socket = record s { request_waiters = Dict.remove id s.request_waiters } in
    elim (s.futures id) [
      | cancelled ↦ (ok tt, popped)
      | _ ↦
          if is_error
          then (do f ← lift (error_of payload); complete id f) popped
          else complete id (result payload) popped
    ]

unfoldable pub handle_answer : Bool → Option ℕ → Option Json → Exec Socket (Unit {0})
unfolding resolve
handle_answer is_error none payload s = (ok tt, s)
handle_answer is_error (some id) payload s = elim (Dict.get id s.request_waiters) [
  | none ↦ (ok tt, s)
  | some _ ↦ resolve is_error id payload s
]

-- A request of the other side. An unknown command is answered if its id is not 0.
unfoldable pub handle_command : Json → Option ℕ → Option Json → Exec Socket (Unit {0})
handle_command (str command) id payload s =
    if one_of command s.command_handlers
    then (ok tt, record s { tasks = s.tasks ++ call_handler command id payload ∷ [] })
    else (ok tt, answer_unknown (str command) id s)
handle_command (arr _) id payload s = (err type_error, s)
handle_command (obj _) id payload s = (err type_error, s)
handle_command command id payload s = (ok tt, answer_unknown command id s)

-- `_handle_text` behind the reading of the command and the id
unfoldable pub dispatch : Json → Option ℕ → Option Json → Exec Socket (Unit {0})
unfolding handle_answer handle_command
dispatch command id payload =
    if is_one_of (some command) (text "response" ∷ text "error" ∷ [])
    then handle_answer (is_one_of (some command) (text "error" ∷ [])) id payload
    else handle_command command id payload

module _ (parse_int : Str → Option ℕ) where
  -- `int(req["id"])`, where `KeyError` and `ValueError` end in `None`
  unfoldable pub req_id_of : Fields → Result (Option ℕ)
  req_id_of req = elim (get (text "id") req) [
    | none ↦ ok none
    | some (num n) ↦ ok (some n)
    | some (bool b) ↦ ok (some (if b then 1 else 0))
    | some (str s) ↦ ok (parse_int s)
    | some _ ↦ err type_error
  ]

  -- `_handle_text`, behind the decoding of the message
  unfoldable pub handle_text : Json → Exec Socket (Unit {0})
  unfolding req_id_of dispatch
  handle_text (obj req) = elim (get (text "command") req) [
    | none ↦ pure tt
    | some command ↦ (do id ← lift (req_id_of req); dispatch command id (get (text "data") req))
  ]
  handle_text _ = raise attribute_error

-- What happens to a connection: a call of `request`, the end of a reader, and a text message.
pub data Input : Type 0 where
  requests : Str → Bool → Bool → Input
  cancels : ℕ → Input
  receives : Json → Input

-- `__init__`, and the calls of `set_handler` that follow it
abbrev pub opened : List Str → Socket
opened commands = record {
  prev_req_id = 0;
  request_waiters = [];
  command_handlers = commands;
  futures = λ _. absent;
  tasks = [];
}

module _ (parse_int : Str → Option ℕ) where
  -- `handle` logs an exception of `_handle_text` and goes on.
  unfoldable pub react : Input → Socket → Socket
  react (requests command raise_errors sent) s = (request command raise_errors sent s).1
  react (cancels id) s = cancel id s
  react (receives message) s = (handle_text parse_int message s).1

  -- `handle`, whose last act is to clear the waiters
  unfoldable pub handle : List Input → Socket → Socket
  unfolding react
  handle [] s = clear_request_waiters s
  handle (i ∷ is) s = handle is (react i s)
