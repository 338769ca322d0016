-- ===== src/Websocket/Called.antt =====
-- The answer to a request of the other side, `_call_handler`, and what a `WebsocketHandler` on the
-- other side makes of it (mautrix_asmux/api/websocket_util.py).
use mautrix_asmux.Prelude.{
  ℕ, ◌≡◌, Option, none, some, Str, text, str_eq, str_beq, nat_eq, one_of, arith, beq_refl,
}
use mautrix_asmux.Result.{ok}
use mautrix_asmux.Json.{Json, null, num, str, obj, Fields, end, field, get, is_one_of}
use mautrix_asmux.Dict
use mautrix_asmux.Dict.{Dict, get-remove}
use mautrix_asmux.Websocket.{
  Future, pending, result, error_response, Socket, complete, error_of, resolve, handle_answer,
  dispatch, req_id_of, handle_text,
}

-- How a handler ends: it returns, `none` for None, or it raises an exception of the given class with
-- the given text.
pub data Outcome : Type 0 where
  returned : Option Json → Outcome
  raised : Str → Str → Outcome

abbrev or_null : Option Json → Json
or_null none = null
or_null (some v) = v

-- `send(command=..., id=..., data=...)`
unfoldable pub reply : Str → ℕ → Json → Fields
reply command id payload =
    field (text "command") (str command)
      (field (text "id") (num id) (field (text "data") payload end))

unfoldable pub error_data : Str → Str → Fields
error_data code message = field (text "code") (str code) (field (text "message") (str message) end)

-- `_call_handler`: the message that it sends.
unfoldable pub call_handler : Option ℕ → Outcome → Option Fields
unfolding reply error_data
call_handler none o = none
call_handler (some id) (returned v) = some (reply (text "response") id (or_null v))
call_handler (some id) (raised code message) =
    some (reply (text "error") id (obj (error_data code message)))

-- What the future of the request is given.
unfoldable pub told : Outcome → Future
unfolding error_data
told (returned v) = result (some (or_null v))
told (raised code message) = error_response (obj (error_data code message))

-- What a handler returns or raises on one side is what the request returns or raises on the other:
-- where the request waits, the message completes its future, without an exception, and the waiter is
-- gone.
pub handle_text-call_handler :
    (parse_int : Str → Option ℕ) (id : ℕ) (o : Outcome) (message : Fields) (command : Str)
    (s : Socket)
    → call_handler (some id) o ≡ some message
    → Dict.get id s.request_waiters ≡ some command
    → s.futures id ≡ pending
    → let (r, t) = handle_text parse_int (obj message) s in
      (r ≡ ok tt) × (t.futures id ≡ told o) × (Dict.get id t.request_waiters ≡ none)
unfolding call_handler told reply error_data handle_text req_id_of dispatch handle_answer resolve
    complete error_of is_one_of one_of get text str_beq
handle_text-call_handler parse_int id (returned v) message command s h waits open_ = (
  ground (arith, h, waits, open_),
  ground (arith, h, waits, open_),
  ground (arith, h, waits, open_, get-remove id id s.request_waiters, beq_refl id),
)
handle_text-call_handler parse_int id (raised code m) message command s h waits open_ = (
  ground (arith, h, waits, open_),
  ground (arith, h, waits, open_),
  ground (arith, h, waits, open_, get-remove id id s.request_waiters, beq_refl id),
)
