-- ===== src/Tests/Connections.antt =====
-- Requests over a websocket, and transactions over HTTP.
use mautrix_asmux.Prelude.{
  ℕ, ◌≡◌, ◌≤◌, refl, true, false, Option, none, some, List, [], ◌∷◌, Str, text, nat_eq, nat_beq,
  if◌then◌else◌, str_beq, one_of, arith,
}
use mautrix_asmux.Dict
use mautrix_asmux.Result.{ok}
use mautrix_asmux.Json
use mautrix_asmux.Json.{Json, str, num, obj, Fields, end, field}
use mautrix_asmux.Websocket.{
  Socket, Input, requests, cancels, receives, opened, react, request, handle, handle_text, pending,
}
use mautrix_asmux.Websocket
use mautrix_asmux.Websocket.Pending.{
  IsTracked, is_acceptable, is_well_formed, carries_message, opened-IsTracked, react-IsTracked,
}
use mautrix_asmux.Websocket.Settled.{is_settled, handle-opened_settles}
use mautrix_asmux.Websocket.Called
use mautrix_asmux.Websocket.Called.{raised, call_handler, told, handle_text-call_handler}
use mautrix_asmux.Websocket.Answers.{error_reply_forgets}
use mautrix_asmux.Http.{
  Put, client_error, exception, response, Effect, Ended, returned, post_events, judge,
}
use mautrix_asmux.Http.Attempts.{puts, Tries, post_events_total, post_events_delivers}
use mautrix_asmux.Tests.Samples.{bundle}

abbrev no_numbers : Str → Option ℕ
no_numbers _ = none

abbrev reply : Str → Fields → Fields
reply command content =
    field (text "command") (str command)
      (field (text "id") (num 1) (field (text "data") (obj content) end))

-- A request that is answered, and one that is not.
abbrev life : List Input
life =
    requests (text "ping") true true
    ∷ receives (obj (reply (text "response") end))
    ∷ requests (text "ping") true true
    ∷ []

unfoldable open_socket : Unit {0}
unfolding handle react request handle_text Websocket.dispatch Websocket.handle_answer
    Websocket.req_id_of Websocket.resolve Websocket.complete Websocket.clear_request_waiters
    Websocket.close_waiters Websocket.close_waiter Websocket.error_of Dict.get Dict.set Dict.remove
    Json.get Json.is_one_of one_of text str_beq is_acceptable is_well_formed carries_message
open_socket = tt

life_ids : 2 ≤ (handle no_numbers life (opened [])).prev_req_id
unfolding open_socket
life_ids = omega arith

life_good : is_well_formed (obj (reply (text "response") end)) ≡ true
unfolding open_socket
life_good = refl

handle-opened_settles_example : is_settled ((handle no_numbers life (opened [])).futures 2) ≡ true
unfolding is_acceptable
handle-opened_settles_example =
    handle-opened_settles no_numbers [] life (refl, (life_good, (refl, tt))) 2 (omega arith)
      life_ids

abbrev asked : Socket
asked = react no_numbers (requests (text "ping") true true) (opened [])

asked-IsTracked : IsTracked asked
unfolding is_acceptable
asked-IsTracked =
    react-IsTracked no_numbers (requests (text "ping") true true) (opened-IsTracked []) refl

asked_pending : asked.futures 1 ≡ pending
unfolding open_socket
asked_pending = refl

reply_command : Json.get (text "command") (reply (text "error") end) ≡ some (str (text "error"))
unfolding open_socket
reply_command = refl

reply_id : Websocket.req_id_of no_numbers (reply (text "error") end) ≡ ok (some 1)
unfolding open_socket
reply_id = refl

reply_empty : carries_message (Json.get (text "data") (reply (text "error") end)) ≡ false
unfolding open_socket
reply_empty = refl

error_reply_forgets_example :
    (handle no_numbers (receives (obj (reply (text "error") end)) ∷ []) asked).futures 1 ≡ pending
error_reply_forgets_example =
    error_reply_forgets no_numbers (reply (text "error") end) 1 asked asked-IsTracked asked_pending
      reply_command reply_id reply_empty

post_events_total_example :
    (x : Ended × List Effect) × (post_events bundle (λ _. exception) (λ _. true) ≡ some x)
    × (puts x.1 ≤ 10)
post_events_total_example = post_events_total bundle (λ _. exception) (λ _. true)

-- The first attempt meets an error, the second succeeds.
abbrev second : ℕ → Put
second i = if nat_beq i 0 then client_error (text "down") else response 200 []

second-Tries : Tries second 1 0
unfolding judge
second-Tries = ((text "down", refl), refl)

post_events_delivers_example :
    (trace : List Effect) × (post_events bundle second (λ _. true)
      ≡ some (returned (text "ok"), trace))
post_events_delivers_example = post_events_delivers bundle second 1 second-Tries (omega arith)

abbrev refusal : Fields
refusal = field (text "command") (str (text "error")) (
    field (text "id") (num 1) (
      field (text "data")
        (obj (
          field (text "code") (str (text "ValueError"))
            (field (text "message") (str (text "no")) end)))
        end))

call-refusal : call_handler (some 1) (raised (text "ValueError") (text "no")) ≡ some refusal
unfolding Called.call_handler Called.reply Called.error_data
call-refusal = refl

waits : Dict.get 1 asked.request_waiters ≡ some (text "ping")
unfolding open_socket
waits = refl

handle_text-call_handler_example :
    let (r, t) = handle_text no_numbers (obj refusal) asked in
    (r ≡ ok tt)
    × (t.futures 1 ≡ told (raised (text "ValueError") (text "no")))
    × (Dict.get 1 t.request_waiters ≡ none)
handle_text-call_handler_example =
    handle_text-call_handler no_numbers 1 (raised (text "ValueError") (text "no")) refusal
      (text "ping") asked call-refusal waits asked_pending
