-- ===== src/Requester/Commands.antt =====
-- What the sender of a command is told (mautrix_asmux/api/as_requester.py and
-- mautrix_asmux/api/management_api.py).
use mautrix_asmux.Prelude.{
  ℕ, ◌≤◌, ◌≡◌, refl, false, Option, none, some, Str, text, str_eq, str_beq, arith, beq_refl,
}
use mautrix_asmux.Result.{ok}
use mautrix_asmux.Json.{Json, null, str, obj, Fields, get}
use mautrix_asmux.Store.{AppService}
use mautrix_asmux.Requester.{
  Posted, posted, command_result, result_fields, as_status, read_result, read_answer, exec_command,
  is_container, exec_response, send_fail,
}
use mautrix_asmux.Requester.Attempts.{IsSilent, first_reply}

read_result-result_fields : (r : ℕ × Json) → read_result (result_fields r) ≡ ok r
unfolding read_result result_fields as_status get text str_beq
read_result-result_fields (status, resp) = refl

-- Where the appservice is not one for HTTP, the sender of a command gets the status and the answer
-- that the other instance has pushed in reply to one of the five attempts, if the first reply is
-- that of the other instance, or 504 if there is no reply.
pub exec_command-result :
    (az : AppService) (p : Posted) (replies : ℕ → Option Fields) (k : ℕ)
    → az.push ≡ false
    → 1 ≤ k
    → k ≤ 5
    → IsSilent replies 1 k
    → replies k ≡ some (result_fields (command_result p))
    → exec_command az replies ≡ ok (command_result p)
unfolding exec_command read_answer
exec_command-result az p replies k websocket low high silent reply =
    rw
      (
        websocket,
        exec_command,
        first_reply replies k (result_fields (command_result p)) low high silent reply,
        read_answer,
      )
      (read_result-result_fields (command_result p))

get-send_fail :
    (show : Json → Str) (v : Json)
    → get (text "errcode") (send_fail show v) ≡ some (str (text "FI.MAU.WEBSOCKET_SEND_FAIL"))
unfolding send_fail get
get-send_fail show v = ground (arith, beq_refl (text "errcode"))

-- A command that the client has carried out, but to which it has replied without data or with a value
-- that is neither a list nor an object, is reported with the status 200 and the error code of a
-- command that could not be sent.
pub exec_response-replied :
    (show : Json → Str) (v : Option Json)
    → is_container (command_result (posted v)).1 ≡ false
    → let (status, body) = exec_response show (command_result (posted v)) in
      (status ≡ 200)
      × ((d : Fields) × (body ≡ obj d)
          × (get (text "errcode") d ≡ some (str (text "FI.MAU.WEBSOCKET_SEND_FAIL"))))
unfolding exec_response command_result
exec_response-replied show none h = (refl, (send_fail show null, refl, get-send_fail show null))
exec_response-replied show (some v) h =
    (ground (arith, h), (send_fail show v, ground (arith, h), get-send_fail show v))
