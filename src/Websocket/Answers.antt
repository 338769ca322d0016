-- ===== src/Websocket/Answers.antt =====
-- The exceptions of an answer, and error replies without a message
-- (mautrix_asmux/api/websocket_util.py).
use mautrix_asmux.Prelude.{
  ℕ, ◌≡◌, ◌≢◌, refl, ◌∙◌, Bool, true, false, Option, none, some, [], ◌∷◌, Str, text, arith, nat_eq,
  inl, inr, Option-cases, one_of, str_beq,
}
use mautrix_asmux.Errors.{Exn, key_error, invalid_state}
use mautrix_asmux.Result.{Result, ok, err}
use mautrix_asmux.Json.{Json, null, bool, num, str, arr, obj, Fields, get, is_one_of}
use mautrix_asmux.Exec.{continue}
use mautrix_asmux.Dict
use mautrix_asmux.Dict.{Dict, get-set, get-remove}
use mautrix_asmux.Websocket.{
  pending, Socket, complete, clear_request_waiters, error_of, req_id_of, resolve, handle_answer,
  handle_command, dispatch, handle_text, receives, react, handle,
}
use mautrix_asmux.Websocket.Pending.{IsTracked, carries_message, is_open}
use mautrix_asmux.Websocket.Settled.{clear_lem}

-- The exceptions on the way, of which none is `InvalidStateError`.
error_of_valid : (payload : Option Json) → error_of payload ≢ err invalid_state
unfolding error_of
error_of_valid none e = cc
error_of_valid (some null) e = cc
error_of_valid (some (bool _)) e = cc
error_of_valid (some (num _)) e = cc
error_of_valid (some (str _)) e = cc
error_of_valid (some (arr _)) e = cc
error_of_valid (some (obj d)) e = ground arith

resolve_valid :
    (is_error : Bool) (id : ℕ) (payload : Option Json) (s : Socket)
    → is_open (s.futures id) ≡ true
    → (resolve is_error id payload s).0 ≢ err invalid_state
unfolding resolve complete is_open
resolve_valid is_error id payload s h e = ground (arith, error_of_valid payload)

handle_answer_valid :
    (is_error : Bool) (id : Option ℕ) (payload : Option Json) (s : Socket)
    → IsTracked s
    → (handle_answer is_error id payload s).0 ≢ err invalid_state
unfolding handle_answer
handle_answer_valid is_error none payload s h e = cc
handle_answer_valid is_error (some id) payload s h e =
    ground (arith, h.unanswered id, resolve_valid is_error id payload s)

handle_command_valid :
    (command : Json) (id : Option ℕ) (payload : Option Json) (s : Socket)
    → (handle_command command id payload s).0 ≢ err invalid_state
unfolding handle_command
handle_command_valid null id payload s e = cc
handle_command_valid (bool _) id payload s e = cc
handle_command_valid (num _) id payload s e = cc
handle_command_valid (str _) id payload s e = ground arith
handle_command_valid (arr _) id payload s e = cc
handle_command_valid (obj _) id payload s e = cc

dispatch_valid :
    (command : Json) (id : Option ℕ) (payload : Option Json) (s : Socket)
    → IsTracked s
    → (dispatch command id payload s).0 ≢ err invalid_state
unfolding dispatch
dispatch_valid command id payload s h e = ground (
  arith,
  handle_answer_valid (is_one_of (some command) (text "error" ∷ [])) id payload s h,
  handle_command_valid command id payload s,
)

error_of_fails :
    (payload : Option Json)
    → carries_message payload ≡ false
    → (e : Exn) × (error_of payload ≡ err e)
unfolding carries_message error_of
error_of_fails none m = (_, refl)
error_of_fails (some null) m = (_, refl)
error_of_fails (some (bool _)) m = (_, refl)
error_of_fails (some (num _)) m = (_, refl)
error_of_fails (some (str _)) m = (_, refl)
error_of_fails (some (arr _)) m = (_, refl)
error_of_fails (some (obj d)) m = (key_error, ground arith)

-- A waiter that is taken away without an answer.
forget : ℕ → Socket → Socket
forget id s = record s { request_waiters = Dict.remove id s.request_waiters }

resolve_forgets :
    (id : ℕ) (payload : Option Json) (s : Socket)
    → s.futures id ≡ pending
    → carries_message payload ≡ false
    → (resolve true id payload s).1 ≡ forget id s
unfolding resolve forget
resolve_forgets id payload s p m = let (e, q) = error_of_fails payload m in rw (resolve, p, q) refl

clear_forgets :
    (id : ℕ) (s : Socket)
    → s.futures id ≡ pending
    → (clear_request_waiters (forget id s)).futures id ≡ pending
unfolding clear_request_waiters forget
clear_forgets id s p = ground (
  arith,
  clear_lem id (Dict.remove id s.request_waiters) (forget id s),
  get-remove id id s.request_waiters,
)

dispatch_named :
    (id : Option ℕ) (payload : Option Json) (s : Socket)
    → dispatch (str (text "error")) id payload s ≡ handle_answer true id payload s
unfolding dispatch is_one_of one_of text str_beq
dispatch_named id payload s = refl

dispatch_error :
    (id : ℕ) (payload : Option Json) (s : Socket)
    → IsTracked s
    → s.futures id ≡ pending
    → carries_message payload ≡ false
    → (dispatch (str (text "error")) (some id) payload s).1 ≡ forget id s
unfolding handle_answer
dispatch_error id payload s h p m = elim (Option-cases (Dict.get id s.request_waiters)) [
  | inl miss ↦ absurd (ground (arith, miss, h.waited id p))
  | inr (c, hit) ↦ rw (dispatch_named, handle_answer, hit) (resolve_forgets id payload s p m)
]

err_as :
    {A B : Type 0} {e x : Exn}
    → ◌≡◌ {A = Result A} (err e) (err x)
    → ◌≡◌ {A = Result B} (err e) (err x)
err_as h = ground arith

module _ (parse_int : Str → Option ℕ) where
  req_id_of_valid : (req : Fields) → req_id_of parse_int req ≢ err invalid_state
  unfolding req_id_of
  req_id_of_valid req e =
      elim (get (text "id") req) as (λ v. get (text "id") req ≡ v → ⊥) [
        | none ↦ λ q. ground (arith, q)
        | some null ↦ λ q. ground (arith, q)
        | some (bool b) ↦ λ q. ground (arith, q)
        | some (num n) ↦ λ q. ground (arith, q)
        | some (str t) ↦ λ q. ground (arith, q)
        | some (arr l) ↦ λ q. ground (arith, q)
        | some (obj d) ↦ λ q. ground (arith, q)
      ]
        refl

  -- Where every waiter has a future that is not done, no message makes `set_result` or
  -- `set_exception` raise `InvalidStateError`.
  pub handle_text_valid :
      (message : Json) (s : Socket)
      → IsTracked s
      → (handle_text parse_int message s).0 ≢ err invalid_state
  unfolding handle_text
  handle_text_valid (obj req) s h e = elim (Option-cases (get (text "command") req)) [
    | inl ignored ↦ absurd (ground (arith, ignored))
    | inr (command, there) ↦
        elim (req_id_of parse_int req)
            as (λ r.
              req_id_of parse_int req ≡ r
              → (continue r s (λ id. dispatch command id (get (text "data") req))).0
                ≢ err invalid_state) [
                  | err x ↦ λ q f. req_id_of_valid req (q ∙ err_as f)
                  | ok id ↦ λ q f. dispatch_valid command id _ s h f
                ]
          refl (rw (there, handle_text) at e)
  ]
  handle_text_valid null s h e = cc
  handle_text_valid (bool _) s h e = cc
  handle_text_valid (num _) s h e = cc
  handle_text_valid (str _) s h e = cc
  handle_text_valid (arr _) s h e = cc

  -- Where every pending future has a waiter, an error reply to a pending request whose data is not an
  -- object with a message leaves the future pending, even behind the end of the connection.
  pub error_reply_forgets :
      (req : Fields) (id : ℕ) (s : Socket)
      → IsTracked s
      → s.futures id ≡ pending
      → get (text "command") req ≡ some (str (text "error"))
      → req_id_of parse_int req ≡ ok (some id)
      → carries_message (get (text "data") req) ≡ false
      → (handle parse_int (receives (obj req) ∷ []) s).futures id ≡ pending
  unfolding handle react handle_text dispatch handle_answer
  error_reply_forgets req id s h p c i m =
      rw (handle, react, handle_text, c, i)
        (rw (dispatch_error id _ s h p m) (clear_forgets id s p))
