-- ===== src/Websocket/Pending.antt =====
-- No request of a `WebsocketHandler` is left waiting (mautrix_asmux/api/websocket_util.py), if the
-- error replies of the other side carry a message; and one is, if they do not.
use mautrix_asmux.Prelude.{
  ℕ, ◌+◌, ◌≤◌, ◌≡◌, ◌≢◌, refl, Bool, true, false, Option, none, some, List, [], ◌∷◌, Str, text,
  arith, if◌then◌else◌, nat_eq, nat_beq, is_some, inl, inr, Option-cases, Bool-cases, one_of,
}
use mautrix_asmux.Result.{ok}
use mautrix_asmux.Json.{Json, null, bool, num, str, arr, obj, get, is_one_of}
use mautrix_asmux.Exec.{continue-keeps}
use mautrix_asmux.Dict
use mautrix_asmux.Dict.{Dict, get-set, get-remove}
use mautrix_asmux.Websocket.{
  Future, absent, pending, cancelled, error_response, Socket, complete, request, cancel, error_of,
  answer_unknown, Task, req_id_of, resolve, handle_answer, handle_command, dispatch, handle_text,
  opened, Input, requests, cancels, receives, react,
}

-- A future that an answer may still complete, or that its reader has given up.
unfoldable pub is_open : Future → Bool
is_open pending = true
is_open cancelled = true
is_open _ = false

-- Every pending future has a waiter, each waiter has a future that is not done, and only the numbers
-- that were given out have futures.
pub record IsTracked (s : Socket) : Type 0 where
  pub waited : (id : ℕ) → s.futures id ≡ pending → is_some (Dict.get id s.request_waiters) ≡ true
  pub unanswered :
      (id : ℕ) → is_some (Dict.get id s.request_waiters) ≡ true → is_open (s.futures id) ≡ true
  pub given_out : (id : ℕ) → s.futures id ≢ absent → id ≤ s.prev_req_id
  pub made : (id : ℕ) → 1 ≤ id → id ≤ s.prev_req_id → s.futures id ≢ absent

request-IsTracked :
    (command : Str) (raise_errors sent : Bool) {s : Socket}
    → IsTracked s
    → IsTracked (request command raise_errors sent s).1
unfolding request is_open
request-IsTracked command raise_errors sent {s} h =
    let id = s.prev_req_id + 1 in
    record {
      waited = λ j. ground (arith, h.waited j, get-set id j command s.request_waiters);
      unanswered = λ j. ground (arith, h.unanswered j, get-set id j command s.request_waiters);
      given_out = λ j. ground (arith, h.given_out j);
      made = λ j. ground (arith, h.made j);
    }

cancel-IsTracked : (id : ℕ) {s : Socket} → IsTracked s → IsTracked (cancel id s)
unfolding cancel is_open
cancel-IsTracked id {s} h = record {
  waited = λ j. ground (arith, h.waited j);
  unanswered = λ j. ground (arith, h.unanswered j);
  given_out = λ j. ground (arith, h.given_out j);
  made = λ j. ground (arith, h.made j);
}

-- The future of the waiter is done behind an answer, and was not done before it.
pub resolve-IsTracked :
    (is_error : Bool) (id : ℕ) (payload : Option Json) {s : Socket}
    → IsTracked s
    → is_some (Dict.get id s.request_waiters) ≡ true
    → (is_error ≡ true
        → (f : Future) × (error_of payload ≡ ok f) × (is_open f ≡ false) × (f ≢ absent))
    → IsTracked (resolve is_error id payload s).1
unfolding resolve complete is_open
resolve-IsTracked is_error id payload {s} h there good = record {
  waited =
      λ j. ground (arith, good, h.waited j, h.unanswered id, get-remove id j s.request_waiters);
  unanswered =
      λ j. ground (arith, good, h.unanswered j, h.unanswered id, get-remove id j s.request_waiters);
  given_out = λ j. ground (arith, good, h.given_out j, h.given_out id, h.unanswered id);
  made = λ j. ground (arith, good, h.made j);
}

-- What an error reply has to carry: an object with a message, which `WebsocketErrorResponse` reads.
unfoldable pub carries_message : Option Json → Bool
carries_message (some (obj d)) = is_some (get (text "message") d)
carries_message _ = false

unfoldable pub is_well_formed : Json → Bool
unfolding carries_message
is_well_formed (obj req) =
    if is_one_of (get (text "command") req) (text "error" ∷ [])
    then carries_message (get (text "data") req)
    else true
is_well_formed _ = true

error_of-carries_message :
    (payload : Option Json)
    → carries_message payload ≡ true
    → (f : Future) × (error_of payload ≡ ok f) × (is_open f ≡ false) × (f ≢ absent)
unfolding carries_message error_of is_open
error_of-carries_message (some (obj d)) h = elim (Option-cases (get (text "message") d)) [
  | inl none_there ↦ absurd (ground (arith, none_there))
  | inr (m, there) ↦ rw (there, error_of) (error_response (obj d), refl, refl, cc)
]
error_of-carries_message none h = cc
error_of-carries_message (some null) h = cc
error_of-carries_message (some (bool _)) h = cc
error_of-carries_message (some (num _)) h = cc
error_of-carries_message (some (str _)) h = cc
error_of-carries_message (some (arr _)) h = cc

handle_answer-IsTracked :
    (is_error : Bool) (id : Option ℕ) (payload : Option Json) {s : Socket}
    → IsTracked s
    → (is_error ≡ true → carries_message payload ≡ true)
    → IsTracked (handle_answer is_error id payload s).1
unfolding handle_answer
handle_answer-IsTracked is_error none payload h good = h
handle_answer-IsTracked is_error (some id) payload {s} h good =
    elim (Option-cases (Dict.get id s.request_waiters)) [
      | inl miss ↦ rw (miss, handle_answer) h
      | inr (c, hit) ↦
          rw (hit, handle_answer)
            (resolve-IsTracked is_error id payload h (rw hit refl)
              (λ e. error_of-carries_message payload (good e)))
    ]

-- What is started in the background does not matter.
tasks-IsTracked : (l : List Task) {s : Socket} → IsTracked s → IsTracked (record s { tasks = l })
tasks-IsTracked l h = record {
  waited = h.waited;
  unanswered = h.unanswered;
  given_out = h.given_out;
  made = h.made;
}

answer_unknown-IsTracked :
    (command : Json) (id : Option ℕ) {s : Socket}
    → IsTracked s
    → IsTracked (answer_unknown command id s)
unfolding answer_unknown
answer_unknown-IsTracked command none h = h
answer_unknown-IsTracked command (some id) {s} h = elim (Bool-cases (nat_beq id 0)) [
  | inl zero_id ↦ rw (zero_id, answer_unknown) h
  | inr other ↦ rw (other, answer_unknown) (tasks-IsTracked _ h)
]

handle_command-IsTracked :
    (command : Json) (id : Option ℕ) (payload : Option Json) {s : Socket}
    → IsTracked s
    → IsTracked (handle_command command id payload s).1
unfolding handle_command
handle_command-IsTracked (str command) id payload {s} h =
    elim (Bool-cases (one_of command s.command_handlers)) [
      | inl known ↦ rw (known, handle_command) (tasks-IsTracked _ h)
      | inr unknown ↦ rw (unknown, handle_command) (answer_unknown-IsTracked (str command) id h)
    ]
handle_command-IsTracked (arr _) id payload h = h
handle_command-IsTracked (obj _) id payload h = h
handle_command-IsTracked null id payload h = answer_unknown-IsTracked null id h
handle_command-IsTracked (bool b) id payload h = answer_unknown-IsTracked (bool b) id h
handle_command-IsTracked (num n) id payload h = answer_unknown-IsTracked (num n) id h

pub dispatch-IsTracked :
    (command : Json) (id : Option ℕ) (payload : Option Json) {s : Socket}
    → IsTracked s
    → (is_one_of (some command) (text "error" ∷ []) ≡ true → carries_message payload ≡ true)
    → IsTracked (dispatch command id payload s).1
unfolding dispatch
dispatch-IsTracked command id payload h good =
    elim (Bool-cases (is_one_of (some command) (text "response" ∷ text "error" ∷ []))) [
      | inl answer ↦ rw (answer, dispatch) (handle_answer-IsTracked _ id payload h good)
      | inr other ↦ rw (other, dispatch) (handle_command-IsTracked command id payload h)
    ]

pub opened-IsTracked : (commands : List Str) → IsTracked (opened commands)
unfolding Dict.get
opened-IsTracked commands = record {
  waited = λ id e. cc;
  unanswered = λ id e. cc;
  given_out = λ id other. absurd (other refl);
  made = λ id low high. ground arith;
}

unfoldable pub is_acceptable : Input → Bool
unfolding is_well_formed
is_acceptable (receives message) = is_well_formed message
is_acceptable _ = true

module _ (parse_int : Str → Option ℕ) where
  pub handle_text-IsTracked :
      (message : Json) {s : Socket}
      → IsTracked s
      → is_well_formed message ≡ true
      → IsTracked (handle_text parse_int message s).1
  unfolding handle_text is_well_formed
  handle_text-IsTracked (obj req) {s} h good = elim (Option-cases (get (text "command") req)) [
    | inl ignored ↦ rw (ignored, handle_text) h
    | inr (command, there) ↦
        rw (there, handle_text)
          (continue-keeps IsTracked (req_id_of parse_int req) s _ h (λ id _.
            dispatch-IsTracked command id (get (text "data") req) h (λ e. rw (there, e) at good)))
  ]
  handle_text-IsTracked null h good = h
  handle_text-IsTracked (bool _) h good = h
  handle_text-IsTracked (num _) h good = h
  handle_text-IsTracked (str _) h good = h
  handle_text-IsTracked (arr _) h good = h

  pub react-IsTracked :
      (i : Input) {s : Socket}
      → IsTracked s
      → is_acceptable i ≡ true
      → IsTracked (react parse_int i s)
  unfolding react is_acceptable
  react-IsTracked (requests command raise_errors sent) h good =
      request-IsTracked command raise_errors sent h
  react-IsTracked (cancels id) h good = cancel-IsTracked id h
  react-IsTracked (receives message) h good = handle_text-IsTracked message h good
