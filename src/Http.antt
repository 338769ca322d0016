-- ===== src/Http.antt =====
-- Sending a transaction to a bridge over HTTP, with retries (mautrix_asmux/api/as_http.py).
pub mod Attempts
pub mod Held
pub mod Pusher
use mautrix_asmux.Prelude.{
  ℕ, zero, suc, ◌+◌, ◌-◌, Bool, true, false, Option, none, some, List, [], ◌∷◌, ◌++◌, Str, text,
  ltb, leb, if◌then◌else◌, is_empty,
}
use mautrix_asmux.Json.{Fields}
use mautrix_asmux.Events.{Events}

-- What became of one `http.put`: a `ClientError` or a timeout, with its text; any other exception;
-- a response, with its status and what is read of it into the text of an error; or a response with a
-- status from 400 on, the reading of which raised.
pub data Put : Type 0 where
  client_error : Str → Put
  exception : Put
  response : ℕ → Str → Put
  unreadable : Put

pub data CheckpointStatus : Type 0 where
  will_retry perm_failure : CheckpointStatus

-- What the loop does to the world, in order. The backoff before retry k is 1.5 ^ k seconds, and
-- stands here as k: these powers are exact in floating point for the at most nine retries.
pub data Effect : Type 0 where
  put : ℕ → Effect
  report : CheckpointStatus → Str → ℕ → Effect
  extend_lock : ℕ → Effect
  sleep : ℕ → Effect

-- How the call ended: it returned a text, the lock was lost and `extend` raised, or the reading of a
-- response raised.
pub data Ended : Type 0 where
  returned : Str → Ended
  lock_lost : Ended
  text_raised : Ended

pub record Loop : Type 0 where
  pub attempt : ℕ
  pub backoff : ℕ
  pub last_error : Str
  pub done : List Effect

-- How a round of the loop goes on.
pub data Verdict : Type 0 where
  delivered : Verdict
  give_up : Str → Verdict
  retry : Str → Verdict
  fail : Verdict

unfoldable pub judge : Put → Verdict
judge (client_error e) = retry e
judge exception = give_up []
judge unreadable = fail
judge (response status error) = if leb 400 status then retry error else delivered

-- `report_error` sends a checkpoint for each PDU, and none where there is no PDU.
unfoldable pub report_error : Bool → CheckpointStatus → Str → ℕ → List Effect
report_error has_pdu status info retry_num =
    if has_pdu then report status info retry_num ∷ [] else []

-- `f" (last error: {last_error})" if last_error else ""`, stripped
unfoldable pub final_info : Str → Str
final_info last_error =
    if is_empty last_error then [] else text "(last error: " ++ (last_error ++ text ")")

-- Behind the loop
unfoldable pub gave_up : Bool → Loop → Ended × List Effect
unfolding report_error final_info
gave_up has_pdu l = (
  returned (text "http-gave-up"),
  l.done ++ report_error has_pdu perm_failure (final_info l.last_error) (l.attempt - 1),
)

-- The effects between two attempts, up to the extension of the lock
unfoldable pub before_sleep : Bool → Loop → List Effect
unfolding report_error
before_sleep has_pdu l =
    if ltb 3 l.attempt then report_error has_pdu will_retry l.last_error (l.attempt - 1) else []

-- The head of the loop: the attempt is counted and sent.
abbrev pub attempted : Loop → Loop
attempted l = record l { attempt = l.attempt + 1; done = l.done ++ put (l.attempt + 1) ∷ [] }

-- Behind the sleep
unfoldable pub paused : Bool → Loop → Loop
unfolding before_sleep
paused has_pdu l = record l {
  backoff = l.backoff + 1;
  done = l.done ++ (before_sleep has_pdu l ++ extend_lock l.backoff ∷ sleep l.backoff ∷ []);
}

-- "Don't sleep after last attempt"; `none` where the lock is not held any more.
unfoldable pub resume : ℕ → Bool → Bool → Loop → Option Loop
unfolding paused
resume retries has_pdu held failed =
    if ltb failed.attempt retries
    then (if held then some (paused has_pdu failed) else none)
    else some failed

-- `replies i` is what becomes of the attempt with the number i + 1, and `held i` says whether the
-- lock is still held when it is extended behind that attempt. `none`: the fuel ran out.
module _ (retries : ℕ) (has_pdu : Bool) (replies : ℕ → Put) (held : ℕ → Bool) where
  unfoldable pub post_loop : ℕ → Loop → Option (Ended × List Effect)
  post_loop zero l = none
  post_loop (suc fuel) l =
      if ltb l.attempt retries
      then elim (judge (replies l.attempt)) [
        | delivered ↦ some (returned (text "ok"), (attempted l).done)
        | fail ↦ some (text_raised, (attempted l).done)
        | give_up e ↦ some (gave_up has_pdu (record (attempted l) { last_error = e }))
        | retry e ↦
            let failed : Loop = record (attempted l) { last_error = e } in
            elim (resume retries has_pdu (held l.attempt) failed) [
              | some l' ↦ post_loop fuel l'
              | none ↦ some (lock_lost, failed.done ++ before_sleep has_pdu failed)
            ]
      ]
      else some (gave_up has_pdu l)

-- `retries = 10 if len(events.pdu) > 0 else 2`
unfoldable pub retries_of : {O : Type 0} → Events O → ℕ
retries_of e = if is_empty e.pdu then 2 else 10

abbrev pub start : Loop
start = record { attempt = 0; backoff = 0; last_error = []; done = [] }

-- `AppServiceHTTPHandler.post_events`, with one round more than the number of attempts as fuel
unfoldable pub post_events :
    {O : Type 0} → Events O → (ℕ → Put) → (ℕ → Bool) → Option (Ended × List Effect)
unfolding retries_of
post_events e replies held =
    post_loop (retries_of e) (if is_empty e.pdu then false else true) replies held
      (retries_of e + 1) start
