-- ===== src/Http/Pusher.antt =====
-- The HTTP pusher of one appservice, from `ensure_pusher_running` to the end of
-- `post_events_from_queue` (mautrix_asmux/api/as_http.py). There is one pusher at a time as long as
-- the lock is held; where it has expired, another instance may post and remove what it likes.
pub mod Fifo
use mautrix_asmux.Prelude.{
  ℕ, Bool, true, false, Option, none, some, List, [], ◌∷◌, ◌++◌, Str, if◌then◌else◌,
}
use mautrix_asmux.Redis.{Stream}
use mautrix_asmux.Events.{Events}
use mautrix_asmux.Events.Wire.{Codec}
use mautrix_asmux.Queue.{waiting, raised, nothing, yielded, next, acknowledge}
use mautrix_asmux.Consumer.{push_txns}
use mautrix_asmux.Http.{Put, Effect, Ended, returned, text_raised, lock_lost, post_events}

module _ {O : Type 0} (codec : Codec O) (union : List Str → List Str → List Str)
    (redis : Stream) where
  open redis use {State}

  -- What meets one round: whether `ensure_pusher_running` starts a pusher before it, the transactions
  -- that are pushed before `next` and during `post_events`, what becomes of the requests, whether the
  -- lock is still held behind each, and whether it is at the end of the round. If it is not, `rival` is
  -- what the pusher of another instance makes of the stream meanwhile, and what that one posts.
  pub record Shift : Type 0 where
    pub ensured : Bool
    pub before : List (Events O)
    pub during : List (Events O)
    pub replies : ℕ → Put
    pub held : ℕ → Bool
    pub extended : Bool
    pub rival : State → State × List (Str × Events O)

  -- The stream, whether the pusher runs, and what was posted, with the status.
  pub record Pusher : Type 0 where
    pub stream : State
    pub running : Bool
    pub posted : List (Str × Events O)

  -- What the other instance does, which has the lock once it has expired.
  unfoldable pub lapsed : Bool → Shift → State → State × List (Str × Events O)
  lapsed kept v s = if kept then (s, []) else v.rival s

  -- The body of the `async with queue.next(...)`; an exception leaves the entries where they are.
  unfoldable pub finish_post :
      Shift → Pusher → State → Events O → List ℕ → Option (Ended × List Effect) → Pusher
  unfolding lapsed
  finish_post v w s txn ids (some (returned status, _)) =
      let (after, others) = lapsed v.extended v s in
      record w {
        stream = acknowledge codec union redis false ids after;
        running = v.extended;
        posted = w.posted ++ (others ++ (status, txn) ∷ []);
      }
  finish_post v w s txn ids (some (text_raised, _)) =
      let (after, others) = lapsed v.extended v s in
      record w {
        stream = acknowledge codec union redis true ids after;
        running = false;
        posted = w.posted ++ others;
      }
  finish_post v w s txn ids _ =
      let (after, others) = lapsed false v s in
      record w {
        stream = acknowledge codec union redis true ids after;
        running = false;
        posted = w.posted ++ others;
      }

  -- The body of `while True`; the pusher stops where the queue is empty.
  unfoldable pub post_one : Shift → Pusher → State → Pusher
  unfolding finish_post
  post_one v w s = elim (next codec union redis true (some s ∷ [])) [
    | yielded txn ids ↦
        finish_post v w (push_txns codec union redis [] v.during s) txn ids
          (post_events txn v.replies v.held)
    | _ ↦ record w { stream = push_txns codec union redis [] v.during s; running = false }
  ]

  unfoldable pub shift : Shift → Pusher → Pusher
  unfolding post_one
  shift v w =
      let s = push_txns codec union redis [] v.before w.stream in
      if (if v.ensured then true else w.running)
      then post_one v w s
      else record w { stream = push_txns codec union redis [] v.during s }

  unfoldable pub post_events_from_queue : List (Shift) → Pusher → Pusher
  unfolding shift
  post_events_from_queue [] w = w
  post_events_from_queue (v ∷ vs) w = post_events_from_queue vs (shift v w)
