-- ===== src/Segment.antt =====
-- Which events are tracked as messages of a user, and how they are counted
-- (mautrix_asmux/segment.py). What `str` makes of a number is left out. Reading a `defaultdict` puts
-- a zero into it, which no later call can tell from a key that is missing.
pub mod Tracked
pub mod Counts
use mautrix_asmux.Prelude.{
  ℕ, ◌+◌, ◌-◌, Bool, true, false, not, ◌||◌, Option, none, some, List, [], ◌∷◌, ◌++◌, Str, text,
  str_eq, ltb, nat_beq, pair_eq, if◌then◌else◌, is_empty,
}
use mautrix_asmux.Errors.{Exn, key_error, type_error}
use mautrix_asmux.Result.{Result, ok, err, or_raise, ◌>>=◌}
use mautrix_asmux.Json.{Json, null, bool, num, str, obj, Fields, end, get, is_one_of, is_text}
use mautrix_asmux.Dict
use mautrix_asmux.Dict.{Dict}
use mautrix_asmux.Env.{Env}
use mautrix_asmux.Store.{AppService}
use mautrix_asmux.Util.{content_of, is_double_puppeted, owner_mxid}
use mautrix_asmux.Events.{Events}

abbrev pub remote_event : Str
remote_event = text "Outgoing remote event"

abbrev pub matrix_event : Str
matrix_event = text "Outgoing Matrix event"

-- `int(time.time() * 1000) - 5 * 60 * 1000`
unfoldable pub age_limit : ℕ → ℕ
age_limit now = now - 300000

-- `event.get("origin_server_ts", limit) < limit`
unfoldable pub is_too_old : ℕ → Fields → Result Bool
is_too_old limit event = elim (get (text "origin_server_ts") event) [
  | none ↦ ok false
  | some (num n) ↦ ok (ltb n limit)
  | some (bool b) ↦ ok (ltb (if b then 1 else 0) limit)
  | some _ ↦ err type_error
]

-- `content.get("m.relates_to")`, or `{}` where that is no dict
unfoldable pub relation_of : Fields → Fields
relation_of content = elim (get (text "m.relates_to") content) [ some (obj d) ↦ d | _ ↦ end ]

-- The last part of `_get_tracking_event_type`, for a message of the user.
unfoldable pub type_of_message : Fields → Result (Option Str)
unfolding relation_of
type_of_message event = do
  content ← content_of event
  if is_text (text "m.replace") (get (text "rel_type") (relation_of content)) then ok none else (do
    puppeted ← is_double_puppeted event
    ok (some (if puppeted then remote_event else matrix_event)))

-- `_get_tracking_event_type`
unfoldable pub get_tracking_event_type : Env → ℕ → AppService → Fields → Result (Option Str)
unfolding age_limit is_too_old type_of_message
get_tracking_event_type env now az event = do
  old ← is_too_old (age_limit now) event
  if old
      then ok none
      else if not (
          is_one_of (get (text "type") event)
            (text "m.room.message" ∷ text "m.room.encrypted" ∷ []))
      then ok none
      else if not (is_text (owner_mxid env az.owner) (get (text "sender") event))
      then ok none
      else type_of_message event

-- `v == True`
unfoldable pub is_true : Json → Bool
is_true (bool b) = b
is_true (num n) = nat_beq n 1
is_true _ = false

-- `_should_not_track`, in which a missing key or a content that has no keys counts as false
unfoldable pub should_not_track : Fields → Bool
unfolding is_true
should_not_track event = elim (get (text "content") event) [
  | some (obj content) ↦ elim (get (text "com.beeper.do_not_track") content) [
    | none ↦ false
    | some v ↦ is_true v
  ]
  | _ ↦ false
]

-- The arguments of a call of `_track`, which a task makes later.
pub record Task : Type 0 where
  pub event : Str
  pub user_id : Str
  pub network : Str
  pub bridge_id : ℕ

-- The task of an event of the given type; `pdu["sender"]` is a text by then.
unfoldable pub task_for : AppService → Str → Fields → Result Task
task_for az event pdu = elim (get (text "sender") pdu) [
  | none ↦ err key_error
  | some (str user_id) ↦
      ok (record { event = event; user_id = user_id; network = az.prefix; bridge_id = az.id })
  | some _ ↦ err type_error
]

unfoldable pub task_if : AppService → Option Str → Fields → Result (Option Task)
unfolding task_for
task_if az none pdu = ok none
task_if az (some event) pdu =
    if is_empty event
    then ok none
    else elim (task_for az event pdu) [ err e ↦ err e | ok t ↦ ok (some t) ]

unfoldable pub track_for : Env → ℕ → AppService → Fields → Result (Option Task)
unfolding should_not_track get_tracking_event_type task_if
track_for env now az pdu =
    if should_not_track pdu
    then ok none
    else do event ← get_tracking_event_type env now az pdu; task_if az event pdu

-- `not token`
unfoldable pub is_off : Option Str → Bool
is_off none = true
is_off (some token) = is_empty token

-- `track_event`, for the token of the settings: the task that it starts.
unfoldable pub track_event :
    Env → Option Str → ℕ → Option AppService → Fields → Result (Option Task)
unfolding is_off track_for
track_event env token now none pdu = ok none
track_event env token now (some az) pdu = if is_off token then ok none else track_for env now az pdu

unfoldable pub start_task : Option Task → List Task → List Task
start_task none tasks = tasks
start_task (some t) tasks = t ∷ tasks

-- The loop of `track_events`, with the tasks that are started before an exception.
unfoldable pub track_all :
    Env → Option Str → ℕ → AppService → List Fields → Result (Unit {0}) × List Task
unfolding track_event start_task
track_all env token now az [] = (ok tt, [])
track_all env token now az (pdu ∷ pdus) =
    let (r, tasks) = track_all env token now az pdus in
    elim (track_event env token now (some az) pdu) [
      | err e ↦ (err e, [])
      | ok t ↦ (r, start_task t tasks)
    ]

unfoldable pub track_events :
    {O : Type 0} → Env → Option Str → ℕ → AppService → Events O → Result (Unit {0}) × List Task
unfolding track_all
track_events env token now az events = track_all env token now az events.pdu

-- The request to Segment; the share is a fraction, `none` where its denominator is 0.
pub record Post : Type 0 where
  pub task : Task
  pub counter_user : ℕ
  pub counter_remote_event : ℕ
  pub counter_matrix_event : ℕ
  pub counter_matrix_share : Option (ℕ × ℕ)

-- `per_user_counter` and `per_user_event_counter`, whose inner dicts are one dict of pairs, and the
-- requests.
pub record Counters : Type 0 where
  pub per_user_counter : Dict Str ℕ
  pub per_user_event_counter : Dict (Str × Str) ℕ
  pub posts : List Post

unfoldable pub count_of : Option ℕ → ℕ
count_of none = 0
count_of (some n) = n

-- `properties` with the counters
unfoldable pub post_of : Task → Dict Str ℕ → Dict (Str × Str) ℕ → Post
unfolding count_of
post_of t by_user by_event =
    let remote = count_of (Dict.get (t.user_id, remote_event) by_event) in
    let matrix = count_of (Dict.get (t.user_id, matrix_event) by_event) in
    record {
      task = t;
      counter_user = count_of (Dict.get t.user_id by_user);
      counter_remote_event = remote;
      counter_matrix_event = matrix;
      counter_matrix_share =
          if nat_beq matrix 0
          then (if nat_beq remote 0 then none else some (matrix, matrix + remote))
          else some (matrix, matrix + remote);
    }

-- `_track`; an exception of the request is logged and dropped.
unfoldable pub track : Task → Counters → Counters
unfolding post_of count_of
track t c =
    let by_user =
      Dict.set t.user_id (count_of (Dict.get t.user_id c.per_user_counter) + 1)
        c.per_user_counter in
    let by_event =
      Dict.set (t.user_id, t.event)
        (count_of (Dict.get (t.user_id, t.event) c.per_user_event_counter) + 1)
        c.per_user_event_counter in
    record {
      per_user_counter = by_user;
      per_user_event_counter = by_event;
      posts = c.posts ++ post_of t by_user by_event ∷ [];
    }

-- The tasks run in the order in which they were started: no `_track` waits before it has counted.
unfoldable pub run_tasks : List Task → Counters → Counters
unfolding track
run_tasks [] c = c
run_tasks (t ∷ tasks) c = run_tasks tasks (track t c)
