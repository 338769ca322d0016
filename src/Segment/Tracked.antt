-- ===== src/Segment/Tracked.antt =====
-- Which events are tracked (mautrix_asmux/segment.py).
use mautrix_asmux.Prelude.{
  ℕ, ◌+◌, ◌≤◌, ◌≡◌, ◌≢◌, ◌⊎◌, inl, inr, refl, sym, subst, Bool, true, false, Option, none, some,
  List, [], ◌∷◌, Str, text, str_eq, arith, is_empty, if◌then◌else◌,
}
use mautrix_asmux.Result.{ok, Result-cases}
use mautrix_asmux.Json.{
  bool, num, str, obj, Fields, end, field, get, is_one_of, is_text, truthy, as_dict,
}
use mautrix_asmux.Env.{Env}
use mautrix_asmux.Store.{AppService}
use mautrix_asmux.Util.{content_of, is_double_puppeted, owner_mxid}
use mautrix_asmux.Json.Texts.{one_of_two, is_text-some, is_text_self}
use mautrix_asmux.Segment.{
  remote_event, matrix_event, age_limit, is_too_old, relation_of, type_of_message,
  get_tracking_event_type, is_true, should_not_track, Task, task_for, task_if, track_for, is_off,
  track_event,
}

-- The event is a message of the user himself, not an edit, and of the last five minutes.
pub record IsOwnMessage (env : Env) (now : ℕ) (az : AppService) (pdu : Fields) (event : Str)
    : Type 0 where
  pub message :
      (get (text "type") pdu ≡ some (str (text "m.room.message")))
      ⊎ (get (text "type") pdu ≡ some (str (text "m.room.encrypted")))
  pub sender : get (text "sender") pdu ≡ some (str (owner_mxid env az.owner))
  pub fresh : (n : ℕ) → get (text "origin_server_ts") pdu ≡ some (num n) → now ≤ n + 300000
  pub no_edit :
      (content d : Fields)
      → get (text "content") pdu ≡ some (obj content)
      → get (text "m.relates_to") content ≡ some (obj d)
      → get (text "rel_type") d ≢ some (str (text "m.replace"))
  pub puppeted : Bool
  pub is_puppeted : is_double_puppeted pdu ≡ ok puppeted
  pub kind : event ≡ (if puppeted then remote_event else matrix_event)

type_of_message-no_edit :
    (pdu content d : Fields) (event : Str)
    → type_of_message pdu ≡ ok (some event)
    → get (text "content") pdu ≡ some (obj content)
    → get (text "m.relates_to") content ≡ some (obj d)
    → get (text "rel_type") d ≢ some (str (text "m.replace"))
unfolding type_of_message content_of relation_of truthy as_dict get
type_of_message-no_edit pdu end d event h there related edit = cc
type_of_message-no_edit pdu (field k v content) d event h there related edit =
    ground (arith, h, there, related, edit, is_text_self (text "m.replace"))

type_of_message-kind :
    (pdu : Fields) (event : Str)
    → type_of_message pdu ≡ ok (some event)
    → (puppeted : Bool) × (is_double_puppeted pdu ≡ ok puppeted)
      × (event ≡ (if puppeted then remote_event else matrix_event))
unfolding type_of_message
type_of_message-kind pdu event h = elim (Result-cases (content_of pdu)) [
  | inr (x, raised) ↦ absurd (ground (arith, h, raised))
  | inl (content, is) ↦ elim (Result-cases (is_double_puppeted pdu)) [
    | inr (x, raised) ↦ absurd (ground (arith, h, is, raised))
    | inl (b, puppeted) ↦ (b, puppeted, ground (arith, h, is, puppeted))
  ]
]

get_tracking_event_type-IsOwnMessage :
    (env : Env) (now : ℕ) (az : AppService) (pdu : Fields) (event : Str)
    → get_tracking_event_type env now az pdu ≡ ok (some event)
    → IsOwnMessage env now az pdu event
unfolding get_tracking_event_type age_limit is_too_old
get_tracking_event_type-IsOwnMessage env now az pdu event h =
    let types : List Str = text "m.room.message" ∷ text "m.room.encrypted" ∷ [] in
    let known : is_one_of (get (text "type") pdu) types ≡ true = ground (arith, h) in
    let own : is_text (owner_mxid env az.owner) (get (text "sender") pdu) ≡ true =
      ground (arith, h) in
    let last : type_of_message pdu ≡ ok (some event) = ground (arith, h) in
    let (b, is_puppeted, kind) = type_of_message-kind pdu event last in
    record {
      message =
          one_of_two (get (text "type") pdu) (text "m.room.message") (text "m.room.encrypted")
            known;
      sender = is_text-some (owner_mxid env az.owner) (get (text "sender") pdu) own;
      fresh = λ n e. ground (arith, h, e);
      no_edit = λ content d e related. type_of_message-no_edit pdu content d event last e related;
      puppeted = b;
      is_puppeted = is_puppeted;
      kind = kind;
    }

task_for_lem :
    (az : AppService) (event user_id : Str) (pdu : Fields) (t : Task)
    → get (text "sender") pdu ≡ some (str user_id)
    → task_for az event pdu ≡ ok t
    → (t.event ≡ event) × (t.user_id ≡ user_id)
unfolding task_for
task_for_lem az event user_id pdu t h e = (ground (arith, h, e), ground (arith, h, e))

should_not_track_lem :
    (pdu content : Fields)
    → should_not_track pdu ≡ false
    → get (text "content") pdu ≡ some (obj content)
    → get (text "com.beeper.do_not_track") content ≢ some (bool true)
unfolding should_not_track is_true
should_not_track_lem pdu content h there asked = ground (arith, h, there, asked)

track_for_lem :
    (env : Env) (now : ℕ) (az : AppService) (pdu : Fields) (t : Task)
    → track_for env now az pdu ≡ ok (some t)
    → (should_not_track pdu ≡ false)
      × (event : Str) × (get_tracking_event_type env now az pdu ≡ ok (some event))
      × (task_for az event pdu ≡ ok t)
unfolding track_for task_if
track_for_lem env now az pdu t h = elim (Result-cases (get_tracking_event_type env now az pdu)) [
  | inr (x, raised) ↦ absurd (ground (arith, h, raised))
  | inl (none, nothing) ↦ absurd (ground (arith, h, nothing))
  | inl (some event, found) ↦ (ground (arith, h), event, found, ground (arith, h, found))
]

-- What a task that `track_event` starts says of its event.
pub record IsTracked (env : Env) (token : Option Str) (now : ℕ) (az : Option AppService)
    (pdu : Fields) (t : Task) : Type 0 where
  pub of : AppService
  pub found : az ≡ some of
  pub key : Str
  pub given : token ≡ some key
  pub not_empty : is_empty key ≡ false
  pub own : IsOwnMessage env now of pdu t.event
  pub allowed :
      (content : Fields)
      → get (text "content") pdu ≡ some (obj content)
      → get (text "com.beeper.do_not_track") content ≢ some (bool true)
  pub user : t.user_id ≡ owner_mxid env of.owner

-- Where `track_event` starts a task, the settings have a token, the appservice is known, the event
-- is a message that the owner of the appservice sent in the last five minutes, if it has a timestamp,
-- is no edit, and does not ask not to be tracked, and the task tells a message of a bridge from
-- another.
pub track_event-IsTracked :
    (env : Env) (token : Option Str) (now : ℕ) (az : Option AppService) (pdu : Fields) (t : Task)
    → track_event env token now az pdu ≡ ok (some t)
    → IsTracked env token now az pdu t
unfolding track_event is_off
track_event-IsTracked env token now none pdu t h = cc
track_event-IsTracked env none now (some az) pdu t h = cc
track_event-IsTracked env (some key) now (some az) pdu t h =
    let made : track_for env now az pdu ≡ ok (some t) = ground (arith, h) in
    let (allowed, event, found, task) = track_for_lem env now az pdu t made in
    let own = get_tracking_event_type-IsOwnMessage env now az pdu event found in
    let (kind, user) = task_for_lem az event (owner_mxid env az.owner) pdu t own.sender task in
    record {
      of = az;
      found = refl;
      key = key;
      given = refl;
      not_empty = ground (arith, h);
      own = subst (IsOwnMessage env now az pdu) (sym kind) own;
      allowed = λ content there. should_not_track_lem pdu content allowed there;
      user = user;
    }
