-- ===== src/Segment/Counts.antt =====
-- The counters of the events (mautrix_asmux/segment.py).
use mautrix_asmux.Prelude.{
  ℕ, ◌+◌, ◌≤◌, ◌≡◌, ◌⊎◌, inl, inr, refl, sym, subst, false, Option, none, some, List, [], ◌∷◌, Str,
  text, str_eq, str_beq, str_beq_iff, pair_eq, arith, All, All-append, ◌==◌, if◌then◌else◌,
}
use mautrix_asmux.Result.{ok, Result-cases}
use mautrix_asmux.Json.{Fields}
use mautrix_asmux.Dict
use mautrix_asmux.Dict.{Dict, get-set}
use mautrix_asmux.Env.{Env}
use mautrix_asmux.Store.{AppService}
use mautrix_asmux.Events.{Events}
use mautrix_asmux.Segment.{
  remote_event, matrix_event, Task, Post, Counters, count_of, post_of, track, run_tasks,
  track_event, track_all, track_events, start_task,
}
use mautrix_asmux.Segment.Tracked.{track_event-IsTracked}

unfoldable pub IsKnown : Task → Type 0
IsKnown t = (t.event ≡ remote_event) ⊎ (t.event ≡ matrix_event)

-- The counters of a request add up, and its share is a fraction of the events of the user, of which
-- there is one at least.
pub record IsConsistent (p : Post) : Type 0 where
  pub total : p.counter_user ≡ p.counter_remote_event + p.counter_matrix_event
  pub not_zero : 1 ≤ p.counter_user
  pub share : p.counter_matrix_share ≡ some (p.counter_matrix_event, p.counter_user)

pub record IsBalanced (c : Counters) : Type 0 where
  pub totals :
      (u : Str)
      → count_of (Dict.get u c.per_user_counter)
        ≡ count_of (Dict.get (u, remote_event) c.per_user_event_counter)
          + count_of (Dict.get (u, matrix_event) c.per_user_event_counter)
  pub posts : All IsConsistent c.posts

kinds_differ :
    (str_beq remote_event matrix_event ≡ false) × (str_beq matrix_event remote_event ≡ false)
unfolding text str_beq
kinds_differ = (refl, refl)

count-set :
    (t : Task) (d : Dict Str ℕ) (u : Str)
    → count_of (Dict.get u (Dict.set t.user_id (count_of (Dict.get t.user_id d) + 1) d))
      ≡ (if t.user_id == u then count_of (Dict.get u d) + 1 else count_of (Dict.get u d))
unfolding count_of
count-set t d u =
    ground
      (arith, str_beq_iff t.user_id u, get-set t.user_id u (count_of (Dict.get t.user_id d) + 1) d)

count-set_event :
    (t : Task) (d : Dict (Str × Str) ℕ) (u e : Str)
    → count_of (
        Dict.get
          (u, e)
          (Dict.set (t.user_id, t.event) (count_of (Dict.get (t.user_id, t.event) d) + 1) d))
      ≡ (if t.user_id == u
          then (if t.event == e
              then count_of (Dict.get (u, e) d) + 1
              else count_of (Dict.get (u, e) d))
          else count_of (Dict.get (u, e) d))
unfolding count_of
count-set_event t d u e = ground (
  arith,
  str_beq_iff t.user_id u,
  str_beq_iff t.event e,
  get-set (t.user_id, t.event) (u, e) (count_of (Dict.get (t.user_id, t.event) d) + 1) d,
)

track_totals :
    (t : Task) (c : Counters)
    → IsKnown t
    → IsBalanced c
    → (u : Str)
    → count_of (Dict.get u (track t c).per_user_counter)
      ≡ count_of (Dict.get (u, remote_event) (track t c).per_user_event_counter)
        + count_of (Dict.get (u, matrix_event) (track t c).per_user_event_counter)
unfolding track IsKnown
track_totals t c known h u = ground (
  arith,
  known,
  kinds_differ,
  h.totals u,
  count-set t c.per_user_counter u,
  count-set_event t c.per_user_event_counter u remote_event,
  count-set_event t c.per_user_event_counter u matrix_event,
  str_beq_iff remote_event remote_event,
  str_beq_iff matrix_event matrix_event,
)

post-track :
    (t : Task) (c : Counters)
    → IsKnown t
    → IsBalanced c
    → IsConsistent (post_of t (track t c).per_user_counter (track t c).per_user_event_counter)
unfolding post_of track
post-track t c known h =
    let sum = track_totals t c known h t.user_id in
    let one = count-set t c.per_user_counter t.user_id in
    let same = str_beq_iff t.user_id t.user_id in
    record {
      total = sum;
      not_zero = ground (arith, one, same);
      share = ground (arith, sum, one, same);
    }

track-IsBalanced : (t : Task) (c : Counters) → IsKnown t → IsBalanced c → IsBalanced (track t c)
unfolding track
track-IsBalanced t c known h = record {
  totals = track_totals t c known h;
  posts = All-append IsConsistent c.posts _ h.posts (post-track t c known h, tt);
}

run_tasks-IsBalanced :
    (tasks : List Task) (c : Counters)
    → All IsKnown tasks
    → IsBalanced c
    → IsBalanced (run_tasks tasks c)
unfolding run_tasks
run_tasks-IsBalanced [] c _ h = h
run_tasks-IsBalanced (t ∷ tasks) c (known, rest) h =
    run_tasks-IsBalanced tasks (track t c) rest (track-IsBalanced t c known h)

track_event-IsKnown :
    (env : Env) (token : Option Str) (now : ℕ) (az : Option AppService) (pdu : Fields) (t : Task)
    → track_event env token now az pdu ≡ ok (some t)
    → IsKnown t
unfolding IsKnown
track_event-IsKnown env token now az pdu t h =
    let own = (track_event-IsTracked env token now az pdu t h).own in ground (arith, own.kind)

track_all-IsKnown :
    (env : Env) (token : Option Str) (now : ℕ) (az : AppService) (pdus : List Fields)
    → All IsKnown (track_all env token now az pdus).1
unfolding track_all start_task
track_all-IsKnown env token now az [] = tt
track_all-IsKnown env token now az (pdu ∷ pdus) =
    let tasks = (track_all env token now az (pdu ∷ pdus)).1 in
    let later = track_all-IsKnown env token now az pdus in
    elim (Result-cases (track_event env token now (some az) pdu)) [
      | inr (x, raised) ↦
          let is : tasks ≡ [] = ground (arith, raised) in subst (All IsKnown) (sym is) tt
      | inl (none, nothing) ↦
          let is : tasks ≡ (track_all env token now az pdus).1 = ground (arith, nothing) in
          subst (All IsKnown) (sym is) later
      | inl (some t, started) ↦
          let is : tasks ≡ t ∷ (track_all env token now az pdus).1 = ground (arith, started) in
          subst (All IsKnown) (sym is)
            (track_event-IsKnown env token now (some az) pdu t started, later)
    ]

-- From counters in balance, whatever the events of an appservice are, the tasks that `track_events`
-- starts for them leave the counters in balance: the number of a user is the sum of those of his
-- bridge messages and of his other ones, and each request that was sent tells of such numbers, with a
-- share whose denominator is the number of the user and not 0.
pub track_events-IsBalanced :
    {O : Type 0} (env : Env) (token : Option Str) (now : ℕ) (az : AppService) (events : Events O)
    (c : Counters)
    → IsBalanced c
    → IsBalanced (run_tasks (track_events env token now az events).1 c)
unfolding track_events
track_events-IsBalanced env token now az events c h =
    run_tasks-IsBalanced (track_all env token now az events.pdu).1 c
      (track_all-IsKnown env token now az events.pdu) h
