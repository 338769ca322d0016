-- ===== src/Tests/Tracking.antt =====
-- Events that are tracked.
use mautrix_asmux.Prelude.{◌≡◌, refl, some, [], text, str_eq}
use mautrix_asmux.Dict
use mautrix_asmux.Result.{ok}
use mautrix_asmux.Segment
use mautrix_asmux.Segment.{matrix_event, Task, Counters, track_event, track_events, run_tasks}
use mautrix_asmux.Segment.Tracked.{IsTracked, track_event-IsTracked}
use mautrix_asmux.Segment.Counts.{IsBalanced, track_events-IsBalanced}
use mautrix_asmux.Tests.Samples.{env, az, message, bundle, running}

abbrev task : Task
task = record { event = matrix_event; user_id = text "@ann:b"; network = text "tg"; bridge_id = 7 }

track-message : track_event env (some (text "k")) 2000 (some az) message ≡ ok (some task)
unfolding running Segment.track_event Segment.is_off Segment.track_for Segment.should_not_track
    Segment.get_tracking_event_type Segment.age_limit Segment.is_too_old Segment.type_of_message
    Segment.relation_of Segment.task_if Segment.task_for
track-message = refl

track_event-IsTracked_example : IsTracked env (some (text "k")) 2000 (some az) message task
track_event-IsTracked_example =
    track_event-IsTracked env (some (text "k")) 2000 (some az) message task track-message

abbrev nothing : Counters
nothing = record { per_user_counter = []; per_user_event_counter = []; posts = [] }

nothing-IsBalanced : IsBalanced nothing
unfolding Dict.get Segment.count_of
nothing-IsBalanced = record { totals = λ u. refl; posts = tt }

track_events-IsBalanced_example :
    IsBalanced (run_tasks (track_events env (some (text "k")) 2000 az bundle).1 nothing)
track_events-IsBalanced_example =
    track_events-IsBalanced env (some (text "k")) 2000 az bundle nothing nothing-IsBalanced
