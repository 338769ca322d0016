-- ===== src/Tests/Consumers.antt =====
-- A consumer that sends a transaction over a websocket, and clients that do not answer.
use mautrix_asmux.Prelude.{ℕ, ◌≡◌, refl, true, false, List, [], ◌∷◌, ◌++◌, Str, text, str_eq}
use mautrix_asmux.Result.{ok}
use mautrix_asmux.Json.{Fields}
use mautrix_asmux.Events
use mautrix_asmux.Events.{Events, pop_expired_pdu, events_is_empty, max_pdu_age_ms}
use mautrix_asmux.Queue
use mautrix_asmux.Consumer
use mautrix_asmux.Consumer.{
  Link, Reply, answered, timed_out, Round, body_raised, consume_txn, Visit, World, consume_queue,
}
use mautrix_asmux.Consumer.Timeouts.{Reason, consume_txn-Reason}
use mautrix_asmux.Consumer.Fifo.{balance, given, consume_queue-Fifo}
use mautrix_asmux.Tests.Samples.{bundle, codec, codec-IsLossless, running}
use mautrix_asmux.Tests.Streams.{log_stream}

unfoldable consuming : Unit {0}
unfolding running Consumer.consume_queue Consumer.turn Consumer.consume_queue_one
    Consumer.finish_round Consumer.die Consumer.push_txns Consumer.consume_txn
    Consumer.handle_popped Consumer.recover Consumer.after_timeout Consumer.send_rest
    Consumer.report_of Consumer.send_next_txn Consumer.send_plain Consumer.send_legacy
    Consumer.timeout_of Queue.push Queue.next Queue.acknowledge Events.events_is_empty
    Events.pop_expired_pdu Events.sort_pdu Events.is_foreign Events.timestamp
consuming = tt

abbrev link : Link
link = record { proto = 3; timeouts = 0; last_received = 0; dead = false }

abbrev ann : Str
ann = text "@ann:b"

kept : body_raised (consume_txn ann 1000 false link answered bundle).sent ≡ false
unfolding consuming
kept = refl

consume_txn-Reason_example :
    (popped : List Fields × Events ℕ) × (pop_expired_pdu ann max_pdu_age_ms 1000 bundle ≡ ok popped)
    × Reason link answered popped.1
consume_txn-Reason_example = consume_txn-Reason ann 1000 false link answered bundle kept

bundle_full : events_is_empty bundle ≡ false
unfolding events_is_empty
bundle_full = refl

abbrev union : List Str → List Str → List Str
union a b = a ++ b

abbrev world : World codec union log_stream ann
world = record {
  stream = record { next = 0; entries = []; below = tt; distinct = tt };
  link = link;
  running = true;
  rounds = [];
}

-- The first sending is not answered, the second is.
abbrev visits : List (Visit ℕ)
visits =
    record {
      before = bundle ∷ [];
      during = [];
      reply = timed_out;
      now = 1000;
      wake = false;
      dies = false;
    }
    ∷ record {
      before = [];
      during = bundle ∷ [];
      reply = answered;
      now = 1000;
      wake = false;
      dies = true;
    }
    ∷ []

consume_queue-Fifo_example :
    balance codec codec-IsLossless union log_stream ann
      (consume_queue codec union log_stream ann visits world)
    ≡ balance codec codec-IsLossless union log_stream ann world ++ given visits
consume_queue-Fifo_example =
    consume_queue-Fifo codec codec-IsLossless union log_stream ann visits world
