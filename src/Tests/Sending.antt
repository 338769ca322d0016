-- ===== src/Tests/Sending.antt =====
-- A transaction of the homeserver that ends in a queue.
use mautrix_asmux.Prelude.{
  ℕ, ◌≡◌, refl, Bool, true, false, none, List, [], ◌∷◌, ◌++◌, Str, text, str_eq, nat_eq, nat_beq,
  if◌then◌else◌,
}
use mautrix_asmux.Dict
use mautrix_asmux.Dict.{Dict}
use mautrix_asmux.Result.{ok}
use mautrix_asmux.Events.{Events}
use mautrix_asmux.Queue.{push}
use mautrix_asmux.Queue.Delivery.{pdus}
use mautrix_asmux.Requester
use mautrix_asmux.Proxy
use mautrix_asmux.Proxy.{Output, Transaction, sort_transaction}
use mautrix_asmux.Proxy.Routing.{Delivered, pdu_at}
use mautrix_asmux.Proxy.Sending
use mautrix_asmux.Proxy.Sending.{handle_transaction}
use mautrix_asmux.Proxy.Sending.Queued.{is_ok, handle_transaction-Delivered}
use mautrix_asmux.Http.{client_error, response, exception}
use mautrix_asmux.Http.Pusher.{Shift, Pusher, post_events_from_queue}
use mautrix_asmux.Http.Pusher.Fifo.{total, pushed, post_events_from_queue-Fifo}
use mautrix_asmux.Tests.Samples.{env, row, store, message, bundle, codec, codec-IsLossless, running}
use mautrix_asmux.Tests.Streams.{Log, log_stream}
use mautrix_asmux.Tests.Configs.{with_row-IsKeyed}

abbrev union : List Str → List Str → List Str
union a b = a ++ b

abbrev sleeping : ℕ → Bool
sleeping id = false

abbrev empty_log : Log
empty_log = record { next = 0; entries = []; below = tt; distinct = tt }

abbrev before : ℕ → Log
before j = empty_log

abbrev transaction : Transaction ℕ
transaction = record {
  txn_id = text "t";
  events = message ∷ [];
  ephemeral = [];
  device_otk_count = [];
  device_lists = none;
  syncproxy_transaction_id = none;
  synchronous_to = [];
}

abbrev sorted : Events ℕ
sorted = record bundle { otk_count = [] }

abbrev after : ℕ → Log
after j = if nat_beq 7 j then push codec union log_stream sorted empty_log else empty_log

abbrev sent_to : Dict ℕ Str
sent_to = (7, text "ok") ∷ []

sent :
    (handle_transaction codec union log_stream env sleeping transaction before store).0
    ≡ ok (sent_to, after)
unfolding running Sending.handle_transaction Sending.send_transactions Sending.await_tasks
    Sending.post_events Sending.carry_out Sending.begin_tasks Sending.begin_task
    Requester.send_transaction Requester.wakeups Proxy.sort_transaction Proxy.outgoing_txn_id
    Proxy.collect_otk_count Proxy.add_device_lists
sent = refl

handle_transaction-Delivered_example :
    (out : Output ℕ) × ((sort_transaction env transaction store).0 ≡ ok out)
    × Delivered env (message ∷ []) [] (pdu_at 7 out)
    × (pdus codec (after 7).entries
        ≡ pdus codec (before 7).entries
          ++ (if is_ok (Dict.get 7 sent_to) then pdu_at 7 out else []))
handle_transaction-Delivered_example =
    handle_transaction-Delivered codec codec-IsLossless union log_stream env sleeping transaction
      before after sent_to store 7 (with_row-IsKeyed row refl) sent

-- A pusher whose first request fails and whose second is answered, and which then finds nothing.
abbrev shifts : List (Shift codec union log_stream)
shifts =
    record {
      ensured = true;
      before = bundle ∷ [];
      during = [];
      replies = λ i. if nat_beq i 0 then client_error [] else response 200 [];
      held = λ _. true;
      extended = true;
      rival = λ s. (s, []);
    }
    ∷ record {
      ensured = false;
      before = [];
      during = bundle ∷ [];
      replies = λ _. exception;
      held = λ _. true;
      extended = true;
      rival = λ s. (s, []);
    }
    ∷ []

abbrev pusher : Pusher codec union log_stream
pusher = record { stream = empty_log; running = false; posted = [] }

post_events_from_queue-Fifo_example :
    total codec codec-IsLossless union log_stream
      (post_events_from_queue codec union log_stream shifts pusher)
    ≡ total codec codec-IsLossless union log_stream pusher
      ++ pushed codec codec-IsLossless union log_stream shifts
post_events_from_queue-Fifo_example =
    post_events_from_queue-Fifo codec codec-IsLossless union log_stream shifts pusher
      ((λ k. refl, refl), ((λ k. refl, refl), tt))
