-- ===== src/Tests/Transactions.antt =====
-- Transactions on their way to a bridge.
use mautrix_asmux.Prelude.{
  ◌≡◌, inr, refl, false, none, some, List, [], ◌∷◌, ◌++◌, Str, text, str_eq,
}
use mautrix_asmux.Result.{ok}
use mautrix_asmux.Json.{Fields}
use mautrix_asmux.Events.{pop_expired_pdu, is_foreign, timestamp}
use mautrix_asmux.Events.Expiry.{IsReadable, expired_part, fresh_part, pop_expired_pdu-eq-filters}
use mautrix_asmux.Events.Wire.{serialize, deserialize}
use mautrix_asmux.Events.Wire.RoundTrip.{deserialize-serialize}
use mautrix_asmux.Queue.{yielded, next, acknowledge, combine, append_txn}
use mautrix_asmux.Queue.Delivery.{Polled, pdus, next-acknowledge, push_all}
use mautrix_asmux.Tests.Samples.{bundle, codec, codec-IsLossless, message, running}
use mautrix_asmux.Tests.Streams.{Log, log_stream, log_of}

deserialize-serialize_example : deserialize codec (serialize codec bundle) ≡ ok bundle
deserialize-serialize_example = deserialize-serialize codec codec-IsLossless bundle

abbrev ann : Str
ann = text "@ann:b"

message-IsReadable : IsReadable ann message
unfolding running is_foreign timestamp
message-IsReadable = (false, refl, inr (1000, refl))

pop_expired_pdu-eq-filters_example :
    pop_expired_pdu ann 180000 200000 bundle
    ≡ ok (
      expired_part ann 180000 200000 bundle.pdu,
      record bundle { pdu = fresh_part ann 180000 200000 bundle.pdu },
    )
pop_expired_pdu-eq-filters_example =
    pop_expired_pdu-eq-filters ann 180000 200000 bundle (message-IsReadable, tt)

abbrev union : List Str → List Str → List Str
union a b = a ++ b

abbrev log : Log
log = log_of (serialize codec bundle)

next-bundle : next codec union log_stream false (none ∷ some log ∷ []) ≡ yielded bundle (0 ∷ [])
unfolding next combine append_txn running serialize deserialize
next-bundle = refl

next-acknowledge_example :
    (s : Log) × Polled s (none ∷ some log ∷ [])
    × ((ps : List Fields)
        → bundle.pdu
            ++ pdus codec (
                log_stream.xrange (
                  acknowledge codec union log_stream false
                    (0 ∷ [])
                    (push_all codec union log_stream ps s)))
          ≡ pdus codec (log_stream.xrange (push_all codec union log_stream ps s)))
next-acknowledge_example =
    next-acknowledge codec union log_stream false (none ∷ some log ∷ []) bundle (0 ∷ []) next-bundle
