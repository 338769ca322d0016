-- ===== src/Tests/Routing.antt =====
-- A message from the owner of a bridge, and one from somebody else.
use mautrix_asmux.Prelude.{ℕ, ◌≡◌, refl, false, [], ◌∷◌, text, str_eq, str_beq_iff, arith}
use mautrix_asmux.Dict
use mautrix_asmux.Result.{ok}
use mautrix_asmux.Json.{str}
use mautrix_asmux.Database.Rooms.Keyed.{IsKeyed}
use mautrix_asmux.Proxy.{Output, collect_event}
use mautrix_asmux.Proxy.Target.{Justified, collect_event-Justified}
use mautrix_asmux.Tests.Proxied
use mautrix_asmux.Tests.Samples.{env, store, message, message_from, no_lists, running}

abbrev out : Output ℕ
out =
    (
      7,
      record {
        txn_id = text "t";
        pdu = message ∷ [];
        edu = [];
        types = str (text "m.room.message") ∷ [];
        otk_count = [];
        device_lists = no_lists;
      },
    )
    ∷ []

collect-message : (collect_event {O = ℕ} env (text "t") false message [] store).0 ≡ ok out
unfolding running
collect-message = refl

collect_stranger :
    (collect_event {O = ℕ} env (text "t") false (message_from (text "@eve:b")) [] store).0 ≡ ok []
unfolding running
collect_stranger = refl

store-IsKeyed : IsKeyed store
unfolding Dict.get
store-IsKeyed = record {
  rows = λ id row e. ground (arith, str_beq_iff (text "!r") id);
  cached = λ id r e. cc;
}

collect_event-Justified_example :
    Justified env message 7 [] out (collect_event {O = ℕ} env (text "t") false message [] store).1
collect_event-Justified_example =
    collect_event-Justified {O = ℕ} env (text "t") message [] 7 store out store-IsKeyed
      Proxied.store-IsKeyed collect-message
