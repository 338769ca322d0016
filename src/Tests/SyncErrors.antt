-- ===== src/Tests/SyncErrors.antt =====
-- Errors of the sync proxy, and messages that a room has changed.
use mautrix_asmux.Prelude.{
  ℕ, ◌≡◌, refl, false, Option, some, [], ◌∷◌, Str, text, str_eq, str_beq_iff, nat_eq, arith,
}
use mautrix_asmux.Dict
use mautrix_asmux.Json.Holding
use mautrix_asmux.Json.{Json, str, Fields, end, field}
use mautrix_asmux.Result.{ok}
use mautrix_asmux.Store.{read}
use mautrix_asmux.Database.Rooms
use mautrix_asmux.Database.Rooms.Keyed
use mautrix_asmux.Database.Rooms.Invalidated.{
  got, handle_invalidate_room, get-handle_invalidate_room,
}
use mautrix_asmux.Requester
use mautrix_asmux.Requester.SyncErrors
use mautrix_asmux.Requester.SyncErrors.{
  Receiver, Instance, Others, stored, push_failed, acknowledged, parse_id, handle_syncproxy_error,
  handle_syncproxy_error_request,
}
use mautrix_asmux.Requester.SyncErrors.Told.{IsReport, handle_syncproxy_error-IsReport}
use mautrix_asmux.Tests.Samples.{store, running}
use mautrix_asmux.Tests.Proxied.{open_env, store-IsKeyed}

abbrev receiver : Receiver
receiver = record { store = store; transactions = [] }

abbrev replies : ℕ → Option Json
replies _ = some (str (text "ok"))

report :
    (handle_syncproxy_error open_env (ok (text "t")) (some (text "7")) replies receiver).0
    ≡ ok (7, str (text "ok"))
unfolding running SyncErrors.handle_syncproxy_error SyncErrors.parse_id SyncErrors.get_az
    SyncErrors.pass_on SyncErrors.send_syncproxy_error SyncErrors.sync_answer SyncErrors.mark_done
    Requester.handle_request_over_redis Requester.publish_loop
report = refl

handle_syncproxy_error-IsReport_example :
    let t =
      (handle_syncproxy_error open_env (ok (text "t")) (some (text "7")) replies receiver).1 in
    (txn_id : Str) × (ok (text "t") ≡ ok txn_id)
    × (parse_id open_env (some (text "7")) ≡ ok 7)
    × (t.transactions ≡ txn_id ∷ [])
    × (r : ℕ) × ((read t.store.azs r).id ≡ 7)
    × ((read t.store.azs r).push ≡ false)
    × IsReport replies (str (text "ok"))
handle_syncproxy_error-IsReport_example =
    handle_syncproxy_error-IsReport open_env (ok (text "t")) (some (text "7")) replies receiver 7
      (str (text "ok")) store-IsKeyed report

abbrev here : Instance
here = record {
  store = store;
  in_flight = [];
  websockets = λ _. some (record { proto = 3; timeouts = 0 });
  pushed = [];
}

abbrev message : Fields
message =
    field (text "txn_id") (str (text "t"))
      (field (text "az_id") (str (text "7")) (field (text "data") (str (text "error")) end))

abbrev alone : Others
alone = record { lookup = λ set. set; posting = λ set. set; pushing = λ set. set }

answered-message :
    let answered =
      (handle_syncproxy_error_request open_env message alone acknowledged stored here).1 in
    let left =
      (handle_syncproxy_error_request open_env message alone acknowledged
        (push_failed false)
        here).1 in
    (answered.pushed ≡ (7, text "t", text "ok") ∷ [])
    × (answered.in_flight ≡ [])
    × (left.pushed ≡ [])
    × (left.in_flight ≡ text "t" ∷ [])
unfolding running SyncErrors.handle_syncproxy_error_request SyncErrors.handle_if_new
    SyncErrors.handle_new SyncErrors.find_az SyncErrors.text_of SyncErrors.answer_if
    SyncErrors.answer_here SyncErrors.post_syncproxy_error SyncErrors.set_peer
    SyncErrors.push_answer Holding.item
answered-message = (refl, refl, refl, refl)

rooms-IsKeyed : Keyed.IsKeyed store
unfolding Dict.get
rooms-IsKeyed = record {
  rows = λ id row e. ground (arith, str_beq_iff (text "!r") id);
  cached = λ id r e. cc;
}

get-handle_invalidate_room_example :
    let (result, t) = handle_invalidate_room (text "!r") store in
    (result ≡ ok tt) × (got (Rooms.get (text "!r") t) ≡ Dict.get (text "!r") store.room_table)
get-handle_invalidate_room_example = get-handle_invalidate_room (text "!r") store rooms-IsKeyed
