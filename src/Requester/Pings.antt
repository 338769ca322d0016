-- ===== src/Requester/Pings.antt =====
-- Pings of a bridge: `request_bridge_ping` and `ping` (mautrix_asmux/api/as_requester.py).
pub mod Attributed
use mautrix_asmux.Prelude.{
  ℕ, ◌+◌, Bool, true, false, not, ◌&&◌, ◌||◌, Option, none, some, List, [], ◌∷◌, ◌++◌, Str, text,
  str_eq, ◌==◌, leb, nat_beq, if◌then◌else◌, is_empty, is_some, map,
}
use mautrix_asmux.Errors.{Exn, attribute_error, type_error}
use mautrix_asmux.Result.{Result, ok, err, ◌>>=◌}
use mautrix_asmux.Json.{
  set_field, Json, null, bool, num, str, arr, obj, Fields, end, field, get, truthy,
}
use mautrix_asmux.Json.Holding.{holds}
use mautrix_asmux.Dict.{Dict}
use mautrix_asmux.Env.{Env}
use mautrix_asmux.Store.{AppService}
use mautrix_asmux.Util.{owner_mxid}
use mautrix_asmux.Requester.{Answer, replied, request_timed_out, handle_request_over_redis}
use mautrix_asmux.Requester.Pongs.{
  BridgeState, GlobalBridgeState, make_ping_error, HttpPong, SocketPong, Library, http_ping,
  websocket_ping,
}

-- `if "remote_states" not in data: data["remoteState"] = None`
unfoldable pub without_remote : Json → Result Json
unfolding holds
without_remote (obj d) = ok (
    obj
      (if is_some (get (text "remote_states") d) then d else set_field (text "remoteState") null d))
without_remote v = do there ← holds (text "remote_states") v; if there then ok v else err type_error

-- `a or b`
unfoldable pub or_text : Option Str → Str → Str
or_text none b = b
or_text (some a) b = if is_empty a then b else a

unfoldable pub or_time : Option ℕ → ℕ → ℕ
or_time none b = b
or_time (some a) b = if nat_beq a 0 then b else a

-- The loop over `remote_states`
unfoldable pub attribute : Str → ℕ → Dict Str BridgeState → Dict Str BridgeState
unfolding or_text or_time
attribute user_id now [] = []
attribute user_id now ((key, remote) ∷ states) =
    (
      key,
      record remote {
        source = some (or_text remote.source (text "bridge"));
        timestamp = some (or_time remote.timestamp now);
        user_id = some user_id;
      },
    )
    ∷ attribute user_id now states

unfoldable pub attribute_all :
    Str → ℕ → Option (Dict Str BridgeState) → Option (Dict Str BridgeState)
unfolding attribute
attribute_all user_id now none = none
attribute_all user_id now (some states) = some (attribute user_id now states)

module _ (lib : Library) where
  unfoldable pub read_reply : Option (Answer Json × ℕ) → Result GlobalBridgeState
  unfolding without_remote make_ping_error
  read_reply none = err type_error
  read_reply (some (request_timed_out, _)) =
      ok (make_ping_error (text "websocket-unknown-error") none)
  read_reply (some (replied v, _)) = do w ← without_remote v; lib.deserialize w

  -- `request_bridge_ping`; the replies are what the attempts take from the list, decoded.
  unfoldable pub request_bridge_ping : (ℕ → Option Json) → Result GlobalBridgeState
  unfolding read_reply handle_request_over_redis
  request_bridge_ping replies = read_reply (handle_request_over_redis replies)

  -- `ping` behind the `try`
  unfoldable pub finish_ping : Env → AppService → ℕ → GlobalBridgeState → GlobalBridgeState
  unfolding attribute_all
  finish_ping env az now pong =
      let user_id = owner_mxid env az.owner in
      record {
        remote_states = attribute_all user_id now pong.remote_states;
        bridge_state = record (lib.fill pong.bridge_state) {
          user_id = some user_id;
          remote_id = none;
          remote_name = none;
        };
      }

  unfoldable pub pong_of : AppService → HttpPong → (ℕ → Option Json) → Result GlobalBridgeState
  unfolding request_bridge_ping http_ping make_ping_error
  pong_of az http replies =
      if not az.push
      then request_bridge_ping replies
      else if is_empty az.address
      then ok (make_ping_error (text "ping-no-remote") none)
      else http_ping lib http

  unfoldable pub or_fatal : Result GlobalBridgeState → GlobalBridgeState
  unfolding make_ping_error
  or_fatal (ok pong) = pong
  or_fatal (err e) = make_ping_error (text "ping-fatal-error") (some (lib.show e))

  -- `AppServiceRequester.ping`
  unfoldable pub ping : Env → AppService → ℕ → HttpPong → (ℕ → Option Json) → GlobalBridgeState
  unfolding finish_ping pong_of or_fatal
  ping env az now http replies = finish_ping env az now (or_fatal (pong_of az http replies))
