-- ===== src/Requester/Pongs.antt =====
-- What a bridge answers to a ping: `migrate_state_data` (mautrix_asmux/api/as_proxy.py),
-- `make_ping_error` (mautrix_asmux/api/as_util.py), and the methods `ping` of as_http.py and
-- as_websocket.py in mautrix_asmux/api. A `BridgeStateEvent` is the text of its value.
use mautrix_asmux.Prelude.{
  ℕ, Bool, true, not, ◌&&◌, Option, none, some, ◌++◌, Str, text, str_eq, leb, if◌then◌else◌,
  is_some,
}
use mautrix_asmux.Errors.{Exn, attribute_error, type_error}
use mautrix_asmux.Result.{Result, ok, err, ◌>>=◌}
use mautrix_asmux.Json.{set_field, Json, str, arr, obj, Fields, end, field, get, truthy}
use mautrix_asmux.Json.Holding.{holds}
use mautrix_asmux.Dict.{Dict}

-- What the program names of `BridgeState` and `GlobalBridgeState`.
pub record BridgeState : Type 0 where
  pub state_event : Str
  pub user_id : Option Str
  pub remote_id : Option Str
  pub remote_name : Option Str
  pub source : Option Str
  pub timestamp : Option ℕ
  pub error : Option Str
  pub message : Option Str

pub record GlobalBridgeState : Type 0 where
  pub remote_states : Option (Dict Str BridgeState)
  pub bridge_state : BridgeState

-- `make_ping_error`, whose default is BRIDGE_UNREACHABLE
unfoldable pub make_ping_error : Str → Option Str → GlobalBridgeState
make_ping_error error message = record {
  remote_states = none;
  bridge_state = record {
    state_event = text "BRIDGE_UNREACHABLE";
    user_id = none;
    remote_id = none;
    remote_name = none;
    source = none;
    timestamp = none;
    error = some error;
    message = message;
  };
}

-- `{key: pong}` as the remote states of a bridge that runs
unfoldable pub wrapped : Str → Json → Json
wrapped key pong = obj (
    field (text "remoteState") (obj (field key pong end)) (
      field (text "bridgeState")
        (obj (
          field (text "state_event") (str (text "RUNNING"))
            (field (text "source") (str (text "asmux")) end)))
        end))

unfoldable pub state_event_of : Json → Json
state_event_of v = str (if truthy v then text "CONNECTED" else text "UNKNOWN_ERROR")

-- The first statement of `migrate_state_data`, for an object
unfoldable pub with_state_event : Fields → Fields
unfolding state_event_of
with_state_event d = elim (get (text "ok") d) [
  | none ↦ d
  | some v ↦
      if is_some (get (text "state_event") d)
      then d
      else set_field (text "state_event") (state_event_of v) d
]

-- How a request for a ping over HTTP ends: a timeout, a `ClientError`, another exception, or a
-- response with its status and what its body is decoded to, `none` where it is not JSON.
pub data HttpPong : Type 0 where
  timed_out : HttpPong
  client_error other_error : Str → HttpPong
  answered : ℕ → Option Json → HttpPong

-- How one over a websocket ends.
pub data SocketPong : Type 0 where
  not_connected timed_out : SocketPong
  other_error : Str → SocketPong
  answered : Json → SocketPong

-- `key_of` gives the key that a `remote_id` which is no text, but can be hashed, is taken for,
-- `deserialize` is that of `GlobalBridgeState`, `fill` is the method of `BridgeState`, and `show`
-- gives the text of an exception or of a number.
pub record Library : Type 0 where
  pub key_of : Json → Str
  pub deserialize : Json → Result GlobalBridgeState
  pub fill : BridgeState → BridgeState
  pub show : Exn → Str
  pub show_number : ℕ → Str

-- A text or a list has neither keys to set nor `get`.
unfoldable pub migrate_other : Bool → Json → Result Json
unfolding holds
migrate_other is_global v = do
  with_ok ← holds (text "ok") v
  with_event ← holds (text "state_event") v
  with_remote ← holds (text "remoteState") v
  if with_ok && not with_event
      then err type_error
      else if is_global && not with_remote
      then err attribute_error
      else ok v

module _ (lib : Library) where
  unfoldable pub remote_key : Option Json → Result Str
  remote_key none = ok (text "unknown")
  remote_key (some (str s)) = ok s
  remote_key (some (arr _)) = err type_error
  remote_key (some (obj _)) = err type_error
  remote_key (some v) = ok (lib.key_of v)

  -- The second statement, for an object
  unfoldable pub wrap : Bool → Fields → Result Json
  unfolding wrapped remote_key
  wrap is_global d =
      if is_global && not (is_some (get (text "remoteState") d))
      then (do key ← remote_key (get (text "remote_id") d); ok (wrapped key (obj d)))
      else ok (obj d)

  -- `migrate_state_data`
  unfoldable pub migrate_state_data : Bool → Json → Result Json
  unfolding with_state_event wrap migrate_other
  migrate_state_data is_global (obj d) = wrap is_global (with_state_event d)
  migrate_state_data is_global v = migrate_other is_global v

  unfoldable pub read_pong : Json → Result GlobalBridgeState
  unfolding migrate_state_data
  read_pong raw_pong = do v ← migrate_state_data true raw_pong; lib.deserialize v

  -- `AppServiceHTTPHandler.ping`
  unfoldable pub http_ping : HttpPong → Result GlobalBridgeState
  unfolding make_ping_error read_pong
  http_ping HttpPong.timed_out = ok (make_ping_error (text "io-timeout") none)
  http_ping (client_error e) = ok (make_ping_error (text "http-connection-error") (some e))
  http_ping (HttpPong.other_error e) = ok (make_ping_error (text "http-fatal-error") (some e))
  http_ping (HttpPong.answered status none) = ok (
      if leb 300 status
      then make_ping_error (text "ping-http-" ++ lib.show_number status)
          (some (text "Ping returned non-JSON body and HTTP " ++ lib.show_number status))
      else make_ping_error (text "http-not-json") none)
  http_ping (HttpPong.answered status (some raw_pong)) = read_pong raw_pong

  -- `AppServiceWebsocketHandler.ping`
  unfoldable pub websocket_ping : SocketPong → Result GlobalBridgeState
  unfolding make_ping_error read_pong
  websocket_ping not_connected = ok (make_ping_error (text "websocket-not-connected") none)
  websocket_ping SocketPong.timed_out = ok (make_ping_error (text "io-timeout") none)
  websocket_ping (SocketPong.other_error e) =
      ok (make_ping_error (text "websocket-fatal-error") (some e))
  websocket_ping (SocketPong.answered raw_pong) =
      if truthy raw_pong
      then read_pong raw_pong
      else ok (make_ping_error (text "websocket-unknown-error") none)
