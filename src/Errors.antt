-- ===== src/Errors.antt =====
-- The errors of the HTTP API (mautrix_asmux/api/errors.py) and the exceptions of the program.
use mautrix_asmux.Prelude.{ℕ, Str, text}

-- The properties of `Error`.
pub data HttpError : Type 0 where
  request_not_json missing_appservice_id_query invalid_appservice_id_query missing_auth_header :
      HttpError
  invalid_auth_header invalid_auth_token invalid_config_password config_download_unsupported :
      HttpError
  appservice_access_denied room_delete_access_denied room_not_found appservice_ws_not_enabled :
      HttpError
  server_shutting_down user_access_denied invalid_user_id external_user_id invalid_owner : HttpError
  invalid_prefix invalid_uuid missing_fields bridge_query_required mismatching_user : HttpError
  appservice_not_found user_not_found proxy_not_setup failed_to_contact_homeserver : HttpError
  failed_to_register_bot websocket_not_connected syncproxy_error_not_supported : HttpError
  exec_not_supported : HttpError

-- The status of the class that `_make_error` is given.
unfoldable pub status : HttpError → ℕ
status HttpError.request_not_json = 400
status HttpError.missing_appservice_id_query = 400
status HttpError.invalid_appservice_id_query = 400
status HttpError.missing_auth_header = 403
status HttpError.invalid_auth_header = 403
status HttpError.invalid_auth_token = 403
status HttpError.invalid_config_password = 403
status HttpError.config_download_unsupported = 404
status HttpError.appservice_access_denied = 401
status HttpError.room_delete_access_denied = 401
status HttpError.room_not_found = 404
status HttpError.appservice_ws_not_enabled = 401
status HttpError.server_shutting_down = 503
status HttpError.user_access_denied = 401
status HttpError.invalid_user_id = 403
status HttpError.external_user_id = 403
status HttpError.invalid_owner = 400
status HttpError.invalid_prefix = 400
status HttpError.invalid_uuid = 400
status HttpError.missing_fields = 400
status HttpError.bridge_query_required = 400
status HttpError.mismatching_user = 400
status HttpError.appservice_not_found = 404
status HttpError.user_not_found = 404
status HttpError.proxy_not_setup = 404
status HttpError.failed_to_contact_homeserver = 502
status HttpError.failed_to_register_bot = 500
status HttpError.websocket_not_connected = 502
status HttpError.syncproxy_error_not_supported = 501
status HttpError.exec_not_supported = 501

-- The `errcode` field of the body.
unfoldable pub errcode : HttpError → Str
errcode HttpError.request_not_json = text "M_NOT_JSON"
errcode HttpError.missing_appservice_id_query = text "M_MISSING_PARAM"
errcode HttpError.invalid_appservice_id_query = text "M_INVALID_PARAM"
errcode HttpError.missing_auth_header = text "M_MISSING_TOKEN"
errcode HttpError.invalid_auth_header = text "M_UNKNOWN_TOKEN"
errcode HttpError.invalid_auth_token = text "M_UNKNOWN_TOKEN"
errcode HttpError.invalid_config_password = text "M_UNKNOWN_TOKEN"
errcode HttpError.config_download_unsupported = text "COM.BEEPER.NO_CONFIG_DOWNLOAD"
errcode HttpError.appservice_access_denied = text "M_UNAUTHORIZED"
errcode HttpError.room_delete_access_denied = text "M_UNAUTHORIZED"
errcode HttpError.room_not_found = text "M_NOT_FOUND"
errcode HttpError.appservice_ws_not_enabled = text "COM.BEEPER.TXN_WS_NOT_ENABLED"
errcode HttpError.server_shutting_down = text "COM.BEEPER.SHUTTING_DOWN"
errcode HttpError.user_access_denied = text "M_UNAUTHORIZED"
errcode HttpError.invalid_user_id = text "M_FORBIDDEN"
errcode HttpError.external_user_id = text "M_FORBIDDEN"
errcode HttpError.invalid_owner = text "M_BAD_REQUEST"
errcode HttpError.invalid_prefix = text "M_BAD_REQUEST"
errcode HttpError.invalid_uuid = text "M_BAD_REQUEST"
errcode HttpError.missing_fields = text "M_BAD_REQUEST"
errcode HttpError.bridge_query_required = text "M_BAD_REQUEST"
errcode HttpError.mismatching_user = text "M_FORBIDDEN"
errcode HttpError.appservice_not_found = text "M_NOT_FOUND"
errcode HttpError.user_not_found = text "M_NOT_FOUND"
errcode HttpError.proxy_not_setup = text "M_NOT_FOUND"
errcode HttpError.failed_to_contact_homeserver = text "M_BAD_GATEWAY"
errcode HttpError.failed_to_register_bot = text "M_UNKNOWN"
errcode HttpError.websocket_not_connected = text "FI.MAU.WS_NOT_CONNECTED"
errcode HttpError.syncproxy_error_not_supported = text "FI.MAU.NOT_IMPLEMENTED"
errcode HttpError.exec_not_supported = text "FI.MAU.NOT_IMPLEMENTED"

-- What a call may raise: Python's own exceptions, a violated constraint of the database, an error
-- of the HTTP API.
pub data Exn : Type 0 where
  key_error type_error attribute_error value_error assertion_error integrity_error : Exn
  invalid_state connection_error : Exn
  http : HttpError → Exn
  -- `HTTPCustomError` of the client-server proxy, with its status
  custom : ℕ → Exn
