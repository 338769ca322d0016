-- ===== src/Management/Downloads.antt =====
-- The download of a configuration: `_authorize_config_download`, `register_config` and
-- `download_config` (mautrix_asmux/api/management_api.py).
pub mod Authorized
pub mod Redirect
use mautrix_asmux.Prelude.{ℕ, Bool, true, false, not, Option, none, some, ◌++◌, Str, text, str_eq}
use mautrix_asmux.Errors.{http, HttpError}
use mautrix_asmux.Exec.{Exec, pure, gets, raise_if, lift, ◌>>=◌, ◌>>◌}
use mautrix_asmux.Json.{Json, str, bool}
use mautrix_asmux.Dict
use mautrix_asmux.Dict.{Dict}
use mautrix_asmux.Store.{Store, AppService, read}
use mautrix_asmux.Database.Azs
use mautrix_asmux.Database.Azs.Passwords.{Base32, check_password, generate_password}
use mautrix_asmux.Management.{fail}

unfoldable pub authorize_found : Base32 → Str → ℕ → Option ℕ → Exec Store ℕ
unfolding check_password
authorize_found base32 password now none = fail HttpError.appservice_not_found
authorize_found base32 password now (some r) = do
  row ← gets (λ (s : Store). (read s.azs r).row)
  right ← lift (check_password base32 row password now)
  raise_if (not right) (http HttpError.invalid_config_password)
  pure r

-- `_authorize_config_download`; the username and the password of the header Authorization come
-- decoded, and `none` where the lines under `try` raise.
unfoldable pub authorize_config_download : Base32 → Str → Option (Str × Str) → ℕ → Exec Store ℕ
unfolding authorize_found
authorize_config_download base32 prefix none now = fail HttpError.invalid_auth_header
authorize_config_download base32 prefix (some (username, password)) now = do
  found ← Azs.find username prefix
  authorize_found base32 password now found

-- The parts of the URL to which `register_config` redirects.
pub record Location : Type 0 where
  pub path : Str
  pub user : Str
  pub password : Str

unfoldable pub config_path : Str → Str
config_path prefix = text "/_matrix/asmux/public/config/" ++ (prefix ++ text "/download")

-- `token` is what `secrets.token_bytes` returns.
unfoldable pub register_config : Base32 → Str → Option (Str × Str) → Str → ℕ → Exec Store Location
unfolding authorize_config_download generate_password config_path
register_config base32 prefix basic token now = do
  r ← authorize_config_download base32 prefix basic now
  new_password ← generate_password base32 r token none now
  az ← gets (λ (s : Store). read s.azs r)
  pure (record { path = config_path az.prefix; user = az.owner; password = new_password })

-- The settings of the server, as texts, and the printing of a UUID.
pub record Addresses : Type 0 where
  pub public_address : Str
  pub websocket_address : Str
  pub server_name : Str
  pub namespace_prefix : Str
  pub print_uuid : ℕ → Str

-- `_{az.owner}_{az.prefix}_{end}`, behind `head`
unfoldable pub localpart : Str → AppService → Str → Str
localpart head az end = head ++ (az.owner ++ (text "_" ++ (az.prefix ++ (text "_" ++ end))))

-- `None` is dumped as null.
unfoldable pub login_value : Option Str → Json
login_value none = Json.null
login_value (some token) = str token

unfoldable pub homeserver_part : Addresses → Dict Str Json → Dict Str Json
homeserver_part env config = Dict.set (text "homeserver.asmux") (bool true) (
    Dict.set (text "homeserver.domain") (str env.server_name) (
      Dict.set (text "homeserver.websocket_proxy") (str env.websocket_address)
        (Dict.set (text "homeserver.address") (str env.public_address) config)))

unfoldable pub appservice_part : Addresses → AppService → Dict Str Json → Dict Str Json
unfolding localpart
appservice_part env az config = Dict.set (text "appservice.hs_token") (str az.hs_token) (
    Dict.set (text "appservice.as_token") (str (env.print_uuid az.id ++ (text "-" ++ az.as_token)))
      (Dict.set (text "appservice.bot.username") (str (localpart (text "_") az az.bot))
        (Dict.set (text "appservice.id") (str (env.print_uuid az.id)) config)))

unfoldable pub bridge_part : Addresses → AppService → Dict Str Json → Dict Str Json
unfolding localpart login_value
bridge_part env az config =
    Dict.set (text "bridge.login_shared_secret") (login_value az.login_token) (
      Dict.set (text "bridge.username_template")
        (str (localpart env.namespace_prefix az (text "{{.}}")))
        (Dict.set (text "bridge.user")
          (str (text "@" ++ (az.owner ++ (text ":" ++ env.server_name)))) config))

-- `_configure_imessage`, from the copy of the template to the dump; the keys are those that the
-- program gives the configuration.
unfoldable pub configure_imessage : Addresses → AppService → Dict Str Json → Dict Str Json
unfolding homeserver_part appservice_part bridge_part
configure_imessage env az template =
    bridge_part env az (appservice_part env az (homeserver_part env template))

unfoldable pub download_config :
    Base32 → Addresses → Dict Str Json → Str → Option (Str × Str) → ℕ → Exec Store (Dict Str Json)
unfolding authorize_config_download configure_imessage
download_config base32 env template prefix basic now = do
  r ← authorize_config_download base32 prefix basic now
  az ← gets (λ (s : Store). read s.azs r)
  pure (configure_imessage env az template)
