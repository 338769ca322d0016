-- ===== src/ClientProxy/Passing.antt =====
-- What is passed on to the homeserver: `proxy_login`, `proxy` and
-- `_proxy` (mautrix_asmux/api/cs_proxy.py). The counters are left out. The name
-- of a header is always spelt in one way.
pub mod Sent
pub mod Rooms
pub mod Logins
use mautrix_asmux.Prelude.{
  ℕ, Bool, true, false, ◌||◌, ◌&&◌, not, Option, none, some, List, [], ◌∷◌, ◌++◌, Str, text, str_eq,
  ◌==◌, leb, ltb, if◌then◌else◌, is_empty, starts_with, ends_with, strip_prefix, is_some,
}
use mautrix_asmux.Errors.{Exn, http, HttpError, key_error, type_error, value_error}
use mautrix_asmux.Result.{Result, ok, err, or_raise}
use mautrix_asmux.Exec.{Exec, pure, raise, lift, gets, modify, raise_if, ◌>>=◌, ◌>>◌}
use mautrix_asmux.Json.{
  set_field, Json, null, bool, num, str, arr, Items, nil, cons, obj, Fields, end, field, get,
  as_dict, is_text,
}
use mautrix_asmux.Dict
use mautrix_asmux.Dict.{Dict}
use mautrix_asmux.Env.{Env}
use mautrix_asmux.Store.{Store, AppService, read}
use mautrix_asmux.Database.Azs
use mautrix_asmux.ClientProxy.{find_appservice, copy_query}
use mautrix_asmux.ClientProxy.Created.{register_from_create}
use mautrix_asmux.ClientProxy.Login.{convert_login_password, convert_for}

-- A request of a client. `raw_path` is the part before any "?" of the path as it was sent, `path` is
-- the path with its escapes decoded, and `json` is what `req.json()` returns or raises.
pub record Request : Type 0 where
  pub method : Str
  pub path : Str
  pub raw_path : Str
  pub headers : Dict Str Str
  pub query : Dict Str Str
  pub json : Result Json

-- The body of a request to the homeserver: that of the client, or one that is encoded anew.
pub data Content : Type 0 where
  unchanged : Content
  encoded : Json → Content

pub record Outgoing : Type 0 where
  pub method : Str
  pub path : Str
  pub headers : Dict Str Str
  pub query : Dict Str Str
  pub content : Content

-- What becomes of it: a `ClientError`, or a response with its status, and what `json.loads` makes of
-- its body.
pub data Answer : Type 0 where
  failed : Answer
  answered : ℕ → Result Json → Answer

-- The database and its caches, and the requests that the homeserver was sent.
pub record Proxied : Type 0 where
  pub store : Store
  pub sent : List Outgoing

abbrev pub in_store : {A : Type 0} → Exec Store A → Exec Proxied A
in_store m s = let (r, store) = m s.store in (r, record s { store = store })

-- `a or b` for two mappings
unfoldable pub or_dict : Dict Str Str → Dict Str Str → Dict Str Str
or_dict [] b = b
or_dict (x ∷ a) b = x ∷ a

unfoldable pub received : Answer → Result (ℕ × Result Json)
received failed = err (http HttpError.failed_to_contact_homeserver)
received (answered status body) = ok (status, body)

-- `_proxy`, which returns the status and the body of the response. Headers and query are those that
-- are given, or else those of the client.
unfoldable pub send :
    Answer → Request → Str → Dict Str Str → Dict Str Str → Content → Exec Proxied (ℕ × Result Json)
unfolding or_dict received
send answer req path headers query content = do
  modify (λ (s : Proxied).
      let out : Outgoing = record {
        method = req.method;
        path = path;
        headers = or_dict headers req.headers;
        query = or_dict query req.query;
        content = content;
      } in
      record s { sent = s.sent ++ out ∷ [] })
  lift (received answer)

-- `copy_headers_no_host`
unfoldable pub copy_headers_no_host : Dict Str Str → Dict Str Str
copy_headers_no_host headers = Dict.remove (text "Host") headers

-- The headers of `_copy_data`
unfoldable pub copy_headers : Str → AppService → Dict Str Str → Dict Str Str
unfolding copy_headers_no_host Azs.name
copy_headers as_token az headers =
    Dict.set (text "X-Beeper-Bridge") (Azs.name az)
      (Dict.set (text "Authorization") (text "Bearer " ++ as_token) (copy_headers_no_host headers))

-- `json_body.get("auth", {})`
unfoldable pub auth_of : Fields → Json
auth_of body = elim (get (text "auth") body) [ none ↦ obj end | some v ↦ v ]

-- `path.removeprefix(prefix)`
unfoldable pub remove_prefix : Str → Str → Str
remove_prefix prefix path = elim (strip_prefix prefix path) [ none ↦ path | some rest ↦ rest ]

unfoldable pub unversioned : Str → Str
unfolding remove_prefix
unversioned path = remove_prefix (text "v3/") (remove_prefix (text "r0/") path)

unfoldable pub deletes_devices : Request → Str → Str → Bool
unfolding unversioned
deletes_devices req spec path =
    (spec == text "client")
    && (((unversioned path == text "delete_devices") && (req.method == text "POST"))
        || (starts_with (unversioned path) (text "devices/") && (req.method == text "DELETE")))

unfoldable pub creates_room : Str → Str → Bool
unfolding unversioned
creates_room spec path = (spec == text "client") && (unversioned path == text "createRoom")

-- `query["user_id"]`
unfoldable pub user_of : Dict Str Str → Result Str
user_of query = or_raise (Dict.get (text "user_id") query) key_error

-- `headers["Content-Type"] = ...; del headers["Content-Length"]`
unfoldable pub login_headers : Dict Str Str → Result (Dict Str Str)
login_headers headers =
    let typed = Dict.set (text "Content-Type") (text "application/json") headers in
    if is_some (Dict.get (text "Content-Length") typed)
    then ok (Dict.remove (text "Content-Length") typed)
    else err key_error

-- The login with the body that `convert_login_password` leaves.
unfoldable pub send_login : Answer → Request → Bool × Fields → Exec Proxied (ℕ × Result Json)
unfolding login_headers send
send_login answer req (false, body) =
    send answer req (text "/_matrix/client/v3/login") (copy_headers_no_host req.headers) []
      unchanged
send_login answer req (true, body) = do
  headers ← lift (login_headers (copy_headers_no_host req.headers))
  send answer req (text "/_matrix/client/v3/login") headers [] (encoded (obj body))

module _ (env : Env) (as_token shared_secret : Str) (hmac : Str → Str → Str) where
  -- The login in the body of a request to delete devices.
  unfoldable pub convert_auth : AppService → Str → Result Json → Result Content
  unfolding auth_of
  convert_auth az user_id json = elim json [
    | err e ↦ err e
    | ok v ↦ elim (as_dict v) [
      | err e ↦ err e
      | ok body ↦ elim (convert_for hmac shared_secret (auth_of body) user_id az.login_token) [
        | err e ↦ err e
        | ok (b, auth) ↦
            ok (if b then encoded (obj (set_field (text "auth") auth body)) else unchanged)
      ]
    ]
  ]

  unfoldable pub content_for : AppService → Request → Str → Str → Dict Str Str → Result Content
  unfolding deletes_devices convert_auth user_of
  content_for az req spec path query =
      if deletes_devices req spec path
      then elim (user_of query) [ err e ↦ err e | ok user_id ↦ convert_auth az user_id req.json ]
      else ok unchanged

  -- The part of `proxy` behind `find_appservice`, for an appservice
  unfoldable pub proxy_as : Answer → Request → Str → Str → ℕ → Exec Proxied (ℕ × Result Json)
  unfolding copy_headers content_for creates_room send
  proxy_as answer req spec path r = do
    az ← gets (λ (s : Proxied). read s.store.azs r)
    query ← lift (copy_query env az (ends_with req.path (text "/batch_send")) req.query)
    content ← lift (content_for az req spec path query)
    resp ← send answer req req.raw_path (copy_headers as_token az req.headers) query content
    if creates_room spec path then in_store (register_from_create az.id resp.0 resp.1) else pure tt
    pure resp

  unfoldable pub proxy_for :
      Answer → Request → Str → Str → Option ℕ → Exec Proxied (ℕ × Result Json)
  unfolding proxy_as
  proxy_for answer req spec path none =
      send answer req req.raw_path (copy_headers_no_host req.headers) [] unchanged
  proxy_for answer req spec path (some r) = proxy_as answer req spec path r

  -- `proxy`, which returns the status and the body of the response.
  unfoldable pub proxy : Answer → Request → Str → Str → Exec Proxied (ℕ × Result Json)
  unfolding proxy_for
  proxy answer req spec path = do
    found ← in_store (find_appservice env false false (Dict.get (text "Authorization") req.headers))
    proxy_for answer req spec path found

  -- `proxy_login`; `parse` is `ClientAPI.parse_user_id`.
  unfoldable pub proxy_login :
      (Str → Option Str) → Answer → Request → Exec Proxied (ℕ × Result Json)
  unfolding send_login proxy
  proxy_login parse answer req = do
    v ← lift req.json
    body ← lift (as_dict v)
    if is_text (text "m.login.password") (get (text "type") body)
        then (do
          converted ← in_store (convert_login_password hmac shared_secret env parse body)
          send_login answer req converted)
        else proxy answer req (text "client") (text "v3/login")
