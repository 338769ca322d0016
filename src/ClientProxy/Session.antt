-- ===== src/ClientProxy/Session.antt =====
-- The requests of the proxy itself to the homeserver, and the cache of the user ids:
-- `_get`, `_put` and `get_user_id` (mautrix_asmux/api/cs_proxy.py).
pub mod Known
use mautrix_asmux.Prelude.{
  ℕ, Bool, true, false, ◌||◌, Option, none, some, List, [], ◌∷◌, ◌++◌, Str, text, str_eq, leb,
  nat_beq, if◌then◌else◌,
}
use mautrix_asmux.Errors.{Exn, http, custom, HttpError, key_error, value_error, type_error}
use mautrix_asmux.Result.{Result, ok, err, or_raise, ◌>>=◌}
use mautrix_asmux.Exec.{Exec}
use mautrix_asmux.Json.{Json, obj, Fields, get}
use mautrix_asmux.Dict
use mautrix_asmux.Dict.{Dict}
use mautrix_asmux.Store.{Store}

-- What `resp.json()` makes of a body: it raises `ContentTypeError`, which is a `ClientError`, or
-- `JSONDecodeError`, which is a `ValueError`, or returns a value.
pub data Body : Type 0 where
  wrong_type not_json : Body
  json : Json → Body

-- What becomes of a request to the homeserver: a `ClientError`, or a response with its status, whether
-- it has the header Transfer-Encoding, and its body.
pub data Reply : Type 0 where
  failed : Reply
  answered : ℕ → Bool → Body → Reply

-- `await resp.json()` inside `_get` and `_put`, whose `except` meets the `ClientError`.
unfoldable pub read_json : Body → Result Json
read_json wrong_type = err (http HttpError.failed_to_contact_homeserver)
read_json not_json = err value_error
read_json (json v) = ok v

-- `raise HTTPCustomError(...)`: the constructor removes a header that has to be there.
unfoldable pub custom_error : ℕ → Bool → Exn
custom_error status true = custom status
custom_error status false = key_error

-- `_get` with `raise_error`, and `_put`
unfoldable pub checked : Reply → Result Body
unfolding custom_error
checked failed = err (http HttpError.failed_to_contact_homeserver)
checked (answered status chunked body) =
    if leb 400 status then err (custom_error status chunked) else ok body

-- `v["user_id"]`
unfoldable pub user_id_in : Json → Result Json
user_id_in (obj d) = or_raise (get (text "user_id") d) key_error
user_id_in _ = err type_error

-- The answer to `whoami`, without `raise_error`
unfoldable pub whoami_user : Reply → Result Json
unfolding read_json user_id_in
whoami_user failed = err (http HttpError.failed_to_contact_homeserver)
whoami_user (answered status chunked body) =
    if nat_beq status 401 || nat_beq status 403
    then err (http HttpError.invalid_auth_token)
    else do v ← read_json body; user_id_in v

unfoldable pub remember : Str → Result Json → Dict Str Json → Result Json × Dict Str Json
remember key (err e) user_ids = (err e, user_ids)
remember key (ok user_id) user_ids = (ok user_id, Dict.set key user_id user_ids)

-- `get_user_id`, on `self.user_ids`; `hash` is SHA-512 in hexadecimal, and the reply is the one that
-- `whoami` gives for the token.
unfoldable pub get_user_id : (Str → Str) → Reply → Str → Exec (Dict Str Json) Json
unfolding remember whoami_user
get_user_id hash reply token user_ids = elim (Dict.get (hash token) user_ids) [
  | some user_id ↦ (ok user_id, user_ids)
  | none ↦ remember (hash token) (whoami_user reply) user_ids
]
