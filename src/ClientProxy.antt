-- ===== src/ClientProxy.antt =====
-- The client-server proxy: who sends a request, and as whom it is passed on to the homeserver
-- (mautrix_asmux/api/cs_proxy.py). A query is a list of keys and values in order, in which a key may
-- come twice.
pub mod Masquerade
pub mod Login
pub mod Exchange
pub mod Session
pub mod DirectChats
pub mod Created
pub mod Passing
use mautrix_asmux.Prelude.{
  ℕ, Bool, true, false, not, Option, none, some, List, [], ◌∷◌, ◌++◌, Str, text, str_eq, ◌==◌,
  if◌then◌else◌, is_some, is_empty, starts_with, ends_with, take, drop,
}
use mautrix_asmux.Errors.{Exn, http, HttpError, key_error, assertion_error, value_error}
use mautrix_asmux.Result.{Result, ok, err, ◌>>=◌}
use mautrix_asmux.Exec.{Exec, pure, raise, lift, gets, modify, raise_if, ◌>>◌}
use mautrix_asmux.Exec
use mautrix_asmux.Env.{Env}
use mautrix_asmux.Store.{Store, AppService, read}
use mautrix_asmux.Dict
use mautrix_asmux.Dict.{Dict}
use mautrix_asmux.Database.Azs

-- What the header says, or the exception of the lines under `try`; `custom` is
-- `header.startswith("X-")`.
unfoldable pub bearer : Bool → Str → Result Str
bearer true auth = ok auth
bearer false auth =
    if starts_with auth (text "Bearer ") then ok (drop 7 auth) else err assertion_error

unfoldable pub split_token : Env → Str → Result (ℕ × Str)
split_token env auth = elim (env.parse_uuid (take 36 auth)) [
  | none ↦ err value_error
  | some uuid ↦ ok (uuid, drop 37 auth)
]

unfoldable pub read_auth : Env → Bool → Option Str → Result (ℕ × Str)
unfolding bearer split_token
read_auth env custom none = err key_error
read_auth env custom (some header) =
    if is_empty header
    then err assertion_error
    else do auth ← bearer custom header; split_token env auth

-- The two `except` clauses
unfoldable pub refuse : Bool → Exn → Exec Store (Option ℕ)
refuse false e = pure none
refuse true value_error = raise (http HttpError.invalid_auth_token)
refuse true _ = raise (http HttpError.missing_auth_header)

unfoldable pub check_token : Str → Option ℕ → Exec Store (Option ℕ)
check_token token none s = (err (http HttpError.invalid_auth_token), s)
check_token token (some az) s =
    if (read s.azs az).as_token == token
    then (ok (some az), s)
    else (err (http HttpError.invalid_auth_token), s)

-- `find_appservice`
unfoldable pub find_appservice : Env → Bool → Bool → Option Str → Exec Store (Option ℕ)
unfolding read_auth refuse check_token
find_appservice env custom raise_errors header s = elim (read_auth env custom header) [
  | err e ↦ refuse raise_errors e s
  | ok (uuid, token) ↦
      let (found, s') = Azs.get uuid s in Exec.continue found s' (check_token token)
]

-- `f"{self.mxid_prefix}{az.owner}_{az.prefix}_"`
unfoldable pub namespace_of : Env → AppService → Str
namespace_of env az = env.mxid_prefix ++ (az.owner ++ (text "_" ++ (az.prefix ++ text "_")))

-- The query of `_copy_data`; `batch_send` says that the path ends so.
unfoldable pub clean : Env → AppService → Bool → Dict Str Str → Dict Str Str
clean env az batch_send query =
    let rest =
      Dict.remove (text "com.beeper.also_allow_user") (Dict.remove (text "access_token") query) in
    if batch_send
    then Dict.set (text "com.beeper.also_allow_user") (text "@" ++ (az.owner ++ env.mxid_suffix))
        rest
    else rest

unfoldable pub with_user_id : Env → AppService → Dict Str Str → Result (Dict Str Str)
unfolding namespace_of
with_user_id env az query = elim (Dict.get (text "user_id") query) [
  | none ↦ ok (Dict.set (text "user_id") (namespace_of env az ++ (az.bot ++ env.mxid_suffix)) query)
  | some user_id ↦
      if starts_with user_id (namespace_of env az)
      then if ends_with user_id env.mxid_suffix
        then ok query
        else err (http HttpError.external_user_id)
      else err (http HttpError.invalid_user_id)
]

-- `_copy_data`, without the headers
unfoldable pub copy_query : Env → AppService → Bool → Dict Str Str → Result (Dict Str Str)
unfolding clean with_user_id
copy_query env az batch_send query = with_user_id env az (clean env az batch_send query)
