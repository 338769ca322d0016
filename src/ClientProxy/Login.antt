-- ===== src/ClientProxy/Login.antt =====
-- The password of a login is exchanged for the one that the homeserver takes: `_find_login_token` and
-- `convert_login_password` (mautrix_asmux/api/cs_proxy.py). The body is a JSON object.
use mautrix_asmux.Prelude.{
  ℕ, Bool, true, false, ◌&&◌, Option, none, some, Str, text, str_eq, if◌then◌else◌, is_empty,
  length, starts_with, ends_with,
}
use mautrix_asmux.Errors.{key_error, type_error, attribute_error, value_error}
use mautrix_asmux.Result.{Result, ok, err}
use mautrix_asmux.Exec.{Exec, pure, raise, lift, gets, ◌>>=◌}
use mautrix_asmux.Json.{set_field, Json, str, obj, Fields, get, truthy, is_text}
use mautrix_asmux.Env.{Env}
use mautrix_asmux.Store.{Store, read}
use mautrix_asmux.Database.Azs
use mautrix_asmux.Database.Users
use mautrix_asmux.UserIds.{slice_between, split_localpart}

-- A user id that stands in the body; one that counts as false ends in `return False`.
unfoldable pub as_user_id : Json → Result (Option Str)
as_user_id (str s) = if is_empty s then ok none else ok (some s)
as_user_id v = if truthy v then err attribute_error else ok none

unfoldable pub identified : Json → Result (Option Str)
unfolding as_user_id
identified (obj d) = elim (get (text "type") d) [
  | none ↦ err key_error
  | some t ↦
      if is_text (text "m.id.user") (some t)
      then elim (get (text "user") d) [ none ↦ err key_error | some v ↦ as_user_id v ]
      else ok none
]
identified _ = err type_error

unfoldable pub user_id_of : Fields → Result (Option Str)
unfolding identified
user_id_of body = elim (get (text "user") body) [
  | some v ↦ as_user_id v
  | none ↦ elim (get (text "identifier") body) [ none ↦ err key_error | some v ↦ identified v ]
]

unfoldable pub token_of_az : Option ℕ → Exec Store (Option Str)
token_of_az none = pure none
token_of_az (some az) = gets (λ (s : Store). (read s.azs az).login_token)

unfoldable pub token_of_user : Option ℕ → Exec Store (Option Str)
token_of_user none = pure none
token_of_user (some user) = gets (λ (s : Store). some (read s.users user).login_token)

unfoldable pub find_owner : Option (Str × Str) → Exec Store (Option Str)
unfolding token_of_az
find_owner none = raise value_error
find_owner (some (owner, prefix)) = do az ← Azs.find owner prefix; token_of_az az

-- `parse` is `ClientAPI.parse_user_id`, for the localpart; `none` is its `ValueError`.
unfoldable pub find_local : Option Str → Exec Store (Option Str)
unfolding token_of_user
find_local none = raise value_error
find_local (some localpart) = do user ← Users.get localpart; token_of_user user

unfoldable pub find_login_token : Env → (Str → Option Str) → Str → Exec Store (Option Str)
unfolding find_owner find_local
find_login_token env parse user_id =
    if starts_with user_id env.mxid_prefix && ends_with user_id env.mxid_suffix
    then find_owner
        (split_localpart (slice_between user_id (length env.mxid_prefix) (length env.mxid_suffix)))
    else find_local (parse user_id)

-- `hmac key message` is the hex digest of `hmac.new(key, message, hashlib.sha512)`.
module _ (hmac : Str → Str → Str) (shared_secret : Str) where
  unfoldable pub exchange : Fields → Str → Option Str → Result (Bool × Fields)
  exchange body user_id none = ok (false, body)
  exchange body user_id (some login_token) =
      if is_empty login_token then ok (false, body) else elim (get (text "password") body) [
        | none ↦ err key_error
        | some given ↦
            if is_text (hmac login_token user_id) (some given)
            then ok (true, set_field (text "password") (str (hmac shared_secret user_id)) body)
            else ok (false, body)
      ]

  -- Where the caller gives neither the appservice nor the user id.
  unfoldable pub with_found :
      Env → (Str → Option Str) → Fields → Option Str → Exec Store (Bool × Fields)
  unfolding exchange
  with_found env parse body none = pure (false, body)
  with_found env parse body (some user_id) = do
    token ← find_login_token env parse user_id
    lift (exchange body user_id token)

  unfoldable pub try_convert : Env → (Str → Option Str) → Fields → Exec Store (Bool × Fields)
  unfolding with_found
  try_convert env parse body = elim (get (text "type") body) [
    | none ↦ raise key_error
    | some t ↦
        if is_text (text "m.login.password") (some t)
        then (do user_id ← lift (user_id_of body); with_found env parse body user_id)
        else pure (false, body)
  ]

  -- `except (KeyError, ValueError): pass`
  unfoldable pub caught : Fields → Result (Bool × Fields) → Result (Bool × Fields)
  caught body (err key_error) = ok (false, body)
  caught body (err value_error) = ok (false, body)
  caught body r = r

  unfoldable pub convert_login_password :
      Env → (Str → Option Str) → Fields → Exec Store (Bool × Fields)
  unfolding try_convert caught
  convert_login_password env parse body s =
      if is_empty shared_secret
      then (ok (false, body), s)
      else (let (r, s') = try_convert env parse body s in (caught body r, s'))

  -- For the user id and the login token of an appservice that the caller has found.
  unfoldable pub try_convert_for : Fields → Str → Option Str → Result (Bool × Fields)
  unfolding exchange
  try_convert_for body user_id login_token = elim (get (text "type") body) [
    | none ↦ err key_error
    | some t ↦
        if is_text (text "m.login.password") (some t)
        then exchange body user_id login_token
        else ok (false, body)
  ]

  -- `convert_login_password` with an appservice and a user id that is not empty. `login` is any value:
  -- one that is no object has no keys.
  unfoldable pub convert_for : Json → Str → Option Str → Result (Bool × Json)
  unfolding try_convert_for caught
  convert_for login user_id login_token =
      if is_empty shared_secret then ok (false, login) else elim login [
        | obj body ↦ elim (caught body (try_convert_for body user_id login_token)) [
          | ok (b, body') ↦ ok (b, obj body')
          | err e ↦ err e
        ]
        | _ ↦ err type_error
      ]
