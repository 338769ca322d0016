-- ===== src/Management.antt =====
-- Who may read and change what: the authentication and the requests of `ManagementAPI` on users,
-- appservices and rooms (mautrix_asmux/api/management_api.py). A request comes with what its handler
-- reads of it, and the headers of the response are left out.
pub mod Owners
pub mod Changes
pub mod Keys
pub mod Provision
pub mod Downloads
pub mod Proxies
use mautrix_asmux.Prelude.{
  ℕ, suc, ◌+◌, Bool, true, false, not, ◌&&◌, ◌||◌, Option, none, some, List, [], ◌∷◌, Str, text,
  str_eq, str_beq, ◌==◌, ltb, leb, if◌then◌else◌, is_some, is_empty, length, starts_with, drop,
  one_of, nat_beq,
}
use mautrix_asmux.Errors.{Exn, http, HttpError, key_error, assertion_error, type_error}
use mautrix_asmux.Errors
use mautrix_asmux.Result.{Result, ok, err, or_raise}
use mautrix_asmux.Exec.{Exec, pure, raise, lift, gets, modify, raise_if, ◌>>=◌, ◌>>◌}
use mautrix_asmux.Json.{Json, obj, Fields, end, field, get}
use mautrix_asmux.Env.{Env}
use mautrix_asmux.Store.{Store, User, AppService, Room, read}
use mautrix_asmux.Database.Users
use mautrix_asmux.Database.Azs
use mautrix_asmux.Database.Rooms

-- What the middleware writes into a request: `is_root`, or `user` and `user_direct_auth`.
pub data Access : Type 0 where
  root : Access
  by_user : ℕ → Bool → Access

abbrev pub fail : {A : Type 0} → HttpError → Exec Store A
fail e = raise (http e)

-- `_check_auth_generic` up to the call of the handler, for any method but OPTIONS; the header is that
-- with the name Authorization.
unfoldable pub check_auth_generic : Str → (Str → Exec Store Access) → Option Str → Exec Store Access
check_auth_generic shared_secret callback none = fail HttpError.missing_auth_header
check_auth_generic shared_secret callback (some header) =
    if starts_with header (text "Bearer ")
    then (let auth = drop 7 header in if auth == shared_secret then pure root else callback auth)
    else fail HttpError.invalid_auth_header

unfoldable pub with_user : HttpError → Bool → Option ℕ → Exec Store Access
with_user e direct none = fail e
with_user e direct (some user) = pure (by_user user direct)

unfoldable pub normal_auth_callback : Str → Exec Store Access
unfolding with_user
normal_auth_callback auth = do
  user ← Users.find_by_api_token auth
  with_user HttpError.invalid_auth_token false user

-- `whoami` is `get_user_id` behind `ClientAPI.parse_user_id`: a localpart and a homeserver.
unfoldable pub mx_auth_callback : Str → (Str → Result (Str × Str)) → Str → Exec Store Access
unfolding with_user
mx_auth_callback server_name whoami auth = do
  user_id ← lift (whoami auth)
  raise_if (not (user_id.1 == server_name)) assertion_error
  user ← Users.get user_id.0
  with_user HttpError.user_not_found true user

unfoldable pub check_auth : Str → Option Str → Exec Store Access
unfolding check_auth_generic normal_auth_callback
check_auth shared_secret header = check_auth_generic shared_secret normal_auth_callback header

unfoldable pub check_mx_auth :
    Str → Str → (Str → Result (Str × Str)) → Option Str → Exec Store Access
unfolding check_auth_generic mx_auth_callback
check_mx_auth shared_secret server_name whoami header =
    check_auth_generic shared_secret (mx_auth_callback server_name whoami) header

-- The part of the path that names an appservice.
pub data Target : Type 0 where
  by_id : Str → Target
  by_name : Str → Str → Target

-- `"user" in req and req["user"].id != owner`
unfoldable pub is_other : Access → Str → Store → Bool
is_other root owner s = false
is_other (by_user user _) owner s = not ((read s.users user).id == owner)

unfoldable pub error_wrap : Access → Option ℕ → Exec Store ℕ
unfolding is_other
error_wrap root none = fail HttpError.appservice_not_found
error_wrap (by_user _ _) none = fail HttpError.appservice_access_denied
error_wrap access (some az) = do
  denied ← gets (λ (s : Store). is_other access (read s.azs az).owner s)
  raise_if denied (http HttpError.appservice_access_denied)
  pure az

-- `_get_appservice` for each kind of path.
unfoldable pub get_by_id : Access → Option ℕ → Exec Store ℕ
unfolding error_wrap
get_by_id access none = fail HttpError.invalid_uuid
get_by_id access (some uuid) = do az ← Azs.get uuid; error_wrap access az

unfoldable pub get_by_name : Access → Str → Str → Exec Store ℕ
unfolding is_other error_wrap
get_by_name access owner prefix = do
  denied ← gets (is_other access owner)
  raise_if denied (http HttpError.appservice_access_denied)
  az ← Azs.find owner prefix
  error_wrap access az

unfoldable pub get_appservice : Env → Access → Target → Exec Store ℕ
unfolding get_by_id get_by_name
get_appservice env access (by_id id) = get_by_id access (env.parse_uuid id)
get_appservice env access (by_name owner prefix) = get_by_name access owner prefix

-- The id of the appservice is what is published for the other instances.
unfoldable pub delete_appservice : Env → Access → Target → Exec Store ℕ
unfolding get_appservice
delete_appservice env access target = do
  az ← get_appservice env access target
  Azs.delete az
  gets (λ (s : Store). (read s.azs az).id)

unfoldable pub mark_found : Option ℕ → Exec Store (Unit {0})
mark_found none = fail HttpError.room_not_found
mark_found (some room) = Rooms.mark_deleted room

unfoldable pub delete_room : Access → Str → Exec Store (Unit {0})
unfolding mark_found
delete_room root room_id = do room ← Rooms.get room_id; mark_found room
delete_room (by_user _ _) room_id = fail HttpError.room_delete_access_denied

-- `[a-z0-9=.-]`
unfoldable pub is_part_char : ℕ → Bool
is_part_char c =
    (leb b'a' c && leb c b'z')
    || ((leb b'0' c && leb c b'9') || (nat_beq c b'=' || (nat_beq c b'.' || nat_beq c b'-')))

unfoldable pub all_part_chars : Str → Bool
unfolding is_part_char
all_part_chars [] = true
all_part_chars (c ∷ s) = is_part_char c && all_part_chars s

-- `part_regex.fullmatch(s)`
unfoldable pub is_part : Str → Bool
unfolding all_part_chars
is_part s = all_part_chars s && (leb 1 (length s) && leb (length s) 32)

unfoldable pub found_user : Option ℕ → Exec Store ℕ
found_user none = fail HttpError.user_not_found
found_user (some user) = pure user

-- `_get_user`; the two tokens are those of a user that is created.
unfoldable pub get_user : Access → Bool → Str → Str → Str → Exec Store ℕ
unfolding is_part found_user is_other
get_user (by_user user direct) allow_create id api_token login_token = do
  denied ← gets (is_other (by_user user direct) id)
  raise_if denied (http HttpError.user_access_denied)
  pure user
get_user root true id api_token login_token = do
  raise_if (not (is_part id)) (http HttpError.invalid_owner)
  Users.get_or_create id api_token login_token
get_user root false id api_token login_token = do user ← Users.get id; found_user user

-- `req["user_direct_auth"]`, which only the callbacks write.
unfoldable pub direct_auth : Access → Result Bool
direct_auth root = err key_error
direct_auth (by_user _ direct) = ok direct

-- `del d[k]`
unfoldable pub without : Str → Fields → Fields
without k end = end
without k (field j v d) = let rest = without k d in if j == k then rest else field j v rest

unfoldable pub delete_key : Str → Fields → Result Fields
unfolding without
delete_key k d = if is_some (get k d) then ok (without k d) else err key_error

-- `{**config[key]}`
unfoldable pub copy_of : Str → Fields → Result Fields
copy_of k config = elim (get k config) [
  | none ↦ err key_error
  | some (obj d) ↦ ok d
  | some _ ↦ err type_error
]

-- `User.proxy_config_response`; `none` is `None`.
unfoldable pub ssh_response : Bool → Fields → Result Fields
unfolding delete_key
ssh_response true ssh = ok ssh
ssh_response false ssh = elim (delete_key (text "privateKey") ssh) [
  | err e ↦ err e
  | ok rest ↦ delete_key (text "passphrase") rest
]

unfoldable pub proxy_config_response : Bool → Option Fields → Result (Option Fields)
unfolding copy_of ssh_response
proxy_config_response private none = ok none
proxy_config_response private (some end) = ok none
proxy_config_response private (some config) = elim (copy_of (text "ssh") config) [
  | err e ↦ err e
  | ok ssh ↦ elim (copy_of (text "socks") config) [
    | err e ↦ err e
    | ok socks ↦ elim (ssh_response private ssh) [
      | err e ↦ err e
      | ok shown ↦ ok (some (field (text "ssh") (obj shown) (field (text "socks") (obj socks) end)))
    ]
  ]
]

-- `not user.proxy_config`
unfoldable pub is_unset : Option Fields → Bool
is_unset none = true
is_unset (some end) = true
is_unset (some (field _ _ _)) = false

unfoldable pub get_user_proxy : Access → Str → Str → Str → Exec Store (Option Fields)
unfolding get_user direct_auth proxy_config_response is_unset
get_user_proxy access id api_token login_token = do
  user ← get_user access false id api_token login_token
  config ← gets (λ (s : Store). (read s.users user).proxy_config)
  raise_if (is_unset config) (http HttpError.proxy_not_setup)
  private ← lift (direct_auth access)
  lift (proxy_config_response private config)
