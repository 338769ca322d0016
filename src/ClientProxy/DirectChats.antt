-- ===== src/ClientProxy/DirectChats.antt =====
-- The list of direct chats of a user: `_remove_current_dms` and `update_dms`
-- (mautrix_asmux/api/cs_proxy.py).
pub mod Kept
use mautrix_asmux.Prelude.{
  ℕ, Bool, true, false, not, ◌&&◌, Option, none, some, List, [], ◌∷◌, ◌++◌, Str, text, str_eq, ◌==◌,
  drop, nat_beq, if◌then◌else◌, starts_with, ends_with,
}
use mautrix_asmux.Errors.{
  Exn, http, custom, HttpError, assertion_error, attribute_error, type_error,
}
use mautrix_asmux.Result.{Result, ok, err, or_raise}
use mautrix_asmux.Exec.{Exec, pure, raise, lift, gets, modify, raise_if, ◌>>=◌, ◌>>◌}
use mautrix_asmux.Json.{set_field, Json, str, obj, Fields, end, field, is_text}
use mautrix_asmux.Dict.{Dict}
use mautrix_asmux.Env.{Env}
use mautrix_asmux.Store.{Store, AppService, read}
use mautrix_asmux.ClientProxy.{find_appservice, namespace_of}
use mautrix_asmux.ClientProxy.Session.{Reply, Body, read_json, checked, get_user_id}

-- `user_id.startswith(prefix) and user_id.endswith(suffix) and user_id != bot`
unfoldable pub is_current : Env → AppService → Str → Bool
unfolding namespace_of
is_current env az user_id =
    starts_with user_id (namespace_of env az)
    && (ends_with user_id env.mxid_suffix
        && not (user_id == (namespace_of env az ++ (text "bot" ++ env.mxid_suffix))))

unfoldable pub remove_current_dms : Env → AppService → Fields → Fields
unfolding is_current
remove_current_dms env az end = end
remove_current_dms env az (field user_id rooms dms) =
    let rest = remove_current_dms env az dms in
    if is_current env az user_id then rest else field user_id rooms rest

-- `dms.update(body)`
unfoldable pub update_with : Fields → Fields → Fields
unfolding set_field
update_with dms end = dms
update_with dms (field k v body) = update_with (set_field k v dms) body

-- `auth.startswith("Bearer ")`, and what is behind it
unfoldable pub bearer_token : Option Str → Result Str
bearer_token none = err (http HttpError.invalid_auth_header)
bearer_token (some auth) =
    if starts_with auth (text "Bearer ")
    then ok (drop 7 auth)
    else err (http HttpError.invalid_auth_header)

-- The account data that is there: none where the status is 404.
unfoldable pub current_dms : Result Body → Result Json
current_dms (ok body) = read_json body
current_dms (err (custom status)) = if nat_beq status 404 then ok (obj end) else err (custom status)
current_dms (err e) = err e

-- The list that is put; a value that is no object has neither `items` nor `update`.
unfoldable pub new_dms : Env → AppService → Bool → Fields → Json → Result Fields
unfolding remove_current_dms update_with
new_dms env az is_put body (obj dms) =
    ok (update_with (if is_put then remove_current_dms env az dms else dms) body)
new_dms env az is_put body _ = err attribute_error

-- The database and its caches, `user_ids`, and the account data that was put, with the user id.
pub record Session : Type 0 where
  pub store : Store
  pub user_ids : Dict Str Json
  pub puts : List (Str × Fields)

abbrev pub on_store : {A : Type 0} → Exec Store A → Exec Session A
on_store m s = let (r, store) = m s.store in (r, record s { store = store })

abbrev pub on_user_ids : {A : Type 0} → Exec (Dict Str Json) A → Exec Session A
on_user_ids m s = let (r, user_ids) = m s.user_ids in (r, record s { user_ids = user_ids })

-- `assert az is not None`
unfoldable pub asserted : Option ℕ → Exec Session ℕ
asserted none = raise assertion_error
asserted (some r) = pure r

-- The replies of the homeserver to the three requests.
pub record Replies : Type 0 where
  pub whoami : Reply
  pub current : Reply
  pub stored : Reply

-- `f"@{az.owner}{self.mxid_suffix}"`
unfoldable pub owner_of : Env → AppService → Str
owner_of env az = text "@" ++ (az.owner ++ env.mxid_suffix)

unfoldable pub done : Result Body → Result (Unit {0})
done (ok _) = ok tt
done (err e) = err e

-- The part under the lock.
unfoldable pub replace_dms : Env → AppService → Bool → Fields → Replies → Exec Session (Unit {0})
unfolding current_dms new_dms owner_of done
replace_dms env az is_put body replies = do
  dms ← lift (current_dms (checked replies.current))
  new ← lift (new_dms env az is_put body dms)
  modify (λ (s : Session). record s { puts = s.puts ++ (owner_of env az, new) ∷ [] })
  lift (done (checked replies.stored))

unfoldable pub update_for : Env → Bool → Fields → Replies → Json → ℕ → Exec Session (Unit {0})
unfolding replace_dms owner_of
update_for env is_put body replies user_id r = do
  az ← gets (λ (s : Session). read s.store.azs r)
  raise_if (not (is_text (owner_of env az) (some user_id))) (http HttpError.mismatching_user)
  replace_dms env az is_put body replies

-- `update_dms`; `is_put` says that the method is PUT and not PATCH. The body is an object, and `none`
-- where it is not JSON. The two headers are Authorization and X-Asmux-Auth.
unfoldable pub update_dms :
    Env
    → (Str → Str)
    → Bool
    → Option Str
    → Option Str
    → Option Fields
    → Replies
    → Exec Session (Unit {0})
unfolding bearer_token get_user_id asserted update_for
update_dms env hash is_put authorization asmux_auth body replies = do
  token ← lift (bearer_token authorization)
  entries ← lift (or_raise body (http HttpError.request_not_json))
  user_id ← on_user_ids (get_user_id hash replies.whoami token)
  found ← on_store (find_appservice env true true asmux_auth)
  r ← asserted found
  update_for env is_put entries replies user_id r
