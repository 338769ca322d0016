-- ===== src/Database/Users.antt =====
-- mautrix_asmux/database/table/user.py
use mautrix_asmux.Prelude.{
  ℕ, Bool, true, false, Option, none, some, [], ◌∷◌, ◌||◌, Str, str_eq, ◌==◌, is_some,
  if◌then◌else◌,
}
use mautrix_asmux.Dict
use mautrix_asmux.Dict.{Dict}
use mautrix_asmux.Json.{Fields}
use mautrix_asmux.Errors.{key_error, integrity_error}
use mautrix_asmux.Result.{ok}
use mautrix_asmux.Exec.{Exec, pure, gets, raise_if, modify, ◌>>=◌, ◌>>◌}
use mautrix_asmux.Store.{Store, User, AzRow, read, write, alloc}

unfoldable pub add_to_cache : ℕ → Store → Store
add_to_cache r s =
    let user = read s.users r in
    record s {
      user_by_id = Dict.set user.id r s.user_by_id;
      user_by_api_token = Dict.set user.api_token r s.user_by_api_token;
    }

unfoldable pub delete_from_cache : ℕ → Exec Store (Unit {0})
delete_from_cache r = do
  user ← gets (λ s. read s.users r)
  by_id ← gets (λ s. s.user_by_id)
  raise_if (if is_some (Dict.get user.id by_id) then false else true) key_error
  modify (λ s. record s { user_by_id = Dict.remove user.id s.user_by_id })
  by_token ← gets (λ s. s.user_by_api_token)
  raise_if (if is_some (Dict.get user.api_token by_token) then false else true) key_error
  modify (λ s. record s { user_by_api_token = Dict.remove user.api_token s.user_by_api_token })

-- `User(...)`
unfoldable pub new_user : User → Exec Store ℕ
new_user u s = (ok s.users.fresh, record s { users = alloc u s.users })

-- `User(**row)._add_to_cache() if row else None`
unfoldable pub load : Option User → Exec Store (Option ℕ)
unfolding new_user add_to_cache
load none = pure none
load (some u) = do r ← new_user u; modify (add_to_cache r); pure (some r)

unfoldable pub get : Str → Exec Store (Option ℕ)
unfolding load
get id s = elim (Dict.get id s.user_by_id) [
  | some r ↦ (ok (some r), s)
  | none ↦ load (Dict.get id s.user_table) s
]

-- `WHERE api_token=$1`: the column has no index of its own, the first row is taken.
unfoldable pub select_by_api_token : Str → Dict Str User → Option User
select_by_api_token t [] = none
select_by_api_token t ((_, u) ∷ rows) =
    if u.api_token == t then some u else select_by_api_token t rows

unfoldable pub find_by_api_token : Str → Exec Store (Option ℕ)
unfolding load
find_by_api_token t s = elim (Dict.get t s.user_by_api_token) [
  | some r ↦ (ok (some r), s)
  | none ↦ load (select_by_api_token t s.user_table) s
]

unfoldable pub insert : ℕ → Exec Store (Unit {0})
unfolding add_to_cache
insert r = do
  user ← gets (λ s. read s.users r)
  table ← gets (λ s. s.user_table)
  raise_if (is_some (Dict.get user.id table)) integrity_error
  modify (λ s. record s { user_table = Dict.set user.id user s.user_table })
  modify (add_to_cache r)

-- The two calls of `secrets.token_urlsafe` are the arguments `api_token` and `login_token`.
unfoldable pub create : Str → Str → Str → Option ℕ → Exec Store ℕ
unfolding new_user insert
create id api_token login_token (some r) = pure r
create id api_token login_token none = do
  r ←
      new_user
        (record { id = id; api_token = api_token; login_token = login_token; proxy_config = none })
  insert r
  pure r

unfoldable pub get_or_create : Str → Str → Str → Exec Store ℕ
unfolding get create
get_or_create id api_token login_token s = elim (Dict.get id s.user_by_id) [
  | some r ↦ (ok r, s)
  | none ↦ (do found ← get id; create id api_token login_token found) s
]

-- `none` is `unset`; the object is changed after the row.
unfoldable pub edit : ℕ → Option (Option Fields) → Exec Store (Unit {0})
edit r config s =
    let user = read s.users r in
    let value : Option Fields = elim config [ none ↦ user.proxy_config | some c ↦ c ] in
    (
      ok tt,
      record s {
        user_table = Dict.update user.id (λ u. record u { proxy_config = value }) s.user_table;
        users = write r (record user { proxy_config = value }) s.users;
      },
    )

-- The foreign key of `appservice.owner` has no `ON DELETE`.
unfoldable pub owns_any : Str → Dict ℕ AzRow → Bool
owns_any id [] = false
owns_any id ((_, row) ∷ rows) = (row.owner == id) || owns_any id rows

unfoldable pub delete : ℕ → Exec Store (Unit {0})
unfolding delete_from_cache owns_any
delete r = do
  delete_from_cache r
  user ← gets (λ s. read s.users r)
  referenced ← gets (λ s. owns_any user.id s.az_table)
  raise_if referenced integrity_error
  modify (λ s. record s { user_table = Dict.remove user.id s.user_table })
