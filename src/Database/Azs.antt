-- ===== src/Database/Azs.antt =====
-- mautrix_asmux/database/table/appservice.py
pub mod Keyed
pub mod Calls
pub mod Passwords
use mautrix_asmux.Prelude.{
  ℕ, ◌+◌, Bool, true, false, ◌&&◌, not, Option, none, some, List, [], ◌∷◌, ◌++◌, Str, text, str_eq,
  nat_eq, pair_eq, ◌==◌, nat_beq, ltb, is_some, is_empty, keep, if◌then◌else◌,
}
use mathlib.Core.Option
use mautrix_asmux.Dict
use mautrix_asmux.Dict.{Dict}
use mautrix_asmux.Errors.{Exn, key_error, integrity_error, assertion_error}
use mautrix_asmux.Result.{Result, ok, err}
use mautrix_asmux.Exec.{Exec, pure, raise, gets, raise_if, modify, ◌>>=◌, ◌>>◌}
use mautrix_asmux.Store.{Store, AzRow, AppService, User, PushKey, Room, read, write, alloc}

-- `f"{self.owner}/{self.prefix}"`
unfoldable pub name : AppService → Str
name az = az.owner ++ (text "/" ++ az.prefix)

unfoldable pub add_to_cache : ℕ → Store → Store
add_to_cache r s =
    let az = read s.azs r in
    record s {
      az_by_id = Dict.set az.id r s.az_by_id;
      az_by_owner = Dict.set (az.owner, az.prefix) r s.az_by_owner;
    }

unfoldable pub delete_from_cache : ℕ → Exec Store (Unit {0})
delete_from_cache r = do
  az ← gets (λ s. read s.azs r)
  by_id ← gets (λ s. s.az_by_id)
  raise_if (not (is_some (Dict.get az.id by_id))) key_error
  modify (λ s. record s { az_by_id = Dict.remove az.id s.az_by_id })
  by_owner ← gets (λ s. s.az_by_owner)
  raise_if (not (is_some (Dict.get (az.owner, az.prefix) by_owner))) key_error
  modify (λ s. record s { az_by_owner = Dict.remove (az.owner, az.prefix) s.az_by_owner })

-- `AppService(...)`
unfoldable pub new_az : AppService → Exec Store ℕ
new_az a s = (ok s.azs.fresh, record s { azs = alloc a s.azs })

-- `AppService(**row)._add_to_cache() if row else None`
unfoldable pub load : Option AppService → Exec Store (Option ℕ)
unfolding new_az add_to_cache
load none = pure none
load (some a) = do r ← new_az a; modify (add_to_cache r); pure (some r)

-- `appservice JOIN "user" ON "user".id=appservice.owner`, at one row
unfoldable pub join : Dict Str User → Option AzRow → Option AppService
join users none = none
join users (some row) = elim (Dict.get row.owner users) [
  | none ↦ none
  | some user ↦ some (record { row = row; login_token = some user.login_token; created_ = false })
]

unfoldable pub get : ℕ → Exec Store (Option ℕ)
unfolding load join
get id s = elim (Dict.get id s.az_by_id) [
  | some r ↦ (ok (some r), s)
  | none ↦ load (join s.user_table (Dict.get id s.az_table)) s
]

-- `WHERE owner=$1 AND prefix=$2`; the pair is unique in the table.
unfoldable pub select_by_owner : Str → Str → Dict ℕ AzRow → Option AzRow
select_by_owner owner prefix [] = none
select_by_owner owner prefix ((_, row) ∷ rows) =
    if (row.owner == owner) && (row.prefix == prefix)
    then some row
    else select_by_owner owner prefix rows

unfoldable pub find : Str → Str → Exec Store (Option ℕ)
unfolding load join select_by_owner
find owner prefix s = elim (Dict.get (owner, prefix) s.az_by_owner) [
  | some r ↦ (ok (some r), s)
  | none ↦ load (join s.user_table (select_by_owner owner prefix s.az_table)) s
]

-- The primary key, the unique pair and the foreign key of the table are checked.
unfoldable pub insert_row : AzRow → Exec Store (Unit {0})
unfolding select_by_owner
insert_row row = do
  table ← gets (λ s. s.az_table)
  raise_if (is_some (Dict.get row.id table)) integrity_error
  raise_if (is_some (select_by_owner row.owner row.prefix table)) integrity_error
  users ← gets (λ s. s.user_table)
  raise_if (not (is_some (Dict.get row.owner users))) integrity_error
  modify (λ s. record s { az_table = Dict.set row.id row s.az_table })

unfoldable pub insert : ℕ → Exec Store (Unit {0})
unfolding insert_row add_to_cache
insert r = do
  az ← gets (λ s. read s.azs r)
  insert_row (record az.row {
    config_password_hash = none;
    config_password_expiry = none;
    push_key = none;
  })
  modify (add_to_cache r)

-- What the process draws at random for a new appservice: `uuid4()` and two `token_urlsafe`.
pub record Fresh : Type 0 where
  pub uuid : ℕ
  pub hs_token : Str
  pub as_token : Str

-- The `AppService(...)` of `find_or_create`, with `created_` set.
abbrev pub made : User → Str → Str → Str → Bool → Fresh → AppService
made user prefix bot address push fresh = record {
  row = record {
    id = fresh.uuid;
    owner = user.id;
    prefix = prefix;
    bot = bot;
    address = address;
    hs_token = fresh.hs_token;
    as_token = fresh.as_token;
    push = push;
    config_password_hash = none;
    config_password_expiry = none;
    push_key = none;
  };
  login_token = some user.login_token;
  created_ = true;
}

unfoldable pub create : User → Str → Str → Str → Bool → Fresh → Option ℕ → Exec Store ℕ
unfolding new_az insert
create user prefix bot address push fresh (some r) = pure r
create user prefix bot address push fresh none = do
  r ← new_az (made user prefix bot address push fresh)
  insert r
  pure r

unfoldable pub find_or_create : User → Str → Str → Str → Bool → Fresh → Exec Store ℕ
unfolding find create
find_or_create user prefix bot address push fresh s =
    elim (Dict.get (user.id, prefix) s.az_by_owner) [
      | some r ↦ (ok r, s)
      | none ↦ (do found ← find user.id prefix; create user prefix bot address push fresh found) s
    ]

-- The object is changed, then the row: `self.x = v` and `UPDATE appservice SET x=$2 WHERE id=$1`.
unfoldable pub change : ℕ → (AzRow → AzRow) → Store → Store
change r f s =
    let az = read s.azs r in
    record s {
      azs = write r (record az { row = f az.row }) s.azs;
      az_table = Dict.update az.id f s.az_table;
    }

-- `None` leaves the address as it is. The result says whether it was changed.
unfoldable pub set_address : ℕ → Option Str → Exec Store Bool
unfolding change
set_address r none s = (ok false, s)
set_address r (some address) s =
    if (read s.azs r).address == address
    then (ok false, s)
    else (ok true, change r (λ row. record row { address = address }) s)

unfoldable pub bool_beq : Bool → Bool → Bool
bool_beq true b = b
bool_beq false b = not b

unfoldable pub set_push : ℕ → Option Bool → Exec Store (Unit {0})
unfolding change bool_beq
set_push r none s = (ok tt, s)
set_push r (some push) s =
    if bool_beq push (read s.azs r).push
    then (ok tt, s)
    else (ok tt, change r (λ row. record row { push = push }) s)

-- A key with an empty `pushkey` counts as none.
unfoldable pub usable : Option PushKey → Option PushKey
usable none = none
usable (some k) = if is_empty k.pushkey then none else some k

unfoldable pub set_push_key : ℕ → Option PushKey → Exec Store (Unit {0})
unfolding change usable
set_push_key r key s = (ok tt, change r (λ row. record row { push_key = usable key }) s)

-- `DELETE FROM appservice WHERE id=$1`; its rooms go with it (`ON DELETE CASCADE`).
unfoldable pub delete_row : ℕ → Store → Store
delete_row id s = record s {
  az_table = Dict.remove id s.az_table;
  room_table = keep (λ e. not (nat_beq e.1.owner id)) s.room_table;
}

unfoldable pub delete : ℕ → Exec Store (Unit {0})
unfolding delete_from_cache delete_row
delete r = do delete_from_cache r; az ← gets (λ s. read s.azs r); modify (delete_row az.id)
