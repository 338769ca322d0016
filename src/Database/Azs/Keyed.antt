-- ===== src/Database/Azs/Keyed.antt =====
-- The two caches of `AppService` (mautrix_asmux/database/table/appservice.py) and their keys.
use mautrix_asmux.Prelude.{
  ℕ, ◌<◌, ◌≡◌, refl, Bool, Option, none, some, Str, str_eq, nat_eq, pair_eq, arith, ◌==◌,
  str_beq_iff, Option-cases, Bool-cases, inl, inr,
}
use mautrix_asmux.Dict
use mautrix_asmux.Dict.{Dict, get-set, get-remove, get-update}
use mautrix_asmux.Store.{Store, AzRow, AppService, User, read}
use mautrix_asmux.Exec.{continue-keeps}
use mautrix_asmux.Database.Azs
use mautrix_asmux.Database.Azs.{
  add_to_cache, delete_from_cache, new_az, load, join, get, find, select_by_owner, insert_row,
  insert, create, find_or_create, change, set_address, set_push, set_push_key, delete_row, delete,
  Fresh, made,
}

-- What a cache holds under a key is an allocated object with that key, and the rows of the table
-- stand under their primary keys.
pub record IsKeyed (s : Store) : Type 0 where
  pub rows : (id : ℕ) (row : AzRow) → Dict.get id s.az_table ≡ some row → row.id ≡ id
  pub by_id :
      (id r : ℕ) → Dict.get id s.az_by_id ≡ some r → ((read s.azs r).id ≡ id) × (r < s.azs.fresh)
  pub by_owner :
      (owner prefix : Str) (r : ℕ)
      → Dict.get (owner, prefix) s.az_by_owner ≡ some r
      → ((read s.azs r).owner ≡ owner) × ((read s.azs r).prefix ≡ prefix) × (r < s.azs.fresh)

pub add_to_cache-IsKeyed :
    (r : ℕ) {s : Store} → IsKeyed s → r < s.azs.fresh → IsKeyed (add_to_cache r s)
unfolding add_to_cache
add_to_cache-IsKeyed r {s} h lt = record {
  rows = h.rows;
  by_id = λ id q e. ground (arith, h.by_id id q, get-set (read s.azs r).id id r s.az_by_id);
  by_owner = λ o p q e. ground (
    arith,
    h.by_owner o p q,
    str_beq_iff (read s.azs r).owner o,
    str_beq_iff (read s.azs r).prefix p,
    get-set ((read s.azs r).owner, (read s.azs r).prefix) (o, p) r s.az_by_owner,
  );
}

pub new_az-IsKeyed : (a : AppService) {s : Store} → IsKeyed s → IsKeyed (new_az a s).1
unfolding new_az
new_az-IsKeyed a {s} h = record {
  rows = h.rows;
  by_id = λ id q e. ground (arith, h.by_id id q);
  by_owner = λ o p q e. ground (arith, h.by_owner o p q);
}

pub load-IsKeyed : (a : Option AppService) {s : Store} → IsKeyed s → IsKeyed (load a s).1
unfolding load
load-IsKeyed none h = h
load-IsKeyed (some a) {s} h =
    add_to_cache-IsKeyed s.azs.fresh (new_az-IsKeyed a h) (unfold new_az in omega arith)

pub get-IsKeyed : (id : ℕ) {s : Store} → IsKeyed s → IsKeyed (get id s).1
unfolding get
get-IsKeyed id {s} h = elim (Option-cases (Dict.get id s.az_by_id)) [
  | inl miss ↦ rw (miss, get) (load-IsKeyed _ h)
  | inr (r, hit) ↦ rw (hit, get) h
]

pub find-IsKeyed : (owner prefix : Str) {s : Store} → IsKeyed s → IsKeyed (find owner prefix s).1
unfolding find
find-IsKeyed owner prefix {s} h = elim (Option-cases (Dict.get (owner, prefix) s.az_by_owner)) [
  | inl miss ↦ rw (miss, find) (load-IsKeyed _ h)
  | inr (r, hit) ↦ rw (hit, find) h
]

-- The table has no part in it.
pub insert_row-IsKeyed : (row : AzRow) {s : Store} → IsKeyed s → IsKeyed (insert_row row s).1
unfolding insert_row
insert_row-IsKeyed row {s} h = record {
  rows = λ id r e. ground (arith, h.rows id r, get-set row.id id row s.az_table);
  by_id = λ id r e. ground (arith, h.by_id id r);
  by_owner = λ o p r e. ground (arith, h.by_owner o p r);
}

pub change-IsKeyed :
    (r : ℕ) (f : AzRow → AzRow)
    → ((row : AzRow) → (f row).id ≡ row.id)
    → ((row : AzRow) → (f row).owner ≡ row.owner)
    → ((row : AzRow) → (f row).prefix ≡ row.prefix)
    → {s : Store} → IsKeyed s
    → IsKeyed (change r f s)
unfolding change
change-IsKeyed r f same_id same_owner same_prefix {s} h = record {
  rows = λ id row e. grind (arith, h.rows, same_id, get-update (read s.azs r).id id f s.az_table);
  by_id = λ id q e. ground (arith, h.by_id id q, same_id (read s.azs r).row);
  by_owner = λ o p q e.
      ground
        (arith, h.by_owner o p q, same_owner (read s.azs r).row, same_prefix (read s.azs r).row);
}

pub set_address-IsKeyed :
    (r : ℕ) (address : Option Str) {s : Store} → IsKeyed s → IsKeyed (set_address r address s).1
unfolding set_address
set_address-IsKeyed r none h = h
set_address-IsKeyed r (some address) {s} h = elim (Bool-cases ((read s.azs r).address == address)) [
  | inl same ↦ rw (same, set_address) h
  | inr new ↦ rw (new, set_address) (change-IsKeyed r _ (λ _. refl) (λ _. refl) (λ _. refl) h)
]

pub set_push-IsKeyed :
    (r : ℕ) (push : Option Bool) {s : Store} → IsKeyed s → IsKeyed (set_push r push s).1
unfolding set_push
set_push-IsKeyed r none h = h
set_push-IsKeyed r (some push) {s} h = elim (Bool-cases (Azs.bool_beq push (read s.azs r).push)) [
  | inl same ↦ rw (same, set_push) h
  | inr new ↦ rw (new, set_push) (change-IsKeyed r _ (λ _. refl) (λ _. refl) (λ _. refl) h)
]

pub delete_from_cache-IsKeyed : (r : ℕ) {s : Store} → IsKeyed s → IsKeyed (delete_from_cache r s).1
unfolding delete_from_cache
delete_from_cache-IsKeyed r {s} h = record {
  rows = λ id row e. ground (arith, h.rows id row);
  by_id = λ id q e. ground (arith, h.by_id id q, get-remove (read s.azs r).id id s.az_by_id);
  by_owner = λ o p q e. ground (
    arith,
    h.by_owner o p q,
    get-remove ((read s.azs r).owner, (read s.azs r).prefix) (o, p) s.az_by_owner,
  );
}

pub delete_row-IsKeyed : (id : ℕ) {s : Store} → IsKeyed s → IsKeyed (delete_row id s)
unfolding delete_row
delete_row-IsKeyed id {s} h = record {
  rows = λ j row e. ground (arith, h.rows j row, get-remove id j s.az_table);
  by_id = h.by_id;
  by_owner = h.by_owner;
}

pub delete-IsKeyed : (r : ℕ) {s : Store} → IsKeyed s → IsKeyed (delete r s).1
unfolding delete
delete-IsKeyed r {s} h =
    let (res, s') = delete_from_cache r s in
    continue-keeps IsKeyed res s' _ (delete_from_cache-IsKeyed r h)
      (λ _ _. delete_row-IsKeyed _ (delete_from_cache-IsKeyed r h))

pub insert-IsKeyed : (r : ℕ) {s : Store} → IsKeyed s → r < s.azs.fresh → IsKeyed (insert r s).1
unfolding insert
insert-IsKeyed r {s} h lt =
    let (res, s') = insert_row _ s in
    continue-keeps IsKeyed res s' _ (insert_row-IsKeyed _ h)
      (λ _ _. add_to_cache-IsKeyed r (insert_row-IsKeyed _ h) (unfold insert_row in ground arith))

pub create-IsKeyed :
    (user : User) (prefix bot address : Str) (push : Bool) (fresh : Fresh) (found : Option ℕ)
    {s : Store}
    → IsKeyed s
    → IsKeyed (create user prefix bot address push fresh found s).1
unfolding create
create-IsKeyed user prefix bot address push fresh (some r) h = h
create-IsKeyed user prefix bot address push fresh none {s} h =
    let az : AppService = made user prefix bot address push fresh in
    let keyed = new_az-IsKeyed az h in
    let (res, s') = insert s.azs.fresh (new_az az s).1 in
    continue-keeps IsKeyed res s' _
      (insert-IsKeyed s.azs.fresh keyed (unfold new_az in omega arith))
      (λ _ _. insert-IsKeyed s.azs.fresh keyed (unfold new_az in omega arith))

pub find_or_create-IsKeyed :
    (user : User) (prefix bot address : Str) (push : Bool) (fresh : Fresh) {s : Store}
    → IsKeyed s
    → IsKeyed (find_or_create user prefix bot address push fresh s).1
unfolding find_or_create
find_or_create-IsKeyed user prefix bot address push fresh {s} h =
    elim (Option-cases (Dict.get (user.id, prefix) s.az_by_owner)) [
      | inr (r, hit) ↦ rw (hit, find_or_create) h
      | inl miss ↦
          rw (miss, find_or_create)
            (let (res, s') = find user.id prefix s in
              continue-keeps IsKeyed res s' _ (find-IsKeyed user.id prefix h) (λ found _.
                create-IsKeyed user prefix bot address push fresh found
                  (find-IsKeyed user.id prefix h)))
    ]
