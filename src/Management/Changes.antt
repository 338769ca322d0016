-- ===== src/Management/Changes.antt =====
-- What the requests on appservices and users change and show
-- (mautrix_asmux/api/management_api.py).
use mautrix_asmux.Prelude.{
  ℕ, ◌≡◌, ◌⊎◌, inl, inr, refl, ap, ◌∙◌, Option, none, some, Str, str_eq, nat_eq, nat_beq_iff, arith,
  Bool-cases, nat_beq,
}
use mautrix_asmux.Errors.{http, HttpError}
use mautrix_asmux.Exec.{continue-keeps, raise_if}
use mautrix_asmux.Env.{Env}
use mautrix_asmux.Store.{Store, AppService, read}
use mautrix_asmux.Dict
use mautrix_asmux.Dict.{Dict, get-remove}
use mautrix_asmux.Database.Azs
use mautrix_asmux.Management.{
  Access, root, by_user, Target, by_id, by_name, is_other, error_wrap, get_by_id, get_by_name,
  get_appservice, delete_appservice,
}
use mautrix_asmux.Management.Owners.{Owns, get_appservice-Owns}

load_rows : (a : Option AppService) (s : Store) → (Azs.load a s).1.az_table ≡ s.az_table
unfolding Azs.load Azs.new_az Azs.add_to_cache
load_rows none s = refl
load_rows (some a) s = refl

get_rows : (id : ℕ) (s : Store) → (Azs.get id s).1.az_table ≡ s.az_table
unfolding Azs.get
get_rows id s = ground (arith, load_rows (Azs.join s.user_table (Dict.get id s.az_table)) s)

find_rows : (owner prefix : Str) (s : Store) → (Azs.find owner prefix s).1.az_table ≡ s.az_table
unfolding Azs.find
find_rows owner prefix s =
    ground
      (arith, load_rows (Azs.join s.user_table (Azs.select_by_owner owner prefix s.az_table)) s)

pub error_wrap_rows : (access : Access) (az : Option ℕ) (s : Store) → (error_wrap access az s).1 ≡ s
unfolding error_wrap
error_wrap_rows root none s = refl
error_wrap_rows (by_user _ _) none s = refl
error_wrap_rows root (some az) s = ground arith
error_wrap_rows (by_user _ _) (some az) s = ground arith

-- The table is that of `s`.
IsSameTable : Store → Store → Type 0
IsSameTable s s' = s'.az_table ≡ s.az_table

get_by_id_rows :
    (access : Access) (id : Option ℕ) (s : Store) → IsSameTable s (get_by_id access id s).1
unfolding get_by_id IsSameTable
get_by_id_rows access none s = refl
get_by_id_rows access (some uuid) s =
    let (found, s') = Azs.get uuid s in
    continue-keeps (IsSameTable s) found s' _ (get_rows uuid s)
      (λ az _. ap (λ (t : Store). t.az_table) (error_wrap_rows access az s') ∙ get_rows uuid s)

get_by_name_rows :
    (access : Access) (owner prefix : Str) (s : Store)
    → IsSameTable s (get_by_name access owner prefix s).1
unfolding get_by_name IsSameTable
get_by_name_rows access owner prefix s =
    continue-keeps (IsSameTable s)
      (raise_if (is_other access owner s) (http HttpError.appservice_access_denied) s).0 s _ refl
      (λ _ _.
        let (found, s') = Azs.find owner prefix s in
        continue-keeps (IsSameTable s) found s' _ (find_rows owner prefix s) (λ az _.
          ap (λ (t : Store). t.az_table) (error_wrap_rows access az s') ∙ find_rows owner prefix s))

get_appservice_rows :
    (env : Env) (access : Access) (target : Target) (s : Store)
    → IsSameTable s (get_appservice env access target s).1
unfolding get_appservice
get_appservice_rows env access (by_id id) s = get_by_id_rows access (env.parse_uuid id) s
get_appservice_rows env access (by_name owner prefix) s = get_by_name_rows access owner prefix s

-- The row with the id `j` is as it was, or it was that of an appservice which the request may touch.
IsMine : Access → ℕ → Store → Store → Type 0
IsMine access j s s' =
    (Dict.get j s'.az_table ≡ Dict.get j s.az_table)
    ⊎ ((r : ℕ) × Owns access r s' × ((read s'.azs r).id ≡ j))

-- What dropping an object from the caches leaves as it is.
record IsSameData (s s' : Store) : Type 0 where
  rows : s'.az_table ≡ s.az_table
  objects : s'.azs ≡ s.azs
  people : s'.users ≡ s.users

delete_from_cache-IsSameData : (r : ℕ) (s : Store) → IsSameData s (Azs.delete_from_cache r s).1
unfolding Azs.delete_from_cache
delete_from_cache-IsSameData r s = record {
  rows = ground arith;
  objects = ground arith;
  people = ground arith;
}

Owns-same :
    (access : Access) (r : ℕ) (s s' : Store)
    → s'.azs ≡ s.azs
    → s'.users ≡ s.users
    → Owns access r s
    → Owns access r s'
unfolding Owns
Owns-same root r s s' objects people h = tt
Owns-same (by_user user direct) r s s' objects people h = rw (objects, people) h

delete_row-IsMine :
    (access : Access) (r j : ℕ) (s s' : Store)
    → IsSameData s s'
    → Owns access r s
    → IsMine access j s (Azs.delete_row (read s'.azs r).id s')
unfolding Azs.delete_row IsMine
delete_row-IsMine access r j s s' same h = elim (Bool-cases (nat_beq (read s'.azs r).id j)) [
  | inl it ↦ inr (
    r,
    Owns-same access r s (Azs.delete_row (read s'.azs r).id s') same.objects same.people h,
    (nat_beq_iff (read s'.azs r).id j).0 it,
  )
  | inr other ↦ inl (get-remove (read s'.azs r).id j s'.az_table ∙ (rw (other, same.rows) refl))
]

delete-IsMine :
    (access : Access) (r j : ℕ) (s : Store) → Owns access r s → IsMine access j s (Azs.delete r s).1
unfolding Azs.delete IsMine
delete-IsMine access r j s h =
    let (res, s') = Azs.delete_from_cache r s in
    let same = delete_from_cache-IsSameData r s in
    continue-keeps (IsMine access j s) res s' _ (inl (ap (Dict.get j) same.rows))
      (λ _ _. delete_row-IsMine access r j s s' same h)

IsMine-from :
    (access : Access) (j : ℕ) (s s' t : Store)
    → Dict.get j s'.az_table ≡ Dict.get j s.az_table
    → IsMine access j s' t
    → IsMine access j s t
unfolding IsMine
IsMine-from access j s s' t same (inl kept) = inl (kept ∙ same)
IsMine-from access j s s' t same (inr mine) = inr mine

-- `DELETE` of an appservice, whether it returns or raises, leaves each row of the table as it was,
-- but for the one of an appservice that belongs to the user who sent the request.
pub delete_appservice-rows :
    (env : Env) (access : Access) (target : Target) (s : Store) (j : ℕ)
    → (Dict.get j (delete_appservice env access target s).1.az_table ≡ Dict.get j s.az_table)
      ⊎ ((r : ℕ) × Owns access r (delete_appservice env access target s).1
          × ((read (delete_appservice env access target s).1.azs r).id ≡ j))
unfolding delete_appservice IsSameTable IsMine
delete_appservice-rows env access target s j =
    let (found, s') = get_appservice env access target s in
    let same = ap (Dict.get j) (get_appservice_rows env access target s) in
    continue-keeps (IsMine access j s) found s' _ (inl same) (λ r q.
      let (res, t) = Azs.delete r s' in
      let mine =
        IsMine-from access j s s' t same
          (delete-IsMine access r j s' (get_appservice-Owns env access target s r q)) in
      continue-keeps (IsMine access j s) res t _ mine (λ _ _. mine))
