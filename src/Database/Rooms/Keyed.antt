-- ===== src/Database/Rooms/Keyed.antt =====
-- The cache of `Room` (mautrix_asmux/database/table/room.py) and its keys.
use mautrix_asmux.Prelude.{
  ℕ, ◌<◌, ◌≡◌, ◌⊎◌, refl, beq_refl, true, Option, none, some, Str, str_eq, nat_eq, arith,
  str_beq_iff, Option-cases, inl, inr, ◌≢◌,
}
use mautrix_asmux.Dict
use mautrix_asmux.Dict.{Dict, get-set, get-set_self, get-remove, get-update}
use mautrix_asmux.Store.{Store, Room, read}
use mautrix_asmux.Result.{ok}
use mautrix_asmux.Exec.{continue-keeps}
use mautrix_asmux.Database.Rooms.{
  add_to_cache, delete_from_cache, new_room, load, get, insert_row, insert, mark_deleted,
}

-- What the cache holds under an id is an allocated room with that id, and so with the table's rows.
pub record IsKeyed (s : Store) : Type 0 where
  pub rows : (id : Str) (row : Room) → Dict.get id s.room_table ≡ some row → row.id ≡ id
  pub cached :
      (id : Str) (r : ℕ)
      → Dict.get id s.room_by_id ≡ some r
      → ((read s.rooms r).id ≡ id) × (r < s.rooms.fresh)

pub add_to_cache-IsKeyed :
    (r : ℕ) {s : Store} → IsKeyed s → r < s.rooms.fresh → IsKeyed (add_to_cache r s)
unfolding add_to_cache
add_to_cache-IsKeyed r {s} h lt = record {
  rows = h.rows;
  cached = λ id q e. ground (
    arith,
    h.cached id q,
    str_beq_iff (read s.rooms r).id id,
    get-set (read s.rooms r).id id r s.room_by_id,
  );
}

pub new_room-IsKeyed : (a : Room) {s : Store} → IsKeyed s → IsKeyed (new_room a s).1
unfolding new_room
new_room-IsKeyed a {s} h = record {
  rows = h.rows;
  cached = λ id q e. ground (arith, h.cached id q);
}

pub load-IsKeyed : (a : Option Room) {s : Store} → IsKeyed s → IsKeyed (load a s).1
unfolding load
load-IsKeyed none h = h
load-IsKeyed (some a) {s} h =
    add_to_cache-IsKeyed s.rooms.fresh (new_room-IsKeyed a h) (unfold new_room in omega arith)

pub get-IsKeyed : (id : Str) {s : Store} → IsKeyed s → IsKeyed (get id s).1
unfolding get
get-IsKeyed id {s} h = elim (Option-cases (Dict.get id s.room_by_id)) [
  | inl miss ↦ rw (miss, get) (load-IsKeyed _ h)
  | inr (r, hit) ↦ rw (hit, get) h
]

id-load :
    (id : Str) (a : Option Room) (r : ℕ) (s : Store)
    → ((b : Room) → a ≡ some b → b.id ≡ id)
    → (load a s).0 ≡ ok (some r)
    → (read (load a s).1.rooms r).id ≡ id
unfolding load
id-load id none r s h e = cc
id-load id (some b) r s h e = ground (arith, h b refl)

-- What `get` returns has the id that was asked for.
pub id-get :
    (id : Str) (r : ℕ) {s : Store}
    → IsKeyed s
    → (get id s).0 ≡ ok (some r)
    → (read (get id s).1.rooms r).id ≡ id
unfolding get
id-get id r {s} h e =
    ground (arith, h.cached id r, id-load id (Dict.get id s.room_table) r s (h.rows id))

pub insert_row-IsKeyed : (row : Room) {s : Store} → IsKeyed s → IsKeyed (insert_row row s).1
unfolding insert_row
insert_row-IsKeyed row {s} h = record {
  rows = λ id a e.
      ground (arith, h.rows id a, str_beq_iff row.id id, get-set row.id id row s.room_table);
  cached = λ id r e. ground (arith, h.cached id r);
}

pub insert-IsKeyed : (r : ℕ) {s : Store} → IsKeyed s → r < s.rooms.fresh → IsKeyed (insert r s).1
unfolding insert
insert-IsKeyed r {s} h lt =
    let row : Room = read s.rooms r in
    let (res, s') = insert_row row s in
    continue-keeps IsKeyed res s' _ (insert_row-IsKeyed row h)
      (λ _ _. add_to_cache-IsKeyed r (insert_row-IsKeyed row h) (unfold insert_row in ground arith))

pub delete_from_cache-IsKeyed : (r : ℕ) {s : Store} → IsKeyed s → IsKeyed (delete_from_cache r s).1
unfolding delete_from_cache
delete_from_cache-IsKeyed r {s} h = record {
  rows = λ id row e. ground (arith, h.rows id row);
  cached = λ id q e. ground (arith, h.cached id q, get-remove (read s.rooms r).id id s.room_by_id);
}

abbrev mark : Room → Room
mark row = record row { deleted = true }

pub mark_deleted-IsKeyed : (r : ℕ) {s : Store} → IsKeyed s → IsKeyed (mark_deleted r s).1
unfolding mark_deleted
mark_deleted-IsKeyed r {s} h = record {
  rows = λ id row e. grind (arith, h.rows, get-update (read s.rooms r).id id mark s.room_table);
  cached = λ id q e. ground (arith, h.cached id q);
}

-- After `mark_deleted` on a room that the cache holds, or whose id it does not hold at all, any room
-- that `get` returns for this id, from the cache or from the table, is marked as deleted.
pub get-mark_deleted :
    (r q : ℕ) (s : Store)
    → (Dict.get (read s.rooms r).id s.room_by_id ≡ none)
      ⊎ (Dict.get (read s.rooms r).id s.room_by_id ≡ some r)
    → (get (read s.rooms r).id (mark_deleted r s).1).0 ≡ ok (some q)
    → (read (get (read s.rooms r).id (mark_deleted r s).1).1.rooms q).deleted ≡ true
unfolding get mark_deleted load
get-mark_deleted r q s cached e = ground (
  arith,
  beq_refl (read s.rooms r).id,
  get-update (read s.rooms r).id (read s.rooms r).id mark s.room_table,
)

-- `insert` of a room whose id has a row already leaves the row as it is and caches the new object:
-- where the two owners differ, the process and the table disagree on the owner afterwards.
pub insert-conflict :
    (r : ℕ) (row : Room) (s : Store)
    → Dict.get (read s.rooms r).id s.room_table ≡ some row
    → row.owner ≢ (read s.rooms r).owner
    → let (res, s') = insert r s in
      (res ≡ ok tt)
      × (Dict.get (read s.rooms r).id s'.room_by_id ≡ some r)
      × (Dict.get (read s.rooms r).id s'.room_table ≡ some row)
      × ((read s'.rooms r).owner ≢ row.owner)
unfolding insert insert_row add_to_cache
insert-conflict r row s e ne = ground (arith, get-set_self (read s.rooms r).id r s.room_by_id)
