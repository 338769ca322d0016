-- ===== src/Database/Rooms.antt =====
-- mautrix_asmux/database/table/room.py
pub mod Keyed
pub mod Invalidated
use mautrix_asmux.Prelude.{
  ℕ, Bool, true, false, ◌&&◌, not, Option, none, some, Str, str_eq, nat_eq, ◌==◌, is_some,
  if◌then◌else◌,
}
use mautrix_asmux.Dict
use mautrix_asmux.Errors.{Exn, key_error, integrity_error}
use mautrix_asmux.Result.{Result, ok, err}
use mautrix_asmux.Exec.{Exec, pure, raise, gets, raise_if, modify, ◌>>=◌, ◌>>◌}
use mautrix_asmux.Store.{Store, Room, read, write, alloc}

unfoldable pub add_to_cache : ℕ → Store → Store
add_to_cache r s = record s { room_by_id = Dict.set (read s.rooms r).id r s.room_by_id }

unfoldable pub delete_from_cache : ℕ → Exec Store (Unit {0})
delete_from_cache r = do
  room ← gets (λ s. read s.rooms r)
  by_id ← gets (λ s. s.room_by_id)
  raise_if (not (is_some (Dict.get room.id by_id))) key_error
  modify (λ s. record s { room_by_id = Dict.remove room.id s.room_by_id })

-- `Room(...)`
unfoldable pub new_room : Room → Exec Store ℕ
new_room a s = (ok s.rooms.fresh, record s { rooms = alloc a s.rooms })

-- `Room(**row)._add_to_cache() if row else None`
unfoldable pub load : Option Room → Exec Store (Option ℕ)
unfolding new_room add_to_cache
load none = pure none
load (some a) = do r ← new_room a; modify (add_to_cache r); pure (some r)

unfoldable pub get : Str → Exec Store (Option ℕ)
unfolding load
get id s = elim (Dict.get id s.room_by_id) [
  | some r ↦ (ok (some r), s)
  | none ↦ load (Dict.get id s.room_table) s
]

-- `INSERT ... ON CONFLICT (id) DO NOTHING`; `room.owner` is a foreign key.
unfoldable pub insert_row : Room → Exec Store (Unit {0})
insert_row room s =
    if is_some (Dict.get room.id s.room_table)
    then (ok tt, s)
    else if is_some (Dict.get room.owner s.az_table)
    then (ok tt, record s { room_table = Dict.set room.id room s.room_table })
    else (err integrity_error, s)

unfoldable pub insert : ℕ → Exec Store (Unit {0})
unfolding insert_row add_to_cache
insert r = do room ← gets (λ s. read s.rooms r); insert_row room; modify (add_to_cache r)

-- `DELETE FROM room WHERE id=$1 AND owner=$2`
unfoldable pub delete_row : Room → Store → Store
delete_row room s = elim (Dict.get room.id s.room_table) [
  | none ↦ s
  | some row ↦
      if row.owner == room.owner
      then record s { room_table = Dict.remove room.id s.room_table }
      else s
]

unfoldable pub delete : ℕ → Exec Store (Unit {0})
unfolding delete_row delete_from_cache
delete r = do room ← gets (λ s. read s.rooms r); modify (delete_row room); delete_from_cache r

unfoldable pub mark_deleted : ℕ → Exec Store (Unit {0})
mark_deleted r s =
    let room = record (read s.rooms r) { deleted = true } in
    (
      ok tt,
      record s {
        rooms = write r room s.rooms;
        room_table = Dict.update room.id (λ row. record row { deleted = true }) s.room_table;
      },
    )
