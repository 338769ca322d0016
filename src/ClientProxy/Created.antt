-- ===== src/ClientProxy/Created.antt =====
-- The rooms that the homeserver creates for an appservice: `_register_room_from_create`
-- (mautrix_asmux/api/cs_proxy.py).
use mautrix_asmux.Prelude.{
  ℕ, ◌≡◌, true, false, ◌||◌, ◌&&◌, Option, none, some, Str, text, str_eq, leb, ltb, if◌then◌else◌,
  arith, nat_eq, is_some,
}
use mautrix_asmux.Errors.{value_error}
use mautrix_asmux.Result.{Result, ok}
use mautrix_asmux.Exec.{Exec, pure, raise, lift, ◌>>=◌}
use mautrix_asmux.Json.{Json, str, obj, Fields, get}
use mautrix_asmux.Json.Holding.{holds, item, held_item}
use mautrix_asmux.Dict
use mautrix_asmux.Dict.{Dict, get-set_self, get-set}
use mautrix_asmux.Store.{Store, Room, read}
use mautrix_asmux.Database.Rooms

-- The insertion of a room whose id is no text fails in the database's driver, with a `ValueError`.
unfoldable pub insert_room : ℕ → Option Json → Exec Store (Unit {0})
insert_room owner none = pure tt
insert_room owner (some (str id)) = do
  r ← Rooms.new_room (record { id = id; owner = owner; deleted = false })
  Rooms.insert r
insert_room owner (some _) = raise value_error

-- `_register_room_from_create`
unfoldable pub register_from_create : ℕ → ℕ → Result Json → Exec Store (Unit {0})
unfolding held_item insert_room
register_from_create owner status body =
    if leb 200 status && ltb status 300
    then (do data_ ← lift body; id ← lift (held_item (text "room_id") data_); insert_room owner id)
    else pure tt

-- The row of a room behind its insertion: one that is there stays.
unfoldable pub row_behind : Room → Option Room → Room
row_behind new none = new
row_behind new (some row) = row

-- For a response that tells of a room, `_register_room_from_create` returns only if the room has a row
-- already or the appservice has one, and then the next `Room.get` returns the room as that of the
-- appservice, and so does its row, if it had none.
pub get-register_from_create :
    (owner status : ℕ) (d : Fields) (id : Str) (s : Store)
    → (leb 200 status && ltb status 300) ≡ true
    → get (text "room_id") d ≡ some (str id)
    → (register_from_create owner status (ok (obj d)) s).0 ≡ ok tt
    → let t = (register_from_create owner status (ok (obj d)) s).1 in
      ((is_some (Dict.get id s.room_table) || is_some (Dict.get owner s.az_table)) ≡ true)
      × ((Rooms.get id t).0 ≡ ok (some s.rooms.fresh))
      × (read (Rooms.get id t).1.rooms s.rooms.fresh
          ≡ record { id = id; owner = owner; deleted = false })
      × (Dict.get id t.room_table
          ≡ some (
              row_behind
                (record { id = id; owner = owner; deleted = false })
                (Dict.get id s.room_table)))
unfolding row_behind register_from_create held_item holds item insert_room Rooms.new_room
    Rooms.insert Rooms.insert_row Rooms.add_to_cache Rooms.get Rooms.load
get-register_from_create owner status d id s h there e = ground (
  arith,
  h,
  there,
  get-set_self id s.rooms.fresh s.room_by_id,
  get-set_self id (record { id = id; owner = owner; deleted = false }) s.room_table,
)
