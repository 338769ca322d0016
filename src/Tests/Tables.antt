-- ===== src/Tests/Tables.antt =====
-- The tables and their caches.
use mautrix_asmux.Prelude.{◌≡◌, refl, true, some, List, [], ◌∷◌, text, str_eq, nat_eq, arith}
use mautrix_asmux.Dict
use mautrix_asmux.Result.{ok}
use mautrix_asmux.Store.{Store}
use mautrix_asmux.Database.Azs
use mautrix_asmux.Database.Azs.Keyed.{IsKeyed}
use mautrix_asmux.Database.Azs.Calls.{
  Call, after, after_all, HasOwner, id-get-after_all, owner-find-after_all,
}
use mautrix_asmux.Database.Rooms
use mautrix_asmux.Tests.Samples.{store, room, running}

store-IsKeyed : IsKeyed store
unfolding Dict.get
store-IsKeyed = record {
  rows = λ id row e. ground arith;
  by_id = λ id r e. cc;
  by_owner = λ o p r e. cc;
}

abbrev calls : List Call
calls =
    Call.get 7
    ∷ Call.set_push 0 (some true)
    ∷ Call.invalidated 7
    ∷ Call.find (text "ann") (text "tg")
    ∷ []

get-after_calls : (Azs.get 7 (after_all calls store)).0 ≡ ok (some 1)
unfolding running after_all Azs.Calls.handle_invalidate_az Azs.Calls.invalidate
get-after_calls = refl

-- The room of the table as object 0, not cached.
abbrev with_room : Store
with_room = record store { rooms = record { cells = λ _. room; fresh = 1 } }

get-marked : (Rooms.get (text "!r") (Rooms.mark_deleted 0 with_room).1).0 ≡ ok (some 1)
unfolding running
get-marked = refl

-- An object for the same room with another owner.
abbrev with_other : Store
with_other = record store { rooms = record { cells = λ _. record room { owner = 8 }; fresh = 1 } }

stored : Dict.get (text "!r") with_other.room_table ≡ some room
unfolding running
stored = refl
