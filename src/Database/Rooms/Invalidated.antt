-- ===== src/Database/Rooms/Invalidated.antt =====
-- The invalidation of rooms and users (mautrix_asmux/redis.py).
use mautrix_asmux.Prelude.{
  ℕ, ◌≡◌, ◌≢◌, ◌∙◌, ap, Option, none, some, Str, str_eq, nat_eq, arith, beq_refl, Option-cases, inl,
  inr,
}
use mautrix_asmux.Dict
use mautrix_asmux.Dict.{Dict, get-set_self, get-remove}
use mautrix_asmux.Store.{Store, Room, read}
use mautrix_asmux.Errors.{Exn}
use mautrix_asmux.Result.{Result, ok, err, Result-cases}
use mautrix_asmux.Exec.{Exec, pure, ◌>>=◌}
use mautrix_asmux.Database.Users
use mautrix_asmux.Database.Rooms
use mautrix_asmux.Database.Rooms.Keyed.{IsKeyed, id-get}

unfoldable pub drop_room : Option ℕ → Exec Store (Unit {0})
drop_room none = pure tt
drop_room (some r) = Rooms.delete_from_cache r

-- `RedisCacheHandler.handle_invalidate_room`
unfoldable pub handle_invalidate_room : Str → Exec Store (Unit {0})
unfolding drop_room
handle_invalidate_room id = do room ← Rooms.get id; drop_room room

unfoldable pub drop_user : Option ℕ → Exec Store (Unit {0})
drop_user none = pure tt
drop_user (some r) = Users.delete_from_cache r

-- `RedisCacheHandler.handle_invalidate_user`
unfoldable pub handle_invalidate_user : Str → Exec Store (Unit {0})
unfolding drop_user
handle_invalidate_user id = do user ← Users.get id; drop_user user

-- What `get` leaves of the tables, and whether the id is cached behind it.
cached-get :
    (id : Str) (s : Store)
    → IsKeyed s
    → ((Rooms.get id s).0 ≡ ok none → (Dict.get id s.room_by_id ≡ none) × ((Rooms.get id s).1 ≡ s))
      × ((r : ℕ)
          → (Rooms.get id s).0 ≡ ok (some r)
          → Dict.get id (Rooms.get id s).1.room_by_id ≡ some r)
      × ((Rooms.get id s).1.room_table ≡ s.room_table)
unfolding Rooms.get Rooms.load Rooms.new_room Rooms.add_to_cache
cached-get id s h = elim (Option-cases (Dict.get id s.room_by_id)) [
  | inr (q, hit) ↦
      (λ e. absurd (ground (arith, hit, e)), λ r e. ground (arith, hit, e), ground (arith, hit))
  | inl miss ↦ elim (Option-cases (Dict.get id s.room_table)) [
    | inl no_row ↦ (
      λ e. (miss, ground (arith, miss, no_row)),
      λ r e. ground (arith, miss, no_row, e),
      ground (arith, miss, no_row),
    )
    | inr (row, there) ↦ (
      λ e. absurd (ground (arith, miss, there, e)),
      λ r e.
          ground (
            arith,
            miss,
            there,
            e,
            h.rows id row there,
            get-set_self id s.rooms.fresh s.room_by_id,
          ),
      ground (arith, miss, there),
    )
  ]
]

get_never_raises : (id : Str) (s : Store) (x : Exn) → (Rooms.get id s).0 ≢ err x
unfolding Rooms.get Rooms.load
get_never_raises id s x raised = elim (Option-cases (Dict.get id s.room_by_id)) [
  | inr (q, hit) ↦ ground (arith, hit, raised)
  | inl miss ↦ elim (Option-cases (Dict.get id s.room_table)) [
    | inl no_row ↦ ground (arith, miss, no_row, raised)
    | inr (row, there) ↦ ground (arith, miss, there, raised)
  ]
]

-- The room that a call of `get` gives.
abbrev pub got : Result (Option ℕ) × Store → Option Room
got (ok (some r), s) = some (read s.rooms r)
got (ok none, s) = none
got (err e, s) = none

got-get :
    (id : Str) (s : Store)
    → Dict.get id s.room_by_id ≡ none
    → got (Rooms.get id s) ≡ Dict.get id s.room_table
unfolding Rooms.get Rooms.load Rooms.new_room Rooms.add_to_cache
got-get id s miss = elim (Option-cases (Dict.get id s.room_table)) [
  | inl no_row ↦ ground (arith, miss, no_row)
  | inr (row, there) ↦ ground (arith, miss, there)
]

drop-cached :
    (id : Str) (r : ℕ) (s : Store)
    → (read s.rooms r).id ≡ id
    → Dict.get id s.room_by_id ≡ some r
    → ((Rooms.delete_from_cache r s).0 ≡ ok tt)
      × (Dict.get id (Rooms.delete_from_cache r s).1.room_by_id ≡ none)
      × ((Rooms.delete_from_cache r s).1.room_table ≡ s.room_table)
unfolding Rooms.delete_from_cache
drop-cached id r s named cached = (
  ground (arith, named, cached),
  ground (arith, named, cached, get-remove id id s.room_by_id, beq_refl id),
  ground (arith, named, cached),
)

-- Where the cache is keyed, the message that a room has changed is handled without an exception, and
-- the next `get` gives the row as it stands in the table, or nothing if there is none.
pub get-handle_invalidate_room :
    (id : Str) (s : Store)
    → IsKeyed s
    → let (result, t) = handle_invalidate_room id s in
      (result ≡ ok tt) × (got (Rooms.get id t) ≡ Dict.get id s.room_table)
unfolding handle_invalidate_room drop_room
get-handle_invalidate_room id s h =
    let (nothing, something, table) = cached-get id s h in
    let (result, t) = handle_invalidate_room id s in
    elim (Result-cases (Rooms.get id s).0) [
      | inr (x, raised) ↦ absurd (get_never_raises id s x raised)
      | inl (none, absent) ↦
          let (miss, unchanged) = nothing absent in
          let same : t ≡ s = ground (arith, absent, unchanged) in
          (ground (arith, absent), ap (λ u. got (Rooms.get id u)) same ∙ got-get id s miss)
      | inl (some r, there) ↦
          let u = (Rooms.get id s).1 in
          let (done, gone, kept) = drop-cached id r u (id-get id r h there) (something r there) in
          let same : t ≡ (Rooms.delete_from_cache r u).1 = ground (arith, there) in
          (
            ground (arith, there, done),
            ap (λ v. got (Rooms.get id v)) same
                ∙ (got-get id (Rooms.delete_from_cache r u).1 gone
                    ∙ ap (Dict.get id) (kept ∙ table)),
          )
    ]
