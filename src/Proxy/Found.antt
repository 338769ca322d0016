-- ===== src/Proxy/Found.antt =====
-- The room and the appservice that are found for an event: `register_room` and `find_target` of
-- Proxy.antt (mautrix_asmux/api/as_proxy.py).
use mautrix_asmux.Prelude.{
  ℕ, ◌≡◌, refl, Bool, true, false, Option, none, some, [], Str, text, nat_eq, str_eq, pair_eq,
  if◌then◌else◌, arith,
}
use mautrix_asmux.Errors.{key_error}
use mautrix_asmux.Result.{Result, ok, or_raise}
use mautrix_asmux.Exec.{◌>>=◌, Returns, Returns-continue, pure}
use mautrix_asmux.Json.{Json, Fields, str, get, as_str}
use mautrix_asmux.Env.{Env}
use mautrix_asmux.Store.{Store, Room, read}
use mautrix_asmux.Database.Azs
use mautrix_asmux.Database.Azs.Keyed
use mautrix_asmux.Database.Azs.Calls
use mautrix_asmux.Database.Rooms
use mautrix_asmux.UserIds.{get_az_from_user_id}
use mautrix_asmux.Proxy.{is_member_of_bridge, as_key, register_for, register_room, find_target}

-- The appservice that was found for the owner `k` of a room has this id; where none was found, `get`
-- finds none.
pub record IsOwner (k : ℕ) (az : Option ℕ) (s : Store) : Type 0 where
  pub found : (a : ℕ) → az ≡ some a → (read s.azs a).id ≡ k
  pub nobody : az ≡ none → (Azs.get k s).0 ≡ ok none

-- A room that was found for an event has the id that the event names, and the appservice is its owner.
abbrev pub IsRoomOf : Fields → Option ℕ × Option ℕ → Store → Type 0
IsRoomOf event target s =
    (r : ℕ)
    → target.0 ≡ some r
    → (get (text "room_id") event ≡ some (str (read s.rooms r).id))
      × IsOwner (read s.rooms r).owner target.1 s

get-none : (id : ℕ) (s : Store) → (Azs.get id s).0 ≡ ok none → (Azs.get id s).1 ≡ s
unfolding Azs.get Azs.load
get-none id s h = ground (arith, h)

get-IsOwner :
    (id : ℕ) (s : Store) (az : Option ℕ)
    → Keyed.IsKeyed s
    → (Azs.get id s).0 ≡ ok az
    → IsOwner id az (Azs.get id s).1
get-IsOwner id s az keyed e = record {
  found = λ a is. Calls.id-get id a keyed (ground (arith, e, is));
  nobody = λ is.
      let missed : (Azs.get id s).0 ≡ ok none = ground (arith, e, is) in
      rw (get-none id s missed) missed;
}

-- `Room.get` leaves the appservices as they are.
pub room_get-IsKeyed : (id : Str) {s : Store} → Keyed.IsKeyed s → Keyed.IsKeyed (Rooms.get id s).1
unfolding Rooms.get Rooms.load Rooms.new_room Rooms.add_to_cache
room_get-IsKeyed id {s} h = record {
  rows = λ i row e. ground (arith, h.rows i row);
  by_id = λ i r e. ground (arith, h.by_id i r);
  by_owner = λ o p r e. ground (arith, h.by_owner o p r);
}

pub as_key_lem : (v : Json) (id : Str) → as_key v ≡ ok id → v ≡ str id
unfolding as_key
as_key_lem v id h = ground arith

rooms-az-get : (id : ℕ) (s : Store) → (Azs.get id s).1.rooms ≡ s.rooms
unfolding Azs.get Azs.load
rooms-az-get id s = ground arith

register_for-IsRoomOf :
    (event : Fields) (az : Option ℕ) (s : Store)
    → Returns (IsRoomOf event) (register_for event az s)
unfolding register_for Rooms.new_room Rooms.insert
register_for-IsRoomOf event none s = record { at = λ t e r q. cc }
register_for-IsRoomOf event (some az) s =
    Returns-continue (or_raise (get (text "room_id") event) key_error) s _ λ id e.
      Returns-continue (as_key id) s _ λ room_id k.
        let new : Room = record { id = room_id; owner = (read s.azs az).id; deleted = false } in
        let s₁ : Store = (Rooms.new_room new s).1 in
        let (q, s₂) = Rooms.insert s.rooms.fresh s₁ in
        Returns-continue q s₂ (λ _. pure (some s.rooms.fresh, some az))
          λ _ _. record {
            at = λ t e₂ r e₃. (
              unfold Rooms.insert Rooms.insert_row Rooms.add_to_cache Rooms.new_room in
                  ground (arith, as_key_lem id room_id k),
              unfold Rooms.insert Rooms.insert_row Rooms.add_to_cache Rooms.new_room in
                  record { found = λ a is. ground arith; nobody = λ is. absurd (ground arith) },
            );
          }

register_room-IsRoomOf :
    (env : Env) (event : Fields) (s : Store) → Returns (IsRoomOf event) (register_room env event s)
unfolding register_room
register_room-IsRoomOf env event s =
    Returns-continue (is_member_of_bridge env event) s _ λ member _. by_member member
  where
    user_id : Result Str
    user_id = as_str (elim (get (text "state_key") event) [ none ↦ str [] | some v ↦ v ])

    by_member :
        (member : Bool)
        → Returns (IsRoomOf event) (
            (if member
                then (do
                  id ← (λ (t : Store). (user_id, t))
                  az ← get_az_from_user_id env id
                  register_for event az)
                else pure (none, none))
              s)
    by_member false = record { at = λ t e r q. cc }
    by_member true = Returns-continue user_id s _ λ id _.
        let (q, s₁) = get_az_from_user_id env id s in
        Returns-continue q s₁ _ λ az _. register_for-IsRoomOf event az s₁

pub find_target-IsRoomOf :
    (env : Env) (ephemeral : Bool) (event : Fields) (room : Option ℕ) (s : Store)
    → Keyed.IsKeyed s
    → ((r : ℕ) → room ≡ some r → get (text "room_id") event ≡ some (str (read s.rooms r).id))
    → Returns (IsRoomOf event) (find_target env ephemeral event room s)
unfolding find_target
find_target-IsRoomOf env true event none s keyed h = record { at = λ t e r q. cc }
find_target-IsRoomOf env false event none s keyed h = register_room-IsRoomOf env event s
find_target-IsRoomOf env ephemeral event (some room) s keyed h =
    let owner = (read s.rooms room).owner in
    let (q, s₁) = Azs.get owner s in
    Returns-continue q s₁ (λ az. pure (some room, az))
      λ az e. record {
        at = λ t e₂ r is.
            let same : t ≡ (some room, az) = ground arith in
            let room_same : r ≡ room = ground (arith, same, is) in
            (
              ground (arith, h room refl, room_same, rooms-az-get owner s),
              rw (same, room_same, rooms-az-get owner s) (get-IsOwner owner s az keyed e),
            );
      }
