-- ===== src/Proxy/Sending/Tables.antt =====
-- The sorting of a transaction (mautrix_asmux/api/as_proxy.py) keeps the tables and caches of the
-- appservices well formed.
use mautrix_asmux.Prelude.{
  ℕ, ◌≡◌, refl, Bool, true, false, Option, none, some, List, [], ◌∷◌, Str, text, str_eq, nat_eq,
  arith, Option-cases, Bool-cases, inl, inr,
}
use mautrix_asmux.Errors.{key_error}
use mautrix_asmux.Result.{or_raise}
use mautrix_asmux.Exec.{continue-keeps}
use mautrix_asmux.Json.{Json, Fields, str, get, as_str}
use mautrix_asmux.Env.{Env}
use mautrix_asmux.Store.{Store, Room, read}
use mautrix_asmux.Database.Azs
use mautrix_asmux.Database.Azs.Keyed.{IsKeyed, get-IsKeyed, find-IsKeyed}
use mautrix_asmux.Database.Rooms
use mautrix_asmux.UserIds
use mautrix_asmux.UserIds.{get_az_from_user_id}
use mautrix_asmux.Proxy.{
  as_key, is_member_of_bridge, register_for, register_room, find_target, Output, Transaction,
  to_room, to_device, collect_in_room, collect_for_user, collect_event, collect_events, add_otk,
  collect_otk_count, outgoing_txn_id, sort_transaction,
}

-- What the methods of `Room` leave as it is.
record IsSameAzs (s s' : Store) : Type 0 where
  table : s'.az_table ≡ s.az_table
  objects : s'.azs ≡ s.azs
  by_id : s'.az_by_id ≡ s.az_by_id
  by_owner : s'.az_by_owner ≡ s.az_by_owner

IsKeyed-same : (s s' : Store) → IsSameAzs s s' → IsKeyed s → IsKeyed s'
IsKeyed-same s s' same h = record {
  rows = λ id row e. ground (arith, h.rows id row, same.table);
  by_id = λ id r e. ground (arith, h.by_id id r, same.by_id, same.objects);
  by_owner = λ o p r e. ground (arith, h.by_owner o p r, same.by_owner, same.objects);
}

get-IsSameAzs : (id : Str) (s : Store) → IsSameAzs s (Rooms.get id s).1
unfolding Rooms.get Rooms.load Rooms.new_room Rooms.add_to_cache
get-IsSameAzs id s = record {
  table = ground arith;
  objects = ground arith;
  by_id = ground arith;
  by_owner = ground arith;
}

new_room-IsSameAzs : (a : Room) (s : Store) → IsSameAzs s (Rooms.new_room a s).1
unfolding Rooms.new_room
new_room-IsSameAzs a s = record { table = refl; objects = refl; by_id = refl; by_owner = refl }

insert-IsSameAzs : (r : ℕ) (s : Store) → IsSameAzs s (Rooms.insert r s).1
unfolding Rooms.insert Rooms.insert_row Rooms.add_to_cache
insert-IsSameAzs r s = record {
  table = ground arith;
  objects = ground arith;
  by_id = ground arith;
  by_owner = ground arith;
}

named-IsKeyed :
    (env : Env) (user_id : Str) {s : Store}
    → IsKeyed s
    → IsKeyed (get_az_from_user_id env user_id s).1
unfolding get_az_from_user_id UserIds.find_named
named-IsKeyed env user_id h = elim (Option-cases (UserIds.parse_user_id env user_id)) [
  | inl other ↦ rw (other, UserIds.find_named) h
  | inr ((owner, prefix), named) ↦ rw (named, UserIds.find_named) (find-IsKeyed owner prefix h)
]

register_for-IsKeyed :
    (event : Fields) (az : Option ℕ) (s : Store) → IsKeyed s → IsKeyed (register_for event az s).1
unfolding register_for
register_for-IsKeyed event none s h = h
register_for-IsKeyed event (some az) s h =
    continue-keeps IsKeyed (or_raise (get (text "room_id") event) key_error) s _ h (λ id _.
      continue-keeps IsKeyed (as_key id) s _ h (λ room_id _.
        let room : Room = record { id = room_id; owner = (read s.azs az).id; deleted = false } in
        let (r, s₁) = Rooms.new_room room s in
        let h₁ = IsKeyed-same s s₁ (new_room-IsSameAzs room s) h in
        continue-keeps IsKeyed r s₁ _ h₁ (λ q _.
          let (t, s₂) = Rooms.insert q s₁ in
          let h₂ = IsKeyed-same s₁ s₂ (insert-IsSameAzs q s₁) h₁ in
          continue-keeps IsKeyed t s₂ _ h₂ (λ _ _. h₂))))

register_room-IsKeyed :
    (env : Env) (event : Fields) (s : Store) → IsKeyed s → IsKeyed (register_room env event s).1
unfolding register_room
register_room-IsKeyed env event s h =
    continue-keeps IsKeyed (is_member_of_bridge env event) s _ h (λ member _.
      elim (Bool-cases member) [
        | inr other ↦ rw other h
        | inl yes_member ↦ rw yes_member (
            let user : Json = elim (get (text "state_key") event) [ none ↦ str [] | some v ↦ v ] in
            continue-keeps IsKeyed (as_str user) s _ h (λ user_id _.
              let (q, s₁) = get_az_from_user_id env user_id s in
              let h₁ = named-IsKeyed env user_id h in
              continue-keeps IsKeyed q s₁ _ h₁ (λ az _. register_for-IsKeyed event az s₁ h₁)))
      ])

find_target-IsKeyed :
    (env : Env) (ephemeral : Bool) (event : Fields) (room : Option ℕ) (s : Store)
    → IsKeyed s
    → IsKeyed (find_target env ephemeral event room s).1
unfolding find_target
find_target-IsKeyed env true event none s h = h
find_target-IsKeyed env false event none s h = register_room-IsKeyed env event s h
find_target-IsKeyed env ephemeral event (some room) s h =
    let (q, s₁) = Azs.get (read s.rooms room).owner s in
    let h₁ = get-IsKeyed (read s.rooms room).owner h in continue-keeps IsKeyed q s₁ _ h₁ (λ _ _. h₁)

module _ {O : Type 0} (env : Env) (txn_id : Str) where
  to_room_store :
      (ephemeral : Bool) (event : Fields) (out : Output O) (target : Option ℕ × Option ℕ)
      (s : Store)
      → (to_room env txn_id ephemeral event out target s).1 ≡ s
  unfolding to_room
  to_room_store ephemeral event out (none, az) s = refl
  to_room_store ephemeral event out (some r, az) s = ground arith

  to_device_store :
      (event : Fields) (out : Output O) (az : Option ℕ) (s : Store)
      → (to_device env txn_id event out az s).1 ≡ s
  unfolding to_device
  to_device_store event out none s = ground arith
  to_device_store event out (some az) s = refl

  add_otk_store :
      (user_id : Str) (count : O) (out : Output O) (az : Option ℕ) (s : Store)
      → (add_otk txn_id user_id count out az s).1 ≡ s
  unfolding add_otk
  add_otk_store user_id count out none s = refl
  add_otk_store user_id count out (some az) s = refl

  collect_in_room-IsKeyed :
      (ephemeral : Bool) (event : Fields) (out : Output O) (s : Store)
      → IsKeyed s
      → IsKeyed (collect_in_room env txn_id ephemeral event out s).1
  unfolding collect_in_room
  collect_in_room-IsKeyed ephemeral event out s h =
      continue-keeps IsKeyed (or_raise (get (text "room_id") event) key_error) s _ h (λ id _.
        continue-keeps IsKeyed (as_key id) s _ h (λ room_id _.
          let (r, s₁) = Rooms.get room_id s in
          let h₁ = IsKeyed-same s s₁ (get-IsSameAzs room_id s) h in
          continue-keeps IsKeyed r s₁ _ h₁ (λ room _.
            let (q, s₂) = find_target env ephemeral event room s₁ in
            let h₂ = find_target-IsKeyed env ephemeral event room s₁ h₁ in
            continue-keeps IsKeyed q s₂ _ h₂
              (λ target _. rw (to_room_store ephemeral event out target s₂) h₂))))

  collect_for_user-IsKeyed :
      (event : Fields) (out : Output O) (s : Store)
      → IsKeyed s
      → IsKeyed (collect_for_user env txn_id event out s).1
  unfolding collect_for_user
  collect_for_user-IsKeyed event out s h =
      continue-keeps IsKeyed (or_raise (get (text "to_user_id") event) key_error) s _ h (λ id _.
        continue-keeps IsKeyed (as_str id) s _ h (λ user_id _.
          let (r, s₁) = get_az_from_user_id env user_id s in
          let h₁ = named-IsKeyed env user_id h in
          continue-keeps IsKeyed r s₁ _ h₁ (λ az _. rw (to_device_store event out az s₁) h₁)))

  collect_event-IsKeyed :
      (ephemeral : Bool) (event : Fields) (out : Output O) (s : Store)
      → IsKeyed s
      → IsKeyed (collect_event env txn_id ephemeral event out s).1
  unfolding collect_event
  collect_event-IsKeyed ephemeral event out s h = ground (
    arith,
    collect_in_room-IsKeyed ephemeral event out s h,
    collect_for_user-IsKeyed event out s h,
  )

  collect_events-IsKeyed :
      (ephemeral : Bool) (events : List Fields) (out : Output O) (s : Store)
      → IsKeyed s
      → IsKeyed (collect_events env txn_id ephemeral events out s).1
  unfolding collect_events
  collect_events-IsKeyed ephemeral [] out s h = h
  collect_events-IsKeyed ephemeral (event ∷ events) out s h =
      let (r, s₁) = collect_event env txn_id ephemeral event out s in
      let h₁ = collect_event-IsKeyed ephemeral event out s h in
      continue-keeps IsKeyed r s₁ _ h₁
        (λ middle _. collect_events-IsKeyed ephemeral events middle s₁ h₁)

  collect_otk_count-IsKeyed :
      (counts : List (Str × O)) (out : Output O) (s : Store)
      → IsKeyed s
      → IsKeyed (collect_otk_count env txn_id counts out s).1
  unfolding collect_otk_count
  collect_otk_count-IsKeyed [] out s h = h
  collect_otk_count-IsKeyed ((user_id, count) ∷ counts) out s h =
      let (r, s₁) = get_az_from_user_id env user_id s in
      let h₁ = named-IsKeyed env user_id h in
      continue-keeps IsKeyed r s₁ _ h₁ (λ az _.
        let (q, s₂) = add_otk txn_id user_id count out az s₁ in
        let h₂ : IsKeyed s₂ = rw (add_otk_store user_id count out az s₁) h₁ in
        continue-keeps IsKeyed q s₂ _ h₂
          (λ middle _. collect_otk_count-IsKeyed counts middle s₂ h₂))

pub sort_transaction-IsKeyed :
    {O : Type 0} (env : Env) (t : Transaction O) (s : Store)
    → IsKeyed s
    → IsKeyed (sort_transaction env t s).1
unfolding sort_transaction
sort_transaction-IsKeyed env t s h =
    let txn_id = outgoing_txn_id t in
    let (r, s₁) = collect_events env txn_id false t.events [] s in
    let h₁ = collect_events-IsKeyed env txn_id false t.events [] s h in
    continue-keeps IsKeyed r s₁ _ h₁ (λ pdus _.
      let (q, s₂) = collect_events env txn_id true t.ephemeral pdus s₁ in
      let h₂ = collect_events-IsKeyed env txn_id true t.ephemeral pdus s₁ h₁ in
      continue-keeps IsKeyed q s₂ _ h₂ (λ edus _.
        let (p, s₃) = collect_otk_count env txn_id t.device_otk_count edus s₂ in
        let h₃ = collect_otk_count-IsKeyed env txn_id t.device_otk_count edus s₂ h₂ in
        continue-keeps IsKeyed p s₃ _ h₃ (λ _ _. h₃)))
