-- ===== src/Proxy/Target.antt =====
-- Why an event with a room id goes to an appservice (mautrix_asmux/api/as_proxy.py).
use mautrix_asmux.Prelude.{
  ℕ, ◌≡◌, ◌≢◌, ◌⊎◌, inl, inr, refl, Bool-cases, subst, sym, Bool, true, false, Option, none, some,
  Str, text, nat_eq, str_eq, pair_eq, nat_beq, if◌then◌else◌, arith,
}
use mathlib.Core.Option
use mautrix_asmux.Errors.{key_error}
use mautrix_asmux.Result.{Result, ok, err, or_raise}
use mautrix_asmux.Exec.{Returns, Returns-continue, pure}
use mautrix_asmux.Json.{Json, Fields, str, get, truthy_at}
use mautrix_asmux.Env.{Env}
use mautrix_asmux.Store.{Store, read}
use mautrix_asmux.Database.Azs
use mautrix_asmux.Database.Azs.Keyed
use mautrix_asmux.Database.Rooms
use mautrix_asmux.Database.Rooms.Keyed.{IsKeyed, id-get}
use mautrix_asmux.Json.Texts.{is_text-some}
use mautrix_asmux.Util.{owner_mxid, sender_allowed, should_forward_pdu, in_set, is_double_puppeted}
use mautrix_asmux.Events.{Events}
use mautrix_asmux.Proxy.{
  as_key, find_target, Output, append_event, type_of, to_room, collect_in_room, collect_for_user,
  collect_event, is_redacted,
}
use mautrix_asmux.Proxy.Routing.{collect_for_user-Change, should_forward_lem, pdu_at, pdu_at-at_key}
use mautrix_asmux.Proxy.Found.{
  IsOwner, IsRoomOf, room_get-IsKeyed, as_key_lem, find_target-IsRoomOf,
}

-- The sender is the owner of the appservice `k`, or there is no such appservice: neither the cache nor
-- the tables have it.
abbrev pub IsSent : Env → Fields → ℕ → Store → Type 0
IsSent env event k s =
    ((a : ℕ) × ((read s.azs a).id ≡ k)
      × (get (text "sender") event ≡ some (str (owner_mxid env (read s.azs a).owner))))
    ⊎ ((Azs.get k s).0 ≡ ok none)

-- Why a PDU was put into the transaction for the appservice `k`, in the state that routing left.
pub record Forwarded (env : Env) (event : Fields) (k : ℕ) (s : Store) : Type 0 where
  pub room : ℕ
  pub named : get (text "room_id") event ≡ some (str (read s.rooms room).id)
  pub owned : (read s.rooms room).owner ≡ k
  pub alive : (read s.rooms room).deleted ≡ false
  pub wanted : in_set (get (text "type") event) env.checkpoint_types ≡ ok true
  pub sent : IsSent env event k s
  pub not_puppeted : is_double_puppeted event ≡ ok false

allowed-IsSent :
    (env : Env) (event : Fields) (k : ℕ) (az : Option ℕ) (s : Store)
    → IsOwner k az s
    → sender_allowed env (Option.map (λ a. (read s.azs a).owner) az) event ≡ true
    → IsSent env event k s
unfolding sender_allowed
allowed-IsSent env event k none s is h = inr (is.nobody refl)
allowed-IsSent env event k (some a) s is h = inl (a, is.found a refl, is_text-some _ _ h)

-- The PDUs for `k` are as they were, or the event was appended to them for a reason.
abbrev pub Justified : {O : Type 0} → Env → Fields → ℕ → Output O → Output O → Store → Type 0
Justified env event k out out' s = (pdu_at k out' ≡ pdu_at k out) ⊎ Forwarded env event k s

forward-cases : (r : Result Bool) → (r ≡ ok true) ⊎ (r ≢ ok true)
forward-cases (ok true) = inl refl
forward-cases (ok false) = inr (λ e. cc)
forward-cases (err e) = inr (λ q. cc)

module _ {O : Type 0} (env : Env) (txn_id : Str) (event : Fields) (out : Output O) (k : ℕ) where
  state-to_room :
      (target : Option ℕ × Option ℕ) (s : Store)
      → (to_room env txn_id false event out target s).1 ≡ s
  unfolding to_room
  state-to_room (none, az) s = refl
  state-to_room (some r, az) s = ground arith

  to_room-Justified :
      (target : Option ℕ × Option ℕ) (s : Store)
      → IsRoomOf event target s
      → Returns (Justified env event k out) (to_room env txn_id false event out target s)
  unfolding to_room
  to_room-Justified (none, az) s h = record { at = λ out' e. inl (cc) }
  to_room-Justified (some r, az) s h =
      let owner : Option Str = Option.map (λ a. (read s.azs a).owner) az in
      let f : Events O → Events O = append_event false event (type_of event) in
      let change = pdu_at-at_key txn_id (read s.rooms r).owner k f out in
      record {
        at = λ out' e.
            subst (Justified env event k out out') (sym (state-to_room (some r, az) s))
              (elim (Bool-cases (read s.rooms r).deleted) [
                | inl dead ↦ inl (ground arith)
                | inr alive ↦ elim (forward-cases (should_forward_pdu env owner event)) [
                  | inr no_forward ↦ inl (ground arith)
                  | inl forward ↦ elim (Bool-cases (nat_beq (read s.rooms r).owner k)) [
                    | inr other ↦ inl (ground (arith, change))
                    | inl mine ↦ inr (record {
                      room = r;
                      named = (h r refl).0;
                      owned = ground arith;
                      alive = alive;
                      wanted = (should_forward_lem env owner event forward).0;
                      sent =
                          let is : (read s.rooms r).owner ≡ k = ground arith in
                          subst (λ j. IsSent env event j s) is
                            (allowed-IsSent env event _ az s (h r refl).1
                              (should_forward_lem env owner event forward).2);
                      not_puppeted = (should_forward_lem env owner event forward).1;
                    })
                  ]
                ]
              ]);
      }

  pub collect_in_room-Justified :
      (s : Store)
      → IsKeyed s
      → Keyed.IsKeyed s
      → Returns (Justified env event k out) (collect_in_room env txn_id false event out s)
  unfolding collect_in_room
  collect_in_room-Justified s h keyed =
      Returns-continue (or_raise (get (text "room_id") event) key_error) s _ λ id e.
        Returns-continue (as_key id) s _ λ room_id q.
          let (r, s₁) = Rooms.get room_id s in
          Returns-continue r s₁ _ λ room found.
            let (t, s₂) = find_target env false event room s₁ in
            Returns-continue t s₂ _ λ target e₂. to_room-Justified target s₂ (
              (find_target-IsRoomOf env false event room s₁ (room_get-IsKeyed room_id keyed)
                  (λ x is. is_named id room_id e q room x found is)).at
                target e₂)
    where
      is_named :
          (id : Json) (room_id : Str)
          → or_raise (get (text "room_id") event) key_error ≡ ok id
          → as_key id ≡ ok room_id
          → (room : Option ℕ) (x : ℕ) → (Rooms.get room_id s).0 ≡ ok room
          → room ≡ some x
          → get (text "room_id") event ≡ some (str (read (Rooms.get room_id s).1.rooms x).id)
      is_named id room_id e q room x found is =
          ground (arith, as_key_lem id room_id q, id-get room_id x h)

  -- Where the caches of rooms and appservices are keyed and the loop body returns for a PDU, the PDUs
  -- for the appservice `k` stay as they were, or the event was appended to them, and then it names a
  -- room that belongs to `k` and is not deleted, is of a type that is forwarded, is not double
  -- puppeted, and its sender is the owner of the appservice `k`, unless neither the cache nor the
  -- tables have this appservice.
  pub collect_event-Justified :
      (s : Store) (out' : Output O)
      → IsKeyed s
      → Keyed.IsKeyed s
      → (collect_event env txn_id false event out s).0 ≡ ok out'
      → Justified env event k out out' (collect_event env txn_id false event out s).1
  unfolding collect_event
  collect_event-Justified s out' h keyed =
      (Returns-continue {Q = Justified env event k out} (is_redacted event) s _ λ redacted _.
          by_kind redacted (truthy_at (text "room_id") event)
            (truthy_at (text "to_user_id") event)).at
        out'
    where
      by_kind :
          (redacted in_room to_user : Bool)
          → Returns (Justified env event k out) (
              (if redacted
                  then pure out
                  else if in_room
                  then collect_in_room env txn_id false event out
                  else if to_user
                  then collect_for_user env txn_id event out
                  else pure out)
                s)
      by_kind true in_room to_user = record { at = λ b e. inl (cc) }
      by_kind false true to_user = collect_in_room-Justified s h keyed
      by_kind false false true = record {
        at = λ b e. inl ((collect_for_user-Change env txn_id event out s k).at b e);
      }
      by_kind false false false = record { at = λ b e. inl (cc) }
