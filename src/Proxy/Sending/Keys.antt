-- ===== src/Proxy/Sending/Keys.antt =====
-- The sorting of a transaction (mautrix_asmux/api/as_proxy.py) has one entry for each appservice, and
-- what follows the PDUs leaves them as they are.
use mautrix_asmux.Prelude.{
  ℕ, ◌≡◌, refl, sym, subst, ◌∙◌, Bool, true, false, Option, none, some, List, [], ◌∷◌, Str, text,
  str_eq, Option-cases, inl, inr, nat_eq, arith,
}
use mautrix_asmux.Errors.{key_error}
use mautrix_asmux.Result.{ok, or_raise}
use mautrix_asmux.Exec.{Returns, Returns-continue}
use mautrix_asmux.Json.{Fields, get, as_str}
use mautrix_asmux.Env.{Env, DeviceLists}
use mautrix_asmux.Dict
use mautrix_asmux.Dict.{Dict, get-set}
use mautrix_asmux.Store.{Store, read}
use mautrix_asmux.Events.{Events}
use mautrix_asmux.Database.Rooms
use mautrix_asmux.UserIds.{get_az_from_user_id}
use mautrix_asmux.Proxy.Routing.{
  Delivered, collect_events-Delivered, pdu_at, pdu_at-at_key, events_at, collect_events_ephemeral,
}
use mautrix_asmux.Proxy.{
  as_key, Output, Transaction, add_edu, at_key, append_event, type_of, to_room, to_device,
  find_target, collect_in_room, collect_for_user, collect_event, collect_events, add_otk,
  collect_otk_count, add_device_lists, outgoing_txn_id, sort_transaction,
}

module _ {V : Type 0} where
  -- No two entries have one key.
  unfoldable pub HasKeysOnce : Dict ℕ V → Type 0
  HasKeysOnce [] = Unit
  HasKeysOnce ((k, _) ∷ d) = (Dict.get k d ≡ none) × HasKeysOnce d

  set-HasKeysOnce : (k : ℕ) (v : V) (d : Dict ℕ V) → HasKeysOnce d → HasKeysOnce (Dict.set k v d)
  unfolding HasKeysOnce Dict.set Dict.get
  set-HasKeysOnce k v [] h = (refl, tt)
  set-HasKeysOnce k v ((j, w) ∷ d) (fresh, h) =
      ground (arith, set-HasKeysOnce k v d h, get-set k j v d)

nothing_twice : (V : Type 0) → HasKeysOnce {V = V} []
unfolding HasKeysOnce
nothing_twice V = tt

module _ {O : Type 0} (env : Env) (txn_id : Str) where
  at_key-HasKeysOnce :
      (k : ℕ) (f : Events O → Events O) (out : Output O)
      → HasKeysOnce out
      → HasKeysOnce (at_key txn_id k f out)
  unfolding at_key
  at_key-HasKeysOnce k f out h = set-HasKeysOnce k _ out h

  to_room-HasKeysOnce :
      (ephemeral : Bool) (event : Fields) (out : Output O) (target : Option ℕ × Option ℕ)
      (s : Store)
      → HasKeysOnce out
      → Returns (λ out' _. HasKeysOnce out') (to_room env txn_id ephemeral event out target s)
  unfolding to_room
  to_room-HasKeysOnce ephemeral event out (none, az) s h = record {
    at = λ out' e. ground (arith, h);
  }
  to_room-HasKeysOnce ephemeral event out (some r, az) s h =
      let f : Events O → Events O = append_event ephemeral event (type_of event) in
      record { at = λ out' e. ground (arith, h, at_key-HasKeysOnce (read s.rooms r).owner f out h) }

  to_device-HasKeysOnce :
      (event : Fields) (out : Output O) (az : Option ℕ) (s : Store)
      → HasKeysOnce out
      → Returns (λ out' _. HasKeysOnce out') (to_device env txn_id event out az s)
  unfolding to_device
  to_device-HasKeysOnce event out none s h = record { at = λ out' e. ground (arith, h) }
  to_device-HasKeysOnce event out (some az) s h = record {
    at = λ out' e. ground (arith, at_key-HasKeysOnce (read s.azs az).id (add_edu event) out h);
  }

  collect_in_room-HasKeysOnce :
      (ephemeral : Bool) (event : Fields) (out : Output O) (s : Store)
      → HasKeysOnce out
      → Returns (λ out' _. HasKeysOnce out') (collect_in_room env txn_id ephemeral event out s)
  unfolding collect_in_room
  collect_in_room-HasKeysOnce ephemeral event out s h =
      Returns-continue (or_raise (get (text "room_id") event) key_error) s _ λ id _.
        Returns-continue (as_key id) s _ λ room_id _.
          let (r, s₁) = Rooms.get room_id s in
          Returns-continue r s₁ _ λ room _.
            let (q, s₂) = find_target env ephemeral event room s₁ in
            Returns-continue q s₂ _ λ target _. to_room-HasKeysOnce ephemeral event out target s₂ h

  collect_for_user-HasKeysOnce :
      (event : Fields) (out : Output O) (s : Store)
      → HasKeysOnce out
      → Returns (λ out' _. HasKeysOnce out') (collect_for_user env txn_id event out s)
  unfolding collect_for_user
  collect_for_user-HasKeysOnce event out s h =
      Returns-continue (or_raise (get (text "to_user_id") event) key_error) s _ λ id _.
        Returns-continue (as_str id) s _ λ user_id _.
          let (r, s₁) = get_az_from_user_id env user_id s in
          Returns-continue r s₁ _ λ az _. to_device-HasKeysOnce event out az s₁ h

  collect_event-HasKeysOnce :
      (ephemeral : Bool) (event : Fields) (out : Output O) (s : Store)
      → HasKeysOnce out
      → Returns (λ out' _. HasKeysOnce out') (collect_event env txn_id ephemeral event out s)
  unfolding collect_event
  collect_event-HasKeysOnce ephemeral event out s h = record {
    at = λ out' e. ground (
      arith,
      h,
      (collect_in_room-HasKeysOnce ephemeral event out s h).at out',
      (collect_for_user-HasKeysOnce event out s h).at out',
    );
  }

  collect_events-HasKeysOnce :
      (ephemeral : Bool) (events : List Fields) (out : Output O) (s : Store)
      → HasKeysOnce out
      → Returns (λ out' _. HasKeysOnce out') (collect_events env txn_id ephemeral events out s)
  unfolding collect_events
  collect_events-HasKeysOnce ephemeral [] out s h = record { at = λ out' e. ground (arith, h) }
  collect_events-HasKeysOnce ephemeral (event ∷ events) out s h =
      let (r, s₁) = collect_event env txn_id ephemeral event out s in
      Returns-continue r s₁ _ λ middle e.
        collect_events-HasKeysOnce ephemeral events middle s₁
          ((collect_event-HasKeysOnce ephemeral event out s h).at middle e)

  -- The entries stay apart, and the PDUs for `j` stay what they are.
  record Kept (j : ℕ) (out out' : Output O) : Type 0 where
    once : HasKeysOnce out'
    pdus : pdu_at j out' ≡ pdu_at j out

  at_key-Kept :
      (k j : ℕ) (f : Events O → Events O) (out : Output O)
      → ((e : Events O) → (f e).pdu ≡ e.pdu)
      → HasKeysOnce out
      → Kept j out (at_key txn_id k f out)
  at_key-Kept k j f out same h = record {
    once = at_key-HasKeysOnce k f out h;
    pdus = ground (arith, pdu_at-at_key txn_id k j f out, same (events_at txn_id j out));
  }

  Kept-refl : (j : ℕ) (out : Output O) → HasKeysOnce out → Kept j out out
  Kept-refl j out h = record { once = h; pdus = refl }

  Kept-trans : (j : ℕ) (a b c : Output O) → Kept j a b → Kept j b c → Kept j a c
  Kept-trans j a b c h k = record { once = k.once; pdus = k.pdus ∙ h.pdus }

  add_otk-Kept :
      (user_id : Str) (count : O) (out : Output O) (az : Option ℕ) (s : Store) (j : ℕ)
      → HasKeysOnce out
      → Returns (λ out' _. Kept j out out') (add_otk txn_id user_id count out az s)
  unfolding add_otk
  add_otk-Kept user_id count out none s j h = record {
    at = λ out' e. ground (arith, Kept-refl j out h);
  }
  add_otk-Kept user_id count out (some az) s j h = record {
    at = λ out' e. ground (
      arith,
      at_key-Kept (read s.azs az).id j
          (λ x. record x { otk_count = Dict.set user_id count x.otk_count }) out (λ x. refl) h,
    );
  }

  collect_otk_count-Kept :
      (counts : List (Str × O)) (out : Output O) (s : Store) (j : ℕ)
      → HasKeysOnce out
      → Returns (λ out' _. Kept j out out') (collect_otk_count env txn_id counts out s)
  unfolding collect_otk_count
  collect_otk_count-Kept [] out s j h = record { at = λ out' e. ground (arith, Kept-refl j out h) }
  collect_otk_count-Kept ((user_id, count) ∷ counts) out s j h =
      let (r, s₁) = get_az_from_user_id env user_id s in
      Returns-continue r s₁ _ λ az _.
        let (q, s₂) = add_otk txn_id user_id count out az s₁ in
        Returns-continue q s₂ _ λ middle e.
          let first = (add_otk-Kept user_id count out az s₁ j h).at middle e in
          record {
            at = λ last f.
                Kept-trans j out middle last first
                  ((collect_otk_count-Kept counts middle s₂ j first.once).at last f);
          }

  add_device_lists-Kept :
      (to : List Str) (lists : Option DeviceLists) (out out' : Output O) (j : ℕ)
      → HasKeysOnce out
      → add_device_lists env txn_id to lists out ≡ ok out'
      → Kept j out out'
  unfolding add_device_lists
  add_device_lists-Kept [] lists out out' j h e = ground (arith, Kept-refl j out h)
  add_device_lists-Kept (id ∷ []) lists out out' j h e =
      let value : DeviceLists = elim lists [ none ↦ env.default_device_lists | some l ↦ l ] in
      elim (Option-cases (env.parse_uuid id)) as (λ v. Kept j out out') [
        | inl bad ↦ ground arith
        | inr (k, parsed) ↦
            ground
              (arith, at_key-Kept k j (λ x. record x { device_lists = value }) out (λ x. refl) h)
      ]
  add_device_lists-Kept (id ∷ (id' ∷ ids)) lists out out' j h e = ground (arith, Kept-refl j out h)

-- What `sort_transaction` returns has one entry for each appservice, with PDUs out of the events.
pub record Sorted {O : Type 0} (env : Env) (events : List Fields) (j : ℕ) (out : Output O)
    : Type 0 where
  pub once : HasKeysOnce out
  pub delivered : Delivered env events [] (pdu_at j out)

pub sort_transaction-Sorted :
    {O : Type 0} (env : Env) (t : Transaction O) (s : Store) (j : ℕ)
    → Returns (λ out _. Sorted env t.events j out) (sort_transaction env t s)
unfolding sort_transaction Dict.get
sort_transaction-Sorted env t s j =
    let txn_id = outgoing_txn_id t in
    let (r, s₁) = collect_events env txn_id false t.events [] s in
    Returns-continue r s₁ _ λ pdus e₁.
      let (q, s₂) = collect_events env txn_id true t.ephemeral pdus s₁ in
      Returns-continue q s₂ _ λ edus e₂.
        let (p, s₃) = collect_otk_count env txn_id t.device_otk_count edus s₂ in
        Returns-continue p s₃ _ λ counts e₃. record {
          at = λ out e₄.
              let once₁ =
                (collect_events-HasKeysOnce env txn_id false t.events [] s (nothing_twice _)).at
                  pdus e₁ in
              let once₂ =
                (collect_events-HasKeysOnce env txn_id true t.ephemeral pdus s₁ once₁).at edus e₂ in
              let kept₁ =
                (collect_otk_count-Kept env txn_id t.device_otk_count edus s₂ j once₂).at counts
                  e₃ in
              let kept₂ =
                add_device_lists-Kept env txn_id t.synchronous_to t.device_lists counts out j
                  kept₁.once e₄ in
              let same =
                kept₂.pdus
                ∙ (kept₁.pdus
                    ∙ collect_events_ephemeral env txn_id t.ephemeral pdus edus s₁ j e₂) in
              record {
                once = kept₂.once;
                delivered =
                    subst (λ l. Delivered env t.events [] l) (sym same)
                      (collect_events-Delivered env txn_id t.events [] pdus s j e₁);
              };
        }
