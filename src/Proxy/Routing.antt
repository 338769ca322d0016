-- ===== src/Proxy/Routing.antt =====
-- Which events reach which appservice (`_collect_events` of mautrix_asmux/api/as_proxy.py).
use mautrix_asmux.Prelude.{
  ℕ, ◌≡◌, ◌⊎◌, Bool, true, false, Option, none, some, List, [], ◌∷◌, ◌++◌, Str, text, nat_eq,
  str_eq, nat_beq, if◌then◌else◌, arith, All, append-nil, append_assoc, inl, inr, ap, ◌∙◌,
}
use mathlib.Core.Option
use mautrix_asmux.Errors.{key_error}
use mautrix_asmux.Result.{ok, or_raise}
use mautrix_asmux.Exec.{Returns, Returns-continue}
use mautrix_asmux.Json.{Fields, get, as_str}
use mautrix_asmux.Dict
use mautrix_asmux.Dict.{get-set}
use mautrix_asmux.Env.{Env}
use mautrix_asmux.Store.{Store, read}
use mautrix_asmux.Database.Rooms
use mautrix_asmux.UserIds.{get_az_from_user_id}
use mautrix_asmux.Util.{is_double_puppeted, in_set, sender_allowed, should_forward_pdu}
use mautrix_asmux.Events.{Events, new_events}
use mautrix_asmux.Proxy.{
  is_redacted, as_key, type_of, Output, at_key, append_event, add_edu, to_room, to_device,
  find_target, collect_in_room, collect_for_user, collect_event, collect_events,
}

-- What an event must be to be forwarded to a bridge as a PDU, whatever the state is.
pub record IsForwardable (env : Env) (event : Fields) : Type 0 where
  pub known : in_set (get (text "type") event) env.checkpoint_types ≡ ok true
  pub own : is_double_puppeted event ≡ ok false
  pub whole : is_redacted event ≡ ok false

pub should_forward_lem :
    (env : Env) (owner : Option Str) (event : Fields)
    → should_forward_pdu env owner event ≡ ok true
    → (in_set (get (text "type") event) env.checkpoint_types ≡ ok true)
      × (is_double_puppeted event ≡ ok false)
      × (sender_allowed env owner event ≡ true)
unfolding should_forward_pdu
should_forward_lem env owner event h = ground arith

-- What one event may do to the PDUs for one appservice.
abbrev pub Change : Env → Bool → Fields → List Fields → List Fields → Type 0
Change env ephemeral event before after =
    (after ≡ before)
    ⊎ ((ephemeral ≡ false) × IsForwardable env event × (after ≡ before ++ event ∷ []))

module _ {O : Type 0} where
  -- The PDUs for one appservice.
  abbrev pub pdu_at : ℕ → Output O → List Fields
  pdu_at k out = elim (Dict.get k out) [ none ↦ [] | some e ↦ e.pdu ]

  abbrev pub events_at : Str → ℕ → Output O → Events O
  events_at txn_id k out = elim (Dict.get k out) [ none ↦ new_events txn_id | some e ↦ e ]

  pub pdu_at-at_key :
      (txn_id : Str) (k j : ℕ) (f : Events O → Events O) (out : Output O)
      → pdu_at j (at_key txn_id k f out)
        ≡ (if nat_beq k j then (f (events_at txn_id j out)).pdu else pdu_at j out)
  unfolding at_key
  pdu_at-at_key txn_id k j f out = ground (arith, get-set k j (f (events_at txn_id k out)) out)

  to_room-Change :
      (env : Env) (txn_id : Str) (ephemeral : Bool) (event : Fields) (out out' : Output O)
      (target : Option ℕ × Option ℕ) (s : Store) (j : ℕ)
      → is_redacted event ≡ ok false
      → (to_room env txn_id ephemeral event out target s).0 ≡ ok out'
      → Change env ephemeral event (pdu_at j out) (pdu_at j out')
  unfolding to_room append_event
  to_room-Change env txn_id ephemeral event out out' (none, az) s j w h = inl (cc)
  to_room-Change env txn_id ephemeral event out out' (some r, az) s j w h =
      let owner : Option Str = Option.map (λ a. (read s.azs a).owner) az in
      let f : Events O → Events O = append_event ephemeral event (type_of event) in
      ground (
        arith,
        pdu_at-at_key txn_id (read s.rooms r).owner j f out,
        should_forward_lem env owner event,
      )

  to_device-Change :
      (env : Env) (txn_id : Str) (event : Fields) (out out' : Output O) (az : Option ℕ) (s : Store)
      (j : ℕ)
      → (to_device env txn_id event out az s).0 ≡ ok out'
      → pdu_at j out' ≡ pdu_at j out
  unfolding to_device
  to_device-Change env txn_id event out out' none s j h = ground arith
  to_device-Change env txn_id event out out' (some az) s j h =
      ground (arith, pdu_at-at_key txn_id (read s.azs az).id j (add_edu event) out)

  collect_in_room-Change :
      (env : Env) (txn_id : Str) (ephemeral : Bool) (event : Fields) (out : Output O) (s : Store)
      (j : ℕ)
      → is_redacted event ≡ ok false
      → Returns
          (λ out' _. Change env ephemeral event (pdu_at j out) (pdu_at j out'))
          (collect_in_room env txn_id ephemeral event out s)
  unfolding collect_in_room
  collect_in_room-Change env txn_id ephemeral event out s j w =
      Returns-continue (or_raise (get (text "room_id") event) key_error) s _ λ id _.
        Returns-continue (as_key id) s _ λ room_id _.
          let (r, s₁) = Rooms.get room_id s in
          Returns-continue r s₁ _ λ room _.
            let (q, s₂) = find_target env ephemeral event room s₁ in
            Returns-continue q s₂ _ λ target _. record {
              at = λ out'. to_room-Change env txn_id ephemeral event out out' target s₂ j w;
            }

  pub collect_for_user-Change :
      (env : Env) (txn_id : Str) (event : Fields) (out : Output O) (s : Store) (j : ℕ)
      → Returns (λ out' _. pdu_at j out' ≡ pdu_at j out) (collect_for_user env txn_id event out s)
  unfolding collect_for_user
  collect_for_user-Change env txn_id event out s j =
      Returns-continue (or_raise (get (text "to_user_id") event) key_error) s _ λ id _.
        Returns-continue (as_str id) s _ λ user_id _.
          let (r, s₁) = get_az_from_user_id env user_id s in
          Returns-continue r s₁ _
            λ az _. record { at = λ out'. to_device-Change env txn_id event out out' az s₁ j }

  collect_event-Change :
      (env : Env) (txn_id : Str) (ephemeral : Bool) (event : Fields) (out out' : Output O)
      (s : Store) (j : ℕ)
      → (collect_event env txn_id ephemeral event out s).0 ≡ ok out'
      → Change env ephemeral event (pdu_at j out) (pdu_at j out')
  unfolding collect_event
  collect_event-Change env txn_id ephemeral event out out' s j h = ground (
    arith,
    λ (w : is_redacted event ≡ ok false).
        (collect_in_room-Change env txn_id ephemeral event out s j w).at out',
    (collect_for_user-Change env txn_id event out s j).at out',
  )

-- `xs` is `ys` with some of its items left out.
pub data Subsequence {ℓ} {A : Type ℓ} : List A → List A → Type ℓ where
  done : Subsequence [] []
  skip : {y : A} {xs ys : List A} → Subsequence xs ys → Subsequence xs (y ∷ ys)
  take : {y : A} {xs ys : List A} → Subsequence xs ys → Subsequence (y ∷ xs) (y ∷ ys)

-- What was appended to `before` to make `after`: forwardable events out of `events`, in order.
pub record Delivered (env : Env) (events before after : List Fields) : Type 0 where
  pub added : List Fields
  pub appended : after ≡ before ++ added
  pub in_order : Subsequence added events
  pub forwardable : All (IsForwardable env) added

Delivered-cons :
    (env : Env) (event : Fields) (events before middle after : List Fields)
    → Change env false event before middle
    → Delivered env events middle after
    → Delivered env (event ∷ events) before after
Delivered-cons env event events before middle after (inl e) d = record {
  added = d.added;
  appended = d.appended ∙ ap (λ l. l ++ d.added) e;
  in_order = Subsequence.skip d.in_order;
  forwardable = d.forwardable;
}
Delivered-cons env event events before middle after (inr (_, w, e)) d = record {
  added = event ∷ d.added;
  appended = d.appended ∙ (ap (λ l. l ++ d.added) e ∙ append_assoc before (event ∷ []) d.added);
  in_order = Subsequence.take d.in_order;
  forwardable = (w, d.forwardable);
}

module _ {O : Type 0} (env : Env) (txn_id : Str) where
  -- When `_collect_events` returns for the PDUs of a transaction, each appservice has got, behind
  -- what it had, some of the events, in the order of the transaction, and each of them has a type
  -- that is forwarded, did not come from a bridge and is not redacted.
  pub collect_events-Delivered :
      (events : List Fields) (out out' : Output O) (s : Store) (j : ℕ)
      → (collect_events env txn_id false events out s).0 ≡ ok out'
      → Delivered env events (pdu_at j out) (pdu_at j out')
  unfolding collect_events
  collect_events-Delivered [] out out' s j h = record {
    added = [];
    appended = ground (arith, append-nil (pdu_at j out));
    in_order = Subsequence.done;
    forwardable = tt;
  }
  collect_events-Delivered (event ∷ events) out out' s j h =
      let (r, s₁) = collect_event env txn_id false event out s in
      (Returns-continue
          {Q = λ last _. Delivered env (event ∷ events) (pdu_at j out) (pdu_at j last)} r s₁
          (collect_events env txn_id false events)
          λ middle e. record {
            at = λ last h₁.
                Delivered-cons env event events (pdu_at j out) (pdu_at j middle) (pdu_at j last)
                  (collect_event-Change env txn_id false event out middle s j e)
                  (collect_events-Delivered events middle last s₁ j h₁);
          }).at
        out' h

  -- Ephemeral events never become PDUs.
  pub collect_events_ephemeral :
      (events : List Fields) (out out' : Output O) (s : Store) (j : ℕ)
      → (collect_events env txn_id true events out s).0 ≡ ok out'
      → pdu_at j out' ≡ pdu_at j out
  unfolding collect_events
  collect_events_ephemeral [] out out' s j h = ground arith
  collect_events_ephemeral (event ∷ events) out out' s j h =
      let (r, s₁) = collect_event env txn_id true event out s in
      (Returns-continue {Q = λ last _. pdu_at j last ≡ pdu_at j out} r s₁
          (collect_events env txn_id true events)
          λ middle e. record {
            at = λ last h₁. ground (
              arith,
              collect_event-Change env txn_id true event out middle s j e,
              collect_events_ephemeral events middle last s₁ j h₁,
            );
          }).at
        out' h
