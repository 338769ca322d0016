-- ===== src/Proxy.antt =====
-- Routing of the homeserver's transactions (mautrix_asmux/api/as_proxy.py). Segment tracking is
-- taken to be off (no token), so that `track_event` returns at once.
pub mod Routing
pub mod Found
pub mod Target
pub mod Sending
pub mod Checkpoints
use mautrix_asmux.Prelude.{
  ℕ, Bool, true, false, not, ◌&&◌, ◌||◌, Option, none, some, List, [], ◌∷◌, ◌++◌, Str, text, nat_eq,
  str_eq, nat_beq, if◌then◌else◌, is_some, starts_with,
}
use mathlib.Core.Option
use mautrix_asmux.Errors.{Exn, type_error, key_error, attribute_error, value_error}
use mautrix_asmux.Result.{Result, ok, err, or_raise}
use mautrix_asmux.Exec.{Exec, pure, raise, lift, gets, modify, ◌>>=◌, ◌>>◌}
use mautrix_asmux.Json.{Json, str, Fields, get, truthy_at, json_len, as_str, is_text, is_one_of}
use mautrix_asmux.Dict
use mautrix_asmux.Dict.{Dict}
use mautrix_asmux.Env.{Env, DeviceLists}
use mautrix_asmux.Store.{Store, Room, AppService, read}
use mautrix_asmux.Database.Azs
use mautrix_asmux.Database.Rooms
use mautrix_asmux.UserIds.{get_az_from_user_id}
use mautrix_asmux.Util.{should_forward_pdu}
use mautrix_asmux.Events.{Events, new_events}

abbrev pub redactable_types : List Str
redactable_types =
    text "m.room.message" ∷ text "m.room.encrypted" ∷ text "m.sticker" ∷ text "m.reaction" ∷ []

-- `evt_type in redactable_types and len(event.get("content", {})) == 0`
unfoldable pub is_redacted : Fields → Result Bool
is_redacted event =
    if is_one_of (get (text "type") event) redactable_types
    then elim (get (text "content") event) [
      | none ↦ ok true
      | some v ↦ elim (json_len v) [ ok n ↦ ok (nat_beq n 0) | err e ↦ err e ]
    ]
    else ok false

-- `event.get("type", "")`
unfoldable pub type_of : Fields → Json
type_of event = elim (get (text "type") event) [ none ↦ str [] | some t ↦ t ]

-- The test at the head of `register_room`; the `KeyError` of either key ends in `false`.
unfoldable pub is_member_of_bridge : Env → Fields → Result Bool
is_member_of_bridge env event = elim (get (text "type") event) [
  | none ↦ ok false
  | some t ↦
      if is_text (text "m.room.member") (some t)
      then elim (get (text "state_key") event) [
        | none ↦ ok false
        | some (str k) ↦ ok (starts_with k env.mxid_prefix)
        | some _ ↦ err attribute_error
      ]
      else ok false
]

-- `room_id` is used as a key of a dict and as a text argument of a query.
unfoldable pub as_key : Json → Result Str
as_key (str s) = ok s
as_key _ = err type_error

unfoldable pub register_for : Fields → Option ℕ → Exec Store (Option ℕ × Option ℕ)
unfolding as_key
register_for event none = pure (none, none)
register_for event (some az) = do
  owner ← gets (λ (s : Store). read s.azs az)
  id ← lift (or_raise (get (text "room_id") event) key_error)
  room_id ← lift (as_key id)
  room ← Rooms.new_room (record { id = room_id; owner = owner.id; deleted = false })
  Rooms.insert room
  pure (some room, some az)

-- The room and the appservice, or neither.
unfoldable pub register_room : Env → Fields → Exec Store (Option ℕ × Option ℕ)
unfolding is_member_of_bridge register_for
register_room env event = do
  member ← lift (is_member_of_bridge env event)
  if member
      then (do
        user_id ← lift (as_str (elim (get (text "state_key") event) [ none ↦ str [] | some v ↦ v ]))
        az ← get_az_from_user_id env user_id
        register_for event az)
      else pure (none, none)

-- The room and the appservice that an event with a room id is for.
unfoldable pub find_target : Env → Bool → Fields → Option ℕ → Exec Store (Option ℕ × Option ℕ)
unfolding register_room
find_target env ephemeral event none =
    if ephemeral then pure (none, none) else register_room env event
find_target env ephemeral event (some room) = do
  owner ← gets (λ (s : Store). (read s.rooms room).owner)
  az ← Azs.get owner
  pure (some room, az)

-- `output` of `handle_transaction`, a `defaultdict` of `Events(outgoing_txn_id)`
abbrev pub Output : Type 0 → Type 0
Output O = Dict ℕ (Events O)

module _ {O : Type 0} where
  -- `output[k]` is changed, and made first where it is not there.
  unfoldable pub at_key : Str → ℕ → (Events O → Events O) → Output O → Output O
  at_key txn_id k f out =
      Dict.set k (f (elim (Dict.get k out) [ none ↦ new_events txn_id | some e ↦ e ])) out

  abbrev pub add_pdu : Fields → Events O → Events O
  add_pdu event e = record e { pdu = e.pdu ++ event ∷ [] }

  abbrev pub add_edu : Fields → Events O → Events O
  add_edu event e = record e { edu = e.edu ++ event ∷ [] }

  unfoldable pub append_event : Bool → Fields → Json → Events O → Events O
  append_event ephemeral event type e =
      let e' : Events O = if ephemeral then add_edu event e else add_pdu event e in
      record e' { types = e'.types ++ type ∷ [] }

  -- The last three branches for an event with a room id.
  unfoldable pub to_room :
      Env → Str → Bool → Fields → Output O → Option ℕ × Option ℕ → Exec Store (Output O)
  unfolding type_of append_event at_key
  to_room env txn_id ephemeral event out (none, az) = pure out
  to_room env txn_id ephemeral event out (some r, az) = do
    room ← gets (λ (s : Store). read s.rooms r)
    owner ← gets (λ (s : Store). Option.map (λ a. (read s.azs a).owner) az)
    if room.deleted then pure out else do
      forward ← lift (if ephemeral then ok true else should_forward_pdu env owner event)
      if forward
          then pure (at_key txn_id room.owner (append_event ephemeral event (type_of event)) out)
          else pure out

  -- A to-device event. The counter of dropped events has two labels, and the branch without a
  -- target gives one of them.
  unfoldable pub to_device : Env → Str → Fields → Output O → Option ℕ → Exec Store (Output O)
  unfolding at_key
  to_device env txn_id event out (some az) = do
    id ← gets (λ (s : Store). (read s.azs az).id)
    pure (at_key txn_id id (add_edu event) out)
  to_device env txn_id event out none = if env.labels_checked then raise value_error else pure out

  -- An event with a room id.
  unfoldable pub collect_in_room : Env → Str → Bool → Fields → Output O → Exec Store (Output O)
  collect_in_room env txn_id ephemeral event out = do
    id ← lift (or_raise (get (text "room_id") event) key_error)
    room_id ← lift (as_key id)
    room ← Rooms.get room_id
    target ← find_target env ephemeral event room
    to_room env txn_id ephemeral event out target

  -- An event with no room id and the id of a user.
  unfoldable pub collect_for_user : Env → Str → Fields → Output O → Exec Store (Output O)
  collect_for_user env txn_id event out = do
    id ← lift (or_raise (get (text "to_user_id") event) key_error)
    user_id ← lift (as_str id)
    az ← get_az_from_user_id env user_id
    to_device env txn_id event out az

  -- The body of the loop of `_collect_events`
  unfoldable pub collect_event : Env → Str → Bool → Fields → Output O → Exec Store (Output O)
  collect_event env txn_id ephemeral event out = do
    redacted ← lift (is_redacted event)
    if redacted
        then pure out
        else if truthy_at (text "room_id") event
        then collect_in_room env txn_id ephemeral event out
        else if truthy_at (text "to_user_id") event
        then collect_for_user env txn_id event out
        else pure out

  -- `_collect_events`
  unfoldable pub collect_events : Env → Str → Bool → List Fields → Output O → Exec Store (Output O)
  collect_events env txn_id ephemeral [] out = pure out
  collect_events env txn_id ephemeral (event ∷ events) out = do
    out' ← collect_event env txn_id ephemeral event out
    collect_events env txn_id ephemeral events out'

  unfoldable pub add_otk : Str → Str → O → Output O → Option ℕ → Exec Store (Output O)
  unfolding at_key
  add_otk txn_id user_id count out none = pure out
  add_otk txn_id user_id count out (some az) = do
    id ← gets (λ (s : Store). (read s.azs az).id)
    pure (at_key txn_id id (λ e. record e { otk_count = Dict.set user_id count e.otk_count }) out)

  -- `_collect_otk_count`
  unfoldable pub collect_otk_count : Env → Str → List (Str × O) → Output O → Exec Store (Output O)
  unfolding add_otk
  collect_otk_count env txn_id [] out = pure out
  collect_otk_count env txn_id ((user_id, count) ∷ counts) out = do
    az ← get_az_from_user_id env user_id
    out' ← add_otk txn_id user_id count out az
    collect_otk_count env txn_id counts out'

  -- `data[UUID(synchronous_to[0])].device_lists = ...` where there is one such appservice
  unfoldable pub add_device_lists :
      Env → Str → List Str → Option DeviceLists → Output O → Result (Output O)
  unfolding at_key
  add_device_lists env txn_id (id ∷ []) lists out =
      let value : DeviceLists = elim lists [ none ↦ env.default_device_lists | some l ↦ l ] in
      elim (env.parse_uuid id) [
        | none ↦ err value_error
        | some az_id ↦ ok (at_key txn_id az_id (λ e. record e { device_lists = value }) out)
      ]
  add_device_lists env txn_id _ lists out = ok out

-- What a transaction of the homeserver holds; of `extra_data`, the two keys that are read.
pub record Transaction (O : Type 0) : Type 0 where
  pub txn_id : Str
  pub events : List Fields
  pub ephemeral : List Fields
  pub device_otk_count : List (Str × O)
  pub device_lists : Option DeviceLists
  pub syncproxy_transaction_id : Option Str
  pub synchronous_to : List Str

-- `extra_data.get("fi.mau.syncproxy.transaction_id", txn_id)`
unfoldable pub outgoing_txn_id : {O : Type 0} → Transaction O → Str
outgoing_txn_id t = elim t.syncproxy_transaction_id [ none ↦ t.txn_id | some id ↦ id ]

-- `handle_transaction` up to the call of `_send_transactions`
unfoldable pub sort_transaction : {O : Type 0} → Env → Transaction O → Exec Store (Output O)
unfolding outgoing_txn_id collect_events collect_otk_count add_device_lists
sort_transaction env t = do
  let txn_id = outgoing_txn_id t
  pdus ← collect_events env txn_id false t.events []
  edus ← collect_events env txn_id true t.ephemeral pdus
  counts ← collect_otk_count env txn_id t.device_otk_count edus
  lift (add_device_lists env txn_id t.synchronous_to t.device_lists counts)
