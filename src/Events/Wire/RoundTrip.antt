-- ===== src/Events/Wire/RoundTrip.antt =====
-- A transaction that is written to the Redis stream is read back whole
-- (mautrix_asmux/api/as_util.py).
use mautrix_asmux.Prelude.{
  ◌≡◌, refl, Bool, true, false, not, ◌||◌, none, some, List, [], ◌∷◌, Str, text, str_eq, str_beq,
  if◌then◌else◌, is_empty, one_of, arith,
}
use mautrix_asmux.Result.{ok}
use mautrix_asmux.Json.{Json, arr, obj, str, Fields, get, truthy, as_dict}
use mautrix_asmux.Dict.{Dict}
use mautrix_asmux.Env.{DeviceLists}
use mautrix_asmux.Events.{Events}
use mautrix_asmux.Events.Wire.{
  Codec, dicts, values, as_dicts, as_values, has_unknown, pop_dicts, pop_values, text_or_empty,
  otk_fields, as_otk, serialize, pop_otk, pop_lists, deserialize,
}

-- What the two types of `mautrix.types` promise: what is serialized is deserialized, and device
-- lists that are not both empty make a dict that is not empty.
pub record IsLossless {O : Type 0} (codec : Codec O) : Type 0 where
  pub otk : (o : O) → codec.otk_deserialize (codec.otk_serialize o) ≡ ok o
  pub lists : (l : DeviceLists) → codec.lists_deserialize (codec.lists_serialize l) ≡ ok l
  pub lists_truthy :
      (l : DeviceLists)
      → (not (is_empty l.changed) || not (is_empty l.left)) ≡ true
      → truthy (codec.lists_serialize l) ≡ true

as_dicts-dicts : (ds : List Fields) → as_dicts (dicts ds) ≡ ok ds
unfolding as_dicts dicts as_dict
as_dicts-dicts [] = refl
as_dicts-dicts (d ∷ ds) = ground (arith, as_dicts-dicts ds)

as_values-values : (vs : List Json) → as_values (values vs) ≡ vs
unfolding as_values values
as_values-values [] = refl
as_values-values (v ∷ vs) = rw (as_values-values vs)

module _ {O : Type 0} (codec : Codec O) (e : Events O) where
  abbrev any_lists : Bool
  any_lists = not (is_empty e.device_lists.changed) || not (is_empty e.device_lists.left)

  -- What stands under each key.
  get_txn_id : get (text "txn_id") (serialize codec e) ≡ some (str e.txn_id)
  unfolding serialize get str_beq text
  get_txn_id = refl

  get_events : get (text "events") (serialize codec e) ≡ some (arr (dicts e.pdu))
  unfolding serialize get str_beq text
  get_events = refl

  get_ephemeral :
      get (text "ephemeral") (serialize codec e)
      ≡ (if is_empty e.edu then none else some (arr (dicts e.edu)))
  unfolding serialize get str_beq text
  get_ephemeral = ground arith

  get_types :
      get (text "types") (serialize codec e)
      ≡ (if is_empty e.types then none else some (arr (values e.types)))
  unfolding serialize get str_beq text
  get_types = ground arith

  get_otk :
      get (text "device_one_time_keys_count") (serialize codec e)
      ≡ (if is_empty e.otk_count then none else some (obj (otk_fields codec e.otk_count)))
  unfolding serialize get str_beq text
  get_otk = ground arith

  get_lists :
      get (text "device_lists") (serialize codec e)
      ≡ (if any_lists then some (codec.lists_serialize e.device_lists) else none)
  unfolding serialize get str_beq text
  get_lists = ground arith

  has_unknown-serialize : has_unknown (serialize codec e) ≡ false
  unfolding has_unknown serialize one_of str_beq text
  has_unknown-serialize = ground arith

module _ {O : Type 0} (codec : Codec O) (law : IsLossless codec) where
  as_otk-otk_fields : (d : Dict Str O) → as_otk codec (otk_fields codec d) ≡ ok d
  unfolding as_otk otk_fields
  as_otk-otk_fields [] = refl
  as_otk-otk_fields ((uid, o) ∷ d) = ground (arith, law.otk o, as_otk-otk_fields d)

  pop_otk_lem :
      (d : Dict Str O) (fs : Fields)
      → get (text "device_one_time_keys_count") fs
        ≡ (if is_empty d then none else some (obj (otk_fields codec d)))
      → pop_otk codec fs ≡ ok d
  unfolding pop_otk truthy as_dict otk_fields
  pop_otk_lem [] fs h = ground arith
  pop_otk_lem ((uid, o) ∷ d) fs h = ground (arith, law.otk o, as_otk-otk_fields d)

  pop_lists_lem :
      (l : DeviceLists) (fs : Fields)
      → get (text "device_lists") fs ≡ (
          if not (is_empty l.changed) || not (is_empty l.left)
          then some (codec.lists_serialize l)
          else none)
      → pop_lists codec fs ≡ ok l
  unfolding pop_lists
  pop_lists_lem l fs h = ground (arith, law.lists l, law.lists_truthy l)

pop_dicts_lem :
    (k : Str) (ds : List Fields) (fs : Fields)
    → get k fs ≡ (if is_empty ds then none else some (arr (dicts ds)))
    → pop_dicts k fs ≡ ok ds
unfolding pop_dicts
pop_dicts_lem k [] fs h = ground arith
pop_dicts_lem k (d ∷ ds) fs h = ground (arith, as_dicts-dicts (d ∷ ds))

pop_values_lem :
    (k : Str) (vs : List Json) (fs : Fields)
    → get k fs ≡ (if is_empty vs then none else some (arr (values vs)))
    → pop_values k fs ≡ ok vs
unfolding pop_values
pop_values_lem k [] fs h = ground arith
pop_values_lem k (v ∷ vs) fs h = ground (arith, as_values-values (v ∷ vs))

pop_events_lem :
    (ds : List Fields) (fs : Fields)
    → get (text "events") fs ≡ some (arr (dicts ds))
    → pop_dicts (text "events") fs ≡ ok ds
unfolding pop_dicts
pop_events_lem ds fs h = ground (arith, as_dicts-dicts ds)

-- Where the types of `mautrix.types` are lossless, every transaction that is serialized is
-- deserialized to itself.
pub deserialize-serialize :
    {O : Type 0} (codec : Codec O)
    → IsLossless codec
    → (e : Events O) → deserialize codec (serialize codec e) ≡ ok e
unfolding deserialize text_or_empty
deserialize-serialize codec law e =
    let fs : Fields = serialize codec e in
    ground (
      arith,
      pop_events_lem e.pdu fs (get_events codec e),
      pop_dicts_lem (text "ephemeral") e.edu fs (get_ephemeral codec e),
      pop_values_lem (text "types") e.types fs (get_types codec e),
      pop_otk_lem codec law e.otk_count fs (get_otk codec e),
      pop_lists_lem codec law e.device_lists fs (get_lists codec e),
      get_txn_id codec e,
      has_unknown-serialize codec e,
    )
