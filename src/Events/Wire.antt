-- ===== src/Events/Wire.antt =====
-- `Events.serialize` and `Events.deserialize` (mautrix_asmux/api/as_util.py), the form in which a
-- transaction stands in the Redis stream.
pub mod RoundTrip
use mautrix_asmux.Prelude.{
  ℕ, ◌≡◌, Bool, true, false, not, ◌&&◌, ◌||◌, Option, none, some, List, [], ◌∷◌, ◌++◌, Str, text,
  str_eq, if◌then◌else◌, is_empty, one_of,
}
use mautrix_asmux.Errors.{Exn, type_error, attribute_error}
use mautrix_asmux.Result.{Result, ok, err, ◌>>=◌, ◌>>◌, raise_if}
use mautrix_asmux.Json.{
  Json, arr, obj, str, Items, nil, cons, Fields, end, field, get, truthy, as_dict,
}
use mautrix_asmux.Dict.{Dict}
use mautrix_asmux.Env.{DeviceLists}
use mautrix_asmux.Events.{Events}

-- The `serialize` and `deserialize` of the two types of `mautrix.types`.
pub record Codec (O : Type 0) : Type 0 where
  pub otk_serialize : O → Json
  pub otk_deserialize : Json → Result O
  pub lists_serialize : DeviceLists → Json
  pub lists_deserialize : Json → Result DeviceLists

-- A list of dicts, as JSON.
unfoldable pub dicts : List Fields → Items
dicts [] = nil
dicts (d ∷ ds) = cons (obj d) (dicts ds)

unfoldable pub values : List Json → Items
values [] = nil
values (v ∷ vs) = cons v (values vs)

unfoldable pub as_dicts : Items → Result (List Fields)
as_dicts nil = ok []
as_dicts (cons v vs) = do d ← as_dict v; ds ← as_dicts vs; ok (d ∷ ds)

unfoldable pub as_values : Items → List Json
as_values nil = []
as_values (cons v vs) = v ∷ as_values vs

-- `output[key] = v` behind a test
unfoldable pub field_if : Bool → Str → Json → Fields → Fields
field_if true k v d = field k v d
field_if false k v d = d

-- The keys that `deserialize` takes out of the dict or hands to the constructor.
abbrev pub wire_keys : List Str
wire_keys =
    text "events"
    ∷ text "ephemeral"
    ∷ text "types"
    ∷ text "device_one_time_keys_count"
    ∷ text "device_lists"
    ∷ text "txn_id"
    ∷ []

-- An argument that the constructor does not have is a `TypeError`. The constructor's own names `pdu`,
-- `edu` and `otk_count` count as such here: `serialize` does not write them.
unfoldable pub has_unknown : Fields → Bool
has_unknown end = false
has_unknown (field k _ d) = not (one_of k wire_keys) || has_unknown d

-- `data.pop(key, [])` of a list of dicts
unfoldable pub pop_dicts : Str → Fields → Result (List Fields)
unfolding as_dicts
pop_dicts k d = elim (get k d) [
  | none ↦ ok []
  | some (arr l) ↦ as_dicts l
  | some _ ↦ err type_error
]

unfoldable pub pop_values : Str → Fields → Result (List Json)
unfolding as_values
pop_values k d = elim (get k d) [
  | none ↦ ok []
  | some (arr l) ↦ ok (as_values l)
  | some _ ↦ err type_error
]

unfoldable pub text_or_empty : Option Json → Result Str
text_or_empty none = ok []
text_or_empty (some (str s)) = ok s
text_or_empty (some _) = err type_error

module _ {O : Type 0} (codec : Codec O) where
  open codec use {otk_serialize, otk_deserialize, lists_serialize, lists_deserialize}

  unfoldable pub otk_fields : Dict Str O → Fields
  otk_fields [] = end
  otk_fields ((uid, count) ∷ counts) = field uid (otk_serialize count) (otk_fields counts)

  unfoldable pub as_otk : Fields → Result (Dict Str O)
  as_otk end = ok []
  as_otk (field uid v d) = do
    count ← otk_deserialize v
    counts ← as_otk d
    ok ((uid, count) ∷ counts)

  unfoldable pub serialize : Events O → Fields
  unfolding dicts values field_if otk_fields
  serialize e = field (text "txn_id") (str e.txn_id) (
      field (text "events") (arr (dicts e.pdu)) (
        field_if (not (is_empty e.edu)) (text "ephemeral") (arr (dicts e.edu)) (
          field_if (not (is_empty e.types)) (text "types") (arr (values e.types)) (
            field_if (not (is_empty e.otk_count)) (text "device_one_time_keys_count")
              (obj (otk_fields e.otk_count))
              (field_if
                (not (is_empty e.device_lists.changed) || not (is_empty e.device_lists.left))
                (text "device_lists") (lists_serialize e.device_lists) end)))))

  unfoldable pub pop_otk : Fields → Result (Dict Str O)
  unfolding as_otk
  pop_otk d = elim (get (text "device_one_time_keys_count") d) [
    | none ↦ ok []
    | some v ↦ if truthy v then (do counts ← as_dict v; as_otk counts) else ok []
  ]

  -- A value that is false in Python would stay as it is and break the first use of `device_lists`;
  -- here that is a `TypeError` at once. `serialize` writes none.
  unfoldable pub pop_lists : Fields → Result DeviceLists
  pop_lists d = elim (get (text "device_lists") d) [
    | none ↦ ok (record { changed = []; left = [] })
    | some v ↦ if truthy v then lists_deserialize v else err type_error
  ]

  unfoldable pub deserialize : Fields → Result (Events O)
  unfolding has_unknown pop_dicts pop_values pop_otk pop_lists text_or_empty
  deserialize d = do
    pdu ← pop_dicts (text "events") d
    edu ← pop_dicts (text "ephemeral") d
    types ← pop_values (text "types") d
    otk_count ← pop_otk d
    device_lists ← pop_lists d
    txn_id ← text_or_empty (get (text "txn_id") d)
    raise_if (has_unknown d) type_error
    ok (record {
      txn_id = txn_id;
      pdu = pdu;
      edu = edu;
      types = types;
      otk_count = otk_count;
      device_lists = device_lists;
    })
