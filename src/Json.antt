-- ===== src/Json.antt =====
-- Decoded JSON, with the Python operations that the program applies to it. Numbers are whole and
-- not negative.
pub mod Holding
pub mod Texts
use mautrix_asmux.Prelude.{
  ℕ, suc, Bool, true, false, not, Option, none, some, List, Str, str_eq, ◌==◌, nat_beq,
  if◌then◌else◌, is_empty, one_of, length,
}
use mautrix_asmux.Errors.{attribute_error, type_error}
use mautrix_asmux.Result.{Result, ok, err}

mutual
  pub data Json : Type 0 where
    null : Json
    bool : Bool → Json
    num : ℕ → Json
    str : Str → Json
    arr : Items → Json
    obj : Fields → Json

  pub data Items : Type 0 where
    nil : Items
    cons : Json → Items → Items

  pub data Fields : Type 0 where
    end : Fields
    field : Str → Json → Fields → Fields

-- `d.get(key)`
unfoldable pub get : Str → Fields → Option Json
get k end = none
get k (field j v d) = if j == k then some v else get k d

-- `d[k] = v`
unfoldable pub set_field : Str → Json → Fields → Fields
set_field k v end = field k v end
set_field k v (field j w d) = if j == k then field j v d else field j w (set_field k v d)

-- `bool(v)`
unfoldable pub truthy : Json → Bool
truthy null = false
truthy (bool b) = b
truthy (num n) = not (nat_beq n 0)
truthy (str s) = not (is_empty s)
truthy (arr nil) = false
truthy (arr (cons _ _)) = true
truthy (obj end) = false
truthy (obj (field _ _ _)) = true

-- `bool(d.get(key))`
unfoldable pub truthy_at : Str → Fields → Bool
truthy_at k d = elim (get k d) [ none ↦ false | some v ↦ truthy v ]

-- A method of `dict` called on `v`.
unfoldable pub as_dict : Json → Result Fields
as_dict (obj d) = ok d
as_dict _ = err attribute_error

-- A method of `str` called on `v`.
unfoldable pub as_str : Json → Result Str
as_str (str s) = ok s
as_str _ = err attribute_error

-- `v in (...)` for a tuple of texts
unfoldable pub is_one_of : Option Json → List Str → Bool
is_one_of (some (str s)) l = one_of s l
is_one_of _ l = false

unfoldable pub is_text : Str → Option Json → Bool
is_text t (some (str s)) = s == t
is_text t _ = false

count_items : Items → ℕ
count_items nil = 0
count_items (cons _ r) = suc (count_items r)

count_fields : Fields → ℕ
count_fields end = 0
count_fields (field _ _ r) = suc (count_fields r)

-- `len(v)`
unfoldable pub json_len : Json → Result ℕ
unfolding count_items count_fields
json_len (str s) = ok (length s)
json_len (arr l) = ok (count_items l)
json_len (obj d) = ok (count_fields d)
json_len _ = err type_error
