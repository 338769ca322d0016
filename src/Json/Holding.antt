-- ===== src/Json/Holding.antt =====
-- `in` and the subscript of Python on a decoded value.
use mautrix_asmux.Prelude.{
  Bool, false, ◌||◌, Option, none, some, [], ◌∷◌, Str, str_eq, is_empty, starts_with, is_some,
  if◌then◌else◌,
}
use mautrix_asmux.Errors.{key_error, type_error}
use mautrix_asmux.Result.{Result, ok, err, or_raise, ◌>>=◌}
use mautrix_asmux.Json.{Json, str, arr, obj, Items, nil, cons, get, is_text}

-- `t in s`
unfoldable pub has_part : Str → Str → Bool
has_part t [] = is_empty t
has_part t (c ∷ s) = starts_with (c ∷ s) t || has_part t s

unfoldable pub has_item : Str → Items → Bool
has_item t nil = false
has_item t (cons v l) = is_text t (some v) || has_item t l

-- `t in v`
unfoldable pub holds : Str → Json → Result Bool
unfolding has_part has_item
holds t (obj d) = ok (is_some (get t d))
holds t (str s) = ok (has_part t s)
holds t (arr l) = ok (has_item t l)
holds t _ = err type_error

-- `v[t]`
unfoldable pub item : Str → Json → Result Json
item t (obj d) = or_raise (get t d) key_error
item t _ = err type_error

-- `v[t]` where `t in v`
unfoldable pub held_item : Str → Json → Result (Option Json)
unfolding holds item
held_item t v = do there ← holds t v; if there then (do w ← item t v; ok (some w)) else ok none
