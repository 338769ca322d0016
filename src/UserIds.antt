-- ===== src/UserIds.antt =====
-- Matrix user ids of bridge users, `@<namespace><owner>_<prefix>_<rest>:<domain>`: how
-- mautrix_asmux/api/as_proxy.py and mautrix_asmux/api/cs_proxy.py take them apart.
pub mod RoundTrip
use mautrix_asmux.Prelude.{
  ℕ, zero, suc, ◌-◌, Bool, true, false, Option, none, some, List, [], ◌∷◌, ◌++◌, Str, text, str_eq,
  nat_beq, if◌then◌else◌, length, take, drop, starts_with, ends_with, is_empty, not, ◌||◌,
}
use mathlib.Core.Option
use mautrix_asmux.Errors.{Exn}
use mautrix_asmux.Result.{Result, ok, err}
use mautrix_asmux.Exec.{Exec, pure, ◌>>=◌}
use mautrix_asmux.Env.{Env}
use mautrix_asmux.Store.{Store}
use mautrix_asmux.Database.Azs

-- `s[a:-b]`. Python reads `-0` as 0, so that `s[a:-0]` is empty.
unfoldable pub slice_between : Str → ℕ → ℕ → Str
slice_between s a b = if nat_beq b 0 then [] else take (length s - b - a) (drop a s)

abbrev pub underscore : ℕ
underscore = b'_'

-- The text before the first `_` and the text behind it.
unfoldable pub split_once : Str → Option (Str × Str)
split_once [] = none
split_once (c ∷ s) =
    let rest = split_once s in
    if nat_beq c underscore
    then some ([], s)
    else elim rest [ none ↦ none | some (before, behind) ↦ some (c ∷ before, behind) ]

-- `owner, prefix, _ = s.split("_", 2)`, `none` where it raises `ValueError`
unfoldable pub split_localpart : Str → Option (Str × Str)
unfolding split_once
split_localpart s = elim (split_once s) [
  | none ↦ none
  | some (owner, rest) ↦ elim (split_once rest) [
    | none ↦ none
    | some (prefix, _) ↦ some (owner, prefix)
  ]
]

-- The owner and the prefix that a user id names, where it lies in the namespace.
unfoldable pub parse_user_id : Env → Str → Option (Str × Str)
unfolding slice_between split_localpart
parse_user_id env user_id =
    if is_empty user_id
      || (not (starts_with user_id env.mxid_prefix) || not (ends_with user_id env.mxid_suffix))
    then none
    else split_localpart (slice_between user_id (length env.mxid_prefix) (length env.mxid_suffix))

unfoldable pub find_named : Option (Str × Str) → Exec Store (Option ℕ)
find_named none = pure none
find_named (some (owner, prefix)) = Azs.find owner prefix

-- `AppServiceProxy._get_az_from_user_id`
unfoldable pub get_az_from_user_id : Env → Str → Exec Store (Option ℕ)
unfolding parse_user_id find_named
get_az_from_user_id env user_id = find_named (parse_user_id env user_id)
