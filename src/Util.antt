-- ===== src/Util.antt =====
-- mautrix_asmux/util.py: which events come from a bridge itself, and which are forwarded to one.
use mautrix_asmux.Prelude.{
  Bool, true, false, not, ◌&&◌, Option, none, some, List, [], ◌∷◌, ◌++◌, Str, text, str_eq,
  if◌then◌else◌, one_of,
}
use mautrix_asmux.Errors.{type_error}
use mautrix_asmux.Result.{Result, ok, err, ◌>>=◌}
use mautrix_asmux.Json.{
  Json, arr, obj, str, Fields, end, get, truthy, truthy_at, as_dict, is_one_of, is_text,
}
use mautrix_asmux.Env.{Env}

-- BRIDGE_DOUBLE_PUPPET_INDICATORS
abbrev pub bridges : List Str
bridges =
    text "amp"
    ∷ text "facebook"
    ∷ text "googlechat"
    ∷ text "hangouts"
    ∷ text "imessage"
    ∷ text "instagram"
    ∷ text "signal"
    ∷ text "telegram"
    ∷ text "twitter"
    ∷ text "whatsapp"
    ∷ []

-- `f"net.maunium.{bridge}.puppet"`
unfoldable pub puppet_key : Str → Str
puppet_key bridge = text "net.maunium." ++ (bridge ++ text ".puppet")

unfoldable pub any_puppet : List Str → Fields → Bool
unfolding puppet_key
any_puppet [] content = false
any_puppet (b ∷ bs) content =
    if truthy_at (puppet_key b) content then true else any_puppet bs content

-- `event.get("content") or {}`, of which the program then calls `get`
unfoldable pub content_of : Fields → Result Fields
content_of event = elim (get (text "content") event) [
  | none ↦ ok end
  | some v ↦ if truthy v then as_dict v else ok end
]

unfoldable pub puppet_content : Fields → Bool
unfolding any_puppet
puppet_content content =
    if truthy_at (text "fi.mau.double_puppet_source") content
    then true
    else if truthy_at (text "com.beeper.linkedin.puppet") content
    then true
    else if any_puppet bridges content
    then true
    else is_one_of (get (text "source") content) (text "slack" ∷ text "discord" ∷ [])

unfoldable pub is_double_puppeted : Fields → Result Bool
unfolding content_of puppet_content
is_double_puppeted event = do content ← content_of event; ok (puppet_content content)

-- `v in CHECKPOINT_TYPES_STR`, a frozenset: a list or a dict cannot be hashed.
unfoldable pub in_set : Option Json → List Str → Result Bool
in_set (some (str s)) l = ok (one_of s l)
in_set (some (arr _)) l = err type_error
in_set (some (obj _)) l = err type_error
in_set _ l = ok false

-- `f"@{az.owner}{mxid_suffix}"`
unfoldable pub owner_mxid : Env → Str → Str
owner_mxid env owner = text "@" ++ (owner ++ env.mxid_suffix)

-- `not az or event.get("sender") == f"@{az.owner}{mxid_suffix}"`, for the owner of `az`
unfoldable pub sender_allowed : Env → Option Str → Fields → Bool
unfolding owner_mxid
sender_allowed env none event = true
sender_allowed env (some owner) event = is_text (owner_mxid env owner) (get (text "sender") event)

unfoldable pub and_not_puppeted : Bool → Fields → Result Bool
unfolding is_double_puppeted
and_not_puppeted false event = ok false
and_not_puppeted true event = do p ← is_double_puppeted event; ok (not p)

unfoldable pub should_forward_pdu : Env → Option Str → Fields → Result Bool
unfolding in_set sender_allowed and_not_puppeted
should_forward_pdu env owner event = do
  known ← in_set (get (text "type") event) env.checkpoint_types
  and_not_puppeted (known && sender_allowed env owner event) event
