-- ===== src/Config.antt =====
-- The settings: `do_update` and `generate_registration` (mautrix_asmux/config.py). What the program
-- takes of mautrix.util.config is an interface, in which a configuration is read and changed by
-- paths such as "mux.redis".
pub mod Laws
pub mod Kept
use mautrix_asmux.Prelude.{
  ℕ, zero, suc, ◌-◌, Bool, true, false, not, ◌&&◌, ◌||◌, Option, none, some, List, [], ◌∷◌, ◌++◌,
  Str, text, str_eq, ◌==◌, nat_beq, if◌then◌else◌, is_empty, starts_with, length,
}
use mautrix_asmux.Errors.{Exn, type_error}
use mautrix_asmux.Result.{Result, ok, err, ◌>>=◌}
use mautrix_asmux.Json.{
  Json, null, bool, str, arr, obj, Items, nil, cons, Fields, end, field, is_text, as_str,
}

-- `config[path]`, `config.get(path, default)`, `path in config`, `config[path] = v`, and `copy` and
-- `copy_dict` of the update, from one configuration to another.
pub record Paths (C : Type 0) : Type 0 where
  pub value : Str → C → Json
  pub get_or : Str → Json → C → Json
  pub contains : Str → C → Bool
  pub set : Str → Json → C → C
  pub copy : Str → C → C → C
  pub copy_dict : Str → C → C → C

-- The paths that are copied, up to the shared secret, and behind the two endpoints.
abbrev pub first_paths : List Str
first_paths =
    text "homeserver.address"
    ∷ text "homeserver.domain"
    ∷ text "homeserver.login_shared_secret"
    ∷ text "appservice.address"
    ∷ text "appservice.id"
    ∷ text "appservice.bot_username"
    ∷ text "appservice.bot_displayname"
    ∷ text "appservice.bot_avatar"
    ∷ text "appservice.as_token"
    ∷ text "appservice.hs_token"
    ∷ text "segment.token"
    ∷ text "segment.host"
    ∷ text "sentry.enabled"
    ∷ text "sentry.dsn"
    ∷ text "metrics.enabled"
    ∷ text "metrics.port"
    ∷ text "mux.hostname"
    ∷ text "mux.port"
    ∷ text "mux.database"
    ∷ text "mux.public_address"
    ∷ []

abbrev pub last_paths : List Str
last_paths =
    text "mux.message_send_checkpoint_endpoint"
    ∷ text "mux.sync_proxy.url"
    ∷ text "mux.sync_proxy.token"
    ∷ text "mux.sync_proxy.asmux_address"
    ∷ text "mux.redis"
    ∷ text "logging"
    ∷ []

-- `s.replace(old, new)`, where the first `n` characters of `s` belong to what was replaced.
unfoldable pub replace_from : Str → Str → ℕ → Str → Str
replace_from old new n [] = []
replace_from old new zero (c ∷ s) =
    let skipped = replace_from old new (length old - 1) s in
    let kept = replace_from old new 0 s in
    if starts_with (c ∷ s) old then new ++ skipped else c ∷ kept
replace_from old new (suc n) (c ∷ s) = replace_from old new n s

-- `s.replace(old, new)`, for an `old` that is not empty
unfoldable pub replace : Str → Str → Str → Str
unfolding replace_from
replace old new s = replace_from old new 0 s

module _ {C : Type 0} (paths : Paths C) where
  unfoldable pub copy_all : List Str → C → C → C
  copy_all [] self base = base
  copy_all (path ∷ rest) self base = copy_all rest self (paths.copy path self base)

  unfoldable pub update_secret : Str → C → C → C
  update_secret new_token self base =
      let path = text "mux.shared_secret" in
      if is_text (text "generate") (some (paths.get_or path (str (text "generate")) self))
      then paths.set path (str new_token) base
      else paths.copy path self base

  unfoldable pub update_endpoints : C → C → Result C
  unfolding replace
  update_endpoints self base =
      let remote = text "mux.remote_status_endpoint" in
      let bridge = text "mux.bridge_status_endpoint" in
      let old = text "mux.status_endpoint" in
      if paths.contains old self
      then (do
        status ← as_str (paths.value old self)
        ok (
            paths.set bridge (str (replace (text "/state") (text "/bridge_state") status))
              (paths.set remote (str status) base)))
      else ok (paths.copy bridge self (paths.copy remote self base))

  -- `do_update`, from the old configuration to the one of the example; `new_token` is what
  -- `_new_token` draws.
  unfoldable pub do_update : Str → C → C → Result C
  unfolding copy_all update_secret update_endpoints
  do_update new_token self base =
      let one = update_secret new_token self (copy_all first_paths self base) in
      let two = paths.copy_dict (text "mux.bridge_config_template_files") self one in
      do three ← update_endpoints self two; ok (copy_all last_paths self three)

-- The characters that `re.escape` puts a backslash before: those of the table, and white space.
abbrev pub special : List ℕ
special = text "()[]{}?*+-|^$\\.&~# " ++ (9 ∷ 10 ∷ 13 ∷ 11 ∷ 12 ∷ [])

unfoldable pub is_special : ℕ → List ℕ → Bool
is_special c [] = false
is_special c (d ∷ l) = nat_beq c d || is_special c l

-- `re.escape(s)`
unfoldable pub escape : Str → Str
unfolding is_special
escape [] = []
escape (c ∷ s) = let rest = escape s in if is_special c special then 92 ∷ (c ∷ rest) else c ∷ rest

unfoldable pub escape_value : Json → Result Str
unfolding escape
escape_value (str s) = ok (escape s)
escape_value _ = err type_error

abbrev pub namespaces : Str → Str → Str → Json → Json
namespaces sigil prefix server_name exclusive = arr (
    cons
      (obj (
        field (text "regex") (str (sigil ++ (prefix ++ (text ".+:" ++ server_name))))
          (field (text "exclusive") exclusive end)))
      nil)

module _ {C : Type 0} (paths : Paths C) where
  unfoldable pub registration_of : Str → Str → Json → C → Fields
  registration_of prefix server_name exclusive self =
      field (text "id") (paths.value (text "appservice.id") self) (
        field (text "as_token") (paths.value (text "appservice.as_token") self) (
          field (text "hs_token") (paths.value (text "appservice.hs_token") self) (
            field (text "namespaces")
              (obj (
                field (text "users") (namespaces (text "@") prefix server_name exclusive) (
                  field (text "aliases") (namespaces (text "#") prefix server_name exclusive) end)))
              (field (text "url") (paths.value (text "appservice.address") self) (
                field (text "sender_localpart") (paths.value (text "appservice.bot_username") self)
                  (field (text "rate_limited") (bool false) (
                    field (text "push_ephemeral") (bool true)
                      (field (text "de.sorunome.msc2409.push_ephemeral") (bool true) end))))))))

  -- `generate_registration`, with the two tokens that `_new_token` draws: the registration, and the
  -- configuration with the tokens.
  unfoldable pub generate_registration : Str → Str → C → Result (Fields × C)
  unfolding escape_value registration_of
  generate_registration as_token hs_token self = do
    prefix ← escape_value (paths.value (text "appservice.namespace.prefix") self)
    server_name ← escape_value (paths.value (text "homeserver.domain") self)
    let exclusive = paths.value (text "appservice.namespace.exclusive") self in
        let one = paths.set (text "appservice.as_token") (str as_token) self in
        let two = paths.set (text "appservice.hs_token") (str hs_token) one in
        ok (registration_of prefix server_name exclusive two, two)
