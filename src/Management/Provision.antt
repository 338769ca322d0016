-- ===== src/Management/Provision.antt =====
-- `provision_appservice` and `_make_registration` of mautrix_asmux/api/management_api.py. A request
-- to the homeserver or to Redis is a part of the result.
pub mod Lifetimes
pub mod Owned
pub mod Again
use mautrix_asmux.Prelude.{
  ℕ, ◌+◌, Bool, true, false, not, Option, none, some, [], ◌++◌, Str, text, str_eq, ltb,
  if◌then◌else◌, is_empty,
}
use mautrix_asmux.Errors.{http, HttpError}
use mautrix_asmux.Exec.{Exec, pure, gets, modify, raise_if, ◌>>=◌, ◌>>◌}
use mautrix_asmux.Env.{Env}
use mautrix_asmux.Store.{Store, User, AppService, read, write}
use mautrix_asmux.Database.Users
use mautrix_asmux.Database.Azs
use mautrix_asmux.Database.Azs.{Fresh}
use mautrix_asmux.Database.Azs.Passwords.{Base32, generate_password}
use mautrix_asmux.Management.{
  Access, root, by_user, Target, by_id, by_name, is_part, is_other, get_by_id, fail,
}

-- The body of the request: each key is absent, or its value has the type of the column.
pub record Body : Type 0 where
  pub bot : Option Str
  pub address : Option Str
  pub push : Option Bool
  pub generate_config : Bool
  pub lifetime : Option ℕ

-- What is drawn at random, and the clock.
pub record Draws : Type 0 where
  pub api_token : Str
  pub login_token : Str
  pub fresh : Fresh
  pub token : Str
  pub now : ℕ

-- `data.get(key, default)`
unfoldable pub get_or : {A : Type 0} → A → Option A → A
get_or default none = default
get_or default (some a) = a

-- The user to whom the appservice is given.
unfoldable pub owner_of : Access → Str → Draws → Exec Store ℕ
unfolding is_other
owner_of root owner draws = Users.get_or_create owner draws.api_token draws.login_token
owner_of (by_user user direct) owner draws = do
  denied ← gets (is_other (by_user user direct) owner)
  raise_if denied (http HttpError.appservice_access_denied)
  pure user

-- `az.login_token = user.login_token`
unfoldable pub set_login_token : ℕ → Str → Store → Store
set_login_token r token s = record s {
  azs = write r (record (read s.azs r) { login_token = some token }) s.azs;
}

-- The appservice of a user, with his login token.
unfoldable pub make_for : ℕ → Str → Body → Draws → Exec Store ℕ
unfolding get_or set_login_token
make_for user prefix body draws = do
  row ← gets (λ (s : Store). read s.users user)
  r ←
      Azs.find_or_create row prefix (get_or (text "bot") body.bot) (get_or [] body.address)
        (get_or true body.push) draws.fresh
  modify (set_login_token r row.login_token)
  pure r

-- The body of the branch that has an owner and a prefix in the path.
unfoldable pub get_or_make : Access → Str → Str → Body → Draws → Exec Store ℕ
unfolding is_part owner_of make_for
get_or_make access owner prefix body draws = do
  raise_if (not (is_part owner)) (http HttpError.invalid_owner)
  raise_if (not (is_part prefix)) (http HttpError.invalid_prefix)
  user ← owner_of access owner draws
  make_for user prefix body draws

unfoldable pub provisioned : Env → Access → Target → Body → Draws → Exec Store ℕ
unfolding get_or_make
provisioned env access (by_id id) body draws = get_by_id access (env.parse_uuid id)
provisioned env access (by_name owner prefix) body draws =
    get_or_make access owner prefix body draws

-- The part under `if not az.created_`, with the id that is published to the other instances.
unfoldable pub refresh : ℕ → Body → Bool → Exec Store (Option ℕ)
refresh r body true = pure none
refresh r body false = do
  Azs.set_address r body.address
  Azs.set_push r body.push
  id ← gets (λ (s : Store). (read s.azs r).id)
  pure (some id)

-- `DEFAULT_CFG_LIFETIME`, `MIN_CFG_LIFETIME` and `MAX_CFG_LIFETIME`, in seconds
abbrev pub default_cfg_lifetime : ℕ
default_cfg_lifetime = 300

abbrev pub min_cfg_lifetime : ℕ
min_cfg_lifetime = 30

abbrev pub max_cfg_lifetime : ℕ
max_cfg_lifetime = 3600

abbrev pub min : ℕ → ℕ → ℕ
min a b = if ltb b a then b else a

abbrev pub max : ℕ → ℕ → ℕ
max a b = if ltb a b then b else a

unfoldable pub lifetime_of : Body → ℕ
unfolding get_or
lifetime_of body =
    max (min (get_or default_cfg_lifetime body.lifetime) max_cfg_lifetime) min_cfg_lifetime

-- `has_template` says which prefixes `config_templates` has.
unfoldable pub make_config :
    Base32 → (Str → Bool) → ℕ → Body → Draws → Bool → Exec Store (Option (Str × ℕ))
unfolding lifetime_of generate_password
make_config base32 has_template r body draws false = pure none
make_config base32 has_template r body draws true = do
  prefix ← gets (λ (s : Store). (read s.azs r).prefix)
  raise_if (not (has_template prefix)) (http HttpError.config_download_unsupported)
  password ← generate_password base32 r draws.token (some (lifetime_of body)) draws.now
  pure (some (password, lifetime_of body))

-- The response: the status, and what the registration has of the appservice.
pub record Registration : Type 0 where
  pub az : AppService
  pub config : Option (Str × ℕ)
  pub status : ℕ
  pub published : Option ℕ

-- `az.created_ = False`
unfoldable pub settle : ℕ → Store → Store
settle r s = record s { azs = write r (record (read s.azs r) { created_ = false }) s.azs }

-- `if config_password`
unfoldable pub shown : Option (Str × ℕ) → Option (Str × ℕ)
shown none = none
shown (some (password, lifetime)) = if is_empty password then none else some (password, lifetime)

unfoldable pub respond : ℕ → Option (Str × ℕ) → Option ℕ → Exec Store Registration
unfolding settle shown
respond r config published = do
  az ← gets (λ (s : Store). read s.azs r)
  modify (settle r)
  settled ← gets (λ (s : Store). read s.azs r)
  pure (record {
    az = settled;
    config = shown config;
    status = if az.created_ then 201 else 200;
    published = published;
  })

-- Behind the lookup of the appservice.
unfoldable pub update : Base32 → (Str → Bool) → Body → Draws → ℕ → Exec Store Registration
unfolding refresh make_config respond
update base32 has_template body draws r = do
  created ← gets (λ (s : Store). (read s.azs r).created_)
  published ← refresh r body created
  config ← make_config base32 has_template r body draws body.generate_config
  respond r config published

unfoldable pub provision_body :
    Base32 → (Str → Bool) → Env → Access → Target → Body → Draws → Exec Store Registration
unfolding provisioned update
provision_body base32 has_template env access target body draws = do
  r ← provisioned env access target body draws
  update base32 has_template body draws r

-- `none` is a body that is not JSON.
unfoldable pub provision_appservice :
    Base32 → (Str → Bool) → Env → Access → Target → Option Body → Draws → Exec Store Registration
unfolding provision_body
provision_appservice base32 has_template env access target none draws =
    fail HttpError.request_not_json
provision_appservice base32 has_template env access target (some body) draws =
    provision_body base32 has_template env access target body draws
