-- ===== src/Management/Downloads/Redirect.antt =====
-- The two steps of a download: `register_config` redirects to `download_config`
-- (mautrix_asmux/api/management_api.py).
use mautrix_asmux.Prelude.{
  ℕ, ◌≡◌, refl, true, Option, none, some, Str, str_eq, str_beq_iff, nat_eq, pair_eq, arith, inl,
  inr,
}
use mautrix_asmux.Result.{ok, Result-cases}
use mautrix_asmux.Json.{Json}
use mautrix_asmux.Dict
use mautrix_asmux.Dict.{Dict, get-set}
use mautrix_asmux.Store.{Store, AppService, AzRow, read}
use mautrix_asmux.Database.Azs
use mautrix_asmux.Database.Azs.{change}
use mautrix_asmux.Database.Azs.Keyed.{IsKeyed}
use mautrix_asmux.Database.Azs.Calls.{HasOwner, owner-find, owner-select, id-join}
use mautrix_asmux.Database.Azs.Passwords.{
  Base32, rstrip, rstrip-encode, is_expired, generate_password, check_password,
  check_password-generate_password,
}
use mautrix_asmux.Management.Downloads.{
  authorize_found, authorize_config_download, register_config, download_config, configure_imessage,
  Addresses, Location,
}
use mautrix_asmux.Management.Downloads.Authorized.{authorized}

load_cached :
    (owner prefix : Str) (az : Option AppService) (r : ℕ) (s : Store)
    → ((b : AppService) → az ≡ some b → HasOwner owner prefix b)
    → (Azs.load az s).0 ≡ ok (some r)
    → Dict.get (owner, prefix) (Azs.load az s).1.az_by_owner ≡ some r
unfolding Azs.load Azs.new_az Azs.add_to_cache
load_cached owner prefix none r s h e = ground arith
load_cached owner prefix (some b) r s h e = ground (
  arith,
  h b refl,
  str_beq_iff b.owner owner,
  str_beq_iff b.prefix prefix,
  get-set (b.owner, b.prefix) (owner, prefix) s.azs.fresh s.az_by_owner,
)

-- What `find` returned is cached.
find_cached :
    (owner prefix : Str) (r : ℕ) (s : Store)
    → (Azs.find owner prefix s).0 ≡ ok (some r)
    → Dict.get (owner, prefix) (Azs.find owner prefix s).1.az_by_owner ≡ some r
unfolding Azs.find
find_cached owner prefix r s e =
    let row : Option AzRow = Azs.select_by_owner owner prefix s.az_table in
    ground (
      arith,
      load_cached owner prefix (Azs.join s.user_table row) r s
          (λ b q. owner-select owner prefix s.az_table b.row (id-join s.user_table row b q)),
    )

find_again :
    (owner prefix : Str) (r : ℕ) (s : Store)
    → Dict.get (owner, prefix) s.az_by_owner ≡ some r
    → Azs.find owner prefix s ≡ (ok (some r), s)
unfolding Azs.find
find_again owner prefix r s cached = rw (cached, Azs.find) refl

module _ (base32 : Base32) where
  generate_password_cached :
      (r : ℕ) (token : Str) (now : ℕ) (s : Store)
      → (generate_password base32 r token none now s).1.az_by_owner ≡ s.az_by_owner
  unfolding generate_password change
  generate_password_cached r token now s = refl

  generate_password_owner :
      (r : ℕ) (token : Str) (now : ℕ) (owner prefix : Str) (s : Store)
      → HasOwner owner prefix (read s.azs r)
      → HasOwner owner prefix (read ((generate_password base32 r token none now s).1).azs r)
  unfolding generate_password change
  generate_password_owner r token now owner prefix s h = ground arith

  -- The parts of a `register_config` that returns.
  redirected :
      (username prefix password token : Str) (now : ℕ) (s : Store) (loc : Location)
      → (register_config base32 prefix (some (username, password)) token now s).0 ≡ ok loc
      → (r : ℕ) × ((authorize_config_download base32 prefix (some (username, password)) now s).0
          ≡ ok r)
        × ((register_config base32 prefix (some (username, password)) token now s).1
            ≡ (generate_password base32 r token none now
                (authorize_config_download base32 prefix (some (username, password)) now s).1).1)
        × (loc.user
            ≡ (read
                ((generate_password base32 r token none now
                    (authorize_config_download base32 prefix (some (username, password)) now s).1).1
                  ).azs
                r).owner)
        × (loc.password ≡ rstrip (base32.encode token))
  unfolding register_config generate_password
  redirected username prefix password token now s loc e =
      elim (Result-cases
        (authorize_config_download base32 prefix (some (username, password)) now s).0) [
          | inl (r, returned) ↦ (r, returned, ground arith, ground arith, ground arith)
          | inr (x, raised) ↦ ground arith
        ]

  right :
      (token : Str) (r now later : ℕ) (s : Store)
      → check_password base32
          (read ((generate_password base32 r token none now s).1).azs r).row
          (rstrip (base32.encode token))
          later
        ≡ ok true
  unfolding is_expired
  right token r now later s = rw (rstrip-encode base32 token) (
      (check_password-generate_password base32 r token none now later s (base32.body token)
        (base32.upper_body token) refl).1)

  -- A right password that does not expire opens the cached appservice.
  opened :
      (owner prefix token : Str) (r now later : ℕ) (s : Store)
      → Dict.get (owner, prefix) s.az_by_owner ≡ some r
      → authorize_config_download base32 prefix
          (some (owner, rstrip (base32.encode token)))
          later
          (generate_password base32 r token none now s).1
        ≡ (ok r, (generate_password base32 r token none now s).1)
  unfolding authorize_config_download authorize_found
  opened owner prefix token r now later s cached =
      let t = (generate_password base32 r token none now s).1 in
      let hit = find_again owner prefix r t (rw (generate_password_cached r token now s) cached) in
      rw hit (ground (arith, right token r now later s))

  downloaded :
      (env : Addresses) (template : Dict Str Json) (prefix username password : Str) (now r : ℕ)
      (s : Store)
      → authorize_config_download base32 prefix (some (username, password)) now s ≡ (ok r, s)
      → (download_config base32 env template prefix (some (username, password)) now s).0
        ≡ ok (configure_imessage env (read s.azs r) template)
  unfolding download_config
  downloaded env template prefix username password now r s e = rw e refl

  -- In a keyed store, where `register_config` redirects with the username of the request and a new
  -- password, the download with these is allowed at any later time, with no call in between: it gives
  -- out the configuration of an appservice with that owner and prefix.
  pub download_config-register_config :
      (env : Addresses) (template : Dict Str Json) (username prefix password token : Str)
      (now later : ℕ) (s : Store) (loc : Location)
      → IsKeyed s
      → (register_config base32 prefix (some (username, password)) token now s).0 ≡ ok loc
      → (loc.user ≡ username)
        × (az : AppService) × HasOwner username prefix az
        × ((download_config base32 env template prefix
              (some (loc.user, loc.password))
              later
              (register_config base32 prefix (some (username, password)) token now s).1).0
            ≡ ok (configure_imessage env az template))
  download_config-register_config env template username prefix password token now later s loc keyed
        e =
      let (r, returned, left, user, pass) = redirected username prefix password token now s loc e in
      let (found, checked, same) = authorized base32 username prefix password now r s returned in
      let s' = (Azs.find username prefix s).1 in
      let t = (generate_password base32 r token none now s').1 in
      let held =
        generate_password_owner r token now username prefix s'
          (owner-find username prefix r keyed found) in
      let named : loc.user ≡ username = rw (user, same) held.0 in
      (
        named,
        read t.azs r,
        held,
        rw (named, pass, left, same)
            (downloaded env template prefix username (rstrip (base32.encode token)) later r t (
              opened username prefix token r now later s' (find_cached username prefix r s found))),
      )
