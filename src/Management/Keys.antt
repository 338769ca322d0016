-- ===== src/Management/Keys.antt =====
-- Who is shown the private key of the proxy of a user (mautrix_asmux/api/management_api.py and
-- mautrix_asmux/database/table/user.py).
use mautrix_asmux.Prelude.{
  ℕ, ◌≡◌, refl, false, Option, none, some, Str, text, str_eq, str_beq_iff, ◌==◌, arith,
  if◌then◌else◌, beq_refl,
}
use mautrix_asmux.Errors.{key_error}
use mautrix_asmux.Result.{Result, ok, err}
use mautrix_asmux.Json.{obj, Fields, end, field, get}
use mautrix_asmux.Store.{Store, read}
use mautrix_asmux.Database.Users
use mautrix_asmux.Management.{
  root, by_user, get_user, get_user_proxy, direct_auth, is_unset, found_user, without, delete_key,
  ssh_response, copy_of, proxy_config_response,
}

get-without : (k j : Str) (d : Fields) → get j (without k d) ≡ (if k == j then none else get j d)
unfolding get without
get-without k j end = ground arith
get-without k j (field i v d) =
    ground (arith, str_beq_iff i k, str_beq_iff i j, str_beq_iff k j, get-without k j d)

-- The private key and its passphrase are not there.
unfoldable pub IsPublic : Fields → Type 0
IsPublic ssh = (get (text "privateKey") ssh ≡ none) × (get (text "passphrase") ssh ≡ none)

delete_key_lem :
    (k j : Str) (d d' : Fields)
    → delete_key k d ≡ ok d'
    → get j d' ≡ (if k == j then none else get j d)
unfolding delete_key
delete_key_lem k j d d' h = ground (arith, get-without k j d)

ssh_response-IsPublic : (ssh shown : Fields) → ssh_response false ssh ≡ ok shown → IsPublic shown
unfolding ssh_response IsPublic
ssh_response-IsPublic ssh shown h =
    elim (delete_key (text "privateKey") ssh)
        as (λ r.
          delete_key (text "privateKey") ssh ≡ r
          → ◌≡◌ {A = Result Fields}
              (elim r [ err e ↦ err e | ok rest ↦ delete_key (text "passphrase") rest ]) (ok shown)
          → (get (text "privateKey") shown ≡ none) × (get (text "passphrase") shown ≡ none)) [
            | err e ↦ λ q f. cc
            | ok rest ↦ λ q f. ground (
              arith,
              beq_refl (text "privateKey"),
              beq_refl (text "passphrase"),
              delete_key_lem (text "privateKey") (text "privateKey") ssh rest q,
              delete_key_lem (text "passphrase") (text "privateKey") rest shown f,
              delete_key_lem (text "passphrase") (text "passphrase") rest shown f,
            )
          ]
      refl h

-- A response whose part on the SSH connection is public.
unfoldable pub ShowsPublic : Fields → Type 0
ShowsPublic config = (ssh : Fields) × (get (text "ssh") config ≡ some (obj ssh)) × IsPublic ssh

copied :
    (ssh : Result Fields) (socks : Result Fields) (config : Fields)
    → ◌≡◌ {A = Result (Option Fields)}
        (elim ssh [
          | err e ↦ err e
          | ok d ↦ elim socks [
            | err e ↦ err e
            | ok p ↦ elim (ssh_response false d) [
              | err e ↦ err e
              | ok shown ↦
                  ok (some (field (text "ssh") (obj shown) (field (text "socks") (obj p) end)))
            ]
          ]
        ])
        (ok (some config))
    → ShowsPublic config
unfolding ShowsPublic get
copied (err e) socks config h = cc
copied (ok d) (err e) config h = cc
copied (ok d) (ok p) config h =
    elim (ssh_response false d)
        as (λ r.
          ssh_response false d ≡ r
          → ◌≡◌ {A = Result (Option Fields)}
              (elim r [
                | err e ↦ err e
                | ok shown ↦
                    ok (some (field (text "ssh") (obj shown) (field (text "socks") (obj p) end)))
              ])
              (ok (some config))
          → (ssh : Fields) × (get (text "ssh") config ≡ some (obj ssh)) × IsPublic ssh) [
            | err e ↦ λ q f. cc
            | ok shown ↦ λ q f.
                (shown, ground (arith, beq_refl (text "ssh")), ssh_response-IsPublic d shown q)
          ]
      refl h

proxy_config_response-ShowsPublic :
    (c : Option Fields) (config : Fields)
    → proxy_config_response false c ≡ ok (some config)
    → ShowsPublic config
unfolding proxy_config_response
proxy_config_response-ShowsPublic none config h = cc
proxy_config_response-ShowsPublic (some end) config h = cc
proxy_config_response-ShowsPublic (some (field k v d)) config h =
    copied (copy_of (text "ssh") (field k v d)) (copy_of (text "socks") (field k v d)) config h

-- A user who has given an API token is shown a proxy only if the path names himself, and then the
-- SSH part of the response has neither the private key nor its passphrase.
pub get_user_proxy-ShowsPublic :
    (user : ℕ) (id api_token login_token : Str) (s : Store) (config : Fields)
    → (get_user_proxy (by_user user false) id api_token login_token s).0 ≡ ok (some config)
    → ((read s.users user).id ≡ id) × ShowsPublic config
unfolding get_user_proxy get_user direct_auth
get_user_proxy-ShowsPublic user id api_token login_token s config h = (
  ground (arith, str_beq_iff (read s.users user).id id),
  proxy_config_response-ShowsPublic (read s.users user).proxy_config config (ground arith),
)

-- With the shared secret, the request for the proxy of a user who has set one up raises `KeyError`
-- where the user is found.
pub get_user_proxy_root :
    (id api_token login_token : Str) (r : ℕ) (s : Store)
    → (Users.get id s).0 ≡ ok (some r)
    → is_unset (read (Users.get id s).1.users r).proxy_config ≡ false
    → (get_user_proxy root id api_token login_token s).0 ≡ err key_error
unfolding get_user_proxy get_user direct_auth found_user
get_user_proxy_root id api_token login_token r s found set = ground (arith, found, set)
