-- ===== src/Management/Proxies.antt =====
-- `put_user_proxy` of mautrix_asmux/api/management_api.py, with the keys that
-- mautrix_asmux/database/table/user.py generates.
pub mod Kept
use mautrix_asmux.Prelude.{
  ℕ, ◌≡◌, ◌≢◌, refl, sym, ap, ◌∙◌, Bool, true, false, ◌||◌, Option, none, some, List, [], ◌∷◌, ◌++◌,
  Str, text, str_eq, str_beq_iff, ◌==◌, if◌then◌else◌, one_of, arith, inl, inr,
}
use mautrix_asmux.Errors.{http, HttpError, key_error, type_error}
use mautrix_asmux.Result.{Result, ok, err, or_raise, Result-cases}
use mautrix_asmux.Result
use mautrix_asmux.Exec.{Exec, pure, raise, gets, lift, ◌>>=◌, ◌>>◌}
use mautrix_asmux.Json.{set_field, Json, str, obj, Fields, end, field, get}
use mautrix_asmux.Store.{Store, User, read}
use mautrix_asmux.Database.Users
use mautrix_asmux.Management.{
  Access, by_user, fail, get_user, is_unset, is_other, proxy_config_response,
}

-- What is drawn for new keys.
pub record Keys : Type 0 where
  pub password : Str
  pub public_key : Str
  pub private_key : Str
  pub passphrase : Str

unfoldable pub generate_socks_config : Str → Keys → Fields
generate_socks_config id keys =
    field (text "username") (str (text "nova-" ++ (id ++ text "-proxy")))
      (field (text "password") (str keys.password) end)

unfoldable pub generate_ssh_key : Keys → Fields
generate_ssh_key keys = field (text "publicKey") (str keys.public_key) (
    field (text "privateKey") (str keys.private_key)
      (field (text "passphrase") (str keys.passphrase) end))

-- The configuration that goes on: the one that is there, or a new one.
unfoldable pub chosen_config : Bool → Str → Keys → Option Fields → Fields
unfolding generate_socks_config generate_ssh_key is_unset
chosen_config regenerate id keys config =
    let fresh =
      field (text "socks") (obj (generate_socks_config id keys))
        (field (text "ssh") (obj (generate_ssh_key keys)) end) in
    elim config [ none ↦ fresh | some c ↦ if is_unset (some c) || regenerate then fresh else c ]

-- What `v` holds where it is a dict, in `{**v}` and in `v[k]`.
unfoldable pub unpack : Json → Result Fields
unpack (obj d) = ok d
unpack _ = err type_error

-- `{**data, "publicKey": ..., "privateKey": ..., "passphrase": ...}`
unfoldable pub with_keys : Fields → Fields → Result Fields
unfolding set_field
with_keys body ssh = elim (get (text "publicKey") ssh) [
  | none ↦ err key_error
  | some p ↦ elim (get (text "privateKey") ssh) [
    | none ↦ err key_error
    | some k ↦ elim (get (text "passphrase") ssh) [
      | none ↦ err key_error
      | some w ↦ ok (
          set_field (text "passphrase") w
            (set_field (text "privateKey") k (set_field (text "publicKey") p body)))
    ]
  ]
]

unfoldable pub merged_ssh : Json → Fields → Result Fields
unfolding unpack with_keys
merged_ssh body config = elim (unpack body) [
  | err e ↦ err e
  | ok d ↦ elim (get (text "ssh") config) [
    | none ↦ err key_error
    | some ssh ↦ elim (unpack ssh) [ err e ↦ err e | ok keys ↦ with_keys d keys ]
  ]
]

-- The dict of the user is changed in place and written.
unfoldable pub put_ssh : ℕ → Fields → Fields → Exec Store (Option Fields)
unfolding set_field proxy_config_response
put_ssh user config ssh = do
  Users.edit user (some (some (set_field (text "ssh") (obj ssh) config)))
  lift (proxy_config_response false (some (set_field (text "ssh") (obj ssh) config)))

unfoldable pub put_for : ℕ → Bool → Json → Keys → Exec Store (Option Fields)
unfolding chosen_config merged_ssh put_ssh
put_for user regenerate body keys = do
  u ← gets (λ (s : Store). read s.users user)
  ssh ← lift (merged_ssh body (chosen_config regenerate u.id keys u.proxy_config))
  put_ssh user (chosen_config regenerate u.id keys u.proxy_config) ssh

-- `none` is a body that is not JSON; `_get_user` is not given tokens, since it creates no user here.
unfoldable pub put_user_proxy :
    Access → Str → Bool → Option Json → Keys → Exec Store (Option Fields)
unfolding put_for
put_user_proxy access id regenerate none keys = fail HttpError.request_not_json
put_user_proxy access id regenerate (some body) keys = do
  user ← get_user access false id [] []
  put_for user regenerate body keys
