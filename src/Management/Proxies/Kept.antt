-- ===== src/Management/Proxies/Kept.antt =====
-- What a user may change of his proxy: `put_user_proxy` of mautrix_asmux/api/management_api.py.
use mautrix_asmux.Prelude.{
  ℕ, ◌≡◌, refl, ◌∙◌, Bool, false, ◌||◌, Option, some, Str, text, str_eq, str_beq_iff, ◌==◌,
  if◌then◌else◌, arith, inl, inr, Option-cases, Bool-cases, beq_refl,
}
use mautrix_asmux.Result.{ok, Result-cases}
use mautrix_asmux.Json.{set_field, Json, obj, Fields, get}
use mautrix_asmux.Json.Texts.{get-set_field}
use mautrix_asmux.Store.{Store, read}
use mautrix_asmux.Database.Users
use mautrix_asmux.Management.{by_user, get_user, is_unset, is_other}
use mautrix_asmux.Management.Proxies.{
  Keys, chosen_config, unpack, with_keys, merged_ssh, put_ssh, put_for, put_user_proxy,
}

-- The names of the keys that a user cannot put.
unfoldable pub is_key_name : Str → Bool
is_key_name k = (text "publicKey" == k) || ((text "privateKey" == k) || (text "passphrase" == k))

keys_set :
    (body ssh : Fields) (p q w : Json) (k : Str)
    → get (text "publicKey") ssh ≡ some p
    → get (text "privateKey") ssh ≡ some q
    → get (text "passphrase") ssh ≡ some w
    → get k (
        set_field
          (text "passphrase")
          w
          (set_field (text "privateKey") q (set_field (text "publicKey") p body)))
      ≡ (if is_key_name k then get k ssh else get k body)
unfolding is_key_name
keys_set body ssh p q w k hp hq hw =
    let one = set_field (text "publicKey") p body in
    let two = set_field (text "privateKey") q one in
    ground (
      arith,
      str_beq_iff (text "publicKey") k,
      str_beq_iff (text "privateKey") k,
      str_beq_iff (text "passphrase") k,
      get-set_field (text "passphrase") k w two,
      get-set_field (text "privateKey") k q one,
      get-set_field (text "publicKey") k p body,
    )

with_keys_lem :
    (body ssh merged : Fields) (k : Str)
    → with_keys body ssh ≡ ok merged
    → get k merged ≡ (if is_key_name k then get k ssh else get k body)
unfolding with_keys
with_keys_lem body ssh merged k h =
    elim (Option-cases (get (text "publicKey") ssh))
      as (λ _. get k merged ≡ (if is_key_name k then get k ssh else get k body)) [
        | inl missing ↦ ground (arith, missing)
        | inr (p, hp) ↦
            elim (Option-cases (get (text "privateKey") ssh))
              as (λ _. get k merged ≡ (if is_key_name k then get k ssh else get k body)) [
                | inl missing ↦ ground (arith, missing)
                | inr (q, hq) ↦
                    elim (Option-cases (get (text "passphrase") ssh))
                      as (λ _. get k merged ≡ (if is_key_name k then get k ssh else get k body)) [
                        | inl missing ↦ ground (arith, missing)
                        | inr (w, hw) ↦ ground (arith, keys_set body ssh p q w k hp hq hw)
                      ]
              ]
      ]

merged_ssh_lem :
    (body config ssh merged : Fields) (k : Str)
    → get (text "ssh") config ≡ some (obj ssh)
    → merged_ssh (obj body) config ≡ ok merged
    → get k merged ≡ (if is_key_name k then get k ssh else get k body)
unfolding merged_ssh unpack
merged_ssh_lem body config ssh merged k there h =
    with_keys_lem body ssh merged k (ground (arith, there))

put_ssh_stored :
    (user : ℕ) (config ssh : Fields) (s : Store)
    → (read (put_ssh user config ssh s).1.users user).proxy_config
      ≡ some (set_field (text "ssh") (obj ssh) config)
unfolding put_ssh Users.edit
put_ssh_stored user config ssh s = ground arith

chosen_lem :
    (id : Str) (keys : Keys) (found : Option Fields) (config : Fields)
    → found ≡ some config
    → is_unset (some config) ≡ false
    → chosen_config false id keys found ≡ config
unfolding chosen_config
chosen_lem id keys found config has full = rw (has, chosen_config) (ground (arith, full))

-- What `put_for` stores where it returns.
put_for_lem :
    (user : ℕ) (body config : Fields) (keys : Keys) (shown : Option Fields) (s : Store)
    → (read s.users user).proxy_config ≡ some config
    → is_unset (some config) ≡ false
    → (put_for user false (obj body) keys s).0 ≡ ok shown
    → (merged : Fields) × (merged_ssh (obj body) config ≡ ok merged)
      × ((read (put_for user false (obj body) keys s).1.users user).proxy_config
          ≡ some (set_field (text "ssh") (obj merged) config))
unfolding put_for
put_for_lem user body config keys shown s has full h =
    let u = read s.users user in
    let same = chosen_lem u.id keys u.proxy_config config has full in
    elim (Result-cases (merged_ssh (obj body) config)) [
      | inr (x, raised) ↦ ground (arith, same)
      | inl (merged, returned) ↦
          (merged, returned, ground (arith, same, put_ssh_stored user config merged s))
    ]

put_user_for :
    (user : ℕ) (direct : Bool) (id : Str) (body : Json) (keys : Keys) (shown : Option Fields)
    (s : Store)
    → (put_user_proxy (by_user user direct) id false (some body) keys s).0 ≡ ok shown
    → put_user_proxy (by_user user direct) id false (some body) keys s
      ≡ put_for user false body keys s
unfolding put_user_proxy get_user
put_user_for user direct id body keys shown s h =
    elim (Bool-cases (is_other (by_user user direct) id s)) [
      | inl other ↦ ground (arith, other)
      | inr own ↦ rw own refl
    ]

-- A user who puts new settings for a proxy that he has, without the query for new keys, keeps his
-- keys: where the request returns, each of the three names has in the SSH part that is stored the
-- value that it had, and any other name has the value that the request gives it, or none.
pub put_user_proxy-keys :
    (user : ℕ) (direct : Bool) (id k : Str) (body config ssh : Fields) (keys : Keys)
    (shown : Option Fields) (s : Store)
    → (read s.users user).proxy_config ≡ some config
    → is_unset (some config) ≡ false
    → get (text "ssh") config ≡ some (obj ssh)
    → (put_user_proxy (by_user user direct) id false (some (obj body)) keys s).0 ≡ ok shown
    → (stored : Fields) × (merged : Fields) × ((read
          (put_user_proxy (by_user user direct) id false (some (obj body)) keys s).1.users
          user).proxy_config
        ≡ some stored)
      × (get (text "ssh") stored ≡ some (obj merged))
      × (get k merged ≡ (if is_key_name k then get k ssh else get k body))
put_user_proxy-keys user direct id k body config ssh keys shown s has full there h =
    let same = put_user_for user direct id (obj body) keys shown s h in
    let (merged, returned, stored) =
      put_for_lem user body config keys shown s has full (ground (arith, same)) in
    (
      set_field (text "ssh") (obj merged) config,
      merged,
      rw same stored,
      get-set_field (text "ssh") (text "ssh") (obj merged) config
          ∙ (rw (beq_refl (text "ssh")) refl),
      merged_ssh_lem body config ssh merged k there returned,
    )
