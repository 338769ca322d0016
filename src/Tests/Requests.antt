-- ===== src/Tests/Requests.antt =====
-- Requests of the management API.
use mautrix_asmux.Prelude.{◌≡◌, refl, false, if◌then◌else◌, some, [], ◌∷◌, text, str_eq, nat_eq}
use mautrix_asmux.Errors.{http, HttpError}
use mautrix_asmux.Result.{ok, err}
use mautrix_asmux.Json
use mautrix_asmux.Json.{Fields, obj, str, end, field, get}
use mautrix_asmux.Store.{Store, User, read}
use mautrix_asmux.Database.Users
use mautrix_asmux.Management
use mautrix_asmux.Management.{
  Access, root, by_user, Target, by_id, by_name, get_appservice, delete_appservice, get_user_proxy,
  is_unset,
}
use mautrix_asmux.Management.Owners.{Owns, get_appservice-Owns}
use mautrix_asmux.Management.Keys.{ShowsPublic, get_user_proxy-ShowsPublic}
use mautrix_asmux.Management.Proxies
use mautrix_asmux.Management.Proxies.{Keys, put_user_proxy}
use mautrix_asmux.Management.Proxies.Kept.{is_key_name, put_user_proxy-keys}
use mautrix_asmux.Tests.Samples.{env, store, user, running}

unfoldable serving : Unit {0}
unfolding running Management.get_appservice Management.get_by_id Management.get_by_name
    Management.error_wrap Management.is_other Management.get_user_proxy Management.get_user
    Management.direct_auth Management.is_unset Management.proxy_config_response
    Management.ssh_response Management.copy_of Management.delete_key Management.without
    Management.found_user Users.get Users.load Users.new_user Users.add_to_cache
serving = tt

-- The user at 0 is the owner of the sample appservice.
abbrev ann : Access
ann = by_user 0 false

own : (get_appservice env ann (by_name (text "ann") (text "tg")) store).0 ≡ ok 0
unfolding serving
own = refl

get_appservice-Owns_example :
    Owns ann 0 (get_appservice env ann (by_name (text "ann") (text "tg")) store).1
get_appservice-Owns_example =
    get_appservice-Owns env ann (by_name (text "ann") (text "tg")) store 0 own

strange :
    (get_appservice env ann (by_name (text "bob") (text "tg")) store).0
    ≡ err (http HttpError.appservice_access_denied)
unfolding serving
strange = refl

abbrev key : Fields
key =
    field (text "publicKey") (str (text "p"))
      (field (text "privateKey") (str (text "k")) (field (text "passphrase") (str (text "w")) end))

abbrev proxied : User
proxied = record user {
  proxy_config = some (field (text "ssh") (obj key) (field (text "socks") (obj end) end));
}

abbrev proxied_store : Store
proxied_store = record store {
  users = record { cells = λ _. proxied; fresh = 0 };
  user_table = (text "ann", proxied) ∷ [];
}

abbrev shown : Fields
shown =
    field (text "ssh") (obj (field (text "publicKey") (str (text "p")) end))
      (field (text "socks") (obj end) end)

get-shown : (get_user_proxy ann (text "ann") [] [] proxied_store).0 ≡ ok (some shown)
unfolding serving
get-shown = refl

get_user_proxy-ShowsPublic_example :
    ((read proxied_store.users 0).id ≡ text "ann") × ShowsPublic shown
get_user_proxy-ShowsPublic_example =
    get_user_proxy-ShowsPublic 0 (text "ann") [] [] proxied_store shown get-shown

found_ann : (Users.get (text "ann") proxied_store).0 ≡ ok (some 0)
unfolding serving
found_ann = refl

ann_set : is_unset (read (Users.get (text "ann") proxied_store).1.users 0).proxy_config ≡ false
unfolding serving
ann_set = refl

abbrev put_body : Fields
put_body = field (text "host") (str (text "h")) (field (text "privateKey") (str (text "x")) end)

abbrev put_shown : Fields
put_shown =
    field (text "ssh")
      (obj (field (text "host") (str (text "h")) (field (text "publicKey") (str (text "p")) end)))
      (field (text "socks") (obj end) end)

abbrev no_keys : Keys
no_keys = record { password = []; public_key = []; private_key = []; passphrase = [] }

put-shown :
    (put_user_proxy ann (text "ann") false (some (obj put_body)) no_keys proxied_store).0
    ≡ ok (some put_shown)
unfolding serving Proxies.put_user_proxy Proxies.put_for Proxies.put_ssh Proxies.chosen_config
    Proxies.merged_ssh Proxies.with_keys Proxies.unpack Json.set_field Users.edit
put-shown = refl

proxied_set : is_unset proxied.proxy_config ≡ false
unfolding serving
proxied_set = refl

proxied_ssh :
    get (text "ssh") (field (text "ssh") (obj key) (field (text "socks") (obj end) end))
    ≡ some (obj key)
unfolding serving
proxied_ssh = refl

put_user_proxy-keys_example :
    (stored : Fields) × (merged : Fields) × ((read
        (put_user_proxy ann (text "ann") false (some (obj put_body)) no_keys proxied_store).1.users
        0).proxy_config
      ≡ some stored)
    × (get (text "ssh") stored ≡ some (obj merged))
    × (get (text "privateKey") merged ≡ (
        if is_key_name (text "privateKey")
        then get (text "privateKey") key
        else get (text "privateKey") put_body))
put_user_proxy-keys_example =
    put_user_proxy-keys 0 false (text "ann") (text "privateKey") put_body
      (field (text "ssh") (obj key) (field (text "socks") (obj end) end)) key no_keys
      (some put_shown) proxied_store refl proxied_set proxied_ssh put-shown
