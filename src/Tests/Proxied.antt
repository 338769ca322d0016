-- ===== src/Tests/Proxied.antt =====
-- Requests of an appservice to the homeserver.
use mautrix_asmux.Prelude.{
  ◌≡◌, refl, true, false, Option, none, some, [], ◌∷◌, ◌++◌, Str, text, str_eq, nat_eq, arith,
}
use mautrix_asmux.Dict
use mautrix_asmux.Dict.{Dict}
use mautrix_asmux.Result.{ok}
use mautrix_asmux.Env.{Env}
use mautrix_asmux.Database.Azs.Keyed.{IsKeyed}
use mautrix_asmux.ClientProxy
use mautrix_asmux.ClientProxy.{copy_query, find_appservice, read_auth}
use mautrix_asmux.ClientProxy.Masquerade.{IsMasked, copy_query-IsMasked}
use mautrix_asmux.Tests.Samples.{env, store, az, running}
use mautrix_asmux.Json
use mautrix_asmux.Json.{Fields, str, end, field}
use mautrix_asmux.Database.Users
use mautrix_asmux.ClientProxy.Login
use mautrix_asmux.ClientProxy.Login.{convert_login_password}

unfoldable pub passing : Unit {0}
unfolding running ClientProxy.copy_query ClientProxy.clean ClientProxy.with_user_id
    ClientProxy.namespace_of ClientProxy.find_appservice ClientProxy.read_auth ClientProxy.bearer
    ClientProxy.split_token ClientProxy.check_token ClientProxy.refuse
passing = tt

abbrev asked : Dict Str Str
asked = (text "access_token", text "x") ∷ (text "user_id", text "@_ann_tg_joe:b") ∷ []

abbrev passed : Dict Str Str
passed =
    (text "user_id", text "@_ann_tg_joe:b")
    ∷ (text "com.beeper.also_allow_user", text "@ann:b")
    ∷ []

copy-asked : copy_query env az true asked ≡ ok passed
unfolding passing
copy-asked = refl

copy_query-IsMasked_example :
    IsMasked env az passed
    × (Dict.get (text "access_token") passed ≡ none)
    × (Dict.get (text "com.beeper.also_allow_user") passed
        ≡ some (text "@" ++ (text "ann" ++ text ":b")))
copy_query-IsMasked_example = copy_query-IsMasked env az true asked passed copy-asked

-- Every text is taken for the UUID of the sample.
abbrev pub open_env : Env
open_env = record env { parse_uuid = λ _. some 7 }

abbrev pub header : Str
header = text "Bearer 00000000-0000-0000-0000-000000000007-s"

pub store-IsKeyed : IsKeyed store
unfolding Dict.get
store-IsKeyed = record {
  rows = λ id row e. ground arith;
  by_id = λ id r e. cc;
  by_owner = λ o p r e. cc;
}

find-header : (find_appservice open_env false true (some header) store).0 ≡ ok (some 0)
unfolding passing
find-header = refl

unfoldable logging_in : Unit {0}
unfolding running Login.convert_login_password Login.try_convert Login.caught Login.with_found
    Login.exchange Login.user_id_of Login.as_user_id Login.identified Login.find_login_token
    Login.find_local Login.find_owner Login.token_of_user Login.token_of_az Json.set_field Users.get
    Users.load Users.new_user Users.add_to_cache
logging_in = tt

-- A digest that is easy to read.
abbrev pub joined : Str → Str → Str
joined key message = key ++ message

abbrev pub login : Str → Fields
login password =
    field (text "type") (str (text "m.login.password"))
      (field (text "user") (str (text "@ann:b")) (field (text "password") (str password) end))

abbrev pub localpart : Str → Option Str
localpart _ = some (text "ann")

convert-login :
    (convert_login_password joined (text "z") env localpart (login (text "l@ann:b")) store).0
    ≡ ok (true, login (text "z" ++ text "@ann:b"))
unfolding logging_in
convert-login = refl
