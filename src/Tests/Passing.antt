-- ===== src/Tests/Passing.antt =====
-- Requests and logins that are passed on.
use mautrix_asmux.Prelude.{
  ℕ, ◌≡◌, ◌⊎◌, refl, true, false, none, some, [], ◌∷◌, Str, text, str_eq, nat_eq,
}
use mautrix_asmux.Json
use mautrix_asmux.Json.Holding
use mautrix_asmux.Json.{Json, obj, str, Fields, end, field, get}
use mautrix_asmux.Dict
use mautrix_asmux.Result.{ok}
use mautrix_asmux.Store.{read}
use mautrix_asmux.ClientProxy.{find_appservice, read_auth}
use mautrix_asmux.ClientProxy.Created.{register_from_create, get-register_from_create}
use mautrix_asmux.ClientProxy.Created
use mautrix_asmux.ClientProxy.Exchange.{Converted}
use mautrix_asmux.ClientProxy.Passing.{
  Request, Outgoing, unchanged, encoded, Answer, answered, Proxied, proxy, proxy_login,
}
use mautrix_asmux.ClientProxy.Passing
use mautrix_asmux.ClientProxy.Passing.Rooms.{BelongsTo, HasRow, proxy-BelongsTo}
use mautrix_asmux.ClientProxy.Passing.Sent.{authorization, IsOwn, IsAs, proxy-IsAs}
use mautrix_asmux.ClientProxy.Passing.Logins.{IsLogin, proxy_login-Converted}
use mautrix_asmux.Tests.Samples.{store, env, running}
use mautrix_asmux.Tests.Proxied.{passing, open_env, header, store-IsKeyed, joined, login, localpart}

abbrev asked : Request
asked = record {
  method = text "GET";
  path = text "/_matrix/client/v3/sync";
  raw_path = text "/_matrix/client/v3/sync";
  headers = (text "Host", text "b") ∷ (text "Authorization", header) ∷ [];
  query = [];
  json = ok (obj (login (text "l@ann:b")));
}

abbrev idle : Proxied
idle = record { store = store; sent = [] }

abbrev answer : Answer
answer = answered 200 (ok (obj end))

proxy-IsAs_example :
    let given = authorization asked.headers in
    let (found, t) = find_appservice open_env false false given store in
    let call =
      proxy open_env
        (text "as")
        (text "z")
        joined
        answer
        asked
        (text "client")
        (text "v3/sync")
        idle in
    let after = call.1.sent in
    (after ≡ [])
    ⊎ ((out : Outgoing) × (after ≡ out ∷ [])
        × (((found ≡ ok none) × IsOwn asked out)
            ⊎ ((r : ℕ) × (token : Str) × (read_auth open_env false given
                  ≡ ok ((read t.azs r).id, token))
                × ((read t.azs r).as_token ≡ token)
                × IsAs open_env (text "as") (read t.azs r) asked out)))
proxy-IsAs_example =
    proxy-IsAs open_env (text "as") answer asked (text "z") joined (text "client") (text "v3/sync")
      idle store-IsKeyed

is-password :
    Json.is_text (text "m.login.password") (get (text "type") (login (text "l@ann:b"))) ≡ true
unfolding running
is-password = refl

proxy_login-Converted_example :
    let after =
      (proxy_login env (text "as") (text "z") joined localpart answer asked idle).1.sent in
    (after ≡ [])
    ⊎ ((out : Outgoing) × (after ≡ out ∷ [])
        × (IsLogin asked unchanged out
            ⊎ ((body : Fields) × IsLogin asked (encoded (obj body)) out
                × Converted joined
                    (text "z")
                    (login (text "l@ann:b"))
                    env
                    localpart
                    store
                    true
                    body)))
proxy_login-Converted_example =
    proxy_login-Converted answer asked env (text "as") (text "z") joined localpart
      (login (text "l@ann:b")) idle refl is-password

abbrev created : Fields
created = field (text "room_id") (str (text "!new")) end

there-created : get (text "room_id") created ≡ some (str (text "!new"))
unfolding running
there-created = refl

register-created : (register_from_create 7 200 (ok (obj created)) store).0 ≡ ok tt
unfolding running Created.register_from_create Created.insert_room Holding.held_item Holding.holds
    Holding.item
register-created = refl

abbrev creating : Request
creating = record asked {
  method = text "POST";
  path = text "/_matrix/client/v3/createRoom";
  raw_path = text "/_matrix/client/v3/createRoom";
}

abbrev answer_created : Answer
answer_created = answered 200 (ok (obj created))

unfoldable proxying : Unit {0}
unfolding running passing Created.register_from_create Created.insert_room Holding.held_item
    Holding.holds Holding.item Passing.proxy Passing.proxy_for Passing.proxy_as Passing.send
    Passing.received Passing.or_dict Passing.content_for Passing.deletes_devices
    Passing.creates_room Passing.unversioned Passing.remove_prefix Passing.copy_headers
    Passing.copy_headers_no_host
proxying = tt

creates : Passing.creates_room (text "client") (text "v3/createRoom") ≡ true
unfolding proxying
creates = refl

find-creating :
    (find_appservice open_env false false
      (Dict.get (text "Authorization") creating.headers)
      store).0
    ≡ ok (some 0)
unfolding proxying
find-creating = refl

proxy-creating :
    (proxy open_env
      (text "as")
      (text "z")
      joined
      answer_created
      creating
      (text "client")
      (text "v3/createRoom")
      idle).0
    ≡ ok (200, ok (obj created))
unfolding proxying
proxy-creating = refl

proxy-BelongsTo_example :
    let t =
      (find_appservice open_env false false
        (Dict.get (text "Authorization") creating.headers)
        store).1 in
    let call =
      proxy open_env
        (text "as")
        (text "z")
        joined
        answer_created
        creating
        (text "client")
        (text "v3/createRoom")
        idle in
    BelongsTo (read t.azs 0).id (text "!new") call.1.store
    × HasRow (read t.azs 0).id (text "!new") t call.1.store
proxy-BelongsTo_example =
    proxy-BelongsTo open_env (text "as") (text "z") joined creating (text "client")
      (text "v3/createRoom") 200 created (text "!new") 0 (200, ok (obj created)) idle creates refl
      there-created find-creating proxy-creating
