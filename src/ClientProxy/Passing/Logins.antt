-- ===== src/ClientProxy/Passing/Logins.antt =====
-- The logins that are passed on (mautrix_asmux/api/cs_proxy.py).
use mautrix_asmux.Prelude.{
  ◌≡◌, ◌⊎◌, inl, inr, refl, ◌∙◌, Bool, true, false, Option, [], ◌∷◌, ◌++◌, Str, text, str_eq,
  str_beq, arith,
}
use mautrix_asmux.Result.{ok, Result-cases}
use mautrix_asmux.Json.{obj, Fields, get, is_text, as_dict}
use mautrix_asmux.Dict
use mautrix_asmux.Dict.{Dict, get-set, get-remove, get-set_self}
use mautrix_asmux.Env.{Env}
use mautrix_asmux.ClientProxy.Login.{convert_login_password}
use mautrix_asmux.ClientProxy.Exchange.{Converted, convert_login_password-Converted}
use mautrix_asmux.ClientProxy.Passing.{
  Request, Content, unchanged, encoded, Outgoing, Answer, Proxied, or_dict, send,
  copy_headers_no_host, login_headers, send_login, proxy_login,
}
use mautrix_asmux.ClientProxy.Passing.Sent.{authorization, get-or_dict, get-no_host}

content_keys :
    (str_beq (text "Content-Type") (text "Authorization") ≡ false)
    × (str_beq (text "Content-Length") (text "Authorization") ≡ false)
unfolding text str_beq
content_keys = (refl, refl)

get-login_headers :
    (headers headers' : Dict Str Str)
    → login_headers headers ≡ ok headers'
    → authorization headers' ≡ authorization headers
unfolding login_headers
get-login_headers headers headers' h =
    let json = text "application/json" in
    ground (
      arith,
      content_keys,
      get-set (text "Content-Type") (text "Authorization") json headers,
      get-remove (text "Content-Length") (text "Authorization")
          (Dict.set (text "Content-Type") json headers),
    )

-- A request to log in with the Authorization header of the client.
pub record IsLogin (req : Request) (content : Content) (out : Outgoing) : Type 0 where
  pub same_auth : authorization out.headers ≡ authorization req.headers
  pub path : out.path ≡ text "/_matrix/client/v3/login"
  pub body : out.content ≡ content

module _ (answer : Answer) (req : Request) where
  sent-IsLogin :
      (headers : Dict Str Str) (content : Content) (s : Proxied)
      → authorization headers ≡ authorization req.headers
      → (out : Outgoing) × ((send answer req
            (text "/_matrix/client/v3/login")
            headers
            []
            content
            s).1.sent
          ≡ s.sent ++ out ∷ [])
        × IsLogin req content out
  unfolding send
  sent-IsLogin headers content s h = (
    record {
      method = req.method;
      path = text "/_matrix/client/v3/login";
      headers = or_dict headers req.headers;
      query = or_dict [] req.query;
      content = content;
    },
    refl,
    record {
      same_auth = get-or_dict (text "Authorization") headers req.headers h;
      path = refl;
      body = refl;
    },
  )

  sent-send_login :
      (b : Bool) (body : Fields) (s : Proxied)
      → ((send_login answer req (b, body) s).1.sent ≡ s.sent)
        ⊎ ((out : Outgoing) × ((send_login answer req (b, body) s).1.sent ≡ s.sent ++ out ∷ [])
            × IsLogin req (elim b [ true ↦ encoded (obj body) | false ↦ unchanged ]) out)
  unfolding send_login
  sent-send_login false body s =
      inr (sent-IsLogin (copy_headers_no_host req.headers) unchanged s (get-no_host req.headers))
  sent-send_login true body s =
      elim (Result-cases (login_headers (copy_headers_no_host req.headers))) [
        | inr (x, raised) ↦ inl (ground (arith, raised))
        | inl (headers, made) ↦
            let (out, sent, is) = sent-IsLogin headers (encoded (obj body)) s (
              get-login_headers (copy_headers_no_host req.headers) headers made
              ∙ get-no_host req.headers) in
            inr (out, ground (arith, made, sent), is)
      ]

  by_outcome :
      (env : Env) (shared_secret : Str) (hmac : Str → Str → Str) (parse : Str → Option Str)
      (b : Bool) (body body' : Fields) (s : Proxied) (out : Outgoing)
      → (convert_login_password hmac shared_secret env parse body s.store).0 ≡ ok (b, body')
      → IsLogin req (elim b [ true ↦ encoded (obj body') | false ↦ unchanged ]) out
      → IsLogin req unchanged out
        ⊎ ((new : Fields) × IsLogin req (encoded (obj new)) out
            × Converted hmac shared_secret body env parse s.store true new)
  by_outcome env shared_secret hmac parse false body body' s out h is = inl is
  by_outcome env shared_secret hmac parse true body body' s out h is = inr (
    body',
    is,
    convert_login_password-Converted hmac shared_secret body env parse s.store true body' h,
  )

  -- A login with a password is passed on at most once, with the Authorization header of the client,
  -- and its body is as the client sent it, or its password alone is exchanged and it was the digest
  -- of the user id that the body names by a login token which was found for this user.
  pub proxy_login-Converted :
      (env : Env) (as_token shared_secret : Str) (hmac : Str → Str → Str) (parse : Str → Option Str)
      (body : Fields) (s : Proxied)
      → req.json ≡ ok (obj body)
      → is_text (text "m.login.password") (get (text "type") body) ≡ true
      → let after = (proxy_login env as_token shared_secret hmac parse answer req s).1.sent in
        (after ≡ s.sent)
        ⊎ ((out : Outgoing) × (after ≡ s.sent ++ out ∷ [])
            × (IsLogin req unchanged out
                ⊎ ((body' : Fields) × IsLogin req (encoded (obj body')) out
                    × Converted hmac shared_secret body env parse s.store true body')))
  unfolding proxy_login as_dict
  proxy_login-Converted env as_token shared_secret hmac parse body s h password =
      let (converted, t) = convert_login_password hmac shared_secret env parse body s.store in
      elim (Result-cases converted) [
        | inr (x, raised) ↦ inl (ground (arith, h, password, raised))
        | inl ((b, body'), made) ↦ elim (sent-send_login b body' (record s { store = t })) [
          | inl nothing ↦ inl (ground (arith, h, password, made, nothing))
          | inr (out, sent, is) ↦ inr (
            out,
            ground (arith, h, password, made, sent),
            by_outcome env shared_secret hmac parse b body body' s out made is,
          )
        ]
      ]
