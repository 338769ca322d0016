-- ===== src/ClientProxy/Passing/Sent.antt =====
-- As whom the requests are passed on (mautrix_asmux/api/cs_proxy.py).
use mautrix_asmux.Prelude.{
  ℕ, ◌≡◌, ◌⊎◌, inl, inr, refl, false, Option, none, some, [], ◌∷◌, ◌++◌, Str, text, str_eq, str_beq,
  arith, ends_with,
}
use mautrix_asmux.Result.{ok, Result-cases}
use mautrix_asmux.Dict
use mautrix_asmux.Dict.{Dict, get-set, get-remove, get-set_self}
use mautrix_asmux.Env.{Env}
use mautrix_asmux.Store.{AppService, read}
use mautrix_asmux.Database.Azs
use mautrix_asmux.Database.Azs.Keyed.{IsKeyed}
use mautrix_asmux.ClientProxy.{read_auth, find_appservice, copy_query}
use mautrix_asmux.ClientProxy.Masquerade.{IsMasked, copy_query-IsMasked, find_appservice-token}
use mautrix_asmux.ClientProxy.Passing.{
  Request, Content, unchanged, Outgoing, Answer, Proxied, or_dict, send, copy_headers_no_host,
  copy_headers, content_for, proxy_as, proxy_for, proxy,
}

abbrev pub authorization : Dict Str Str → Option Str
authorization headers = Dict.get (text "Authorization") headers

-- The request of a client that is passed on as it is.
pub record IsOwn (req : Request) (out : Outgoing) : Type 0 where
  pub same_method : out.method ≡ req.method
  pub same_path : out.path ≡ req.raw_path
  pub same_auth : authorization out.headers ≡ authorization req.headers
  pub same_query : out.query ≡ req.query
  pub same_content : out.content ≡ unchanged

-- A request with the token of asmux, as a user of the namespace of the appservice.
pub record IsAs (env : Env) (as_token : Str) (az : AppService) (req : Request) (out : Outgoing)
    : Type 0 where
  pub same_method : out.method ≡ req.method
  pub same_path : out.path ≡ req.raw_path
  pub token : authorization out.headers ≡ some (text "Bearer " ++ as_token)
  pub bridge : Dict.get (text "X-Beeper-Bridge") out.headers ≡ some (Azs.name az)
  pub masked : IsMasked env az out.query

other_keys :
    (str_beq (text "Host") (text "Authorization") ≡ false)
    × (str_beq (text "X-Beeper-Bridge") (text "Authorization") ≡ false)
unfolding text str_beq
other_keys = (refl, refl)

pub get-or_dict :
    (k : Str) (d e : Dict Str Str)
    → Dict.get k d ≡ Dict.get k e
    → Dict.get k (or_dict d e) ≡ Dict.get k e
unfolding or_dict
get-or_dict k [] e h = refl
get-or_dict k (x ∷ d) e h = h

or_dict_lem : (k v : Str) (d e : Dict Str Str) → Dict.get k d ≡ some v → or_dict d e ≡ d
unfolding or_dict Dict.get
or_dict_lem k v [] e h = cc
or_dict_lem k v (x ∷ d) e h = refl

get-copy_headers :
    (as_token : Str) (az : AppService) (headers : Dict Str Str)
    → (authorization (copy_headers as_token az headers) ≡ some (text "Bearer " ++ as_token))
      × (Dict.get (text "X-Beeper-Bridge") (copy_headers as_token az headers) ≡ some (Azs.name az))
unfolding copy_headers
get-copy_headers as_token az headers =
    let plain = copy_headers_no_host headers in
    let signed = Dict.set (text "Authorization") (text "Bearer " ++ as_token) plain in
    (
      ground (
        arith,
        other_keys,
        get-set (text "X-Beeper-Bridge") (text "Authorization") (Azs.name az) signed,
        get-set_self (text "Authorization") (text "Bearer " ++ as_token) plain,
      ),
      get-set_self (text "X-Beeper-Bridge") (Azs.name az) signed,
    )

pub get-no_host :
    (headers : Dict Str Str) → authorization (copy_headers_no_host headers) ≡ authorization headers
unfolding copy_headers_no_host
get-no_host headers =
    ground (arith, other_keys, get-remove (text "Host") (text "Authorization") headers)

module _ (env : Env) (as_token : Str) (answer : Answer) (req : Request) where
  sent-IsAs :
      (s : Proxied) (az : AppService) (query : Dict Str Str) (content : Content)
      → IsMasked env az query
      → (out : Outgoing) × ((send answer req req.raw_path
            (copy_headers as_token az req.headers)
            query
            content
            s).1.sent
          ≡ s.sent ++ out ∷ [])
        × IsAs env as_token az req out
  unfolding send IsMasked
  sent-IsAs s az query content h =
      let headers = copy_headers as_token az req.headers in
      let (auth, name) = get-copy_headers as_token az req.headers in
      let (user_id, named, _, _) = h in
      (
        record {
          method = req.method;
          path = req.raw_path;
          headers = or_dict headers req.headers;
          query = or_dict query req.query;
          content = content;
        },
        refl,
        record {
          same_method = refl;
          same_path = refl;
          token = rw (or_dict_lem (text "Authorization") _ headers req.headers auth) auth;
          bridge = rw (or_dict_lem (text "Authorization") _ headers req.headers auth) name;
          masked = rw (or_dict_lem (text "user_id") user_id query req.query named) h;
        },
      )

  sent-IsOwn :
      (s : Proxied)
      → (out : Outgoing) × ((send answer req req.raw_path
            (copy_headers_no_host req.headers)
            []
            unchanged
            s).1.sent
          ≡ s.sent ++ out ∷ [])
        × IsOwn req out
  unfolding send or_dict
  sent-IsOwn s = (
    record {
      method = req.method;
      path = req.raw_path;
      headers = or_dict (copy_headers_no_host req.headers) req.headers;
      query = req.query;
      content = unchanged;
    },
    refl,
    record {
      same_method = refl;
      same_path = refl;
      same_auth =
          get-or_dict (text "Authorization") (copy_headers_no_host req.headers) req.headers
            (get-no_host req.headers);
      same_query = refl;
      same_content = refl;
    },
  )

  module _ (shared_secret : Str) (hmac : Str → Str → Str) (spec path : Str) where
    sent-proxy_as :
        (r : ℕ) (s : Proxied)
        → ((proxy_as env as_token shared_secret hmac answer req spec path r s).1.sent ≡ s.sent)
          ⊎ ((out : Outgoing) × ((proxy_as env as_token shared_secret hmac answer req spec path r
                  s).1.sent
                ≡ s.sent ++ out ∷ [])
              × IsAs env as_token (read s.store.azs r) req out)
    unfolding proxy_as
    sent-proxy_as r s =
        let az = read s.store.azs r in
        elim (Result-cases
          (copy_query env az (ends_with req.path (text "/batch_send")) req.query)) [
            | inr (x, raised) ↦ inl (ground (arith, raised))
            | inl (query, copied) ↦
                elim (Result-cases
                  (content_for env as_token shared_secret hmac az req spec path query)) [
                    | inr (x, raised) ↦ inl (ground (arith, copied, raised))
                    | inl (content, made) ↦
                        let (masked, _, _) =
                          copy_query-IsMasked env az (ends_with req.path (text "/batch_send"))
                            req.query query copied in
                        let (out, sent, is) = sent-IsAs s az query content masked in
                        inr (out, ground (arith, copied, made, sent), is)
                  ]
          ]

    -- A call of `proxy` passes on one request or none, where the caches are keyed. One that it passes
    -- on either has the Authorization header of the client, its query and its body, since no
    -- appservice was read from this header, or it is made with the token of asmux, as a user of the namespace of an appservice whose UUID and
    -- token stand in the Authorization header of the client.
    pub proxy-IsAs :
        (s : Proxied)
        → IsKeyed s.store
        → let given = authorization req.headers in
          let (found, t) = find_appservice env false false given s.store in
          let after = (proxy env as_token shared_secret hmac answer req spec path s).1.sent in
          (after ≡ s.sent)
          ⊎ ((out : Outgoing) × (after ≡ s.sent ++ out ∷ [])
              × (((found ≡ ok none) × IsOwn req out)
                  ⊎ ((r : ℕ) × (token : Str) × (read_auth env false given
                        ≡ ok ((read t.azs r).id, token))
                      × ((read t.azs r).as_token ≡ token)
                      × IsAs env as_token (read t.azs r) req out)))
    unfolding proxy proxy_for
    proxy-IsAs s h =
        let given = authorization req.headers in
        let (found, t) = find_appservice env false false given s.store in
        elim (Result-cases found) [
          | inr (x, raised) ↦ inl (ground (arith, raised))
          | inl (none, nobody) ↦
              let (out, sent, is) = sent-IsOwn (record s { store = t }) in
              inr (out, ground (arith, nobody, sent), inl (nobody, is))
          | inl (some r, there) ↦ elim (sent-proxy_as r (record s { store = t })) [
            | inl nothing ↦ inl (ground (arith, there, nothing))
            | inr (out, sent, is) ↦
                let (token, read_as, right) =
                  find_appservice-token env false false given s.store r h there in
                inr (out, ground (arith, there, sent), inr (r, token, read_as, right, is))
          ]
        ]
