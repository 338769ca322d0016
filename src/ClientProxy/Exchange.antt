-- ===== src/ClientProxy/Exchange.antt =====
-- Only the password that the login token of the user proves is exchanged
-- (mautrix_asmux/api/cs_proxy.py).
use mautrix_asmux.Prelude.{
  ◌≡◌, ◌⊎◌, inl, inr, refl, Bool, true, false, Option, none, some, Str, text, str_eq, is_empty,
  arith, Option-cases, Bool-cases,
}
use mautrix_asmux.Result.{Result, ok, err}
use mautrix_asmux.Exec.{continue, lift}
use mautrix_asmux.Json.{set_field, str, Fields, get, is_text}
use mautrix_asmux.Json.Texts.{is_text_lem}
use mautrix_asmux.Env.{Env}
use mautrix_asmux.Store.{Store}
use mautrix_asmux.ClientProxy.Login.{
  user_id_of, find_login_token, exchange, with_found, try_convert, caught, convert_login_password,
}

module _ (hmac : Str → Str → Str) (shared_secret : Str) (body : Fields) where
  -- The password that was given is the digest of the user id by the token, and is replaced by the
  -- digest by the shared secret.
  pub record Proven (user_id : Str) (token : Option Str) (body' : Fields) : Type 0 where
    pub login_token : Str
    pub found : token ≡ some login_token
    pub not_empty : is_empty login_token ≡ false
    pub given : get (text "password") body ≡ some (str (hmac login_token user_id))
    pub replaced : body' ≡ set_field (text "password") (str (hmac shared_secret user_id)) body

  exchange_lem :
      (user_id : Str) (token : Option Str) (b : Bool) (body' : Fields)
      → exchange hmac shared_secret body user_id token ≡ ok (b, body')
      → ((b ≡ false) × (body' ≡ body)) ⊎ ((b ≡ true) × Proven user_id token body')
  unfolding exchange
  exchange_lem user_id none b body' h = inl (ground arith, ground arith)
  exchange_lem user_id (some t) b body' h = elim (Bool-cases (is_empty t)) [
    | inl no_token ↦ inl (ground (arith, no_token), ground (arith, no_token))
    | inr token ↦ elim (Option-cases (get (text "password") body)) [
      | inl missing ↦ absurd (ground (arith, token, missing))
      | inr (v, there) ↦ elim (Bool-cases (is_text (hmac t user_id) (some v))) [
        | inr wrong ↦ inl (ground (arith, token, there, wrong), ground (arith, token, there, wrong))
        | inl right ↦ inr (
          ground (arith, token, there, right),
          record {
            login_token = t;
            found = refl;
            not_empty = token;
            given = ground (arith, there, is_text_lem (hmac t user_id) v right);
            replaced = ground (arith, token, there, right);
          },
        )
      ]
    ]
  ]

  module _ (env : Env) (parse : Str → Option Str) (s : Store) where
    -- Either nothing is changed, or the user that the body names has a login token which the
    -- password proves.
    unfoldable pub Converted : Bool → Fields → Type 0
    Converted b body' =
        ((b ≡ false) × (body' ≡ body))
        ⊎ ((b ≡ true)
            × ((user_id : Str) × (user_id_of body ≡ ok (some user_id))
                × ((token : Option Str) × ((find_login_token env parse user_id s).0 ≡ ok token)
                    × Proven user_id token body')))

    found_lem :
        (user_id : Str) (found : Result (Option Str)) (t : Store) (b : Bool) (body' : Fields)
        → user_id_of body ≡ ok (some user_id)
        → (find_login_token env parse user_id s).0 ≡ found
        → (continue found t (λ token. lift (exchange hmac shared_secret body user_id token))).0
          ≡ ok (b, body')
        → Converted b body'
    unfolding Converted
    found_lem user_id (err e) t b body' named q h = cc
    found_lem user_id (ok token) t b body' named q h = elim (exchange_lem user_id token b body' h) [
      | inl kept ↦ inl kept
      | inr (is, proven) ↦ inr (is, (user_id, named, (token, q, proven)))
    ]

    with_found_lem :
        (user_id : Option Str) (b : Bool) (body' : Fields)
        → user_id_of body ≡ ok user_id
        → (with_found hmac shared_secret env parse body user_id s).0 ≡ ok (b, body')
        → Converted b body'
    unfolding with_found Converted
    with_found_lem none b body' named h = inl (ground arith, ground arith)
    with_found_lem (some user_id) b body' named h =
        let (found, t) = find_login_token env parse user_id s in
        found_lem user_id found t b body' named refl h

    read_lem :
        (user_id : Result (Option Str)) (b : Bool) (body' : Fields)
        → user_id_of body ≡ user_id
        → (continue user_id s (with_found hmac shared_secret env parse body)).0 ≡ ok (b, body')
        → Converted b body'
    read_lem (err e) b body' named h = cc
    read_lem (ok user_id) b body' named h = with_found_lem user_id b body' named h

    try_convert_lem :
        (b : Bool) (body' : Fields)
        → (try_convert hmac shared_secret env parse body s).0 ≡ ok (b, body')
        → Converted b body'
    unfolding try_convert Converted
    try_convert_lem b body' h = elim (Option-cases (get (text "type") body)) [
      | inl missing ↦ absurd (ground (arith, missing))
      | inr (v, there) ↦ elim (Bool-cases (is_text (text "m.login.password") (some v))) [
        | inr other ↦ inl (ground (arith, there, other), ground (arith, there, other))
        | inl password ↦
            read_lem (user_id_of body) b body' refl (rw (there, try_convert, password) at h)
      ]
    ]

    caught_lem :
        (r : Result (Bool × Fields)) (b : Bool) (body' : Fields)
        → caught hmac shared_secret body r ≡ ok (b, body')
        → (r ≡ ok (b, body')) ⊎ ((b ≡ false) × (body' ≡ body))
    unfolding caught
    caught_lem r b body' h = ground arith

    -- When `convert_login_password` returns, it has returned false and left the body as it was, or
    -- it has returned true, the password in the body was the digest of the user id that the body
    -- names by a login token which was found for this user, and that password alone was replaced by
    -- the digest by the shared secret.
    pub convert_login_password-Converted :
        (b : Bool) (body' : Fields)
        → (convert_login_password hmac shared_secret env parse body s).0 ≡ ok (b, body')
        → Converted b body'
    unfolding convert_login_password Converted
    convert_login_password-Converted b body' h = elim (Bool-cases (is_empty shared_secret)) [
      | inl off ↦ inl (ground (arith, off), ground (arith, off))
      | inr on ↦
          let (r, t) = try_convert hmac shared_secret env parse body s in
          elim (caught_lem r b body' (rw (on, convert_login_password) at h)) [
            | inl returned ↦ try_convert_lem b body' returned
            | inr kept ↦ inl kept
          ]
    ]
