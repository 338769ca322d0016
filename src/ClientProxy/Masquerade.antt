-- ===== src/ClientProxy/Masquerade.antt =====
-- An appservice that the proxy lets in has given its token, and acts only as a user of its own
-- namespace (mautrix_asmux/api/cs_proxy.py).
use mautrix_asmux.Prelude.{
  ℕ, ◌≡◌, ◌≢◌, refl, sym, ap, ◌∙◌, subst, Bool, true, false, Option, none, some, Str, text, str_eq,
  str_beq, str_beq_iff, ◌++◌, if◌then◌else◌, starts_with, ends_with, Option-cases, inl, inr, arith,
  append_assoc, beq_refl,
}
use mautrix_asmux.Errors.{Exn}
use mautrix_asmux.Result.{Result, ok, err}
use mautrix_asmux.Exec.{continue}
use mautrix_asmux.Env.{Env}
use mautrix_asmux.Store.{Store, AppService, read}
use mautrix_asmux.Dict
use mautrix_asmux.Dict.{Dict, get-set, get-remove, get-set_self}
use mautrix_asmux.Database.Azs
use mautrix_asmux.Database.Azs.Keyed.{IsKeyed}
use mautrix_asmux.Database.Azs.Calls.{id-get}
use mautrix_asmux.UserIds.RoundTrip.{starts_with-append, ends_with-append}
use mautrix_asmux.ClientProxy.{
  read_auth, refuse, check_token, find_appservice, namespace_of, clean, with_user_id, copy_query,
}

-- The query names a user of the namespace of the appservice.
unfoldable pub IsMasked : Env → AppService → Dict Str Str → Type 0
IsMasked env az query =
    (user_id : Str) × (Dict.get (text "user_id") query ≡ some user_id)
    × (starts_with user_id (namespace_of env az) ≡ true)
    × (ends_with user_id env.mxid_suffix ≡ true)

with_user_id-IsMasked :
    (env : Env) (az : AppService) (query query' : Dict Str Str)
    → with_user_id env az query ≡ ok query'
    → IsMasked env az query'
unfolding with_user_id IsMasked
with_user_id-IsMasked env az query query' h =
    elim (Option-cases (Dict.get (text "user_id") query)) [
      | inl missing ↦
          let ns = namespace_of env az in
          let own = ns ++ (az.bot ++ env.mxid_suffix) in
          (
            own,
            ground (arith, missing, get-set_self (text "user_id") own query),
            starts_with-append ns (az.bot ++ env.mxid_suffix),
            subst (λ u. ends_with u env.mxid_suffix ≡ true) (append_assoc ns az.bot env.mxid_suffix)
                (ends_with-append (ns ++ az.bot) env.mxid_suffix),
          )
      | inr (user_id, given) ↦
          (user_id, ground (arith, given), ground (arith, given), ground (arith, given))
    ]

with_user_id_other :
    (env : Env) (az : AppService) (query query' : Dict Str Str) (k : Str)
    → str_beq (text "user_id") k ≡ false
    → with_user_id env az query ≡ ok query'
    → Dict.get k query' ≡ Dict.get k query
unfolding with_user_id
with_user_id_other env az query query' k other h =
    ground
      (arith, get-set (text "user_id") k (namespace_of env az ++ (az.bot ++ env.mxid_suffix)) query)

distinct_keys :
    (str_beq (text "user_id") (text "access_token") ≡ false)
    × (str_beq (text "user_id") (text "com.beeper.also_allow_user") ≡ false)
    × (str_beq (text "com.beeper.also_allow_user") (text "access_token") ≡ false)
unfolding text str_beq
distinct_keys = (refl, refl, refl)

get-clean :
    (env : Env) (az : AppService) (batch_send : Bool) (query : Dict Str Str)
    → (Dict.get (text "access_token") (clean env az batch_send query) ≡ none)
      × (Dict.get (text "com.beeper.also_allow_user") (clean env az batch_send query)
          ≡ (if batch_send then some (text "@" ++ (az.owner ++ env.mxid_suffix)) else none))
unfolding clean
get-clean env az batch_send query =
    let a = text "access_token" in
    let u = text "com.beeper.also_allow_user" in
    let owner = text "@" ++ (az.owner ++ env.mxid_suffix) in
    let rest = Dict.remove u (Dict.remove a query) in
    (
      ground (
        arith,
        distinct_keys,
        get-set u a owner rest,
        get-remove u a (Dict.remove a query),
        get-remove a a query,
        beq_refl a,
      ),
      ground (arith, get-set_self u owner rest, get-remove u u (Dict.remove a query), beq_refl u),
    )

-- What `_copy_data` passes on, whatever the query of the request holds, has a `user_id` of the
-- namespace of the appservice and of the homeserver, no access token, and the owner as the one user
-- that is allowed too for a path that ends in /batch_send, and none for another.
pub copy_query-IsMasked :
    (env : Env) (az : AppService) (batch_send : Bool) (query query' : Dict Str Str)
    → copy_query env az batch_send query ≡ ok query'
    → IsMasked env az query'
      × (Dict.get (text "access_token") query' ≡ none)
      × (Dict.get (text "com.beeper.also_allow_user") query'
          ≡ (if batch_send then some (text "@" ++ (az.owner ++ env.mxid_suffix)) else none))
unfolding copy_query
copy_query-IsMasked env az batch_send query query' h = (
  with_user_id-IsMasked env az (clean env az batch_send query) query' h,
  with_user_id_other env az (clean env az batch_send query) query' _ distinct_keys.0 h
      ∙ (get-clean env az batch_send query).0,
  with_user_id_other env az (clean env az batch_send query) query' _ distinct_keys.1 h
      ∙ (get-clean env az batch_send query).1,
)

check_token_lem :
    (token : Str) (found : Result (Option ℕ)) (s : Store) (r : ℕ)
    → (continue found s (check_token token)).0 ≡ ok (some r)
    → (found ≡ ok (some r))
      × ((read s.azs r).as_token ≡ token)
      × ((continue found s (check_token token)).1 ≡ s)
unfolding check_token
check_token_lem token (err e) s r h = cc
check_token_lem token (ok none) s r h = cc
check_token_lem token (ok (some az)) s r h =
    (ground arith, ground (arith, str_beq_iff (read s.azs az).as_token token), ground arith)

refuse_lem : (b : Bool) (e : Exn) (s : Store) (r : ℕ) → (refuse b e s).0 ≢ ok (some r)
unfolding refuse
refuse_lem b e s r h = ground arith

-- Where the caches are keyed, an appservice that is returned was found by the UUID that begins the
-- header, and the rest of the header behind the separator is its token.
pub find_appservice-token :
    (env : Env) (custom raise_errors : Bool) (header : Option Str) (s : Store) (r : ℕ)
    → IsKeyed s
    → (find_appservice env custom raise_errors header s).0 ≡ ok (some r)
    → (token : Str) × (read_auth env custom header
        ≡ ok ((read (find_appservice env custom raise_errors header s).1.azs r).id, token))
      × ((read (find_appservice env custom raise_errors header s).1.azs r).as_token ≡ token)
unfolding find_appservice
find_appservice-token env custom raise_errors header s r h e =
    elim (read_auth env custom header)
        as (λ v.
          let x : Result (Option ℕ) × Store = elim v [
            | err e ↦ refuse raise_errors e s
            | ok (uuid, token) ↦
                let (found, s') = Azs.get uuid s in continue found s' (check_token token)
          ] in
          x.0 ≡ ok (some r)
          → (token : Str) × (v ≡ ok ((read x.1.azs r).id, token))
            × ((read x.1.azs r).as_token ≡ token)) [
              | err e ↦ λ q. absurd (refuse_lem raise_errors e s r q)
              | ok (uuid, token) ↦ λ q.
                  let (found, s') = Azs.get uuid s in
                  let (is, given, same) = check_token_lem token found s' r q in
                  (
                    token,
                    ap (λ id. ok (id, token))
                        (sym (ap (λ (t : Store). (read t.azs r).id) same ∙ id-get uuid r h is)),
                    ap (λ (t : Store). (read t.azs r).as_token) same ∙ given,
                  )
            ]
      e
