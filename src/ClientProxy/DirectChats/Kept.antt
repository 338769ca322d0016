-- ===== src/ClientProxy/DirectChats/Kept.antt =====
-- What `update_dms` changes in the direct chats of a user (mautrix_asmux/api/cs_proxy.py).
use mautrix_asmux.Prelude.{
  Bool-cases, ℕ, ◌≡◌, inl, inr, refl, ap, ◌∙◌, Bool, true, false, ◌&&◌, Option, none, some, List,
  [], ◌∷◌, ◌++◌, Str, str_eq, str_beq_iff, if◌then◌else◌, arith,
}
use mautrix_asmux.Result.{ok, Result-cases}
use mautrix_asmux.Json.{set_field, Json, obj, str, Fields, end, field, get, is_text}
use mautrix_asmux.Json.Texts.{get-set_field}
use mautrix_asmux.Env.{Env}
use mautrix_asmux.Store.{AppService, read}
use mautrix_asmux.ClientProxy.{find_appservice}
use mautrix_asmux.ClientProxy.Session.{Reply, checked, get_user_id}
use mautrix_asmux.ClientProxy.DirectChats.{
  is_current, remove_current_dms, update_with, current_dms, new_dms, Session, Replies, owner_of,
  replace_dms, update_for, update_dms, bearer_token, asserted,
}

-- The first of the two values that is there.
abbrev pub or_else : {A : Type 0} → Option A → Option A → Option A
or_else none b = b
or_else (some a) b = some a

-- No key comes twice, as in any dict.
unfoldable pub IsDict : Fields → Type 0
unfolding get
IsDict end = Unit
IsDict (field k _ d) = (get k d ≡ none) × IsDict d

get-remove_current_dms :
    (env : Env) (az : AppService) (k : Str) (d : Fields)
    → get k (remove_current_dms env az d) ≡ (if is_current env az k then none else get k d)
unfolding get remove_current_dms
get-remove_current_dms env az k end = ground arith
get-remove_current_dms env az k (field j v d) =
    ground (arith, str_beq_iff j k, get-remove_current_dms env az k d)

get-update_with :
    (k : Str) (d body : Fields)
    → IsDict body
    → get k (update_with d body) ≡ or_else (get k body) (get k d)
unfolding get update_with IsDict
get-update_with k d end h = refl
get-update_with k d (field j v body) (fresh, h) =
    ground
      (arith, str_beq_iff j k, get-update_with k (set_field j v d) body h, get-set_field j k v d)

-- What is put for `k`, by what the account data has and the request says.
abbrev pub chosen : Env → AppService → Bool → Str → Fields → Fields → Option Json
chosen env az is_put k body dms =
    or_else (get k body) (if is_put && is_current env az k then none else get k dms)

new_dms_lem :
    (env : Env) (az : AppService) (is_put : Bool) (k : Str) (body new : Fields) (dms : Json)
    → IsDict body
    → new_dms env az is_put body dms ≡ ok new
    → (d : Fields) × (dms ≡ obj d) × (get k new ≡ chosen env az is_put k body d)
unfolding new_dms
new_dms_lem env az true k body new (obj d) h e = (
  d,
  refl,
  ground (
    arith,
    get-update_with k (remove_current_dms env az d) body h,
    get-remove_current_dms env az k d,
  ),
)
new_dms_lem env az false k body new (obj d) h e =
    (d, refl, ground (arith, get-update_with k d body h))
new_dms_lem env az is_put k body new (str s) h e = cc
new_dms_lem env az is_put k body new _ h e = cc

-- What a call leaves where it returns: one more list of chats is put, for the owner of `az`.
pub record Put (env : Env) (az : AppService) (is_put : Bool) (k : Str) (body : Fields)
    (current : Reply) (before after : List (Str × Fields)) : Type 0 where
  pub dms : Fields
  pub new : Fields
  pub read : current_dms (checked current) ≡ ok (obj dms)
  pub put : after ≡ before ++ (owner_of env az, new) ∷ []
  pub kept : get k new ≡ chosen env az is_put k body dms

replace_dms-Put :
    (env : Env) (az : AppService) (is_put : Bool) (k : Str) (body : Fields) (replies : Replies)
    (s : Session)
    → IsDict body
    → (replace_dms env az is_put body replies s).0 ≡ ok tt
    → Put env az is_put k body replies.current s.puts
        (replace_dms env az is_put body replies s).1.puts
unfolding replace_dms
replace_dms-Put env az is_put k body replies s h e =
    elim (Result-cases (current_dms (checked replies.current))) [
      | inr (x, raised) ↦ ground (arith, raised)
      | inl (dms, read) ↦ elim (Result-cases (new_dms env az is_put body dms)) [
        | inr (x, raised) ↦ ground (arith, read, raised)
        | inl (new, built) ↦
            let (d, same, kept) = new_dms_lem env az is_put k body new dms h built in
            record {
              dms = d;
              new = new;
              read = read ∙ ap ok same;
              put = ground (arith, read, built);
              kept = kept;
            }
      ]
    ]

update_for-Put :
    (env : Env) (is_put : Bool) (k : Str) (body : Fields) (replies : Replies) (user_id : Json)
    (r : ℕ) (s : Session)
    → IsDict body
    → (update_for env is_put body replies user_id r s).0 ≡ ok tt
    → (is_text (owner_of env (read s.store.azs r)) (some user_id) ≡ true)
      × Put env
          (read s.store.azs r)
          is_put
          k
          body
          replies.current
          s.puts
          (update_for env is_put body replies user_id r s).1.puts
unfolding update_for
update_for-Put env is_put k body replies user_id r s h e =
    elim (Bool-cases (is_text (owner_of env (read s.store.azs r)) (some user_id))) [
      | inr other ↦ ground (arith, other)
      | inl own ↦ (
        own,
        rw own (
            replace_dms-Put env (read s.store.azs r) is_put k body replies s h
              (ground (arith, own))),
      )
    ]

-- Where `update_dms` returns, the token of Authorization is that of the owner of the appservice whose
-- token stands in X-Asmux-Auth, and one list of direct chats is put for this user. In it, each user
-- `k` has the rooms that the request gives, or else those that he had, but a PUT drops the users of
-- this bridge that the request does not name, other than the one that is called "bot" behind the prefix
-- of the bridge, whatever the bot of the appservice is called.
pub update_dms-Put :
    (env : Env) (hash : Str → Str) (is_put : Bool) (authorization asmux_auth : Option Str)
    (body : Fields) (replies : Replies) (s : Session) (k : Str)
    → IsDict body
    → (update_dms env hash is_put authorization asmux_auth (some body) replies s).0 ≡ ok tt
    → (token : Str) × (bearer_token authorization ≡ ok token)
      × (user_id : Json) × ((get_user_id hash replies.whoami token s.user_ids).0 ≡ ok user_id)
      × (r : ℕ) × ((find_appservice env true true asmux_auth s.store).0 ≡ ok (some r))
      × (is_text
            (owner_of env (read (find_appservice env true true asmux_auth s.store).1.azs r))
            (some user_id)
          ≡ true)
      × Put env
          (read (find_appservice env true true asmux_auth s.store).1.azs r)
          is_put
          k
          body
          replies.current
          s.puts
          (update_dms env hash is_put authorization asmux_auth (some body) replies s).1.puts
unfolding update_dms asserted
update_dms-Put env hash is_put authorization asmux_auth body replies s k h e =
    elim (Result-cases (bearer_token authorization)) [
      | inr (x, raised) ↦ ground (arith, raised)
      | inl (token, given) ↦
          let (named, user_ids) = get_user_id hash replies.whoami token s.user_ids in
          elim (Result-cases named) [
            | inr (x, raised) ↦ ground (arith, given, raised)
            | inl (user_id, said) ↦
                let (found, store) = find_appservice env true true asmux_auth s.store in
                elim (Result-cases found) [
                  | inr (x, raised) ↦ ground (arith, given, said, raised)
                  | inl (none, nobody) ↦ ground (arith, given, said, nobody)
                  | inl (some r, there) ↦
                      let t : Session = record s { user_ids = user_ids; store = store } in
                      let (own, put) =
                        update_for-Put env is_put k body replies user_id r t h
                          (ground (arith, given, said, there)) in
                      (
                        token,
                        given,
                        user_id,
                        said,
                        r,
                        there,
                        own,
                        record {
                          dms = put.dms;
                          new = put.new;
                          read = put.read;
                          put = ground (arith, given, said, there, put.put);
                          kept = put.kept;
                        },
                      )
                ]
          ]
    ]
