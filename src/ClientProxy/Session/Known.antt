-- ===== src/ClientProxy/Session/Known.antt =====
-- The user ids that the proxy remembers (mautrix_asmux/api/cs_proxy.py).
use mautrix_asmux.Prelude.{
  ◌≡◌, ◌⊎◌, inl, inr, some, List, [], ◌∷◌, Str, str_eq, str_beq_iff, arith, Option-cases,
}
use mautrix_asmux.Result.{ok, Result-cases}
use mautrix_asmux.Json.{Json}
use mautrix_asmux.Dict
use mautrix_asmux.Dict.{Dict, get-set}
use mautrix_asmux.ClientProxy.Session.{Reply, whoami_user, remember, get_user_id}

-- Calls with the token and the answer that the homeserver would give to it, the latest first.
abbrev Calls : Type 0
Calls = List (Str × Reply)

-- In one of the calls, the homeserver has named this user for the token.
unfoldable pub Said : Calls → Str → Json → Type 0
Said [] token user_id = ⊥
Said ((t, reply) ∷ calls) token user_id =
    ((t ≡ token) × (whoami_user reply ≡ ok user_id)) ⊎ Said calls token user_id

unfoldable pub user_ids_after : (Str → Str) → Calls → Dict Str Json
unfolding get_user_id
user_ids_after hash [] = []
user_ids_after hash ((token, reply) ∷ calls) =
    (get_user_id hash reply token (user_ids_after hash calls)).1

module _ (hash : Str → Str) (injective : (a b : Str) → hash a ≡ hash b → a ≡ b) where
  record IsTrue (calls : Calls) (user_ids : Dict Str Json) : Type 0 where
    said :
        (token : Str) (user_id : Json)
        → Dict.get (hash token) user_ids ≡ some user_id
        → Said calls token user_id

  get_user_id-IsTrue :
      (reply : Reply) (token : Str) (calls : Calls) (user_ids : Dict Str Json)
      → IsTrue calls user_ids
      → IsTrue ((token, reply) ∷ calls) (get_user_id hash reply token user_ids).1
  unfolding get_user_id remember Said
  get_user_id-IsTrue reply token calls user_ids h = record {
    said = λ t u e. elim (Option-cases (Dict.get (hash token) user_ids)) [
      | inr (known, hit) ↦ inr (h.said t u (ground (arith, hit, e)))
      | inl miss ↦ elim (Result-cases (whoami_user reply)) [
        | inr (x, raised) ↦ inr (h.said t u (ground (arith, miss, raised, e)))
        | inl (v, answer) ↦ ground (
          arith,
          miss,
          answer,
          e,
          injective token t,
          h.said t u,
          str_beq_iff (hash token) (hash t),
          get-set (hash token) (hash t) v user_ids,
        )
      ]
    ];
  }

  user_ids_after-IsTrue : (calls : Calls) → IsTrue calls (user_ids_after hash calls)
  unfolding user_ids_after Dict.get
  user_ids_after-IsTrue [] = record { said = λ t u e. cc }
  user_ids_after-IsTrue ((token, reply) ∷ calls) =
      get_user_id-IsTrue reply token calls (user_ids_after hash calls) (user_ids_after-IsTrue calls)

  -- Behind any calls of `get_user_id`, the user id that it returns for a token is one that the
  -- homeserver has given in an answer to this token, now or in one of these calls, where no two
  -- tokens have the same hash.
  pub get_user_id-Said :
      (calls : Calls) (reply : Reply) (token : Str) (user_id : Json)
      → (get_user_id hash reply token (user_ids_after hash calls)).0 ≡ ok user_id
      → Said ((token, reply) ∷ calls) token user_id
  unfolding get_user_id remember Said
  get_user_id-Said calls reply token user_id e =
      ground (arith, e, (user_ids_after-IsTrue calls).said token user_id)
