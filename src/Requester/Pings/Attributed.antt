-- ===== src/Requester/Pings/Attributed.antt =====
-- What the caller of a ping gets (mautrix_asmux/api/as_requester.py).
use mautrix_asmux.Prelude.{
  ℕ, ◌≤◌, ◌≡◌, refl, inl, inr, beq_refl, false, Option, none, some, [], ◌∷◌, Str, text, str_eq,
  arith, All, is_empty,
}
use mautrix_asmux.Result.{ok, Result-cases}
use mautrix_asmux.Json.Texts.{get-set_field}
use mautrix_asmux.Json.{set_field, Json, null, obj, Fields, get}
use mautrix_asmux.Dict.{Dict}
use mautrix_asmux.Env.{Env}
use mautrix_asmux.Store.{AppService}
use mautrix_asmux.Util.{owner_mxid}
use mautrix_asmux.Requester.Attempts.{IsSilent, first_reply}
use mautrix_asmux.Requester.Pongs.{
  make_ping_error, BridgeState, GlobalBridgeState, HttpPong, Library,
}
use mautrix_asmux.Requester.Pings.{
  or_text, attribute, attribute_all, without_remote, read_reply, request_bridge_ping, finish_ping,
  pong_of, or_fatal, ping,
}

-- A remote state names the user, and has a source.
pub record IsOf (user_id : Str) (state : Str × BridgeState) : Type 0 where
  pub user : state.1.user_id ≡ some user_id
  pub origin : Str
  pub source : state.1.source ≡ some origin
  pub not_empty : is_empty origin ≡ false

abbrev pub states_of : Option (Dict Str BridgeState) → Dict Str BridgeState
states_of none = []
states_of (some states) = states

or_text_lem : (a : Option Str) (b : Str) → is_empty b ≡ false → is_empty (or_text a b) ≡ false
unfolding or_text
or_text_lem a b h = ground arith

attribute-IsOf :
    (user_id : Str) (now : ℕ) (states : Dict Str BridgeState)
    → All (IsOf user_id) (attribute user_id now states)
unfolding attribute text
attribute-IsOf user_id now [] = tt
attribute-IsOf user_id now ((key, remote) ∷ states) = (
  record {
    user = refl;
    origin = or_text remote.source (text "bridge");
    source = refl;
    not_empty = or_text_lem remote.source (text "bridge") refl;
  },
  attribute-IsOf user_id now states,
)

-- What a ping that returns says of its sender.
pub record IsAttributed (env : Env) (az : AppService) (pong : GlobalBridgeState) : Type 0 where
  pub user : pong.bridge_state.user_id ≡ some (owner_mxid env az.owner)
  pub no_id : pong.bridge_state.remote_id ≡ none
  pub no_name : pong.bridge_state.remote_name ≡ none
  pub remotes : All (IsOf (owner_mxid env az.owner)) (states_of pong.remote_states)

finish_ping-IsAttributed :
    (lib : Library) (env : Env) (az : AppService) (now : ℕ) (pong : GlobalBridgeState)
    → IsAttributed env az (finish_ping lib env az now pong)
unfolding finish_ping attribute_all
finish_ping-IsAttributed lib env az now pong = record {
  user = refl;
  no_id = refl;
  no_name = refl;
  remotes =
      elim pong.remote_states
        as (λ r.
          All (IsOf (owner_mxid env az.owner))
            (states_of (attribute_all (owner_mxid env az.owner) now r))) [
              | none ↦ tt
              | some states ↦ attribute-IsOf (owner_mxid env az.owner) now states
            ];
}

-- Whatever a bridge answers to a ping, or does not answer, and whatever exception is raised on the
-- way, the caller gets a state of the bridge that names the owner of the appservice as the user, and
-- no remote id or name, and so does each remote state, which has a source as well.
pub ping-IsAttributed :
    (lib : Library) (env : Env) (az : AppService) (now : ℕ) (http : HttpPong)
    (replies : ℕ → Option Json)
    → IsAttributed env az (ping lib env az now http replies)
unfolding ping
ping-IsAttributed lib env az now http replies =
    finish_ping-IsAttributed lib env az now (or_fatal lib (pong_of lib az http replies))

get-without_remote :
    (d : Fields)
    → get (text "remote_states") d ≡ none
    → (w : Fields) × (without_remote (obj d) ≡ ok (obj w))
      × (get (text "remoteState") w ≡ some null)
unfolding without_remote
get-without_remote d h =
    let w = set_field (text "remoteState") null d in
    (
      w,
      ground (arith, h),
      ground (
        arith,
        get-set_field (text "remoteState") (text "remoteState") null d,
        beq_refl (text "remoteState"),
      ),
    )

request_bridge_ping_lem :
    (lib : Library) (replies : ℕ → Option Json) (k : ℕ) (d : Fields)
    → ((w : Fields) (g : GlobalBridgeState)
        → get (text "remoteState") w ≡ some null
        → lib.deserialize (obj w) ≡ ok g
        → g.remote_states ≡ none)
    → 1 ≤ k
    → k ≤ 5
    → IsSilent replies 1 k
    → replies k ≡ some (obj d)
    → get (text "remote_states") d ≡ none
    → (or_fatal lib (request_bridge_ping lib replies)).remote_states ≡ none
unfolding request_bridge_ping read_reply or_fatal make_ping_error
request_bridge_ping_lem lib replies k d drops low high silent reply unnamed =
    let (w, is, no_remote) = get-without_remote d unnamed in
    let first = first_reply replies k (obj d) low high silent reply in
    elim (Result-cases (lib.deserialize (obj w))) [
      | inr (x, raised) ↦ ground (arith, first, is, raised)
      | inl (g, read) ↦ ground (arith, first, is, read, drops w g no_remote read)
    ]

-- A ping over a websocket loses the remote states of the bridge: where the other instance replies
-- with an object that has them under "remoteState", and so has no key "remote_states", the caller
-- gets none, if `deserialize` takes a null there for none.
pub ping_forgets :
    (lib : Library) (env : Env) (az : AppService) (now : ℕ) (http : HttpPong)
    (replies : ℕ → Option Json) (k : ℕ) (d : Fields)
    → az.push ≡ false
    → ((w : Fields) (g : GlobalBridgeState)
        → get (text "remoteState") w ≡ some null
        → lib.deserialize (obj w) ≡ ok g
        → g.remote_states ≡ none)
    → 1 ≤ k
    → k ≤ 5
    → IsSilent replies 1 k
    → replies k ≡ some (obj d)
    → get (text "remote_states") d ≡ none
    → (ping lib env az now http replies).remote_states ≡ none
unfolding ping pong_of finish_ping attribute_all
ping_forgets lib env az now http replies k d websocket drops low high silent reply unnamed =
    ground (
      arith,
      websocket,
      request_bridge_ping_lem lib replies k d drops low high silent reply unnamed,
    )
