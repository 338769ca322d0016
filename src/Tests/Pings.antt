-- ===== src/Tests/Pings.antt =====
-- Pings.
use mautrix_asmux.Prelude.{
  ℕ, ◌≡◌, refl, Option, none, some, List, [], ◌∷◌, Str, text, str_eq, arith,
}
use mautrix_asmux.Json.{Json, null, obj, Fields, end, field, get}
use mautrix_asmux.Result.{Result, ok, err}
use mautrix_asmux.Errors.{type_error}
use mautrix_asmux.Requester.Pongs.{BridgeState, GlobalBridgeState, HttpPong, Library}
use mautrix_asmux.Requester.Pings.{ping}
use mautrix_asmux.Requester.Pings.Attributed.{IsAttributed, ping-IsAttributed, ping_forgets}
use mautrix_asmux.Tests.Samples.{env, az, running}

abbrev state : BridgeState
state = record {
  state_event = text "RUNNING";
  user_id = none;
  remote_id = none;
  remote_name = none;
  source = none;
  timestamp = none;
  error = none;
  message = none;
}

-- One remote state is read where there is an object.
abbrev remotes : Option Json → Option (List (Str × BridgeState))
remotes (some (obj (field k _ _))) = some ((k, state) ∷ [])
remotes _ = none

abbrev read_state : Json → Result GlobalBridgeState
read_state (obj d) =
    ok (record { remote_states = remotes (get (text "remoteState") d); bridge_state = state })
read_state _ = err type_error

abbrev lib : Library
lib = record {
  key_of = λ _. text "none";
  deserialize = read_state;
  fill = λ s. s;
  show = λ _. text "error";
  show_number = λ _. text "number";
}

abbrev pong : Fields
pong = field (text "remoteState") (obj (field (text "x") null end)) end

abbrev replies : ℕ → Option Json
replies _ = some (obj pong)

ping-IsAttributed_example : IsAttributed env az (ping lib env az 5 HttpPong.timed_out replies)
ping-IsAttributed_example = ping-IsAttributed lib env az 5 HttpPong.timed_out replies

unnamed : get (text "remote_states") pong ≡ none
unfolding running
unnamed = refl

drops :
    (w : Fields) (g : GlobalBridgeState)
    → get (text "remoteState") w ≡ some null
    → read_state (obj w) ≡ ok g
    → g.remote_states ≡ none
drops w g h e = ground (arith, h, e)

ping_forgets_example : (ping lib env az 5 HttpPong.timed_out replies).remote_states ≡ none
ping_forgets_example =
    ping_forgets lib env az 5 HttpPong.timed_out replies 1 pong refl drops (omega arith)
      (omega arith) (λ j low high. absurd (omega arith)) refl unnamed
