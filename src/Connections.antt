-- ===== src/Connections.antt =====
-- The websocket connections of one appservice to one instance: `handle_ws` cut at its `await`s,
-- `close_stale_az_websocket` and `stop` (mautrix_asmux/api/as_websocket.py).
pub mod Current
pub mod Orderly
use mautrix_asmux.Prelude.{
  ℕ, ◌≡◌, Bool, true, false, Option, none, some, List, [], ◌∷◌, ◌++◌, if◌then◌else◌, nat_beq,
}

-- How far the call of `handle_ws` for a connection has come: it has not begun, it has passed the test
-- of `_stopping` and waits for its appservice and the handshake, it has replaced the old connections
-- and waits again, its websocket is registered and served, or it has returned.
pub data Stage : Type 0 where
  idle entered admitted open_ finished : Stage

-- The connections are numbered. `asked` are those that the instance has begun to close, and `given_up`
-- those of them that the consumer of their queue closes.
pub record Registry : Type 0 where
  pub current : Option ℕ
  pub stage : ℕ → Stage
  pub asked : ℕ → Bool
  pub given_up : ℕ → Bool
  pub stopping : Bool
  pub proxy_stops : List ℕ
  pub unreachable : List ℕ

abbrev pub init : Registry
init = record {
  current = none;
  stage = λ _. idle;
  asked = λ _. false;
  given_up = λ _. false;
  stopping = false;
  proxy_stops = [];
  unreachable = [];
}

abbrev pub set_stage : ℕ → Stage → Registry → Registry
set_stage i x r = record r { stage = λ j. if nat_beq i j then x else r.stage j }

abbrev pub ask_to_close : ℕ → Registry → Registry
ask_to_close i r = record r { asked = λ j. if nat_beq i j then true else r.asked j }

-- `close_stale_az_websocket` up to the `await`: the websocket is popped, and its closing begins.
unfoldable pub close_stale : Registry → Registry
close_stale r = elim r.current [ none ↦ r | some i ↦ ask_to_close i (record r { current = none }) ]

-- The consumer of the queue closes its websocket, which stays registered: behind too many timeouts in
-- `_consume_queue_one`, or where `_consume_queue` fails.
unfoldable pub give_up : ℕ → Registry → Registry
give_up i r =
    let closing : Registry = ask_to_close i r in
    record closing { given_up = λ j. if nat_beq i j then true else r.given_up j }

-- `handle_ws` from the handshake up to the wait for the closing and for the notice to the other instances
unfoldable pub admit : ℕ → Registry → Registry
unfolding close_stale
admit i r = set_stage i admitted (close_stale r)

-- `self.websockets[az.id] = ws`, behind which the queue is consumed and the websocket is served
unfoldable pub register : ℕ → Registry → Registry
register i r = set_stage i open_ (record r { current = some i })

unfoldable pub is_current : ℕ → Option ℕ → Bool
is_current i none = false
is_current i (some j) = nat_beq i j

-- The `finally` of `handle_ws`
unfoldable pub finish : ℕ → Registry → Registry
unfolding is_current
finish i r =
    let done : Registry = set_stage i finished r in
    if is_current i r.current
    then record done {
      current = none;
      proxy_stops = r.proxy_stops ++ i ∷ [];
      unreachable = if r.stopping then r.unreachable else r.unreachable ++ i ∷ [];
    }
    else done

-- `stop`, for the websockets of this appservice
unfoldable pub stop : Registry → Registry
stop r = elim r.current [
  | none ↦ record r { stopping = true }
  | some i ↦ ask_to_close i (record r { stopping = true })
]

-- The steps of the instance, in any order: `server_shutting_down` is raised for a request that comes
-- behind `stop`, but not for one that has entered before; `refuses` is an exception between the test
-- and the handshake; `abandons` is one of the notice to the others; `replaced` is the notice of another
-- instance.
pub data Step (r : Registry) : Registry → Type 0 where
  enters : (i : ℕ) → r.stopping ≡ false → r.stage i ≡ idle → Step r (set_stage i entered r)
  refuses : (i : ℕ) → r.stage i ≡ entered → Step r (set_stage i finished r)
  admits : (i : ℕ) → r.stage i ≡ entered → Step r (admit i r)
  registers : (i : ℕ) → r.stage i ≡ admitted → Step r (register i r)
  abandons : (i : ℕ) → r.stage i ≡ admitted → Step r (set_stage i finished r)
  gives_up : (i : ℕ) → r.stage i ≡ open_ → Step r (give_up i r)
  finishes : (i : ℕ) → r.stage i ≡ open_ → Step r (finish i r)
  replaced : Step r (close_stale r)
  stops : Step r (stop r)

pub data Steps (r : Registry) : Registry → Type 0 where
  here : Steps r r
  later : {s t : Registry} → Steps r s → Step s t → Steps r t
