-- ===== src/Tests/Instances.antt =====
-- Connections that come and go, and requests between instances.
use mautrix_asmux.Prelude.{
  ℕ, ◌+◌, ◌≤◌, ◌≡◌, ◌≢◌, ◌⊎◌, refl, true, false, Option, none, some, [], ◌∷◌, ◌++◌, text, str_eq,
  one_of, nat_beq, if◌then◌else◌, arith,
}
use mautrix_asmux.Json.{str, Fields}
use mautrix_asmux.Connections.{
  Registry, init, entered, admitted, open_, set_stage, admit, register, Steps, here, later, enters,
  admits, registers,
}
use mautrix_asmux.Connections
use mautrix_asmux.Connections.Current.{current-served}
use mautrix_asmux.Connections.Orderly.{
  Orderlies, begin, then_, admits_alone, goes_on, orderly-single, overlap,
}
use mautrix_asmux.Requester
use mautrix_asmux.Requester.{
  Answer, replied, request_timed_out, handle_request_over_redis, Posted, posted, command_result,
  result_fields, exec_command, exec_response, Handler,
}
use mautrix_asmux.Requester.Attempts.{Replied, IsSilent, handle_request_ends}
use mautrix_asmux.Requester.InFlight
use mautrix_asmux.Requester.InFlight.{Runs, message, looked_up, count, HasNoOverlap, Runs-once}

unfoldable connecting : Unit {0}
unfolding Connections.close_stale Connections.admit Connections.register Connections.is_current
    Connections.finish
connecting = tt

-- One connection, registered.
abbrev one : Registry
one = register 0 (admit 0 (set_stage 0 entered init))

one-Steps : Steps init one
unfolding connecting
one-Steps = later (later (later here (enters 0 refl refl)) (admits 0 refl)) (registers 0 refl)

one_current : one.current ≡ some 0
unfolding connecting
one_current = refl

current-served_example :
    (one.stage 0 ≡ open_)
    × ((one.stopping ≡ true) ⊎ ((one.given_up 0 ≡ true) ⊎ (one.asked 0 ≡ false)))
current-served_example = current-served one 0 one-Steps one_current

entered_first : (i : ℕ) → init.stage i ≢ admitted → (set_stage 0 entered init).stage i ≢ admitted
entered_first i h e = ground arith

none_waits :
    (i : ℕ) → (admit 0 (set_stage 0 entered init)).stage i ≢ admitted → one.stage i ≢ admitted
unfolding connecting
none_waits i h e = ground arith

one-Orderlies : Orderlies init one
unfolding connecting
one-Orderlies =
    then_
      (then_ (then_ begin (goes_on entered_first (enters 0 refl refl)))
        (admits_alone 0 (λ j e. ground arith) refl))
      (goes_on none_waits (registers 0 refl))

one_open : (one.stage 0 ≡ open_) × (one.asked 0 ≡ false)
unfolding connecting
one_open = (refl, refl)

orderly-single_example : ◌≡◌ {A = ℕ} 0 0
orderly-single_example =
    orderly-single one 0 0 one-Orderlies one_open.0 one_open.0 one_open.1 one_open.1

-- Two connections that wait.
abbrev two : Registry
two = admit 1 (admit 0 (set_stage 1 entered (set_stage 0 entered init)))

two_waits : (two.stage 0 ≡ admitted) × (two.stage 1 ≡ admitted) × (two.asked 0 ≡ false)
unfolding connecting
two_waits = (refl, refl, refl)

overlap_example :
    (s : Registry) × Steps two s
    × (s.stage 0 ≡ open_)
    × (s.asked 0 ≡ false)
    × (s.current ≡ none)
    × (s.proxy_stops ≡ two.proxy_stops ++ 1 ∷ [])
overlap_example = overlap two 0 1 (λ e. omega arith) two_waits.0 two_waits.1 two_waits.2

abbrev success : Posted
success = posted (some (str (text "hi")))

abbrev replies : ℕ → Option Fields
replies k = if nat_beq k 2 then some (result_fields (command_result success)) else none

handle_request_ends_example :
    Replied replies 1 (handle_request_over_redis replies)
    ⊎ (IsSilent replies 1 6 × (handle_request_over_redis replies ≡ some (request_timed_out, 5)))
handle_request_ends_example = handle_request_ends replies

success_text : Requester.is_container (command_result success).1 ≡ false
unfolding command_result Requester.is_container
success_text = refl

-- The message of a request comes twice, the second time while the first call runs.
abbrev started : Handler
started = Requester.begin_request true (text "a") (Requester.check_request (text "a") InFlight.idle)

abbrev twice : Handler
twice = Requester.check_request (text "a") started

twice_runs : Runs InFlight.idle twice
unfolding Requester.begin_request Requester.check_request Requester.without_first one_of text
    mautrix_asmux.Prelude.str_beq
twice_runs =
    InFlight.later
      (InFlight.later (InFlight.later InFlight.here (message (text "a")) tt refl)
        (looked_up true (text "a")) (omega arith) refl)
      (message (text "a")) tt refl

twice_alone : HasNoOverlap twice_runs
unfolding Requester.begin_request Requester.check_request Requester.without_first one_of text
    mautrix_asmux.Prelude.str_beq InFlight.HasNoOverlap twice_runs
twice_alone = (((tt, refl), tt), refl)

Runs-once_example :
    (count (text "a") twice.begun
      ≤ count (text "a") twice.ended + (if one_of (text "a") twice.in_flight then 1 else 0))
    × (count (text "a") twice.ended ≤ count (text "a") twice.begun)
Runs-once_example = Runs-once (text "a") twice twice_runs twice_alone
