-- ===== src/Websocket/Settled.antt =====
-- The end of the requests of a `WebsocketHandler`, and the closing of the waiters
-- (mautrix_asmux/api/websocket_util.py).
use mautrix_asmux.Prelude.{
  ℕ, ◌≤◌, ◌≡◌, refl, Bool, true, false, Option, List, [], ◌∷◌, Str, arith, if◌then◌else◌, nat_eq,
  nat_beq, is_some, All,
}
use mautrix_asmux.Dict
use mautrix_asmux.Dict.{Dict, get-set, get-remove}
use mautrix_asmux.Websocket.{
  Future, absent, pending, closed, Socket, close_waiter, close_waiters, clear_request_waiters,
  opened, Input, react, handle,
}
use mautrix_asmux.Websocket.Pending.{IsTracked, is_acceptable, react-IsTracked, opened-IsTracked}

unfoldable pub close : Future → Future
close pending = closed
close f = f

close-close : (f : Future) → close (close f) ≡ close f
unfolding close
close-close f = ground arith

close_waiter_lem :
    (j id : ℕ) (s : Socket)
    → (close_waiter s id).futures j ≡ (if nat_beq id j then close (s.futures j) else s.futures j)
unfolding close close_waiter
close_waiter_lem j id s = ground arith

-- Closing the waiters closes the pending futures that they have, and no other.
pub clear_lem :
    (j : ℕ) (waiters : Dict ℕ Str) (s : Socket)
    → (close_waiters waiters s).futures j
      ≡ (if is_some (Dict.get j waiters) then close (s.futures j) else s.futures j)
unfolding close_waiters Dict.get
clear_lem j [] s = ground arith
clear_lem j ((id, c) ∷ waiters) s = ground (
  arith,
  clear_lem j waiters (close_waiter s id),
  close_waiter_lem j id s,
  close-close (s.futures j),
)

prev-close_waiters :
    (waiters : Dict ℕ Str) (s : Socket) → (close_waiters waiters s).prev_req_id ≡ s.prev_req_id
unfolding close_waiters close_waiter
prev-close_waiters [] s = refl
prev-close_waiters ((id, _) ∷ waiters) s =
    ground (arith, prev-close_waiters waiters (close_waiter s id))

prev-clear : (s : Socket) → (clear_request_waiters s).prev_req_id ≡ s.prev_req_id
unfolding clear_request_waiters
prev-clear s = prev-close_waiters s.request_waiters s

-- Answered, cancelled, or closed with the connection.
unfoldable pub is_settled : Future → Bool
is_settled absent = false
is_settled pending = false
is_settled _ = true

clear_settles :
    {s : Socket}
    → IsTracked s
    → (id : ℕ) → 1 ≤ id
    → id ≤ s.prev_req_id
    → is_settled ((clear_request_waiters s).futures id) ≡ true
unfolding clear_request_waiters is_settled close
clear_settles {s} h id low high =
    ground (arith, clear_lem id s.request_waiters s, h.made id low high, h.waited id)

module _ (parse_int : Str → Option ℕ) where
  handle_settles :
      (inputs : List Input) (s : Socket)
      → IsTracked s
      → All (λ i. is_acceptable i ≡ true) inputs
      → (id : ℕ) → 1 ≤ id
      → id ≤ (handle parse_int inputs s).prev_req_id
      → is_settled ((handle parse_int inputs s).futures id) ≡ true
  unfolding handle
  handle_settles [] s h _ = λ id low high. clear_settles h id low (rw (prev-clear s) at high)
  handle_settles (i ∷ is) s h (good, rest) =
      handle_settles is (react parse_int i s) (react-IsTracked parse_int i h good) rest

  -- Over the life of a connection whose error replies all carry a message, each request that was
  -- made ends: with the result or the error of an answer, cancelled by its reader, or with
  -- `WebsocketClosedError` when the connection ends.
  pub handle-opened_settles :
      (commands : List Str) (inputs : List Input)
      → All (λ i. is_acceptable i ≡ true) inputs
      → (id : ℕ) → 1 ≤ id
      → id ≤ (handle parse_int inputs (opened commands)).prev_req_id
      → is_settled ((handle parse_int inputs (opened commands)).futures id) ≡ true
  handle-opened_settles commands inputs good =
      handle_settles inputs (opened commands) (opened-IsTracked commands) good
