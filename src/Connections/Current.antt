-- ===== src/Connections/Current.antt =====
-- The registered websocket is one that is served (mautrix_asmux/api/as_websocket.py).
use mautrix_asmux.Prelude.{ℕ, ◌≡◌, ◌⊎◌, refl, Bool, true, false, some, arith}
use mautrix_asmux.Connections.{
  Stage, idle, entered, admitted, open_, Registry, init, close_stale, give_up, admit, register,
  is_current, finish, stop, Step, enters, refuses, admits, registers, abandons, gives_up, finishes,
  replaced, stops, Steps, here, later,
}

-- A connection that has not been registered yet.
unfoldable pub is_early : Stage → Bool
is_early idle = true
is_early entered = true
is_early admitted = true
is_early _ = false

-- The current websocket is served, and only its consumer may have begun to close it, unless the
-- instance stops.
pub record IsServed (r : Registry) : Type 0 where
  pub open_current : (i : ℕ) → r.current ≡ some i → r.stage i ≡ open_
  pub early : (i : ℕ) → is_early (r.stage i) ≡ true → r.asked i ≡ false
  pub unasked :
      (i : ℕ) → r.current ≡ some i → r.stopping ≡ false → r.given_up i ≡ false → r.asked i ≡ false

Step-IsServed : {r s : Registry} → Step r s → IsServed r → IsServed s
unfolding close_stale give_up admit register is_current finish stop is_early
Step-IsServed {r} (enters i up new) h = record {
  open_current = λ j. ground (arith, h.open_current j, h.open_current i);
  early = λ j. ground (arith, h.early j, h.early i, h.open_current j, h.open_current i);
  unasked = λ j. ground (arith, h.unasked j, h.early j, h.open_current i);
}
Step-IsServed {r} (refuses i waits) h = record {
  open_current = λ j. ground (arith, h.open_current j, h.open_current i);
  early = λ j. ground (arith, h.early j, h.early i, h.open_current j, h.open_current i);
  unasked = λ j. ground (arith, h.unasked j, h.early j, h.open_current i);
}
Step-IsServed {r} (admits i waits) h = record {
  open_current = λ j. ground (arith, h.open_current j, h.open_current i);
  early = λ j. ground (arith, h.early j, h.early i, h.open_current j, h.open_current i);
  unasked = λ j. ground (arith, h.unasked j, h.early j, h.open_current i);
}
Step-IsServed {r} (gives_up i serves) h = record {
  open_current = λ j. ground (arith, h.open_current j, h.open_current i);
  early = λ j. ground (arith, h.early j, h.early i, h.open_current j, h.open_current i);
  unasked = λ j. ground (arith, h.unasked j, h.early j, h.open_current i);
}
Step-IsServed {r} (registers i waits) h = record {
  open_current = λ j. ground (arith, h.open_current j, h.early i);
  early = λ j. ground (arith, h.early j, h.open_current j, h.early i);
  unasked = λ j. ground (arith, h.unasked j, h.early j, h.early i);
}
Step-IsServed {r} (abandons i waits) h = record {
  open_current = λ j. ground (arith, h.open_current j, h.open_current i);
  early = λ j. ground (arith, h.early j, h.open_current j, h.open_current i);
  unasked = λ j. ground (arith, h.unasked j, h.early j, h.open_current i);
}
Step-IsServed {r} (finishes i serves) h = record {
  open_current = λ j. ground (arith, h.open_current j, h.open_current i);
  early = λ j. ground (arith, h.early j, h.open_current j, h.open_current i);
  unasked = λ j. ground (arith, h.unasked j, h.early j, h.open_current i);
}
Step-IsServed {r} replaced h = record {
  open_current = λ j. ground (arith, h.open_current j);
  early = λ j. ground (arith, h.early j, h.open_current j);
  unasked = λ j. ground (arith, h.unasked j, h.early j);
}
Step-IsServed {r} stops h = record {
  open_current = λ j. ground (arith, h.open_current j);
  early = λ j. ground (arith, h.early j, h.open_current j);
  unasked = λ j. ground (arith, h.unasked j, h.early j);
}

pub init-IsServed : IsServed init
unfolding is_early
init-IsServed = record { open_current = λ i e. cc; early = λ i e. refl; unasked = λ i e f g. cc }

Steps-IsServed : {r s : Registry} → Steps r s → IsServed r → IsServed s
Steps-IsServed here h = h
Steps-IsServed (later rs step) h = Step-IsServed step (Steps-IsServed rs h)

-- Whatever the order in which connections come, are registered, fail and end, the websocket that is
-- registered is one whose handler is still running, and that this instance has not begun to close,
-- unless it stops or the consumer of the queue for this websocket closes it.
pub current-served :
    (r : Registry) (i : ℕ)
    → Steps init r
    → r.current ≡ some i
    → (r.stage i ≡ open_) × ((r.stopping ≡ true) ⊎ ((r.given_up i ≡ true) ⊎ (r.asked i ≡ false)))
current-served r i steps e =
    let h = Steps-IsServed steps init-IsServed in
    (h.open_current i e, ground (arith, h.unasked i e))
