-- ===== src/Http/Held.antt =====
-- `post_events` while the lock of the pusher stays held (mautrix_asmux/api/as_http.py).
use mautrix_asmux.Prelude.{
  ℕ, zero, suc, ◌+◌, ◌≤◌, ◌<◌, ◌≡◌, ◌⊎◌, refl, Bool-cases, inl, inr, ltb, Bool, true, false, Option,
  some, List, Str, if◌then◌else◌, is_empty, arith,
}
use mautrix_asmux.Events.{Events}
use mautrix_asmux.Http.{
  Put, Effect, Ended, returned, text_raised, Loop, Verdict, delivered, give_up, retry, fail, judge,
  gave_up, attempted, paused, resume, post_loop, start, post_events,
}
use mautrix_asmux.Http.Attempts.{resume_early, attempt-paused}

-- The call has returned, or the reading of a response has raised, and the lock was not lost.
abbrev pub IsReturned : Option (Ended × List Effect) → Type 0
IsReturned r =
    ((status : Str) × (trace : List Effect) × (r ≡ some (returned status, trace)))
    ⊎ ((trace : List Effect) × (r ≡ some (text_raised, trace)))

gave_up-IsReturned : (b : Bool) (l : Loop) → IsReturned (some (gave_up b l))
unfolding gave_up
gave_up-IsReturned b l = inl (_, _, refl)

judge-cases :
    (v : Verdict)
    → ((v ≡ delivered) ⊎ (v ≡ fail)) ⊎ (((e : Str) × (v ≡ give_up e)) ⊎ ((e : Str) × (v ≡ retry e)))
judge-cases delivered = inl (inl refl)
judge-cases fail = inl (inr refl)
judge-cases (give_up e) = inr (inl (e, refl))
judge-cases (retry e) = inr (inr (e, refl))

module _ (retries : ℕ) (b : Bool) (replies : ℕ → Put) (held : ℕ → Bool)
    (locked : (k : ℕ) → held k ≡ true) where
  post_loop-IsReturned :
      (fuel : ℕ) (l : Loop)
      → l.attempt ≤ retries
      → retries < l.attempt + fuel
      → IsReturned (post_loop retries b replies held fuel l)
  unfolding post_loop
  post_loop-IsReturned zero l bound enough = absurd (omega arith)
  post_loop-IsReturned (suc fuel) l bound enough = elim (Bool-cases (ltb l.attempt retries)) [
    | inr out ↦ rw out (gave_up-IsReturned b l)
    | inl more ↦ elim (judge-cases (judge (replies l.attempt))) [
      | inl (inl q) ↦ rw (more, q) (inl (_, _, refl))
      | inl (inr q) ↦ rw (more, q) (inr (_, refl))
      | inr (inl (e, q)) ↦
          rw (more, q) (gave_up-IsReturned b (record (attempted l) { last_error = e }))
      | inr (inr (e, q)) ↦
          let failed : Loop = record (attempted l) { last_error = e } in
          elim (Bool-cases (ltb failed.attempt retries)) [
            | inl again ↦
                let goes_on : resume retries b true failed ≡ some (paused b failed) =
                  resume_early retries b failed (ground (arith, again)) in
                rw (more, q, locked l.attempt, goes_on)
                  (post_loop-IsReturned fuel (paused b failed)
                    (ground (arith, again, attempt-paused b failed))
                    (omega (arith, attempt-paused b failed)))
            | inr last ↦
                let goes_on : resume retries b true failed ≡ some failed =
                  unfold resume in ground (arith, last) in
                rw (more, q, locked l.attempt, goes_on)
                  (post_loop-IsReturned fuel failed (ground (arith, more)) (omega arith))
          ]
    ]
  ]

-- Where the lock stays held, `post_events` returns, unless the reading of a response raises.
pub post_events-IsReturned :
    {O : Type 0} (e : Events O) (replies : ℕ → Put) (held : ℕ → Bool)
    → ((k : ℕ) → held k ≡ true)
    → IsReturned (post_events e replies held)
unfolding post_events
post_events-IsReturned e replies held locked =
    let n = if is_empty e.pdu then 2 else 10 in
    post_loop-IsReturned n (if is_empty e.pdu then false else true) replies held locked (n + 1)
      start (omega arith) (omega arith)
