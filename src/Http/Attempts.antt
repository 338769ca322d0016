-- ===== src/Http/Attempts.antt =====
-- How often a transaction is sent, and when the call says that it was delivered
-- (mautrix_asmux/api/as_http.py).
use mautrix_asmux.Prelude.{
  ℕ, zero, suc, ◌+◌, ◌≤◌, ◌<◌, ◌≡◌, ◌≢◌, refl, Bool-cases, inl, inr, lt→ltb, subst, Bool, true,
  false, Option, none, some, List, [], ◌∷◌, ◌++◌, Str, text, ltb, if◌then◌else◌, is_empty, arith,
}
use mautrix_asmux.Events.{Events}
use mautrix_asmux.Http.{
  Put, Effect, put, report, extend_lock, sleep, Ended, returned, lock_lost, text_raised, Loop,
  delivered, give_up, retry, fail, judge, report_error, gave_up, before_sleep, attempted, paused,
  resume, post_loop, start, post_events,
}

-- The number of requests among the effects.
abbrev pub puts : List Effect → ℕ
puts [] = 0
puts (put _ ∷ es) = suc (puts es)
puts (report _ _ _ ∷ es) = puts es
puts (extend_lock _ ∷ es) = puts es
puts (sleep _ ∷ es) = puts es

puts-append : (xs ys : List Effect) → puts (xs ++ ys) ≡ puts xs + puts ys
puts-append [] ys = omega arith
puts-append (put _ ∷ xs) ys = omega (arith, puts-append xs ys)
puts-append (report _ _ _ ∷ xs) ys = puts-append xs ys
puts-append (extend_lock _ ∷ xs) ys = puts-append xs ys
puts-append (sleep _ ∷ xs) ys = puts-append xs ys

puts-report_error : (b : Bool) (l : Loop) → puts (before_sleep b l) ≡ 0
unfolding before_sleep
puts-report_error b l = ground arith

puts-paused : (b : Bool) (l : Loop) → puts (paused b l).done ≡ puts l.done
unfolding paused
puts-paused b l = omega (
  arith,
  puts-append l.done (before_sleep b l ++ extend_lock l.backoff ∷ sleep l.backoff ∷ []),
  puts-append (before_sleep b l) (extend_lock l.backoff ∷ sleep l.backoff ∷ []),
  puts-report_error b l,
)

puts-gave_up : (b : Bool) (l : Loop) → puts (gave_up b l).1 ≡ puts l.done
unfolding gave_up report_error
puts-gave_up true l = omega (arith, puts-append l.done (report _ _ _ ∷ []))
puts-gave_up false l = omega (arith, puts-append l.done [])

resume_lem :
    (retries : ℕ) (b held : Bool) (l l' : Loop)
    → resume retries b held l ≡ some l'
    → (l'.attempt ≡ l.attempt) × (puts l'.done ≡ puts l.done)
unfolding resume paused
resume_lem retries b held l l' h = ground (arith, puts-paused b l)

pub resume_early :
    (retries : ℕ) (b : Bool) (l : Loop)
    → l.attempt < retries
    → resume retries b true l ≡ some (paused b l)
unfolding resume
resume_early retries b l h = rw (lt→ltb l.attempt retries h)

pub attempt-paused : (b : Bool) (l : Loop) → (paused b l).attempt ≡ l.attempt
unfolding paused
attempt-paused b l = refl

puts-attempted : (l : Loop) → puts (attempted l).done ≡ puts l.done + 1
puts-attempted l = omega (arith, puts-append l.done (put (l.attempt + 1) ∷ []))

-- The loop has ended within the bound on the requests.
abbrev Ends : ℕ → Loop → Option (Ended × List Effect) → Type 0
Ends retries l r =
    (x : Ended × List Effect) × (r ≡ some x) × (puts x.1 + l.attempt ≤ retries + puts l.done)

module _ (retries : ℕ) (b : Bool) (replies : ℕ → Put) (held : ℕ → Bool) where
  -- With a round more than there are attempts left, the loop ends, and each attempt is one request.
  post_loop_total :
      (fuel : ℕ) (l : Loop)
      → l.attempt ≤ retries
      → retries < l.attempt + fuel
      → Ends retries l (post_loop retries b replies held fuel l)
  unfolding post_loop
  post_loop_total zero l bound enough = absurd (omega arith)
  post_loop_total (suc fuel) l bound enough = elim (Bool-cases (ltb l.attempt retries)) [
    | inr out ↦ rw out (gave_up b l, refl, omega (arith, puts-gave_up b l))
    | inl more ↦
        rw more
          (elim (judge (replies l.attempt))
            as (λ v. Ends retries l (elim v [
              | delivered ↦ some (returned (text "ok"), (attempted l).done)
              | fail ↦ some (text_raised, (attempted l).done)
              | give_up e ↦ some (gave_up b (record (attempted l) { last_error = e }))
              | retry e ↦
                  let failed : Loop = record (attempted l) { last_error = e } in
                  elim (resume retries b (held l.attempt) failed) [
                    | some l' ↦ post_loop retries b replies held fuel l'
                    | none ↦ some (lock_lost, failed.done ++ before_sleep b failed)
                  ]
            ])) [
              | delivered ↦ (_, refl, ground (arith, puts-attempted l))
              | fail ↦ (_, refl, ground (arith, puts-attempted l))
              | give_up e ↦ (
                _,
                refl,
                ground (
                  arith,
                  puts-attempted l,
                  puts-gave_up b (record (attempted l) { last_error = e }),
                ),
              )
              | retry e ↦
                  let failed : Loop = record (attempted l) { last_error = e } in
                  elim (resume retries b (held l.attempt) failed)
                      as (λ o.
                        resume retries b (held l.attempt) failed ≡ o
                        → Ends retries l (elim o [
                          | some l' ↦ post_loop retries b replies held fuel l'
                          | none ↦ some (lock_lost, failed.done ++ before_sleep b failed)
                        ])) [
                          | none ↦ λ _. (
                            _,
                            refl,
                            ground (
                              arith,
                              puts-attempted l,
                              puts-append failed.done (before_sleep b failed),
                              puts-report_error b failed,
                            ),
                          )
                          | some l' ↦ λ r.
                              let (same, sent) =
                                resume_lem retries b (held l.attempt) failed l' r in
                              let (x, e', few) =
                                post_loop_total fuel l' (ground arith) (omega arith) in
                              (x, e', ground (arith, puts-attempted l))
                        ]
                    refl
            ])
  ]

-- `post_events` always ends, after at most ten requests, and after at most two where there is no
-- PDU.
pub post_events_total :
    {O : Type 0} (e : Events O) (replies : ℕ → Put) (held : ℕ → Bool)
    → (x : Ended × List Effect) × (post_events e replies held ≡ some x)
      × (puts x.1 ≤ (if is_empty e.pdu then 2 else 10))
unfolding post_events
post_events_total e replies held =
    let n = if is_empty e.pdu then 2 else 10 in
    let (x, ends, few) =
      post_loop_total n (if is_empty e.pdu then false else true) replies held (n + 1) start
        (omega arith) (omega arith) in
    (x, ends, omega arith)

-- Exactly `k` attempts that may be retried come first, and the next one is delivered.
abbrev pub Tries : (ℕ → Put) → ℕ → ℕ → Type 0
Tries replies zero i = judge (replies i) ≡ delivered
Tries replies (suc k) i = ((e : Str) × (judge (replies i) ≡ retry e)) × Tries replies k (suc i)

-- The result of a loop that has delivered.
abbrev IsOk : Option (Ended × List Effect) → Type 0
IsOk r = (trace : List Effect) × (r ≡ some (returned (text "ok"), trace))

module _ (retries : ℕ) (b : Bool) (replies : ℕ → Put) where
  post_loop_delivers :
      (k fuel : ℕ) (l : Loop)
      → Tries replies k l.attempt
      → l.attempt + k < retries
      → k < fuel
      → IsOk (post_loop retries b replies (λ _. true) fuel l)
  unfolding post_loop
  post_loop_delivers k zero l h bound enough = absurd (omega arith)
  post_loop_delivers zero (suc fuel) l h bound enough =
      rw (lt→ltb l.attempt retries (omega arith), h) (_, refl)
  post_loop_delivers (suc k) (suc fuel) l ((e, q), h) bound enough =
      let failed : Loop = record (attempted l) { last_error = e } in
      let next : Tries replies k (paused b failed).attempt =
        subst (Tries replies k) (omega (arith, attempt-paused b failed)) h in
      rw (lt→ltb l.attempt retries (omega arith), q, resume_early retries b failed (omega arith))
        (post_loop_delivers k fuel (paused b failed) next (omega (arith, attempt-paused b failed))
          (omega arith))

-- Where the lock stays held, a transaction whose first `k` attempts may be retried and whose next
-- attempt succeeds is reported as delivered, if `k` is below the number of attempts, which is ten,
-- or two where there is no PDU.
pub post_events_delivers :
    {O : Type 0} (e : Events O) (replies : ℕ → Put) (k : ℕ)
    → Tries replies k 0
    → k < (if is_empty e.pdu then 2 else 10)
    → (trace : List Effect) × (post_events e replies (λ _. true)
        ≡ some (returned (text "ok"), trace))
unfolding post_events
post_events_delivers e replies k h bound =
    post_loop_delivers (if is_empty e.pdu then 2 else 10) (if is_empty e.pdu then false else true)
      replies k ((if is_empty e.pdu then 2 else 10) + 1) start h (omega arith) (omega arith)

ok_ne : ◌≢◌ {A = Str} (text "http-gave-up") (text "ok")
unfolding text
ok_ne e = cc

gave_up_ne :
    (b : Bool) (l : Loop) (trace : List Effect)
    → some (gave_up b l) ≢ some (returned (text "ok"), trace)
unfolding gave_up
gave_up_ne b l trace e = ground (arith, ok_ne)

-- A delivery that lies ahead of the loop, within its attempts.
abbrev IsAhead : ℕ → (ℕ → Put) → Loop → Type 0
IsAhead retries replies l = (k : ℕ) × (l.attempt + k < retries) × Tries replies k l.attempt

module _ (retries : ℕ) (b : Bool) (replies : ℕ → Put) (held : ℕ → Bool) where
  post_loop_needs :
      (fuel : ℕ) (l : Loop) (trace : List Effect)
      → post_loop retries b replies held fuel l ≡ some (returned (text "ok"), trace)
      → IsAhead retries replies l
  unfolding post_loop
  post_loop_needs zero l trace h = cc
  post_loop_needs (suc fuel) l trace h = elim (Bool-cases (ltb l.attempt retries)) [
    | inr out ↦ absurd (gave_up_ne b l trace (rw out at h))
    | inl more ↦
        elim (judge (replies l.attempt))
            as (λ v.
              judge (replies l.attempt) ≡ v
              → ◌≡◌ {A = Option (Ended × List Effect)}
                  (elim v [
                    | delivered ↦ some (returned (text "ok"), (attempted l).done)
                    | fail ↦ some (text_raised, (attempted l).done)
                    | give_up e ↦ some (gave_up b (record (attempted l) { last_error = e }))
                    | retry e ↦
                        let failed : Loop = record (attempted l) { last_error = e } in
                        elim (resume retries b (held l.attempt) failed) [
                          | some l' ↦ post_loop retries b replies held fuel l'
                          | none ↦ some (lock_lost, failed.done ++ before_sleep b failed)
                        ]
                  ])
                  (some (returned (text "ok"), trace))
              → IsAhead retries replies l) [
                | delivered ↦ λ q _. (zero, ground arith, q)
                | fail ↦ λ _ r. cc
                | give_up e ↦
                    λ _ r. absurd (gave_up_ne b (record (attempted l) { last_error = e }) trace r)
                | retry e ↦ λ q.
                    let failed : Loop = record (attempted l) { last_error = e } in
                    elim (resume retries b (held l.attempt) failed)
                        as (λ o.
                          resume retries b (held l.attempt) failed ≡ o
                          → ◌≡◌ {A = Option (Ended × List Effect)}
                              (elim o [
                                | some l' ↦ post_loop retries b replies held fuel l'
                                | none ↦ some (lock_lost, failed.done ++ before_sleep b failed)
                              ])
                              (some (returned (text "ok"), trace))
                          → IsAhead retries replies l) [
                            | none ↦ λ _ r. cc
                            | some l' ↦ λ at r.
                                let (same, _) =
                                  resume_lem retries b (held l.attempt) failed l' at in
                                let (k, bound, tries) = post_loop_needs fuel l' trace r in
                                (
                                  suc k,
                                  omega arith,
                                  ((e, q), subst (Tries replies k) (omega arith) tries),
                                )
                          ]
                      refl
              ]
          refl (rw more at h)
  ]

-- A transaction is reported as delivered only if one of its attempts, of which there are at most
-- ten, or two where there is no PDU, succeeded and those before it were failures that may be
-- retried.
pub post_events_ok_needs :
    {O : Type 0} (e : Events O) (replies : ℕ → Put) (held : ℕ → Bool) (trace : List Effect)
    → post_events e replies held ≡ some (returned (text "ok"), trace)
    → (k : ℕ) × (k < (if is_empty e.pdu then 2 else 10)) × Tries replies k 0
unfolding post_events
post_events_ok_needs e replies held trace h =
    let n = if is_empty e.pdu then 2 else 10 in
    let (k, bound, tries) =
      post_loop_needs n (if is_empty e.pdu then false else true) replies held (n + 1) start trace
        h in
    (k, omega arith, tries)
