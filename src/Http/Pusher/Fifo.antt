-- ===== src/Http/Pusher/Fifo.antt =====
-- The stream and the HTTP pusher as a first-in first-out queue of PDUs (mautrix_asmux/api/as_http.py
-- and mautrix_asmux/api/as_queue.py).
use mautrix_asmux.Prelude.{
  ℕ, ◌≡◌, refl, sym, ap, ◌∙◌, true, false, some, List, [], ◌∷◌, ◌++◌, Str, if◌then◌else◌,
  append_assoc, append-nil, All, Bool-cases, inl, inr,
}
use mautrix_asmux.Json.{Fields}
use mautrix_asmux.Events.{Events}
use mautrix_asmux.Events.Wire.{Codec}
use mautrix_asmux.Events.Wire.RoundTrip.{IsLossless}
use mautrix_asmux.Redis.{Stream}
use mautrix_asmux.Queue.{waiting, raised, nothing, yielded, next, acknowledge}
use mautrix_asmux.Queue.Delivery.{pdus}
use mautrix_asmux.Consumer.{push_txns}
use mautrix_asmux.Consumer.Fifo.{all_pdus, queue-push_txns, removed}
use mautrix_asmux.Http.{post_events}
use mautrix_asmux.Http.Held.{post_events-IsReturned}
use mautrix_asmux.Http.Pusher.{
  lapsed, Shift, Pusher, finish_post, post_one, shift, post_events_from_queue,
}

module _ {O : Type 0} where
  -- The PDUs of what was posted.
  abbrev pub posted_pdus : List (Str × Events O) → List Fields
  posted_pdus [] = []
  posted_pdus ((_, txn) ∷ posted) = txn.pdu ++ posted_pdus posted

  posted_pdus-append :
      (xs ys : List (Str × Events O)) → posted_pdus (xs ++ ys) ≡ posted_pdus xs ++ posted_pdus ys
  posted_pdus-append [] ys = refl
  posted_pdus-append ((status, txn) ∷ xs) ys =
      ap (λ l. txn.pdu ++ l) (posted_pdus-append xs ys)
      ∙ sym (append_assoc txn.pdu (posted_pdus xs) (posted_pdus ys))

module _ {O : Type 0} (codec : Codec O) (law : IsLossless codec)
    (union : List Str → List Str → List Str) (redis : Stream) where
  open redis use {State, xrange}

  abbrev queued : State → List Fields
  queued s = pdus codec (xrange s)

  -- What was posted and what is still there.
  abbrev pub total : Pusher codec union redis → List Fields
  total w = posted_pdus w.posted ++ queued w.stream

  -- What was put into the queue.
  abbrev pub pushed : List (Shift codec union redis) → List Fields
  pushed [] = []
  pushed (v ∷ vs) = (all_pdus v.before ++ all_pdus v.during) ++ pushed vs

  -- The lock is held behind every request, and at the end of the round.
  abbrev pub IsLocked : Shift codec union redis → Type 0
  IsLocked v = ((k : ℕ) → v.held k ≡ true) × (v.extended ≡ true)

  finish_post-total :
      (v : Shift codec union redis) (w : Pusher codec union redis) (s : State) (t : Events O)
      (ids : List ℕ)
      → IsLocked v
      → next codec union redis true (some s ∷ []) ≡ yielded t ids
      → total (
          finish_post codec union redis v w
            (push_txns codec union redis [] v.during s)
            t
            ids
            (post_events t v.replies v.held))
        ≡ posted_pdus w.posted ++ (queued s ++ all_pdus v.during)
  unfolding finish_post lapsed
  finish_post-total v w s t ids (held, extended) h =
      let after = push_txns codec union redis [] v.during s in
      elim (post_events-IsReturned t v.replies v.held held) [
        | inr (trace, ends) ↦
            rw (ends, extended)
              (ap (λ l. l ++ queued (acknowledge codec union redis true ids after))
                  (ap posted_pdus (append-nil w.posted))
                ∙ ap (λ l. posted_pdus w.posted ++ l)
                    (removed codec law union redis [] true true v.during s t ids h))
        | inl (status, trace, ends) ↦
            let left = queued (acknowledge codec union redis false ids after) in
            rw (ends, extended)
              (ap (λ l. l ++ left)
                  (posted_pdus-append w.posted ((status, t) ∷ [])
                    ∙ ap (λ l. posted_pdus w.posted ++ l) (append-nil t.pdu))
                ∙ (append_assoc (posted_pdus w.posted) t.pdu left
                    ∙ ap (λ l. posted_pdus w.posted ++ l)
                        (removed codec law union redis [] false true v.during s t ids h)))
      ]

  post_one-total :
      (v : Shift codec union redis) (w : Pusher codec union redis) (s : State)
      → IsLocked v
      → total (post_one codec union redis v w s)
        ≡ posted_pdus w.posted ++ (queued s ++ all_pdus v.during)
  unfolding post_one
  post_one-total v w s locked =
      let after = push_txns codec union redis [] v.during s in
      let kept =
        ap (λ l. posted_pdus w.posted ++ l) (queue-push_txns codec law union redis [] v.during s) in
      elim (next codec union redis true (some s ∷ []))
          as (λ o.
            next codec union redis true (some s ∷ []) ≡ o
            → total (elim o [
              | yielded txn ids ↦
                  finish_post codec union redis v w after txn ids (post_events txn v.replies v.held)
              | _ ↦ record w { stream = after; running = false }
            ])
              ≡ posted_pdus w.posted ++ (queued s ++ all_pdus v.during)) [
                | yielded txn ids ↦ λ h. finish_post-total v w s txn ids locked h
                | raised _ ↦ λ _. kept
                | waiting ↦ λ _. kept
                | nothing ↦ λ _. kept
              ]
        refl

  shift-total :
      (v : Shift codec union redis) (w : Pusher codec union redis)
      → IsLocked v
      → total (shift codec union redis v w) ≡ total w ++ (all_pdus v.before ++ all_pdus v.during)
  unfolding shift
  shift-total v w locked =
      let s = push_txns codec union redis [] v.before w.stream in
      let moved : (posted_pdus w.posted ++ (queued s ++ all_pdus v.during))
          ≡ total w ++ (all_pdus v.before ++ all_pdus v.during) =
        ap (λ l. posted_pdus w.posted ++ (l ++ all_pdus v.during))
          (queue-push_txns codec law union redis [] v.before w.stream)
        ∙ (ap (λ l. posted_pdus w.posted ++ l)
              (append_assoc (queued w.stream) (all_pdus v.before) (all_pdus v.during))
            ∙ sym (
                append_assoc (posted_pdus w.posted) (queued w.stream)
                  (all_pdus v.before ++ all_pdus v.during))) in
      elim (Bool-cases (if v.ensured then true else w.running)) [
        | inl on ↦ rw (shift, on) (post_one-total v w s locked ∙ moved)
        | inr off ↦
            rw (shift, off)
              (ap (λ l. posted_pdus w.posted ++ l)
                  (queue-push_txns codec law union redis [] v.during s)
                ∙ moved)
      ]

  -- Where the types of `mautrix.types` are lossless and the lock is held behind every request and at
  -- the end of every round, the stream and the HTTP pusher are a first-in first-out queue: after any
  -- rounds, whatever became of the requests, the PDUs that `post_events` has returned for, delivered or
  -- given up, are followed by those that are still in the stream, and together they are those that were
  -- there or were pushed, in order.
  pub post_events_from_queue-Fifo :
      (vs : List (Shift codec union redis)) (w : Pusher codec union redis)
      → All IsLocked vs
      → total (post_events_from_queue codec union redis vs w) ≡ total w ++ pushed vs
  unfolding post_events_from_queue
  post_events_from_queue-Fifo [] w locked = sym (append-nil (total w))
  post_events_from_queue-Fifo (v ∷ vs) w locked =
      post_events_from_queue-Fifo vs (shift codec union redis v w) locked.1
      ∙ (ap (λ l. l ++ pushed vs) (shift-total v w locked.0)
          ∙ append_assoc (total w) (all_pdus v.before ++ all_pdus v.during) (pushed vs))
