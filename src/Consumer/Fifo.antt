-- ===== src/Consumer/Fifo.antt =====
-- The stream and its consumer as a first-in first-out queue of PDUs
-- (mautrix_asmux/api/as_websocket.py and mautrix_asmux/api/as_queue.py).
use mautrix_asmux.Prelude.{
  ℕ, ◌≡◌, refl, sym, ap, ◌∙◌, Bool, true, false, some, List, [], ◌∷◌, ◌++◌, Str, if◌then◌else◌,
  append_assoc, append-nil, Bool-cases, inl, inr, subst,
}
use mautrix_asmux.Json.{Fields}
use mautrix_asmux.Events.{Events}
use mautrix_asmux.Events.Wire.{Codec, serialize}
use mautrix_asmux.Events.Wire.RoundTrip.{IsLossless, deserialize-serialize}
use mautrix_asmux.Redis.{Stream}
use mautrix_asmux.Queue.{waiting, raised, nothing, yielded, next, acknowledge, push}
use mautrix_asmux.Queue.Delivery.{
  pdus, pdus-append, Polled, here, there, push_all, next-acknowledge,
}
use mautrix_asmux.Consumer.{
  Round, body_raised, consume_txn, Visit, World, push_txns, die, finish_round, consume_queue_one,
  turn, consume_queue,
}

module _ {O : Type 0} where
  -- The PDUs of the transactions, in order.
  abbrev pub all_pdus : List (Events O) → List Fields
  all_pdus [] = []
  all_pdus (txn ∷ txns) = txn.pdu ++ all_pdus txns

  -- What the rounds have taken out of the queue.
  abbrev pub taken : List (Round × Events O) → List Fields
  taken [] = []
  taken ((r, txn) ∷ rounds) = (if body_raised r.sent then [] else txn.pdu) ++ taken rounds

  -- What was put into it.
  abbrev pub given : List (Visit O) → List Fields
  given [] = []
  given (v ∷ vs) = (all_pdus v.before ++ all_pdus v.during) ++ given vs

  taken-append : (xs ys : List (Round × Events O)) → taken (xs ++ ys) ≡ taken xs ++ taken ys
  taken-append [] ys = refl
  taken-append ((r, txn) ∷ xs) ys =
      ap (λ l. (if body_raised r.sent then [] else txn.pdu) ++ l) (taken-append xs ys)
      ∙ sym (append_assoc (if body_raised r.sent then [] else txn.pdu) (taken xs) (taken ys))

module _ {O : Type 0} (codec : Codec O) (law : IsLossless codec)
    (union : List Str → List Str → List Str) (redis : Stream) (owner_mxid : Str) where
  open redis use {State, xrange, xadd, next_id, xrange_xadd}

  -- The queue that the stream stands for.
  abbrev pub queue : State → List Fields
  queue s = pdus codec (xrange s)

  pub queue-push :
      (txn : Events O) (s : State) → queue (push codec union redis txn s) ≡ queue s ++ txn.pdu
  unfolding push
  queue-push txn s =
      ap (pdus codec) (xrange_xadd (serialize codec txn) s)
      ∙ (pdus-append codec (xrange s) ((next_id s, serialize codec txn) ∷ [])
          ∙ rw (pdus, deserialize-serialize codec law txn)
              (ap (λ l. queue s ++ l) (append-nil txn.pdu)))

  pub queue-push_txns :
      (txns : List (Events O)) (s : State)
      → queue (push_txns codec union redis owner_mxid txns s) ≡ queue s ++ all_pdus txns
  unfolding push_txns
  queue-push_txns [] s = sym (append-nil (queue s))
  queue-push_txns (txn ∷ txns) s =
      queue-push_txns txns (push codec union redis txn s)
      ∙ (ap (λ l. l ++ all_pdus txns) (queue-push txn s)
          ∙ append_assoc (queue s) txn.pdu (all_pdus txns))

  wire : List (Events O) → List Fields
  wire [] = []
  wire (txn ∷ txns) = serialize codec txn ∷ wire txns

  push_txns-push_all :
      (txns : List (Events O)) (s : State)
      → push_txns codec union redis owner_mxid txns s ≡ push_all codec union redis (wire txns) s
  unfolding push_txns push wire
  push_txns-push_all [] s = refl
  push_txns-push_all (txn ∷ txns) s = push_txns-push_all txns (xadd (serialize codec txn) s)

  Polled-one : (s t : State) → Polled t (some s ∷ []) → t ≡ s
  Polled-one s t here = refl
  Polled-one s t (there later) = elim later [ ]

  -- What was taken and what is still there.
  abbrev pub balance : World codec union redis owner_mxid → List Fields
  balance w = taken w.rounds ++ queue w.stream

  -- The entries of a transaction hold the first PDUs of the queue, also behind more pushes.
  acknowledged :
      (yield_empty : Bool) (txns : List (Events O)) (s : State) (t : Events O) (ids : List ℕ)
      → next codec union redis yield_empty (some s ∷ []) ≡ yielded t ids
      → t.pdu
          ++ queue (
              acknowledge codec union redis false ids
                (push_txns codec union redis owner_mxid txns s))
        ≡ queue s ++ all_pdus txns
  acknowledged yield_empty txns s t ids h =
      let (s', seen, all) = next-acknowledge codec union redis yield_empty (some s ∷ []) t ids h in
      let same = Polled-one s s' seen in
      rw (push_txns-push_all txns s) (
        subst
          (λ x.
            t.pdu
              ++ queue (
                  acknowledge codec union redis false ids
                    (push_all codec union redis (wire txns) x))
            ≡ queue (push_all codec union redis (wire txns) x))
          same (all (wire txns))
        ∙ (ap queue (sym (push_txns-push_all txns s)) ∙ queue-push_txns txns s))

  pub removed :
      (b yield_empty : Bool) (txns : List (Events O)) (s : State) (t : Events O) (ids : List ℕ)
      → next codec union redis yield_empty (some s ∷ []) ≡ yielded t ids
      → (if b then [] else t.pdu)
          ++ queue
              (acknowledge codec union redis b ids (push_txns codec union redis owner_mxid txns s))
        ≡ queue s ++ all_pdus txns
  removed true yield_empty txns s t ids h = unfold acknowledge in queue-push_txns txns s
  removed false yield_empty txns s t ids h = acknowledged yield_empty txns s t ids h

  finish_round-balance :
      (v : Visit O) (w : World codec union redis owner_mxid) (s : State) (t : Events O)
      (ids : List ℕ)
      → next codec union redis false (some s ∷ []) ≡ yielded t ids
      → balance (finish_round codec union redis owner_mxid v w s t ids)
        ≡ taken w.rounds ++ (queue s ++ all_pdus v.during)
  unfolding finish_round
  finish_round-balance v w s t ids h =
      let r = consume_txn owner_mxid v.now v.wake w.link v.reply t in
      let out : List Fields = if body_raised r.sent then [] else t.pdu in
      let q = queue (
        acknowledge codec union redis (body_raised r.sent) ids
          (push_txns codec union redis owner_mxid v.during s)) in
      ap (λ l. l ++ q)
        (taken-append w.rounds ((r, t) ∷ []) ∙ ap (λ l. taken w.rounds ++ l) (append-nil out))
      ∙ (append_assoc (taken w.rounds) out q
          ∙ ap (λ l. taken w.rounds ++ l) (removed (body_raised r.sent) false v.during s t ids h))

  consume_queue_one-balance :
      (v : Visit O) (w : World codec union redis owner_mxid) (s : State)
      → balance (consume_queue_one codec union redis owner_mxid v w s)
        ≡ taken w.rounds ++ (queue s ++ all_pdus v.during)
  unfolding consume_queue_one
  consume_queue_one-balance v w s =
      let kept = ap (λ l. taken w.rounds ++ l) (queue-push_txns v.during s) in
      elim (next codec union redis false (some s ∷ []))
          as (λ o.
            next codec union redis false (some s ∷ []) ≡ o
            → balance (elim o [
              | yielded txn ids ↦ finish_round codec union redis owner_mxid v w s txn ids
              | raised _ ↦ record w {
                stream = push_txns codec union redis owner_mxid v.during s;
                running = false;
              }
              | _ ↦ record w {
                stream = push_txns codec union redis owner_mxid v.during s;
                link = die codec union redis owner_mxid v.dies w.link;
              }
            ])
              ≡ taken w.rounds ++ (queue s ++ all_pdus v.during)) [
                | yielded txn ids ↦ λ h. finish_round-balance v w s txn ids h
                | raised _ ↦ λ _. kept
                | waiting ↦ λ _. kept
                | nothing ↦ λ _. kept
              ]
        refl

  turn-balance :
      (v : Visit O) (w : World codec union redis owner_mxid)
      → balance (turn codec union redis owner_mxid v w)
        ≡ balance w ++ (all_pdus v.before ++ all_pdus v.during)
  unfolding turn
  turn-balance v w =
      let s = push_txns codec union redis owner_mxid v.before w.stream in
      let moved : (taken w.rounds ++ (queue s ++ all_pdus v.during))
          ≡ balance w ++ (all_pdus v.before ++ all_pdus v.during) =
        ap (λ l. taken w.rounds ++ (l ++ all_pdus v.during)) (queue-push_txns v.before w.stream)
        ∙ (ap (λ l. taken w.rounds ++ l)
              (append_assoc (queue w.stream) (all_pdus v.before) (all_pdus v.during))
            ∙ sym (
                append_assoc (taken w.rounds) (queue w.stream)
                  (all_pdus v.before ++ all_pdus v.during))) in
      elim (Bool-cases (if w.link.dead then false else w.running)) [
        | inl on ↦ rw (turn, on) (consume_queue_one-balance v w s ∙ moved)
        | inr off ↦
            rw (turn, off) (ap (λ l. taken w.rounds ++ l) (queue-push_txns v.during s) ∙ moved)
      ]

  -- Where the types of `mautrix.types` are lossless, the stream and its consumer are a first-in
  -- first-out queue: after any turns, the PDUs that the rounds have taken, each transaction that was
  -- not sent being put back, are followed by those that are still in the stream, and together they
  -- are those that were there or were pushed, in order.
  pub consume_queue-Fifo :
      (vs : List (Visit O)) (w : World codec union redis owner_mxid)
      → balance (consume_queue codec union redis owner_mxid vs w) ≡ balance w ++ given vs
  unfolding consume_queue
  consume_queue-Fifo [] w = sym (append-nil (balance w))
  consume_queue-Fifo (v ∷ vs) w =
      consume_queue-Fifo vs (turn codec union redis owner_mxid v w)
      ∙ (ap (λ l. l ++ given vs) (turn-balance v w)
          ∙ append_assoc (balance w) (all_pdus v.before ++ all_pdus v.during) (given vs))
