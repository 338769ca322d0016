-- ===== src/Proxy/Sending/Queued.antt =====
-- What is in the queues behind a transaction of the homeserver (mautrix_asmux/api/as_proxy.py,
-- mautrix_asmux/api/as_requester.py).
use mautrix_asmux.Prelude.{
  ℕ, ◌≡◌, refl, sym, ap, subst, ◌∙◌, Bool, true, false, ◌&&◌, Option, none, some, List, [], ◌∷◌,
  ◌++◌, Str, text, str_eq, str_beq, ◌==◌, nat_eq, nat_beq, nat_beq_iff, if◌then◌else◌, append_assoc,
  append-nil, arith, Bool-cases, inl, inr,
}
use mautrix_asmux.Json.{Fields}
use mautrix_asmux.Result.{ok, Result-cases, ok_injective}
use mautrix_asmux.Exec.{Returns, Returns-continue}
use mautrix_asmux.Env.{Env}
use mautrix_asmux.Dict
use mautrix_asmux.Dict.{Dict, get-set}
use mautrix_asmux.Store.{Store}
use mautrix_asmux.Redis.{Stream}
use mautrix_asmux.Events.{Events}
use mautrix_asmux.Events.Wire.{Codec}
use mautrix_asmux.Events.Wire.RoundTrip.{IsLossless}
use mautrix_asmux.Queue.Delivery.{pdus}
use mautrix_asmux.Consumer.Fifo.{queue-push}
use mautrix_asmux.Requester.{wakeups, send_transaction}
use mautrix_asmux.Database.Azs.Keyed.{IsKeyed}
use mautrix_asmux.Proxy.{Output, Transaction, sort_transaction}
use mautrix_asmux.Proxy.Routing.{Delivered, pdu_at}
use mautrix_asmux.Proxy.Sending.{
  Task, begin_tasks, carry_out, post_events, await_tasks, send_transactions, handle_transaction,
}
use mautrix_asmux.Proxy.Sending.Tasks.{TasksOf, finished, skipped, begun, begin_tasks-TasksOf}
use mautrix_asmux.Proxy.Sending.Keys.{HasKeysOnce, sort_transaction-Sorted}
use mautrix_asmux.Proxy.Sending.Tables.{sort_transaction-IsKeyed}

-- The answer for an appservice says that it was sent to.
abbrev pub is_ok : Option Str → Bool
is_ok none = false
is_ok (some status) = status == text "ok"

module _ {O : Type 0} (codec : Codec O) (law : IsLossless codec)
    (union : List Str → List Str → List Str) (redis : Stream) where
  open redis use {State, xrange}

  -- The PDUs that a queue holds.
  abbrev held : State → List Fields
  held s = pdus codec (xrange s)

  post_events-pdus :
      (wake : ℕ → Bool) (t : Task O) (s : State)
      → held (post_events codec union redis wake t s).1
        ≡ held s
          ++ (if is_ok (some (post_events codec union redis wake t s).0) then t.events.pdu else [])
  unfolding post_events send_transaction wakeups carry_out text str_beq
  post_events-pdus wake t s =
      ground (arith, append-nil (held s), queue-push codec law union redis [] t.events s)

  -- What a task puts into the queue of `j`.
  put_at : (ℕ → Bool) → ℕ → Task O → List Fields
  put_at wake j t =
      if nat_beq t.az.id j && is_ok (some (send_transaction t.az (wake t.az.id)).0)
      then t.events.pdu
      else []

  -- The streams behind a task.
  abbrev behind : (ℕ → Bool) → Task O → (ℕ → State) → ℕ → State
  behind wake t streams j =
      if nat_beq t.az.id j
      then (post_events codec union redis wake t (streams t.az.id)).1
      else streams j

  behind-pdus :
      (wake : ℕ → Bool) (t : Task O) (streams : ℕ → State) (j : ℕ)
      → held (behind wake t streams j) ≡ held (streams j) ++ put_at wake j t
  unfolding put_at
  behind-pdus wake t streams j = elim (Bool-cases (nat_beq t.az.id j)) [
    | inr other ↦ rw other (sym (append-nil (held (streams j))))
    | inl it ↦ rw it (
        subst
          (λ k.
            held (post_events codec union redis wake t (streams k)).1
            ≡ held (streams j)
              ++ (if is_ok (some (send_transaction t.az (wake t.az.id)).0)
                  then t.events.pdu
                  else []))
          (sym ((nat_beq_iff t.az.id j).0 it))
          (unfold post_events in post_events-pdus wake t (streams j)))
  ]

  -- The PDUs that the tasks put into it.
  posted : (ℕ → Bool) → ℕ → List (Task O) → List Fields
  posted wake j [] = []
  posted wake j (t ∷ ts) = put_at wake j t ++ posted wake j ts

  await_tasks-pdus :
      (wake : ℕ → Bool) (ts : List (Task O)) (sent_to : Dict ℕ Str) (streams : ℕ → State) (j : ℕ)
      → held ((await_tasks codec union redis wake ts sent_to streams).1 j)
        ≡ held (streams j) ++ posted wake j ts
  unfolding await_tasks posted
  await_tasks-pdus wake [] sent_to streams j = sym (append-nil (held (streams j)))
  await_tasks-pdus wake (t ∷ ts) sent_to streams j =
      await_tasks-pdus wake ts _ (behind wake t streams) j
      ∙ (ap (λ l. l ++ posted wake j ts) (behind-pdus wake t streams j)
          ∙ append_assoc (held (streams j)) (put_at wake j t) (posted wake j ts))

  -- The answers behind the tasks.
  abbrev answers : (ℕ → Bool) → List (Task O) → Dict ℕ Str → (ℕ → State) → Dict ℕ Str
  answers wake ts sent_to streams = (await_tasks codec union redis wake ts sent_to streams).0

  absent-posted :
      (wake : ℕ → Bool) (out : Output O) (ts : List (Task O)) (sent_to : Dict ℕ Str)
      (streams : ℕ → State) (j : ℕ)
      → TasksOf out ts
      → Dict.get j out ≡ none
      → (posted wake j ts ≡ [])
        × (Dict.get j (answers wake ts sent_to streams) ≡ Dict.get j sent_to)
  unfolding posted put_at await_tasks Dict.get
  absent-posted wake out ts sent_to streams j finished none_there = (refl, refl)
  absent-posted wake out ts sent_to streams j (skipped id e out' ts' h) none_there =
      absent-posted wake out' ts' sent_to streams j h (ground arith)
  absent-posted wake out ts sent_to streams j (begun e az out' ts' h) none_there =
      let t : Task O = record { az = az; events = e } in
      let status = (send_transaction az (wake az.id)).0 in
      let rest =
        absent-posted wake out' ts' (Dict.set az.id status sent_to) (behind wake t streams) j h
          (ground arith) in
      (ground (arith, rest), ground (arith, rest, get-set az.id j status sent_to))

  pdu_at-cons :
      (j id : ℕ) (e : Events O) (out : Output O)
      → pdu_at j ((id, e) ∷ out) ≡ (if nat_beq id j then e.pdu else pdu_at j out)
  unfolding Dict.get
  pdu_at-cons j id e out = ground arith

  -- The key of the first entry is not in the rest.
  moved :
      (id j : ℕ) (out : Output O)
      → Dict.get id out ≡ none
      → nat_beq id j ≡ true
      → Dict.get j out ≡ none
  moved id j out fresh it = subst (λ k. Dict.get k out ≡ none) ((nat_beq_iff id j).0 it) fresh

  sent-posted :
      (wake : ℕ → Bool) (out : Output O) (ts : List (Task O)) (sent_to : Dict ℕ Str)
      (streams : ℕ → State) (j : ℕ)
      → TasksOf out ts
      → HasKeysOnce out
      → Dict.get j sent_to ≡ none
      → posted wake j ts
        ≡ (if is_ok (Dict.get j (answers wake ts sent_to streams)) then pdu_at j out else [])
  unfolding posted put_at await_tasks HasKeysOnce
  sent-posted wake out ts sent_to streams j finished once new = ground (arith, new)
  sent-posted wake out ts sent_to streams j (skipped id e out' ts' h) (fresh, once) new =
      elim (Bool-cases (nat_beq id j)) [
        | inr other ↦
            rw (pdu_at-cons j id e out', other)
              (sent-posted wake out' ts' sent_to streams j h once new)
        | inl it ↦
            let (nil, same) =
              absent-posted wake out' ts' sent_to streams j h (moved id j out' fresh it) in
            rw (nil, same, new) refl
      ]
  sent-posted wake out ts sent_to streams j (begun e az out' ts' h) (fresh, once) new =
      let t : Task O = record { az = az; events = e } in
      let status = (send_transaction az (wake az.id)).0 in
      let sent' = Dict.set az.id status sent_to in
      elim (Bool-cases (nat_beq az.id j)) [
        | inr other ↦
            let new' : Dict.get j sent' ≡ none = get-set az.id j status sent_to ∙ (rw other new) in
            rw (pdu_at-cons j az.id e out', other)
              (sent-posted wake out' ts' sent' (behind wake t streams) j h once new')
        | inl it ↦
            let (nil, same) =
              absent-posted wake out' ts' sent' (behind wake t streams) j h
                (moved az.id j out' fresh it) in
            let mine : Dict.get j sent' ≡ some status =
              get-set az.id j status sent_to ∙ (rw it refl) in
            rw (pdu_at-cons j az.id e out', it, nil, same, mine) (append-nil _)
      ]

  send_transactions-pdus :
      (wake : ℕ → Bool) (out : Output O) (streams : ℕ → State) (s : Store) (j : ℕ)
      → HasKeysOnce out
      → IsKeyed s
      → Returns
          (λ done _.
            held (done.1 j)
            ≡ held (streams j) ++ (if is_ok (Dict.get j done.0) then pdu_at j out else []))
          (send_transactions codec union redis wake out streams s)
  unfolding send_transactions
  send_transactions-pdus wake out streams s j once keyed =
      let (r, s₁) = begin_tasks out s in
      Returns-continue r s₁ _ λ ts e. record {
        at = λ done q.
            let tasks = (begin_tasks-TasksOf out s keyed).at ts e in
            let sent =
              await_tasks-pdus wake ts [] streams j
              ∙ ap (λ l. held (streams j) ++ l)
                  (sent-posted wake out ts [] streams j tasks once (unfold Dict.get in refl)) in
            subst
              (λ (d : Dict ℕ Str × (ℕ → State)).
                held (d.1 j)
                ≡ held (streams j) ++ (if is_ok (Dict.get j d.0) then pdu_at j out else []))
              (ok_injective q) sent;
      }

  -- In a keyed store and where the types of `mautrix.types` are lossless, the PDUs in the queues are
  -- what the answer of `handle_transaction` says: behind those that it held, the queue of each
  -- appservice that is reported as sent to holds those that the sorting has found for it, which are a
  -- subsequence of the events of the transaction and may all be forwarded; any other queue holds the
  -- PDUs that it held.
  pub handle_transaction-Delivered :
      (env : Env) (wake : ℕ → Bool) (t : Transaction O) (streams after : ℕ → State)
      (sent_to : Dict ℕ Str) (s : Store) (j : ℕ)
      → IsKeyed s
      → (handle_transaction codec union redis env wake t streams s).0 ≡ ok (sent_to, after)
      → (out : Output O) × ((sort_transaction env t s).0 ≡ ok out)
        × Delivered env t.events [] (pdu_at j out)
        × (held (after j)
            ≡ held (streams j) ++ (if is_ok (Dict.get j sent_to) then pdu_at j out else []))
  unfolding handle_transaction
  handle_transaction-Delivered env wake t streams after sent_to s j keyed e =
      let s' = (sort_transaction env t s).1 in
      elim (Result-cases (sort_transaction env t s).0) [
        | inr (x, raised) ↦ ground arith
        | inl (out, sorted) ↦
            let parts = (sort_transaction-Sorted env t s j).at out sorted in
            let sent =
              send_transactions-pdus wake out streams s' j parts.once
                (sort_transaction-IsKeyed env t s keyed) in
            (out, sorted, parts.delivered, sent.at (sent_to, after) (ground arith))
      ]
