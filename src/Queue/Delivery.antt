-- ===== src/Queue/Delivery.antt =====
-- What a consumer of the queue gets and what stays in the stream (mautrix_asmux/api/as_queue.py).
use mautrix_asmux.Prelude.{
  ℕ, zero, suc, ◌≡◌, ◌≢◌, refl, sym, ap, ◌∙◌, Bool, true, false, not, Option, none, some, List, [],
  ◌∷◌, ◌++◌, Str, if◌then◌else◌, subst, keep, All, arith, append_assoc, append-nil,
}
use mautrix_asmux.Result.{ok, err, ◌>>=◌}
use mautrix_asmux.Json.{Fields}
use mautrix_asmux.Events.{Events, new_events}
use mautrix_asmux.Events.Wire.{Codec, deserialize}
use mautrix_asmux.Redis.{Stream, Entries, ids, first, has_id, IsDistinct}
use mautrix_asmux.Queue.{
  Outcome, nothing, yielded, append_txn, combine, yield_combined, next, acknowledge,
}

abbrev rest_of : ℕ → Entries → Entries
rest_of zero l = l
rest_of (suc n) [] = []
rest_of (suc n) (e ∷ l) = rest_of n l

first-append-rest_of : (n : ℕ) (l : Entries) → first n l ++ rest_of n l ≡ l
first-append-rest_of zero l = refl
first-append-rest_of (suc n) [] = refl
first-append-rest_of (suc n) (e ∷ l) = rw (first-append-rest_of n l)

abbrev keep_others : List ℕ → Entries → Entries
keep_others l = keep (λ e. not (has_id e.0 l))

-- An id that none of the entries has makes no difference.
keep_others-cons :
    (i : ℕ) (l : List ℕ) (es : Entries)
    → All (λ (f : ℕ × Fields). f.0 ≢ i) es
    → keep_others (i ∷ l) es ≡ keep_others l es
keep_others-cons i l [] h = refl
keep_others-cons i l (e ∷ es) h = ground (arith, keep_others-cons i l es h.1)

keep_others-nil : (es : Entries) → keep_others [] es ≡ es
keep_others-nil [] = refl
keep_others-nil (e ∷ es) = rw (keep_others-nil es)

-- Removing the entries of the first part leaves the second.
keep_others-append :
    (xs ys : Entries) → IsDistinct (xs ++ ys) → keep_others (ids xs) (xs ++ ys) ≡ ys
keep_others-append [] ys h = keep_others-nil ys
keep_others-append (x ∷ xs) ys h =
    ground (arith, keep_others-cons x.0 (ids xs) (xs ++ ys) h.0, keep_others-append xs ys h.1)

module _ {O : Type 0} (codec : Codec O) where
  -- The PDUs in the entries, in order.
  abbrev pub pdus : Entries → List Fields
  pdus [] = []
  pdus ((_, raw) ∷ l) = elim (deserialize codec raw) [ ok t ↦ t.pdu ++ pdus l | err _ ↦ pdus l ]

  pub pdus-append : (xs ys : Entries) → pdus (xs ++ ys) ≡ pdus xs ++ pdus ys
  pdus-append [] ys = refl
  pdus-append ((i, raw) ∷ xs) ys =
      elim (deserialize codec raw)
        as (λ r.
          (elim r [ ok t ↦ t.pdu ++ pdus (xs ++ ys) | err _ ↦ pdus (xs ++ ys) ])
          ≡ (elim r [ ok t ↦ t.pdu ++ pdus xs | err _ ↦ pdus xs ]) ++ pdus ys) [
            | ok t ↦ simp (pdus-append xs ys, append_assoc)
            | err e ↦ pdus-append xs ys
          ]

  module _ (union : List Str → List Str → List Str) where
    combine-pdus :
        (c : Events O) (l : Entries) (t : Events O)
        → combine codec union c l ≡ ok t
        → t.pdu ≡ c.pdu ++ pdus l
    unfolding combine append_txn
    combine-pdus c [] t h = ground (arith, append-nil c.pdu)
    combine-pdus c ((i, raw) ∷ l) t h =
        elim (deserialize codec raw)
            as (λ r.
              (r >>= λ txn. combine codec union (append_txn union c txn) l) ≡ ok t
              → t.pdu ≡ c.pdu ++ (elim r [ ok u ↦ u.pdu ++ pdus l | err _ ↦ pdus l ])) [
                | ok u ↦ λ q.
                    combine-pdus (append_txn union c u) l t q ∙ append_assoc c.pdu u.pdu (pdus l)
                | err e ↦ λ q. cc
              ]
          h

    yield_combined_lem :
        (l : Entries) (t : Events O) (is : List ℕ)
        → yield_combined codec union l ≡ yielded t is
        → (t.pdu ≡ pdus l) × (is ≡ ids l)
    unfolding yield_combined
    yield_combined_lem l t is h = ground (arith, combine-pdus (new_events []) l t)

-- The stream was seen in this state by one of the polls.
pub data Polled {S : Type 0} (s : S) : List (Option S) → Type 0 where
  here : {polls : List (Option S)} → Polled s (some s ∷ polls)
  there : {p : Option S} {polls : List (Option S)} → Polled s polls → Polled s (p ∷ polls)

module _ {O : Type 0} (codec : Codec O) (union : List Str → List Str → List Str)
    (redis : Stream) where
  open redis use {
    State, xrange, xadd, xread, xdel, next_id, distinct, xrange_xadd, xread_eq, xrange_xdel,
  }

  -- What `next` yields was read from a stream in a state that a poll saw: its first ten entries.
  pub record Read (polls : List (Option State)) (t : Events O) (l : List ℕ) : Type 0 where
    pub state : State
    pub seen : Polled state polls
    pub events : t.pdu ≡ pdus codec (first 10 (xrange state))
    pub entries : l ≡ ids (first 10 (xrange state))

  not_nothing :
      (b : Bool) (x : Outcome O) (t : Events O) (l : List ℕ)
      → (if b then nothing else x) ≡ yielded t l
      → x ≡ yielded t l
  not_nothing true x t l h = cc
  not_nothing false x t l h = h

  later-Read :
      (p : Option State) (polls : List (Option State)) (t : Events O) (l : List ℕ)
      → Read polls t l
      → Read (p ∷ polls) t l
  later-Read p polls t l r = record {
    state = r.state;
    seen = Polled.there r.seen;
    events = r.events;
    entries = r.entries;
  }

  pub next-Read :
      (yield_empty : Bool) (polls : List (Option State)) (t : Events O) (l : List ℕ)
      → next codec union redis yield_empty polls ≡ yielded t l
      → Read polls t l
  unfolding next
  next-Read ye [] t l h = cc
  next-Read ye (none ∷ polls) t l h = later-Read none polls t l (next-Read ye polls t l h)
  next-Read ye (some s ∷ polls) t l h =
      elim (xread 10 s)
          as (λ es.
            xread 10 s ≡ es
            → (elim es [
              | [] ↦ if ye then nothing else next codec union redis ye polls
              | e ∷ es' ↦ yield_combined codec union (e ∷ es')
            ])
              ≡ yielded t l
            → Read (some s ∷ polls) t l) [
              | [] ↦ λ _ q.
                  later-Read (some s) polls t l (
                    next-Read ye polls t l (not_nothing ye (next codec union redis ye polls) t l q))
              | e ∷ es ↦ λ r q.
                  let (pdu, is) = yield_combined_lem codec union (e ∷ es) t l q in
                  let same : e ∷ es ≡ first 10 (xrange s) = sym r ∙ xread_eq 10 s in
                  record {
                    state = s;
                    seen = Polled.here;
                    events = pdu ∙ ap (pdus codec) same;
                    entries = is ∙ ap ids same;
                  }
            ]
        refl h

  -- The state after more transactions were pushed.
  abbrev pub push_all : List Fields → State → State
  push_all [] s = s
  push_all (p ∷ ps) s = push_all ps (xadd p s)

  abbrev pushed : List Fields → State → Entries
  pushed [] s = []
  pushed (p ∷ ps) s = (next_id s, p) ∷ pushed ps (xadd p s)

  xrange-push_all :
      (ps : List Fields) (s : State) → xrange (push_all ps s) ≡ xrange s ++ pushed ps s
  xrange-push_all [] s = sym (append-nil (xrange s))
  xrange-push_all (p ∷ ps) s =
      rw (xrange-push_all ps (xadd p s), xrange_xadd p s)
        (append_assoc (xrange s) ((next_id s, p) ∷ []) (pushed ps (xadd p s)))

  push_all-split :
      (n : ℕ) (ps : List Fields) (s : State)
      → xrange (push_all ps s) ≡ first n (xrange s) ++ (rest_of n (xrange s) ++ pushed ps s)
  push_all-split n ps s =
      xrange-push_all ps s
      ∙ (ap (λ l. l ++ pushed ps s) (sym (first-append-rest_of n (xrange s)))
          ∙ append_assoc (first n (xrange s)) (rest_of n (xrange s)) (pushed ps s))

  xrange-acknowledge :
      (n : ℕ) (ps : List Fields) (s : State)
      → xrange (acknowledge codec union redis false (ids (first n (xrange s))) (push_all ps s))
        ≡ rest_of n (xrange s) ++ pushed ps s
  unfolding acknowledge
  xrange-acknowledge n ps s =
      let head : Entries = first n (xrange s) in
      let split = push_all-split n ps s in
      xrange_xdel (ids head) (push_all ps s)
      ∙ (ap (keep_others (ids head)) split
          ∙ keep_others-append head (rest_of n (xrange s) ++ pushed ps s)
              (subst IsDistinct split (distinct (push_all ps s))))

  acknowledge_lem :
      (n : ℕ) (ps : List Fields) (s : State)
      → pdus codec (first n (xrange s))
          ++ pdus codec (
              xrange
                (acknowledge codec union redis false (ids (first n (xrange s))) (push_all ps s)))
        ≡ pdus codec (xrange (push_all ps s))
  acknowledge_lem n ps s =
      let head : Entries = first n (xrange s) in
      ap (λ l. pdus codec head ++ pdus codec l) (xrange-acknowledge n ps s)
      ∙ (sym (pdus-append codec head (rest_of n (xrange s) ++ pushed ps s))
          ∙ ap (pdus codec) (sym (push_all-split n ps s)))

  -- What a call of `next` yields, from a state `s` of the stream that one of its polls has seen, are
  -- PDUs that together with those left in the stream, once the call is acknowledged, are all the
  -- PDUs of the stream, in order: none is lost and none comes twice, also if more transactions were
  -- pushed between the read and the acknowledgement.
  pub next-acknowledge :
      (yield_empty : Bool) (polls : List (Option State)) (t : Events O) (l : List ℕ)
      → next codec union redis yield_empty polls ≡ yielded t l
      → (s : State) × Polled s polls
        × ((ps : List Fields)
            → t.pdu ++ pdus codec (xrange (acknowledge codec union redis false l (push_all ps s)))
              ≡ pdus codec (xrange (push_all ps s)))
  next-acknowledge ye polls t l h =
      let r = next-Read ye polls t l h in
      (
        r.state,
        r.seen,
        λ ps.
            let left = λ (is : List ℕ).
              pdus codec (xrange (acknowledge codec union redis false is (push_all ps r.state))) in
            ap (λ x. x ++ left l) r.events
            ∙ (ap (λ is. pdus codec (first 10 (xrange r.state)) ++ left is) r.entries
                ∙ acknowledge_lem 10 ps r.state),
      )
