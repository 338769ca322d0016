-- ===== src/Requester/InFlight.antt =====
-- How often a request is carried out (mautrix_asmux/api/as_requester.py).
use mautrix_asmux.Prelude.{
  ℕ, ◌+◌, ◌≤◌, ◌≡◌, Bool, true, false, not, List, [], ◌∷◌, Str, str_eq, str_beq_iff, ◌==◌, one_of,
  keep, if◌then◌else◌, arith,
}
use mautrix_asmux.Requester.{Handler, check_request, without_first, begin_request, end_request}

-- What happens at one instance: a message comes, its appservice has been looked up, or the call for a
-- request ends.
pub data Event : Type 0 where
  message : Str → Event
  looked_up : Bool → Str → Event
  ends : Bool → Str → Event

abbrev pub count : Str → List Str → ℕ
count id [] = 0
count id (j ∷ l) = (if j == id then 1 else 0) + count id l

-- A message may come at any time; a lookup ends only for a message that waits, and a call only if one
-- for this request has begun and not ended.
abbrev pub MayHappen : Event → Handler → Type 0
MayHappen (message _) h = Unit
MayHappen (looked_up _ id) h = 1 ≤ count id h.waiting
MayHappen (ends _ id) h = count id h.ended + 1 ≤ count id h.begun

abbrev pub happen : Event → Handler → Handler
happen (message id) h = check_request id h
happen (looked_up connected id) h = begin_request connected id h
happen (ends pushed id) h = end_request pushed id h

pub data Runs (h : Handler) : Handler → Type 0 where
  here : Runs h h
  later : {g k : Handler} → Runs h g → (e : Event) → MayHappen e g → k ≡ happen e g → Runs h k

-- A message comes while no other one of its request waits for the appservice.
abbrev pub ComesAlone : Event → Handler → Type 0
ComesAlone (message id) h = count id h.waiting ≡ 0
ComesAlone (looked_up _ _) h = Unit
ComesAlone (ends _ _) h = Unit

-- No two lookups for one request overlap in the run.
unfoldable pub HasNoOverlap : {h k : Handler} → Runs h k → Type 0
HasNoOverlap here = Unit
HasNoOverlap (later {g} rs e may same) = HasNoOverlap rs × ComesAlone e g

abbrev pub idle : Handler
idle = record { waiting = []; in_flight = []; begun = []; ended = [] }

-- A request that runs is in the set, at most one call of it runs, and a message that waits is the only
-- one of its request, which is not in the set.
pub record IsGuarded (h : Handler) : Type 0 where
  pub lone : (id : Str) → count id h.waiting ≤ 1
  pub new : (id : Str) → 1 ≤ count id h.waiting → one_of id h.in_flight ≡ false
  pub at_most_one :
      (id : Str) → count id h.begun ≤ count id h.ended + (if one_of id h.in_flight then 1 else 0)
  pub no_more : (id : Str) → count id h.ended ≤ count id h.begun

one_of-keep :
    (id k : Str) (l : List Str)
    → one_of k (keep (λ j. not (j == id)) l) ≡ (if k == id then false else one_of k l)
unfolding one_of
one_of-keep id k [] = ground arith
one_of-keep id k (j ∷ l) =
    ground (arith, one_of-keep id k l, str_beq_iff j id, str_beq_iff k id, str_beq_iff k j)

count-without_first :
    (id k : Str) (l : List Str)
    → 1 ≤ count id l
    → count k l ≡ count k (without_first id l) + (if id == k then 1 else 0)
unfolding without_first
count-without_first id k [] h = absurd (omega arith)
count-without_first id k (j ∷ l) h =
    ground (arith, count-without_first id k l, str_beq_iff j id, str_beq_iff id k, str_beq_iff j k)

happen-IsGuarded :
    (e : Event) (h : Handler)
    → MayHappen e h
    → ComesAlone e h
    → IsGuarded h
    → IsGuarded (happen e h)
unfolding check_request begin_request end_request one_of
happen-IsGuarded (message id) h may alone g = record {
  lone = λ k. ground (arith, alone, g.lone k, str_beq_iff id k);
  new = λ k w. ground (arith, alone, g.new k, str_beq_iff id k);
  at_most_one = λ k. ground (arith, g.at_most_one k);
  no_more = λ k. ground (arith, g.no_more k);
}
happen-IsGuarded (looked_up connected id) h may alone g =
    let fewer = λ (k : Str). count-without_first id k h.waiting may in
    record {
      lone = λ k. ground (arith, g.lone k, fewer k);
      new = λ k w. ground (arith, g.lone k, g.new k, fewer k, str_beq_iff id k, str_beq_iff k id);
      at_most_one =
          λ k. ground (arith, g.at_most_one k, g.new id may, str_beq_iff id k, str_beq_iff k id);
      no_more = λ k. ground (arith, g.no_more k);
    }
happen-IsGuarded (ends pushed id) h may alone g = record {
  lone = λ k. ground (arith, g.lone k);
  new = λ k w. ground (arith, g.new k, one_of-keep id k h.in_flight);
  at_most_one = λ k. ground (
    arith,
    g.at_most_one k,
    g.no_more k,
    one_of-keep id k h.in_flight,
    str_beq_iff id k,
    str_beq_iff k id,
  );
  no_more = λ k. ground (arith, g.no_more k, str_beq_iff id k);
}

Runs-IsGuarded : {h k : Handler} (runs : Runs h k) → HasNoOverlap runs → IsGuarded h → IsGuarded k
unfolding HasNoOverlap
Runs-IsGuarded here alone g = g
Runs-IsGuarded (later rs e may same) (before, alone) g =
    rw same (happen-IsGuarded e _ may alone (Runs-IsGuarded rs before g))

idle-IsGuarded : IsGuarded idle
idle-IsGuarded = record {
  lone = λ id. omega arith;
  new = λ id w. absurd (omega arith);
  at_most_one = λ id. omega arith;
  no_more = λ id. omega arith;
}

-- Where an instance looks up the appservice for one message of a request at a time, it runs at most
-- one call for the request at a time, however often its message comes, and none once the id is not in
-- the set of those in flight.
pub Runs-once :
    (id : Str) (h : Handler) (runs : Runs idle h)
    → HasNoOverlap runs
    → (count id h.begun ≤ count id h.ended + (if one_of id h.in_flight then 1 else 0))
      × (count id h.ended ≤ count id h.begun)
Runs-once id h runs alone =
    let g = Runs-IsGuarded runs alone idle-IsGuarded in (g.at_most_one id, g.no_more id)

-- Two messages of a request that come before the appservice of either was found both begin a call: the
-- test of the set and the addition to it are not one step.
begin_request-check_request :
    (id : Str) (h : Handler)
    → one_of id h.in_flight ≡ false
    → let both = check_request id (check_request id h) in
      count id (begin_request true id (begin_request true id both)).begun ≡ count id h.begun + 2
unfolding check_request begin_request without_first
begin_request-check_request id h new = ground (arith, new, str_beq_iff id id)
