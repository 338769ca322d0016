-- ===== src/Events/Expiry.antt =====
-- What `Events.pop_expired_pdu` (mautrix_asmux/api/as_util.py) keeps, returns and drops.
use mautrix_asmux.Prelude.{
  ℕ, ◌+◌, ◌≡◌, ◌⊎◌, Bool, true, false, not, ◌&&◌, none, List, [], ◌∷◌, ◌++◌, Str, text, ltb, keep,
  All, arith, append_assoc, append-nil,
}
use mautrix_asmux.Errors.{type_error}
use mautrix_asmux.Result.{ok, err}
use mautrix_asmux.Json.{Fields, get}
use mautrix_asmux.Events.{Events, timestamp, is_foreign, sort_pdu, pop_expired_pdu}

-- An event of the owner that did not come from a bridge.
abbrev pub is_own : Str → Fields → Bool
is_own owner evt = elim (is_foreign owner evt) [ ok foreign ↦ not foreign | err _ ↦ false ]

-- Its timestamp lies more than `max_age` back.
abbrev pub is_old : ℕ → ℕ → Fields → Bool
is_old max_age now evt = elim (timestamp (get (text "origin_server_ts") evt)) [
  | ok ts ↦ ltb (ts + max_age) now
  | err _ ↦ false
]

-- The sender and the content can be read, and an event of the owner has a timestamp.
abbrev pub IsReadable : Str → Fields → Type 0
IsReadable owner evt =
    (foreign : Bool) × (is_foreign owner evt ≡ ok foreign)
    × ((foreign ≡ true) ⊎ ((ts : ℕ) × (timestamp (get (text "origin_server_ts") evt) ≡ ok ts)))

module _ (owner : Str) (max_age now : ℕ) where
  abbrev pub expired_part : List Fields → List Fields
  expired_part = keep (λ evt. is_own owner evt && is_old max_age now evt)

  abbrev pub fresh_part : List Fields → List Fields
  fresh_part = keep (λ evt. is_own owner evt && not (is_old max_age now evt))

  -- The accumulators of the loop, against plain filters.
  sort_pdu-eq-filters :
      (filtered new_pdu events : List Fields)
      → All (IsReadable owner) events
      → sort_pdu owner max_age now filtered new_pdu events
        ≡ ok (filtered ++ expired_part events, new_pdu ++ fresh_part events)
  unfolding sort_pdu
  sort_pdu-eq-filters filtered new_pdu [] h = simp append-nil
  sort_pdu-eq-filters filtered new_pdu (evt ∷ rest) h = ground (
    arith,
    sort_pdu-eq-filters filtered new_pdu rest h.1,
    sort_pdu-eq-filters (filtered ++ evt ∷ []) new_pdu rest h.1,
    sort_pdu-eq-filters filtered (new_pdu ++ evt ∷ []) rest h.1,
    append_assoc filtered (evt ∷ []) (expired_part rest),
    append_assoc new_pdu (evt ∷ []) (fresh_part rest),
  )

  -- On events that can be read, the result is the expired events of the owner, in order; the
  -- transaction keeps the owner's other events, in order, and loses everything else; its other
  -- fields stay.
  pub pop_expired_pdu-eq-filters :
      {O : Type 0} (e : Events O)
      → All (IsReadable owner) e.pdu
      → pop_expired_pdu owner max_age now e
        ≡ ok (expired_part e.pdu, record e { pdu = fresh_part e.pdu })
  unfolding pop_expired_pdu
  pop_expired_pdu-eq-filters e h = ground (arith, sort_pdu-eq-filters [] [] e.pdu h)

  -- The loop raises whatever is behind an event of the owner without a timestamp.
  sort_pdu_raises :
      (filtered new_pdu before : List Fields) (evt : Fields) (behind : List Fields)
      → All (IsReadable owner) before
      → is_foreign owner evt ≡ ok false
      → get (text "origin_server_ts") evt ≡ none
      → sort_pdu owner max_age now filtered new_pdu (before ++ evt ∷ behind) ≡ err type_error
  unfolding sort_pdu timestamp
  sort_pdu_raises filtered new_pdu [] evt behind h own missing = ground arith
  sort_pdu_raises filtered new_pdu (x ∷ before) evt behind h own missing = ground (
    arith,
    sort_pdu_raises filtered new_pdu before evt behind h.1 own missing,
    sort_pdu_raises (filtered ++ x ∷ []) new_pdu before evt behind h.1 own missing,
    sort_pdu_raises filtered (new_pdu ++ x ∷ []) before evt behind h.1 own missing,
  )

  -- An event of the owner without `origin_server_ts`, behind events that can be read, makes the
  -- whole call raise a `TypeError`: the default `{}` cannot be added to a number.
  pub pop_expired_pdu_raises :
      {O : Type 0} (e : Events O) (before : List Fields) (evt : Fields) (behind : List Fields)
      → e.pdu ≡ before ++ evt ∷ behind
      → All (IsReadable owner) before
      → is_foreign owner evt ≡ ok false
      → get (text "origin_server_ts") evt ≡ none
      → pop_expired_pdu owner max_age now e ≡ err type_error
  unfolding pop_expired_pdu
  pop_expired_pdu_raises e before evt behind split h own missing =
      ground (arith, sort_pdu_raises [] [] before evt behind h own missing)
