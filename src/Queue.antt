-- ===== src/Queue.antt =====
-- `AppServiceQueue`, the stream of the transactions for one appservice
-- (mautrix_asmux/api/as_queue.py). That an unread stream expires after seven days is not modelled.
pub mod Delivery
use mautrix_asmux.Prelude.{
  ℕ, Bool, true, false, not, Option, none, some, List, [], ◌∷◌, ◌++◌, Str, text, str_eq,
  if◌then◌else◌, is_empty,
}
use mautrix_asmux.Errors.{Exn}
use mautrix_asmux.Result.{Result, ok, err, ◌>>=◌}
use mautrix_asmux.Json.{Json, Fields}
use mautrix_asmux.Dict
use mautrix_asmux.Dict.{Dict}
use mautrix_asmux.Env.{DeviceLists}
use mautrix_asmux.Events.{Events, new_events, pop_expired_pdu, max_pdu_age_ms}
use mautrix_asmux.Events.Wire.{Codec, serialize, deserialize}
use mautrix_asmux.Redis.{Stream, Entries, ids}

-- `d |= d'`
unfoldable pub merge : {O : Type 0} → Dict Str O → Dict Str O → Dict Str O
merge d [] = d
merge d ((k, v) ∷ d') = merge (Dict.set k v d) d'

-- `list(set(a) | set(b))` has no fixed order: it is the parameter `union`.
module _ (union : List Str → List Str → List Str) where
  unfoldable pub append_device_list : DeviceLists → DeviceLists → DeviceLists
  append_device_list a b = record {
    changed = union a.changed b.changed;
    left = union a.left b.left;
  }

  unfoldable pub append_txn : {O : Type 0} → Events O → Events O → Events O
  unfolding merge append_device_list
  append_txn combined txn = record {
    txn_id =
        if is_empty combined.txn_id
        then txn.txn_id
        else combined.txn_id ++ (text "," ++ txn.txn_id);
    types = combined.types ++ txn.types;
    pdu = combined.pdu ++ txn.pdu;
    edu = combined.edu ++ txn.edu;
    otk_count = merge combined.otk_count txn.otk_count;
    device_lists = append_device_list combined.device_lists txn.device_lists;
  }

-- How a call of `next` has gone on: it still waits, it raised, or it has yielded `None` or a
-- transaction, with the ids that it removes once the body of the `async with` is through.
pub data Outcome (O : Type 0) : Type 0 where
  waiting : Outcome O
  raised : Exn → Outcome O
  nothing : Outcome O
  yielded : Events O → List ℕ → Outcome O

module _ {O : Type 0} (codec : Codec O) (union : List Str → List Str → List Str) where
  -- The loop over `stream_txns`
  unfoldable pub combine : Events O → Entries → Result (Events O)
  combine combined [] = ok combined
  combine combined ((_, raw) ∷ entries) = do
    txn ← deserialize codec raw
    combine (append_txn union combined txn) entries

  unfoldable pub yield_combined : Entries → Outcome O
  yield_combined entries = elim (combine (new_events []) entries) [
    | ok txn ↦ yielded txn (ids entries)
    | err e ↦ raised e
  ]

module _ {O : Type 0} (codec : Codec O) (union : List Str → List Str → List Str)
    (redis : Stream) where
  open redis use {State, xrange, xadd, xread, xdel}

  -- One round of the loop for each poll: `none` is a `ConnectionError`, `some s` the state of the
  -- stream when the 30 seconds of the blocking `XREAD` are over or an entry is there.
  unfoldable pub next : Bool → List (Option State) → Outcome O
  unfolding yield_combined
  next yield_empty [] = waiting
  next yield_empty (none ∷ polls) = next yield_empty polls
  next yield_empty (some s ∷ polls) =
      let rest = next yield_empty polls in
      elim (xread 10 s) [
        | [] ↦ if yield_empty then nothing else rest
        | e ∷ es ↦ yield_combined codec union (e ∷ es)
      ]

  -- Behind the `yield`: the entries go only if the body of the `async with` has not raised.
  unfoldable pub acknowledge : Bool → List ℕ → State → State
  acknowledge body_raised l s = if body_raised then s else xdel l s

  unfoldable pub push : Events O → State → State
  push txn s = xadd (serialize codec txn) s

  -- The loop of `contains_pdus`
  unfoldable pub any_pdu : Str → ℕ → Entries → Result Bool
  any_pdu owner now [] = ok false
  any_pdu owner now ((_, raw) ∷ entries) = do
    txn ← deserialize codec raw
    popped ← pop_expired_pdu owner max_pdu_age_ms now txn
    if is_empty popped.1.pdu then any_pdu owner now entries else ok true

  unfoldable pub contains_pdus : Str → ℕ → State → Result Bool
  unfolding any_pdu
  contains_pdus owner now s = any_pdu owner now (xrange s)
