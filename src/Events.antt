-- ===== src/Events.antt =====
-- `Events`, the transaction for one appservice (mautrix_asmux/api/as_util.py). The type `O` stands
-- for `mautrix.types.DeviceOTKCount`.
pub mod Expiry
pub mod Wire
use mautrix_asmux.Prelude.{
  ℕ, ◌+◌, Bool, true, false, not, ◌&&◌, ◌||◌, Option, none, some, List, [], ◌∷◌, ◌++◌, Str, text,
  ltb, if◌then◌else◌, is_empty, map,
}
use mautrix_asmux.Errors.{Exn, type_error}
use mautrix_asmux.Result.{Result, ok, err, ◌>>=◌}
use mautrix_asmux.Json.{Json, null, num, bool, Fields, get, is_text}
use mautrix_asmux.Dict.{Dict}
use mautrix_asmux.Env.{DeviceLists}
use mautrix_asmux.Util.{is_double_puppeted}

pub record Events (O : Type 0) : Type 0 where
  pub txn_id : Str
  pub pdu : List Fields
  pub edu : List Fields
  pub types : List Json
  pub otk_count : Dict Str O
  pub device_lists : DeviceLists

abbrev pub max_pdu_age_ms : ℕ
max_pdu_age_ms = 180000

module _ {O : Type 0} where
  -- `Events(txn_id)`
  abbrev pub new_events : Str → Events O
  new_events txn_id = record {
    txn_id = txn_id;
    pdu = [];
    edu = [];
    types = [];
    otk_count = [];
    device_lists = record { changed = []; left = [] };
  }

  -- The property `is_empty`.
  unfoldable pub events_is_empty : Events O → Bool
  events_is_empty e =
      is_empty e.pdu
      && (is_empty e.edu
          && (is_empty e.otk_count
              && (is_empty e.device_lists.changed && is_empty e.device_lists.left)))

-- The operand of `+ max_age`: a missing timestamp is `{}`, which cannot be added to a number. A
-- Boolean is a number in Python.
unfoldable pub timestamp : Option Json → Result ℕ
timestamp (some (num n)) = ok n
timestamp (some (bool b)) = ok (if b then 1 else 0)
timestamp _ = err type_error

-- `evt.get("sender") != owner or is_double_puppeted(evt)`
unfoldable pub is_foreign : Str → Fields → Result Bool
is_foreign owner evt =
    if is_text owner (get (text "sender") evt) then is_double_puppeted evt else ok true

-- The loop of `pop_expired_pdu`, with the lists `filtered` and `new_pdu` of what is behind it.
unfoldable pub sort_pdu :
    Str → ℕ → ℕ → List Fields → List Fields → List Fields → Result (List Fields × List Fields)
sort_pdu owner max_age now filtered new_pdu [] = ok (filtered, new_pdu)
sort_pdu owner max_age now filtered new_pdu (evt ∷ rest) = do
  foreign ← is_foreign owner evt
  if foreign then sort_pdu owner max_age now filtered new_pdu rest else do
    ts ← timestamp (get (text "origin_server_ts") evt)
    if ltb (ts + max_age) now
        then sort_pdu owner max_age now (filtered ++ evt ∷ []) new_pdu rest
        else sort_pdu owner max_age now filtered (new_pdu ++ evt ∷ []) rest

-- The expired events, and the transaction with the others. The clock is the argument `now`.
unfoldable pub pop_expired_pdu :
    {O : Type 0} → Str → ℕ → ℕ → Events O → Result (List Fields × Events O)
unfolding sort_pdu
pop_expired_pdu owner max_age now e = do
  sorted ← sort_pdu owner max_age now [] [] e.pdu
  ok (sorted.0, record e { pdu = sorted.1 })
