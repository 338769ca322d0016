-- ===== src/Requester/Wakeups.antt =====
-- Wakeup pushes: `wakeup_appservice` and the notice of it to the other instances
-- (mautrix_asmux/api/as_requester.py), and `set_prev_wakeup_push` (mautrix_asmux/api/as_websocket.py).
use mautrix_asmux.Prelude.{
  ℕ, ◌≡◌, ◌⊎◌, inl, inr, refl, Bool, true, false, ◌&&◌, Option, none, some, Str, text, str_eq,
  nat_eq, leb, ltb, if◌then◌else◌, arith, Bool-cases, Option-cases,
}
use mautrix_asmux.Errors.{attribute_error, value_error}
use mautrix_asmux.Result.{Result, ok, err, or_raise}
use mautrix_asmux.Exec.{Exec, lift, modify, ◌>>=◌}
use mautrix_asmux.Json.{Json, obj, end, get}
use mautrix_asmux.Json.Holding.{holds}
use mautrix_asmux.Dict
use mautrix_asmux.Dict.{Dict}
use mautrix_asmux.Env.{Env}
use mautrix_asmux.Store.{Store, PushKey, read}
use mautrix_asmux.Database.Azs

-- How the request to Sygnal ends: with an exception, or with a status and a body, `none` where it is
-- not JSON.
pub data Pushed : Type 0 where
  raised : Pushed
  answered : ℕ → Option Json → Pushed

-- `data.get("rejected", {})`
unfoldable pub rejected_in : Json → Result Json
rejected_in (obj d) = elim (get (text "rejected") d) [ none ↦ ok (obj end) | some v ↦ ok v ]
rejected_in _ = err attribute_error

-- `pushkey in data.get("rejected", {})`, in which an exception ends in a warning
unfoldable pub is_rejected : Str → Json → Bool
unfolding rejected_in holds
is_rejected pushkey v = elim (rejected_in v) [
  | err e ↦ false
  | ok l ↦ elim (holds pushkey l) [ err e ↦ false | ok b ↦ b ]
]

unfoldable pub woken : ℕ → PushKey → Pushed → Store → Store
unfolding is_rejected
woken r key raised s = s
woken r key (answered status none) s = s
woken r key (answered status (some v)) s =
    if (leb 200 status && ltb status 300) && is_rejected key.pushkey v
    then (Azs.set_push_key r none s).1
    else s

-- `wakeup_appservice`
unfoldable pub wakeup_appservice : ℕ → Pushed → Store → Store
unfolding woken
wakeup_appservice r p s = elim (read s.azs r).push_key [ none ↦ s | some key ↦ woken r key p s ]

-- `notify_appservice_wakeup`: the id that is published.
unfoldable pub notify_appservice_wakeup : ℕ → Store → Option ℕ
notify_appservice_wakeup r s = if (read s.azs r).push then none else some (read s.azs r).id

-- The tables, and `prev_wakeup_push`.
pub record Wakeups : Type 0 where
  pub store : Store
  pub prev_wakeup_push : Dict ℕ ℕ

unfoldable pub set_prev_wakeup_push : ℕ → Option ℕ → Wakeups → Wakeups
set_prev_wakeup_push now none s = s
set_prev_wakeup_push now (some r) s = record s {
  prev_wakeup_push = Dict.set (read s.store.azs r).id now s.prev_wakeup_push;
}

unfoldable pub find_woken : ℕ → Exec Wakeups (Option ℕ)
find_woken id s = let (r, store) = Azs.get id s.store in (r, record s { store = store })

-- `handle_wakeup_appservice_notification`
unfoldable pub handle_wakeup_appservice_notification : Env → ℕ → Str → Exec Wakeups (Unit {0})
unfolding find_woken set_prev_wakeup_push
handle_wakeup_appservice_notification env now message = do
  id ← lift (or_raise (env.parse_uuid message) value_error)
  found ← find_woken id
  modify (set_prev_wakeup_push now found)

-- Sygnal has answered that the push key of the appservice is rejected.
pub record IsRejected (r : ℕ) (p : Pushed) (s : Store) : Type 0 where
  pub key : PushKey
  pub had : (read s.azs r).push_key ≡ some key
  pub status : ℕ
  pub success : (leb 200 status && ltb status 300) ≡ true
  pub body : Json
  pub answer : p ≡ answered status (some body)
  pub rejected : is_rejected key.pushkey body ≡ true

-- A wakeup changes nothing, or it has removed the push key of the appservice, which Sygnal has
-- rejected.
pub wakeup_appservice-IsRejected :
    (r : ℕ) (p : Pushed) (s : Store)
    → (wakeup_appservice r p s ≡ s)
      ⊎ (IsRejected r p s
          × ((read (wakeup_appservice r p s).azs r).push_key ≡ none)
          × (wakeup_appservice r p s ≡ (Azs.set_push_key r none s).1))
unfolding wakeup_appservice woken Azs.set_push_key Azs.usable Azs.change
wakeup_appservice-IsRejected r raised s = inl (ground arith)
wakeup_appservice-IsRejected r (answered status none) s = inl (ground arith)
wakeup_appservice-IsRejected r (answered status (some v)) s =
    elim (Option-cases (read s.azs r).push_key) [
      | inl missing ↦ inl (ground (arith, missing))
      | inr (key, had) ↦
          elim (Bool-cases ((leb 200 status && ltb status 300) && is_rejected key.pushkey v)) [
            | inr fine ↦ inl (ground (arith, had, fine))
            | inl bad ↦ inr (
              record {
                key = key;
                had = had;
                status = status;
                success = ground (arith, bad);
                body = v;
                answer = refl;
                rejected = ground (arith, bad);
              },
              ground (arith, had, bad),
              ground (arith, had, bad),
            )
          ]
    ]
