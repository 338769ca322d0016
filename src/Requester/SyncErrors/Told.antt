-- ===== src/Requester/SyncErrors/Told.antt =====
-- What the sync proxy and a bridge are told (mautrix_asmux/api/as_proxy.py and
-- mautrix_asmux/api/as_requester.py).
use mautrix_asmux.Prelude.{
  ℕ, ◌≤◌, ◌≡◌, ◌⊎◌, inl, inr, subst, if◌then◌else◌, Bool, true, false, not, Option, none, some,
  List, ◌∷◌, Str, text, str_eq, nat_eq, ◌==◌, keep, one_of, arith, is_some,
}
use mautrix_asmux.Result.{Result, ok, Result-cases}
use mautrix_asmux.Json.{Json, str}
use mautrix_asmux.Env.{Env}
use mautrix_asmux.Store.{Store, AppService, read}
use mautrix_asmux.Database.Azs
use mautrix_asmux.Database.Azs.Keyed.{IsKeyed}
use mautrix_asmux.Database.Azs.Calls.{id-get}
use mautrix_asmux.Requester.Attempts.{IsSilent, handle_request_ends}
use mautrix_asmux.Requester.SyncErrors.{
  sync_answer, send_syncproxy_error, Receiver, parse_id, get_az, mark_done, pass_on,
  handle_syncproxy_error, Posting, acknowledged, Instance, Others, Push, stored, push_failed,
}

-- What is reported of an appservice that may be told: the first reply, or a failure where there is
-- none.
unfoldable pub IsReport : (ℕ → Option Json) → Json → Type 0
IsReport replies v =
    ((k : ℕ) × (1 ≤ k) × (k ≤ 5) × IsSilent replies 1 k × (replies k ≡ some v))
    ⊎ (IsSilent replies 1 6 × (v ≡ str (text "websocket-send-fail")))

send-IsReport :
    (az : AppService) (replies : ℕ → Option Json) (v : Json)
    → send_syncproxy_error az replies ≡ ok v
    → (az.push ≡ false) × IsReport replies v
unfolding send_syncproxy_error sync_answer IsReport
send-IsReport az replies v h =
    let socket : az.push ≡ false = ground (arith, h) in
    elim (handle_request_ends replies) [
      | inl r ↦
          let same : r.value ≡ v = ground (arith, h, socket, r.result) in
          (socket, inl (r.attempt, r.low, r.high, r.earlier, ground (arith, same, r.reply)))
      | inr (silent, late) ↦ (socket, inr (silent, ground (arith, h, socket, late)))
    ]

-- Where `handle_syncproxy_error` returns, the appservice that the query names exists and has a
-- websocket in place of an address, the transaction is marked as done, and what is reported for it
-- is the first reply of another instance to the five attempts, or a failure if there is none.
pub handle_syncproxy_error-IsReport :
    (env : Env) (header : Result Str) (appservice_id : Option Str) (replies : ℕ → Option Json)
    (s : Receiver) (id : ℕ) (v : Json)
    → IsKeyed s.store
    → (handle_syncproxy_error env header appservice_id replies s).0 ≡ ok (id, v)
    → let t = (handle_syncproxy_error env header appservice_id replies s).1 in
      (txn_id : Str) × (header ≡ ok txn_id)
      × (parse_id env appservice_id ≡ ok id)
      × (t.transactions ≡ txn_id ∷ s.transactions)
      × (r : ℕ) × ((read t.store.azs r).id ≡ id)
      × ((read t.store.azs r).push ≡ false)
      × IsReport replies v
unfolding handle_syncproxy_error pass_on get_az mark_done
handle_syncproxy_error-IsReport env header appservice_id replies s id v keyed h =
    elim (Result-cases header) [
      | inr (x, raised) ↦ absurd (ground (arith, h, raised))
      | inl (txn_id, read_as) ↦ elim (Result-cases (parse_id env appservice_id)) [
        | inr (x, raised) ↦ absurd (ground (arith, h, read_as, raised))
        | inl (i, parsed) ↦
            let (found, store) = Azs.get i s.store in
            elim (Result-cases found) [
              | inr (x, raised) ↦ absurd (ground (arith, h, read_as, parsed, raised))
              | inl (none, nobody) ↦ absurd (ground (arith, h, read_as, parsed, nobody))
              | inl (some r, there) ↦
                  elim (Result-cases (send_syncproxy_error (read store.azs r) replies)) [
                    | inr (x, raised) ↦ absurd (ground (arith, h, read_as, parsed, there, raised))
                    | inl (w, sent) ↦
                        let same : i ≡ id = ground (arith, h, read_as, parsed, there, sent) in
                        let told : w ≡ v = ground (arith, h, read_as, parsed, there, sent) in
                        let (socket, report) = send-IsReport (read store.azs r) replies w sent in
                        (
                          txn_id,
                          read_as,
                          ground (arith, parsed, same),
                          ground (arith, read_as, parsed, there, sent),
                          r,
                          ground
                              (arith, read_as, parsed, there, sent, same, id-get i r keyed there),
                          ground (arith, read_as, parsed, there, sent, socket),
                          subst (IsReport replies) told report,
                        )
                  ]
            ]
      ]
    ]

-- The set while the answer is pushed: the id is in it, and the other messages have had their turns.
abbrev pub set_at_push : Others → Str → List Str → List Str
set_at_push o txn_id set = o.pushing (o.posting (txn_id ∷ o.lookup set))

-- The answer is in the list and the id is out of the set, or the push raised and the id is left to
-- itself.
unfoldable pub IsPushed : Others → Push → ℕ × Str × Str → Instance → Instance → Type 0
IsPushed o q (id, txn_id, response) s t =
    let set = set_at_push o txn_id s.in_flight in
    let answer : ℕ × Str × Str = (id, txn_id, response) in
    ((q ≡ stored)
      × (t.pushed ≡ answer ∷ s.pushed)
      × (one_of txn_id t.in_flight ≡ false)
      × (t.in_flight ≡ keep (λ j. not (j == txn_id)) set))
    ⊎ ((there : Bool) × (q ≡ push_failed there)
        × (t.pushed ≡ (if there then answer ∷ s.pushed else s.pushed))
        × (t.in_flight ≡ set))

-- The answer is for an appservice that is connected here and a transaction that was not being handled,
-- and it is "ok" only if the websocket has not failed. `restored` is the set behind the removal, where
-- no other message had a turn.
pub record IsAnswer (o : Others) (p : Posting) (q : Push) (s t : Instance) : Type 0 where
  pub id : ℕ
  pub txn_id : Str
  pub response : Str
  pub pushed : IsPushed o q (id, txn_id, response) s t
  pub connected : is_some (s.websockets id) ≡ true
  pub not_handled : one_of txn_id s.in_flight ≡ false
  pub restored : keep (λ j. not (j == txn_id)) (txn_id ∷ s.in_flight) ≡ s.in_flight
  pub true_ok : response ≡ text "ok" → p ≡ acknowledged

-- Nothing is pushed and the set is left to the other messages, or there is one answer.
unfoldable pub Handled : Others → Posting → Push → Instance → Instance → Type 0
Handled o p q s t =
    ((t.pushed ≡ s.pushed) × ((t.in_flight ≡ s.in_flight) ⊎ (t.in_flight ≡ o.lookup s.in_flight)))
    ⊎ IsAnswer o p q s t
