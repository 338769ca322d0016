-- ===== src/Proxy/Sending.antt =====
-- The sending of a sorted transaction: `_send_transactions`, `post_events` and `handle_transaction`
-- (mautrix_asmux/api/as_proxy.py). The tasks touch one queue each, under one lock each, so that
-- their order makes no difference; the checkpoints that are sent besides are left out.
pub mod Keys
pub mod Tables
pub mod Tasks
pub mod Queued
use mautrix_asmux.Prelude.{
  ℕ, Bool, Option, none, some, List, [], ◌∷◌, ◌++◌, Str, nat_eq, nat_beq, if◌then◌else◌,
}
use mautrix_asmux.Result.{Result}
use mautrix_asmux.Exec.{Exec, pure, gets, ◌>>=◌}
use mautrix_asmux.Env.{Env}
use mautrix_asmux.Dict
use mautrix_asmux.Dict.{Dict}
use mautrix_asmux.Store.{Store, AppService, read}
use mautrix_asmux.Redis.{Stream}
use mautrix_asmux.Events.{Events}
use mautrix_asmux.Events.Wire.{Codec}
use mautrix_asmux.Queue.{push}
use mautrix_asmux.Requester.{
  Handed, push_http, push_websocket, ensure_pusher, check_later, send_wakeup, send_transaction,
}
use mautrix_asmux.Database.Azs
use mautrix_asmux.Proxy.{Output, Transaction, sort_transaction}

-- A call of `post_events` that `_send_transactions` has started.
pub record Task (O : Type 0) : Type 0 where
  pub az : AppService
  pub events : Events O

unfoldable pub begin_task : {O : Type 0} → Events O → Option ℕ → Exec Store (List (Task O))
begin_task e none = pure []
begin_task e (some r) = do
  az ← gets (λ (s : Store). read s.azs r)
  pure (record { az = az; events = e } ∷ [])

-- The loop over `events.items()`
unfoldable pub begin_tasks : {O : Type 0} → Output O → Exec Store (List (Task O))
unfolding begin_task
begin_tasks [] = pure []
begin_tasks ((id, e) ∷ out) = do
  found ← Azs.get id
  task ← begin_task e found
  tasks ← begin_tasks out
  pure (task ++ tasks)

module _ {O : Type 0} (codec : Codec O) (union : List Str → List Str → List Str)
    (redis : Stream) where
  open redis use {State}

  -- The queues of the two handlers for one appservice are one stream.
  unfoldable pub carry_out : List Handed → Events O → State → State
  carry_out [] e s = s
  carry_out (push_http ∷ handed) e s = carry_out handed e (push codec union redis e s)
  carry_out (push_websocket ∷ handed) e s = carry_out handed e (push codec union redis e s)
  carry_out (_ ∷ handed) e s = carry_out handed e s

  -- `wake` says for an appservice what `should_wakeup` answers.
  unfoldable pub post_events : (ℕ → Bool) → Task O → State → Str × State
  unfolding carry_out
  post_events wake t s =
      let (status, handed) = send_transaction t.az (wake t.az.id) in
      (status, carry_out handed t.events s)

  -- The results are collected in `sent_to`, here by the id and not by its text.
  unfoldable pub await_tasks :
      (ℕ → Bool) → List (Task O) → Dict ℕ Str → (ℕ → State) → Dict ℕ Str × (ℕ → State)
  unfolding post_events
  await_tasks wake [] sent_to streams = (sent_to, streams)
  await_tasks wake (t ∷ ts) sent_to streams =
      let (status, s) = post_events wake t (streams t.az.id) in
      await_tasks wake ts (Dict.set t.az.id status sent_to)
        (λ j. if nat_beq t.az.id j then s else streams j)

  unfoldable pub send_transactions :
      (ℕ → Bool) → Output O → (ℕ → State) → Exec Store (Dict ℕ Str × (ℕ → State))
  unfolding begin_tasks await_tasks
  send_transactions wake out streams = do
    tasks ← begin_tasks out
    pure (await_tasks wake tasks [] streams)

  unfoldable pub handle_transaction :
      Env → (ℕ → Bool) → Transaction O → (ℕ → State) → Exec Store (Dict ℕ Str × (ℕ → State))
  unfolding sort_transaction send_transactions
  handle_transaction env wake t streams = do
    out ← sort_transaction env t
    send_transactions wake out streams
