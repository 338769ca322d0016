-- ===== src/Proxy/Sending/Tasks.antt =====
-- The tasks that `_send_transactions` starts (mautrix_asmux/api/as_proxy.py).
use mautrix_asmux.Prelude.{
  ℕ, ◌≡◌, refl, ap, subst, ◌∙◌, Option, none, some, List, [], ◌∷◌, ◌++◌, str_eq, nat_eq, arith,
}
use mautrix_asmux.Result.{ok, ok_injective}
use mautrix_asmux.Exec.{pure, ◌>>=◌, Returns, Returns-continue}
use mautrix_asmux.Store.{Store, AppService, read}
use mautrix_asmux.Events.{Events}
use mautrix_asmux.Database.Azs
use mautrix_asmux.Database.Azs.Keyed.{IsKeyed, get-IsKeyed}
use mautrix_asmux.Database.Azs.Calls.{id-get}
use mautrix_asmux.Proxy.{Output}
use mautrix_asmux.Proxy.Sending.{Task, begin_task, begin_tasks}

module _ {O : Type 0} where
  -- The tasks of an output: one for each entry whose appservice exists.
  pub data TasksOf : Output O → List (Task O) → Type 0 where
    finished : TasksOf [] []
    skipped :
        (id : ℕ) (e : Events O) (out : Output O) (ts : List (Task O))
        → TasksOf out ts
        → TasksOf ((id, e) ∷ out) ts
    begun :
        (e : Events O) (az : AppService) (out : Output O) (ts : List (Task O))
        → TasksOf out ts
        → TasksOf ((az.id, e) ∷ out) (record { az = az; events = e } ∷ ts)

  begun_at :
      (id : ℕ) (e : Events O) (az : AppService) (out : Output O) (ts : List (Task O))
      → az.id ≡ id
      → TasksOf out ts
      → TasksOf ((id, e) ∷ out) (record { az = az; events = e } ∷ ts)
  begun_at id e az out ts same h =
      subst (λ k. TasksOf ((k, e) ∷ out) (record { az = az; events = e } ∷ ts)) same
        (TasksOf.begun e az out ts h)

  found-TasksOf :
      (id : ℕ) (e : Events O) (az : Option ℕ) (out : Output O) (s : Store)
      → ((r : ℕ) → az ≡ some r → (read s.azs r).id ≡ id)
      → Returns (λ ts _. TasksOf out ts) (begin_tasks out s)
      → Returns
          (λ ts _. TasksOf ((id, e) ∷ out) ts)
          ((do task ← begin_task e az; tasks ← begin_tasks out; pure (task ++ tasks)) s)
  unfolding begin_task
  found-TasksOf id e none out s h rest =
      let (r, s') = begin_tasks out s in
      Returns-continue r s' _
        λ ts q. record { at = λ ts' q'. ground (arith, TasksOf.skipped id e out ts (rest.at ts q)) }
  found-TasksOf id e (some a) out s h rest =
      let (r, s') = begin_tasks out s in
      Returns-continue r s' _ λ ts q. record {
        at =
            λ ts' q'. ground (arith, begun_at id e (read s.azs a) out ts (h a refl) (rest.at ts q));
      }

  pub begin_tasks-TasksOf :
      (out : Output O) (s : Store)
      → IsKeyed s
      → Returns (λ ts _. TasksOf out ts) (begin_tasks out s)
  unfolding begin_tasks
  begin_tasks-TasksOf [] s keyed = record {
    at = λ ts e. subst (TasksOf []) (ok_injective e) TasksOf.finished;
  }
  begin_tasks-TasksOf ((id, e) ∷ out) s keyed =
      let (found, s') = Azs.get id s in
      Returns-continue found s' _ λ az q.
        found-TasksOf id e az out s' (λ r same. id-get id r keyed (q ∙ ap ok same))
          (begin_tasks-TasksOf out s' (get-IsKeyed id keyed))
