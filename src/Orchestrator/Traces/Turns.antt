-- ===== src/Orchestrator/Traces/Turns.antt =====
-- The storage transactions of a turn of the worker (bridge/services/job_service.py, WorkerLoop._run).
use suno_studio.Prelude.{
  ℕ, String, ◌≡◌, refl, sym, ◌∙◌, ap, Option, none, some, List, [], ◌∷◌, ◌++◌, All-append, subst,
  inl, inr, Bool-cases, ◌==◌,
}
use suno_studio.Exec.{Result}
use suno_studio.Storage.Tables.{Db}
use suno_studio.Storage.Ops.{run_ops}
use suno_studio.Storage.History.{StartsCreated}
use suno_studio.Orchestrator.Runtime.{World, Settings, Finish, dequeue, take_first}
use suno_studio.Orchestrator.Service.{worker_turn, serve, swallow}
use suno_studio.Orchestrator.Traces.Rules.{Trace, run_ops-append}
use suno_studio.Orchestrator.Traces.{process_one-Transacts}

pub Trace-refl : (s : Db) → Trace s s
unfolding run_ops
Trace-refl s = ([], tt, refl)

pub Trace-trans : (r s t : Db) → Trace r s → Trace s t → Trace r t
Trace-trans r s t (os, c, e) (ps, d, f) = (
  os ++ ps,
  All-append StartsCreated os ps c d,
  f ∙ ap (run_ops ps) e ∙ sym (run_ops-append os ps r),
)

module _ {P : Type 0} (settings : Settings P) where
  swallow-db : (r : Result Finish × World P) → (swallow settings r).1 ≡ r.1
  swallow-db (Result.ok f, w) = refl
  swallow-db (Result.err e, w) = refl

  dequeue-db : (w : World P) → (dequeue w).1.db ≡ w.db
  unfolding dequeue
  dequeue-db w = of_queue w.queue
    where
      of_queue : (is : List String) → (take_first w is).1.db ≡ w.db
      of_queue [] = refl
      of_queue (i ∷ is) = refl

  serve-Trace :
      (fuel : ℕ) (r : Result (Option String) × World P) → Trace r.1.db (serve settings fuel r).1.db
  serve-Trace fuel (Result.ok none, w) = Trace-refl w.db
  serve-Trace fuel (Result.ok (some i), w) = elim (Bool-cases (i == "")) [
    | inl y ↦ rw y (Trace-refl w.db)
    | inr n ↦ rw (n, swallow-db) ((process_one-Transacts settings fuel i).at w)
  ]
  serve-Trace fuel (Result.err e, w) = Trace-refl w.db

  pub turn-Trace : (fuel : ℕ) (w : World P) → Trace w.db (worker_turn settings fuel w).1.db
  unfolding worker_turn
  turn-Trace fuel w =
      subst (λ s. Trace s (serve settings fuel (dequeue w)).1.db) (dequeue-db w)
        (serve-Trace fuel (dequeue w))
