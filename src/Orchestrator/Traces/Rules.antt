-- ===== src/Orchestrator/Traces/Rules.antt =====
-- A rule for each way in which an action of the orchestrator is built.
use suno_studio.Prelude.{
  ℕ, String, ◌≡◌, refl, sym, ◌∙◌, ap, Bool, true, false, Option, none, some, List, [], ◌∷◌, ◌++◌,
  All, All-append, if◌then◌else◌,
}
use suno_studio.Exec.{
  Exn, value_error, Result, ok, err, Exec, pure, raise, gets, or_raise, ◌>>=◌, proceed,
}
use suno_studio.Models.{Job}
use suno_studio.Models.Status.{JobStatus, created}
use suno_studio.Models.Values.{Fields}
use suno_studio.Storage.Tables.{Db}
use suno_studio.Storage.Ops.{
  Op, create, set_status, runtime, metadata, artifacts, download, wait, run_op, run_ops,
}
use suno_studio.Storage.History.{StartsCreated}
use suno_studio.Storage.{
  StatusChange, RuntimeFields, Artifacts, create_job_idempotent, set_job_status, get_job,
  get_imported_asset, list_in_flight_jobs, update_job_runtime_fields, update_job_provider_metadata,
  attach_job_artifacts, record_downloaded_asset,
}
use suno_studio.Orchestrator.Runtime.{
  World, Settings, on_db, on_provider, enqueue, request_cancel, clear_cancel, is_cancelled, sleep,
  provider_for,
}

pub run_ops-append : (os ps : List Op) (s : Db) → run_ops (os ++ ps) s ≡ run_ops ps (run_ops os s)
unfolding run_ops
run_ops-append [] ps s = refl
run_ops-append (o ∷ os) ps s = run_ops-append os ps (run_op o s)

-- `t` comes from `s` by the transactions of a list, in which jobs are created as `created`.
abbrev pub Trace : Db → Db → Type 0
Trace s t = (os : List Op) × All StartsCreated os × (t ≡ run_ops os s)

-- `m` changes the tables by such transactions, whether it returns or raises.
pub record Transacts {P A : Type 0} (m : Exec (World P) A) : Type 0 where
  pub at : (w : World P) → Trace w.db (m w).1.db

module _ {P A : Type 0} where
  pub Transacts-pure : (a : A) → Transacts (pure {S = World P} a)
  unfolding pure run_ops
  Transacts-pure a = record { at = λ w. ([], tt, refl) }

  pub Transacts-raise : (e : Exn) → Transacts (raise {S = World P} {A = A} e)
  unfolding raise run_ops
  Transacts-raise e = record { at = λ w. ([], tt, refl) }

  pub Transacts-gets : (f : World P → A) → Transacts (gets f)
  unfolding gets run_ops
  Transacts-gets f = record { at = λ w. ([], tt, refl) }

  pub Transacts-or_raise : (e : Exn) (o : Option A) → Transacts (or_raise {S = World P} e o)
  unfolding or_raise run_ops
  Transacts-or_raise e none = record { at = λ w. ([], tt, refl) }
  Transacts-or_raise e (some a) = record { at = λ w. ([], tt, refl) }

  pub Transacts-lift : (r : Result A) → Transacts {P = P} (λ w. (r, w))
  unfolding run_ops
  Transacts-lift r = record { at = λ w. ([], tt, refl) }

  pub Transacts-if :
      (b : Bool) (m n : Exec (World P) A)
      → Transacts m
      → Transacts n
      → Transacts (if b then m else n)
  Transacts-if true m n h k = h
  Transacts-if false m n h k = k

  pub Transacts-on_provider : (m : Exec P A) → Transacts (on_provider m)
  unfolding on_provider run_ops
  Transacts-on_provider m = record { at = λ w. ([], tt, refl) }

  -- A storage call that is one of the writes.
  pub Transacts-op :
      (m : Exec Db A) (o : Op)
      → StartsCreated o
      → ((s : Db) → (m s).1 ≡ run_op o s)
      → Transacts (on_db {P = P} m)
  unfolding on_db run_ops
  Transacts-op m o c h = record { at = λ w. (o ∷ [], (c, tt), h w.db) }

  Transacts-read : (m : Exec Db A) → ((s : Db) → (m s).1 ≡ s) → Transacts (on_db {P = P} m)
  unfolding on_db run_ops
  Transacts-read m h = record { at = λ w. ([], tt, h w.db) }

module _ {P A B : Type 0} where
  pub Transacts-proceed :
      (w : World P) (r : Result A × World P) (f : A → Exec (World P) B)
      → Trace w.db r.1.db
      → ((a : A) → Transacts (f a))
      → Trace w.db (proceed r f).1.db
  Transacts-proceed w (ok a, v) f (os, c, e) k =
      let (ps, d, e') = (k a).at v in
      (
        os ++ ps,
        All-append StartsCreated os ps c d,
        e' ∙ ap (run_ops ps) e ∙ sym (run_ops-append os ps w.db),
      )
  Transacts-proceed w (err x, v) f t k = t

  pub Transacts-bind :
      (m : Exec (World P) A) (f : A → Exec (World P) B)
      → Transacts m
      → ((a : A) → Transacts (f a))
      → Transacts (m >>= f)
  unfolding ◌>>=◌
  Transacts-bind m f h k = record { at = λ w. Transacts-proceed w (m w) f (h.at w) k }

module _ {P : Type 0} where
  pub get_job-Transacts : (i : String) → Transacts (on_db {P = P} (get_job i))
  unfolding get_job
  get_job-Transacts i = Transacts-read (get_job i) (λ s. refl)

  pub get_imported_asset-Transacts : (i : String) → Transacts (on_db {P = P} (get_imported_asset i))
  unfolding get_imported_asset
  get_imported_asset-Transacts i = Transacts-read (get_imported_asset i) (λ s. refl)

  pub list_in_flight_jobs-Transacts : Transacts (on_db {P = P} list_in_flight_jobs)
  unfolding list_in_flight_jobs
  list_in_flight_jobs-Transacts = Transacts-read list_in_flight_jobs (λ s. refl)

  pub set_job_status-Transacts :
      (i : String) (to : JobStatus) (ch : StatusChange)
      → Transacts (on_db {P = P} (set_job_status i to ch))
  unfolding run_op
  set_job_status-Transacts i to ch = Transacts-op _ (set_status i to ch) tt (λ s. refl)

  pub update_job_runtime_fields-Transacts :
      (i : String) (r : RuntimeFields) → Transacts (on_db {P = P} (update_job_runtime_fields i r))
  unfolding run_op
  update_job_runtime_fields-Transacts i r = Transacts-op _ (runtime i r) tt (λ s. refl)

  pub update_job_provider_metadata-Transacts :
      (i : String) (m : Fields) → Transacts (on_db {P = P} (update_job_provider_metadata i m))
  unfolding run_op
  update_job_provider_metadata-Transacts i m = Transacts-op _ (metadata i m) tt (λ s. refl)

  pub attach_job_artifacts-Transacts :
      (i : String) (a : Artifacts) → Transacts (on_db {P = P} (attach_job_artifacts i a))
  unfolding run_op
  attach_job_artifacts-Transacts i a = Transacts-op _ (artifacts i a) tt (λ s. refl)

  pub record_downloaded_asset-Transacts :
      (i v c p : String) → Transacts (on_db {P = P} (record_downloaded_asset i v c p))
  unfolding run_op
  record_downloaded_asset-Transacts i v c p = Transacts-op _ (download i v c p) tt (λ s. refl)

  pub create_job_idempotent-Transacts :
      (j : Job) → j.status ≡ created → Transacts (on_db {P = P} (create_job_idempotent j))
  unfolding run_op
  create_job_idempotent-Transacts j c = Transacts-op _ (create j) c (λ s. refl)

  pub enqueue-Transacts : (i : String) → Transacts (enqueue {P = P} i)
  unfolding enqueue run_ops
  enqueue-Transacts i = record { at = λ w. ([], tt, refl) }

  pub request_cancel-Transacts : (i : String) → Transacts (request_cancel {P = P} i)
  unfolding request_cancel run_ops
  request_cancel-Transacts i = record { at = λ w. ([], tt, refl) }

  pub clear_cancel-Transacts : (i : String) → Transacts (clear_cancel {P = P} i)
  unfolding clear_cancel run_ops
  clear_cancel-Transacts i = record { at = λ w. ([], tt, refl) }

  pub is_cancelled-Transacts : (i : String) → Transacts (is_cancelled {P = P} i)
  unfolding is_cancelled run_ops
  is_cancelled-Transacts i = record { at = λ w. ([], tt, refl) }

  pub sleep-Transacts : (n : ℕ) → Transacts (sleep {P = P} n)
  unfolding sleep run_ops run_op
  sleep-Transacts n = record { at = λ w. (wait n ∷ [], (tt, tt), refl) }

  pub provider_for-Transacts : (c : Settings P) (j : Job) → Transacts (provider_for c j)
  unfolding provider_for
  provider_for-Transacts c j = Transacts-or_raise value_error (c.providers j.provider_mode)

pub ruleset rules = (
  Transacts-pure, Transacts-raise, Transacts-gets, Transacts-if, Transacts-on_provider,
  Transacts-bind, get_job-Transacts, get_imported_asset-Transacts, list_in_flight_jobs-Transacts,
  set_job_status-Transacts, update_job_runtime_fields-Transacts,
  update_job_provider_metadata-Transacts, attach_job_artifacts-Transacts,
  record_downloaded_asset-Transacts, enqueue-Transacts, request_cancel-Transacts,
  clear_cancel-Transacts, is_cancelled-Transacts, sleep-Transacts, provider_for-Transacts,
)
