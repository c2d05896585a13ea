-- ===== src/Orchestrator/Steps.antt =====
-- What the calls of the orchestrator do to a world in which the job `i` is the row `c`.
use suno_studio.Prelude.{ℕ, ◌+◌, String, ◌≡◌, refl, ap, ◌∙◌, true, some}
use suno_studio.Exec.{ok, Exec, pure, ◌>>=◌, proceed}
use suno_studio.Models.{Job}
use suno_studio.Models.Values.{Fields}
use suno_studio.Models.Status.{JobStatus, may_become}
use suno_studio.Storage.{
  StatusChange, RuntimeFields, Artifacts, get_job, set_job_status, update_job_runtime_fields,
  update_job_provider_metadata, with_metadata, attach_job_artifacts, with_status, written,
  with_runtime, runtime_written, with_artifacts,
}
use suno_studio.Storage.Tables.{find_job, update_where}
use suno_studio.Storage.Updates.{set_job_status-done, update_known-done, find_job-update_where_self}
use suno_studio.Orchestrator.Runtime.{World, on_db, sleep}

-- A step of a `do` block that returns.
pub then_step :
    {S A B : Type 0} (m : Exec S A) (f : A → Exec S B) (w : S) {v : S} {a : A}
    → m w ≡ (ok a, v)
    → (m >>= f) w ≡ f a v
unfolding ◌>>=◌
then_step m f w e = ap (λ r. proceed r f) e

pub get_job-runs :
    {P : Type 0} (i : String) (w : World P) {a : Job}
    → find_job i w.db.jobs ≡ some a
    → on_db {P = P} (get_job i) w ≡ (ok (some a), w)
unfolding on_db get_job
get_job-runs i w there = rw there

-- `m` returns `a`, and afterwards the job `i` is `c`; nothing else of the world has changed that the
-- loops look at.
pub record Leads {P A : Type 0} (i : String) (m : Exec (World P) A) (w : World P) (a : A) (c : Job)
    : Type 0 where
  pub after : World P
  pub runs : m w ≡ (ok a, after)
  pub found : find_job i after.db.jobs ≡ some c
  pub cancelled : after.cancelled ≡ w.cancelled
  pub provider : after.provider_state ≡ w.provider_state

module _ {P : Type 0} (i : String) (w : World P) {c : Job}
    (there : find_job i w.db.jobs ≡ some c) where
  pub get_job-Leads : Leads i (on_db {P = P} (get_job i)) w (some c) c
  unfolding on_db get_job
  get_job-Leads = record {
    after = w;
    runs = rw there;
    found = there;
    cancelled = refl;
    provider = refl;
  }

  pub set_job_status-Leads :
      (to : JobStatus) (ch : StatusChange)
      → may_become c.status to ≡ true
      → Leads i
          (on_db {P = P} (set_job_status i to ch))
          w
          (with_status to ch w.db.now c)
          (with_status to ch w.db.now c)
  unfolding on_db
  set_job_status-Leads to ch way = record {
    after = record w { db = (set_job_status i to ch w.db).1 };
    runs = rw (set_job_status-done i to ch w.db there way);
    found =
        rw (set_job_status-done i to ch w.db there way)
          (find_job-update_where_self i (written c to ch w.db.now) w.db.jobs (λ j. refl) there);
    cancelled = refl;
    provider = refl;
  }

  pub runtime-Leads :
      (r : RuntimeFields)
      → Leads i
          (on_db {P = P} (update_job_runtime_fields i r))
          w
          (with_runtime r w.db.now c)
          (with_runtime r w.db.now c)
  unfolding on_db update_job_runtime_fields
  runtime-Leads r = record {
    after = record w {
      db = record (w.db) { jobs = update_where i (runtime_written r c w.db.now) w.db.jobs };
    };
    runs = rw (update_known-done i (runtime_written r) w.db (λ j. refl) there);
    found = find_job-update_where_self i (runtime_written r c w.db.now) w.db.jobs (λ j. refl) there;
    cancelled = refl;
    provider = refl;
  }

  pub artifacts-Leads :
      (a : Artifacts)
      → Leads i
          (on_db {P = P} (attach_job_artifacts i a))
          w
          (with_artifacts a w.db.now c)
          (with_artifacts a w.db.now c)
  unfolding on_db attach_job_artifacts
  artifacts-Leads a = record {
    after = record w {
      db = record (w.db) { jobs = update_where i (with_artifacts a w.db.now) w.db.jobs };
    };
    runs = rw (update_known-done i (λ c. with_artifacts a) w.db (λ j. refl) there);
    found = find_job-update_where_self i (with_artifacts a w.db.now) w.db.jobs (λ j. refl) there;
    cancelled = refl;
    provider = refl;
  }

  pub metadata-Leads :
      (m : Fields)
      → Leads i
          (on_db {P = P} (update_job_provider_metadata i m))
          w
          (with_metadata m w.db.now c)
          (with_metadata m w.db.now c)
  unfolding on_db update_job_provider_metadata
  metadata-Leads m = record {
    after = record w {
      db = record (w.db) { jobs = update_where i (with_metadata m w.db.now) w.db.jobs };
    };
    runs = rw (update_known-done i (λ c. with_metadata m) w.db (λ j. refl) there);
    found = find_job-update_where_self i (with_metadata m w.db.now) w.db.jobs (λ j. refl) there;
    cancelled = refl;
    provider = refl;
  }

  pub sleep-Leads : (n : ℕ) → Leads i (sleep {P = P} n) w tt c
  unfolding sleep
  sleep-Leads n = record {
    after = record w { db = record (w.db) { now = w.db.now + n } };
    runs = refl;
    found = there;
    cancelled = refl;
    provider = refl;
  }

  pub pure-Leads : {A : Type 0} (a : A) → Leads i (pure {S = World P} a) w a c
  unfolding pure
  pure-Leads a = record { after = w; runs = refl; found = there; cancelled = refl; provider = refl }

module _ {P A B : Type 0} (i : String) {m : Exec (World P) A} {w : World P} {a : A}
    {c d : Job} where
  pub Leads-bind :
      (f : A → Exec (World P) B) {b : B} (l : Leads i m w a c)
      → Leads i (f a) l.after b d
      → Leads i (m >>= f) w b d
  Leads-bind f l k = record {
    after = k.after;
    runs = then_step m f w l.runs ∙ k.runs;
    found = k.found;
    cancelled = k.cancelled ∙ l.cancelled;
    provider = k.provider ∙ l.provider;
  }
