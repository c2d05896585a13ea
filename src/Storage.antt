-- ===== src/Storage.antt =====
-- storage/durable_storage.py: DurableStorage. Each method is an action on the tables, whose writes are
-- rolled back when it raises. The methods run one after another, except in Storage/Overlap.antt.
pub mod Tables
pub mod Find
pub mod Ops
pub mod Updates
pub mod Steps
pub mod Lifecycle
pub mod Unique
pub mod Requests
pub mod Refines
pub mod Downloads
pub mod History
pub mod Rows
pub mod Queries
pub mod Overlap
pub mod Witnesses
use suno_studio.Prelude.{
  ℕ, ◌+◌, String, Bool, true, false, ◌||◌, Option, none, some, List, [], ◌∷◌, ◌++◌, any, select,
  get_or, coalesce, ◌==◌, if◌then◌else◌,
}
use suno_studio.Exec.{
  Exn, key_error, value_error, type_error, integrity_error, Result, ok, err, Exec, pure, raise,
  gets, or_raise, transaction, modify, require, ◌>>=◌, ◌>>◌,
}
use suno_studio.Models.{JobType, Job, JobTransition}
use suno_studio.Models.Values.{Json, Fields}
use suno_studio.Models.Status.{JobStatus, may_become, is_in, in_flight_states}
use Tables.{
  Db, DownloadedAsset, ImportedAsset, find_job, find_request, update_where, violates, stored,
  find_imported, upsert_imported, is_download,
}

insert_job : Job → Exec Db (Unit {0})
insert_job job db =
    if violates job db.jobs
    then (err integrity_error, db)
    else (ok tt, record db { jobs = db.jobs ++ stored job ∷ [] })

-- `try: m except sqlite3.IntegrityError: handler`
abbrev except_integrity {ℓ} : {S A : Type ℓ} → Result A × S → Exec S A → Result A × S
except_integrity (err integrity_error, s) handler = handler s
except_integrity (r, s) handler = (r, s)

pub create_job_idempotent : Job → Exec Db (Job × Bool)
unfolding insert_job ◌>>=◌
create_job_idempotent job = transaction λ db.
    except_integrity ((do insert_job job; pure (job, true)) db) do
      found ← gets (λ s. find_request job.type job.client_request_id s.jobs)
      existing ← or_raise integrity_error found
      pure (existing, false)

unfoldable get_job_by_request_id : JobType → String → Exec Db (Option Job)
unfolding ◌>>=◌
get_job_by_request_id t r = gets (λ s. find_request t r s.jobs)

unfoldable pub get_job : String → Exec Db (Option Job)
unfolding ◌>>=◌
get_job i = gets (λ s. find_job i s.jobs)

abbrev manifest_of : Option ImportedAsset → Option Fields
manifest_of none = none
manifest_of (some a) = some a.manifest

unfoldable pub get_imported_asset : String → Exec Db (Option Fields)
unfolding ◌>>=◌
get_imported_asset i = gets (λ s. manifest_of (find_imported i s.imported_assets))

-- The keyword arguments of `set_job_status`.
pub record StatusChange : Type 0 where
  pub reason : Option String
  pub remote_job_id : Option String
  pub progress : Option ℕ
  pub last_error : Option String
  pub attempts_increment : ℕ

abbrev pub defaults : StatusChange
defaults = record {
  reason = none;
  remote_job_id = none;
  progress = none;
  last_error = none;
  attempts_increment = 0;
}

-- UPDATE jobs SET status = ?, … of `set_job_status`, which read `current`; `now` is the time of the
-- update. `progress` and `last_error` come from the row that was read, the rest from the one there.
abbrev pub written : Job → JobStatus → StatusChange → ℕ → Job → Job
written current to_status change now job = record job {
  status = to_status;
  remote_job_id = coalesce change.remote_job_id job.remote_job_id;
  progress = get_or change.progress current.progress;
  last_error = coalesce change.last_error current.last_error;
  attempts = job.attempts + change.attempts_increment;
  updated_at = now;
}

-- The same where the row is still the one that was read.
abbrev pub with_status : JobStatus → StatusChange → ℕ → Job → Job
with_status to_status change now job = written job to_status change now job

abbrev update_job : String → (Job → Job) → Exec Db (Unit {0})
update_job i f = modify λ s. record s { jobs = update_where i f s.jobs }

abbrev refreshed : String → Exec Db Job
refreshed i = do row ← gets (λ s. find_job i s.jobs); or_raise type_error row

-- The SELECT and the check of `set_job_status`. No transaction is open yet: sqlite3 opens one for
-- the UPDATE.
unfoldable check_status : String → JobStatus → Exec Db Job
unfolding ◌>>=◌
check_status i to_status = do
  row ← gets (λ s. find_job i s.jobs)
  current ← or_raise key_error row
  require (may_become current.status to_status) value_error
  pure current

-- The rest of it, from the row that was read: the UPDATE, the INSERT, and the SELECT.
unfoldable write_status : String → JobStatus → StatusChange → Job → Exec Db Job
unfolding ◌>>=◌
write_status i to_status change current = transaction do
  now ← gets (λ s. s.now)
  update_job i (written current to_status change now)
  modify λ s. record s {
    job_transitions =
        s.job_transitions
        ++ record {
          job_id = i;
          from_status = current.status;
          to_status = to_status;
          occurred_at = now;
          reason = change.reason;
        }
          ∷ [];
  }
  refreshed i

pub set_job_status : String → JobStatus → StatusChange → Exec Db Job
unfolding check_status write_status ◌>>=◌
set_job_status i to_status change = do
  current ← check_status i to_status
  write_status i to_status change current

-- The keyword arguments of `update_job_runtime_fields`.
pub record RuntimeFields : Type 0 where
  pub progress : Option ℕ
  pub last_error : Option String
  pub remote_job_id : Option String

-- The UPDATE, after the row `current` was read.
abbrev pub runtime_written : RuntimeFields → Job → ℕ → Job → Job
runtime_written r current now job = record job {
  progress = get_or r.progress current.progress;
  last_error = coalesce r.last_error current.last_error;
  remote_job_id = coalesce r.remote_job_id job.remote_job_id;
  updated_at = now;
}

abbrev pub with_runtime : RuntimeFields → ℕ → Job → Job
with_runtime r now job = runtime_written r job now job

abbrev pub with_metadata : Fields → ℕ → Job → Job
with_metadata m now job = record job { provider_metadata = m; updated_at = now }

-- The keyword arguments of `attach_job_artifacts`.
pub record Artifacts : Type 0 where
  pub asset_id : Option String
  pub output_manifest : Option Json
  pub output_assets : Option (List String)

abbrev pub with_artifacts : Artifacts → ℕ → Job → Job
with_artifacts a now job = record job {
  asset_id = coalesce a.asset_id job.asset_id;
  output_manifest_json = coalesce a.output_manifest job.output_manifest_json;
  output_assets = get_or a.output_assets job.output_assets;
  updated_at = now;
}

-- What the three methods below share: the row must be there, outside of the transaction, is updated
-- and is read back.
unfoldable read_known : String → Exec Db Job
unfolding ◌>>=◌
read_known i = do row ← gets (λ s. find_job i s.jobs); or_raise key_error row

unfoldable write_known : String → (ℕ → Job → Job) → Exec Db Job
unfolding ◌>>=◌
write_known i f = transaction do now ← gets (λ s. s.now); update_job i (f now); refreshed i

abbrev update_known : String → (Job → ℕ → Job → Job) → Exec Db Job
update_known i f = do current ← read_known i; write_known i (f current)

unfoldable pub update_job_runtime_fields : String → RuntimeFields → Exec Db Job
unfolding read_known write_known ◌>>=◌
update_job_runtime_fields i r = update_known i (runtime_written r)

unfoldable pub update_job_provider_metadata : String → Fields → Exec Db Job
unfolding read_known write_known ◌>>=◌
update_job_provider_metadata i m = update_known i (λ current. with_metadata m)

unfoldable pub attach_job_artifacts : String → Artifacts → Exec Db Job
unfolding read_known write_known ◌>>=◌
attach_job_artifacts i a = update_known i (λ current. with_artifacts a)

unfoldable pub save_imported_asset : String → Fields → Exec Db (Unit {0})
unfolding ◌>>=◌
save_imported_asset i manifest = transaction do
  now ← gets (λ s. s.now)
  modify λ s. record s {
    imported_assets =
        upsert_imported (record { id = i; manifest = manifest; created_at = now })
          s.imported_assets;
  }

unfoldable pub list_in_flight_jobs : Exec Db (List Job)
unfolding ◌>>=◌
list_in_flight_jobs = gets λ s. select (λ j. is_in j.status in_flight_states) s.jobs

unfoldable pub list_jobs_by_ids : List String → Exec Db (List Job)
unfolding ◌>>=◌
list_jobs_by_ids [] = pure []
list_jobs_by_ids (i ∷ is) = gets λ s. select (λ j. any (λ k. j.id == k) (i ∷ is)) s.jobs

insert_download : DownloadedAsset → Exec Db (Unit {0})
insert_download d db =
    if any (is_download d.job_id d.variant d.checksum) db.downloaded_assets
    then (err integrity_error, db)
    else (ok tt, record db { downloaded_assets = db.downloaded_assets ++ d ∷ [] })

pub record_downloaded_asset : String → String → String → String → Exec Db Bool
unfolding insert_download ◌>>=◌
record_downloaded_asset i variant checksum local_path = transaction λ db.
    except_integrity
      ((do
        now ← gets (λ s. s.now)
        insert_download (record {
          job_id = i;
          variant = variant;
          checksum = checksum;
          local_path = local_path;
          created_at = now;
        })
        pure true)
        db)
      (pure false)
