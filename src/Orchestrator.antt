-- ===== src/Orchestrator.antt =====
-- bridge/services/job_service.py: JobOrchestrator, with the queue and the cancellation registry, and
-- bridge/downloader.py. The actions run on `World`. Each storage call commits by itself,
-- so an action that raises keeps what it has committed.
pub mod Runtime
pub mod Submit
pub mod Poll
pub mod Manual
pub mod Service
pub mod Traces
pub mod Steps
pub mod Rounds
pub mod Completes
pub mod GivesUp
pub mod Cancels
pub mod MockJobs
pub mod TextJobs
pub mod Turns
pub mod ManualJobs
pub mod Witnesses
use suno_studio.Prelude.{
  ℕ, String, Bool, true, false, not, Option, none, some, List, [], ◌∷◌, ◌++◌, if◌then◌else◌,
}
use suno_studio.Exec.{Exn, key_error, Exec, pure, raise, gets, modify, ◌>>=◌, ◌>>◌}
use suno_studio.Models.{Job, ProviderMode, mock_suno, manual_suno}
use suno_studio.Models.Values.{present}
use suno_studio.Models.Status.{
  JobStatus, created, queued_local, cancelling, cancelled, is_terminal, same_status,
}
use suno_studio.Adapters.{ProviderAdapter}
use suno_studio.Storage.{StatusChange, defaults, get_job, set_job_status, list_in_flight_jobs}
use Runtime.{
  World, Settings, Finish, done, on_db, on_provider, enqueue, request_cancel, clear_cancel,
  is_cancelled, provider_for,
}
use Submit.{submit_remote}
use Poll.{poll_and_download}
use Manual.{prepare_manual}

module _ {P : Type 0} (settings : Settings P) where
  abbrev enqueue_found : String → Option Job → Exec (World P) (Unit {0})
  enqueue_found i none = pure tt
  enqueue_found i (some job) = if is_terminal job.status then pure tt else do
    (if same_status job.status created
        then (do
          on_db (set_job_status i queued_local (record defaults { progress = some 0 }))
          pure tt)
        else pure tt)
    enqueue i

  pub enqueue_job : String → Exec (World P) (Unit {0})
  enqueue_job i = do found ← on_db (get_job i); enqueue_found i found

  abbrev is_mock : ProviderMode → Bool
  is_mock mock_suno = true
  is_mock _ = false

  -- The loop of `recover_inflight_jobs`: the jobs of the mock provider are put on the queue.
  recover_each : List Job → Exec (World P) (List String)
  recover_each [] = pure []
  recover_each (job ∷ jobs) =
      let rest = recover_each jobs in
      if is_mock job.provider_mode
      then (do enqueue job.id; recovered ← rest; pure (job.id ∷ recovered))
      else rest

  pub recover_inflight_jobs : Exec (World P) (List String)
  unfolding recover_each
  recover_inflight_jobs = do jobs ← on_db list_in_flight_jobs; recover_each jobs

  abbrev cancel_remote : String → Option String → ProviderAdapter P → Exec (World P) Job
  cancel_remote i none provider = on_db (
      set_job_status i cancelled
        (record defaults { reason = some "cancelled before remote submit" }))
  cancel_remote i (some r) provider = do
    on_provider (provider.cancel_remote_job r)
    on_db (set_job_status i cancelling (record defaults { reason = some "cancel requested" }))

  -- `if job.remote_job_id`: an empty id counts as none.
  abbrev nonempty : Option String → Option String
  nonempty r = if present r then r else none

  abbrev cancel_found : String → Option Job → Exec (World P) Job
  cancel_found i none = raise key_error
  cancel_found i (some job) = if is_terminal job.status then pure job else do
    request_cancel i
    provider ← provider_for settings job
    cancel_remote i (nonempty job.remote_job_id) provider

  pub cancel_job : String → Exec (World P) Job
  cancel_job i = do found ← on_db (get_job i); cancel_found i found

  abbrev poll_found : ℕ → Option Job → ProviderAdapter P → Exec (World P) Finish
  poll_found fuel none provider = pure done
  poll_found fuel (some job) provider = poll_and_download settings fuel job provider

  abbrev pub is_manual : ProviderMode → Bool
  is_manual manual_suno = true
  is_manual _ = false

  -- Where the job was not cancelled before it is processed.
  abbrev run_job : ℕ → Job → Exec (World P) Finish
  run_job fuel job = do
    provider ← provider_for settings job
    if is_manual job.provider_mode
        then (do prepare_manual job provider; pure done)
        else if present job.remote_job_id
        then poll_and_download settings fuel job provider
        else (do
          submit_remote job provider
          again ← on_db (get_job job.id)
          poll_found fuel again provider)

  abbrev cancel_first : Job → Exec (World P) Finish
  cancel_first job = do
    on_db (
        set_job_status job.id cancelled (record defaults {
          reason = some "cancelled before processing";
          progress = some job.progress;
        }))
    clear_cancel job.id
    pure done

  abbrev process_found : ℕ → Option Job → Exec (World P) Finish
  process_found fuel none = pure done
  process_found fuel (some job) =
      if is_terminal job.status
      then pure done
      else do stop ← is_cancelled job.id; if stop then cancel_first job else run_job fuel job

  -- `fuel` bounds the rounds of the poll loop; the result says whether they were enough.
  pub process_one : ℕ → String → Exec (World P) Finish
  process_one fuel i = do found ← on_db (get_job i); process_found fuel found
