-- ===== src/Orchestrator/Traces.antt =====
-- The storage transactions of the orchestrator's methods (bridge/services/job_service.py).
pub mod Rules
mod Submit
mod Manual
pub mod Poll
pub mod Turns
use suno_studio.Prelude.{ℕ, String, refl, Option, none, some, List, [], ◌∷◌, if◌then◌else◌}
use suno_studio.Models.{Job, JobType, CreateJobRequest, ProviderMode}
use suno_studio.Models.Values.{present}
use suno_studio.Models.Status.{is_terminal}
use suno_studio.Adapters.{ProviderAdapter}
use suno_studio.Orchestrator.Runtime.{Settings}
use suno_studio.Orchestrator.{
  enqueue_found, enqueue_job, is_mock, recover_each, recover_inflight_jobs, cancel_remote, nonempty,
  cancel_found, cancel_job, poll_found, is_manual, run_job, process_found, process_one,
}
use suno_studio.Orchestrator.Service.{create_job, new_job}
use Rules.{
  Transacts, Transacts-bind, Transacts-if, Transacts-gets, enqueue-Transacts,
  create_job_idempotent-Transacts, get_job-Transacts, is_cancelled-Transacts,
  provider_for-Transacts, list_in_flight_jobs-Transacts, request_cancel-Transacts, rules,
}
use Submit.{submit_remote-Transacts}
use Manual.{prepare_manual-Transacts}
use Poll.{poll_and_download-Transacts}

module _ {P : Type 0} (settings : Settings P) where
  enqueue_found-Transacts : (i : String) (o : Option Job) → Transacts (enqueue_found settings i o)
  enqueue_found-Transacts i none = search rules
  enqueue_found-Transacts i (some job) = search rules depth 8

  enqueue_job-Transacts : (i : String) → Transacts (enqueue_job settings i)
  unfolding enqueue_job
  enqueue_job-Transacts i = Transacts-bind _ _ (get_job-Transacts i) (enqueue_found-Transacts i)

  cancel_remote-Transacts :
      (i : String) (o : Option String) (provider : ProviderAdapter P)
      → Transacts (cancel_remote settings i o provider)
  cancel_remote-Transacts i none provider = search rules
  cancel_remote-Transacts i (some r) provider = search rules

  cancel_found-Transacts : (i : String) (o : Option Job) → Transacts (cancel_found settings i o)
  cancel_found-Transacts i none = search rules
  cancel_found-Transacts i (some job) = Transacts-if (is_terminal job.status) _ _ (search rules) (
      Transacts-bind _ _ (request_cancel-Transacts i) (λ _.
        Transacts-bind _ _ (provider_for-Transacts settings job)
          (cancel_remote-Transacts i (nonempty settings job.remote_job_id))))

  pub cancel_job-Transacts : (i : String) → Transacts (cancel_job settings i)
  unfolding cancel_job
  cancel_job-Transacts i = Transacts-bind _ _ (get_job-Transacts i) (cancel_found-Transacts i)

  poll_found-Transacts :
      (fuel : ℕ) (o : Option Job) (provider : ProviderAdapter P)
      → Transacts (poll_found settings fuel o provider)
  poll_found-Transacts fuel none provider = search rules
  poll_found-Transacts fuel (some job) provider =
      poll_and_download-Transacts settings fuel job provider

  run_job-Transacts : (fuel : ℕ) (job : Job) → Transacts (run_job settings fuel job)
  run_job-Transacts fuel job = Transacts-bind _ _ (provider_for-Transacts settings job) (λ provider.
      Transacts-if (is_manual settings job.provider_mode) _ _
        (Transacts-bind _ _ (prepare_manual-Transacts provider job) (λ _. search rules))
        (Transacts-if (present job.remote_job_id) _ _
          (poll_and_download-Transacts settings fuel job provider)
          (Transacts-bind _ _ (submit_remote-Transacts job provider) (λ _.
            Transacts-bind _ _ (get_job-Transacts job.id)
              (λ o. poll_found-Transacts fuel o provider)))))

  process_found-Transacts : (fuel : ℕ) (o : Option Job) → Transacts (process_found settings fuel o)
  process_found-Transacts fuel none = search rules
  process_found-Transacts fuel (some job) =
      Transacts-if (is_terminal job.status) _ _ (search rules) (
        Transacts-bind _ _ (is_cancelled-Transacts job.id)
          (λ stop. Transacts-if stop _ _ (search rules) (run_job-Transacts fuel job)))

  process_one-Transacts : (fuel : ℕ) (i : String) → Transacts (process_one settings fuel i)
  unfolding process_one
  process_one-Transacts fuel i =
      Transacts-bind _ _ (get_job-Transacts i) (process_found-Transacts fuel)

  pub create_job-Transacts :
      (i : String) (t : JobType) (request : CreateJobRequest) (a : Option String) (m : ProviderMode)
      → Transacts (create_job settings i t request a m)
  unfolding create_job new_job
  create_job-Transacts i t request a m = Transacts-bind _ _ (Transacts-gets (λ w. w.db.now)) (λ now.
      Transacts-bind _ _ (create_job_idempotent-Transacts (new_job i now t request a m) refl)
        (λ made.
          Transacts-if made.1 _ _
            (Transacts-bind _ _ (enqueue_job-Transacts made.0.id) (λ _. search rules))
            (search rules)))

  recover_each-Transacts : (jobs : List Job) → Transacts (recover_each settings jobs)
  unfolding recover_each
  recover_each-Transacts [] = search rules
  recover_each-Transacts (job ∷ jobs) =
      Transacts-if (is_mock settings job.provider_mode) _ _
        (Transacts-bind _ _ (enqueue-Transacts job.id)
          (λ _. Transacts-bind _ _ (recover_each-Transacts jobs) (λ recovered. search rules)))
        (recover_each-Transacts jobs)

  pub recover_inflight_jobs-Transacts : Transacts (recover_inflight_jobs settings)
  unfolding recover_inflight_jobs
  recover_inflight_jobs-Transacts =
      Transacts-bind _ _ list_in_flight_jobs-Transacts recover_each-Transacts
