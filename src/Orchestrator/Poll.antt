-- ===== src/Orchestrator/Poll.antt =====
-- JobOrchestrator._poll_and_download of bridge/services/job_service.py. The code writes `job.id`
-- throughout; it is `current.id`, since the row was found under it.
use Prim.Native.String
use suno_studio.Prelude.{
  ℕ, zero, suc, ◌+◌, String, true, false, not, ◌||◌, Option, none, some, List, [], ◌∷◌, ltb, ◌==◌,
  if◌then◌else◌,
}
use suno_studio.Exec.{Exec, pure, ◌>>=◌, ◌>>◌}
use suno_studio.Models.{Job}
use suno_studio.Models.Values.{str, arr, obj, Items, nil, cons, end, field, present}
use suno_studio.Models.Status.{
  cancelled, failed, polling_remote, downloading, complete, is_terminal,
}
use suno_studio.Adapters.{ProviderAdapter, ProviderOutput, ProviderPollResult}
use suno_studio.Storage.{
  defaults, get_job, set_job_status, update_job_runtime_fields, attach_job_artifacts,
}
use suno_studio.Orchestrator.Runtime.{
  World, Settings, Finish, done, out_of_fuel, on_db, on_provider, is_cancelled, clear_cancel, sleep,
  store_download,
}
use suno_studio.Orchestrator.Submit.{fail_job}

abbrev pub remote_of : Job → String
remote_of current = elim (current.remote_job_id) [ none ↦ "" | some r ↦ r ]

module _ {P : Type 0} where
  -- The branch of a job whose cancellation was requested.
  unfoldable pub stop_polling : Job → String → ProviderAdapter P → Exec (World P) Finish
  stop_polling current remote_id provider = do
    on_provider (provider.cancel_remote_job remote_id)
    on_db (
        set_job_status current.id cancelled (record defaults {
          reason = some "cancelled during polling";
          progress = some current.progress;
        }))
    clear_cancel current.id
    pure done

  abbrev finish : Exec (World P) Job → Exec (World P) Finish
  finish m = do m; pure done

  abbrev pub again : Option Job → (Job → Exec (World P) Finish) → Exec (World P) Finish
  again none next = pure done
  again (some current) next = next current

  unfoldable pub exhausted : String → Exec (World P) Finish
  exhausted i = do fail_job i "retry attempts exhausted"; pure done

module _ {P : Type 0} (settings : Settings P) where
  -- The loop over the outputs: the entries of `files`, and `output_assets`.
  unfoldable pub store_outputs : String → List ProviderOutput → Exec (World P) (Items × List String)
  store_outputs i [] = pure (nil, [])
  store_outputs i (output ∷ outputs) = do
    stored ← store_download settings i output.variant output.content output.extension
    rest ← store_outputs i outputs
    pure (
      cons (obj (field "variant" (str output.variant) (field "path" (str stored.0) end))) rest.0,
      stored.0 ∷ rest.1,
    )

  -- The branch of a job that is ready.
  unfoldable pub download : String → String → ProviderAdapter P → Exec (World P) Finish
  download i remote_id provider = do
    on_db (set_job_status i downloading (record defaults { progress = some 95 }))
    outputs ← on_provider (provider.download_outputs remote_id)
    files ← store_outputs i outputs
    on_db (
        attach_job_artifacts i (record {
          asset_id = none;
          output_manifest = some (obj (field "files" (arr files.0) end));
          output_assets = some files.1;
        }))
    on_db (set_job_status i complete (record defaults { progress = some 100 }))
    pure done

  -- What is done with an answer of the provider; `retry` and `next` are the two ways on in the loop.
  abbrev pub on_answer :
      Job
      → ProviderAdapter P
      → String
      → Exec (World P) Finish
      → (Job → Exec (World P) Finish)
      → ProviderPollResult
      → Exec (World P) Finish
  on_answer current provider remote_id retry next poll =
      if poll.state == "retryable_error"
      then (do
        on_db (
            set_job_status current.id polling_remote (record defaults {
              reason = some "retryable provider error";
              progress = some poll.progress;
              last_error = poll.retryable_error;
              attempts_increment = 1;
            }))
        sleep settings.retry_backoff
        retry)
      else if poll.state == "queued" || poll.state == "in_progress"
      then (do
        on_db (
            update_job_runtime_fields current.id
              (record { progress = some poll.progress; last_error = none; remote_job_id = none }))
        sleep settings.poll_interval
        refreshed ← on_db (get_job current.id)
        again refreshed next)
      else if poll.state == "cancelled"
      then finish (
          on_db (
            set_job_status current.id cancelled (record defaults {
              reason = some "provider cancelled";
              progress = some poll.progress;
            })))
      else if poll.state == "ready"
      then download current.id remote_id provider
      else finish (
          on_db (
            set_job_status current.id failed (record defaults {
              reason = some (String.◌++◌ "unexpected provider state: " poll.state);
              last_error = some poll.state;
            })))

  -- One round of the loop, once the test of `attempts` has passed.
  unfoldable pub poll_round :
      Job
      → ProviderAdapter P
      → Exec (World P) Finish
      → (Job → Exec (World P) Finish)
      → Exec (World P) Finish
  poll_round current provider retry next = do
    stop ← is_cancelled current.id
    if stop then stop_polling current (remote_of current) provider else (do
      poll ← on_provider (provider.poll_job (remote_of current))
      on_answer current provider (remote_of current) retry next poll)

  -- `while attempts < max_attempts`; a round takes one unit of fuel.
  unfoldable pub poll_loop : ℕ → ProviderAdapter P → ℕ → Job → Exec (World P) Finish
  poll_loop zero provider attempts current = pure out_of_fuel
  poll_loop (suc fuel) provider attempts current = elim (ltb attempts settings.max_attempts) [
    | false ↦ exhausted current.id
    | true ↦
        poll_round current provider (poll_loop fuel provider (attempts + 1) current)
          (poll_loop fuel provider attempts)
  ]

  abbrev pub poll_current : ℕ → ProviderAdapter P → Option Job → Exec (World P) Finish
  poll_current fuel provider none = pure done
  poll_current fuel provider (some current) =
      if is_terminal current.status || not (present current.remote_job_id)
      then pure done
      else poll_loop fuel provider current.attempts current

  unfoldable pub poll_and_download : ℕ → Job → ProviderAdapter P → Exec (World P) Finish
  poll_and_download fuel job provider = do
    current ← on_db (get_job job.id)
    poll_current fuel provider current
