-- ===== src/Orchestrator/Service.antt =====
-- JobService and WorkerLoop of bridge/services/job_service.py; bridge/api.py and bridge/recovery.py
-- only pass calls on to them.
use suno_studio.Prelude.{ℕ, String, Bool, Option, none, some, [], ◌==◌, if◌then◌else◌}
use suno_studio.Exec.{Result, ok, err, Exec, pure, gets, ◌>>=◌, ◌>>◌}
use suno_studio.Models.{JobType, text, audio, ProviderMode, CreateJobRequest, Job}
use suno_studio.Models.Values.{end, present}
use suno_studio.Models.Status.{created}
use suno_studio.Storage.{create_job_idempotent}
use suno_studio.Orchestrator.Runtime.{World, Settings, Finish, done, on_db, dequeue}
use suno_studio.Orchestrator.{enqueue_job, process_one}

-- The job that `_create_job` builds; `i` is the new UUID and `now` the time.
unfoldable pub new_job :
    String → ℕ → JobType → CreateJobRequest → Option String → ProviderMode → Job
new_job i now job_type request asset_id mode = record {
  id = i;
  type = job_type;
  status = created;
  client_request_id = request.client_request_id;
  payload = record {
    prompt = request.prompt;
    metadata = request.metadata;
    asset_id = if present asset_id then asset_id else none;
  };
  provider_mode = mode;
  provider_metadata = end;
  remote_job_id = none;
  asset_id = asset_id;
  output_manifest_json = none;
  output_assets = [];
  progress = 0;
  last_error = none;
  attempts = 0;
  created_at = now;
  updated_at = now;
}

module _ {P : Type 0} (settings : Settings P) where
  -- JobService._create_job
  unfoldable pub create_job :
      String
      → JobType
      → CreateJobRequest
      → Option String
      → ProviderMode
      → Exec (World P) (Job × Bool)
  create_job i job_type request asset_id mode = do
    now ← gets (λ w. w.db.now)
    made ← on_db (create_job_idempotent (new_job i now job_type request asset_id mode))
    if made.1 then (do enqueue_job settings made.0.id; pure made) else pure made

  unfoldable pub create_text_job :
      String → CreateJobRequest → ProviderMode → Exec (World P) (Job × Bool)
  create_text_job i request mode = create_job i text request none mode

  unfoldable pub create_audio_job :
      String → CreateJobRequest → Option String → ProviderMode → Exec (World P) (Job × Bool)
  create_audio_job i request asset_id mode = create_job i audio request asset_id mode

  -- `except Exception: continue`
  abbrev pub swallow : Result Finish × World P → Finish × World P
  swallow (ok f, w) = (f, w)
  swallow (err e, w) = (done, w)

  abbrev pub serve : ℕ → Result (Option String) × World P → Finish × World P
  serve fuel (ok (some i), w) =
      if i == "" then (done, w) else swallow (process_one settings fuel i w)
  serve fuel (_, w) = (done, w)

  -- One turn of WorkerLoop._run.
  unfoldable pub worker_turn : ℕ → World P → Finish × World P
  worker_turn fuel w = serve fuel (dequeue w)
