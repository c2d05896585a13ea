-- ===== src/Http/Witnesses.antt =====
-- The theorems on the manual completion and on text jobs of both providers, at a concrete job.
use suno_studio.Prelude.{◌≡◌, false, arith, refl, none, some, [], ◌∷◌, map}
use suno_studio.Exec.{ok}
use suno_studio.Models.{Job, text, mock_suno, manual_suno}
use suno_studio.Models.Values.{Json, pos, str, arr, obj, nil, cons, Fields, field, end}
use suno_studio.Models.Status.{JobStatus, awaiting_manual_provider_result, complete}
use suno_studio.Storage.Tables.{empty, find_job}
use suno_studio.Orchestrator.Runtime.{World, Settings}
use suno_studio.Adapters.Mock.{
  MockJob, States, mock_adapter, submit_text_job, initial_state, put_state, find_state,
}
use suno_studio.Orchestrator.MockJobs.{outputs, mock-Ready}
use suno_studio.Adapters.Registry.{Adapters, app_providers}
use suno_studio.Http.ManualJobs.{IsDelivered, post_jobs_text-IsDelivered}
use suno_studio.Http.TextJobs.{IsServed, post_jobs_text-IsServed}
use suno_studio.Http.{Paths, parse_beta_provider_mode}
use suno_studio.Http.Responses.{job_to_response}
use suno_studio.Http.Jobs.{TextJobCreateRequest}
use suno_studio.Orchestrator.Service.{new_job}
use suno_studio.Storage.Tables.{violates}
use suno_studio.Storage.Rows.{provider_mode}
use suno_studio.Http.Manual.{ManualForm, ImportedFile, all_files, requested, post_manual_complete}
use suno_studio.Http.Completes.{stored_files, post_manual_complete-completes}

abbrev settings : Settings (Unit {0})
settings = record {
  providers = λ mode. none;
  max_attempts = 3;
  poll_interval = 50;
  retry_backoff = 50;
  download_root = "dl";
  sha256 = λ c. "0123456789abcdef0123456789abcdef";
}

abbrev paths : Paths
paths = record { suffix = λ s. ".wav"; name = λ s. s }

abbrev deliverables : Json
deliverables = arr (cons (str "mix") nil)

abbrev metadata : Fields
metadata =
    field "handoff"
      (obj (field "handoff" (obj (field "requested_deliverables" deliverables end)) end)) end

abbrev job : JobStatus → Job
job status = record {
  id = "j1";
  type = text;
  status = status;
  client_request_id = "r1";
  payload = record { prompt = "a song"; metadata = obj end; asset_id = none };
  provider_mode = manual_suno;
  provider_metadata = metadata;
  remote_job_id = some "m1";
  asset_id = none;
  output_manifest_json = none;
  output_assets = [];
  progress = 50;
  last_error = none;
  attempts = 1;
  created_at = 5;
  updated_at = 5;
}

abbrev world : JobStatus → World (Unit {0})
world status = record {
  db = record (empty 1000) { jobs = job status ∷ [] };
  queue = [];
  cancelled = [];
  files = [];
  provider_state = tt;
}

abbrev form : ManualForm
form = record {
  mix = record { filename = some "mix.wav"; content = 1 ∷ 2 ∷ [] } ∷ [];
  stems = [];
  tempo_locked_stems = [];
  midi = [];
}

post_manual_complete-completes_example :
    (v : World (Unit {0})) × (b : Job) × (post_manual_complete settings paths "j1" form
        (world awaiting_manual_provider_result)
      ≡ (ok (job_to_response b), v))
    × (find_job "j1" v.db.jobs ≡ some b)
    × (b.status ≡ complete)
    × (b.progress ≡ 100)
    × (b.output_assets
        ≡ map (λ (f : ImportedFile). f.path) (stored_files settings paths "j1" (all_files form)))
post_manual_complete-completes_example =
    post_manual_complete-completes settings paths "j1" form (world awaiting_manual_provider_result)
      {c = job awaiting_manual_provider_result} {asked = deliverables} (unfold find_job in refl)
      refl refl refl (unfold requested in refl)

abbrev mock_settings : Settings States
mock_settings = record {
  providers = λ mode. some (mock_adapter (λ s. []));
  max_attempts = 3;
  poll_interval = 50;
  retry_backoff = 50;
  download_root = "dl";
  sha256 = λ c. "0123456789abcdef0123456789abcdef";
}

abbrev idle_world : World States
idle_world = record { db = empty 1000; queue = []; cancelled = []; files = []; provider_state = [] }

abbrev text_request : TextJobCreateRequest
text_request = record {
  client_request_id = "r1";
  prompt = "a song";
  metadata = end;
  provider_mode = "mock_suno";
}

abbrev mock_state : MockJob
mock_state = record {
  prompt = "a song";
  source = none;
  poll_count = 0;
  poll_steps = pos 3;
  progress = 0;
  fail_once = false;
  failed_once = false;
  cancelled = false;
}

post_jobs_text-IsServed_example :
    IsServed mock_settings "j1" text_request mock_suno idle_world 4
      (outputs (λ s. []) "mock-text-j1" "a song")
post_jobs_text-IsServed_example =
    post_jobs_text-IsServed mock_settings "j1" text_request mock_suno idle_world
      (mock_adapter (λ s. [])) (outputs (λ s. []) "mock-text-j1" "a song") 4 3 {r = "mock-text-j1"}
      {q = ("mock-text-j1", mock_state) ∷ []} (omega arith) refl
      (unfold parse_beta_provider_mode provider_mode in refl) refl refl refl
      (unfold new_job violates in refl) refl refl
      (unfold submit_text_job initial_state put_state in refl) refl
      (mock-Ready mock_settings "j1" (λ s. []) "mock-text-j1" "a song" 3 (omega arith) 3
        (("mock-text-j1", mock_state) ∷ []) mock_state
        (record { cancelled = refl; fail_once = refl; poll_steps = refl })
        (unfold find_state in refl) refl refl)

abbrev app_settings : Settings Adapters
app_settings = record {
  providers = app_providers (λ s. []) "workspaces" (λ p. false);
  max_attempts = 3;
  poll_interval = 50;
  retry_backoff = 50;
  download_root = "dl";
  sha256 = λ c. "0123456789abcdef0123456789abcdef";
}

abbrev app_world : World Adapters
app_world = record {
  db = empty 1000;
  queue = [];
  cancelled = [];
  files = [];
  provider_state = record { mock = []; manual = [] };
}

abbrev manual_request : TextJobCreateRequest
manual_request = record {
  client_request_id = "r1";
  prompt = "a song";
  metadata = end;
  provider_mode = "manual_suno";
}

post_jobs_text-IsDelivered_example :
    IsDelivered app_settings "workspaces" (λ p. false) "j1" paths manual_request form app_world 1
post_jobs_text-IsDelivered_example =
    post_jobs_text-IsDelivered app_settings "workspaces" (λ p. false) "j1" paths manual_request form
      app_world 1 (unfold parse_beta_provider_mode provider_mode in refl) refl refl
      (unfold new_job violates in refl) refl refl refl
