-- ===== src/Orchestrator/Witnesses.antt =====
-- The theorems on the orchestrator, at concrete providers and calls.
use suno_studio.Prelude.{
  false, ℕ, zero, suc, ◌+◌, ◌-◌, ◌≡◌, refl, true, none, some, [], ◌∷◌, arith, inr,
}
use suno_studio.Exec.{ok, pure}
use suno_studio.Models.{Job, text, mock_suno}
use suno_studio.Models.Values.{end, obj}
use suno_studio.Models.Status.{created, polling_remote}
use suno_studio.Adapters.{ProviderAdapter, ProviderOutput, ProviderPollResult}
use suno_studio.Adapters.Registry.{Adapters, app_providers}
use suno_studio.Storage.Tables.{empty, find_job}
use suno_studio.Orchestrator.Runtime.{World, Settings, done}
use suno_studio.Orchestrator.Poll.{poll_loop}
use suno_studio.Orchestrator.Completes.{IsCompleted, at_once, not_yet, poll_loop-completes}
use suno_studio.Orchestrator.GivesUp.{IsGivenUp, poll_loop-gives_up}
use suno_studio.Models.Values.{pos}
use suno_studio.Adapters.Mock.{MockJob, States, find_state, mock_adapter}
use suno_studio.Orchestrator.{process_one}
use suno_studio.Orchestrator.Cancels.{IsStopped, process_one-cancels, process_one-stuck}
use suno_studio.Orchestrator.MockJobs.{outputs, mock_job-completes}

-- A hash of fixed length that computes.
abbrev settings : Settings Adapters
settings = record {
  providers = app_providers (λ s. []) "ws" (λ p. true);
  max_attempts = 3;
  poll_interval = 50;
  retry_backoff = 50;
  download_root = "dl";
  sha256 = λ c. "0123456789abcdef0123456789abcdef";
}

abbrev start : World Adapters
start = record {
  db = empty 1000;
  queue = [];
  cancelled = [];
  files = [];
  provider_state = record { mock = []; manual = [] };
}

abbrev polled : Job
polled = record {
  id = "j1";
  type = text;
  status = polling_remote;
  client_request_id = "r1";
  payload = record { prompt = "a song"; metadata = obj end; asset_id = none };
  provider_mode = mock_suno;
  provider_metadata = end;
  remote_job_id = some "m1";
  asset_id = none;
  output_manifest_json = none;
  output_assets = [];
  progress = 0;
  last_error = none;
  attempts = 1;
  created_at = 5;
  updated_at = 5;
}

abbrev polling_world : {P : Type 0} → P → World P
polling_world p = record {
  db = record (empty 1000) { jobs = polled ∷ [] };
  queue = [];
  cancelled = [];
  files = [];
  provider_state = p;
}

-- A provider that answers "in_progress" as often as its state says, and then has an output.
abbrev output : ProviderOutput
output = record { variant = "main"; extension = "wav"; content = 1 ∷ [] }

abbrev countdown : ℕ → ProviderPollResult
countdown zero = record { state = "ready"; progress = 100; retryable_error = none }
countdown (suc n) = record { state = "in_progress"; progress = 10; retryable_error = none }

abbrev slow : ProviderAdapter ℕ
slow = record {
  submit_text_job = λ i p m. pure "m1";
  submit_audio_job = λ i p m s. pure "m1";
  poll_job = λ r n. (ok (countdown n), n - 1);
  download_outputs = λ r n. (ok (output ∷ []), n);
  cancel_remote_job = λ r. pure true;
  get_handoff = none;
}

abbrev slow_settings : Settings ℕ
slow_settings = record {
  providers = λ m. some slow;
  max_attempts = 3;
  poll_interval = 50;
  retry_backoff = 50;
  download_root = "dl";
  sha256 = λ c. "0123456789abcdef0123456789abcdef";
}

poll_loop-completes_example :
    (v : World ℕ) × (poll_loop slow_settings 4 slow 1 polled (polling_world 2) ≡ (ok done, v))
    × IsCompleted slow_settings "j1" (output ∷ []) v
poll_loop-completes_example =
    poll_loop-completes slow_settings "j1" slow "m1" (output ∷ []) 4 2 1 (polling_world 2) polled
      (omega arith) refl (unfold find_job in refl) refl refl refl
      (not_yet refl (inr refl) (not_yet refl (inr refl) (at_once refl refl refl)))

-- A provider that is never reached.
abbrev broken : ProviderAdapter ℕ
broken = record slow {
  poll_job = λ r n. (
    ok (record { state = "retryable_error"; progress = 0; retryable_error = some "timeout" }),
    n + 1,
  );
}

poll_loop-gives_up_example :
    (v : World ℕ) × (poll_loop slow_settings 3 broken 1 polled (polling_world 0) ≡ (ok done, v))
    × IsGivenUp slow_settings "j1" broken "m1" 3 v
poll_loop-gives_up_example =
    poll_loop-gives_up slow_settings "j1" broken "m1" 3 1 (polling_world 0) polled {d = polled}
      (λ p. (_, _, refl, refl)) (omega arith) refl refl (unfold find_job in refl) refl refl

abbrev stopped_world : World ℕ
stopped_world = record (polling_world 2) { cancelled = "j1" ∷ [] }

process_one-cancels_example :
    (v : World ℕ) × (process_one slow_settings 0 "j1" stopped_world ≡ (ok done, v))
    × IsStopped slow_settings 0 stopped_world "j1" polled v
process_one-cancels_example =
    process_one-cancels slow_settings 0 "j1" stopped_world {a = polled} (unfold find_job in refl)
      refl refl

abbrev new_world : World ℕ
new_world = record (polling_world 2) {
  db = record (empty 1000) { jobs = record polled { status = created; remote_job_id = none } ∷ [] };
}

process_one-stuck_example : process_one slow_settings 5 "j1" new_world ≡ (ok done, new_world)
process_one-stuck_example =
    process_one-stuck slow_settings 5 "j1" new_world
      {a = record polled { status = created; remote_job_id = none }} slow (unfold find_job in refl)
      refl refl refl refl refl

abbrev mock_state : MockJob
mock_state = record {
  prompt = "a song";
  source = none;
  poll_count = 0;
  poll_steps = pos 3;
  progress = 0;
  fail_once = false;
  failed_once = false;
  cancelled = false;
}

abbrev mock_settings : Settings States
mock_settings = record {
  providers = λ m. some (mock_adapter (λ s. []));
  max_attempts = 3;
  poll_interval = 50;
  retry_backoff = 50;
  download_root = "dl";
  sha256 = λ c. "0123456789abcdef0123456789abcdef";
}

mock_job-completes_example :
    (v : World States) × (poll_loop mock_settings 4
        (mock_adapter (λ s. []))
        1
        polled
        (polling_world (("m1", mock_state) ∷ []))
      ≡ (ok done, v))
    × IsCompleted mock_settings "j1" (outputs (λ s. []) "m1" "a song") v
mock_job-completes_example =
    mock_job-completes mock_settings "j1" (λ s. []) "m1" "a song" 3 (omega arith) 4 1
      (polling_world (("m1", mock_state) ∷ [])) polled mock_state (omega arith) refl
      (unfold find_job in refl) refl refl refl (unfold find_state in refl)
      (record { cancelled = refl; fail_once = refl; poll_steps = refl }) refl refl
