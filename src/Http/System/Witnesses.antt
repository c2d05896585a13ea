-- ===== src/Http/System/Witnesses.antt =====
-- The theorems on the whole bridge, at a concrete sequence of requests.
use suno_studio.Prelude.{ℕ, String, ◌≡◌, refl, false, none, some, List, [], ◌∷◌}
use suno_studio.Exec.{type_error, err}
use suno_studio.Models.{Job, text, mock_suno}
use suno_studio.Models.Status.{polling_remote}
use suno_studio.Models.Values.{int, pos, end, obj}
use suno_studio.Adapters.Registry.{Adapters, app_providers}
use suno_studio.Storage.Tables.{empty, find_job}
use suno_studio.Storage.Lifecycle.{Evolves}
use suno_studio.Storage.Refines.{view, ◌⟿◌}
use suno_studio.Storage.Unique.{AreUnique}
use suno_studio.Storage.History.{IsHistory, empty-IsHistory}
use suno_studio.Http.Gate.{HttpRequest}
use suno_studio.Http.Application.{App}
use suno_studio.Http.System.{
  Bridge, Event, request, start, turn, text_job, cancel, job_status, run_events,
  run_events-integrity, run_events-Evolves, run_events-refines,
}

abbrev app : App ℕ Adapters
app = record {
  settings = record {
    providers = app_providers (λ s. []) "workspaces" (λ p. false);
    max_attempts = 3;
    poll_interval = 50;
    retry_backoff = 50;
    download_root = "dl";
    sha256 = λ c. "0123456789abcdef0123456789abcdef";
  };
  imports = record {
    assets_root = "assets";
    sha256 = λ c. "0123456789abcdef0123456789abcdef0123456789abcdef0123456789abcdef";
    suffix_lower = λ p. ".wav";
    wave_open = λ c. err type_error;
    dumps_indented = λ m. 123 ∷ [];
    floats = record {
      literal = λ s. 1;
      divide = λ a b. a;
      log10 = λ x. x;
      times = λ x y. y;
      minus = λ x y. x;
      max = λ x y. x;
      number = λ x. int (pos x);
    };
  };
  paths = record { suffix = λ s. ".wav"; name = λ s. s };
  temporary = λ s. "tmp";
  parse_uuid = λ s. some s;
  loads = λ s. some (obj end);
  crypto = record { sha256_hex = λ b. "ab"; hmac_hex = λ k t. "cd"; decimal = λ z. "7" };
  shared_secret = 1 ∷ 2 ∷ [];
  int_error = λ s. "invalid";
  require_hmac = false;
}

-- Every header that the middleware looks at has the text 1.2.
abbrev to : String → HttpRequest
to path = record { path = path; header = λ name. some "1.2"; body = [] }

abbrev events : List Event
events =
    start
    ∷ request (to "/jobs/text") 100 (
        text_job "j1" (record {
          client_request_id = "r1";
          prompt = "a song";
          metadata = end;
          provider_mode = "mock_suno";
        }))
    ∷ turn 10
    ∷ request (to "/jobs/j1") 101 (job_status "j1")
    ∷ request (to "/jobs/j1/cancel") 102 (cancel "j1")
    ∷ []

abbrev polled : Job
polled = record {
  id = "j1";
  type = text;
  status = polling_remote;
  client_request_id = "r0";
  payload = record { prompt = "a song"; metadata = obj end; asset_id = none };
  provider_mode = mock_suno;
  provider_metadata = end;
  remote_job_id = some "m1";
  asset_id = none;
  output_manifest_json = none;
  output_assets = [];
  progress = 10;
  last_error = none;
  attempts = 0;
  created_at = 5;
  updated_at = 5;
}

abbrev bridge : List Job → Bridge Adapters
bridge jobs = record {
  world = record {
    db = record (empty 1000) { jobs = jobs };
    queue = [];
    cancelled = [];
    files = [];
    provider_state = record { mock = []; manual = [] };
  };
  nonces = record { ttl_seconds = 300; seen = [] };
}

run_events-integrity_example :
    AreUnique (run_events app events (bridge [])).world.db.jobs
    × IsHistory (run_events app events (bridge [])).world.db
run_events-integrity_example = run_events-integrity app events (bridge []) tt (empty-IsHistory 1000)

run_events-refines_example :
    view (bridge []).world.db ⟿ view (run_events app events (bridge [])).world.db
run_events-refines_example = run_events-refines app events (bridge [])

run_events-Evolves_example :
    (c : Job) × (find_job "j1" (run_events app events (bridge (polled ∷ []))).world.db.jobs
      ≡ some c)
    × Evolves polled c
run_events-Evolves_example =
    run_events-Evolves app events (bridge (polled ∷ [])) "j1" {a = polled} (unfold find_job in refl)
