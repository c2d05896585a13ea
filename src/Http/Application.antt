-- ===== src/Http/Application.antt =====
-- bridge/app.py: create_app, with the defaults of RetryPolicy of bridge/services/job_service.py.
use Prim.Native.String.{◌++◌}
use suno_studio.Prelude.{ℕ, String, Bool, true, Option, none, some, List, ◌==◌, if◌then◌else◌}
use suno_studio.Exec.{Result}
use suno_studio.Models.Values.{Fields, Json}
use suno_studio.Adapters.Registry.{Adapters, app_providers}
use suno_studio.Security.Signer.{Crypto}
use suno_studio.Imports.Analysis.{Floats, ImportSettings}
use suno_studio.Imports.Wave.{WaveData}
use suno_studio.Orchestrator.Runtime.{Settings}
use suno_studio.Http.{Paths}

-- What the application is made of, and what it calls: see the parameters of its parts.
pub record App (F P : Type 0) : Type 0 where
  pub settings : Settings P
  pub imports : ImportSettings F
  pub paths : Paths
  pub temporary : String → String
  pub parse_uuid : String → Option String
  pub loads : String → Option Json
  pub crypto : Crypto
  pub shared_secret : List ℕ
  pub int_error : String → String
  pub require_hmac : Bool

-- The libraries that the application calls; `parent` is `Path(s).parent`, and `exists` tells which
-- files are there.
pub record Libraries (F : Type 0) : Type 0 where
  pub sha256 : List ℕ → String
  pub encode : String → List ℕ
  pub exists : String → Bool
  pub parent : String → String
  pub suffix_lower : String → String
  pub wave_open : List ℕ → Result WaveData
  pub dumps_indented : Fields → List ℕ
  pub floats : Floats F
  pub paths : Paths
  pub temporary : String → String
  pub parse_uuid : String → Option String
  pub loads : String → Option Json
  pub crypto : Crypto
  pub int_error : String → String

module _ {F : Type 0} (libraries : Libraries F) where
  open libraries use {
    sha256, encode, exists, parent, suffix_lower, wave_open, dumps_indented, floats, paths,
    temporary, parse_uuid, loads, crypto, int_error,
  }

  -- `value or default`
  abbrev text_or : Option String → String → String
  text_or none d = d
  text_or (some s) d = if s == "" then d else s

  abbrev true_unless_given : Option Bool → Bool
  true_unless_given none = true
  true_unless_given (some b) = b

  unfoldable pub create_app : String → Option Bool → Option String → App F Adapters
  create_app assets_root enable_hmac shared_secret = record {
    settings = record {
      providers = app_providers encode (parent assets_root ++ "/provider_workspaces") exists;
      max_attempts = 3;
      poll_interval = 50;
      retry_backoff = 50;
      download_root = assets_root ++ "/downloads";
      sha256 = sha256;
    };
    imports = record {
      assets_root = assets_root ++ "/imported";
      sha256 = sha256;
      suffix_lower = suffix_lower;
      wave_open = wave_open;
      dumps_indented = dumps_indented;
      floats = floats;
    };
    paths = paths;
    temporary = temporary;
    parse_uuid = parse_uuid;
    loads = loads;
    crypto = crypto;
    shared_secret = encode (text_or shared_secret "dev-shared-secret");
    int_error = int_error;
    require_hmac = true_unless_given enable_hmac;
  }
