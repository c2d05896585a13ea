-- ===== src/Http/Responses.antt =====
-- bridge/app.py: _job_to_response and the handler of BridgeError; bridge/schemas/api_models.py, and
-- bridge/server.py: capabilities_payload. Progress and times stay numbers.
use suno_studio.Prelude.{
  ℕ, ◌-◌, String, Bool, true, false, Option, none, some, List, [], ◌∷◌, ◌==◌, if◌then◌else◌, leb,
  length, drop,
}
use suno_studio.Exec.{Exn, bridge_error, Result, ok, err}
use suno_studio.Errors.{BridgeError, to_payload}
use suno_studio.Models.{Job}
use suno_studio.Models.Values.{Json, str, obj, Fields, end, field}
use suno_studio.Storage.Rows.{type_value, status_value, mode_value}
use suno_studio.Text.{codes}

pub record JobStatusResponse : Type 0 where
  pub id : String
  pub type : String
  pub status : String
  pub client_request_id : String
  pub remote_job_id : Option String
  pub asset_id : Option String
  pub progress : ℕ
  pub last_error : Option String
  pub output_assets : List String
  pub output_manifest : Option Json
  pub provider_mode : String
  pub provider_metadata : Fields
  pub created_at : ℕ
  pub updated_at : ℕ

abbrev pub job_to_response : Job → JobStatusResponse
job_to_response job = record {
  id = job.id;
  type = type_value job.type;
  status = status_value job.status;
  client_request_id = job.client_request_id;
  remote_job_id = job.remote_job_id;
  asset_id = job.asset_id;
  progress = job.progress;
  last_error = job.last_error;
  output_assets = job.output_assets;
  output_manifest = job.output_manifest_json;
  provider_mode = mode_value job.provider_mode;
  provider_metadata = job.provider_metadata;
  created_at = job.created_at;
  updated_at = job.updated_at;
}

pub record JobCreateResponse : Type 0 where
  pub created : Bool
  pub job : JobStatusResponse

pub record AssetImportResponse : Type 0 where
  pub asset_id : String
  pub manifest : Fields

pub record ManualHandoffResponse : Type 0 where
  pub job_id : String
  pub provider_mode : String
  pub workspace : String
  pub instructions_path : String
  pub handoff : Fields

-- What a handler comes to: a model that FastAPI sends, a BridgeError as JSON, or an exception that no
-- handler of the application catches.
pub data Reply (A : Type 0) : Type 0 where
  sent : A → Reply A
  refused : ℕ → Json → Reply A
  uncaught : Exn → Reply A

same_codes : List ℕ → List ℕ → Bool
same_codes [] [] = true
same_codes (a ∷ as_) (b ∷ bs) =
    let rest = same_codes as_ bs in if leb a b then (if leb b a then rest else false) else false
same_codes _ _ = false

-- s.endswith(t)
unfoldable pub ends_with : String → String → Bool
unfolding same_codes
ends_with t s = same_codes (drop (length (codes s) - length (codes t)) (codes s)) (codes t)

abbrev pub status_code : BridgeError → ℕ
status_code e = if ends_with "NOT_FOUND" e.code then 404 else 400

-- bridge_error_handler
unfoldable pub reply : {A : Type 0} → Result A → Reply A
reply (ok a) = sent a
reply (err (bridge_error e)) = refused (status_code e) (to_payload e)
reply (err e) = uncaught e

-- `recommended or max_supported`
abbrev recommended_or : Option String → String → String
recommended_or none max_supported = max_supported
recommended_or (some r) max_supported = if r == "" then max_supported else r

unfoldable pub capabilities_payload : String → String → String → Option String → Fields
capabilities_payload provider_version min_supported max_supported recommended =
    field "provider" (str "bridge") (
      field "provider_version" (str provider_version) (
        field "protocol"
          (obj (
            field "min_supported" (str min_supported) (
              field "max_supported" (str max_supported)
                (field "recommended" (str (recommended_or recommended max_supported)) end))))
          end))
