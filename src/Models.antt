-- ===== src/Models.antt =====
-- bridge/models.py
pub mod Values
pub mod Status
use suno_studio.Prelude.{ℕ, String, Option, List}
use Values.{Json, Fields}
use Status.{JobStatus}

pub data JobType : Type 0 where
  text audio : JobType

pub data ProviderMode : Type 0 where
  mock_suno manual_suno official_api web_session : ProviderMode

-- The dict literal of `JobService._create_job`, which is the only writer of `payload`. The metadata of
-- an audio job is whatever JSON its form had.
pub record Payload : Type 0 where
  pub prompt : String
  pub metadata : Json
  pub asset_id : Option String

pub record CreateJobRequest : Type 0 where
  pub prompt : String
  pub client_request_id : String
  pub metadata : Json

-- `progress` is in hundredths, and times are readings of the clock.
pub record Job : Type 0 where
  pub id : String
  pub type : JobType
  pub status : JobStatus
  pub client_request_id : String
  pub payload : Payload
  pub provider_mode : ProviderMode
  pub provider_metadata : Fields
  pub remote_job_id : Option String
  pub asset_id : Option String
  pub output_manifest_json : Option Json
  pub output_assets : List String
  pub progress : ℕ
  pub last_error : Option String
  pub attempts : ℕ
  pub created_at : ℕ
  pub updated_at : ℕ

pub record JobTransition : Type 0 where
  pub job_id : String
  pub from_status : JobStatus
  pub to_status : JobStatus
  pub occurred_at : ℕ
  pub reason : Option String
