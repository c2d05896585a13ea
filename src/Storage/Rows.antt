-- ===== src/Storage/Rows.antt =====
-- How a job is written to a row of text columns and read back: the parameters of the INSERT in
-- `create_job_idempotent`, and `_row_to_job`. The text formats of the standard library (JSON, ISO
-- dates, UUIDs) are a parameter.
use suno_studio.Prelude.{
  ℕ, String, ◌≡◌, refl, false, Option, none, some, List, [], ◌∷◌, ◌++◌, arith, inl, inr, Bool-cases,
  ◌==◌, if◌then◌else◌,
}
use suno_studio.Models.{
  JobType, text, audio, ProviderMode, mock_suno, manual_suno, official_api, web_session, Payload,
  Job,
}
use suno_studio.Models.Values.{
  Json, str, arr, obj, Items, nil, cons, Fields, end, field, get, truthy,
}
use suno_studio.Models.Status
use suno_studio.Models.Status.{JobStatus}
use suno_studio.Storage.Tables.{stored, stored_manifest}

-- json, datetime and uuid of Python's library.
pub record Formats : Type 0 where
  pub dumps : Json → String
  pub loads : String → Option Json
  pub isoformat : ℕ → String
  pub fromisoformat : String → Option ℕ
  pub parse_uuid : String → Option String

pub record Row : Type 0 where
  pub id : String
  pub type : String
  pub status : String
  pub client_request_id : String
  pub payload_json : String
  pub provider_mode : String
  pub provider_metadata_json : Option String
  pub remote_provider_id : Option String
  pub asset_id : Option String
  pub output_manifest_json : Option String
  pub output_assets_json : Option String
  pub progress : ℕ
  pub last_error : Option String
  pub attempts : ℕ
  pub created_at : String
  pub updated_at : String

-- The `.value` of the enums, and the enums called on a text: `none` is a ValueError.
abbrev pub type_value : JobType → String
type_value text = "text"
type_value audio = "audio"

job_type : String → Option JobType
job_type v = if v == "text" then some text else if v == "audio" then some audio else none

abbrev pub mode_value : ProviderMode → String
mode_value mock_suno = "mock_suno"
mode_value manual_suno = "manual_suno"
mode_value official_api = "official_api"
mode_value web_session = "web_session"

unfoldable pub provider_mode : String → Option ProviderMode
provider_mode v =
    if v == "mock_suno"
    then some mock_suno
    else if v == "manual_suno"
    then some manual_suno
    else if v == "official_api"
    then some official_api
    else if v == "web_session"
    then some web_session
    else none

abbrev pub status_value : JobStatus → String
status_value Status.created = "created"
status_value Status.queued_local = "queued_local"
status_value Status.submitting_remote = "submitting_remote"
status_value Status.polling_remote = "polling_remote"
status_value Status.downloading = "downloading"
status_value Status.awaiting_manual_provider_submission = "awaiting_manual_provider_submission"
status_value Status.awaiting_manual_provider_result = "awaiting_manual_provider_result"
status_value Status.importing_provider_result = "importing_provider_result"
status_value Status.complete = "complete"
status_value Status.failed = "failed"
status_value Status.cancelling = "cancelling"
status_value Status.cancelled = "cancelled"

-- The members of the enum, tried in turn.
first_status : List JobStatus → String → Option JobStatus
first_status [] v = none
first_status (a ∷ as_) v = if v == status_value a then some a else first_status as_ v

job_status : String → Option JobStatus
unfolding first_status
job_status = first_status (Status.in_flight_states ++ Status.terminal_states)

-- The payload as the dict that it is, and what the program reads of such a dict.
abbrev with_asset : Option String → Fields
with_asset none = end
with_asset (some a) = field "assetId" (str a) end

abbrev pub payload_fields : Payload → Json
payload_fields p =
    obj (field "prompt" (str p.prompt) (field "metadata" p.metadata (with_asset p.asset_id)))

abbrev text_of : Option Json → Option String
text_of (some (str t)) = some t
text_of _ = none

payload_of : Json → Option Payload
payload_of (obj (field _ (str prompt) (field _ metadata rest))) =
    some (record { prompt = prompt; metadata = metadata; asset_id = text_of (get rest "assetId") })
payload_of _ = none

abbrev fields_of : Json → Option Fields
fields_of (obj d) = some d
fields_of _ = none

abbrev texts : List String → Items
texts [] = nil
texts (t ∷ ts) = cons (str t) (texts ts)

text_items : Items → Option (List String)
text_items nil = some []
text_items (cons (str t) vs) = elim (text_items vs) [ none ↦ none | some ts ↦ some (t ∷ ts) ]
text_items _ = none

texts_of : Json → Option (List String)
unfolding text_items
texts_of (arr vs) = text_items vs
texts_of _ = none

text_items-texts : (ts : List String) → text_items (texts ts) ≡ some ts
unfolding text_items
text_items-texts [] = refl
text_items-texts (t ∷ ts) = rw (text_items-texts ts)

texts_of-texts : (ts : List String) → texts_of (arr (texts ts)) ≡ some ts
unfolding texts_of
texts_of-texts ts = text_items-texts ts

job_status-value : (a : JobStatus) → job_status (status_value a) ≡ some a
unfolding job_status
job_status-value Status.created = refl
job_status-value _ = refl

payload_of-fields : (p : Payload) → payload_of (payload_fields p) ≡ some p
unfolding payload_of
payload_of-fields p = ground arith

-- A conversion that raises stops `_row_to_job`.
infixl 5 ◌>>=◌
abbrev ◌>>=◌ {ℓ κ} : {A : Type ℓ} {B : Type κ} → Option A → (A → Option B) → Option B
none >>= f = none
some a >>= f = f a

module _ (formats : Formats) where
  open formats use {dumps, loads, isoformat, fromisoformat, parse_uuid}

  abbrev manifest_text : Option Json → Option String
  manifest_text none = none
  manifest_text (some m) = if truthy m then some (dumps m) else none

  -- The parameters of the INSERT statement.
  pub job_to_row : Job → Row
  job_to_row job = record {
    id = job.id;
    type = type_value job.type;
    status = status_value job.status;
    client_request_id = job.client_request_id;
    payload_json = dumps (payload_fields job.payload);
    provider_mode = mode_value job.provider_mode;
    provider_metadata_json = some (dumps (obj job.provider_metadata));
    remote_provider_id = job.remote_job_id;
    asset_id = job.asset_id;
    output_manifest_json = manifest_text job.output_manifest_json;
    output_assets_json = some (dumps (arr (texts job.output_assets)));
    progress = job.progress;
    last_error = job.last_error;
    attempts = job.attempts;
    created_at = isoformat job.created_at;
    updated_at = isoformat job.updated_at;
  }

  -- `json.loads(t) if t else d`, for a column that may be NULL
  abbrev loads_or {ℓ} : {A : Type ℓ} → (Json → Option A) → A → Option String → Option A
  loads_or read d none = some d
  loads_or read d (some t) = if t == "" then some d else (do v ← loads t; read v)

  pub row_to_job : Row → Option Job
  row_to_job row = do
    type ← job_type row.type
    status ← job_status row.status
    client_request_id ← parse_uuid row.client_request_id
    payload_json ← loads row.payload_json
    payload ← payload_of payload_json
    mode ←
        provider_mode (if row.provider_mode == "" then mode_value mock_suno else row.provider_mode)
    provider_metadata ← loads_or fields_of end row.provider_metadata_json
    manifest ← loads_or (λ v. some (some v)) none row.output_manifest_json
    output_assets ← loads_or texts_of [] row.output_assets_json
    created_at ← fromisoformat row.created_at
    updated_at ← fromisoformat row.updated_at
    some (record {
      id = row.id;
      type = type;
      status = status;
      client_request_id = client_request_id;
      payload = payload;
      provider_mode = mode;
      provider_metadata = provider_metadata;
      remote_job_id = row.remote_provider_id;
      asset_id = row.asset_id;
      output_manifest_json = manifest;
      output_assets = output_assets;
      progress = row.progress;
      last_error = row.last_error;
      attempts = row.attempts;
      created_at = created_at;
      updated_at = updated_at;
    })

  job_type-value : (t : JobType) → job_type (type_value t) ≡ some t
  unfolding job_type
  job_type-value text = refl
  job_type-value audio = refl

  provider_mode-value :
      (m : ProviderMode)
      → provider_mode (if mode_value m == "" then mode_value mock_suno else mode_value m) ≡ some m
  unfolding provider_mode
  provider_mode-value mock_suno = refl
  provider_mode-value _ = refl

  -- What json documents of a value: `loads` undoes `dumps`, whose text is not empty.
  abbrev IsEncoded : Json → Type 0
  IsEncoded v = (loads (dumps v) ≡ some v) × ((dumps v == "") ≡ false)

  -- What datetime documents of a time: `fromisoformat` undoes `isoformat`.
  abbrev IsDated : ℕ → Type 0
  IsDated t = fromisoformat (isoformat t) ≡ some t

  manifest-loads :
      (o : Option Json)
      → ((v : Json) → o ≡ some v → IsEncoded v)
      → loads_or (λ v. some (some v)) none (manifest_text o) ≡ some (stored_manifest o)
  manifest-loads none h = refl
  manifest-loads (some m) h = elim (Bool-cases (truthy m)) [
    | inl y ↦ rw (y, (h m refl).1, (h m refl).0)
    | inr n ↦ rw n
  ]

  module _ (job : Job) (payload : IsEncoded (payload_fields job.payload))
      (provider_metadata : IsEncoded (obj job.provider_metadata))
      (manifest : (v : Json) → job.output_manifest_json ≡ some v → IsEncoded v)
      (output_assets : IsEncoded (arr (texts job.output_assets)))
      (created_at : IsDated job.created_at) (updated_at : IsDated job.updated_at) where
    -- Suppose that `json.loads` undoes `json.dumps`, and that text is not empty, on the four JSON
    -- columns of a job, that `fromisoformat` undoes `isoformat` on its two times, and that its client
    -- request id is a UUID. Then the job is read back from the row that was written for it, with every
    -- field as it was, but for an empty manifest, which is stored as NULL and read as None.
    pub row_to_job-job_to_row :
        parse_uuid job.client_request_id ≡ some job.client_request_id
        → row_to_job (job_to_row job) ≡ some (stored job)
    unfolding row_to_job job_to_row stored
    row_to_job-job_to_row u = rw (
      job_type-value,
      job_status-value,
      u,
      payload.0,
      payload_of-fields,
      provider_mode-value,
      provider_metadata.1,
      provider_metadata.0,
      manifest-loads job.output_manifest_json manifest,
      output_assets.1,
      output_assets.0,
      texts_of-texts,
      created_at,
      updated_at,
    )
