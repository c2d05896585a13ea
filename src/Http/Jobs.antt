-- ===== src/Http/Jobs.antt =====
-- bridge/app.py: the handlers of /capabilities and of the jobs. FastAPI has checked the types of the
-- arguments. The ids of new jobs come in as arguments, as does the parsing of UUIDs and JSON objects.
use suno_studio.Prelude.{String, Bool, true, false, not, Option, none, some, if◌then◌else◌}
use suno_studio.Exec.{
  key_error, value_error, type_error, Result, ok, err, Exec, pure, raise, or_raise, ◌>>=◌,
}
use suno_studio.Models.{ProviderMode, manual_suno, Job}
use suno_studio.Models.Values.{
  Json, bool, str, arr, obj, cons, nil, Fields, end, field, get, put, truthy, present,
}
use suno_studio.Protocol.{protocol_range}
use suno_studio.Storage.{get_job}
use suno_studio.Storage.Rows.{mode_value}
use suno_studio.Orchestrator.Runtime.{World, Settings, on_db}
use suno_studio.Orchestrator.{cancel_job}
use suno_studio.Orchestrator.Service.{create_text_job, create_audio_job}
use suno_studio.Imports.Analysis.{ImportSettings}
use suno_studio.Http.Assets.{text_field, import_upload}
use suno_studio.Http.{
  Upload, Paths, bridge_err, not_found, parse_beta_provider_mode, lift, except_key_error,
}
use suno_studio.Http.Responses.{
  JobStatusResponse, job_to_response, JobCreateResponse, ManualHandoffResponse,
  capabilities_payload,
}

-- GET /capabilities, whose header is the request id
unfoldable pub get_capabilities : Bool → String → Fields
get_capabilities require_hmac x_request_id =
    let payload =
      capabilities_payload "0.3.0" protocol_range.min_supported protocol_range.max_supported none in
    put (put payload "requestId" (str x_request_id)) "auth" (
      obj (
        field "hmacRequired" (bool require_hmac) (
          field "signatureHeaders"
            (arr (
              cons (str "X-Signature-Timestamp") (
                cons (str "X-Signature-Nonce")
                  (cons (str "X-Body-Sha256") (cons (str "X-Signature") nil)))))
            end)))

pub record TextJobCreateRequest : Type 0 where
  pub client_request_id : String
  pub prompt : String
  pub metadata : Fields
  pub provider_mode : String

-- The form of POST /jobs/audio.
pub record AudioForm : Type 0 where
  pub client_request_id : String
  pub prompt : String
  pub metadata : String
  pub provider_mode : String
  pub asset_id : Option String
  pub file : Option Upload

abbrev pub is_manual : ProviderMode → Bool
is_manual manual_suno = true
is_manual _ = false

abbrev dict_field : Option Json → Result Fields
dict_field none = err key_error
dict_field (some (obj d)) = ok d
dict_field (some _) = err value_error

abbrev pub truthy_or_none : Option Json → Bool
truthy_or_none none = false
truthy_or_none (some v) = truthy v

abbrev pub made : Job × Bool → JobCreateResponse
made (job, created) = record { created = created; job = job_to_response job }

module _ {P : Type 0} where
  abbrev pub respond : String → Option Job → Exec (World P) JobStatusResponse
  respond i none = raise (not_found i)
  respond i (some job) = pure (job_to_response job)

  -- GET /jobs/{job_id}
  unfoldable pub get_job_status : String → Exec (World P) JobStatusResponse
  get_job_status i = do job ← on_db (get_job i); respond i job

  -- handoff["workspace"] and the other items; the response model refuses what is no text or no dict
  abbrev pub handoff_response : Job → Option Json → Exec (World P) ManualHandoffResponse
  handoff_response job (some (obj handoff)) = do
    workspace ← lift (text_field (get handoff "workspace"))
    instructions_path ← lift (text_field (get handoff "instructionsPath"))
    inner ← lift (dict_field (get handoff "handoff"))
    pure (record {
      job_id = job.id;
      provider_mode = mode_value job.provider_mode;
      workspace = workspace;
      instructions_path = instructions_path;
      handoff = inner;
    })
  handoff_response job _ = raise type_error

  abbrev pub respond_handoff : String → Option Job → Exec (World P) ManualHandoffResponse
  respond_handoff i none = raise (not_found i)
  respond_handoff i (some job) =
      if not (is_manual job.provider_mode)
      then raise (
          bridge_err "INVALID_PROVIDER_MODE" "Handoff only exists for manual_suno jobs."
            (field "providerMode" (str (mode_value job.provider_mode)) end))
      else if truthy_or_none (get job.provider_metadata "handoff")
      then handoff_response job (get job.provider_metadata "handoff")
      else raise (
          bridge_err "HANDOFF_NOT_READY" "Manual handoff package has not been prepared yet."
            (field "jobId" (str i) end))

  -- GET /jobs/{job_id}/handoff
  unfoldable pub get_job_handoff : String → Exec (World P) ManualHandoffResponse
  get_job_handoff i = do job ← on_db (get_job i); respond_handoff i job

module _ {P : Type 0} (settings : Settings P) where
  -- POST /jobs/{job_id}/cancel
  unfoldable pub post_cancel : String → Exec (World P) JobStatusResponse
  post_cancel i = do
    job ← λ w. except_key_error (not_found i) (cancel_job settings i w)
    pure (job_to_response job)

  -- POST /jobs/text; `i` is the new id.
  unfoldable pub post_jobs_text : String → TextJobCreateRequest → Exec (World P) JobCreateResponse
  post_jobs_text i payload = do
    mode ← lift (parse_beta_provider_mode payload.provider_mode)
    job ←
        create_text_job settings i
          (record {
            prompt = payload.prompt;
            client_request_id = payload.client_request_id;
            metadata = obj payload.metadata;
          })
          mode
    pure (made job)

  module _ (parse_uuid : String → Option String) (loads : String → Option Json) where
    abbrev pub create_audio : String → AudioForm → String → Exec (World P) JobCreateResponse
    create_audio i form asset_id = do
      client_request_id ← or_raise value_error (parse_uuid form.client_request_id)
      metadata ← or_raise value_error (loads form.metadata)
      mode ← lift (parse_beta_provider_mode form.provider_mode)
      job ←
          create_audio_job settings i
            (record {
              prompt = form.prompt;
              client_request_id = client_request_id;
              metadata = metadata;
            })
            (some asset_id) mode
      pure (made job)

    -- `if not local_asset_id`
    abbrev pub with_source : String → AudioForm → Option String → Exec (World P) JobCreateResponse
    with_source i form asset_id =
        if present asset_id
        then elim asset_id [ none ↦ raise key_error | some a ↦ create_audio i form a ]
        else raise (
            bridge_err "AUDIO_SOURCE_REQUIRED"
              "Provide either assetId or multipart file for audio jobs." end)

    module _ {F : Type 0} (imports : ImportSettings F) (paths : Paths)
        (temporary : String → String) where
      -- `local_asset_id`: a file goes before the id of an asset.
      abbrev pub local_asset_id :
          String → AudioForm → Option Upload → Exec (World P) (Option String)
      local_asset_id asset_id form none = pure form.asset_id
      local_asset_id asset_id form (some upload) = do
        manifest ← import_upload imports paths temporary asset_id upload false
        i ← lift (text_field (get manifest "id"))
        pure (some i)

      -- POST /jobs/audio; `i` and `asset_id` are the new ids of the job and of an import.
      unfoldable pub post_jobs_audio :
          String → String → AudioForm → Exec (World P) JobCreateResponse
      post_jobs_audio i asset_id form = do
        source ← local_asset_id asset_id form form.file
        with_source i form source
