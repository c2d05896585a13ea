-- ===== src/Http/Traces.antt =====
-- bridge/app.py: the storage transactions of the handlers.
pub mod Imports
use suno_studio.Prelude.{String, Bool, false, not, Option, none, some, List, [], ◌∷◌, if◌then◌else◌}
use suno_studio.Exec.{
  Exn, key_error, value_error, type_error, attribute_error, integrity_error, struct_error,
  expired_request, replay_detected, signature_validation, runtime_error, timeout_error,
  bridge_error, file_not_found, Result, ok, err, ◌>>=◌, ◌>>◌,
}
use suno_studio.Models.{Job, text, audio}
use suno_studio.Models.Values.{Json, null, bool, int, str, arr, obj, Fields, present, get}
use suno_studio.Orchestrator.Runtime.{World, Settings}
use suno_studio.Orchestrator.Service.{create_text_job, create_audio_job}
use suno_studio.Orchestrator.{cancel_job}
use suno_studio.Orchestrator.Traces.{create_job-Transacts, cancel_job-Transacts}
use suno_studio.Orchestrator.Traces.Rules.{
  Trace, Transacts, Transacts-bind, Transacts-if, Transacts-lift, Transacts-pure, Transacts-raise,
  Transacts-or_raise, get_job-Transacts, attach_job_artifacts-Transacts, set_job_status-Transacts,
}
use suno_studio.Orchestrator.Traces.Poll.{store_download-Transacts}
use suno_studio.Imports.Analysis.{ImportSettings}
use Imports.{import_file-Transacts}
use suno_studio.Http.{Upload, Paths, parse_beta_provider_mode, except_key_error, not_found}
use suno_studio.Http.Assets.{import_upload, post_assets_import, text_field}
use suno_studio.Http.Jobs.{
  TextJobCreateRequest, AudioForm, post_jobs_text, post_jobs_audio, post_cancel, get_job_status,
  get_job_handoff, respond, truthy_or_none, respond_handoff, handoff_response, local_asset_id,
  with_source, create_audio,
}
use suno_studio.Http.Jobs
use suno_studio.Http.Manual.{
  ManualForm, all_files, any_files, requested, import_family, import_families, complete_manually,
  manual_found, post_manual_complete,
}

module _ {P : Type 0} (settings : Settings P) where
  except_key_error-Trace :
      {A : Type 0} (w : World P) (e : Exn) (r : Result A × World P)
      → Trace w.db r.1.db
      → Trace w.db (except_key_error e r).1.db
  except_key_error-Trace w e (ok a, v) h = h
  except_key_error-Trace w e (err key_error, v) h = h
  except_key_error-Trace w e (err value_error, v) h = h
  except_key_error-Trace w e (err type_error, v) h = h
  except_key_error-Trace w e (err attribute_error, v) h = h
  except_key_error-Trace w e (err integrity_error, v) h = h
  except_key_error-Trace w e (err file_not_found, v) h = h
  except_key_error-Trace w e (err struct_error, v) h = h
  except_key_error-Trace w e (err expired_request, v) h = h
  except_key_error-Trace w e (err replay_detected, v) h = h
  except_key_error-Trace w e (err (signature_validation m), v) h = h
  except_key_error-Trace w e (err (runtime_error m), v) h = h
  except_key_error-Trace w e (err (timeout_error m), v) h = h
  except_key_error-Trace w e (err (bridge_error b), v) h = h

  respond-Transacts : (i : String) (o : Option Job) → Transacts (respond {P = P} i o)
  respond-Transacts i none = Transacts-raise _
  respond-Transacts i (some job) = Transacts-pure _

  pub get_job_status-Transacts : (i : String) → Transacts (get_job_status {P = P} i)
  unfolding get_job_status
  get_job_status-Transacts i = Transacts-bind _ _ (get_job-Transacts i) (respond-Transacts i)

  handoff_response-Transacts :
      (job : Job) (o : Option Json) → Transacts (handoff_response {P = P} job o)
  handoff_response-Transacts job none = Transacts-raise _
  handoff_response-Transacts job (some null) = Transacts-raise _
  handoff_response-Transacts job (some (bool b)) = Transacts-raise _
  handoff_response-Transacts job (some (int n)) = Transacts-raise _
  handoff_response-Transacts job (some (str t)) = Transacts-raise _
  handoff_response-Transacts job (some (arr vs)) = Transacts-raise _
  handoff_response-Transacts job (some (obj handoff)) = Transacts-bind _ _ (Transacts-lift _) (λ a.
      Transacts-bind _ _ (Transacts-lift _)
        (λ b. Transacts-bind _ _ (Transacts-lift _) (λ c. Transacts-pure _)))

  respond_handoff-Transacts :
      (i : String) (o : Option Job) → Transacts (respond_handoff {P = P} i o)
  respond_handoff-Transacts i none = Transacts-raise _
  respond_handoff-Transacts i (some job) =
      Transacts-if (not (Jobs.is_manual job.provider_mode)) _ _ (Transacts-raise _) (
        Transacts-if (truthy_or_none (get job.provider_metadata "handoff")) _ _
          (handoff_response-Transacts job (get job.provider_metadata "handoff"))
          (Transacts-raise _))

  pub get_job_handoff-Transacts : (i : String) → Transacts (get_job_handoff {P = P} i)
  unfolding get_job_handoff
  get_job_handoff-Transacts i =
      Transacts-bind _ _ (get_job-Transacts i) (respond_handoff-Transacts i)

  pub post_cancel-Transacts : (i : String) → Transacts (post_cancel settings i)
  unfolding post_cancel
  post_cancel-Transacts i =
      Transacts-bind _ _
        (record {
          at = λ w.
              except_key_error-Trace w (not_found i) (cancel_job settings i w)
                ((cancel_job-Transacts settings i).at w);
        })
        (λ job. Transacts-pure _)

  pub post_jobs_text-Transacts :
      (i : String) (payload : TextJobCreateRequest) → Transacts (post_jobs_text settings i payload)
  unfolding post_jobs_text create_text_job
  post_jobs_text-Transacts i payload =
      Transacts-bind _ _ (Transacts-lift (parse_beta_provider_mode payload.provider_mode)) (λ mode.
        Transacts-bind _ _ (create_job-Transacts settings i text _ none mode)
          (λ job. Transacts-pure _))

  module _ (paths : Paths) where
    import_family-Transacts :
        (i family : String) (us : List Upload)
        → Transacts (import_family settings paths i family us)
    unfolding import_family
    import_family-Transacts i family [] = Transacts-pure _
    import_family-Transacts i family (u ∷ us) =
        Transacts-bind _ _ (store_download-Transacts settings i _ u.content _) (λ stored.
          Transacts-bind _ _ (import_family-Transacts i family us) (λ rest. Transacts-pure _))

    import_families-Transacts :
        (i : String) (fs : List (String × List Upload))
        → Transacts (import_families settings paths i fs)
    unfolding import_families
    import_families-Transacts i [] = Transacts-pure _
    import_families-Transacts i ((family, us) ∷ more) =
        Transacts-bind _ _ (import_family-Transacts i family us) (λ files.
          Transacts-bind _ _ (import_families-Transacts i more) (λ rest. Transacts-pure _))

    complete_manually-Transacts :
        (i : String) (form : ManualForm) (job : Job)
        → Transacts (complete_manually settings paths i form job)
    unfolding complete_manually
    complete_manually-Transacts i form job =
        Transacts-bind _ _ (set_job_status-Transacts i _ _) (λ _.
          Transacts-bind _ _ (import_families-Transacts i _) (λ files.
            Transacts-bind _ _ (Transacts-lift (requested job.provider_metadata)) (λ asked.
              Transacts-bind _ _ (attach_job_artifacts-Transacts i _) (λ _.
                Transacts-bind _ _ (set_job_status-Transacts i _ _) (λ c. Transacts-pure _)))))

    manual_found-Transacts :
        (i : String) (form : ManualForm) (o : Option Job)
        → Transacts (manual_found settings paths i form o)
    manual_found-Transacts i form none = Transacts-raise _
    manual_found-Transacts i form (some job) =
        Transacts-if (not (Jobs.is_manual job.provider_mode)) _ _ (Transacts-raise _) (
          Transacts-if (not (any_files (all_files form))) _ _ (Transacts-raise _)
            (complete_manually-Transacts i form job))

    pub post_manual_complete-Transacts :
        (i : String) (form : ManualForm) → Transacts (post_manual_complete settings paths i form)
    unfolding post_manual_complete
    post_manual_complete-Transacts i form =
        Transacts-bind _ _ (get_job-Transacts i) (manual_found-Transacts i form)

  module _ {F : Type 0} (imports : ImportSettings F) (paths : Paths)
      (temporary : String → String) where
    import_upload-Transacts :
        (asset_id : String) (u : Upload) (normalize : Bool)
        → Transacts (import_upload {P = P} imports paths temporary asset_id u normalize)
    unfolding import_upload
    import_upload-Transacts asset_id u normalize =
        import_file-Transacts imports asset_id _ normalize

    pub post_assets_import-Transacts :
        (asset_id : String) (u : Upload) (normalize : Bool)
        → Transacts (post_assets_import {P = P} imports paths temporary asset_id u normalize)
    unfolding post_assets_import
    post_assets_import-Transacts asset_id u normalize =
        Transacts-bind _ _ (import_upload-Transacts asset_id u normalize) (λ m.
          Transacts-bind _ _ (Transacts-lift (text_field (get m "id"))) (λ i. Transacts-pure _))

    module _ (parse_uuid : String → Option String) (loads : String → Option Json) where
      create_audio-Transacts :
          (i : String) (form : AudioForm) (asset_id : String)
          → Transacts (create_audio settings parse_uuid loads i form asset_id)
      unfolding create_audio_job
      create_audio-Transacts i form asset_id = Transacts-bind _ _ (Transacts-or_raise _ _) (λ uuid.
          Transacts-bind _ _ (Transacts-or_raise _ _) (λ metadata.
            Transacts-bind _ _ (Transacts-lift _) (λ mode.
              Transacts-bind _ _ (create_job-Transacts settings i audio _ _ mode)
                (λ job. Transacts-pure _))))

      with_source-Transacts :
          (i : String) (form : AudioForm) (o : Option String)
          → Transacts (with_source settings parse_uuid loads i form o)
      with_source-Transacts i form none = Transacts-raise _
      with_source-Transacts i form (some a) =
          Transacts-if (present (some a)) _ _ (create_audio-Transacts i form a) (Transacts-raise _)

      local_asset_id-Transacts :
          (asset_id : String) (form : AudioForm) (o : Option Upload)
          → Transacts
              (local_asset_id settings parse_uuid loads imports paths temporary asset_id form o)
      local_asset_id-Transacts asset_id form none = Transacts-pure _
      local_asset_id-Transacts asset_id form (some u) =
          Transacts-bind _ _ (import_upload-Transacts asset_id u false) (λ m.
            Transacts-bind _ _ (Transacts-lift (text_field (get m "id"))) (λ i. Transacts-pure _))

      pub post_jobs_audio-Transacts :
          (i asset_id : String) (form : AudioForm)
          → Transacts
              (post_jobs_audio settings parse_uuid loads imports paths temporary i asset_id form)
      unfolding post_jobs_audio
      post_jobs_audio-Transacts i asset_id form =
          Transacts-bind _ _ (local_asset_id-Transacts asset_id form form.file)
            (with_source-Transacts i form)
