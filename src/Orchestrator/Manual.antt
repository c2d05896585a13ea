-- ===== src/Orchestrator/Manual.antt =====
-- JobOrchestrator._prepare_manual of bridge/services/job_service.py.
use suno_studio.Prelude.{String, Option, none, some, List, [], ◌∷◌, ◌==◌, if◌then◌else◌}
use suno_studio.Exec.{Exec, Result, ok, err, type_error, value_error, pure, ◌>>=◌, ◌>>◌}
use suno_studio.Models.{Job}
use suno_studio.Models.Values.{Json, Items, nil, cons, arr, str, obj, Fields, end, field, put}
use suno_studio.Models.Status.{
  JobStatus, created, queued_local, awaiting_manual_provider_submission,
  awaiting_manual_provider_result, is_terminal, is_in,
}
use suno_studio.Adapters.{ProviderAdapter}
use suno_studio.Storage.{
  defaults, get_job, get_imported_asset, set_job_status, update_job_provider_metadata,
}
use suno_studio.Storage.Rows.{mode_value}
use suno_studio.Orchestrator.Runtime.{World, on_db, on_provider}
use suno_studio.Orchestrator.Submit.{
  fail_job, original_path, lift, audio_asset, found_manifest, is_text,
}

abbrev pub preparable : List JobStatus
preparable = queued_local ∷ created ∷ awaiting_manual_provider_submission ∷ []

-- The pairs of a list go into a dict one by one.
dict_of_pairs : Items → Fields → Result Fields
dict_of_pairs nil d = ok d
dict_of_pairs (cons (arr (cons (str k) (cons v nil))) rest) d = dict_of_pairs rest (put d k v)
dict_of_pairs (cons _ rest) d = err type_error

-- dict(v): a list must have pairs of a text and a value, and a text must be empty.
unfoldable pub dict_of : Json → Result Fields
unfolding dict_of_pairs
dict_of (obj d) = ok d
dict_of (arr pairs) = dict_of_pairs pairs end
dict_of (str s) = if s == "" then ok end else err value_error
dict_of _ = err type_error

-- The metadata that goes into the handoff.
abbrev pub manual_metadata : Job → Fields → Fields
manual_metadata job metadata = put metadata "provider_mode" (str (mode_value job.provider_mode))

module _ {P : Type 0} where
  -- The end of the method: the handoff is read back and attached, and the user is waited for.
  abbrev pub hand_off : Job → (String → Exec P Fields) → String → Exec (World P) (Unit {0})
  hand_off job get_handoff remote_id = do
    handoff ← on_provider (get_handoff job.id)
    on_db (update_job_provider_metadata job.id (field "handoff" (obj handoff) end))
    on_db (
        set_job_status job.id awaiting_manual_provider_result
          (record defaults { remote_job_id = some remote_id; progress = some 20 }))
    pure tt

  abbrev pub prepare_found :
      Job
      → ProviderAdapter P
      → (String → Exec P Fields)
      → Fields
      → String
      → Option Fields
      → Exec (World P) (Unit {0})
  prepare_found current provider get_handoff given asset_id none =
      fail_job current.id "asset not found"
  prepare_found current provider get_handoff given asset_id (some manifest) = do
    source_path ← lift (original_path manifest)
    let metadata = put (manual_metadata current given) "audio_prompt_asset_id" (str asset_id)
    remote_id ←
        on_provider
          (provider.submit_audio_job current.id current.payload.prompt (obj metadata) source_path)
    hand_off current get_handoff remote_id

  abbrev pub prepare_audio :
      Job
      → ProviderAdapter P
      → (String → Exec P Fields)
      → Fields
      → Option String
      → Exec (World P) (Unit {0})
  prepare_audio current provider get_handoff given none = fail_job current.id "missing audio asset"
  prepare_audio current provider get_handoff given (some asset_id) = do
    manifest ← on_db (get_imported_asset asset_id)
    prepare_found current provider get_handoff given asset_id (found_manifest manifest)

  abbrev pub prepare_text :
      Job → ProviderAdapter P → (String → Exec P Fields) → Fields → Exec (World P) (Unit {0})
  prepare_text current provider get_handoff given = do
    remote_id ← on_provider (
        provider.submit_text_job current.id current.payload.prompt
          (obj (manual_metadata current given)))
    hand_off current get_handoff remote_id

  abbrev pub prepare_current :
      ProviderAdapter P → (String → Exec P Fields) → Option Job → Exec (World P) (Unit {0})
  prepare_current provider get_handoff none = pure tt
  prepare_current provider get_handoff (some current) =
      if is_terminal current.status
      then pure tt
      else if is_in current.status preparable
      then (do
        on_db (
            set_job_status current.id awaiting_manual_provider_submission
              (record defaults { progress = some 10 }))
        given ← lift (dict_of current.payload.metadata)
        if is_text current
            then prepare_text current provider get_handoff given
            else prepare_audio current provider get_handoff given (audio_asset current))
      else pure tt

  abbrev pub prepare_with :
      Job → ProviderAdapter P → Option (String → Exec P Fields) → Exec (World P) (Unit {0})
  prepare_with job provider none = fail_job job.id "manual provider not configured"
  prepare_with job provider (some get_handoff) = do
    current ← on_db (get_job job.id)
    prepare_current provider get_handoff current

  unfoldable pub prepare_manual : Job → ProviderAdapter P → Exec (World P) (Unit {0})
  prepare_manual job provider = prepare_with job provider provider.get_handoff
