-- ===== src/Orchestrator/Submit.antt =====
-- JobOrchestrator._submit_remote of bridge/services/job_service.py.
use suno_studio.Prelude.{String, Bool, true, false, ◌||◌, Option, none, some, if◌then◌else◌}
use suno_studio.Exec.{key_error, value_error, type_error, Result, ok, err, Exec, pure, ◌>>=◌, ◌>>◌}
use suno_studio.Models.{Job, text, audio}
use suno_studio.Models.Values.{Json, str, obj, Fields, get, present}
use suno_studio.Models.Status.{
  cancelling, cancelled, submitting_remote, polling_remote, failed, is_terminal, same_status,
}
use suno_studio.Adapters.{ProviderAdapter}
use suno_studio.Storage.{defaults, get_job, get_imported_asset, set_job_status}
use suno_studio.Orchestrator.Runtime.{World, on_db, on_provider, is_cancelled, clear_cancel}

-- Path(manifest["original"]["path"])
abbrev original_json : Option Json → Result String
original_json (some (str p)) = ok p
original_json (some _) = err type_error
original_json none = err key_error

abbrev original_obj : Option Json → Result String
original_obj (some (obj d)) = original_json (get d "path")
original_obj (some _) = err type_error
original_obj none = err key_error

unfoldable pub original_path : Fields → Result String
original_path manifest = original_obj (get manifest "original")

-- `if not manifest`: an empty manifest counts as none.
abbrev pub found_manifest : Option Fields → Option Fields
found_manifest none = none
found_manifest (some Fields.end) = none
found_manifest (some m) = some m

-- `job.asset_id or job.payload.get("assetId")`, where an empty id counts as none
abbrev pub audio_asset : Job → Option String
audio_asset job =
    if present job.asset_id
    then job.asset_id
    else if present job.payload.asset_id
    then job.payload.asset_id
    else none

abbrev pub is_text : Job → Bool
is_text job = elim (job.type) [ text ↦ true | audio ↦ false ]

module _ {P : Type 0} where
  -- set_job_status(FAILED, reason=text, last_error=text)
  unfoldable pub fail_job : String → String → Exec (World P) (Unit {0})
  fail_job i reason = do
    on_db (
        set_job_status i failed
          (record defaults { reason = some reason; last_error = some reason }))
    pure tt

  abbrev pub lift : {A : Type 0} → Result A → Exec (World P) A
  lift r w = (r, w)

  abbrev pub submitted : String → String → Exec (World P) (Unit {0})
  submitted i remote_id = do
    on_db (
        set_job_status i polling_remote
          (record defaults { remote_job_id = some remote_id; progress = some 10 }))
    pure tt

  abbrev pub send_audio : Job → ProviderAdapter P → Option Fields → Exec (World P) (Unit {0})
  send_audio job provider none = fail_job job.id "asset not found"
  send_audio job provider (some manifest) = do
    source_path ← lift (original_path manifest)
    remote_id ←
        on_provider
          (provider.submit_audio_job job.id job.payload.prompt job.payload.metadata source_path)
    submitted job.id remote_id

  abbrev pub send_asset : Job → ProviderAdapter P → Option String → Exec (World P) (Unit {0})
  send_asset job provider none = fail_job job.id "missing audio asset"
  send_asset job provider (some asset_id) = do
    manifest ← on_db (get_imported_asset asset_id)
    send_audio job provider (found_manifest manifest)

  abbrev pub send : Job → ProviderAdapter P → Exec (World P) (Unit {0})
  send job provider =
      if is_text job
      then (do
        remote_id ←
            on_provider (provider.submit_text_job job.id job.payload.prompt job.payload.metadata)
        submitted job.id remote_id)
      else send_asset job provider (audio_asset job)

  -- After SUBMITTING_REMOTE: a cancellation that came in meanwhile, or the call of the provider.
  abbrev pub send_unless_cancelled : Job → ProviderAdapter P → Exec (World P) (Unit {0})
  send_unless_cancelled job provider = do
    stop ← is_cancelled job.id
    if stop
        then (do
          on_db (
              set_job_status job.id cancelled
                (record defaults { reason = some "cancelled before submit"; progress = some 5 }))
          clear_cancel job.id)
        else send job provider

  -- `try: m except ValueError: return`
  abbrev pub unless_value_error :
      Result Job × World P → Exec (World P) (Unit {0}) → Result (Unit {0}) × World P
  unless_value_error (ok _, w) rest = rest w
  unless_value_error (err value_error, w) rest = (ok tt, w)
  unless_value_error (err e, w) rest = (err e, w)

  abbrev pub submit_current : Job → ProviderAdapter P → Option Job → Exec (World P) (Unit {0})
  submit_current job provider none = pure tt
  submit_current job provider (some current) =
      if is_terminal current.status
      then pure tt
      else if same_status current.status cancelling || same_status current.status cancelled
      then (do
        on_db (
            set_job_status job.id cancelled
              (record defaults { reason = some "cancelled before submit" }))
        pure tt)
      else λ w.
          unless_value_error
            (on_db (set_job_status job.id submitting_remote (record defaults { progress = some 5 }))
              w)
            (send_unless_cancelled job provider)

  unfoldable pub submit_remote : Job → ProviderAdapter P → Exec (World P) (Unit {0})
  submit_remote job provider = do
    current ← on_db (get_job job.id)
    submit_current job provider current
