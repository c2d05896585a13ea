-- ===== src/Http/ManualJobs.antt =====
-- bridge/app.py and bridge/services/job_service.py: a text job of the manual provider, from the
-- request that makes it to the files that the user brings back.
use Prim.Native.String
use suno_studio.Prelude.{
  ℕ, String, ◌≡◌, refl, ap, ◌∙◌, Bool, true, false, not, some, [], ◌∷◌, map, ◌==◌, ◌++◌,
  if◌then◌else◌,
}
use suno_studio.Exec.{ok, Exec, raise, pure, ◌>>=◌}
use suno_studio.Models.{Job, ProviderMode, manual_suno}
use suno_studio.Models.Values.{Fields, field, obj, str, end, get}
use suno_studio.Adapters.Manual.{workspace_for_job, handoff_of, requested_deliverables}
use suno_studio.Adapters.Registry.{Adapters}
use suno_studio.Adapters.HandsOff.{provider, handoffs, answer, submit_text_job-hands_off}
use suno_studio.Storage.{get_job}
use suno_studio.Storage.Rows.{status_value, mode_value}
use suno_studio.Storage.Tables.{find_job, violates, stored}
use suno_studio.Orchestrator.Runtime.{World, Settings, done, holds, on_db}
use suno_studio.Orchestrator.Manual.{manual_metadata, dict_of}
use suno_studio.Orchestrator.Service.{worker_turn, new_job}
use suno_studio.Orchestrator.Turns.{queued, worker_turn-runs}
use suno_studio.Orchestrator.Steps.{then_step, get_job-runs}
use suno_studio.Orchestrator.ManualJobs.{IsHandedOff, run_job-hands_off}
use suno_studio.Http.{bridge_err, Paths, parse_beta_provider_mode}
use suno_studio.Http.Responses.{JobStatusResponse, ManualHandoffResponse, job_to_response}
use suno_studio.Http.Jobs.{
  TextJobCreateRequest, post_jobs_text, get_job_handoff, made, truthy_or_none, handoff_response,
}
use suno_studio.Http.Jobs
use suno_studio.Http.Manual.{
  ManualForm, ImportedFile, all_files, any_files, requested, post_manual_complete,
}
use suno_studio.Http.Completes.{stored_files, post_manual_complete-completes}
use suno_studio.Http.TextJobs.{asked, inserted, post_jobs_text-creates}

module _ (settings : Settings Adapters) (root : String) (exists : String → Bool) (i : String)
    (paths : Paths) where
  module _ (payload : TextJobCreateRequest) (form : ManualForm) (w : World Adapters) where
    abbrev row : Job
    row =
        queued settings i (asked settings i payload manual_suno w.db.now)
          (inserted settings i payload manual_suno w)

    -- The dict of the handoff.
    abbrev handed : Fields
    handed = handoff_of i payload.prompt (manual_metadata row payload.metadata)

    worker_turn-hands_off :
        (fuel : ℕ) (u : World Adapters)
        → find_job i u.db.jobs ≡ some row
        → u.queue ≡ i ∷ []
        → (i == "") ≡ false
        → holds u.cancelled i ≡ false
        → settings.providers manual_suno ≡ some (provider root exists)
        → (v : World Adapters) × (worker_turn settings fuel u ≡ (done, v))
          × IsHandedOff
              (provider root exists)
              (handoffs root exists)
              row
              (answer root exists i payload.prompt (manual_metadata row payload.metadata))
              v
    unfolding new_job stored dict_of
    worker_turn-hands_off fuel u there queue name go known =
        let taken : World Adapters = record u { queue = [] } in
        let (t, sent, given) =
          submit_text_job-hands_off root exists i payload.prompt
            (manual_metadata row payload.metadata) u.provider_state in
        let (v, runs, is) =
          run_job-hands_off (provider root exists) (handoffs root exists) taken row there refl refl
            refl sent given settings fuel refl refl known in
        (v, worker_turn-runs settings i fuel u row [] queue name there refl go runs, is)

    -- `respond_handoff`, by the two fields that it tests.
    abbrev responded : Job → ProviderMode → Fields → Exec (World Adapters) ManualHandoffResponse
    responded b mode m =
        if not (Jobs.is_manual mode)
        then raise (
            bridge_err "INVALID_PROVIDER_MODE" "Handoff only exists for manual_suno jobs."
              (field "providerMode" (str (mode_value mode)) end))
        else if truthy_or_none (get m "handoff")
        then handoff_response b (get m "handoff")
        else raise (
            bridge_err "HANDOFF_NOT_READY" "Manual handoff package has not been prepared yet."
              (field "jobId" (str i) end))

    abbrev shown : Job → ManualHandoffResponse
    shown b = record {
      job_id = b.id;
      provider_mode = mode_value b.provider_mode;
      workspace = workspace_for_job root exists i;
      instructions_path = String.◌++◌ (workspace_for_job root exists i) "/README.md";
      handoff = handed;
    }

    get_job_handoff-shows :
        (v : World Adapters) (b : Job)
        → find_job i v.db.jobs ≡ some b
        → b.provider_mode ≡ manual_suno
        → b.provider_metadata
          ≡ field "handoff"
              (obj (answer root exists i payload.prompt (manual_metadata row payload.metadata)))
              end
        → get_job_handoff i v ≡ (ok (shown b), v)
    unfolding get_job_handoff pure ◌>>=◌
    get_job_handoff-shows v b there mode metadata =
        then_step (on_db (get_job i)) (Jobs.respond_handoff i) v (get_job-runs i v there)
        ∙ ap (λ m. responded b m b.provider_metadata v) mode
        ∙ ap (λ m. responded b manual_suno m v) metadata

    -- What the three requests and the turn of the worker come to.
    abbrev pub IsDelivered : ℕ → Type 0
    IsDelivered fuel =
        (u : World Adapters) × (v : World Adapters) × (x : World Adapters)
        × (h : ManualHandoffResponse) × (b : JobStatusResponse) × (post_jobs_text settings i payload
              w
            ≡ (ok (made (asked settings i payload manual_suno w.db.now, true)), u))
        × (worker_turn settings fuel u ≡ (done, v))
        × (get_job_handoff i v ≡ (ok h, v))
        × (h.workspace ≡ workspace_for_job root exists i)
        × (get h.handoff "prompt" ≡ some (str payload.prompt))
        × (post_manual_complete settings paths i form v ≡ (ok b, x))
        × (b.status ≡ "complete")
        × (b.output_assets
            ≡ map (λ (f : ImportedFile). f.path) (stored_files settings paths i (all_files form)))

    -- POST /jobs/text for a new request of the manual provider, on a bridge whose queue is empty: the
    -- response says that the job was created, the next turn of the worker ends, and GET
    -- /jobs/{job_id}/handoff then shows the folder of the job and a handoff with the prompt. A request
    -- to manual-complete with a file at least, as the next one, ends with the job complete, and its
    -- outputs are the paths of the files.
    pub post_jobs_text-IsDelivered :
        (fuel : ℕ)
        → parse_beta_provider_mode payload.provider_mode ≡ ok manual_suno
        → settings.providers manual_suno ≡ some (provider root exists)
        → (i == "") ≡ false
        → violates (asked settings i payload manual_suno w.db.now) w.db.jobs ≡ false
        → w.queue ≡ []
        → holds w.cancelled i ≡ false
        → any_files (all_files form) ≡ true
        → IsDelivered fuel
    unfolding handoff_of new_job stored
    post_jobs_text-IsDelivered fuel parsed known name new idle go some_file =
        let (u, runs, is) = post_jobs_text-creates settings i payload manual_suno w parsed new in
        let (v, turns, off) =
          worker_turn-hands_off fuel u is.found (is.queue ∙ ap (λ is. is ++ i ∷ []) idle) name
            (rw is.cancelled go) known in
        let (x, b, ends, found, now, all, kept) =
          post_manual_complete-completes settings paths i form v {c = off.row}
            {asked = obj (requested_deliverables (manual_metadata row payload.metadata))} off.found
            off.mode off.status some_file (unfold requested in rw off.metadata refl) in
        (
          u,
          v,
          x,
          shown off.row,
          job_to_response b,
          runs,
          turns,
          get_job_handoff-shows v off.row off.found off.mode off.metadata,
          refl,
          refl,
          ends,
          ap status_value now,
          kept,
        )
