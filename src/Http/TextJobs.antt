-- ===== src/Http/TextJobs.antt =====
-- bridge/app.py and bridge/services/job_service.py: a text job, from the request that makes it to
-- its outputs.
use suno_studio.Models.Values.{obj}
use suno_studio.Prelude.{
  ℕ, ◌<◌, String, ◌≡◌, refl, ap, ◌∙◌, true, false, none, some, List, [], ◌∷◌, ltb, eq_refl, map,
  ◌==◌, ◌++◌,
}
use suno_studio.Exec.{ok, gets, pure}
use suno_studio.Models.{Job, text, ProviderMode, CreateJobRequest}
use suno_studio.Adapters.{ProviderAdapter, ProviderOutput}
use suno_studio.Storage.Tables.{find_job, violates, stored}
use suno_studio.Storage.Find.{find_job-append, find_job-id}
use suno_studio.Storage.Refines.{fresh_id}
use suno_studio.Storage.Updates.{create_job_idempotent-new}
use suno_studio.Orchestrator.Runtime.{World, Settings, done, holds, on_db}
use suno_studio.Orchestrator.{is_manual}
use suno_studio.Orchestrator.Service.{new_job, create_job, create_text_job, worker_turn}
use suno_studio.Orchestrator.Steps.{then_step, get_job-runs}
use suno_studio.Orchestrator.Completes.{Ready, path_of}
use suno_studio.Orchestrator.Turns.{
  IsQueued, IsWaiting, queued, enqueue_job-queues, worker_turn-completes,
}
use suno_studio.Storage.Rows.{status_value}
use suno_studio.Http.{parse_beta_provider_mode}
use suno_studio.Http.Responses.{JobStatusResponse, job_to_response}
use suno_studio.Http.Jobs.{TextJobCreateRequest, post_jobs_text, get_job_status, made}

module _ {P : Type 0} (settings : Settings P) (i : String) where
  abbrev request_of : TextJobCreateRequest → CreateJobRequest
  request_of payload = record {
    prompt = payload.prompt;
    client_request_id = payload.client_request_id;
    metadata = obj payload.metadata;
  }

  -- The row that a request asks for.
  abbrev pub asked : TextJobCreateRequest → ProviderMode → ℕ → Job
  asked payload mode now = new_job i now text (request_of payload) none mode

  find_job-inserted :
      (j : Job) (js : List Job)
      → violates j js ≡ false
      → find_job j.id (js ++ stored j ∷ []) ≡ some (stored j)
  unfolding find_job stored
  find_job-inserted j js h = find_job-append j.id js (stored j ∷ []) ∙ rw (fresh_id j js h, eq_refl)

  module _ (payload : TextJobCreateRequest) (mode : ProviderMode) (w : World P) where
    abbrev pub inserted : World P
    inserted = record w {
      db = record (w.db) { jobs = w.db.jobs ++ stored (asked payload mode w.db.now) ∷ [] };
    }

    create_text_job-creates :
        violates (asked payload mode w.db.now) w.db.jobs ≡ false
        → (v : World P) × (create_text_job settings i (request_of payload) mode w
            ≡ (ok (asked payload mode w.db.now, true), v))
          × IsQueued settings i
              (queued settings i (asked payload mode w.db.now) inserted)
              inserted
              v
    unfolding create_text_job create_job new_job stored on_db gets pure
    create_text_job-creates new =
        let j = asked payload mode w.db.now in
        let (v, runs, is) =
          enqueue_job-queues settings i inserted (stored j) (find_job-inserted j w.db.jobs new)
            refl in
        (
          v,
          then_step _ _ w refl
              ∙ then_step _ _ w (
                  ap (λ (x : _). (x.0, record w { db = x.1 }))
                    (create_job_idempotent-new j w.db new))
              ∙ then_step _ _ inserted runs,
          is,
        )

    pub post_jobs_text-creates :
        parse_beta_provider_mode payload.provider_mode ≡ ok mode
        → violates (asked payload mode w.db.now) w.db.jobs ≡ false
        → (v : World P) × (post_jobs_text settings i payload w
            ≡ (ok (made (asked payload mode w.db.now, true)), v))
          × IsQueued settings i
              (queued settings i (asked payload mode w.db.now) inserted)
              inserted
              v
    unfolding post_jobs_text pure
    post_jobs_text-creates parsed new =
        let (v, runs, is) = create_text_job-creates new in
        (v, then_step _ _ w (ap (λ r. (r, w)) parsed) ∙ then_step _ _ w runs, is)

    get_job_status-runs :
        (v : World P) {b : Job}
        → find_job i v.db.jobs ≡ some b
        → get_job_status i v ≡ (ok (job_to_response b), v)
    unfolding get_job_status pure
    get_job_status-runs v there = then_step _ _ v (get_job-runs i v there)

    -- What the two requests and the turn of the worker between them come to.
    abbrev pub IsServed : ℕ → List ProviderOutput → Type 0
    IsServed fuel outputs =
        (u : World P) × (v : World P) × (b : JobStatusResponse) × (post_jobs_text settings i payload
            w
          ≡ (ok (made (asked payload mode w.db.now, true)), u))
        × (worker_turn settings fuel u ≡ (done, v))
        × (get_job_status i v ≡ (ok b, v))
        × (b.id ≡ i)
        × (b.status ≡ "complete")
        × (b.progress ≡ 100)
        × (b.output_assets ≡ map (path_of settings i) outputs)

    -- POST /jobs/text for a new request, on a bridge whose queue is empty: suppose that the mode is one
    -- of the bridge's, that its provider is known and takes the job under a remote id that is not
    -- empty, and answers `n` polls that it is not done yet and then that its outputs are ready. Then
    -- the response says that the job was created, the next turn of the worker ends, given fuel for
    -- more than `n` rounds, and GET /jobs/{job_id} then shows the job under its id as complete, with
    -- progress 1.0 and the paths of the provider's outputs.
    pub post_jobs_text-IsServed :
        (provider : ProviderAdapter P) (outputs : List ProviderOutput) (fuel n : ℕ) {r : String}
        {q : P}
        → n < fuel
        → ltb 0 settings.max_attempts ≡ true
        → parse_beta_provider_mode payload.provider_mode ≡ ok mode
        → is_manual settings mode ≡ false
        → settings.providers mode ≡ some provider
        → (i == "") ≡ false
        → violates (asked payload mode w.db.now) w.db.jobs ≡ false
        → w.queue ≡ []
        → holds w.cancelled i ≡ false
        → provider.submit_text_job i payload.prompt (obj payload.metadata) w.provider_state
          ≡ (ok r, q)
        → (r == "") ≡ false
        → Ready settings i provider r outputs n q
        → IsServed fuel outputs
    unfolding new_job stored
    post_jobs_text-IsServed provider outputs fuel n {r} {q} enough left parsed auto known name new
          idle go sent named ready =
        let (u, runs, is) = post_jobs_text-creates parsed new in
        let waiting : IsWaiting settings i provider
            (queued settings i (asked payload mode w.db.now) inserted) u =
          record {
            found = is.found;
            status = refl;
            kind = refl;
            remote = refl;
            manual = auto;
            known = known;
            go = rw is.cancelled go;
            left = left;
          } in
        let (v, turns, (b, found, status, progress, outs)) =
          worker_turn-completes settings i provider outputs fuel n u _ [] {r = r} {q = q} enough
            (is.queue ∙ ap (λ is. is ++ i ∷ []) idle) name waiting (rw is.provider_state sent) named
            ready in
        (
          u,
          v,
          job_to_response b,
          runs,
          turns,
          get_job_status-runs v found,
          find_job-id i v.db.jobs found,
          ap status_value status,
          progress,
          outs,
        )
