-- ===== src/Orchestrator/Turns.antt =====
-- bridge/services/job_service.py: a turn of the worker loop that takes a text job from the queue.
use suno_studio.Prelude.{
  ℕ, ◌<◌, String, ◌≡◌, refl, sym, ap, subst, ◌∙◌, true, false, none, some, List, [], ◌∷◌, ltb, ◌==◌,
  ◌++◌, if◌then◌else◌,
}
use suno_studio.Exec.{ok, Exec, gets, ◌>>◌, modify, or_raise, pure}
use suno_studio.Models.{Job, text}
use suno_studio.Models.Status.{
  JobStatus, created, queued_local, may_become, is_terminal, same_status,
}
use suno_studio.Adapters.{ProviderAdapter, ProviderOutput}
use suno_studio.Storage.{defaults, set_job_status, with_status}
use suno_studio.Storage.Tables.{Db, find_job}
use suno_studio.Storage.Find.{find_job-id}
use suno_studio.Orchestrator.Runtime.{
  World, Settings, done, holds, on_db, enqueue, take_first, dequeue,
}
use suno_studio.Orchestrator.{process_one, run_job, is_manual, enqueue_job}
use suno_studio.Orchestrator.Service.{worker_turn, serve, swallow}
use suno_studio.Orchestrator.Steps.{then_step, get_job-runs, set_job_status-Leads}
use suno_studio.Orchestrator.Completes.{IsCompleted, Ready}
use suno_studio.Orchestrator.Cancels.{process_found-runs}
use suno_studio.Orchestrator.TextJobs.{run_job-completes}

module _ {P : Type 0} (settings : Settings P) (i : String) where
  -- The row of a text job that a turn of the worker may send to the provider.
  pub record IsWaiting (provider : ProviderAdapter P) (c : Job) (w : World P) : Type 0 where
    pub found : find_job i w.db.jobs ≡ some c
    pub status : c.status ≡ queued_local
    pub kind : c.type ≡ text
    pub remote : c.remote_job_id ≡ none
    pub manual : is_manual settings c.provider_mode ≡ false
    pub known : settings.providers c.provider_mode ≡ some provider
    pub go : holds w.cancelled i ≡ false
    pub left : ltb c.attempts settings.max_attempts ≡ true

  -- A turn that takes a job which is in flight and not cancelled runs it.
  pub worker_turn-runs :
      (fuel : ℕ) (w : World P) (c : Job) (rest : List String) {v : World P}
      → w.queue ≡ i ∷ rest
      → (i == "") ≡ false
      → find_job i w.db.jobs ≡ some c
      → is_terminal c.status ≡ false
      → holds w.cancelled i ≡ false
      → run_job settings fuel c (record w { queue = rest }) ≡ (ok done, v)
      → worker_turn settings fuel w ≡ (done, v)
  unfolding worker_turn dequeue process_one
  worker_turn-runs fuel w c rest first name there live go runs =
      let taken : World P = record w { queue = rest } in
      let id = find_job-id i w.db.jobs there in
      ap (λ is. serve settings fuel (take_first w is)) first
      ∙ ap (λ b. if b then (done, taken) else swallow settings (process_one settings fuel i taken))
          name
      ∙ ap (swallow settings) (
          then_step _ _ taken (get_job-runs i taken there)
          ∙ process_found-runs settings fuel taken c live (rw id go)
          ∙ runs)

  pub worker_turn-completes :
      (provider : ProviderAdapter P) (outputs : List ProviderOutput) (fuel n : ℕ) (w : World P)
      (c : Job) (rest : List String) {r : String} {q : P}
      → n < fuel
      → w.queue ≡ i ∷ rest
      → (i == "") ≡ false
      → IsWaiting provider c w
      → provider.submit_text_job i c.payload.prompt c.payload.metadata w.provider_state ≡ (ok r, q)
      → (r == "") ≡ false
      → Ready settings i provider r outputs n q
      → (v : World P) × (worker_turn settings fuel w ≡ (done, v)) × IsCompleted settings i outputs v
  worker_turn-completes provider outputs fuel n w c rest {r} {q} enough first name h sent named
        ready =
      let id = find_job-id i w.db.jobs h.found in
      let (v, runs, is) =
        run_job-completes provider settings fuel outputs n (record w { queue = rest }) c {r = r}
          {q = q} enough h.left (subst (λ k. find_job k w.db.jobs ≡ some c) (sym id) h.found)
          h.status h.kind h.remote h.manual h.known (rw id h.go) (rw id sent) named (rw id ready) in
      (
        v,
        worker_turn-runs fuel w c rest first name h.found (ap is_terminal h.status) h.go runs,
        subst (λ k. IsCompleted settings k outputs v) id is,
      )

  on_db-queue : {A : Type 0} (m : Exec Db A) (w : World P) → (on_db {P = P} m w).1.queue ≡ w.queue
  unfolding on_db
  on_db-queue m w = refl

  -- A new job is put on the queue, and is QUEUED_LOCAL.
  pub record IsQueued (d : Job) (w v : World P) : Type 0 where
    pub found : find_job i v.db.jobs ≡ some d
    pub queue : v.queue ≡ w.queue ++ i ∷ []
    pub cancelled : v.cancelled ≡ w.cancelled
    pub provider_state : v.provider_state ≡ w.provider_state

  -- The row that is left.
  abbrev pub queued : Job → World P → Job
  queued c w = with_status queued_local (record defaults { progress = some 0 }) w.db.now c

  -- `enqueue_found`, by the status that it tests.
  abbrev queued_by : JobStatus → Exec (World P) (Unit {0})
  queued_by status = if is_terminal status then pure tt else do
    (if same_status status created
        then (do
          on_db (set_job_status i queued_local (record defaults { progress = some 0 }))
          pure tt)
        else pure tt)
    enqueue i

  pub enqueue_job-queues :
      (w : World P) (c : Job)
      → find_job i w.db.jobs ≡ some c
      → c.status ≡ created
      → (v : World P) × (enqueue_job settings i w ≡ (ok tt, v)) × IsQueued (queued c w) w v
  unfolding enqueue_job enqueue may_become modify pure gets or_raise
  enqueue_job-queues w c there st =
      let l =
        set_job_status-Leads i w there queued_local (record defaults { progress = some 0 })
          (rw st) in
      (
        record l.after { queue = l.after.queue ++ i ∷ [] },
        then_step _ _ w (get_job-runs i w there)
            ∙ ap (λ s. queued_by s w) st
            ∙ then_step _ _ w (then_step _ _ w l.runs),
        record {
          found = l.found;
          queue = ap (λ is. is ++ i ∷ []) (sym (ap (λ x. x.1.queue) l.runs) ∙ on_db-queue _ w);
          cancelled = l.cancelled;
          provider_state = l.provider;
        },
      )
