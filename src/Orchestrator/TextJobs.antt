-- ===== src/Orchestrator/TextJobs.antt =====
-- bridge/services/job_service.py: a text job, from the queue to its outputs.
use suno_studio.Prelude.{
  ℕ, ◌<◌, String, ◌≡◌, refl, ap, subst, ◌∙◌, Bool, true, false, not, none, some, List, ltb,
  if◌then◌else◌, ◌==◌, ◌||◌, arith,
}
use suno_studio.Exec.{ok, Exec, pure, or_raise, ◌>>=◌, ◌>>◌, gets}
use suno_studio.Models.{Job, text}
use suno_studio.Models.Status.{
  JobStatus, is_terminal, same_status, cancelling, cancelled, queued_local, submitting_remote,
  polling_remote, may_become,
}
use suno_studio.Models.Values.{present}
use suno_studio.Adapters.{ProviderAdapter, ProviderOutput}
use suno_studio.Storage.{defaults, get_job, set_job_status}
use suno_studio.Storage.Tables.{find_job}
use suno_studio.Orchestrator.Manual.{prepare_manual}
use suno_studio.Storage.Find.{find_job-id}
use suno_studio.Orchestrator.Runtime.{
  World, Settings, Finish, done, on_db, holds, is_cancelled, provider_for,
}
use suno_studio.Orchestrator.{run_job, is_manual, poll_found}
use suno_studio.Orchestrator.Submit.{submit_remote, unless_value_error, send_unless_cancelled}
use suno_studio.Orchestrator.Poll.{poll_and_download, poll_loop}
use suno_studio.Orchestrator.Steps.{then_step, get_job-runs, set_job_status-Leads}
use suno_studio.Orchestrator.Rounds.{provider_step}
use suno_studio.Orchestrator.Completes.{IsCompleted, Ready, poll_loop-completes}

module _ {P : Type 0} (provider : ProviderAdapter P) where
  -- A job that has been sent to the provider under the remote id `r`.
  record IsSent (c : Job) (r : String) (q : P) (w v : World P) : Type 0 where
    row : Job
    found : find_job c.id v.db.jobs ≡ some row
    status : row.status ≡ polling_remote
    remote : row.remote_job_id ≡ some r
    attempts : row.attempts ≡ c.attempts
    cancelled : v.cancelled ≡ w.cancelled
    state : v.provider_state ≡ q

  send-sends :
      (w : World P) (c : Job) {d : Job} {r : String} {q : P}
      → find_job c.id w.db.jobs ≡ some d
      → d.status ≡ submitting_remote
      → d.attempts ≡ c.attempts
      → c.type ≡ text
      → holds w.cancelled c.id ≡ false
      → provider.submit_text_job c.id c.payload.prompt c.payload.metadata w.provider_state
        ≡ (ok r, q)
      → (v : World P) × (send_unless_cancelled c provider w ≡ (ok tt, v)) × IsSent c r q w v
  unfolding is_cancelled gets may_become pure
  send-sends w c {d} {r} {q} there st same kind go sent =
      let w2 : World P = record w { provider_state = q } in
      let l =
        set_job_status-Leads c.id w2 there polling_remote
          (record defaults { remote_job_id = some r; progress = some 10 }) (rw st) in
      (
        l.after,
        then_step _ _ w refl
            ∙ rw (go, kind) (then_step _ _ w (provider_step _ w sent) ∙ then_step _ _ w2 l.runs),
        record {
          row = _;
          found = l.found;
          status = refl;
          remote = refl;
          attempts = omega (arith, same);
          cancelled = l.cancelled;
          state = l.provider;
        },
      )

  -- `submit_current`, by the status that it tests.
  abbrev started : Job → JobStatus → Exec (World P) (Unit {0})
  started c status =
      if is_terminal status
      then pure tt
      else if same_status status cancelling || same_status status cancelled
      then (do
        on_db (
            set_job_status c.id cancelled
              (record defaults { reason = some "cancelled before submit" }))
        pure tt)
      else λ w.
          unless_value_error
            (on_db (set_job_status c.id submitting_remote (record defaults { progress = some 5 }))
              w)
            (send_unless_cancelled c provider)

  submit_remote-sends :
      (w : World P) (c : Job) {r : String} {q : P}
      → find_job c.id w.db.jobs ≡ some c
      → c.status ≡ queued_local
      → c.type ≡ text
      → holds w.cancelled c.id ≡ false
      → provider.submit_text_job c.id c.payload.prompt c.payload.metadata w.provider_state
        ≡ (ok r, q)
      → (v : World P) × (submit_remote c provider w ≡ (ok tt, v)) × IsSent c r q w v
  unfolding submit_remote may_become
  submit_remote-sends w c {r} {q} there st kind go sent =
      let l =
        set_job_status-Leads c.id w there submitting_remote (record defaults { progress = some 5 })
          (rw st) in
      let (v, runs, is) =
        send-sends l.after c l.found refl (omega arith) kind (rw l.cancelled go)
          (rw l.provider sent) in
      (
        v,
        then_step _ _ w (get_job-runs c.id w there)
            ∙ ap (λ x. started c x w) st
            ∙ ap (λ x. unless_value_error x (send_unless_cancelled c provider)) l.runs
            ∙ runs,
        record {
          row = is.row;
          found = is.found;
          status = is.status;
          remote = is.remote;
          attempts = is.attempts;
          cancelled = is.cancelled ∙ l.cancelled;
          state = is.state;
        },
      )

  module _ (settings : Settings P) (fuel : ℕ) (outputs : List ProviderOutput) where
    poll_and_download-completes :
        (n : ℕ) (w : World P) (d : Job) (r : String)
        → n < fuel
        → ltb d.attempts settings.max_attempts ≡ true
        → find_job d.id w.db.jobs ≡ some d
        → d.status ≡ polling_remote
        → d.remote_job_id ≡ some r
        → (r == "") ≡ false
        → holds w.cancelled d.id ≡ false
        → Ready settings d.id provider r outputs n w.provider_state
        → (v : World P) × (poll_and_download settings fuel d provider w ≡ (ok done, v))
          × IsCompleted settings d.id outputs v
    unfolding poll_and_download pure
    poll_and_download-completes n w d r enough left there st remote named go ready =
        let (v, runs, is) =
          poll_loop-completes settings d.id provider r outputs fuel n d.attempts w d enough left
            there st remote go ready in
        let live : (is_terminal d.status || not (present d.remote_job_id)) ≡ false =
          rw (st, remote, named) refl in
        (
          v,
          then_step _ _ w (get_job-runs d.id w there)
              ∙ ap (λ b. (if b then pure done else poll_loop settings fuel provider d.attempts d) w)
                  live
              ∙ runs,
          is,
        )

    -- `run_job`, by the two tests that it makes.
    abbrev pub chosen : Job → Bool → Bool → Exec (World P) Finish
    chosen c manual sent =
        if manual
        then (do prepare_manual c provider; pure done)
        else if sent
        then poll_and_download settings fuel c provider
        else (do
          submit_remote c provider
          again ← on_db (get_job c.id)
          poll_found settings fuel again provider)

    pub run_job-chosen :
        (w : World P) (c : Job)
        → settings.providers c.provider_mode ≡ some provider
        → run_job settings fuel c w
          ≡ chosen c (is_manual settings c.provider_mode) (present c.remote_job_id) w
    unfolding provider_for or_raise ◌>>=◌ pure
    run_job-chosen w c known = rw known

    -- The provider takes the job, and has its outputs after `n` polls.
    pub run_job-completes :
        (n : ℕ) (w : World P) (c : Job) {r : String} {q : P}
        → n < fuel
        → ltb c.attempts settings.max_attempts ≡ true
        → find_job c.id w.db.jobs ≡ some c
        → c.status ≡ queued_local
        → c.type ≡ text
        → c.remote_job_id ≡ none
        → is_manual settings c.provider_mode ≡ false
        → settings.providers c.provider_mode ≡ some provider
        → holds w.cancelled c.id ≡ false
        → provider.submit_text_job c.id c.payload.prompt c.payload.metadata w.provider_state
          ≡ (ok r, q)
        → (r == "") ≡ false
        → Ready settings c.id provider r outputs n q
        → (v : World P) × (run_job settings fuel c w ≡ (ok done, v))
          × IsCompleted settings c.id outputs v
    run_job-completes n w c {r} {q} enough left there st kind new auto known go sent named ready =
        let (u, runs, is) = submit_remote-sends w c there st kind go sent in
        let id = find_job-id c.id u.db.jobs is.found in
        let (v, rest, at_end) =
          poll_and_download-completes n u is.row r enough (rw is.attempts left) (rw id is.found)
            is.status is.remote named (rw (id, is.cancelled) go) (rw (id, is.state) ready) in
        (
          v,
          run_job-chosen w c known
              ∙ ap (λ b. chosen c b (present c.remote_job_id) w) auto
              ∙ ap (λ o. chosen c false (present o) w) new
              ∙ then_step _ _ w runs
              ∙ then_step _ _ u (get_job-runs c.id u is.found)
              ∙ rest,
          subst (λ k. IsCompleted settings k outputs v) id at_end,
        )
