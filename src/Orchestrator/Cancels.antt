-- ===== src/Orchestrator/Cancels.antt =====
-- bridge/services/job_service.py: process_one, for a job whose cancellation was requested, and for a
-- job that is still CREATED.
use suno_studio.Prelude.{
  ℕ, String, ◌≡◌, refl, sym, ap, ◌∙◌, true, false, Option, none, some, List, [], ◌∷◌, arith, inl,
  inr, Bool-cases, subst, ◌==◌, if◌then◌else◌,
}
use suno_studio.Exec.{Exec, ok, ◌>>◌, ◌>>=◌, pure, gets, or_raise, modify}
use suno_studio.Models.{Job, ProviderMode, mock_suno}
use suno_studio.Models.Status.{
  JobStatus, created, cancelled, submitting_remote, is_terminal, may_become,
}
use suno_studio.Models.Values.{present}
use suno_studio.Orchestrator.Manual.{prepare_manual}
use suno_studio.Adapters.{ProviderAdapter}
use suno_studio.Storage.{defaults, get_job}
use suno_studio.Storage.Tables.{find_job}
use suno_studio.Storage.Find.{find_job-id}
use suno_studio.Storage.Updates.{set_job_status-invalid}
use suno_studio.Orchestrator.Runtime.{
  World, Settings, Finish, done, on_db, holds, without, clear_cancel, is_cancelled, provider_for,
}
use suno_studio.Orchestrator.{
  process_one, process_found, cancel_first, run_job, is_manual, poll_found,
}
use suno_studio.Orchestrator.Submit.{submit_remote}
use suno_studio.Orchestrator.Poll.{poll_and_download}
use suno_studio.Orchestrator.Steps.{then_step, get_job-runs, set_job_status-Leads}

-- Every status that is not terminal may become cancelled.
cancelled-is_allowed : (s : JobStatus) → is_terminal s ≡ false → may_become s cancelled ≡ true
unfolding may_become
cancelled-is_allowed s h = ground arith

holds-without : (i : String) (is : List String) → holds (without i is) i ≡ false
unfolding without
holds-without i [] = refl
holds-without i (k ∷ ks) = elim (Bool-cases (k == i)) [
  | inl y ↦ rw y (holds-without i ks)
  | inr n ↦ rw n (rw n (holds-without i ks))
]

module _ {P : Type 0} (settings : Settings P) (fuel : ℕ) where
  clear_cancel-runs :
      (i : String) (w : World P)
      → clear_cancel i w ≡ (ok tt, record w { cancelled = without i w.cancelled })
  unfolding clear_cancel modify gets or_raise ◌>>=◌ pure
  clear_cancel-runs i w = refl

  -- The job of the row `a` is cancelled, and its request and its provider are done with.
  abbrev pub IsStopped : World P → String → Job → World P → Type 0
  IsStopped w i a v =
      (b : Job) × (find_job i v.db.jobs ≡ some b)
      × (b.status ≡ cancelled)
      × (b.progress ≡ a.progress)
      × (holds v.cancelled i ≡ false)
      × (v.provider_state ≡ w.provider_state)

  cancel_first-stops :
      (w : World P) (a : Job)
      → find_job a.id w.db.jobs ≡ some a
      → is_terminal a.status ≡ false
      → (v : World P) × (cancel_first settings a w ≡ (ok done, v)) × IsStopped w a.id a v
  unfolding pure
  cancel_first-stops w a there live =
      let l =
        set_job_status-Leads a.id w there cancelled
          (record defaults {
            reason = some "cancelled before processing";
            progress = some a.progress;
          })
          (cancelled-is_allowed a.status live) in
      (
        record l.after { cancelled = without a.id l.after.cancelled },
        then_step _ _ w l.runs ∙ then_step _ _ l.after (clear_cancel-runs a.id l.after),
        (_, l.found, refl, refl, holds-without a.id l.after.cancelled, l.provider),
      )

  process_found-stops :
      (w : World P) (a : Job)
      → is_terminal a.status ≡ false
      → holds w.cancelled a.id ≡ true
      → process_found settings fuel (some a) w ≡ cancel_first settings a w
  unfolding is_cancelled gets ◌>>=◌
  process_found-stops w a live stop = rw (live, stop)

  -- A job that is in flight, and whose cancellation has been requested, is cancelled by the worker
  -- that processes it, whatever its status: its progress is kept, the request is cleared from the
  -- registry, and the provider is not called.
  pub process_one-cancels :
      (i : String) (w : World P) {a : Job}
      → find_job i w.db.jobs ≡ some a
      → is_terminal a.status ≡ false
      → holds w.cancelled i ≡ true
      → (v : World P) × (process_one settings fuel i w ≡ (ok done, v)) × IsStopped w i a v
  unfolding process_one
  process_one-cancels i w {a} there live stop =
      let id = find_job-id i w.db.jobs there in
      let of_row : (v : World P) × (cancel_first settings a w ≡ (ok done, v)) × IsStopped w i a v =
        subst (λ k. (v : World P) × (cancel_first settings a w ≡ (ok done, v)) × IsStopped w k a v)
          id
          (cancel_first-stops w a (subst (λ k. find_job k w.db.jobs ≡ some a) (sym id) there)
            live) in
      let (v, runs, is) = of_row in
      (
        v,
        then_step _ _ w (get_job-runs i w there) ∙ process_found-stops w a live (rw id stop) ∙ runs,
        is,
      )

  pub process_found-runs :
      (w : World P) (a : Job)
      → is_terminal a.status ≡ false
      → holds w.cancelled a.id ≡ false
      → process_found settings fuel (some a) w ≡ run_job settings fuel a w
  unfolding is_cancelled gets ◌>>=◌
  process_found-runs w a live go = rw (live, go)

  submit_remote-stuck :
      (w : World P) (a : Job) (provider : ProviderAdapter P)
      → find_job a.id w.db.jobs ≡ some a
      → a.status ≡ created
      → submit_remote a provider w ≡ (ok tt, w)
  unfolding submit_remote may_become on_db pure
  submit_remote-stuck w a provider there st =
      then_step _ _ w (get_job-runs a.id w there)
      ∙ rw st (
          rw (
            set_job_status-invalid a.id submitting_remote (record defaults { progress = some 5 })
              w.db there (rw st)))

  poll_and_download-stuck :
      (w : World P) (a : Job) (provider : ProviderAdapter P)
      → find_job a.id w.db.jobs ≡ some a
      → a.remote_job_id ≡ none
      → poll_and_download settings fuel a provider w ≡ (ok done, w)
  unfolding poll_and_download pure
  poll_and_download-stuck w a provider there remote =
      then_step _ _ w (get_job-runs a.id w there)
      ∙ elim (Bool-cases (is_terminal a.status)) [ inl y ↦ rw y | inr n ↦ rw (n, remote) ]

  provider_for-runs :
      (w : World P) (a : Job) (provider : ProviderAdapter P)
      → a.provider_mode ≡ mock_suno
      → settings.providers mock_suno ≡ some provider
      → provider_for settings a w ≡ (ok provider, w)
  unfolding provider_for or_raise
  provider_for-runs w a provider mode known = rw (mode, known)

  -- `run_job`, once the provider is known, by the provider mode and the remote id.
  abbrev run_by : Job → ProviderAdapter P → ProviderMode → Option String → Exec (World P) Finish
  run_by job provider mode remote =
      if is_manual settings mode
      then (do prepare_manual job provider; pure done)
      else if present remote
      then poll_and_download settings fuel job provider
      else (do
        submit_remote job provider
        again ← on_db (get_job job.id)
        poll_found settings fuel again provider)

  run_job-stuck :
      (w : World P) (a : Job) (provider : ProviderAdapter P)
      → find_job a.id w.db.jobs ≡ some a
      → a.status ≡ created
      → a.provider_mode ≡ mock_suno
      → a.remote_job_id ≡ none
      → settings.providers mock_suno ≡ some provider
      → run_job settings fuel a w ≡ (ok done, w)
  run_job-stuck w a provider there st mode remote known =
      then_step _ _ w (provider_for-runs w a provider mode known)
      ∙ ap (λ m. run_by a provider m a.remote_job_id w) mode
      ∙ ap (λ r. run_by a provider mock_suno r w) remote
      ∙ then_step _ _ w (submit_remote-stuck w a provider there st)
      ∙ then_step _ _ w (get_job-runs a.id w there)
      ∙ poll_and_download-stuck w a provider there remote

  -- A job that is still CREATED when the worker processes it, without a remote id, for the mock
  -- provider and not cancelled, is left as it is, and so is the rest of the world: this is what becomes
  -- of a job that `recover_inflight_jobs` puts on the queue before `enqueue_job` has.
  pub process_one-stuck :
      (i : String) (w : World P) {a : Job} (provider : ProviderAdapter P)
      → find_job i w.db.jobs ≡ some a
      → a.status ≡ created
      → a.provider_mode ≡ mock_suno
      → a.remote_job_id ≡ none
      → settings.providers mock_suno ≡ some provider
      → holds w.cancelled i ≡ false
      → process_one settings fuel i w ≡ (ok done, w)
  unfolding process_one
  process_one-stuck i w {a} provider there st mode remote known go =
      let id = find_job-id i w.db.jobs there in
      then_step _ _ w (get_job-runs i w there)
      ∙ process_found-runs w a (rw st) (rw id go)
      ∙ run_job-stuck w a provider (subst (λ k. find_job k w.db.jobs ≡ some a) (sym id) there) st
          mode remote known
