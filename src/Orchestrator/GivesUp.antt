-- ===== src/Orchestrator/GivesUp.antt =====
-- bridge/services/job_service.py: _poll_and_download, for a provider that keeps failing.
use suno_studio.Prelude.{
  ℕ, zero, suc, ◌+◌, ◌-◌, ◌<◌, String, ◌≡◌, refl, ap, ◌∙◌, false, some, arith, subst, ltb, inl, inr,
  Bool-cases,
}
use suno_studio.Exec.{ok, Exec, pure}
use suno_studio.Models.{Job}
use suno_studio.Models.Status.{polling_remote, failed, may_become}
use suno_studio.Adapters.{ProviderAdapter, ProviderPollResult}
use suno_studio.Storage.{defaults, with_status}
use suno_studio.Storage.Tables.{find_job}
use suno_studio.Orchestrator.Runtime.{World, Settings, Finish, done, holds}
use suno_studio.Orchestrator.Poll.{poll_loop, exhausted}
use suno_studio.Orchestrator.Steps.{then_step, set_job_status-Leads, sleep-Leads}
use suno_studio.Orchestrator.Submit.{fail_job}
use suno_studio.Orchestrator.Rounds.{
  retry_change, note_retry, poll_loop-round, poll_loop-exhausted, answer-retry, poll_round-answer,
}

module _ {P : Type 0} (settings : Settings P) (i : String) (provider : ProviderAdapter P)
    (r : String) where
  -- Every poll of the job is answered by a retryable error.
  abbrev IsFailing : Type 0
  IsFailing =
      (p : P)
      → (a : ProviderPollResult) × (q : P) × (provider.poll_job r p ≡ (ok a, q))
        × (a.state ≡ "retryable_error")

  abbrev pub IsGivenUp : ℕ → World P → Type 0
  IsGivenUp n w =
      (b : Job) × (find_job i w.db.jobs ≡ some b)
      × (b.status ≡ failed)
      × (b.last_error ≡ some "retry attempts exhausted")
      × (b.attempts ≡ n)

  exhausted-IsGivenUp :
      (w : World P) {d : Job}
      → find_job i w.db.jobs ≡ some d
      → d.status ≡ polling_remote
      → (v : World P) × (exhausted i w ≡ (ok done, v)) × IsGivenUp d.attempts v
  unfolding exhausted fail_job may_become pure
  exhausted-IsGivenUp w there st =
      let l =
        set_job_status-Leads i w there failed
          (record defaults {
            reason = some "retry attempts exhausted";
            last_error = some "retry attempts exhausted";
          })
          (rw st) in
      (l.after, then_step _ _ w (then_step _ _ w l.runs), (_, l.found, refl, refl, ground arith))

  note_retry-goes_on :
      (w : World P) (a : ProviderPollResult) (retry : Exec (World P) Finish) {d : Job}
      → find_job i w.db.jobs ≡ some d
      → d.status ≡ polling_remote
      → (v : World P) × (note_retry settings i retry a w ≡ retry v)
        × (find_job i v.db.jobs
            ≡ some (with_status polling_remote (retry_change settings a) w.db.now d))
        × (v.cancelled ≡ w.cancelled)
  unfolding may_become
  note_retry-goes_on w a retry there st =
      let l = set_job_status-Leads i w there polling_remote (retry_change settings a) (rw st) in
      let s = sleep-Leads i l.after l.found settings.retry_backoff in
      (
        s.after,
        then_step _ _ w l.runs ∙ then_step _ _ l.after s.runs,
        s.found,
        s.cancelled ∙ l.cancelled,
      )

  -- A job that is polling, not cancelled, and whose provider answers every poll by a retryable error is
  -- failed with "retry attempts exhausted", and its count of attempts has gone up by the attempts that
  -- were left, as soon as there is fuel for one round more than that.
  pub poll_loop-gives_up :
      (fuel attempts : ℕ) (w : World P) (c : Job) {d : Job}
      → IsFailing
      → settings.max_attempts - attempts < fuel
      → c.id ≡ i
      → c.remote_job_id ≡ some r
      → find_job i w.db.jobs ≡ some d
      → d.status ≡ polling_remote
      → holds w.cancelled i ≡ false
      → (v : World P) × (poll_loop settings fuel provider attempts c w ≡ (ok done, v))
        × IsGivenUp (d.attempts + (settings.max_attempts - attempts)) v
  poll_loop-gives_up zero attempts w c failing enough id remote there st go = absurd (omega arith)
  poll_loop-gives_up (suc fuel) attempts w c {d} failing enough id remote there st go =
      elim (Bool-cases (ltb attempts settings.max_attempts)) [
        | inr over ↦
            let (v, runs, is) = exhausted-IsGivenUp w there st in
            (
              v,
              ap (λ m. m w) (poll_loop-exhausted settings provider fuel attempts c over)
                  ∙ ap (λ k. exhausted k w) id
                  ∙ runs,
              subst (λ n. IsGivenUp n v) (ground arith) is,
            )
        | inl left ↦
            let (a, q, asked, e) = failing w.provider_state in
            let w2 : World P = record w { provider_state = q } in
            let (v, runs, found, gone) =
              note_retry-goes_on w2 a (poll_loop settings fuel provider (attempts + 1) c) there
                st in
            let (u, rest, is) =
              poll_loop-gives_up fuel (attempts + 1) v c failing (ground arith) id remote found refl
                (rw gone go) in
            (
              u,
              ap (λ m. m w) (poll_loop-round settings provider fuel attempts c left)
                  ∙ poll_round-answer settings i provider r c id remote _ _ w go asked
                  ∙ answer-retry settings c r provider _ _ a e w2
                  ∙ ap
                      (λ k.
                        note_retry settings k (poll_loop settings fuel provider (attempts + 1) c) a
                          w2)
                      id
                  ∙ runs
                  ∙ rest,
              subst (λ n. IsGivenUp n u) (ground arith) is,
            )
      ]
