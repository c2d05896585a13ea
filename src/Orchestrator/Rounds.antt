-- ===== src/Orchestrator/Rounds.antt =====
-- The rounds of the poll loop of Orchestrator/Poll.antt: which branch each answer of the provider
-- takes.
use suno_studio.Prelude.{
  ℕ, suc, ◌+◌, String, ◌≡◌, refl, ap, true, false, none, some, ltb, ◌⊎◌, inl, inr,
}
use suno_studio.Exec.{ok, Exec, ◌>>=◌, ◌>>◌}
use suno_studio.Models.{Job}
use suno_studio.Models.Status.{polling_remote}
use suno_studio.Adapters.{ProviderAdapter, ProviderPollResult}
use suno_studio.Storage.{defaults, StatusChange, set_job_status, get_job, update_job_runtime_fields}
use suno_studio.Orchestrator.Runtime.{
  World, Settings, Finish, sleep, on_db, on_provider, holds, is_cancelled,
}
use suno_studio.Orchestrator.Poll.{download, again, poll_round, poll_loop, on_answer, exhausted}

module _ {P : Type 0} (settings : Settings P) where
  -- The branch of a job that the provider is still working on.
  abbrev pub keep_waiting :
      String → (Job → Exec (World P) Finish) → ProviderPollResult → Exec (World P) Finish
  keep_waiting i next a = do
    on_db (
        update_job_runtime_fields i
          (record { progress = some a.progress; last_error = none; remote_job_id = none }))
    sleep settings.poll_interval
    refreshed ← on_db (get_job i)
    again refreshed next

  abbrev pub retry_change : ProviderPollResult → StatusChange
  retry_change a = record defaults {
    reason = some "retryable provider error";
    progress = some a.progress;
    last_error = a.retryable_error;
    attempts_increment = 1;
  }

  pub poll_loop-round :
      (provider : ProviderAdapter P) (fuel attempts : ℕ) (c : Job)
      → ltb attempts settings.max_attempts ≡ true
      → poll_loop settings (suc fuel) provider attempts c
        ≡ poll_round settings c provider
            (poll_loop settings fuel provider (attempts + 1) c)
            (poll_loop settings fuel provider attempts)
  unfolding poll_loop
  poll_loop-round provider fuel attempts c left =
      ap
        (λ b. elim b [
          | false ↦ exhausted c.id
          | true ↦
              poll_round settings c provider (poll_loop settings fuel provider (attempts + 1) c)
                (poll_loop settings fuel provider attempts)
        ])
        left

  pub poll_loop-exhausted :
      (provider : ProviderAdapter P) (fuel attempts : ℕ) (c : Job)
      → ltb attempts settings.max_attempts ≡ false
      → poll_loop settings (suc fuel) provider attempts c ≡ exhausted c.id
  unfolding poll_loop
  poll_loop-exhausted provider fuel attempts c over =
      ap
        (λ b. elim b [
          | false ↦ exhausted c.id
          | true ↦
              poll_round settings c provider (poll_loop settings fuel provider (attempts + 1) c)
                (poll_loop settings fuel provider attempts)
        ])
        over

  -- The branch of a job whose provider failed for the moment.
  abbrev pub note_retry :
      String → Exec (World P) Finish → ProviderPollResult → Exec (World P) Finish
  note_retry i retry a = do
    on_db (set_job_status i polling_remote (retry_change a))
    sleep settings.retry_backoff
    retry

  module _ (c : Job) (r : String) (provider : ProviderAdapter P) (retry : Exec (World P) Finish)
      (next : Job → Exec (World P) Finish) (a : ProviderPollResult) where
    pub answer-ready :
        a.state ≡ "ready"
        → (w : World P)
        → on_answer settings c provider r retry next a w ≡ download settings c.id r provider w
    answer-ready e w = rw e refl

    pub answer-waits :
        (a.state ≡ "queued") ⊎ (a.state ≡ "in_progress")
        → (w : World P)
        → on_answer settings c provider r retry next a w ≡ keep_waiting c.id next a w
    answer-waits (inl e) w = rw e refl
    answer-waits (inr e) w = rw e refl

    pub answer-retry :
        a.state ≡ "retryable_error"
        → (w : World P) → on_answer settings c provider r retry next a w ≡ note_retry c.id retry a w
    answer-retry e w = rw e refl

module _ {P : Type 0} where
  pub provider_step :
      {A : Type 0} (m : Exec P A) (w : World P) {a : A} {q : P}
      → m w.provider_state ≡ (ok a, q)
      → on_provider m w ≡ (ok a, record w { provider_state = q })
  unfolding on_provider
  provider_step m w e = rw e

  module _ (settings : Settings P) (i : String) (provider : ProviderAdapter P) (r : String)
      (c : Job) (id : c.id ≡ i) (remote : c.remote_job_id ≡ some r) where
    pub poll_round-answer :
        (retry : Exec (World P) Finish) (next : Job → Exec (World P) Finish) (w : World P)
        {a : ProviderPollResult} {q : P}
        → holds w.cancelled i ≡ false
        → provider.poll_job r w.provider_state ≡ (ok a, q)
        → poll_round settings c provider retry next w
          ≡ on_answer settings c provider r retry next a (record w { provider_state = q })
    unfolding poll_round is_cancelled on_provider ◌>>=◌
    poll_round-answer retry next w go asked = rw id (rw go (rw remote (rw asked)))
