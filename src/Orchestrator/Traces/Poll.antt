-- ===== src/Orchestrator/Traces/Poll.antt =====
-- The storage transactions of `_poll_and_download`.
use suno_studio.Prelude.{
  refl, Bool, ℕ, zero, suc, ◌+◌, String, true, false, not, ◌||◌, Option, none, some, List, [], ◌∷◌,
  ltb, ◌==◌,
}
use suno_studio.Exec.{Exec}
use suno_studio.Models.{Job}
use suno_studio.Models.Values.{present}
use suno_studio.Models.Status.{is_terminal}
use suno_studio.Storage.Ops.{run_ops}
use suno_studio.Adapters.{ProviderAdapter, ProviderOutput, ProviderPollResult}
use suno_studio.Orchestrator.Runtime.{World, Settings, Finish, store_download, keep_file}
use suno_studio.Orchestrator.Poll.{
  store_outputs, download, stop_polling, again, on_answer, remote_of, poll_round, exhausted,
  poll_loop, poll_current, poll_and_download,
}
use suno_studio.Orchestrator.Traces.Submit.{fail_job-Transacts}
use suno_studio.Orchestrator.Traces.Rules.{
  Transacts, Transacts-on_provider, Transacts-bind, Transacts-if, get_job-Transacts,
  is_cancelled-Transacts, rules,
}

module _ {P : Type 0} (settings : Settings P) where
  keep_file-Transacts : (p : String) (c : List ℕ) (b : Bool) → Transacts (keep_file {P = P} p c b)
  unfolding keep_file run_ops
  keep_file-Transacts p c b = record { at = λ w. ([], tt, refl) }

  pub store_download-Transacts :
      (i v : String) (c : List ℕ) (ext : String) → Transacts (store_download settings i v c ext)
  unfolding store_download
  store_download-Transacts i v c ext = search (rules, keep_file-Transacts)

  store_outputs-Transacts :
      (i : String) (os : List ProviderOutput) → Transacts (store_outputs settings i os)
  unfolding store_outputs
  store_outputs-Transacts i [] = search rules
  store_outputs-Transacts i (o ∷ os) =
      Transacts-bind _ _ (store_download-Transacts i o.variant o.content o.extension)
        (λ stored. Transacts-bind _ _ (store_outputs-Transacts i os) (λ rest. search rules))

  download-Transacts :
      (i r : String) (provider : ProviderAdapter P) → Transacts (download settings i r provider)
  unfolding download
  download-Transacts i r provider = search (rules, store_outputs-Transacts) depth 9

  stop_polling-Transacts :
      (c : Job) (r : String) (provider : ProviderAdapter P) → Transacts (stop_polling c r provider)
  unfolding stop_polling
  stop_polling-Transacts c r provider = search rules depth 7

  again-Transacts :
      (o : Option Job) (next : Job → Exec (World P) Finish)
      → ((c : Job) → Transacts (next c))
      → Transacts (again o next)
  again-Transacts none next h = search rules
  again-Transacts (some c) next h = h c

  module _ (current : Job) (provider : ProviderAdapter P) (retry : Exec (World P) Finish)
      (next : Job → Exec (World P) Finish) (h : Transacts retry)
      (k : (c : Job) → Transacts (next c)) where
    on_answer-Transacts :
        (r : String) (poll : ProviderPollResult)
        → Transacts (on_answer settings current provider r retry next poll)
    on_answer-Transacts r poll = Transacts-if (poll.state == "retryable_error") _ _ (search rules) (
        Transacts-if (poll.state == "queued" || poll.state == "in_progress") _ _
          (search (rules, again-Transacts))
          (Transacts-if (poll.state == "cancelled") _ _ (search rules) (
            Transacts-if (poll.state == "ready") _ _ (download-Transacts current.id r provider)
              (search rules))))

    poll_round-Transacts : Transacts (poll_round settings current provider retry next)
    unfolding poll_round
    poll_round-Transacts = Transacts-bind _ _ (is_cancelled-Transacts current.id) (λ stop.
        Transacts-if stop _ _ (stop_polling-Transacts current (remote_of current) provider) (
          Transacts-bind _ _ (Transacts-on_provider (provider.poll_job (remote_of current)))
            (on_answer-Transacts (remote_of current))))

  poll_loop-Transacts :
      (fuel : ℕ) (provider : ProviderAdapter P) (attempts : ℕ) (current : Job)
      → Transacts (poll_loop settings fuel provider attempts current)
  unfolding poll_loop
  poll_loop-Transacts zero provider attempts current = search rules
  poll_loop-Transacts (suc fuel) provider attempts current =
      within (ltb attempts settings.max_attempts) (
        poll_round-Transacts current provider _ _
          (poll_loop-Transacts fuel provider (attempts + 1) current)
          (poll_loop-Transacts fuel provider attempts))
    where
      within :
          (b : Bool) {m : Exec (World P) Finish}
          → Transacts m
          → Transacts {P = P} {A = Finish} (elim b [ false ↦ exhausted current.id | true ↦ m ])
      within true h = h
      within false h = unfold exhausted in search (rules, fail_job-Transacts)

  poll_current-Transacts :
      (fuel : ℕ) (provider : ProviderAdapter P) (o : Option Job)
      → Transacts (poll_current settings fuel provider o)
  poll_current-Transacts fuel provider none = search rules
  poll_current-Transacts fuel provider (some c) =
      Transacts-if (is_terminal c.status || not (present c.remote_job_id)) _ _ (search rules)
        (poll_loop-Transacts fuel provider c.attempts c)

  pub poll_and_download-Transacts :
      (fuel : ℕ) (job : Job) (provider : ProviderAdapter P)
      → Transacts (poll_and_download settings fuel job provider)
  unfolding poll_and_download
  poll_and_download-Transacts fuel job provider =
      Transacts-bind _ _ (get_job-Transacts job.id) (poll_current-Transacts fuel provider)
