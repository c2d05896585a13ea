-- ===== src/Orchestrator/Traces/Submit.antt =====
-- The storage transactions of `_submit_remote`.
use suno_studio.Prelude.{String, ◌||◌, Option, none, some}
use suno_studio.Exec.{value_error, Result, ok, err, Exec}
use suno_studio.Models.{Job}
use suno_studio.Models.Values.{Fields}
use suno_studio.Models.Status.{cancelling, cancelled, submitting_remote, is_terminal, same_status}
use suno_studio.Adapters.{ProviderAdapter}
use suno_studio.Orchestrator.Runtime.{World}
use suno_studio.Orchestrator.Submit.{
  fail_job, submit_remote, send, send_asset, send_audio, send_unless_cancelled, submit_current,
  submitted, found_manifest, is_text, audio_asset, unless_value_error,
}
use suno_studio.Orchestrator.Traces.Rules.{
  Trace, Transacts, Transacts-lift, Transacts-bind, Transacts-if, Transacts-proceed,
  is_cancelled-Transacts, get_job-Transacts, set_job_status-Transacts, get_imported_asset-Transacts,
  rules,
}

module _ {P : Type 0} where
  pub fail_job-Transacts : (i reason : String) → Transacts (fail_job {P = P} i reason)
  unfolding fail_job
  fail_job-Transacts i reason = search rules

  submitted-Transacts : (i r : String) → Transacts (submitted {P = P} i r)
  submitted-Transacts i r = search rules

  send_audio-Transacts :
      (job : Job) (provider : ProviderAdapter P) (o : Option Fields)
      → Transacts (send_audio job provider o)
  send_audio-Transacts job provider none = fail_job-Transacts job.id "asset not found"
  send_audio-Transacts job provider (some m) = search (rules, Transacts-lift, submitted-Transacts)

  send_asset-Transacts :
      (job : Job) (provider : ProviderAdapter P) (o : Option String)
      → Transacts (send_asset job provider o)
  send_asset-Transacts job provider none = fail_job-Transacts job.id "missing audio asset"
  send_asset-Transacts job provider (some a) =
      Transacts-bind _ _ (get_imported_asset-Transacts a)
        (λ m. send_audio-Transacts job provider (found_manifest m))

  send-Transacts : (job : Job) (provider : ProviderAdapter P) → Transacts (send job provider)
  send-Transacts job provider =
      Transacts-if (is_text job) _ _ (search (rules, submitted-Transacts))
        (send_asset-Transacts job provider (audio_asset job))

  send_unless_cancelled-Transacts :
      (job : Job) (provider : ProviderAdapter P) → Transacts (send_unless_cancelled job provider)
  send_unless_cancelled-Transacts job provider =
      Transacts-bind _ _ (is_cancelled-Transacts job.id)
        (λ stop. Transacts-if stop _ _ (search rules) (send-Transacts job provider))

  -- `try: m except ValueError: return`, and then `rest`
  unless_value_error-Transacts :
      (w : World P) (r : Result Job × World P) (rest : Exec (World P) (Unit {0}))
      → Trace w.db r.1.db
      → Transacts rest
      → Trace w.db (unless_value_error r rest).1.db
  unless_value_error-Transacts w (ok a, v) rest t k =
      Transacts-proceed w (ok a, v) (λ _. rest) t (λ _. k)
  unless_value_error-Transacts w (err value_error, v) rest t k = t
  unless_value_error-Transacts w (err x, v) rest t k = t

  submit_current-Transacts :
      (job : Job) (provider : ProviderAdapter P) (o : Option Job)
      → Transacts (submit_current job provider o)
  submit_current-Transacts job provider none = search rules
  submit_current-Transacts job provider (some current) =
      Transacts-if (is_terminal current.status) _ _ (search rules) (
        Transacts-if (same_status current.status cancelling || same_status current.status cancelled)
          _ _ (search rules)
          (record {
            at = λ w.
                unless_value_error-Transacts w _ _
                  ((set_job_status-Transacts job.id submitting_remote _).at w)
                  (send_unless_cancelled-Transacts job provider);
          }))

  pub submit_remote-Transacts :
      (job : Job) (provider : ProviderAdapter P) → Transacts (submit_remote job provider)
  unfolding submit_remote
  submit_remote-Transacts job provider =
      Transacts-bind _ _ (get_job-Transacts job.id) (submit_current-Transacts job provider)
