-- ===== src/Orchestrator/Traces/Manual.antt =====
-- The storage transactions of `_prepare_manual`.
use suno_studio.Prelude.{String, Option, none, some}
use suno_studio.Exec.{Exec}
use suno_studio.Models.{Job}
use suno_studio.Models.Values.{Fields}
use suno_studio.Models.Status.{is_terminal, is_in}
use suno_studio.Adapters.{ProviderAdapter}
use suno_studio.Orchestrator.Submit.{found_manifest, is_text, audio_asset}
use suno_studio.Orchestrator.Manual.{
  preparable, hand_off, prepare_found, prepare_audio, prepare_text, prepare_current, prepare_with,
  prepare_manual,
}
use suno_studio.Orchestrator.Traces.Submit.{fail_job-Transacts}
use suno_studio.Orchestrator.Traces.Rules.{
  Transacts, Transacts-lift, Transacts-bind, Transacts-if, get_job-Transacts,
  get_imported_asset-Transacts, set_job_status-Transacts, rules,
}

module _ {P : Type 0} where
  hand_off-Transacts :
      (job : Job) (get_handoff : String → Exec P Fields) (r : String)
      → Transacts (hand_off job get_handoff r)
  hand_off-Transacts job get_handoff r = search rules

  module _ (current : Job) (provider : ProviderAdapter P)
      (get_handoff : String → Exec P Fields) where
    prepare_found-Transacts :
        (given : Fields) (a : String) (o : Option Fields)
        → Transacts (prepare_found current provider get_handoff given a o)
    prepare_found-Transacts given a none = fail_job-Transacts current.id "asset not found"
    prepare_found-Transacts given a (some m) = search (rules, Transacts-lift, hand_off-Transacts)

    prepare_audio-Transacts :
        (given : Fields) (o : Option String)
        → Transacts (prepare_audio current provider get_handoff given o)
    prepare_audio-Transacts given none = fail_job-Transacts current.id "missing audio asset"
    prepare_audio-Transacts given (some a) =
        Transacts-bind _ _ (get_imported_asset-Transacts a)
          (λ m. prepare_found-Transacts given a (found_manifest m))

    prepare_text-Transacts :
        (given : Fields) → Transacts (prepare_text current provider get_handoff given)
    prepare_text-Transacts given = search (rules, hand_off-Transacts)

  module _ (provider : ProviderAdapter P) where
    prepare_current-Transacts :
        (get_handoff : String → Exec P Fields) (o : Option Job)
        → Transacts (prepare_current provider get_handoff o)
    prepare_current-Transacts get_handoff none = search rules
    prepare_current-Transacts get_handoff (some c) =
        Transacts-if (is_terminal c.status) _ _ (search rules) (
          Transacts-if (is_in c.status preparable) _ _
            (Transacts-bind _ _ (set_job_status-Transacts c.id _ _) (λ _.
              Transacts-bind _ _ (Transacts-lift _) (λ given.
                Transacts-if (is_text c) _ _ (prepare_text-Transacts c provider get_handoff given)
                  (prepare_audio-Transacts c provider get_handoff given (audio_asset c)))))
            (search rules))

    prepare_with-Transacts :
        (job : Job) (o : Option (String → Exec P Fields)) → Transacts (prepare_with job provider o)
    prepare_with-Transacts job none = fail_job-Transacts job.id "manual provider not configured"
    prepare_with-Transacts job (some h) =
        Transacts-bind _ _ (get_job-Transacts job.id) (prepare_current-Transacts h)

    pub prepare_manual-Transacts : (job : Job) → Transacts (prepare_manual job provider)
    unfolding prepare_manual
    prepare_manual-Transacts job = prepare_with-Transacts job provider.get_handoff
