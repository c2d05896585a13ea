-- ===== src/Orchestrator/ManualJobs.antt =====
-- bridge/services/job_service.py: a text job of the manual provider, from the queue to its handoff.
use suno_studio.Prelude.{ℕ, String, ◌≡◌, refl, ap, ◌∙◌, Bool, true, false, some, [], if◌then◌else◌}
use suno_studio.Exec.{ok, Exec, pure, ◌>>◌, ◌>>=◌}
use suno_studio.Models.{Job, JobType, text, audio}
use suno_studio.Models.Values.{Fields, field, obj, end, present}
use suno_studio.Models.Status.{
  JobStatus, queued_local, awaiting_manual_provider_submission, awaiting_manual_provider_result,
  may_become, is_terminal, is_in,
}
use suno_studio.Adapters.{ProviderAdapter}
use suno_studio.Storage.{defaults, set_job_status}
use suno_studio.Storage.Tables.{find_job}
use suno_studio.Orchestrator.Runtime.{World, Settings, done, on_db}
use suno_studio.Orchestrator.{run_job, is_manual}
use suno_studio.Orchestrator.Manual.{
  dict_of, manual_metadata, preparable, prepare_manual, prepare_with, prepare_current, prepare_text,
  prepare_audio, hand_off,
}
use suno_studio.Orchestrator.Submit.{is_text, audio_asset, lift}
use suno_studio.Orchestrator.Steps.{then_step, get_job-runs, set_job_status-Leads, metadata-Leads}
use suno_studio.Orchestrator.Rounds.{provider_step}
use suno_studio.Orchestrator.TextJobs.{chosen, run_job-chosen}

module _ {P : Type 0} (provider : ProviderAdapter P) (get_handoff : String → Exec P Fields) where
  -- The job of the row `c` waits for its result, and has this handoff.
  pub record IsHandedOff (c : Job) (handoff : Fields) (v : World P) : Type 0 where
    pub row : Job
    pub found : find_job c.id v.db.jobs ≡ some row
    pub status : row.status ≡ awaiting_manual_provider_result
    pub mode : row.provider_mode ≡ c.provider_mode
    pub metadata : row.provider_metadata ≡ field "handoff" (obj handoff) end

  hand_off-runs :
      (w : World P) (c : Job) (r : String) {d : Job} {handoff : Fields} {q : P}
      → find_job c.id w.db.jobs ≡ some d
      → d.status ≡ awaiting_manual_provider_submission
      → d.provider_mode ≡ c.provider_mode
      → get_handoff c.id w.provider_state ≡ (ok handoff, q)
      → (v : World P) × (hand_off c get_handoff r w ≡ (ok tt, v)) × IsHandedOff c handoff v
  unfolding may_become pure
  hand_off-runs w c r {d} {handoff} {q} there st mode given =
      let w2 : World P = record w { provider_state = q } in
      let m = metadata-Leads c.id w2 there (field "handoff" (obj handoff) end) in
      let l =
        set_job_status-Leads c.id m.after m.found awaiting_manual_provider_result
          (record defaults { remote_job_id = some r; progress = some 20 }) (rw st) in
      (
        l.after,
        then_step _ _ w (provider_step (get_handoff c.id) w given)
            ∙ then_step _ _ w2 m.runs
            ∙ then_step _ _ m.after l.runs,
        record { row = _; found = l.found; status = refl; mode = mode; metadata = refl },
      )

  -- `prepare_current`, by the tests that it makes.
  abbrev prepared : Job → JobStatus → Bool → Exec (World P) (Unit {0})
  prepared c status some_text =
      if is_terminal status
      then pure tt
      else if is_in status preparable
      then (do
        on_db (
            set_job_status c.id awaiting_manual_provider_submission
              (record defaults { progress = some 10 }))
        asked ← lift (dict_of c.payload.metadata)
        if some_text
            then prepare_text c provider get_handoff asked
            else prepare_audio c provider get_handoff asked (audio_asset c))
      else pure tt

  module _ (w : World P) (c : Job) {r : String} {handoff asked : Fields} {p q : P}
      (there : find_job c.id w.db.jobs ≡ some c) (st : c.status ≡ queued_local)
      (kind : c.type ≡ text) (known : dict_of c.payload.metadata ≡ ok asked)
      (sent : provider.submit_text_job c.id c.payload.prompt
          (obj (manual_metadata c asked))
          w.provider_state
        ≡ (ok r, p))
      (given : get_handoff c.id p ≡ (ok handoff, q)) where
    prepare_current-runs :
        (v : World P) × (prepare_current provider get_handoff (some c) w ≡ (ok tt, v))
        × IsHandedOff c handoff v
    unfolding may_become
    prepare_current-runs =
        let l =
          set_job_status-Leads c.id w there awaiting_manual_provider_submission
            (record defaults { progress = some 10 }) (rw st) in
        let w2 : World P = record l.after { provider_state = p } in
        let (v, runs, is) = hand_off-runs w2 c r l.found refl refl given in
        (
          v,
          ap (λ s. prepared c s (is_text c) w) st
              ∙ ap
                  (λ (k : JobType).
                    prepared c queued_local (elim k [ text ↦ true | audio ↦ false ]) w)
                  kind
              ∙ then_step _ _ w l.runs
              ∙ then_step _ _ l.after (ap (λ d. (d, l.after)) known)
              ∙ then_step _ _ l.after (provider_step _ l.after (rw l.provider sent))
              ∙ runs,
          is,
        )

    pub run_job-hands_off :
        (settings : Settings P) (fuel : ℕ)
        → provider.get_handoff ≡ some get_handoff
        → is_manual settings c.provider_mode ≡ true
        → settings.providers c.provider_mode ≡ some provider
        → (v : World P) × (run_job settings fuel c w ≡ (ok done, v)) × IsHandedOff c handoff v
    unfolding prepare_manual pure
    run_job-hands_off settings fuel hands manual known =
        let (v, runs, is) = prepare_current-runs in
        (
          v,
          run_job-chosen provider settings fuel [] w c known
              ∙ ap (λ b. chosen provider settings fuel [] c b (present c.remote_job_id) w) manual
              ∙ then_step _ _ w (
                  ap (λ o. prepare_with c provider o w) hands
                  ∙ then_step _ _ w (get_job-runs c.id w there)
                  ∙ runs),
          is,
        )
