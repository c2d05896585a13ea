-- ===== src/Orchestrator/Completes.antt =====
-- bridge/services/job_service.py: _poll_and_download, for a provider that gets ready.
use suno_studio.Prelude.{
  ℕ, zero, suc, ◌+◌, ◌<◌, String, ◌≡◌, refl, ap, ◌∙◌, Bool, true, false, none, some, List, [], ◌∷◌,
  map, arith, ltb, ◌⊎◌, inl, inr, Bool-cases,
}
use suno_studio.Exec.{ok, Exec, pure, ◌>>=◌}
use suno_studio.Models.{Job}
use suno_studio.Models.Values.{Items, nil, arr, obj, field, end}
use suno_studio.Models.Status.{polling_remote, downloading, complete, may_become}
use suno_studio.Adapters.{ProviderAdapter, ProviderOutput, ProviderPollResult}
use suno_studio.Storage.{defaults}
use suno_studio.Storage.Tables.{find_job}
use suno_studio.Storage.Find.{find_job-id}
use suno_studio.Storage.Downloads.{
  is_recorded, with_download, record_downloaded_asset-new, record_downloaded_asset-known,
}
use suno_studio.Orchestrator.Runtime.{
  World, Settings, Finish, done, on_db, holds, download_path, store_download, keep_file,
}
use suno_studio.Orchestrator.Poll.{store_outputs, download, again, poll_loop, on_answer}
use suno_studio.Orchestrator.Steps.{
  then_step, Leads, get_job-Leads, set_job_status-Leads, runtime-Leads, artifacts-Leads,
  sleep-Leads, pure-Leads, Leads-bind,
}
use suno_studio.Orchestrator.Rounds.{
  keep_waiting, poll_loop-round, answer-ready, answer-waits, provider_step, poll_round-answer,
}

module _ {P : Type 0} (settings : Settings P) (i : String) where
  -- The path of an output.
  abbrev pub path_of : ProviderOutput → String
  path_of o = download_path settings i o.variant o.content o.extension

  -- Storing a file changes no job, and returns its path.
  pub store_download-Leads :
      (o : ProviderOutput) (w : World P) {c : Job}
      → find_job i w.db.jobs ≡ some c
      → (new : Bool) × Leads i
          (store_download settings i o.variant o.content o.extension)
          w
          (path_of o, new)
          c
  unfolding store_download keep_file on_db ◌>>=◌
  store_download-Leads o w there =
      elim (Bool-cases (is_recorded i o.variant (settings.sha256 o.content) w.db)) [
        | inl y ↦ (
          false,
          record {
            after = w;
            runs = rw (
                record_downloaded_asset-known i o.variant (settings.sha256 o.content) (path_of o)
                  w.db y);
            found = there;
            cancelled = refl;
            provider = refl;
          },
        )
        | inr n ↦ (
          true,
          record {
            after = record w {
              db = with_download i o.variant (settings.sha256 o.content) (path_of o) w.db;
              files = (path_of o, o.content) ∷ w.files;
            };
            runs = rw (
                record_downloaded_asset-new i o.variant (settings.sha256 o.content) (path_of o) w.db
                  n);
            found = there;
            cancelled = refl;
            provider = refl;
          },
        )
      ]

  store_outputs-Leads :
      (os : List ProviderOutput) (w : World P) {c : Job}
      → find_job i w.db.jobs ≡ some c
      → (files : Items) × Leads i (store_outputs settings i os) w (files, map path_of os) c
  unfolding store_outputs
  store_outputs-Leads [] w there = (nil, pure-Leads i w there _)
  store_outputs-Leads (o ∷ os) w {c} there =
      let (new, l) = store_download-Leads o w there in
      let (files, k) = store_outputs-Leads os l.after l.found in
      (_, Leads-bind i _ l (Leads-bind i _ k (pure-Leads i k.after k.found _)))

  -- A job that the provider is done with.
  abbrev pub IsCompleted : List ProviderOutput → World P → Type 0
  IsCompleted outputs w =
      (b : Job) × (find_job i w.db.jobs ≡ some b)
      × (b.status ≡ complete)
      × (b.progress ≡ 100)
      × (b.output_assets ≡ map path_of outputs)

  module _ (provider : ProviderAdapter P) (r : String) (outputs : List ProviderOutput) where
    download-completes :
        (w : World P) {c : Job} {q : P}
        → find_job i w.db.jobs ≡ some c
        → c.status ≡ polling_remote
        → provider.download_outputs r w.provider_state ≡ (ok outputs, q)
        → (v : World P) × (download settings i r provider w ≡ (ok done, v)) × IsCompleted outputs v
    unfolding download may_become pure
    download-completes w {c} {q} there st gives =
        let l =
          set_job_status-Leads i w there downloading (record defaults { progress = some 95 })
            (rw st) in
        let w2 : World P = record l.after { provider_state = q } in
        let (files, k) = store_outputs-Leads outputs w2 l.found in
        let a = artifacts-Leads i k.after k.found (record {
          asset_id = none;
          output_manifest = some (obj (field "files" (arr files) end));
          output_assets = some (map path_of outputs);
        }) in
        let s =
          set_job_status-Leads i a.after a.found complete (record defaults { progress = some 100 })
            refl in
        (
          s.after,
          then_step _ _ w l.runs
              ∙ then_step _ _ l.after
                  (provider_step (provider.download_outputs r) l.after (rw l.provider gives))
              ∙ then_step _ _ w2 k.runs
              ∙ then_step _ _ k.after a.runs
              ∙ then_step _ _ a.after s.runs,
          (_, s.found, refl, refl, refl),
        )

    -- The provider says `n` times that it is not there yet, then that the outputs are ready.
    pub data Ready : ℕ → P → Type 0 where
      at_once :
          {p q s : P} {a : ProviderPollResult}
          → provider.poll_job r p ≡ (ok a, q)
          → a.state ≡ "ready"
          → provider.download_outputs r q ≡ (ok outputs, s)
          → Ready zero p
      not_yet :
          {n : ℕ} {p q : P} {a : ProviderPollResult}
          → provider.poll_job r p ≡ (ok a, q)
          → (a.state ≡ "queued") ⊎ (a.state ≡ "in_progress")
          → Ready n q
          → Ready (suc n) p

    module _ (c : Job) (id : c.id ≡ i) (remote : c.remote_job_id ≡ some r) where
      on_answer-ready :
          (retry : Exec (World P) Finish) (next : Job → Exec (World P) Finish) (w : World P)
          (a : ProviderPollResult)
          → a.state ≡ "ready"
          → on_answer settings c provider r retry next a w ≡ download settings i r provider w
      on_answer-ready retry next w a e =
          answer-ready settings c r provider retry next a e w
          ∙ ap (λ k. download settings k r provider w) id

      on_answer-waits :
          (retry : Exec (World P) Finish) (next : Job → Exec (World P) Finish) (w : World P)
          (a : ProviderPollResult)
          → find_job i w.db.jobs ≡ some c
          → (a.state ≡ "queued") ⊎ (a.state ≡ "in_progress")
          → (v : World P) × (d : Job) × (on_answer settings c provider r retry next a w ≡ next d v)
            × (find_job i v.db.jobs ≡ some d)
            × (v.cancelled ≡ w.cancelled)
            × (v.provider_state ≡ w.provider_state)
            × (d.status ≡ c.status)
            × (d.remote_job_id ≡ c.remote_job_id)
      on_answer-waits retry next w a there e =
          let l =
            runtime-Leads i w there
              (record { progress = some a.progress; last_error = none; remote_job_id = none }) in
          let s = sleep-Leads i l.after l.found settings.poll_interval in
          let g = get_job-Leads i s.after s.found in
          let chain =
            then_step _ _ w l.runs
            ∙ then_step _ _ l.after s.runs
            ∙ then_step _ (λ o. again o next) s.after g.runs in
          (
            g.after,
            _,
            answer-waits settings c r provider retry next a e w
                ∙ ap (λ k. keep_waiting settings k next a w) id
                ∙ chain,
            g.found,
            g.cancelled ∙ s.cancelled ∙ l.cancelled,
            g.provider ∙ s.provider ∙ l.provider,
            refl,
            refl,
          )

    -- A job that is polling, not cancelled and with attempts left is completed, with the paths of the
    -- provider's outputs, as soon as there is fuel for one round more than the provider says it is not
    -- there yet.
    pub poll_loop-completes :
        (fuel n attempts : ℕ) (w : World P) (c : Job)
        → n < fuel
        → ltb attempts settings.max_attempts ≡ true
        → find_job i w.db.jobs ≡ some c
        → c.status ≡ polling_remote
        → c.remote_job_id ≡ some r
        → holds w.cancelled i ≡ false
        → Ready n w.provider_state
        → (v : World P) × (poll_loop settings fuel provider attempts c w ≡ (ok done, v))
          × IsCompleted outputs v
    poll_loop-completes zero n attempts w c lt left there st remote go ready = absurd (ground arith)
    poll_loop-completes (suc fuel) n attempts w c lt left there st remote go
          (at_once {q} {s} {a} asked e gives) =
        let id = find_job-id i w.db.jobs there in
        let (v, runs, is) = download-completes (record w { provider_state = q }) there st gives in
        (
          v,
          ap (λ m. m w) (poll_loop-round settings provider fuel attempts c left)
              ∙ poll_round-answer settings i provider r c id remote _ _ w go asked
              ∙ on_answer-ready c id remote _ _ (record w { provider_state = q }) a e
              ∙ runs,
          is,
        )
    poll_loop-completes (suc fuel) (suc n) attempts w c lt left there st remote go
          (not_yet {q} {a} asked e later) =
        let id = find_job-id i w.db.jobs there in
        let (v, d, runs, there2, gone, same, st2, remote2) =
          on_answer-waits c id remote (poll_loop settings fuel provider (attempts + 1) c)
            (poll_loop settings fuel provider attempts) (record w { provider_state = q }) a there
            e in
        let (u, rest, is) =
          poll_loop-completes fuel n attempts v d (ground arith) left there2 (st2 ∙ st)
            (remote2 ∙ remote) (rw gone go) (rw same later) in
        (
          u,
          ap (λ m. m w) (poll_loop-round settings provider fuel attempts c left)
              ∙ poll_round-answer settings i provider r c id remote _ _ w go asked
              ∙ runs
              ∙ rest,
          is,
        )
