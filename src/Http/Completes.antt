-- ===== src/Http/Completes.antt =====
-- bridge/app.py: post_manual_complete, what it leaves behind, and that it does so once.
use Prim.Native.String
use suno_studio.Prelude.{
  String, ◌≡◌, refl, ap, ◌∙◌, Bool, true, not, none, some, List, [], ◌∷◌, ◌++◌, map, if◌then◌else◌,
}
use suno_studio.Exec.{Exn, ok, Exec, pure, raise}
use suno_studio.Models.{Job, manual_suno}
use suno_studio.Models.Values.{Json, end}
use suno_studio.Models.Status.{
  importing_provider_result, awaiting_manual_provider_result, complete, may_become,
}
use suno_studio.Adapters.{ProviderOutput}
use suno_studio.Storage.{defaults}
use suno_studio.Storage.Tables.{find_job}
use suno_studio.Orchestrator.Runtime.{World, Settings}
use suno_studio.Orchestrator.Steps.{
  then_step, get_job-runs, Leads, set_job_status-Leads, artifacts-Leads, pure-Leads, Leads-bind,
}
use suno_studio.Orchestrator.Completes.{path_of, store_download-Leads}
use suno_studio.Http.{bridge_err}
use suno_studio.Http.Jobs.{is_manual}
use suno_studio.Http.Responses.{JobStatusResponse, job_to_response}
use suno_studio.Http.{Upload, Paths, or_text}
use suno_studio.Http.Manual.{
  ManualForm, ImportedFile, all_files, any_files, requested, result_manifest, extension,
  import_family, import_families, complete_manually, post_manual_complete,
}

module _ {P : Type 0} (settings : Settings P) (paths : Paths) (i : String) where
  -- An upload as an output of a provider.
  abbrev as_output : String → Upload → ProviderOutput
  as_output family upload = record {
    variant = String.◌++◌ "manual_" family;
    extension = extension settings paths upload;
    content = upload.content;
  }

  abbrev stored_file : String → Upload → ImportedFile
  stored_file family upload =
      let path = path_of settings i (as_output family upload) in
      record { family = family; path = path; name = or_text upload.filename (paths.name path) }

  abbrev pub stored_files : List (String × List Upload) → List ImportedFile
  stored_files [] = []
  stored_files ((family, uploads) ∷ more) = map (stored_file family) uploads ++ stored_files more

  import_family-Leads :
      (family : String) (us : List Upload) (w : World P) {c : Job}
      → find_job i w.db.jobs ≡ some c
      → Leads i (import_family settings paths i family us) w (map (stored_file family) us) c
  unfolding import_family
  import_family-Leads family [] w there = pure-Leads i w there _
  import_family-Leads family (u ∷ us) w there =
      let (new, l) = store_download-Leads settings i (as_output family u) w there in
      let k = import_family-Leads family us l.after l.found in
      Leads-bind i _ l (Leads-bind i _ k (pure-Leads i k.after k.found _))

  import_families-Leads :
      (fs : List (String × List Upload)) (w : World P) {c : Job}
      → find_job i w.db.jobs ≡ some c
      → Leads i (import_families settings paths i fs) w (stored_files fs) c
  unfolding import_families
  import_families-Leads [] w there = pure-Leads i w there _
  import_families-Leads ((family, us) ∷ more) w there =
      let l = import_family-Leads family us w there in
      let k = import_families-Leads more l.after l.found in
      Leads-bind i _ l (Leads-bind i _ k (pure-Leads i k.after k.found _))

  abbrev no_manual_job : Exn
  no_manual_job =
      bridge_err "INVALID_PROVIDER_MODE" "manual-complete only supported for manual_suno jobs." end

  abbrev no_files : Exn
  no_files = bridge_err "NO_FILES" "Provide at least one imported manual result file." end

  -- `manual_found`, by the two tests that it makes.
  abbrev guarded : ManualForm → Job → Bool → Bool → Exec (World P) JobStatusResponse
  guarded form job manual some_file =
      if not manual
      then raise no_manual_job
      else if not some_file
      then raise no_files
      else complete_manually settings paths i form job

  module _ (form : ManualForm) (w : World P) where
    complete_manually-runs :
        {c : Job} {asked : Json}
        → find_job i w.db.jobs ≡ some c
        → c.status ≡ awaiting_manual_provider_result
        → requested c.provider_metadata ≡ ok asked
        → (v : World P) × (b : Job) × (complete_manually settings paths i form c w
            ≡ (ok (job_to_response b), v))
          × (find_job i v.db.jobs ≡ some b)
          × (b.status ≡ complete)
          × (b.progress ≡ 100)
          × (b.output_assets ≡ map (λ (f : ImportedFile). f.path) (stored_files (all_files form)))
          × (b.provider_mode ≡ c.provider_mode)
    unfolding complete_manually may_become pure
    complete_manually-runs {c} {asked} there st known =
        let l =
          set_job_status-Leads i w there importing_provider_result
            (record defaults { progress = some 85 }) (rw st) in
        let k = import_families-Leads (all_files form) l.after l.found in
        let a = artifacts-Leads i k.after k.found (record {
          asset_id = none;
          output_manifest = some (result_manifest c asked (stored_files (all_files form)));
          output_assets = some (map (λ (f : ImportedFile). f.path) (stored_files (all_files form)));
        }) in
        let s =
          set_job_status-Leads i a.after a.found complete (record defaults { progress = some 100 })
            refl in
        (
          s.after,
          _,
          then_step _ _ w l.runs
              ∙ then_step _ _ l.after k.runs
              ∙ then_step _ _ k.after (ap (λ r. (r, k.after)) known)
              ∙ then_step _ _ k.after a.runs
              ∙ then_step _ _ a.after s.runs,
          s.found,
          refl,
          refl,
          refl,
          refl,
        )

    post_manual_complete-runs :
        {c : Job} {asked : Json}
        → find_job i w.db.jobs ≡ some c
        → c.provider_mode ≡ manual_suno
        → c.status ≡ awaiting_manual_provider_result
        → any_files (all_files form) ≡ true
        → requested c.provider_metadata ≡ ok asked
        → (v : World P) × (b : Job) × (post_manual_complete settings paths i form w
            ≡ (ok (job_to_response b), v))
          × (find_job i v.db.jobs ≡ some b)
          × (b.status ≡ complete)
          × (b.progress ≡ 100)
          × (b.output_assets ≡ map (λ (f : ImportedFile). f.path) (stored_files (all_files form)))
          × (b.provider_mode ≡ c.provider_mode)
    unfolding post_manual_complete
    post_manual_complete-runs {c} there manual st some_file known =
        let (v, b, runs, found, now, all, kept, mode) = complete_manually-runs there st known in
        (
          v,
          b,
          then_step _ _ w (get_job-runs i w there)
              ∙ ap (λ m. guarded form c (is_manual m) (any_files (all_files form)) w) manual
              ∙ ap (λ some_file. guarded form c true some_file w) some_file
              ∙ runs,
          found,
          now,
          all,
          kept,
          mode,
        )

    -- A manual job that waits for its result is completed by a request with a file at least, if its
    -- handoff has the form that the manual provider gives it: its outputs are the paths of the files,
    -- family by family, and the response shows the row that is left in the table.
    pub post_manual_complete-completes :
        {c : Job} {asked : Json}
        → find_job i w.db.jobs ≡ some c
        → c.provider_mode ≡ manual_suno
        → c.status ≡ awaiting_manual_provider_result
        → any_files (all_files form) ≡ true
        → requested c.provider_metadata ≡ ok asked
        → (v : World P) × (b : Job) × (post_manual_complete settings paths i form w
            ≡ (ok (job_to_response b), v))
          × (find_job i v.db.jobs ≡ some b)
          × (b.status ≡ complete)
          × (b.progress ≡ 100)
          × (b.output_assets ≡ map (λ (f : ImportedFile). f.path) (stored_files (all_files form)))
    post_manual_complete-completes there manual st some_file known =
        let (v, b, runs, found, now, all, kept, _) =
          post_manual_complete-runs there manual st some_file known in
        (v, b, runs, found, now, all, kept)
