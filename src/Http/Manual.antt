-- ===== src/Http/Manual.antt =====
-- bridge/app.py: post_manual_complete. The uploads come in with their contents; the temporary files
-- they pass through are left out.
use Prim.Native.String.{◌++◌}
use suno_studio.Prelude.{
  ℕ, String, Bool, true, false, not, ◌||◌, Option, none, some, List, [], ◌∷◌, ◌==◌, if◌then◌else◌,
  eqb, map, select,
}
use suno_studio.Prelude
use suno_studio.Text.{lstrip_dots}
use suno_studio.Exec.{attribute_error, Result, ok, err, Exec, pure, raise, ◌>>=◌, ◌>>◌}
use suno_studio.Models.{Job}
use suno_studio.Models.Values.{
  Json, str, arr, obj, Items, cons, nil, Fields, end, field, get, truthy,
}
use suno_studio.Models.Status.{importing_provider_result, complete}
use suno_studio.Storage.{defaults, get_job, set_job_status, attach_job_artifacts}
use suno_studio.Storage.Rows.{mode_value}
use suno_studio.Orchestrator.Runtime.{World, Settings, on_db, store_download}
use suno_studio.Http.{Upload, Paths, or_text, bridge_err, not_found, lift}
use suno_studio.Http.Jobs.{is_manual}
use suno_studio.Http.Responses.{JobStatusResponse, job_to_response}

-- The four lists of the form, under the names that `all_files` gives them.
pub record ManualForm : Type 0 where
  pub mix : List Upload
  pub stems : List Upload
  pub tempo_locked_stems : List Upload
  pub midi : List Upload

pub record ImportedFile : Type 0 where
  pub family : String
  pub path : String
  pub name : String

abbrev pub all_files : ManualForm → List (String × List Upload)
all_files form =
    ("mix", form.mix)
    ∷ ("stems", form.stems)
    ∷ ("tempo_locked_stems", form.tempo_locked_stems)
    ∷ ("midi", form.midi)
    ∷ []

-- any(all_files.values())
abbrev pub any_files : List (String × List Upload) → Bool
any_files [] = false
any_files ((family, []) ∷ rest) = any_files rest
any_files ((family, u ∷ us) ∷ rest) = true

abbrev file_entry : ImportedFile → Json
file_entry f =
    obj (field "family" (str f.family) (field "path" (str f.path) (field "name" (str f.name) end)))

abbrev entries : List ImportedFile → Items
entries [] = nil
entries (f ∷ fs) = cons (file_entry f) (entries fs)

abbrev of_family : String → List ImportedFile → Json
of_family family fs = arr (entries (select (λ (f : ImportedFile). f.family == family) fs))

-- `v.get(key, {})`, which only a dict has
abbrev get_dict : Json → String → Result Json
get_dict (obj d) key = elim (get d key) [ none ↦ ok (obj end) | some v ↦ ok v ]
get_dict _ key = err attribute_error

abbrev and_then : Result Json → (Json → Result Json) → Result Json
and_then (err e) f = err e
and_then (ok v) f = f v

-- `d.get("handoff") or {}`
abbrev handoff_or_empty : Fields → Json
handoff_or_empty d = elim (get d "handoff") [
  | none ↦ obj end
  | some v ↦ if truthy v then v else obj end
]

unfoldable pub requested : Fields → Result Json
requested provider_metadata =
    and_then (get_dict (handoff_or_empty provider_metadata) "handoff")
      (λ handoff. get_dict handoff "requested_deliverables")

abbrev pub result_manifest : Job → Json → List ImportedFile → Json
result_manifest job requested files = obj (
    field "providerMode" (str (mode_value job.provider_mode)) (
      field "requestedDeliverables" requested (
        field "importedDeliverables"
          (obj (
            field "mix" (of_family "mix" files) (
              field "stems" (of_family "stems" files) (
                field "tempoLockedStems" (of_family "tempo_locked_stems" files)
                  (field "midi" (of_family "midi" files) end)))))
          (field "files" (arr (entries files)) end))))

module _ {P : Type 0} (settings : Settings P) (paths : Paths) where
  open paths use {suffix, name}

  -- The extension that an upload is stored with.
  unfoldable pub extension : Upload → String
  unfolding lstrip_dots
  extension upload =
      let ext = lstrip_dots (suffix (or_text upload.filename "output.bin")) in
      if ext == "" then "bin" else ext

  -- The two loops over `all_files`
  unfoldable pub import_family : String → String → List Upload → Exec (World P) (List ImportedFile)
  import_family i family [] = pure []
  import_family i family (upload ∷ uploads) = do
    stored ← store_download settings i ("manual_" ++ family) upload.content (extension upload)
    rest ← import_family i family uploads
    pure (
        record { family = family; path = stored.0; name = or_text upload.filename (name stored.0) }
        ∷ rest)

  unfoldable pub import_families :
      String → List (String × List Upload) → Exec (World P) (List ImportedFile)
  unfolding import_family
  import_families i [] = pure []
  import_families i ((family, uploads) ∷ more) = do
    files ← import_family i family uploads
    rest ← import_families i more
    pure (Prelude.◌++◌ files rest)

  unfoldable pub complete_manually : String → ManualForm → Job → Exec (World P) JobStatusResponse
  complete_manually i form job = do
    on_db (set_job_status i importing_provider_result (record defaults { progress = some 85 }))
    files ← import_families i (all_files form)
    asked ← lift (requested job.provider_metadata)
    on_db (
        attach_job_artifacts i (record {
          asset_id = none;
          output_manifest = some (result_manifest job asked files);
          output_assets = some (map (λ (f : ImportedFile). f.path) files);
        }))
    completed ← on_db (set_job_status i complete (record defaults { progress = some 100 }))
    pure (job_to_response completed)

  abbrev pub manual_found : String → ManualForm → Option Job → Exec (World P) JobStatusResponse
  manual_found i form none = raise (not_found i)
  manual_found i form (some job) =
      if not (is_manual job.provider_mode)
      then raise (
          bridge_err "INVALID_PROVIDER_MODE" "manual-complete only supported for manual_suno jobs."
            end)
      else if not (any_files (all_files form))
      then raise (bridge_err "NO_FILES" "Provide at least one imported manual result file." end)
      else complete_manually i form job

  -- POST /jobs/{job_id}/manual-complete
  unfoldable pub post_manual_complete : String → ManualForm → Exec (World P) JobStatusResponse
  post_manual_complete i form = do job ← on_db (get_job i); manual_found i form job
