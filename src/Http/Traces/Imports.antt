-- ===== src/Http/Traces/Imports.antt =====
-- bridge/services/import_service.py: the storage transactions of an import.
use suno_studio.Prelude.{ℕ, String, ◌≡◌, refl, Bool, true, false, List, []}
use suno_studio.Exec.{Exn, file_not_found, or_raise, modify, require}
use suno_studio.Models.Values.{Fields}
use suno_studio.Storage.{save_imported_asset}
use suno_studio.Storage.Ops.{save_asset, run_op, run_ops}
use suno_studio.Orchestrator.Runtime.{World, on_db}
use suno_studio.Orchestrator.Traces.Rules.{
  Transacts, Transacts-bind, Transacts-lift, Transacts-pure, Transacts-or_raise, Transacts-op,
}
use suno_studio.Imports.{
  import_audio, import_file, validate_manifest, write_file, derive, copy_file, read_file,
}
use suno_studio.Imports.Analysis.{ImportSettings, Source, LoudnessAnalysis, analyze}

module _ {P : Type 0} where
  Transacts-modify :
      (f : World P → World P) → ((w : World P) → (f w).db ≡ w.db) → Transacts (modify f)
  unfolding modify run_ops
  Transacts-modify f h = record { at = λ w. ([], tt, h w) }

  Transacts-require : (b : Bool) (e : Exn) → Transacts {P = P} (require b e)
  unfolding require run_ops
  Transacts-require true e = record { at = λ w. ([], tt, refl) }
  Transacts-require false e = record { at = λ w. ([], tt, refl) }

  save_imported_asset-Transacts :
      (i : String) (m : Fields) → Transacts (on_db {P = P} (save_imported_asset i m))
  unfolding run_op
  save_imported_asset-Transacts i m = Transacts-op _ (save_asset i m) tt (λ s. refl)

module _ {F P : Type 0} (imports : ImportSettings F) where
  write_file-Transacts :
      (path : String) (content : List ℕ) → Transacts (write_file imports {P = P} path content)
  unfolding write_file
  write_file-Transacts path content = Transacts-modify _ (λ w. refl)

  copy_file-Transacts :
      (source target : String) → Transacts (copy_file imports {P = P} source target)
  unfolding or_raise run_ops
  copy_file-Transacts source target =
      Transacts-bind _ _
        (record {
          at = λ w. (Transacts-or_raise file_not_found (read_file imports source w.files)).at w;
        })
        (λ content.
          Transacts-bind _ _ (write_file-Transacts target content) (λ _. Transacts-pure content))

  derive-Transacts :
      (i : String) (source : Source) (a : LoudnessAnalysis F) (normalize : Bool)
      → Transacts (derive imports {P = P} i source a normalize)
  derive-Transacts i source a false = Transacts-pure _
  derive-Transacts i source a true =
      Transacts-bind _ _ (copy_file-Transacts _ _) (λ _. Transacts-pure _)

  import_audio-Transacts :
      (i : String) (source : Source) (normalize : Bool)
      → Transacts (import_audio imports {P = P} i source normalize)
  unfolding import_audio
  import_audio-Transacts i source normalize = Transacts-bind _ _ (write_file-Transacts _ _) (λ _.
      Transacts-bind _ _ (Transacts-lift (analyze imports source)) (λ found.
        Transacts-bind _ _ (derive-Transacts i source found.1 normalize) (λ _. Transacts-pure _)))

  validate_manifest-Transacts : (m : Fields) → Transacts (validate_manifest {P = P} imports m)
  unfolding validate_manifest
  validate_manifest-Transacts m = Transacts-bind _ _ (Transacts-require _ _) (λ _.
      Transacts-bind _ _ (Transacts-lift _) (λ c.
        Transacts-bind _ _ (Transacts-lift _)
          (λ v. Transacts-bind _ _ (Transacts-lift _) (λ n. Transacts-require _ _))))

  pub import_file-Transacts :
      (i : String) (source : Source) (normalize : Bool)
      → Transacts (import_file {P = P} imports i source normalize)
  unfolding import_file
  import_file-Transacts i source normalize =
      Transacts-bind _ _ (import_audio-Transacts i source normalize) (λ a.
        Transacts-bind _ _ (validate_manifest-Transacts _) (λ _.
          Transacts-bind _ _ (write_file-Transacts _ _)
            (λ _. Transacts-bind _ _ (save_imported_asset-Transacts i _) (λ _. Transacts-pure _))))
