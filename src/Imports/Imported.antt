-- ===== src/Imports/Imported.antt =====
-- bridge/services/import_service.py: what an import leaves.
use suno_studio.Prelude.{
  ℕ, String, ◌≡◌, refl, Bool, true, false, some, List, [], ◌∷◌, ◌++◌, eq_refl, length,
}
use suno_studio.Exec.{Result, ok, pure, require, or_raise, modify, ◌>>=◌}
use suno_studio.Models.Values.{Items, nil, cons, Fields}
use suno_studio.Text.{codes}
use suno_studio.Storage.{save_imported_asset, get_imported_asset}
use suno_studio.Storage.Queries.{get_imported_asset-save}
use suno_studio.Storage.Tables.{Db}
use suno_studio.Orchestrator.Runtime.{World, on_db}
use suno_studio.Imports.{
  ImportedAsset, to_manifest, original_path, normalized_path, manifest_path, derived_format,
  read_file, write_file, import_audio, validate_manifest, import_file,
}
use suno_studio.Imports.Analysis.{ImportSettings, Source, LoudnessAnalysis, analyze}

-- What `validate_manifest` looks at.
validate_manifest-to_manifest :
    {F P : Type 0} (settings : ImportSettings F) (a : ImportedAsset F) (w : World P)
    → length (codes a.checksum_sha256) ≡ 64
    → validate_manifest settings (to_manifest settings a) w ≡ (ok tt, w)
unfolding validate_manifest ◌>>=◌ require
validate_manifest-to_manifest settings a w h = rw h

module _ {F : Type 0} (settings : ImportSettings F) (asset_id : String) (source : Source) where
  open settings use {sha256, dumps_indented}

  module _ (format : Fields) (analysis : LoudnessAnalysis F) where
    abbrev pub derived_formats : Bool → Items
    derived_formats false = nil
    derived_formats true =
        cons (derived_format settings asset_id source analysis source.content) nil

    abbrev copies : Bool → List (String × List ℕ)
    copies false = (original_path settings asset_id source, source.content) ∷ []
    copies true =
        (normalized_path settings asset_id source, source.content)
        ∷ (original_path settings asset_id source, source.content)
        ∷ []

    abbrev pub imported : Bool → ImportedAsset F
    imported normalize = record {
      asset_id = asset_id;
      source_path = source.path;
      imported_original_path = original_path settings asset_id source;
      source_format = format;
      analysis = analysis;
      checksum_sha256 = sha256 source.content;
      derived_formats = derived_formats normalize;
    }

    abbrev pub manifest : Bool → Fields
    manifest normalize = to_manifest settings (imported normalize)

    import_audio-runs :
        {P : Type 0} (normalize : Bool) (w : World P)
        → analyze settings source ≡ ok (format, analysis)
        → import_audio settings asset_id source normalize w
          ≡ (ok (imported normalize), record w { files = copies normalize ++ w.files })
    unfolding import_audio write_file ◌>>=◌ modify pure read_file or_raise
    import_audio-runs false w h = rw h
    import_audio-runs true w h = rw (h, eq_refl)

  abbrev pub Imported :
      {P : Type 0} → Fields → LoudnessAnalysis F → Bool → World P → Result Fields × World P → Type 0
  Imported format analysis normalize w (r, w') =
      (r ≡ ok (manifest format analysis normalize))
      × (w'.files
          ≡ (manifest_path settings asset_id, dumps_indented (manifest format analysis normalize))
              ∷ copies format analysis normalize
            ++ w.files)
      × ((get_imported_asset asset_id w'.db).0 ≡ ok (some (manifest format analysis normalize)))

  saved :
      (m : Fields) (s : Db)
      → (get_imported_asset asset_id (save_imported_asset asset_id m s).1).0 ≡ ok (some m)
  saved m s = rw (get_imported_asset-save asset_id asset_id m s, eq_refl)

  -- Suppose that the analysis of the source succeeds, and that the digest of its content has 64
  -- characters. Then the import succeeds too, with or without normalization: it writes an unchanged
  -- copy of the source, if asked a derived copy with the same content, and last the manifest's file,
  -- nothing else, and the manifest that it returns, with the digest of the source, is then the one
  -- that the storage has for the new id.
  pub import_file-imports :
      {P : Type 0} (format : Fields) (analysis : LoudnessAnalysis F) (normalize : Bool)
      (w : World P)
      → analyze settings source ≡ ok (format, analysis)
      → length (codes (sha256 source.content)) ≡ 64
      → Imported format analysis normalize w (import_file settings asset_id source normalize w)
  unfolding import_file ◌>>=◌ write_file modify on_db save_imported_asset pure
  import_file-imports format analysis normalize w h size =
      rw
        (
          import_audio-runs format analysis normalize w h,
          validate_manifest-to_manifest settings (imported format analysis normalize)
              (record w { files = copies format analysis normalize ++ w.files }) size,
        )
        (refl, refl, saved (manifest format analysis normalize) w.db)
