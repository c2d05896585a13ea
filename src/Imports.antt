-- ===== src/Imports.antt =====
-- bridge/services/transcode_service.py, import_audio, and import_service.py: the import of an audio
-- file. The source comes in with its content. The directories are taken to be there.
pub mod Wave
pub mod Analysis
pub mod Bounds
pub mod Keywords
pub mod Schema
pub mod Conforms
pub mod Imported
pub mod Fails
pub mod Witnesses
use Prim.Native.String.{◌++◌}
use suno_studio.Prelude.{
  ℕ, String, Bool, true, false, not, ◌&&◌, Option, none, some, List, [], ◌∷◌, ◌+◌, ◌==◌, eqb,
  if◌then◌else◌, length,
}
use suno_studio.Exec.{
  Exn, key_error, value_error, type_error, file_not_found, Result, ok, err, Exec, pure, require,
  or_raise, modify, ◌>>=◌, ◌>>◌,
}
use suno_studio.Models.Values.{
  pos, Json, null, bool, int, str, arr, obj, Items, nil, cons, Fields, end, field, get,
}
use suno_studio.Text.{codes, lstrip_dots}
use suno_studio.Storage.{save_imported_asset}
use suno_studio.Orchestrator.Runtime.{World, on_db}
use suno_studio.Http.{lift}
use suno_studio.Imports.Analysis.{Floats, LoudnessAnalysis, ImportSettings, Source, analyze}
use suno_studio.Imports.Wave.{WaveData, Peak, peak_of}

pub record ImportedAsset (F : Type 0) : Type 0 where
  pub asset_id : String
  pub source_path : String
  pub imported_original_path : String
  pub source_format : Fields
  pub analysis : LoudnessAnalysis F
  pub checksum_sha256 : String
  pub derived_formats : Items

-- MANIFEST_SCHEMA["required"]
abbrev pub required : List String
required =
    "id" ∷ "sourcePath" ∷ "sourceFormat" ∷ "analysis" ∷ "checksum" ∷ "original" ∷ "derivedFormats"
    ∷ []

-- CANONICAL_INTERNAL_FORMAT
abbrev canonical_internal_format : Fields
canonical_internal_format = field "sampleRateHz" (int (pos 48000)) (
    field "bitDepth" (str "24-bit float") (
      field "layout" (str "interleaved")
        (field "channels" (int (pos 2)) (field "stereoPolicy" (str "always-stereo") end))))

abbrev checksum_fields : String → Fields
checksum_fields value = field "algorithm" (str "sha256") (field "value" (str value) end)

module _ {F : Type 0} (settings : ImportSettings F) where
  open settings use {floats, sha256, suffix_lower, dumps_indented, assets_root}
  open floats use {literal, number}

  abbrev number_or_null : Option F → Json
  number_or_null none = null
  number_or_null (some x) = number x

  -- LoudnessAnalysis.to_manifest
  abbrev analysis_fields : LoudnessAnalysis F → Fields
  analysis_fields a = field "integratedLUFS" (number_or_null a.integrated_lufs) (
      field "truePeakDbfs" (number_or_null a.true_peak_dbfs)
        (field "peakDbfs" (number_or_null a.peak_dbfs) end))

  -- ImportedAsset.to_manifest
  abbrev to_manifest : ImportedAsset F → Fields
  to_manifest a = field "id" (str a.asset_id) (
      field "sourcePath" (str a.source_path) (
        field "sourceFormat" (obj a.source_format) (
          field "analysis" (obj (analysis_fields a.analysis)) (
            field "checksum" (obj (checksum_fields a.checksum_sha256)) (
              field "original"
                (obj (
                  field "path" (str a.imported_original_path)
                    (field "lineage" (obj (field "type" (str "source") end)) end)))
                (field "derivedFormats" (arr a.derived_formats) end))))))

  abbrev pub original_path : String → Source → String
  original_path asset_id source =
      assets_root ++ "/" ++ asset_id ++ "/" ++ asset_id ++ ".original" ++ suffix_lower source.path

  abbrev normalized_path : String → Source → String
  normalized_path asset_id source =
      assets_root ++ "/" ++ asset_id ++ "/" ++ asset_id ++ ".normalized" ++ suffix_lower source.path

  abbrev manifest_path : String → String
  manifest_path asset_id = assets_root ++ "/" ++ asset_id ++ "/manifest.json"

  abbrev derived_format : String → Source → LoudnessAnalysis F → List ℕ → Json
  derived_format asset_id source analysis normalized = obj (
      field "path" (str (normalized_path asset_id source)) (
        field "format" (obj canonical_internal_format) (
          field "analysis" (obj (analysis_fields analysis)) (
            field "checksum" (obj (checksum_fields (sha256 normalized))) (
              field "lineage"
                (obj (
                  field "type" (str "normalized") (
                    field "source" (str (original_path asset_id source)) (
                      field "method" (str "non-destructive") (
                        field "normalization"
                          (obj (
                            field "enabled" (bool true) (
                              field "targetIntegratedLUFS" (number (literal "-14.0"))
                                (field "truePeakCeilingDbfs" (number (literal "-1.0")) end))))
                          end)))))
                end)))))

  -- The content of the file that was written last at the path.
  pub read_file : String → List (String × List ℕ) → Option (List ℕ)
  read_file path [] = none
  read_file path ((p, content) ∷ files) =
      let rest = read_file path files in if p == path then some content else rest

  module _ {P : Type 0} where
    unfoldable pub write_file : String → List ℕ → Exec (World P) (Unit {0})
    unfolding modify
    write_file path content = modify λ w. record w { files = (path, content) ∷ w.files }

    -- shutil.copy2 of a file of the import directory; what was copied
    abbrev pub copy_file : String → String → Exec (World P) (List ℕ)
    copy_file source target = do
      content ← λ w. or_raise file_not_found (read_file source w.files) w
      write_file target content
      pure content

    -- The list `derived_formats`.
    abbrev pub derive : String → Source → LoudnessAnalysis F → Bool → Exec (World P) Items
    derive asset_id source analysis false = pure nil
    derive asset_id source analysis true = do
      normalized ← copy_file (original_path asset_id source) (normalized_path asset_id source)
      pure (cons (derived_format asset_id source analysis normalized) nil)

    unfoldable pub import_audio : String → Source → Bool → Exec (World P) (ImportedAsset F)
    import_audio asset_id source normalize_on_import = do
      write_file (original_path asset_id source) source.content
      found ← lift (analyze settings source)
      derived ← derive asset_id source found.1 normalize_on_import
      pure (record {
        asset_id = asset_id;
        source_path = source.path;
        imported_original_path = original_path asset_id source;
        source_format = found.0;
        analysis = found.1;
        checksum_sha256 = sha256 source.content;
        derived_formats = derived;
      })

abbrev has_keys : Fields → List String → Bool
has_keys m [] = true
has_keys m (k ∷ ks) = elim (get m k) [ none ↦ false | some v ↦ has_keys m ks ]

abbrev count_items : Items → ℕ
count_items nil = 0
count_items (cons v vs) = 1 + count_items vs

abbrev count_fields : Fields → ℕ
count_fields end = 0
count_fields (field k v d) = 1 + count_fields d

-- len(v)
abbrev len_of : Json → Result ℕ
len_of (str s) = ok (length (codes s))
len_of (arr vs) = ok (count_items vs)
len_of (obj d) = ok (count_fields d)
len_of _ = err type_error

-- v[key], where key is a text
abbrev subscript : Json → String → Result Json
subscript (obj d) key = elim (get d key) [ none ↦ err key_error | some v ↦ ok v ]
subscript _ key = err type_error

module _ {F P : Type 0} (settings : ImportSettings F) where
  -- _validate_manifest, whose ManifestValidationError is a ValueError
  unfoldable pub validate_manifest : Fields → Exec (World P) (Unit {0})
  validate_manifest manifest = do
    require (has_keys manifest required) value_error
    checksum ← lift (subscript (obj manifest) "checksum")
    value ← lift (subscript checksum "value")
    size ← lift (len_of value)
    require (eqb size 64) value_error

  -- ImportService.import_file; `asset_id` is the new id.
  unfoldable pub import_file : String → Source → Bool → Exec (World P) Fields
  import_file asset_id source normalize_on_import = do
    imported ← import_audio settings asset_id source normalize_on_import
    let manifest = to_manifest settings imported
    validate_manifest manifest
    write_file settings (manifest_path settings asset_id) (settings.dumps_indented manifest)
    on_db (save_imported_asset asset_id manifest)
    pure manifest
