-- ===== src/Imports/Conforms.antt =====
-- bridge/services/import_service.py: the manifest of an import, and MANIFEST_SCHEMA.
use suno_studio.Prelude.{
  String, ◌≡◌, refl, Bool, true, false, Option, none, some, [], ◌∷◌, length, ap, subst, inl, inr,
  Bool-cases, ◌==◌,
}
use suno_studio.Exec.{ok, err, Result}
use suno_studio.Models.Values.{Fields, obj}
use suno_studio.Text.{codes}
use suno_studio.Orchestrator.Runtime.{World}
use suno_studio.Imports.{
  analysis_fields, number_or_null, checksum_fields, import_file, derived_format,
}
use suno_studio.Imports.Analysis.{
  ImportSettings, Source, LoudnessAnalysis, analyze, analysed, analyze_data,
}
use suno_studio.Imports.Wave.{WaveData, Peak, peak_of}
use suno_studio.Imports.Imported.{manifest, import_file-imports}
use suno_studio.Imports.Keywords.{conforms, has_type, some_type}
use suno_studio.Imports.Schema.{
  refers, conforms_to_schema, items, analysis_schema, checksum_schema, source_format_schema,
  derived_format_schema,
}

ok_inj : {A : Type 0} {a b : A} → ok a ≡ ok b → a ≡ b
ok_inj h = cc h

module _ {F : Type 0} (settings : ImportSettings F)
    (x_is : (x : F) → has_type "number" (settings.floats.number x) ≡ true) where
  number_or_null-typed :
      (o : Option F) → some_type (items ("number" ∷ "null" ∷ [])) (number_or_null settings o) ≡ true
  number_or_null-typed none = refl
  number_or_null-typed (some x) = rw (x_is x) refl

  analysis-conforms :
      (a : LoudnessAnalysis F)
      → conforms refers analysis_schema (obj (analysis_fields settings a)) ≡ true
  unfolding conforms
  analysis-conforms a =
      rw
        (
          number_or_null-typed a.integrated_lufs,
          number_or_null-typed a.true_peak_dbfs,
          number_or_null-typed a.peak_dbfs,
        )
        refl

  checksum-conforms :
      (s : String)
      → length (codes s) ≡ 64
      → conforms refers checksum_schema (obj (checksum_fields s)) ≡ true
  unfolding conforms
  checksum-conforms s h = rw h refl

  derived_format-conforms :
      (i : String) (source : Source) (a : LoudnessAnalysis F)
      → length (codes (settings.sha256 source.content)) ≡ 64
      → conforms refers derived_format_schema (derived_format settings i source a source.content)
        ≡ true
  unfolding conforms refers
  derived_format-conforms i source a h =
      rw
        (
          h,
          number_or_null-typed a.integrated_lufs,
          number_or_null-typed a.true_peak_dbfs,
          number_or_null-typed a.peak_dbfs,
          x_is (settings.floats.literal "-14.0"),
          x_is (settings.floats.literal "-1.0"),
        )
        refl

  module _ (source : Source) (format : Fields) (analysis : LoudnessAnalysis F) where
    analyze_data-conforms :
        (r : Result WaveData)
        → analyze_data settings r ≡ ok (format, analysis)
        → conforms refers source_format_schema (obj format) ≡ true
    unfolding conforms
    analyze_data-conforms (err e) h = absurd (cc h)
    analyze_data-conforms (ok w) h = by_peak (peak_of w) h
      where
        by_peak :
            (p : Result Peak)
            → analysed settings w p ≡ ok (format, analysis)
            → conforms refers source_format_schema (obj format) ≡ true
        by_peak (err e) h = absurd (cc h)
        by_peak (ok peak) h =
            subst (λ d. conforms refers source_format_schema (obj d) ≡ true)
              (ap (λ x. x.0) (ok_inj h)) refl

    analyze-conforms :
        analyze settings source ≡ ok (format, analysis)
        → conforms refers source_format_schema (obj format) ≡ true
    unfolding conforms analyze
    analyze-conforms h = elim (Bool-cases (settings.suffix_lower source.path == ".wav")) [
      | inl y ↦ analyze_data-conforms (settings.wave_open source.content) (rw y at h)
      | inr n ↦
          subst (λ d. conforms refers source_format_schema (obj d) ≡ true)
            (ap (λ x. x.0) (ok_inj (rw n at h))) refl
    ]

    -- The manifest.
    manifest-conforms :
        (i : String) (normalize : Bool)
        → analyze settings source ≡ ok (format, analysis)
        → length (codes (settings.sha256 source.content)) ≡ 64
        → conforms_to_schema (manifest settings i source format analysis normalize) ≡ true
    unfolding conforms_to_schema conforms
    manifest-conforms i false found h =
        rw (analyze-conforms found, analysis-conforms analysis, checksum-conforms _ h) refl
    manifest-conforms i true found h =
        rw
          (
            analyze-conforms found,
            analysis-conforms analysis,
            checksum-conforms _ h,
            derived_format-conforms i source analysis h,
          )
          refl

    -- Suppose that the analysis of the source succeeds, that the digest of its content has 64
    -- characters, and that a floating-point number is a number in JSON. Then the import returns a
    -- manifest, with or without normalization, and the manifest conforms to MANIFEST_SCHEMA.
    pub import_file-conforms :
        {P : Type 0} (i : String) (normalize : Bool) (w : World P)
        → analyze settings source ≡ ok (format, analysis)
        → length (codes (settings.sha256 source.content)) ≡ 64
        → (m : Fields) × ((import_file settings i source normalize w).0 ≡ ok m)
          × (conforms_to_schema m ≡ true)
    import_file-conforms i normalize w found h = (
      manifest settings i source format analysis normalize,
      (import_file-imports settings i source format analysis normalize w found h).0,
      manifest-conforms i normalize found h,
    )
