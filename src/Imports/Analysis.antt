-- ===== src/Imports/Analysis.antt =====
-- bridge/services/transcode_service.py: `_analyze_wav`, and the settings of an import.
use suno_studio.Prelude.{ℕ, String, true, Option, none, some, List, ◌==◌, eqb, if◌then◌else◌}
use suno_studio.Exec.{Result, ok, err}
use suno_studio.Models.Values.{pos, Json, bool, int, str, Fields, end, field}
use suno_studio.Text.{lstrip_dots}
use suno_studio.Imports.Wave.{WaveData, Peak, peak_of}

-- Floating-point numbers of `F`; `literal` reads a literal, and `number` is the value in JSON.
pub record Floats (F : Type 0) : Type 0 where
  pub literal : String → F
  pub divide : ℕ → ℕ → F
  pub log10 : F → F
  pub times : F → F → F
  pub minus : F → F → F
  pub max : F → F → F
  pub number : F → Json

pub record LoudnessAnalysis (F : Type 0) : Type 0 where
  pub integrated_lufs : Option F
  pub true_peak_dbfs : Option F
  pub peak_dbfs : Option F

-- The directory of the imports, and what is called: SHA-256, `Path(s).suffix.lower()`, the `wave`
-- module, and `json.dumps(…, indent=2)` with its encoding.
pub record ImportSettings (F : Type 0) : Type 0 where
  pub assets_root : String
  pub sha256 : List ℕ → String
  pub suffix_lower : String → String
  pub wave_open : List ℕ → Result WaveData
  pub dumps_indented : Fields → List ℕ
  pub floats : Floats F

pub record Source : Type 0 where
  pub path : String
  pub content : List ℕ

module _ {F : Type 0} (settings : ImportSettings F) where
  open settings use {floats, suffix_lower, wave_open}
  open floats use {literal, divide, log10, times, minus}

  -- `peak > 0` says that the height is not zero.
  abbrev pub loudness : Peak → LoudnessAnalysis F
  loudness peak =
      let peak_dbfs : F =
        times (literal "20.0")
          (log10 (floats.max (divide peak.height peak.scale) (literal "1e-12"))) in
      record {
        integrated_lufs =
            if eqb peak.height 0
            then none
            else some (floats.max (literal "-70.0") (minus peak_dbfs (literal "3.0")));
        true_peak_dbfs = some peak_dbfs;
        peak_dbfs = some peak_dbfs;
      }

  abbrev pub wav_format : WaveData → Fields
  wav_format w = field "container" (str "wav") (
      field "sampleRateHz" (int (pos w.sample_rate)) (
        field "channels" (int (pos w.channels)) (
          field "sampleWidthBytes" (int (pos w.sample_width))
            (field "interleaved" (bool true) end))))

  abbrev pub analysed : WaveData → Result Peak → Result (Fields × LoudnessAnalysis F)
  analysed w (ok peak) = ok (wav_format w, loudness peak)
  analysed w (err e) = err e

  abbrev pub analyze_data : Result WaveData → Result (Fields × LoudnessAnalysis F)
  analyze_data (ok w) = analysed w (peak_of w)
  analyze_data (err e) = err e

  -- _analyze_wav
  abbrev analyze_wav : List ℕ → Result (Fields × LoudnessAnalysis F)
  analyze_wav content = analyze_data (wave_open content)

  -- The analysis in `import_audio`.
  unfoldable pub analyze : Source → Result (Fields × LoudnessAnalysis F)
  analyze source =
      let suffix = suffix_lower source.path in
      if suffix == ".wav"
      then analyze_wav source.content
      else ok (
        field "container" (str (lstrip_dots suffix)) end,
        record { integrated_lufs = none; true_peak_dbfs = none; peak_dbfs = none },
      )
