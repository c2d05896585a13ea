-- ===== src/Imports/Witnesses.antt =====
-- The theorems on imports, at a concrete WAV file.
use suno_studio.Prelude.{ℕ, ◌≤◌, ◌≡◌, refl, true, false, [], ◌∷◌, arith}
use suno_studio.Exec.{type_error, ok, err, modify, ◌>>=◌}
use suno_studio.Models.Values.{pos, int, Fields, end}
use suno_studio.Storage.Tables.{empty}
use suno_studio.Orchestrator.Runtime.{World}
use suno_studio.Imports.{import_file, import_audio, write_file}
use suno_studio.Imports.Analysis.{Floats, ImportSettings, Source, analyze, wav_format, loudness}
use suno_studio.Imports.Wave.{WaveData, Peak, peak_of, unpack16, signed, max_magnitude}
use suno_studio.Imports.Bounds.{peak_of-bound}
use suno_studio.Imports.Imported.{Imported, import_file-imports}
use suno_studio.Imports.Keywords.{conforms}
use suno_studio.Imports.Schema.{conforms_to_schema}
use suno_studio.Imports.Conforms.{import_file-conforms}
use suno_studio.Imports.Fails.{import_file-fails}

-- Two samples of two bytes, of which the second is the least value.
abbrev wave : WaveData
wave = record { channels = 1; sample_width = 2; sample_rate = 48000; frames = 1 ∷ 0 ∷ 0 ∷ 128 ∷ [] }

abbrev full_scale : Peak
full_scale = record { height = 32768; scale = 32768 }

peak_found : peak_of wave ≡ ok full_scale
unfolding peak_of unpack16 signed max_magnitude
peak_found = refl

peak_of-bound_example : 32768 ≤ 32768
peak_of-bound_example =
    peak_of-bound wave full_scale (omega arith, (omega arith, (omega arith, (omega arith, tt))))
      peak_found

-- Numbers that compute, in place of floating-point numbers.
abbrev floats : Floats ℕ
floats = record {
  literal = λ s. 1;
  divide = λ a b. a;
  log10 = λ x. x;
  times = λ x y. y;
  minus = λ x y. x;
  max = λ x y. x;
  number = λ x. int (pos x);
}

abbrev settings : ImportSettings ℕ
settings = record {
  assets_root = "assets";
  sha256 = λ c. "0123456789abcdef0123456789abcdef0123456789abcdef0123456789abcdef";
  suffix_lower = λ p. ".wav";
  wave_open = λ c. ok wave;
  dumps_indented = λ m. 123 ∷ [];
  floats = floats;
}

abbrev start : World (Unit {0})
start = record { db = empty 1000; queue = []; cancelled = []; files = []; provider_state = tt }

abbrev source : Source
source = record { path = "a.wav"; content = 1 ∷ 2 ∷ [] }

analysed : analyze settings source ≡ ok (wav_format settings wave, loudness settings full_scale)
unfolding analyze peak_of unpack16 signed max_magnitude
analysed = refl

import_file-imports_example :
    Imported settings "a1" source
      (wav_format settings wave)
      (loudness settings full_scale)
      true
      start
      (import_file settings "a1" source true start)
import_file-imports_example =
    import_file-imports settings "a1" source (wav_format settings wave)
      (loudness settings full_scale) true start analysed refl

-- A file that is no WAV file.
abbrev strict : ImportSettings ℕ
strict = record settings { wave_open = λ c. err type_error }

stopped :
    import_file strict "a1" source true start
    ≡ (err type_error, record start { files = ("assets/a1/a1.original.wav", 1 ∷ 2 ∷ []) ∷ [] })
unfolding import_file import_audio write_file analyze ◌>>=◌ modify
stopped = refl

import_file-fails_example : empty 1000 ≡ empty 1000
import_file-fails_example =
    import_file-fails strict "a1" source true start
      (record start { files = ("assets/a1/a1.original.wav", 1 ∷ 2 ∷ []) ∷ [] }) type_error stopped

import_file-conforms_example :
    (m : Fields) × ((import_file settings "a1" source true start).0 ≡ ok m)
    × (conforms_to_schema m ≡ true)
import_file-conforms_example =
    import_file-conforms settings (λ x. refl) source (wav_format settings wave)
      (loudness settings full_scale) "a1" true start analysed refl

-- The schema refuses a manifest without its keys.
empty_manifest : conforms_to_schema end ≡ false
unfolding conforms_to_schema conforms
empty_manifest = refl
