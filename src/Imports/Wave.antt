-- ===== src/Imports/Wave.antt =====
-- bridge/services/transcode_service.py: the peak that `_analyze_wav` finds. A quotient of two numbers
-- is kept as the two: division by a power of two is exact, and the largest quotient is that of the
-- largest value.
use suno_studio.Prelude.{ℕ, ◌+◌, ◌-◌, ◌*◌, List, [], ◌∷◌, ltb, leb, eqb, if◌then◌else◌}
use suno_studio.Exec.{struct_error, Result, ok, err}
use suno_studio.Models.Values.{ℤ, pos, negsuc}

-- What the `wave` module reads of a file.
pub record WaveData : Type 0 where
  pub channels : ℕ
  pub sample_width : ℕ
  pub sample_rate : ℕ
  pub frames : List ℕ

-- Two's complement: the value of the unsigned number `u`, where `half` is the place of the sign bit.
unfoldable pub signed : ℕ → ℕ → ℤ
signed half u = if ltb u half then pos u else negsuc (half + half - 1 - u)

abbrev pub cons_sample : ℤ → Result (List ℤ) → Result (List ℤ)
cons_sample v (ok vs) = ok (v ∷ vs)
cons_sample v (err e) = err e

-- struct.unpack("<hh…", frames), with len(frames) // 2 letters
unfoldable pub unpack16 : List ℕ → Result (List ℤ)
unpack16 [] = ok []
unpack16 (a ∷ b ∷ bs) = cons_sample (signed 32768 (a + 256 * b)) (unpack16 bs)
unpack16 (a ∷ []) = err struct_error

-- struct.unpack("<ii…", frames), with len(frames) // 4 letters
unfoldable pub unpack32 : List ℕ → Result (List ℤ)
unpack32 [] = ok []
unpack32 (a ∷ b ∷ c ∷ d ∷ bs) =
    cons_sample (signed 2147483648 (a + 256 * (b + 256 * (c + 256 * d)))) (unpack32 bs)
unpack32 _ = err struct_error

-- abs(v)
abbrev pub magnitude : ℤ → ℕ
magnitude (pos n) = n
magnitude (negsuc n) = n + 1

abbrev larger : ℕ → ℕ → ℕ
larger a b = if leb a b then b else a

-- max(abs(v) for v in samples) if samples else 0
unfoldable pub max_magnitude : List ℤ → ℕ
max_magnitude [] = 0
max_magnitude (v ∷ vs) = let rest = max_magnitude vs in larger (magnitude v) rest

-- The peak is `height` / `scale`.
pub record Peak : Type 0 where
  pub height : ℕ
  pub scale : ℕ

abbrev pub peak_from : ℕ → Result (List ℤ) → Result Peak
peak_from scale (ok samples) = ok (record { height = max_magnitude samples; scale = scale })
peak_from scale (err e) = err e

-- Other widths than 2 and 4 leave the peak at zero.
unfoldable pub peak_of : WaveData → Result Peak
peak_of w =
    if eqb w.sample_width 2
    then peak_from 32768 (unpack16 w.frames)
    else if eqb w.sample_width 4
    then peak_from 2147483648 (unpack32 w.frames)
    else ok (record { height = 0; scale = 1 })
