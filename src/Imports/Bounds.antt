-- ===== src/Imports/Bounds.antt =====
-- bridge/services/transcode_service.py: how high the peak of a WAV file is.
use suno_studio.Prelude.{
  ℕ, ◌+◌, ◌*◌, ◌≤◌, ◌<◌, ◌≡◌, inl, inr, List, [], ◌∷◌, All, arith, eqb, Bool-cases, subst,
}
use suno_studio.Exec.{Result, ok, err}
use suno_studio.Models.Values.{ℤ}
use suno_studio.Imports.Wave.{
  WaveData, signed, cons_sample, unpack16, unpack32, magnitude, max_magnitude, Peak, peak_from,
  peak_of,
}

signed-magnitude : (half u : ℕ) → u < half + half → magnitude (signed half u) ≤ half
unfolding signed
signed-magnitude half u h = ground arith

max_magnitude-le :
    (bound : ℕ) (vs : List ℤ) → All (λ v. magnitude v ≤ bound) vs → max_magnitude vs ≤ bound
unfolding max_magnitude
max_magnitude-le bound [] h = omega arith
max_magnitude-le bound (v ∷ vs) h = ground (arith, max_magnitude-le bound vs h.1)

-- All samples of a result.
AllOk : (ℤ → Type 0) → Result (List ℤ) → Type 0
AllOk P (ok vs) = All P vs
AllOk P (err e) = Unit

cons_sample-AllOk :
    (P : ℤ → Type 0) (v : ℤ) (r : Result (List ℤ)) → P v → AllOk P r → AllOk P (cons_sample v r)
unfolding AllOk
cons_sample-AllOk P v (ok vs) p h = (p, h)
cons_sample-AllOk P v (err e) p h = tt

abbrev IsByte : ℕ → Type 0
IsByte b = b < 256

unpack16-bound : (bs : List ℕ) → All IsByte bs → AllOk (λ v. magnitude v ≤ 32768) (unpack16 bs)
unfolding unpack16 AllOk
unpack16-bound [] h = tt
unpack16-bound (a ∷ []) h = tt
unpack16-bound (a ∷ b ∷ bs) (p, (q, h)) =
    cons_sample-AllOk (λ v. magnitude v ≤ 32768) (signed 32768 (a + 256 * b)) (unpack16 bs)
      (signed-magnitude 32768 (a + 256 * b) (omega (arith, p, q))) (unpack16-bound bs h)

unpack32-bound : (bs : List ℕ) → All IsByte bs → AllOk (λ v. magnitude v ≤ 2147483648) (unpack32 bs)
unfolding unpack32 AllOk
unpack32-bound [] h = tt
unpack32-bound (a ∷ []) h = tt
unpack32-bound (a ∷ b ∷ []) h = tt
unpack32-bound (a ∷ b ∷ c ∷ []) h = tt
unpack32-bound (a ∷ b ∷ c ∷ d ∷ bs) (p, (q, (r, (s, h)))) =
    cons_sample-AllOk (λ v. magnitude v ≤ 2147483648) _ (unpack32 bs)
      (signed-magnitude 2147483648 (a + 256 * (b + 256 * (c + 256 * d)))
        (omega (arith, p, q, r, s)))
      (unpack32-bound bs h)

IsWithin : Result Peak → Type 0
IsWithin (ok p) = p.height ≤ p.scale
IsWithin (err e) = Unit

peak_from-IsWithin :
    (scale : ℕ) (r : Result (List ℤ))
    → AllOk (λ v. magnitude v ≤ scale) r
    → IsWithin (peak_from scale r)
unfolding AllOk IsWithin
peak_from-IsWithin scale (ok vs) h = max_magnitude-le scale vs h
peak_from-IsWithin scale (err e) h = tt

peak_of-IsWithin : (w : WaveData) → All IsByte w.frames → IsWithin (peak_of w)
unfolding peak_of IsWithin
peak_of-IsWithin w bytes = elim (Bool-cases (eqb w.sample_width 2)) [
  | inl y ↦ rw y (peak_from-IsWithin 32768 (unpack16 w.frames) (unpack16-bound w.frames bytes))
  | inr n ↦ elim (Bool-cases (eqb w.sample_width 4)) [
    | inl y ↦
        rw (n, y)
          (peak_from-IsWithin 2147483648 (unpack32 w.frames) (unpack32-bound w.frames bytes))
    | inr m ↦ rw (n, m) (omega arith)
  ]
]

-- The peak of a WAV file whose frames are bytes is at most full scale, whatever the width of its
-- samples.
pub peak_of-bound :
    (w : WaveData) (p : Peak) → All IsByte w.frames → peak_of w ≡ ok p → p.height ≤ p.scale
unfolding IsWithin
peak_of-bound w p bytes e = subst IsWithin e (peak_of-IsWithin w bytes)
