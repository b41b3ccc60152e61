-- ===== src/Vad/Rms.antt =====
-- vad.go, `rms`: the level of a frame of 16-bit little-endian samples. float64 is a
-- parameter.
use voice_flux_engine.Prelude.{
  ℕ, ◌+◌, ◌*◌, ◌-◌, ◌/◌, ltb, ◌==◌, if◌then◌else◌, List, [], ◌∷◌, length,
}
use voice_flux_engine.Prelude.Int.{ℤ, pos, negsuc}
use voice_flux_engine.Prelude.Float.{Float64}

-- `int16(w)` of a 16-bit word
abbrev pub int16 : ℕ → ℤ
int16 w = if ltb w 32768 then pos w else negsuc (65535 - w)

module _ (fl : Float64) where
  open fl use {F, of_int, add, mul, div, sqrt}

  abbrev pub sample : ℕ → ℕ → F
  sample lo hi = div (of_int (int16 (lo + hi * 256))) (of_int (pos 32768))

  -- the loop over the samples; an odd last byte is not read
  unfoldable pub sum_squares : F → List ℕ → F
  sum_squares sum [] = sum
  sum_squares sum (lo ∷ []) = sum
  sum_squares sum (lo ∷ hi ∷ pcm) = sum_squares (add sum (mul (sample lo hi) (sample lo hi))) pcm

  unfoldable pub rms : List ℕ → F
  unfolding sum_squares
  rms pcm =
      let n = length pcm / 2 in
      if n == 0
      then of_int (pos 0)
      else sqrt (div (sum_squares (of_int (pos 0)) pcm) (of_int (pos n)))
