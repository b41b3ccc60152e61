-- ===== src/Prelude/Float.antt =====
-- Go's float64, a parameter of the development: a type with the operations that the program uses.
use mathlib.Core.Bool.{Bool}
use voice_flux_engine.Prelude.Int.{ℤ}

pub record Float64 : Type 1 where
  pub F : Type 0
  pub of_int : ℤ → F
  pub add : F → F → F
  pub sub : F → F → F
  pub mul : F → F → F
  pub div : F → F → F
  pub sqrt : F → F
  pub ge : F → F → Bool
  pub lt : F → F → Bool
  pub inf : F
