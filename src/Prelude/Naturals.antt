-- ===== src/Prelude/Naturals.antt =====
-- Natural numbers in place of float64, for the tests.
use Prim.Native.Nat.{ℕ, ◌+◌, ◌-◌, ◌*◌, ◌/◌, ◌^◌}
use voice_flux_engine.Prelude.Tests.{ltb, leb}
use voice_flux_engine.Prelude.Int.{pos_part}
use voice_flux_engine.Prelude.Float.{Float64}

abbrev pub naturals : Float64
naturals = record {
  F = ℕ;
  of_int = pos_part;
  add = ◌+◌;
  sub = ◌-◌;
  mul = ◌*◌;
  div = ◌/◌;
  sqrt = λ x. x;
  ge = λ a b. leb b a;
  lt = ltb;
  inf = 2 ^ 64;
}
