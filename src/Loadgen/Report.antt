-- ===== src/Loadgen/Report.antt =====
-- internal/loadgen/report.go: the points of the capacity curve and their analysis. The texts of the
-- report are left out.
pub mod Knee
use voice_flux_engine.Prelude.{
  ℕ, ◌+◌, ◌-◌, ◌*◌, ◌/◌, ltb, leb, ◌==◌, ◌&&◌, ◌||◌, not, if◌then◌else◌, Bool, true, false, Option,
  none, some, List, [], ◌∷◌, length, get_or,
}
use voice_flux_engine.Prelude.Int.{pos, negsuc}
use voice_flux_engine.Prelude.Float.{Float64}
use voice_flux_engine.Prelude.Sort.{sort}

-- `F` is float64; latencies are milliseconds.
pub record StepRecord (F : Type 0) : Type 0 where
  pub concurrency : ℕ
  pub live_workers : ℕ
  pub duration_s : F
  pub turns : ℕ
  pub errors : ℕ
  pub e2e_first_p50 : F
  pub e2e_first_p95 : F
  pub e2e_first_p99 : F
  pub e2e_barge_p50 : F
  pub e2e_barge_p99 : F
  pub srv_first_p50 : F
  pub srv_first_p99 : F
  pub srv_kernel_p99 : F
  pub srv_barge_p99 : F
  pub server_turn_rate : F
  pub uplink_fps : F
  pub ingress_drop_rate : F
  pub egress_drop_per_s : F
  pub cpu_util : F
  pub goroutines : F
  pub heap_mb : F
  pub sessions_active : F

pub data Wall : Type 0 where
  cpu drops errors scheduling no_wall : Wall

pub record Analysis : Type 0 where
  pub knee_concurrency : ℕ
  pub wall : Wall

-- int(q * n + 0.5), cut to the last place, for a quantile of `q` per cent; the product is exact
abbrev pub rank : (q n : ℕ) → ℕ
rank q n = let idx = (q * n + 50) / 100 in if leb n idx then n - 1 else idx

module _ (fl : Float64) where
  open fl use {F, of_int, add, mul, div, ge, lt}

  -- the decimal constants of the program: the quotient of two small integers is rounded to the
  -- nearest number, as the constant is
  abbrev pub hundredths : ℕ → F
  hundredths n = div (of_int (pos n)) (of_int (pos 100))

  unfoldable pub percentile : List F → ℕ → F
  percentile [] q = of_int (negsuc 0)
  percentile (x ∷ xs) q =
      let s = sort (λ a b. ge b a) (x ∷ xs) in
      mul (get_or s (rank q (length s)) x) (of_int (pos 1000))

  -- the view of the server when there is one
  abbrev pub lat : StepRecord F → F
  lat r = if ge r.srv_first_p99 (of_int (pos 0)) then r.srv_first_p99 else r.e2e_first_p99

  abbrev pub out_of_band : F → StepRecord F → Bool
  out_of_band base r =
      ge base (of_int (pos 0))
      && (ge (lat r) (of_int (pos 0))
          && lt (add (mul base (of_int (pos 2))) (of_int (pos 20))) (lat r))

  abbrev pub dropping : StepRecord F → Bool
  dropping r = lt (hundredths 1) r.ingress_drop_rate

  unfoldable pub degraded : F → StepRecord F → Bool
  degraded base r = out_of_band base r || (dropping r || ltb 0 r.errors)

  -- `i+1 < len(recs) && !degraded(recs[i+1])`, of the records from `i + 1` on
  abbrev pub clean_next : F → List (StepRecord F) → Bool
  clean_next base [] = false
  clean_next base (r ∷ rs) = not (degraded base r)

  -- the switch of `Analyze`
  unfoldable pub wall_of : StepRecord F → Wall
  wall_of r =
      if ltb 0 r.errors
      then errors
      else if ge r.cpu_util (hundredths 85)
      then cpu
      else if dropping r
      then drops
      else scheduling

  -- the loop of `Analyze`
  unfoldable pub find_knee : F → List (StepRecord F) → Option (StepRecord F)
  find_knee base [] = none
  find_knee base (r ∷ rs) =
      let rest = find_knee base rs in
      if not (degraded base r) then rest else if clean_next base rs then rest else some r

  unfoldable pub analyze : List (StepRecord F) → Analysis
  analyze [] = record { knee_concurrency = 0; wall = no_wall }
  analyze (r ∷ rs) = elim (find_knee (lat r) (r ∷ rs)) [
    | none ↦ record { knee_concurrency = 0; wall = no_wall }
    | some k ↦ record { knee_concurrency = k.concurrency; wall = wall_of k }
  ]
