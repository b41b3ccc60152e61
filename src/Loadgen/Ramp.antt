-- ===== src/Loadgen/Ramp.antt =====
-- internal/loadgen: `buildRecord` of report.go and `Run` of loadgen.go, the ramp over the steps.
use voice_flux_engine.Prelude.{
  ℕ, ◌≤◌, ◌≡◌, refl, sym, ap, ◌∙◌, subst, ltb, if◌then◌else◌, Option, none, some, List, [], ◌∷◌,
  ◌++◌, map, map-append, append-nil, append_assoc, arith,
}
use voice_flux_engine.Prelude.Int.{ℤ, pos, negsuc}
use voice_flux_engine.Prelude.Float.{Float64}
use voice_flux_engine.Prelude.Result.{Result, ok, err, ok-injective}
use voice_flux_engine.Loadgen.Report.{StepRecord, Analysis, percentile, analyze}
use voice_flux_engine.Loadgen.Scrape.{
  Snapshot, zero_float, scalar, scalar_delta, hist_delta, hist_quantile,
}
use voice_flux_engine.Loadgen.Collector.{WindowAgg}

-- The names of the server's metrics.
pub record MetricNames : Type 0 where
  pub first_response : List ℕ
  pub kernel_overhead : List ℕ
  pub barge_in_cancel : List ℕ
  pub turns_completed : List ℕ
  pub turns_cancelled : List ℕ
  pub ingress_dropped : List ℕ
  pub egress_dropped : List ℕ
  pub cpu_capacity : List ℕ
  pub cpu_busy : List ℕ
  pub goroutines : List ℕ
  pub heap_bytes : List ℕ
  pub sessions_active : List ℕ

-- What happens in a step: the context has ended before it, during the warmup or during the window;
-- a scrape fails; or the step is measured.
pub data Outcome (F : Type 0) : Type 0 where
  stopped cold scrape0_fails interrupted : Outcome F
  scrape1_fails : Outcome F
  measured : F → WindowAgg → Option (Snapshot F) → Option (Snapshot F) → ℕ → Outcome F

pub data RunError : Type 0 where
  pre_step_scrape post_step_scrape : RunError

module _ (fl : Float64) (seconds : ℤ → fl.F) (names : MetricNames) where
  open fl use {F, of_int, add, mul, div, ge, lt}

  abbrev pub unknown : F
  unknown = of_int (negsuc 0)

  abbrev pub seconds_of : List ℤ → List F
  seconds_of ds = map seconds ds

  abbrev pub hist_q : Snapshot F → Snapshot F → List ℕ → ℕ → F
  hist_q s0 s1 name q =
      let (bounds, counts) = hist_delta fl s0 s1 name in
      let v = hist_quantile fl bounds counts q in
      if lt v (zero_float fl) then unknown else mul v (of_int (pos 1000))

  abbrev pub client_record : ℕ → F → WindowAgg → ℕ → StepRecord F
  client_record n elapsed agg live = record {
    concurrency = n;
    live_workers = live;
    duration_s = elapsed;
    turns = agg.turns;
    errors = agg.errs;
    e2e_first_p50 = percentile fl (seconds_of agg.first) 50;
    e2e_first_p95 = percentile fl (seconds_of agg.first) 95;
    e2e_first_p99 = percentile fl (seconds_of agg.first) 99;
    e2e_barge_p50 = percentile fl (seconds_of agg.barge) 50;
    e2e_barge_p99 = percentile fl (seconds_of agg.barge) 99;
    srv_first_p50 = unknown;
    srv_first_p99 = unknown;
    srv_kernel_p99 = unknown;
    srv_barge_p99 = unknown;
    server_turn_rate = unknown;
    uplink_fps = div (of_int (pos agg.frames)) elapsed;
    ingress_drop_rate = unknown;
    egress_drop_per_s = unknown;
    cpu_util = unknown;
    goroutines = unknown;
    heap_mb = unknown;
    sessions_active = unknown;
  }

  abbrev pub server_record : F → ℕ → Snapshot F → Snapshot F → StepRecord F → StepRecord F
  server_record elapsed frames s0 s1 rec =
      let delta = scalar_delta fl s0 s1 in
      record rec {
        srv_first_p50 = hist_q s0 s1 names.first_response 50;
        srv_first_p99 = hist_q s0 s1 names.first_response 99;
        srv_kernel_p99 = hist_q s0 s1 names.kernel_overhead 99;
        srv_barge_p99 = hist_q s0 s1 names.barge_in_cancel 99;
        server_turn_rate =
            div (add (delta names.turns_completed) (delta names.turns_cancelled)) elapsed;
        ingress_drop_rate =
            if ltb 0 frames
            then div (delta names.ingress_dropped) (of_int (pos frames))
            else rec.ingress_drop_rate;
        egress_drop_per_s = div (delta names.egress_dropped) elapsed;
        cpu_util =
            if lt (zero_float fl) (delta names.cpu_capacity)
            then div (delta names.cpu_busy) (delta names.cpu_capacity)
            else rec.cpu_util;
        goroutines = scalar fl s1 names.goroutines;
        heap_mb = div (scalar fl s1 names.heap_bytes) (of_int (pos 1048576));
        sessions_active = scalar fl s1 names.sessions_active;
      }

  -- `buildRecord`; a missing snapshot is nil
  unfoldable pub build_record :
      ℕ → F → WindowAgg → Option (Snapshot F) → Option (Snapshot F) → ℕ → StepRecord F
  build_record n elapsed agg (some s0) (some s1) live =
      server_record elapsed agg.frames s0 s1 (client_record n elapsed agg live)
  build_record n elapsed agg s0 s1 live = client_record n elapsed agg live

  -- the loop of `Run`: the workers started and the records
  pub record Ramp : Type 0 where
    pub spawned : ℕ
    pub records : List (StepRecord F)

  abbrev pub spawn : ℕ → Ramp → Ramp
  spawn n r = if ltb r.spawned n then record r { spawned = n } else r

  unfoldable pub ramp : List (ℕ × Outcome F) → Ramp → Result RunError Ramp
  ramp [] r = ok r
  ramp ((n, stopped) ∷ steps) r = ok r
  ramp ((n, cold) ∷ steps) r = ok (spawn n r)
  ramp ((n, scrape0_fails) ∷ steps) r = err pre_step_scrape
  ramp ((n, interrupted) ∷ steps) r = ok (spawn n r)
  ramp ((n, scrape1_fails) ∷ steps) r = err post_step_scrape
  ramp ((n, measured elapsed agg s0 s1 live) ∷ steps) r =
      ramp steps
        (record (spawn n r) { records = r.records ++ build_record n elapsed agg s0 s1 live ∷ [] })

  -- `Run` on the steps, without its times and texts
  unfoldable pub run_steps : List (ℕ × Outcome F) → Result RunError (Ramp × Analysis)
  run_steps steps = elim (ramp steps (record { spawned = 0; records = [] })) [
    | err e ↦ err e
    | ok r ↦ ok (r, analyze fl r.records)
  ]

  build_record-concurrency :
      (n : ℕ) (elapsed : F) (agg : WindowAgg) (s0 s1 : Option (Snapshot F)) (live : ℕ)
      → (build_record n elapsed agg s0 s1 live).concurrency ≡ n
  unfolding build_record
  build_record-concurrency n elapsed agg none s1 live = refl
  build_record-concurrency n elapsed agg (some s0) none live = refl
  build_record-concurrency n elapsed agg (some s0) (some s1) live = refl

  abbrev pub levels : List (StepRecord F) → List ℕ
  levels recs = map (λ r. r.concurrency) recs

  -- The steps measured, and those that follow.
  abbrev pub Measured : List (ℕ × Outcome F) → Ramp → Ramp → Type 0
  Measured steps r r' =
      (done rest : List ℕ) × (map (λ s. s.0) steps ≡ done ++ rest)
      × (levels r'.records ≡ levels r.records ++ done)
      × (r.spawned ≤ r'.spawned)

  ends_here :
      (steps : List (ℕ × Outcome F)) (r x r' : Ramp)
      → x.records ≡ r.records
      → r.spawned ≤ x.spawned
      → ◌≡◌ {A = Result RunError Ramp} (ok x) (ok r')
      → Measured steps r r'
  ends_here steps r x r' same le h =
      subst (Measured steps r) (ok-injective h)
        ([], map (λ s. s.0) steps, refl, ap levels same ∙ sym (append-nil (levels r.records)), le)

  spawn-le : (n : ℕ) (r : Ramp) → (r.spawned ≤ (spawn n r).spawned) × (n ≤ (spawn n r).spawned)
  spawn-le n r = (ground arith, ground arith)

  spawn-records : (n : ℕ) (r : Ramp) → (spawn n r).records ≡ r.records
  spawn-records n r = ground arith

  -- A ramp that is not broken off by a failed scrape has a record for each of its first steps, in
  -- their order, and for no other; the number of workers does not fall.
  pub ramp-Measured :
      (steps : List (ℕ × Outcome F)) (r r' : Ramp) → ramp steps r ≡ ok r' → Measured steps r r'
  unfolding ramp
  ramp-Measured [] r r' h = ends_here [] r r r' refl (omega arith) h
  ramp-Measured ((n, stopped) ∷ steps) r r' h =
      ends_here ((n, stopped) ∷ steps) r r r' refl (omega arith) h
  ramp-Measured ((n, cold) ∷ steps) r r' h =
      ends_here ((n, cold) ∷ steps) r (spawn n r) r' (spawn-records n r) (spawn-le n r).0 h
  ramp-Measured ((n, scrape0_fails) ∷ steps) r r' h = absurd (ground arith)
  ramp-Measured ((n, interrupted) ∷ steps) r r' h =
      ends_here ((n, interrupted) ∷ steps) r (spawn n r) r' (spawn-records n r) (spawn-le n r).0 h
  ramp-Measured ((n, scrape1_fails) ∷ steps) r r' h = absurd (ground arith)
  ramp-Measured ((n, measured elapsed agg s0 s1 live) ∷ steps) r r' h =
      let rec = build_record n elapsed agg s0 s1 live in
      let next : Ramp = record (spawn n r) { records = r.records ++ rec ∷ [] } in
      let (done, rest, e, l, le) = ramp-Measured steps next r' h in
      let one = ap (λ k. k ∷ []) (build_record-concurrency n elapsed agg s0 s1 live) in
      (
        n ∷ done,
        rest,
        ap (◌∷◌ n) e,
        l
            ∙ ap (λ xs. xs ++ done)
                (map-append (λ x. x.concurrency) r.records (rec ∷ [])
                  ∙ ap (λ xs. levels r.records ++ xs) one)
            ∙ append_assoc (levels r.records) (n ∷ []) done,
        let g = (spawn-le n r).0 in omega arith,
      )
