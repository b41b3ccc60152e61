-- ===== src/Loadgen/Report/Knee.antt =====
-- What `percentile` and `Analyze` of report.go find.
use voice_flux_engine.Prelude.{
  ℕ, ◌+◌, ◌<◌, ◌≤◌, ◌≡◌, ap, true, false, List, [], ◌∷◌, ◌++◌, length, get_or, arith,
}
use voice_flux_engine.Prelude.Int.{pos}
use voice_flux_engine.Prelude.Float.{Float64}
use voice_flux_engine.Prelude.Sort.{sort, length-sort, count, sort-ranks}
use voice_flux_engine.Loadgen.Report.{StepRecord, rank, percentile, degraded, clean_next}

module _ (fl : Float64) where
  open fl use {F, of_int, mul, ge}

  -- Of samples in an order that is total and transitive, the percentile is a sample in milliseconds.
  -- More than as many samples as its place are at most it, and at least as many as follow its place
  -- are at least it; the place is that of `rank`, q per cent of the number rounded, but the last at
  -- most.
  pub percentile_ranks :
      (x : F) (xs : List F) (q : ℕ)
      → ((a b : F) → ge b a ≡ false → ge a b ≡ true)
      → ((a b c : F) → ge b a ≡ true → ge c b ≡ true → ge c a ≡ true)
      → (v : F) × (percentile fl (x ∷ xs) q ≡ mul v (of_int (pos 1000)))
        × (rank q (length (x ∷ xs)) < count (λ y. ge v y) (x ∷ xs))
        × (length (x ∷ xs) ≤ count (λ y. ge y v) (x ∷ xs) + rank q (length (x ∷ xs)))
  unfolding percentile
  percentile_ranks x xs q total trans =
      let n = length (x ∷ xs) in
      let l = length-sort (λ a b. ge b a) (x ∷ xs) in
      let inside : rank q n < n = ground arith in
      let (lo, hi) = sort-ranks (λ a b. ge b a) total trans (x ∷ xs) (rank q n) x inside in
      (
        get_or (sort (λ a b. ge b a) (x ∷ xs)) (rank q n) x,
        ap (λ i. mul (get_or (sort (λ a b. ge b a) (x ∷ xs)) (rank q i) x) (of_int (pos 1000))) l,
        lo,
        hi,
      )

  -- The steps of `pre`, before `post`, that are degraded are each followed by a step that is not.
  abbrev pub Transient : F → List (StepRecord F) → List (StepRecord F) → Type 0
  Transient base [] post = Unit
  Transient base (r ∷ pre) post =
      ((degraded fl base r ≡ true) → (clean_next fl base (pre ++ post) ≡ true))
      × Transient base pre post

  -- `k` is the first degraded step that the last step or another degraded one follows.
  abbrev pub Knee : F → List (StepRecord F) → StepRecord F → Type 0
  Knee base recs k =
      (pre post : List (StepRecord F)) × (recs ≡ pre ++ k ∷ post)
      × Transient base pre (k ∷ post)
      × (degraded fl base k ≡ true)
      × (clean_next fl base post ≡ false)
