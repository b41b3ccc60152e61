-- ===== src/Loadgen/Scrape/Observed.antt =====
-- What metrics.go has observed, as scrape.go reads it.
use voice_flux_engine.Prelude.{
  ℕ, ◌+◌, ◌≤◌, ◌<◌, ◌^◌, ◌≡◌, ◌≢◌, refl, sym, ap, ap₂, ◌∙◌, subst, ltb, ◌||◌, not, if-true, Bool,
  true, Bool-cases, Option, none, some, List, [], ◌∷◌, ◌++◌, map, length, u64, arith, inl, inr,
}
use voice_flux_engine.Prelude.Int.{pos}
use voice_flux_engine.Prelude.Float.{Float64}
use voice_flux_engine.Prelude.Sort.{IsSorted, All, count}
use voice_flux_engine.Prelude.Bytes.{bytes_eq, Without}
use voice_flux_engine.Metrics.{
  Histogram, search, is_nan, observe, observe_all, new_histogram, sum_word, count_word, cumulated,
  histogram_lines,
}
use voice_flux_engine.Metrics.Buckets.{sum, Cumulates, none_left, next, kept, at_most}
use voice_flux_engine.Metrics.Observations.{observe_all-counts}
use voice_flux_engine.Loadgen.Scrape.{Snapshot, map_get, map_put, eq_float, parse_lines}
use voice_flux_engine.Loadgen.Scrape.Store.{readings, Distinct}
use voice_flux_engine.Loadgen.Scrape.Histogram.{Finite, parse_lines-histogram_lines}

module _ (fl : Float64) where
  open fl use {F, of_int, ge, lt, inf}

  -- each bound with a number of values
  abbrev pub tallied : (F → ℕ) → List F → List (F × F)
  tallied g bounds = map (λ b. (b, of_int (pos (g b)))) bounds

  readings-tallied :
      (g : F → ℕ) (cum : ℕ) (bounds : List F) (counts : List ℕ)
      → ((b : F) → g b < 2 ^ 64)
      → Cumulates g cum bounds counts
      → readings fl cum bounds counts ≡ tallied g bounds
  readings-tallied g cum bounds counts small none_left = refl
  readings-tallied g cum bounds counts small (next {c = c} {b = b} {bs = bs} {cs = cs} e k) =
      let l = small b in
      let whole : u64 (cum + c) ≡ cum + c = omega arith in
      ap₂ (λ v ps. (b, of_int (pos v)) ∷ ps) (whole ∙ e)
        (ap (λ n. readings fl n bs cs) whole ∙ readings-tallied g (cum + c) bs cs small k)

  count-le : (p : F → Bool) (xs : List F) → count p xs ≤ length xs
  count-le p [] = omega arith
  count-le p (x ∷ xs) = let rec = count-le p xs in ground arith

  kept-le : (xs : List F) → length (kept fl xs) ≤ length xs
  kept-le [] = omega arith
  kept-le (x ∷ xs) = let rec = kept-le xs in ground arith

  -- what observing leaves as it is
  abbrev label : Histogram F → List ℕ × List F
  label h = (h.name, h.bounds)

  label-observe : (x : F) (h : Histogram F) → label (observe fl x h) ≡ label h
  unfolding observe
  label-observe x h = elim (Bool-cases (lt x (of_int (pos 0)) || is_nan fl x)) [
    | inl t ↦ ap label (if-true _ _ t)
    | inr f ↦ elim (Bool-cases (ltb (search fl h.bounds x) (length h.bounds))) [
      | inl t ↦ rw (f, t) refl
      | inr t ↦ rw (f, t) refl
    ]
  ]

  label-observe_all : (xs : List F) (h : Histogram F) → label (observe_all fl xs h) ≡ label h
  unfolding observe_all
  label-observe_all [] h = refl
  label-observe_all (x ∷ xs) h = label-observe_all xs (observe fl x h) ∙ label-observe x h

  module _ (parse_float : List ℕ → Option F) (format_float : F → List ℕ)
      (reads : (v : F) → parse_float (format_float v) ≡ some v)
      (plain : (v : F) → Without b' ' (format_float v))
      (trans : (a b c : F) → ge b a ≡ true → ge c b ≡ true → ge c a ≡ true) where
    cumulated-sum :
        (cum : ℕ) (counts : List ℕ)
        → cum + sum counts < 2 ^ 64
        → cumulated fl format_float cum counts ≡ cum + sum counts
    cumulated-sum cum [] small = omega arith
    cumulated-sum cum (c ∷ counts) small =
        let whole : u64 (cum + c) ≡ cum + c = omega arith in
        ap (λ n. cumulated fl format_float n counts) whole
        ∙ cumulated-sum (cum + c) counts (omega arith)
        ∙ omega arith

    -- A new histogram that has observed some values, fewer than 2^64, and whose text is then read:
    -- the snapshot has for each bound the number of the values at most that bound, and the number of
    -- all at infinity and as the count; negative values and NaN are left out. The name begins with
    -- no number sign, has no brace and is new, and the bounds are finite, ascending and different.
    pub scraped_observations :
        (c : ℕ) (name help : List ℕ) (bounds xs : List F) (snap : Snapshot F)
        → c ≢ b'#'
        → Without b'{' (c ∷ name)
        → Finite fl parse_float format_float reads plain bounds
        → All (λ b. not (eq_float fl inf b)) bounds
        → Distinct fl bounds
        → IsSorted (λ a b. ge b a) bounds
        → map_get bytes_eq (c ∷ name) snap.hists ≡ none
        → length xs < 2 ^ 64
        → let h = observe_all fl xs (new_histogram fl (c ∷ name) help bounds) in
          let all = of_int (pos (length (kept fl xs))) in
          parse_lines fl parse_float snap (histogram_lines fl format_float h)
          ≡ some (record {
            scalars =
                map_put bytes_eq
                  ((c ∷ name) ++ count_word)
                  all
                  (map_put bytes_eq ((c ∷ name) ++ sum_word) h.sum snap.scalars);
            hists =
                snap.hists
                ++ (c ∷ name, tallied (at_most fl (kept fl xs)) bounds ++ (inf, all) ∷ []) ∷ [];
          })
    scraped_observations c name help bounds xs snap hash w fin below d s n small =
        let h = observe_all fl xs (new_histogram fl (c ∷ name) help bounds) in
        let (k, total, all) = observe_all-counts fl trans (c ∷ name) help bounds xs s small in
        let same = label-observe_all xs (new_histogram fl (c ∷ name) help bounds) in
        let same_bounds : h.bounds ≡ bounds = ap (λ l. l.1) same in
        let few = kept-le xs in
        let tally =
          ap (λ bs. readings fl 0 bs h.counts) same_bounds
          ∙ readings-tallied (at_most fl (kept fl xs)) 0 bounds h.counts
              (λ b. let l = count-le (λ x. ge b x) (kept fl xs) in omega arith) k in
        let sums = cumulated-sum 0 h.counts (omega arith) in
        let top : u64 (cumulated fl format_float 0 h.counts + h.inf_count) ≡ length (kept fl xs) =
          omega arith in
        parse_lines-histogram_lines fl parse_float format_float reads plain c name h snap
          (ap (λ l. l.0) same) hash w
          (subst (λ bs. Finite fl parse_float format_float reads plain bs) (sym same_bounds) fin)
          (subst (λ bs. All (λ b. not (eq_float fl inf b)) bs) (sym same_bounds) below)
          (subst (λ bs. Distinct fl bs) (sym same_bounds) d) n
        ∙ (λ i. some (record {
          scalars =
              map_put bytes_eq ((c ∷ name) ++ count_word) (of_int (pos (all i)))
                (map_put bytes_eq ((c ∷ name) ++ sum_word) h.sum snap.scalars);
          hists = snap.hists ++ (c ∷ name, tally i ++ (inf, of_int (pos (top i))) ∷ []) ∷ [];
        }))
