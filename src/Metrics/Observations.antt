-- ===== src/Metrics/Observations.antt =====
-- The account of the values that a histogram of metrics.go has observed.
use voice_flux_engine.Prelude.{
  ℕ, suc, ◌+◌, ◌≤◌, ◌<◌, ◌^◌, ◌≡◌, refl, sym, ap, ap₂, ◌∙◌, subst, ltb, ◌||◌, if◌then◌else◌,
  if-true, if-false, true, false, Bool-cases, List, [], ◌∷◌, length, u64, arith, inl, inr,
}
use voice_flux_engine.Prelude.Int.{pos}
use voice_flux_engine.Prelude.Float.{Float64}
use voice_flux_engine.Prelude.Sort.{IsSorted}
use voice_flux_engine.Metrics.{Histogram, search, is_nan, observe, observe_all, new_histogram}
use voice_flux_engine.Metrics.Buckets.{
  sum, sum-set, sum-replicate, Cumulates, length-Cumulates, Cumulates-ext, Cumulates-zero, accepted,
  kept, at_most, one_more, bump, bump-Cumulates,
}

module _ (fl : Float64) where
  open fl use {F, of_int, ge, lt}

  module _ (trans : (a b c : F) → ge b a ≡ true → ge c b ≡ true → ge c a ≡ true) where
    -- The histogram counts `n` values, of which `g b` are at most `b`.
    record Counted (bounds : List F) (g : F → ℕ) (n : ℕ) (h : Histogram F) : Type 0 where
      same_bounds : h.bounds ≡ bounds
      cumulates : Cumulates g 0 bounds h.counts
      all : h.count ≡ n
      split : sum h.counts + h.inf_count ≡ n

    -- how `Observe` changes the counters that it changes
    observe-fields :
        (x : F) (h : Histogram F)
        → accepted fl x ≡ true
        → let h' = observe fl x h in
          (h'.bounds ≡ h.bounds)
          × (h'.counts ≡ bump fl h.bounds x h.counts)
          × (h'.count ≡ u64 (h.count + 1))
          × (h'.inf_count ≡ (
              if ltb (search fl h.bounds x) (length h.bounds)
              then h.inf_count
              else u64 (h.inf_count + 1)))
    unfolding observe
    observe-fields x h ok =
        let no : (lt x (of_int (pos 0)) || is_nan fl x) ≡ false = ground arith in
        elim (Bool-cases (ltb (search fl h.bounds x) (length h.bounds))) [
          | inl t ↦ (rw (no, t) refl, rw (no, t) refl, rw no refl, rw (no, t) refl)
          | inr t ↦ (rw (no, t) refl, rw (no, t) refl, rw no refl, rw (no, t) refl)
        ]

    observe-ignored : (x : F) (h : Histogram F) → accepted fl x ≡ false → observe fl x h ≡ h
    unfolding observe
    observe-ignored x h neg =
        let yes : (lt x (of_int (pos 0)) || is_nan fl x) ≡ true = ground arith in if-true _ _ yes

    bump_total :
        (bs : List F) (x : F) (cs : List ℕ) (inf n : ℕ)
        → length cs ≡ length bs
        → sum cs + inf ≡ n
        → n + 1 < 2 ^ 64
        → sum (bump fl bs x cs) + (if ltb (search fl bs x) (length bs) then inf else u64 (inf + 1))
          ≡ suc n
    bump_total bs x cs inf n l e small = elim (Bool-cases (ltb (search fl bs x) (length bs))) [
      | inl t ↦
          let inside : search fl bs x < length cs = ground arith in
          let up = sum-set cs (search fl bs x) inside (omega arith) in rw t (omega arith)
      | inr t ↦ rw t (omega arith)
    ]

    observe-Counted :
        (x : F) (bounds : List F) (g : F → ℕ) (n : ℕ) (h : Histogram F)
        → accepted fl x ≡ true
        → IsSorted (λ a b. ge b a) bounds
        → ((b : F) → g b ≤ n)
        → n + 1 < 2 ^ 64
        → Counted bounds g n h
        → Counted bounds (one_more fl x g) (suc n) (observe fl x h)
    observe-Counted x bounds g n h ok s below small k =
        let (eb, ec, en, ei) = observe-fields x h ok in
        let bump_same = ap (λ bs. bump fl bs x h.counts) k.same_bounds in
        record {
          same_bounds = eb ∙ k.same_bounds;
          cumulates =
              subst (Cumulates (one_more fl x g) 0 bounds) (sym (ec ∙ bump_same))
                (bump-Cumulates fl trans x k.cumulates s λ b. let l = below b in omega arith);
          all = let e = k.all in omega arith;
          split =
              let count_same =
                ap
                  (λ bs.
                    sum (bump fl bs x h.counts)
                    + (if ltb (search fl bs x) (length bs)
                        then h.inf_count
                        else u64 (h.inf_count + 1)))
                  k.same_bounds in
              ap₂ (λ cs m. sum cs + m) ec ei
              ∙ count_same
              ∙ bump_total bounds x h.counts h.inf_count n (length-Cumulates k.cumulates) k.split
                  small;
        }

    Counted-ext :
        {bounds : List F} {g g' : F → ℕ} {n n' : ℕ} {h : Histogram F}
        → ((b : F) → g b ≡ g' b)
        → n ≡ n'
        → Counted bounds g n h
        → Counted bounds g' n' h
    Counted-ext eg en k = record {
      same_bounds = k.same_bounds;
      cumulates = Cumulates-ext eg k.cumulates;
      all = k.all ∙ en;
      split = k.split ∙ en;
    }

    observe_all-Counted :
        (xs : List F) (bounds : List F) (g : F → ℕ) (n : ℕ) (h : Histogram F)
        → IsSorted (λ a b. ge b a) bounds
        → ((b : F) → g b ≤ n)
        → n + length xs < 2 ^ 64
        → Counted bounds g n h
        → Counted bounds
            (λ b. at_most fl (kept fl xs) b + g b)
            (length (kept fl xs) + n)
            (observe_all fl xs h)
    unfolding observe_all
    observe_all-Counted [] bounds g n h s below small k =
        Counted-ext (λ b. omega arith) (omega arith) k
    observe_all-Counted (x ∷ xs) bounds g n h s below small k = elim (Bool-cases (accepted fl x)) [
      | inl t ↦
          let whole : kept fl (x ∷ xs) ≡ x ∷ kept fl xs = if-true _ _ t in
          let rec =
            observe_all-Counted xs bounds (one_more fl x g) (suc n) (observe fl x h) s
              (λ b. let l = below b in ground arith) (omega arith)
              (observe-Counted x bounds g n h t s below (omega arith) k) in
          subst
            (λ ys.
              Counted bounds (λ b. at_most fl ys b + g b) (length ys + n)
                (observe_all fl xs (observe fl x h)))
            (sym whole) (Counted-ext (λ b. omega arith) (omega arith) rec)
      | inr t ↦
          let whole : kept fl (x ∷ xs) ≡ kept fl xs = if-false _ _ t in
          subst
            (λ ys.
              Counted bounds (λ b. at_most fl ys b + g b) (length ys + n)
                (observe_all fl xs (observe fl x h)))
            (sym whole)
            (subst
              (λ h'.
                Counted bounds (λ b. at_most fl (kept fl xs) b + g b) (length (kept fl xs) + n)
                  (observe_all fl xs h'))
              (sym (observe-ignored x h t))
              (observe_all-Counted xs bounds g n h s below (omega arith) k))
    ]

    -- A histogram with ascending bounds after some observations, fewer than 2^64. Its counts,
    -- cumulated, are at each bound the number of the values at most that bound; with the count past
    -- the last bound they sum to the number of all. Values that are negative or NaN do not count.
    pub observe_all-counts :
        (name help : List ℕ) (bounds xs : List F)
        → IsSorted (λ a b. ge b a) bounds
        → length xs < 2 ^ 64
        → let h = observe_all fl xs (new_histogram fl name help bounds) in
          Cumulates (at_most fl (kept fl xs)) 0 bounds h.counts
          × (sum h.counts + h.inf_count ≡ length (kept fl xs))
          × (h.count ≡ length (kept fl xs))
    observe_all-counts name help bounds xs s small =
        let h = new_histogram fl name help bounds in
        let k =
          observe_all-Counted xs bounds (λ b. 0) 0 h s (λ b. omega arith) (omega arith)
            (record {
              same_bounds = refl;
              cumulates = Cumulates-zero bounds;
              all = refl;
              split = let z = sum-replicate (length bounds) in omega arith;
            }) in
        let k' = Counted-ext {g' = at_most fl (kept fl xs)} (λ b. omega arith) (omega arith) k in
        (k'.cumulates, k'.split, k'.all)
