-- ===== src/Loadgen/Scrape/Quantile.antt =====
-- What `histQuantile` of scrape.go finds.
use voice_flux_engine.Prelude.{
  ℕ, suc, ◌-◌, get_or, ltb, Bool, ◌&&◌, if◌then◌else◌, append_assoc, ◌≡◌, refl, subst, sym, ap, ◌∙◌,
  ◌==◌, ◌||◌, if-true, if-false, true, false, Bool-cases, none, some, List, [], ◌∷◌, ◌++◌, length,
  arith, ◌⊎◌, inl, inr,
}
use voice_flux_engine.Prelude.Int.{negsuc}
use voice_flux_engine.Prelude.Float.{Float64}
use voice_flux_engine.Loadgen.Report.{hundredths}
use voice_flux_engine.Loadgen.Scrape.{
  zero_float, eq_float, total, interpolate, find_bucket, last_finite, hist_quantile,
}

and-true : (b : Bool) → (b && true) ≡ b
and-true b = ground arith

module _ (fl : Float64) where
  open fl use {F, of_int, add, mul, sub, div, ge, inf}

  abbrev pub last_or : F → List F → F
  last_or d [] = d
  last_or d (x ∷ xs) = last_or x xs

  -- The value `v` in the bucket from `lower` to `upper` with `c` of the `cum` counts up to it: where the
  -- target divides them.
  abbrev pub Point : (lower upper c cum target : F) → F → Type 0
  Point lower upper c cum target v =
      ((eq_float fl upper inf ≡ true) × (v ≡ lower))
      ⊎ (((eq_float fl upper inf ≡ false) × (ge (zero_float fl) c ≡ true) × (v ≡ upper))
          ⊎ ((eq_float fl upper inf ≡ false)
              × (ge (zero_float fl) c ≡ false)
              × (v ≡ add lower (div (mul (sub upper lower) (sub target (sub cum c))) c))))

  interpolate-Point :
      (lower upper c cum target : F)
      → Point lower upper c cum target (interpolate fl lower upper c cum target)
  interpolate-Point lower upper c cum target = ground arith

  -- The last bound, or, when that is infinite and not the only one, the one before it.
  abbrev pub LastFinite : List F → F → Type 0
  LastFinite bounds v =
      ((pre : List F) × (bounds ≡ pre ++ v ∷ []) × ((eq_float fl v inf ≡ false) ⊎ (pre ≡ [])))
      ⊎ ((pre : List F) × (u : F) × (bounds ≡ pre ++ v ∷ u ∷ []) × (eq_float fl u inf ≡ true))

  last_two :
      (b c : F) (rest : List F)
      → (pre : List F) × (x : F) × (y : F) × (b ∷ c ∷ rest ≡ pre ++ x ∷ y ∷ [])
        × (get_or (b ∷ c ∷ rest) (length rest) (zero_float fl) ≡ x)
        × (get_or (b ∷ c ∷ rest) (suc (length rest)) (zero_float fl) ≡ y)
  last_two b c [] = ([], b, c, refl, refl, refl)
  last_two b c (d ∷ rest) =
      let (pre, x, y, e, e', e'') = last_two c d rest in (b ∷ pre, x, y, ap (◌∷◌ b) e, e', e'')

  last_finite-pair :
      (b c : F) (rest : List F) (x y : F)
      → get_or (b ∷ c ∷ rest) (length rest) (zero_float fl) ≡ x
      → get_or (b ∷ c ∷ rest) (suc (length rest)) (zero_float fl) ≡ y
      → last_finite fl (b ∷ c ∷ rest) ≡ (if eq_float fl y inf then x else y)
  unfolding last_finite
  last_finite-pair b c rest x y e e' =
      let all = b ∷ c ∷ rest in
      let second : length all - 2 ≡ length rest = omega arith in
      let first : length all - 1 ≡ suc (length rest) = omega arith in
      let long : ltb 1 (length all) ≡ true = ground arith in
      let choose : F → F → Bool → F = λ u v t. if eq_float fl v inf && t then u else v in
      ap
        (λ n.
          choose (get_or all (length all - 2) (zero_float fl)) (get_or all n (zero_float fl))
            (ltb 1 (length all)))
        first
      ∙ ap
          (λ n.
            choose (get_or all n (zero_float fl)) (get_or all (suc (length rest)) (zero_float fl))
              (ltb 1 (length all)))
          second
      ∙ ap
          (choose (get_or all (length rest) (zero_float fl))
            (get_or all (suc (length rest)) (zero_float fl)))
          long
      ∙ ap (λ u. choose u (get_or all (suc (length rest)) (zero_float fl)) true) e
      ∙ ap (λ v. choose x v true) e'
      ∙ ap (λ t. if t then x else y) (and-true (eq_float fl y inf))

  last_finite-LastFinite :
      (b : F) (bounds : List F) → LastFinite (b ∷ bounds) (last_finite fl (b ∷ bounds))
  unfolding last_finite
  last_finite-LastFinite b [] =
      let one : last_finite fl (b ∷ []) ≡ b = ground arith in
      inl ([], ap (λ v. v ∷ []) (sym one), inr refl)
  last_finite-LastFinite b (c ∷ bounds) =
      let (pre, x, y, e, e', e'') = last_two b c bounds in
      let q = last_finite-pair b c bounds x y e' e'' in
      elim (Bool-cases (eq_float fl y inf)) [
        | inl t ↦ subst (LastFinite (b ∷ c ∷ bounds)) (sym (q ∙ if-true x y t)) (inr (pre, y, e, t))
        | inr t ↦
            subst (LastFinite (b ∷ c ∷ bounds)) (sym (q ∙ if-false x y t))
              (inl (pre ++ x ∷ [], e ∙ sym (append_assoc pre (x ∷ []) (y ∷ [])), inl t))
      ]

  -- No count of `pre`, added up from `cum` on, reaches the target.
  abbrev pub Short : (target cum : F) → List F → Type 0
  Short target cum [] = Unit
  Short target cum (c ∷ pre) = (ge (add cum c) target ≡ false) × Short target (add cum c) pre

  -- The value `v` comes from the first bucket whose cumulated count reaches the target.
  abbrev pub Bucket : (target lower cum : F) (bounds counts : List F) → F → Type 0
  Bucket target lower cum bounds counts v =
      (bs cs : List F) × (upper c : F) × (bounds' counts' : List F) × (bounds
        ≡ bs ++ upper ∷ bounds')
      × (counts ≡ cs ++ c ∷ counts')
      × (length bs ≡ length cs)
      × Short target cum cs
      × (ge (add (total fl cum cs) c) target ≡ true)
      × Point (last_or lower bs) upper c (add (total fl cum cs) c) target v

  find_bucket-Bucket :
      (target lower cum : F) (bounds counts : List F)
      → length bounds ≡ length counts
      → ((v : F) × (find_bucket fl target lower cum bounds counts ≡ some v)
          × Bucket target lower cum bounds counts v)
        ⊎ ((find_bucket fl target lower cum bounds counts ≡ none) × Short target cum counts)
  unfolding find_bucket total
  find_bucket-Bucket target lower cum bounds [] h = inr (refl, tt)
  find_bucket-Bucket target lower cum [] (c ∷ counts) h = absurd (omega arith)
  find_bucket-Bucket target lower cum (upper ∷ bounds) (c ∷ counts) h =
      elim (Bool-cases (ge (add cum c) target)) [
        | inl t ↦ inl (
          interpolate fl lower upper c (add cum c) target,
          if-true _ _ t,
          (
            [],
            [],
            upper,
            c,
            bounds,
            counts,
            refl,
            refl,
            refl,
            tt,
            t,
            interpolate-Point lower upper c (add cum c) target,
          ),
        )
        | inr t ↦ elim (find_bucket-Bucket target upper (add cum c) bounds counts (omega arith)) [
          | inl (v, e, (bs, cs, u, c', bounds', counts', eb, ec, l, short, reach, val)) ↦ inl (
            v,
            if-false _ _ t ∙ e,
            (
              upper ∷ bs,
              c ∷ cs,
              u,
              c',
              bounds',
              counts',
              ap (◌∷◌ upper) eb,
              ap (◌∷◌ c) ec,
              omega arith,
              (t, short),
              reach,
              val,
            ),
          )
          | inr (e, short) ↦ inr (if-false _ _ t ∙ e, (t, short))
        ]
      ]

  -- The quantile of a histogram with as many counts as bounds. It is -1 when there is no bound or the
  -- counts do not sum to a positive number. Otherwise it comes from the first bucket whose cumulated
  -- count reaches the target, the given share of the sum: the bound below the bucket when the
  -- bucket's own is infinite, its own when its count is not positive, else the point between the two
  -- that the target divides them at. When no bucket reaches the target it is the last bound, or the one
  -- before it when the last is infinite and not the only one.
  pub hist_quantile-Bucket :
      (bounds counts : List F) (q : ℕ)
      → length bounds ≡ length counts
      → let zero = zero_float fl in
        let sum = total fl zero counts in
        let target = mul (hundredths fl q) sum in
        let v = hist_quantile fl bounds counts q in
        (((ge zero sum ≡ true) ⊎ (bounds ≡ [])) × (v ≡ of_int (negsuc 0)))
        ⊎ (((ge zero sum ≡ false) × Bucket target zero zero bounds counts v)
            ⊎ ((ge zero sum ≡ false) × Short target zero counts × LastFinite bounds v))
  unfolding hist_quantile
  hist_quantile-Bucket [] counts q h =
      let e : (ge (zero_float fl) (total fl (zero_float fl) counts) || true) ≡ true =
        ground arith in
      inl (inr refl, if-true _ _ e)
  hist_quantile-Bucket (b ∷ bounds) counts q h =
      let zero = zero_float fl in
      let sum = total fl zero counts in
      let target = mul (hundredths fl q) sum in
      let z : (length (b ∷ bounds) == 0) ≡ false = ground arith in
      elim (Bool-cases (ge zero sum)) [
        | inl t ↦ inl (inl t, rw t refl)
        | inr t ↦ elim (find_bucket-Bucket target zero zero (b ∷ bounds) counts h) [
          | inl (v, e, bucket) ↦ inr (
              inl (
                t,
                subst (Bucket target zero zero (b ∷ bounds) counts) (sym (rw (t, z, e) refl))
                    bucket,
              ))
          | inr (e, short) ↦ inr (
              inr (
                t,
                short,
                subst (LastFinite (b ∷ bounds)) (sym (rw (t, z, e) refl))
                    (last_finite-LastFinite b bounds),
              ))
        ]
      ]
