-- ===== src/Loadgen/Scrape/Store.antt =====
-- The histograms of a snapshot of scrape.go while the readings of one more are added.
use voice_flux_engine.Prelude.{
  ℕ, ◌+◌, ◌≡◌, refl, sym, ap, ◌∙◌, not, if-true, if-false, Bool, true, false, none, some, List, [],
  ◌∷◌, ◌++◌, Bool-cases, get_or, drop, u64, arith, inl, inr,
}
use mathlib.Core.Option.{none-ne-some}
use voice_flux_engine.Prelude.Int.{pos}
use voice_flux_engine.Prelude.Float.{Float64}
use voice_flux_engine.Prelude.Sort.{All}
use voice_flux_engine.Prelude.Bytes.{bytes_eq, bytes_eq_refl}
use voice_flux_engine.Loadgen.Scrape.{map_get, map_put, map_get_or, eq_float}

module _ {K : Type 0} {V : Type 0} (eq : K → K → Bool) where
  missing :
      (k k' : K) (v : V) (m : List (K × V))
      → map_get eq k ((k', v) ∷ m) ≡ none
      → (eq k k' ≡ false) × (map_get eq k m ≡ none)
  missing k k' v m e = elim (Bool-cases (eq k k')) [
    | inl t ↦ absurd (none-ne-some _ (sym e ∙ if-true _ _ t))
    | inr f ↦ (f, sym (if-false (some v) (map_get eq k m) f) ∙ e)
  ]

  -- a new key comes last
  map_put-new :
      (k : K) (v : V) (m : List (K × V))
      → map_get eq k m ≡ none
      → map_put eq k v m ≡ m ++ (k, v) ∷ []
  map_put-new k v [] e = refl
  map_put-new k v ((k', v') ∷ m) e =
      let (f, e') = missing k k' v' m e in if-false _ _ f ∙ ap (◌∷◌ (k', v')) (map_put-new k v m e')

  -- and is replaced there
  map_put-last :
      (k : K) (v w : V) (m : List (K × V))
      → eq k k ≡ true
      → map_get eq k m ≡ none
      → map_put eq k w (m ++ (k, v) ∷ []) ≡ m ++ (k, w) ∷ []
  map_put-last k v w [] r e = if-true _ _ r
  map_put-last k v w ((k', v') ∷ m) r e =
      let (f, e') = missing k k' v' m e in
      if-false _ _ f ∙ ap (◌∷◌ (k', v')) (map_put-last k v w m r e')

  map_get-last :
      (k : K) (v : V) (m : List (K × V))
      → eq k k ≡ true
      → map_get eq k m ≡ none
      → map_get eq k (m ++ (k, v) ∷ []) ≡ some v
  map_get-last k v [] r e = if-true _ _ r
  map_get-last k v ((k', v') ∷ m) r e =
      let (f, e') = missing k k' v' m e in if-false _ _ f ∙ map_get-last k v m r e'

  -- another new key leaves a key missing
  map_get-other :
      (k k' : K) (v : V) (m : List (K × V))
      → eq k k' ≡ false
      → map_get eq k m ≡ none
      → map_get eq k (m ++ (k', v) ∷ []) ≡ none
  map_get-other k k' v [] f e = if-false _ _ f
  map_get-other k k' v ((j, w) ∷ m) f e =
      let (f', e') = missing k j w m e in if-false _ _ f' ∙ map_get-other k k' v m f e'

-- the histograms with the readings of one that is not among the others
abbrev pub stored : {V : Type 0} → List ℕ → List V → List (List ℕ × List V) → List (List ℕ × List V)
stored name [] hists = hists
stored name (p ∷ ps) hists = hists ++ (name, p ∷ ps) ∷ []

pub stored-last :
    {V : Type 0} (name : List ℕ) (ps : List V) (p : V) (hists : List (List ℕ × List V))
    → stored name (ps ++ p ∷ []) hists ≡ hists ++ (name, ps ++ p ∷ []) ∷ []
stored-last name [] p hists = refl
stored-last name (q ∷ ps) p hists = refl

module _ (fl : Float64) where
  open fl use {F, of_int}

  -- the bounds with the counts cumulated from `cum` on
  abbrev pub readings : ℕ → List F → List ℕ → List (F × F)
  readings cum [] counts = []
  readings cum (b ∷ bounds) counts =
      let cum' = u64 (cum + get_or counts 0 0) in
      (b, of_int (pos cum')) ∷ readings cum' bounds (drop 1 counts)

  -- No bound is equal to an earlier one.
  abbrev pub Distinct : List F → Type 0
  Distinct [] = Unit
  Distinct (b ∷ bounds) = All (λ b'. not (eq_float fl b' b)) bounds × Distinct bounds

  -- The bounds have no reading.
  abbrev pub Fresh : List (F × F) → List F → Type 0
  Fresh ps [] = Unit
  Fresh ps (b ∷ bounds) = (map_get (eq_float fl) b ps ≡ none) × Fresh ps bounds

  pub Fresh-nil : (bounds : List F) → Fresh [] bounds
  Fresh-nil [] = tt
  Fresh-nil (b ∷ bounds) = (refl, Fresh-nil bounds)

  pub Fresh-next :
      (b v : F) (ps : List (F × F)) (bounds : List F)
      → All (λ b'. not (eq_float fl b' b)) bounds
      → Fresh ps bounds
      → Fresh (ps ++ (b, v) ∷ []) bounds
  Fresh-next b v ps [] a f = tt
  Fresh-next b v ps (b' ∷ bounds) (h, a) (e, f) =
      (map_get-other (eq_float fl) b' b v ps (ground arith) e, Fresh-next b v ps bounds a f)

  -- one more reading, as `parseLine` stores it
  pub put-stored :
      (name : List ℕ) (b v : F) (ps : List (F × F)) (hists : List (List ℕ × List (F × F)))
      → map_get bytes_eq name hists ≡ none
      → map_get (eq_float fl) b ps ≡ none
      → map_put bytes_eq name
          (map_put (eq_float fl) b v (map_get_or bytes_eq [] name (stored name ps hists)))
          (stored name ps hists)
        ≡ stored name (ps ++ (b, v) ∷ []) hists
  put-stored name b v [] hists n e =
      ap
        (λ m.
          map_put bytes_eq name (map_put (eq_float fl) b v (elim m [ none ↦ [] | some x ↦ x ]))
            hists)
        n
      ∙ map_put-new bytes_eq name ((b, v) ∷ []) hists n
  put-stored name b v (p ∷ ps) hists n e =
      let same = bytes_eq_refl name in
      ap
        (λ m.
          map_put bytes_eq name (map_put (eq_float fl) b v (elim m [ none ↦ [] | some x ↦ x ]))
            (hists ++ (name, p ∷ ps) ∷ []))
        (map_get-last bytes_eq name (p ∷ ps) hists same n)
      ∙ ap (λ m. map_put bytes_eq name m (hists ++ (name, p ∷ ps) ∷ []))
          (map_put-new (eq_float fl) b v (p ∷ ps) e)
      ∙ map_put-last bytes_eq name (p ∷ ps) ((p ∷ ps) ++ (b, v) ∷ []) hists same n
