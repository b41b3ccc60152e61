-- ===== src/Metrics/Buckets.antt =====
-- The cumulated buckets of a histogram of metrics.go count the values observed.
use voice_flux_engine.Prelude.{
  ℕ, zero, suc, ◌+◌, ◌<◌, ◌^◌, ◌≡◌, refl, sym, ap, ◌∙◌, subst, ltb, ◌||◌, not, if◌then◌else◌, Bool,
  true, false, Bool-cases, List, [], ◌∷◌, length, get_or, set, replicate, u64, arith, inl, inr,
}
use voice_flux_engine.Prelude.Int.{pos}
use voice_flux_engine.Prelude.Float.{Float64}
use voice_flux_engine.Prelude.Sort.{IsSorted, All, count}
use voice_flux_engine.Metrics.{search, is_nan}

abbrev pub sum : List ℕ → ℕ
sum [] = 0
sum (c ∷ cs) = c + sum cs

pub sum-set :
    (cs : List ℕ) (i : ℕ)
    → i < length cs
    → sum cs + 1 < 2 ^ 64
    → sum (set cs i (u64 (get_or cs i 0 + 1))) ≡ sum cs + 1
sum-set [] i h l = absurd (omega arith)
sum-set (c ∷ cs) zero h l = omega arith
sum-set (c ∷ cs) (suc i) h l = let rec = sum-set cs i (omega arith) (omega arith) in omega arith

pub sum-replicate : (n : ℕ) → sum (replicate n 0) ≡ 0
sum-replicate zero = refl
sum-replicate (suc n) = let rec = sum-replicate n in omega arith

-- The counts add up, from `cum` on, to the value of `g` at each bound.
pub data Cumulates {F : Type 0} (g : F → ℕ) : ℕ → List F → List ℕ → Type 0 where
  none_left : {cum : ℕ} → Cumulates g cum [] []
  next :
      {cum c : ℕ} {b : F} {bs : List F} {cs : List ℕ}
      → cum + c ≡ g b
      → Cumulates g (cum + c) bs cs
      → Cumulates g cum (b ∷ bs) (c ∷ cs)

module _ {F : Type 0} where
  pub length-Cumulates :
      {g : F → ℕ} {cum : ℕ} {bs : List F} {cs : List ℕ}
      → Cumulates g cum bs cs
      → length cs ≡ length bs
  length-Cumulates none_left = refl
  length-Cumulates (next e k) = ap suc (length-Cumulates k)

  pub Cumulates-ext :
      {g g' : F → ℕ} {cum : ℕ} {bs : List F} {cs : List ℕ}
      → ((b : F) → g b ≡ g' b)
      → Cumulates g cum bs cs
      → Cumulates g' cum bs cs
  Cumulates-ext h none_left = none_left
  Cumulates-ext h (next {b = b} e k) = next (e ∙ h b) (Cumulates-ext h k)

  pub Cumulates-zero : (bs : List F) → Cumulates (λ b. 0) 0 bs (replicate (length bs) 0)
  Cumulates-zero [] = none_left
  Cumulates-zero (b ∷ bs) = next (omega arith) (Cumulates-zero bs)

module _ (fl : Float64) where
  open fl use {F, of_int, add, ge, lt}

  -- a value that `Observe` does not ignore
  abbrev pub accepted : F → Bool
  accepted x = not (lt x (of_int (pos 0)) || is_nan fl x)

  abbrev pub kept : List F → List F
  kept [] = []
  kept (x ∷ xs) = if accepted x then x ∷ kept xs else kept xs

  abbrev pub at_most : List F → F → ℕ
  at_most xs b = count (λ x. ge b x) xs

  abbrev pub one_more : F → (F → ℕ) → F → ℕ
  one_more x g b = (if ge b x then 1 else 0) + g b

  abbrev pub bump : List F → F → List ℕ → List ℕ
  bump bs x cs =
      let i = search fl bs x in if ltb i (length bs) then set cs i (u64 (get_or cs i 0 + 1)) else cs

  bump-here :
      (b : F) (bs : List F) (x : F) (c : ℕ) (cs : List ℕ)
      → ge b x ≡ true
      → bump (b ∷ bs) x (c ∷ cs) ≡ u64 (c + 1) ∷ cs
  unfolding search
  bump-here b bs x c cs t = let z : ltb 0 (suc (length bs)) ≡ true = ground arith in rw (t, z) refl

  bump-there :
      (b : F) (bs : List F) (x : F) (c : ℕ) (cs : List ℕ)
      → ge b x ≡ false
      → bump (b ∷ bs) x (c ∷ cs) ≡ c ∷ bump bs x cs
  unfolding search
  bump-there b bs x c cs t =
      let i = search fl bs x in
      elim (Bool-cases (ltb i (length bs))) [
        | inl u ↦ let u' : ltb (suc i) (suc (length bs)) ≡ true = ground arith in rw (t, u, u') refl
        | inr u ↦
            let u' : ltb (suc i) (suc (length bs)) ≡ false = ground arith in rw (t, u, u') refl
      ]

  shift-Cumulates :
      (x : F) {g : F → ℕ} {cum : ℕ} {bs : List F} {cs : List ℕ}
      → Cumulates g cum bs cs
      → All (λ b. ge b x) bs
      → Cumulates (one_more x g) (suc cum) bs cs
  shift-Cumulates x none_left a = none_left
  shift-Cumulates x {g} {cum} (next {c = c} {b = b} {bs = bs} {cs = cs} e k) (h, a) =
      let same : suc (cum + c) ≡ suc cum + c = omega arith in
      next (ground arith)
        (subst (λ n. Cumulates (one_more x g) n bs cs) same (shift-Cumulates x k a))

  module _ (trans : (a b c : F) → ge b a ≡ true → ge c b ≡ true → ge c a ≡ true) where
    All-trans :
        (x b : F) (bs : List F) → ge b x ≡ true → All (λ c. ge c b) bs → All (λ c. ge c x) bs
    All-trans x b [] h a = tt
    All-trans x b (c ∷ bs) h (l, a) = (trans x b c h l, All-trans x b bs h a)

    pub bump-Cumulates :
        (x : F) {g : F → ℕ} {cum : ℕ} {bs : List F} {cs : List ℕ}
        → Cumulates g cum bs cs
        → IsSorted (λ a b. ge b a) bs
        → ((b : F) → g b + 1 < 2 ^ 64)
        → Cumulates (one_more x g) cum bs (bump bs x cs)
    unfolding search
    bump-Cumulates x none_left s l = none_left
    bump-Cumulates x {g} {cum} (next {c = c} {b = b} {bs = bs} {cs = cs} e k) (a, s) l =
        let small = l b in
        elim (Bool-cases (ge b x)) [
          | inl t ↦
              let one : cum + u64 (c + 1) ≡ one_more x g b = ground arith in
              let up : suc (cum + c) ≡ cum + u64 (c + 1) = omega arith in
              let rest = shift-Cumulates x k (All-trans x b bs t a) in
              subst (Cumulates (one_more x g) cum (b ∷ bs)) (sym (bump-here b bs x c cs t))
                (next one (subst (λ n. Cumulates (one_more x g) n bs cs) up rest))
          | inr t ↦
              subst (Cumulates (one_more x g) cum (b ∷ bs)) (sym (bump-there b bs x c cs t))
                (next (ground arith) (bump-Cumulates x k s l))
        ]
