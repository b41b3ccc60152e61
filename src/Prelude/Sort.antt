-- ===== src/Prelude/Sort.antt =====
-- Insertion sort, as the standard library's sort of numbers is used, and counting.
use Prim.Native.Nat.{ℕ, zero, suc, ◌+◌, ◌<◌, ◌≤◌}
use mathlib.Core.Path.{◌≡◌, refl, ap, ◌∙◌}
use mathlib.Core.Logic.{inl, inr}
use mathlib.Core.Bool.{Bool, true, false}
use mathlib.Core.List.{List, [], ◌∷◌}
use native.Mathlib.Omega.{arith}
use voice_flux_engine.Prelude.Tests.{if◌then◌else◌, if-true, if-false, Bool-cases}
use voice_flux_engine.Prelude.Lists.{length, get_or}

module _ {ℓ} {A : Type ℓ} where
  abbrev pub count : (A → Bool) → List A → ℕ
  count p [] = 0
  count p (x ∷ xs) = (if p x then 1 else 0) + count p xs

  -- every element passes the test
  abbrev pub All : (A → Bool) → List A → Type 0
  All p [] = Unit
  All p (x ∷ xs) = (p x ≡ true) × All p xs

  All-count : (p : A → Bool) (xs : List A) → All p xs → count p xs ≡ length xs
  All-count p [] a = refl
  All-count p (x ∷ xs) (h, a) = let rec = All-count p xs a in ground arith

  module _ (le : A → A → Bool) where
    unfoldable pub insert : A → List A → List A
    insert x [] = x ∷ []
    insert x (y ∷ ys) = let rest = insert x ys in if le x y then x ∷ y ∷ ys else y ∷ rest

    unfoldable pub sort : List A → List A
    sort [] = []
    sort (x ∷ xs) = insert x (sort xs)

    abbrev pub IsSorted : List A → Type 0
    IsSorted [] = Unit
    IsSorted (x ∷ xs) = All (le x) xs × IsSorted xs

    count-insert : (p : A → Bool) (x : A) (xs : List A) → count p (insert x xs) ≡ count p (x ∷ xs)
    unfolding insert
    count-insert p x [] = refl
    count-insert p x (y ∷ ys) =
        let rec = count-insert p x ys in
        elim (Bool-cases (le x y)) [
          | inl t ↦ ap (count p) (if-true _ _ t)
          | inr t ↦ ap (count p) (if-false _ _ t) ∙ omega arith
        ]

    -- Sorting keeps the number of elements that pass a test.
    pub count-sort : (p : A → Bool) (xs : List A) → count p (sort xs) ≡ count p xs
    unfolding sort
    count-sort p [] = refl
    count-sort p (x ∷ xs) =
        count-insert p x (sort xs) ∙ ap (λ n. (if p x then 1 else 0) + n) (count-sort p xs)

    length-insert : (x : A) (xs : List A) → length (insert x xs) ≡ suc (length xs)
    unfolding insert
    length-insert x [] = refl
    length-insert x (y ∷ ys) = let rec = length-insert x ys in ground arith

    pub length-sort : (xs : List A) → length (sort xs) ≡ length xs
    unfolding sort
    length-sort [] = refl
    length-sort (x ∷ xs) = length-insert x (sort xs) ∙ ap suc (length-sort xs)

    module _ (total : (x y : A) → le x y ≡ false → le y x ≡ true)
        (trans : (x y z : A) → le x y ≡ true → le y z ≡ true → le x z ≡ true) where
      All-le : (x y : A) (ys : List A) → le x y ≡ true → All (le y) ys → All (le x) ys
      All-le x y [] h a = tt
      All-le x y (z ∷ ys) h (b, a) = (trans x y z h b, All-le x y ys h a)

      All-insert :
          (p : A → Bool) (x : A) (ys : List A) → p x ≡ true → All p ys → All p (insert x ys)
      unfolding insert
      All-insert p x [] h a = (h, tt)
      All-insert p x (y ∷ ys) h (b, a) =
          let rec = All-insert p x ys h a in
          elim (Bool-cases (le x y)) [ inl t ↦ rw t (h, (b, a)) | inr t ↦ rw t (b, rec) ]

      insert-IsSorted : (x : A) (ys : List A) → IsSorted ys → IsSorted (insert x ys)
      unfolding insert
      insert-IsSorted x [] s = (tt, tt)
      insert-IsSorted x (y ∷ ys) (a, s) =
          let rec = insert-IsSorted x ys s in
          elim (Bool-cases (le x y)) [
            | inl t ↦ rw t ((t, All-le x y ys t a), (a, s))
            | inr t ↦ rw t (All-insert (le y) x ys (total x y t) a, rec)
          ]

      pub sort-IsSorted : (xs : List A) → IsSorted (sort xs)
      unfolding sort
      sort-IsSorted [] = tt
      sort-IsSorted (x ∷ xs) = insert-IsSorted x (sort xs) (sort-IsSorted xs)

      le_refl : (x : A) → le x x ≡ true
      le_refl x = let t = total x x in ground arith

      All-get :
          (p : A → Bool) (ys : List A) (i : ℕ) (d : A)
          → All p ys
          → i < length ys
          → p (get_or ys i d) ≡ true
      All-get p [] i d a h = absurd (omega arith)
      All-get p (y ∷ ys) zero d (b, a) h = b
      All-get p (y ∷ ys) (suc i) d (b, a) h = All-get p ys i d a (omega arith)

      -- As many elements of a sorted list are at least the one at `i` as stand from there on.
      above :
          (s : List A) (i : ℕ) (d : A)
          → IsSorted s
          → i < length s
          → length s ≤ count (le (get_or s i d)) s + i
      above [] i d sorted h = absurd (omega arith)
      above (x ∷ xs) zero d (a, sorted) h =
          let all = All-count (le x) xs a in let r = le_refl x in ground arith
      above (x ∷ xs) (suc i) d (a, sorted) h =
          let rec = above xs i d sorted (omega arith) in ground arith

      below :
          (s : List A) (i : ℕ) (d : A)
          → IsSorted s
          → i < length s
          → i < count (λ y. le y (get_or s i d)) s
      below [] i d sorted h = absurd (omega arith)
      below (x ∷ xs) zero d (a, sorted) h = let r = le_refl x in ground arith
      below (x ∷ xs) (suc i) d (a, sorted) h =
          let rec = below xs i d sorted (omega arith) in
          let under = All-get (le x) xs i d a (omega arith) in ground arith

      -- The element that sorting puts at `i`: more than `i` elements are at most it, and as many are at
      -- least it as there are places from `i` on.
      pub sort-ranks :
          (xs : List A) (i : ℕ) (d : A)
          → i < length xs
          → let x = get_or (sort xs) i d in
            (i < count (λ y. le y x) xs) × (length xs ≤ count (le x) xs + i)
      sort-ranks xs i d h =
          let x = get_or (sort xs) i d in
          let l = length-sort xs in
          let lo = below (sort xs) i d (sort-IsSorted xs) (omega arith) in
          let hi = above (sort xs) i d (sort-IsSorted xs) (omega arith) in
          let c = count-sort (λ y. le y x) xs in
          let c' = count-sort (le x) xs in (omega arith, omega arith)
