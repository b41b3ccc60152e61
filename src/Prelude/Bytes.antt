-- ===== src/Prelude/Bytes.antt =====
-- Texts as lists of bytes: tests and cuts of package strings.
use Prim.Native.Nat.{ℕ, suc, ◌-◌}
use mathlib.Core.Path.{◌≡◌, refl, ap, ◌∙◌}
use mathlib.Core.Logic.{◌≢◌}
use mathlib.Core.Bool.{Bool, true, false, ◌&&◌, ◌||◌}
use mathlib.Core.Option.{Option, none, some}
use mathlib.Core.List.{List, [], ◌∷◌, ◌++◌}
use native.Mathlib.Omega.{arith}
use voice_flux_engine.Prelude.Tests.{leb, ◌==◌, if◌then◌else◌, if-true, if-false, ==_refl}
use voice_flux_engine.Prelude.Lists.{length, length-append, take, drop, suffix}

abbrev pub bytes_eq : List ℕ → List ℕ → Bool
bytes_eq [] [] = true
bytes_eq [] (y ∷ ys) = false
bytes_eq (x ∷ xs) [] = false
bytes_eq (x ∷ xs) (y ∷ ys) = (x == y) && bytes_eq xs ys

pub bytes_eq_refl : (xs : List ℕ) → bytes_eq xs xs ≡ true
bytes_eq_refl [] = refl
bytes_eq_refl (x ∷ xs) = ground (arith, bytes_eq_refl xs)

pub bytes_eq→eq : (xs ys : List ℕ) → bytes_eq xs ys ≡ true → xs ≡ ys
bytes_eq→eq [] [] h = refl
bytes_eq→eq [] (y ∷ ys) h = absurd (ground arith)
bytes_eq→eq (x ∷ xs) [] h = absurd (ground arith)
bytes_eq→eq (x ∷ xs) (y ∷ ys) h = let rec = bytes_eq→eq xs ys in ground arith

-- `strings.HasPrefix(s, p)`
abbrev pub has_prefix : (s p : List ℕ) → Bool
has_prefix s [] = true
has_prefix [] (c ∷ p) = false
has_prefix (x ∷ s) (c ∷ p) = (x == c) && has_prefix s p

-- `strings.HasSuffix(s, p)`
abbrev pub has_suffix : (s p : List ℕ) → Bool
has_suffix s p = bytes_eq (suffix (length p) s) p

-- The parts before and after the last byte `c`.
abbrev pub cut_last : ℕ → List ℕ → Option (List ℕ × List ℕ)
cut_last c [] = none
cut_last c (x ∷ xs) = elim (cut_last c xs) [
  | some (a, b) ↦ some (x ∷ a, b)
  | none ↦ if x == c then some ([], xs) else none
]

-- The parts before and after the first occurrence of `p`.
abbrev pub cut : (s p : List ℕ) → Option (List ℕ × List ℕ)
cut [] p = if has_prefix [] p then some ([], []) else none
cut (x ∷ s) p =
    let rest = cut s p in
    if has_prefix (x ∷ s) p
    then some ([], drop (length p) (x ∷ s))
    else elim rest [ some (a, b) ↦ some (x ∷ a, b) | none ↦ none ]

-- The byte does not occur.
abbrev pub Without : ℕ → List ℕ → Type 0
Without c [] = Unit
Without c (x ∷ xs) = (x ≢ c) × Without c xs

cut_last-none : (c : ℕ) (xs : List ℕ) → Without c xs → cut_last c xs ≡ none
cut_last-none c [] w = refl
cut_last-none c (x ∷ xs) (h, w) = let rec = cut_last-none c xs w in ground arith

pub cut_last-append :
    (c : ℕ) (xs ys : List ℕ) → Without c ys → cut_last c (xs ++ c ∷ ys) ≡ some (xs, ys)
cut_last-append c [] ys w = let rec = cut_last-none c ys w in ground arith
cut_last-append c (x ∷ xs) ys w = let rec = cut_last-append c xs ys w in rw rec refl

-- The ASCII bytes that strings.TrimSpace cuts; the other spaces of Unicode are left out.
abbrev pub is_space : ℕ → Bool
is_space c = (leb 9 c && leb c 13) || (c == 32)

unfoldable pub trim_left : List ℕ → List ℕ
trim_left [] = []
trim_left (c ∷ cs) = let rest = trim_left cs in if is_space c then rest else c ∷ cs

unfoldable pub trim_right : List ℕ → List ℕ
trim_right [] = []
trim_right (c ∷ cs) = elim (trim_right cs) [
  | [] ↦ if is_space c then [] else c ∷ []
  | d ∷ ds ↦ c ∷ d ∷ ds
]

abbrev pub trim_space : List ℕ → List ℕ
trim_space s = trim_right (trim_left s)

-- the place of the first byte `c`
abbrev pub place : ℕ → List ℕ → ℕ
place c [] = 0
place c (x ∷ xs) = let rest = place c xs in if x == c then 0 else suc rest

pub place-append : (c : ℕ) (ys zs : List ℕ) → Without c ys → place c (ys ++ c ∷ zs) ≡ length ys
place-append c [] zs w = if-true _ _ (==_refl c)
place-append c (y ∷ ys) zs (h, w) =
    let rec = place-append c ys zs w in
    let e : (y == c) ≡ false = ground arith in if-false _ _ e ∙ ap suc rec

pub prefix_split : (s p : List ℕ) → has_prefix s p ≡ true → s ≡ p ++ drop (length p) s
prefix_split s [] h = refl
prefix_split [] (c ∷ p) h = absurd (ground arith)
prefix_split (x ∷ s) (c ∷ p) h =
    let rec = prefix_split s p (ground arith) in
    let e : x ≡ c = ground arith in ap (λ k. k ∷ s) e ∙ ap (◌∷◌ c) rec

pub Without-append : (c : ℕ) (xs ys : List ℕ) → Without c xs → Without c ys → Without c (xs ++ ys)
Without-append c [] ys w v = v
Without-append c (x ∷ xs) ys (h, w) v = (h, Without-append c xs ys w v)

pub drop-append : (xs ys : List ℕ) → drop (length xs) (xs ++ ys) ≡ ys
drop-append [] ys = refl
drop-append (x ∷ xs) ys = drop-append xs ys

pub take-append : (xs ys : List ℕ) → take (length xs) (xs ++ ys) ≡ xs
take-append [] ys = refl
take-append (x ∷ xs) ys = ap (◌∷◌ x) (take-append xs ys)

pub has_suffix-append : (xs p : List ℕ) → has_suffix (xs ++ p) p ≡ true
has_suffix-append xs p =
    let l = length-append xs p in
    let n : length (xs ++ p) - length p ≡ length xs = omega arith in
    ap (λ s. bytes_eq s p) (ap (λ k. drop k (xs ++ p)) n ∙ drop-append xs p) ∙ bytes_eq_refl p
