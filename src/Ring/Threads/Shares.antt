-- ===== src/Ring/Threads/Shares.antt =====
-- Who gets which of the published elements: the claims, in order, against the elements, in order.
use voice_flux_engine.Prelude.{
  ℕ, ◌≤◌, ◌<◌, ◌≡◌, refl, ap, ◌∙◌, get_or, length, if◌then◌else◌, Bool, true, false, List, [], ◌∷◌,
  ◌++◌, Option, none, some, arith,
}
use voice_flux_engine.Ring.Threads.{Taker, consumer, evictor}

abbrev pub same : Taker → Taker → Bool
same consumer consumer = true
same evictor evictor = true
same _ _ = false

module _ {A : Type 0} where
  -- the elements that `w` has claimed
  abbrev pub share : Taker → List Taker → List A → List A
  share w [] acc = []
  share w (c ∷ cs) [] = []
  share w (c ∷ cs) (x ∷ xs) = let rest = share w cs xs in if same w c then x ∷ rest else rest

  -- a claim of the element of some position that is not taken out yet
  abbrev pub held : A → Option ℕ → List A → List A
  held blank none acc = []
  held blank (some c) acc = get_or acc c blank ∷ []

  pub share-append :
      (w : Taker) (cs : List Taker) (xs ys : List A)
      → length cs ≤ length xs
      → share w cs (xs ++ ys) ≡ share w cs xs
  share-append w [] xs ys h = refl
  share-append w (c ∷ cs) [] ys h = absurd (omega arith)
  share-append w (c ∷ cs) (x ∷ xs) ys h =
      ap (λ l. if same w c then x ∷ l else l) (share-append w cs xs ys (omega arith))

  cons-if :
      (b : Bool) (x : A) (xs ys : List A)
      → (if b then x ∷ (xs ++ ys) else xs ++ ys) ≡ (if b then x ∷ xs else xs) ++ ys
  cons-if true x xs ys = refl
  cons-if false x xs ys = refl

  pub share-claim :
      (blank : A) (w w' : Taker) (cs : List Taker) (xs : List A)
      → length cs < length xs
      → share w (cs ++ w' ∷ []) xs
        ≡ share w cs xs ++ (if same w w' then get_or xs (length cs) blank ∷ [] else [])
  share-claim blank w w' [] [] h = absurd (omega arith)
  share-claim blank w w' [] (x ∷ xs) h = refl
  share-claim blank w w' (c ∷ cs) [] h = absurd (omega arith)
  share-claim blank w w' (c ∷ cs) (x ∷ xs) h =
      ap (λ l. if same w c then x ∷ l else l) (share-claim blank w w' cs xs (omega arith))
      ∙ cons-if (same w c) x (share w cs xs) _
