-- ===== src/Ring/Queue.antt =====
-- What a ring promises: a bounded queue, oldest element first, with a count of evictions.
use voice_flux_engine.Prelude.{
  ℕ, ◌+◌, ltb, if◌then◌else◌, u64, Bool, true, false, Option, none, some, List, [], ◌∷◌, ◌++◌,
  length,
}
use voice_flux_engine.Ring.{Policy, is_reject}

pub data Op {ℓ} (A : Type ℓ) : Type ℓ where
  put : A → Op A
  get : Op A

-- what a caller sees of a call
abbrev pub Reply {ℓ} : Type ℓ → Type ℓ
Reply A = Bool × Option A

pub record Queue {ℓ} (A : Type ℓ) : Type ℓ where
  pub items : List A
  pub evicted : ℕ

module _ {ℓ} {A : Type ℓ} where
  abbrev pub rest : List A → List A
  rest [] = []
  rest (x ∷ xs) = xs

  abbrev pub found : Option A → Bool
  found none = false
  found (some x) = true

  abbrev pub get_step : List A → ℕ → Reply A × Queue A
  get_step [] e = ((false, none), record { items = []; evicted = e })
  get_step (x ∷ xs) e = ((true, some x), record { items = xs; evicted = e })

  module _ (m : ℕ) (p : Policy) where
    abbrev pub put_step : A → Queue A → Bool × Queue A
    put_step x q =
        if ltb (length q.items) m
        then (true, record q { items = q.items ++ x ∷ [] })
        else if is_reject p
        then (false, q)
        else (true, record { items = rest q.items ++ x ∷ []; evicted = u64 (q.evicted + 1) })

    abbrev pub step : Op A → Queue A → Reply A × Queue A
    step (put x) q = let (done, q') = put_step x q in ((done, none), q')
    step get q = get_step q.items q.evicted

    unfoldable pub run : List (Op A) → Queue A → List (Reply A) × Queue A
    run [] q = ([], q)
    run (o ∷ ops) q =
        let (a, q') = step o q in let (replies, q'') = run ops q' in (a ∷ replies, q'')
