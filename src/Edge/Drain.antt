-- ===== src/Edge/Drain.antt =====
-- Draining an edge when nothing is pushed meanwhile.
use voice_flux_engine.Prelude.{
  ℕ, zero, suc, ◌+◌, ◌^◌, ◌<◌, ◌≡◌, refl, sym, ap, ◌∙◌, length, List, [], ◌∷◌, Option, none, some,
  inl, inr, ◌⊎◌, arith,
}
use voice_flux_engine.Ring.{pop_loop}
use voice_flux_engine.Ring.Inv.{IsValid, contents}
use voice_flux_engine.Ring.Queue.{Queue, Reply, found, get_step}
use voice_flux_engine.Ring.Refine.{view, pop-Popped, Popped}
use voice_flux_engine.Edge.{Edge, drain}

pub get-nil :
    {A : Type 0} (out : Option A) (q : Queue A) (items : List A) (d : ℕ)
    → ◌≡◌ {A = Reply A × Queue A} ((found out, out), q) (get_step items d)
    → items ≡ []
    → (out ≡ none) × (q.items ≡ [])
get-nil out q items d e h = (ground arith, ground arith)

get-cons :
    {A : Type 0} (out : Option A) (q : Queue A) (items : List A) (d : ℕ) (x : A) (xs : List A)
    → ◌≡◌ {A = Reply A × Queue A} ((found out, out), q) (get_step items d)
    → items ≡ x ∷ xs
    → (out ≡ some x) × (q.items ≡ xs)
get-cons out q items d x xs e h = (ground arith, ground arith)

List-cases : {A : Type 0} (xs : List A) → (xs ≡ []) ⊎ ((x : A) × (ys : List A) × (xs ≡ x ∷ ys))
List-cases [] = inl refl
List-cases (x ∷ xs) = inr (x, xs, refl)

module _ {A : Type 0} (blank : A) (m : ℕ) where
  -- Given a round more than there are elements, `drain` ends, reports how many elements were in the
  -- ring, and leaves a valid ring without any and the bell as it was.
  pub drain_exact :
      (n : ℕ) (e : Edge A)
      → IsValid blank m e.ring
      → e.ring.tail + m < 2 ^ 63
      → length (contents blank m e.ring) < n
      → (e' : Edge A) × (drain blank n e ≡ some (length (contents blank m e.ring), e'))
        × IsValid blank m e'.ring
        × (contents blank m e'.ring ≡ [])
        × (e'.bell ≡ e.bell)
  unfolding drain
  drain_exact zero e v small h = absurd (omega arith)
  drain_exact (suc n) e v small h =
      let p : Popped blank m e.ring 0 = pop-Popped blank m e.ring 0 v small in
      elim (List-cases (contents blank m e.ring)) [
        | inl c ↦
            let (o, k) =
              get-nil p.out (view blank m p.next) (contents blank m e.ring) e.ring.dropped p.refines
                c in
            let runs : pop_loop blank 1 e.ring ≡ some (none, p.next) =
              p.runs ∙ ap (λ x. some (x, p.next)) o in
            (record e { ring = p.next }, rw (runs, drain, c) refl, p.valid, k, refl)
        | inr (x, xs, c) ↦
            let (o, k) =
              get-cons p.out (view blank m p.next) (contents blank m e.ring) e.ring.dropped x xs
                p.refines c in
            let runs : pop_loop blank 1 e.ring ≡ some (some x, p.next) =
              p.runs ∙ ap (λ y. some (y, p.next)) o in
            let lens : length (contents blank m e.ring) ≡ suc (length (contents blank m p.next)) =
              ap length c ∙ sym (ap (λ ys. suc (length ys)) k) in
            let t = p.tail_le in
            let (e', d, v', c', b) =
              drain_exact n (record e { ring = p.next }) p.valid (omega arith) (omega arith) in
            (e', rw (runs, drain, d, lens) (ap (λ i. some (i, e')) (omega arith)), v', c', b)
      ]
