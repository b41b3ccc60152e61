-- ===== src/Ring/History.antt =====
-- Whole histories of calls on a ring, from `New` on.
use voice_flux_engine.Prelude.{
  ℕ, ◌+◌, ◌^◌, ◌<◌, ◌≡◌, refl, ◌∙◌, length, List, arith, [], ◌∷◌, Bool, Option, none, some,
}
use voice_flux_engine.Ring.{Ring, pop_loop, push}
use voice_flux_engine.Ring.Inv.{IsValid}
use voice_flux_engine.Ring.Queue.{Queue, Op, put, get, Reply, found}
use voice_flux_engine.Ring.Queue
use voice_flux_engine.Ring.Refine.{view, push-Pushed, pop-Popped}

module _ {ℓ} {A : Type ℓ} (blank : A) where
  abbrev answer : Reply A → Option (List (Reply A) × Ring A) → Option (List (Reply A) × Ring A)
  answer a none = none
  answer a (some (replies, r)) = some (a ∷ replies, r)

  -- A client's calls in order, each loop given one round of fuel.
  unfoldable pub run : List (Op A) → Ring A → Option (List (Reply A) × Ring A)
  run [] r = some ([], r)
  run (put x ∷ ops) r = elim (push blank 1 x r) [
    | none ↦ none
    | some (done, r') ↦ answer (done, none) (run ops r')
  ]
  run (get ∷ ops) r = elim (pop_loop blank 1 r) [
    | none ↦ none
    | some (out, r') ↦ answer (found out, out) (run ops r')
  ]

  run-put :
      (x : A) (ops : List (Op A)) (r r' : Ring A) (done : Bool)
      → push blank 1 x r ≡ some (done, r')
      → run (put x ∷ ops) r ≡ answer (done, none) (run ops r')
  unfolding run
  run-put x ops r r' done e = rw (e, run)

  run-get :
      (ops : List (Op A)) (r r' : Ring A) (out : Option A)
      → pop_loop blank 1 r ≡ some (out, r')
      → run (get ∷ ops) r ≡ answer (found out, out) (run ops r')
  unfolding run
  run-get ops r r' out e = rw (e, run)

  -- Started in a valid ring whose cursors stay below 2^63, every history of pushes and pops ends
  -- (no loop takes a second round), gives the replies of the bounded queue, and leaves a valid ring
  -- that holds the queue's elements and its count of evictions.
  pub run_refines :
      (m : ℕ) (ops : List (Op A)) (r : Ring A)
      → IsValid blank m r
      → r.tail + length ops + m < 2 ^ 63
      → (last : Ring A) × (run ops r ≡ some ((Queue.run m r.policy ops (view blank m r)).0, last))
        × (view blank m last ≡ (Queue.run m r.policy ops (view blank m r)).1)
        × IsValid blank m last
  unfolding run Queue.run
  run_refines m [] r v small = (r, refl, refl, v)
  run_refines m (put x ∷ ops) r v small =
      let p = push-Pushed blank m r x 0 v (omega arith) in
      let (last, runs, holds, valid) =
        run_refines m ops p.next p.valid (omega (arith, p.tail_le)) in
      (
        last,
        run-put x ops r p.next p.done p.runs ∙ rw (runs, ← p.refines, p.same_policy),
        rw (holds, ← p.refines, p.same_policy),
        valid,
      )
  run_refines m (get ∷ ops) r v small =
      let p = pop-Popped blank m r 0 v (omega arith) in
      let (last, runs, holds, valid) =
        run_refines m ops p.next p.valid (omega (arith, p.tail_le)) in
      (
        last,
        run-get ops r p.next p.out p.runs ∙ rw (runs, ← p.refines, p.same_policy),
        rw (holds, ← p.refines, p.same_policy),
        valid,
      )
