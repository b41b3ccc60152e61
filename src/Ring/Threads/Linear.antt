-- ===== src/Ring/Threads/Linear.antt =====
-- Every interleaving of the two goroutines keeps the ring sound.
use voice_flux_engine.Prelude.{
  ℕ, ◌+◌, ◌^◌, ◌≤◌, ◌<◌, ◌≡◌, refl, ap, length, length-append, List, [], ◌∷◌, arith, Bool-cases,
  inl, inr, ◌==◌,
}
use voice_flux_engine.Ring.{slot_at, is_reject}
use voice_flux_engine.Ring.Threads.{
  PopMove, goes, owns, finds_empty, gives, pop_move, Pushing, resting, advancing, trying, writing,
  publishing, counting, evicting, Taking, idle, popping, Tick, calls_push, produces, calls_pop,
  consumes, System, evict_step, push_step, take_step, pop_step, start_push, start_pop, tick, run,
}
use voice_flux_engine.Ring.Threads.Sound.{Sound, push_step-Sound, pop_step-Sound}

module _ {A : Type 0} (blank : A) (m : ℕ) where
  evict_step-few :
      (v : A) (mv : PopMove A) (s : System A)
      → length (evict_step blank v mv s).accepted ≤ length s.accepted + 1
  evict_step-few v (goes pc r) s = omega arith
  evict_step-few v (owns h r) s = omega arith
  evict_step-few v finds_empty s = omega arith
  evict_step-few v (gives x r) s = omega arith

  take_step-few :
      (mv : PopMove A) (s : System A)
      → length (take_step blank mv s).accepted ≤ length s.accepted + 1
  take_step-few (goes pc r) s = omega arith
  take_step-few (owns h r) s = omega arith
  take_step-few finds_empty s = omega arith
  take_step-few (gives x r) s = omega arith

  push_step-few :
      (p : Pushing A) (s : System A) → length (push_step blank p s).accepted ≤ length s.accepted + 1
  unfolding push_step
  push_step-few (trying v) s =
      elim (Bool-cases ((slot_at blank s.ring s.ring.tail).seq == s.ring.tail)) [
        | inl e ↦ rw e (omega arith)
        | inr e ↦ elim (Bool-cases (is_reject s.ring.policy)) [
          | inl r ↦ rw (e, r) (omega arith)
          | inr r ↦ rw (e, r) (omega arith)
        ]
      ]
  push_step-few (publishing v) s = let l = length-append s.accepted (v ∷ []) in omega arith
  push_step-few (evicting v pc) s = evict_step-few v (pop_move blank pc s.ring) s
  push_step-few resting s = omega arith
  push_step-few advancing s = omega arith
  push_step-few (writing v) s = omega arith
  push_step-few (counting v) s = omega arith

  pop_step-few :
      (c : Taking A) (s : System A) → length (pop_step blank c s).accepted ≤ length s.accepted + 1
  pop_step-few idle s = omega arith
  pop_step-few (popping pc) s = take_step-few (pop_move blank pc s.ring) s

  start_push-same :
      (v : A) (p : Pushing A) (s : System A) → (start_push blank v p s).accepted ≡ s.accepted
  start_push-same v resting s = refl
  start_push-same v advancing s = refl
  start_push-same v (trying w) s = refl
  start_push-same v (writing w) s = refl
  start_push-same v (publishing w) s = refl
  start_push-same v (counting w) s = refl
  start_push-same v (evicting w pc) s = refl

  start_pop-same : (c : Taking A) (s : System A) → (start_pop blank c s).accepted ≡ s.accepted
  start_pop-same idle s = refl
  start_pop-same (popping pc) s = refl

  -- one tick publishes at most one element
  tick-few : (t : Tick A) (s : System A) → length (tick blank t s).accepted ≤ length s.accepted + 1
  unfolding tick
  tick-few (calls_push v) s = let e = ap length (start_push-same v s.prod s) in omega arith
  tick-few produces s = push_step-few s.prod s
  tick-few calls_pop s = let e = ap length (start_pop-same s.cons s) in omega arith
  tick-few consumes s = pop_step-few s.cons s

  start_push-Sound :
      (v : A) (p : Pushing A) (s : System A)
      → Sound blank m (record s { prod = p })
      → Sound blank m (start_push blank v p (record s { prod = p }))
  start_push-Sound v resting s k = record {
    core = k.core;
    prod_at = k.prod_at;
    cons_at = k.cons_at;
    claimed = k.claimed;
    delivers = k.delivers;
    evicts = k.evicts;
  }
  start_push-Sound v advancing s k = k
  start_push-Sound v (trying w) s k = k
  start_push-Sound v (writing w) s k = k
  start_push-Sound v (publishing w) s k = k
  start_push-Sound v (counting w) s k = k
  start_push-Sound v (evicting w pc) s k = k

  start_pop-Sound :
      (c : Taking A) (s : System A)
      → Sound blank m (record s { cons = c })
      → Sound blank m (start_pop blank c (record s { cons = c }))
  start_pop-Sound idle s k = record {
    core = k.core;
    prod_at = k.prod_at;
    cons_at = tt;
    claimed = k.claimed;
    delivers = k.delivers;
    evicts = k.evicts;
  }
  start_pop-Sound (popping pc) s k = k

  tick-Sound :
      (t : Tick A) (s : System A)
      → length s.accepted + m < 2 ^ 63
      → Sound blank m s
      → Sound blank m (tick blank t s)
  unfolding tick
  tick-Sound (calls_push v) s small k = start_push-Sound v s.prod s k
  tick-Sound produces s small k = push_step-Sound blank m s.prod s small k
  tick-Sound calls_pop s small k = start_pop-Sound s.cons s k
  tick-Sound consumes s small k = pop_step-Sound blank m s.cons s small k

  pub run-Sound :
      (ts : List (Tick A)) (s : System A)
      → length s.accepted + m + length ts < 2 ^ 63
      → Sound blank m s
      → Sound blank m (run blank ts s)
  unfolding run
  run-Sound [] s small k = k
  run-Sound (t ∷ ts) s small k =
      let few = tick-few t s in
      run-Sound ts (tick blank t s) (omega arith) (tick-Sound t s (omega arith) k)

  pub run-few :
      (ts : List (Tick A)) (s : System A)
      → length (run blank ts s).accepted ≤ length s.accepted + length ts
  unfolding run
  run-few [] s = omega arith
  run-few (t ∷ ts) s =
      let one = tick-few t s in let rest = run-few ts (tick blank t s) in omega arith
