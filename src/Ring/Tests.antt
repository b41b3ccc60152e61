-- ===== src/Ring/Tests.antt =====
-- Rings of numbers at work: evictions, a full ring, the errors of `New`.
use voice_flux_engine.Prelude.{
  ℕ, ◌+◌, ◌≤◌, ◌++◌, length, replicate, ◌≡◌, refl, List, [], ◌∷◌, true, false, none, some, arith,
}
use voice_flux_engine.Prelude.Int.{pos, negsuc}
use voice_flux_engine.Prelude.Result.{ok, err}
use voice_flux_engine.Ring.{
  Ring, Policy, reject, drop_oldest, new, pop_loop, parse_policy, bad_capacity, unknown_policy,
}
use voice_flux_engine.Ring.Queue.{Op, put, get}
use voice_flux_engine.Ring.Queue
use voice_flux_engine.Ring.History.{run}
use voice_flux_engine.Ring.New.{made, new_run_refines}
use voice_flux_engine.Ring.Unit.{capacity_one}
use voice_flux_engine.Ring.Threads
use voice_flux_engine.Ring.Threads.{
  Tick, calls_push, produces, calls_pop, consumes, start, tick, push_step, pop_move, checking,
  consumer, evictor,
}
use voice_flux_engine.Ring.Threads.Sound.{prod_owned, cons_owned}
use voice_flux_engine.Ring.Threads.Shares.{share, held}
use voice_flux_engine.Ring.Threads.Exchange.{
  run-exchanges, run-NoRace, run-empty, NoRace, producer_slot,
}

abbrev pair : Policy → Ring ℕ
pair p = record {
  mask = 1;
  policy = p;
  slots = record { seq = 0; val = 0 } ∷ record { seq = 1; val = 0 } ∷ [];
  tail = 0;
  head = 0;
  dropped = 0;
}

abbrev script : List (Op ℕ)
script = put 5 ∷ put 6 ∷ put 7 ∷ get ∷ get ∷ get ∷ []

new_errors :
    (new {A = ℕ} 0 (negsuc 3) reject ≡ err (bad_capacity (negsuc 3)))
    × (new {A = ℕ} 0 (pos 6) reject ≡ err (bad_capacity (pos 6)))
unfolding new
new_errors = (refl, refl)

new-pair : new 0 (pos 2) drop_oldest ≡ ok (pair drop_oldest)
unfolding new
new-pair = refl

parses : (parse_policy "reject" ≡ ok reject) × (parse_policy "drop" ≡ err (unknown_policy "drop"))
unfolding parse_policy
parses = (refl, refl)

new_run_refines_example :
    (last : Ring ℕ) × (run 0 script (pair drop_oldest)
      ≡ some (
        (true, none)
            ∷ (true, none)
            ∷ (true, none)
            ∷ (true, some 6)
            ∷ (true, some 7)
            ∷ (false, none)
            ∷ [],
        last,
      ))
unfolding Queue.run
new_run_refines_example =
    new_run_refines 0 2 drop_oldest (pair drop_oldest) script new-pair (omega arith) (omega arith)

capacity_one_example :
    (r : Ring ℕ) × (s : Ring ℕ) × (new 0 (pos 1) reject ≡ ok r)
    × (run 0 (put 8 ∷ put 9 ∷ []) r ≡ some ((true, none) ∷ (true, none) ∷ [], s))
    × (s.dropped ≡ 0)
    × ((fuel : ℕ) → pop_loop 0 fuel s ≡ none)
capacity_one_example = capacity_one 0 reject 8 9

-- Three pushes to a ring of two slots; the third evicts the oldest element while the consumer, which
-- has read the same cursor, loses it and takes the next one.
abbrev contended : List (Tick ℕ)
contended =
    calls_push 7
    ∷ produces
    ∷ produces
    ∷ produces
    ∷ produces
    ∷ calls_push 8
    ∷ produces
    ∷ produces
    ∷ produces
    ∷ produces
    ∷ calls_push 9
    ∷ produces
    ∷ calls_pop
    ∷ consumes
    ∷ consumes
    ∷ produces
    ∷ produces
    ∷ produces
    ∷ consumes
    ∷ produces
    ∷ produces
    ∷ produces
    ∷ produces
    ∷ consumes
    ∷ consumes
    ∷ consumes
    ∷ consumes
    ∷ consumes
    ∷ consumes
    ∷ produces
    ∷ produces
    ∷ produces
    ∷ produces
    ∷ []

contended_ends :
    let s = Threads.run 0 contended (start (made 0 2 drop_oldest)) in
    (s.accepted ≡ 7 ∷ 8 ∷ 9 ∷ []) × (s.delivered ≡ 8 ∷ []) × (s.evicted ≡ 7 ∷ [])
unfolding Threads.run tick push_step pop_move
contended_ends = (refl, refl, refl)

run-exchanges_example :
    let s = Threads.run 0 contended (start (made 0 2 drop_oldest)) in
    (s.delivered ++ held 0 (cons_owned s.cons) s.accepted ≡ share consumer s.claims s.accepted)
    × (s.evicted ++ held 0 (prod_owned s.prod) s.accepted ≡ share evictor s.claims s.accepted)
    × (length s.claims ≤ length s.accepted)
    × (length s.accepted ≤ length s.claims + 2)
run-exchanges_example = run-exchanges 0 2 1 drop_oldest contended (omega arith) refl (omega arith)

-- the eviction has claimed the oldest slot, and the consumer the other one
abbrev owning : List (Tick ℕ)
owning =
    calls_push 7
    ∷ produces
    ∷ produces
    ∷ produces
    ∷ produces
    ∷ calls_push 8
    ∷ produces
    ∷ produces
    ∷ produces
    ∷ produces
    ∷ calls_push 9
    ∷ produces
    ∷ produces
    ∷ produces
    ∷ produces
    ∷ calls_pop
    ∷ consumes
    ∷ consumes
    ∷ consumes
    ∷ []

run-NoRace_example :
    let s = Threads.run 0 owning (start (made 0 2 drop_oldest)) in
    NoRace 2 (producer_slot s.ring s.prod) (cons_owned s.cons)
run-NoRace_example = run-NoRace 0 2 1 drop_oldest owning (omega arith) refl (omega arith)

-- a pop of a new ring before its last step
run-empty_example :
    let s = Threads.run {A = ℕ} 0 (calls_pop ∷ consumes ∷ []) (start (made 0 2 reject)) in
    length s.claims ≡ length s.accepted
unfolding Threads.run tick pop_move
run-empty_example =
    run-empty {A = ℕ} 0 2 1 reject (calls_pop ∷ consumes ∷ []) (checking 0) (omega arith) refl
      (omega arith) refl refl

-- A full ring of four slots, and a consumer that has claimed the oldest element and not released its
-- slot: one push evicts all the others.
abbrev stalled : List (Tick ℕ)
stalled =
    calls_push 1
    ∷ produces
    ∷ produces
    ∷ produces
    ∷ produces
    ∷ calls_push 2
    ∷ produces
    ∷ produces
    ∷ produces
    ∷ produces
    ∷ calls_push 3
    ∷ produces
    ∷ produces
    ∷ produces
    ∷ produces
    ∷ calls_push 4
    ∷ produces
    ∷ produces
    ∷ produces
    ∷ produces
    ∷ calls_pop
    ∷ consumes
    ∷ consumes
    ∷ consumes
    ∷ calls_push 5
    ∷ replicate 24 produces

evicts_all :
    let s = Threads.run 0 stalled (start (made 0 4 drop_oldest)) in
    (s.accepted ≡ 1 ∷ 2 ∷ 3 ∷ 4 ∷ []) × (s.evicted ≡ 2 ∷ 3 ∷ 4 ∷ []) × (s.prod ≡ Threads.trying 5)
unfolding Threads.run tick push_step pop_move
evicts_all = (refl, refl, refl)
