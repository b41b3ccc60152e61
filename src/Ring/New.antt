-- ===== src/Ring/New.antt =====
-- `New`: which capacities it takes, and the ring that it makes.
use voice_flux_engine.Prelude.{
  ℕ, zero, suc, ◌+◌, ◌-◌, ◌^◌, ◌≤◌, ◌<◌, ◌≡◌, ◌↔◌, refl, ap, ◌∙◌, length, List, arith, [], some,
  u64, bit_and, get_or,
}
use native.Mathlib.Nat.{mod-eq_of_lt, add-zero, mod_self}
use voice_flux_engine.Prelude.Bits.{bit_and_mask, power_of_two, pow_pos}
use voice_flux_engine.Prelude.Int.{ℤ, pos, negsuc}
use voice_flux_engine.Prelude.Result.{ok}
use voice_flux_engine.Ring.{Ring, Policy, new, fresh_slots, blank_slot}
use voice_flux_engine.Ring.Inv.{IsValid}
use voice_flux_engine.Ring.Queue.{Queue, Op}
use voice_flux_engine.Ring.Queue
use voice_flux_engine.Ring.History.{run, run_refines}

module _ {ℓ} {A : Type ℓ} (blank : A) where
  length-fresh_slots : (n i : ℕ) → length (fresh_slots blank n i) ≡ n
  length-fresh_slots zero i = refl
  length-fresh_slots (suc n) i = ap suc (length-fresh_slots n (i + 1))

  fresh_slots-get_or :
      (n i j : ℕ)
      → j < n
      → get_or (fresh_slots blank n i) j (blank_slot blank)
        ≡ record { seq = u64 (i + j); val = blank }
  fresh_slots-get_or zero i j h = absurd (omega arith)
  fresh_slots-get_or (suc n) i zero h = rw add-zero
  fresh_slots-get_or (suc n) i (suc j) h =
      let e : i + 1 + j ≡ i + suc j = omega arith in
      fresh_slots-get_or n (i + 1) j (omega arith) ∙ rw e

  -- the ring that `new` returns
  abbrev pub made : ℕ → Policy → Ring A
  made n p = record {
    mask = n - 1;
    policy = p;
    slots = fresh_slots blank n 0;
    tail = 0;
    head = 0;
    dropped = 0;
  }

  pub new-made : (n k : ℕ) (p : Policy) → n ≡ 2 ^ k → new blank (pos n) p ≡ ok (made n p)
  unfolding new
  new-made n k p e =
      let low : bit_and n (n - 1) ≡ 0 = rw (e, bit_and_mask k (2 ^ k), mod_self) in
      ground (arith, low, pow_pos k, e)

  new-power :
      (n : ℕ) (p : Policy) (r : Ring A)
      → new blank (pos n) p ≡ ok r
      → ((k : ℕ) × (n ≡ 2 ^ k)) × (r ≡ made n p)
  unfolding new
  new-power n p r e = (power_of_two n (ground arith) (ground arith), ground arith)

  -- `New` succeeds on the powers of two and on no other capacity; a negative one is an error.
  pub new_iff :
      (c : ℤ) (p : Policy) → ((r : Ring A) × (new blank c p ≡ ok r)) ↔ ((k : ℕ) × (c ≡ pos (2 ^ k)))
  unfolding new
  new_iff (negsuc n) p = ((λ h. cc (h.1)), (λ h. cc (h.1)))
  new_iff (pos n) p = (
    (λ h. let (k, e) = (new-power n p h.0 h.1).0 in (k, ap pos e)),
    (λ h. (made n p, new-made n h.0 p (ground (arith, h.1)))),
  )

  pub made-IsValid :
      (n k : ℕ) (p : Policy) → 2 ≤ n → n < 2 ^ 63 → n ≡ 2 ^ k → IsValid blank n (made n p)
  made-IsValid n k p two small e = record {
    two = two;
    sized = length-fresh_slots n 0;
    masked = λ x. rw (e, bit_and_mask k x);
    ordered = omega arith;
    fits = omega arith;
    ready = λ q a b. absurd (omega arith);
    free = λ q a b.
        let lt : q < n = omega arith in
        let word : u64 (0 + q) ≡ q = omega arith in
        rw (mod-eq_of_lt lt, fresh_slots-get_or n 0 q lt, word);
  }

  -- A ring fresh from `New`, of capacity at least 2, answers every history of pushes and pops as the
  -- empty bounded queue of that capacity and policy does, while fewer than 2^63 calls are made.
  pub new_run_refines :
      (n : ℕ) (p : Policy) (r : Ring A) (ops : List (Op A))
      → new blank (pos n) p ≡ ok r
      → 2 ≤ n
      → length ops + n < 2 ^ 63
      → (last : Ring A) × (run blank ops r
          ≡ some ((Queue.run n p ops (record { items = []; evicted = 0 })).0, last))
  new_run_refines n p r ops e two small =
      let ((k, q), made_it) = new-power n p r e in
      let (last, runs, holds, valid) =
        run_refines blank n ops (made n p) (made-IsValid n k p two (omega arith) q) (omega arith) in
      (last, rw made_it runs)
