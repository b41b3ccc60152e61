-- ===== src/Ring/Refine.antt =====
-- One goroutine that uses a ring cannot tell it from the bounded queue.
use native.Mathlib.Decide.{dec_lt}
use voice_flux_engine.Prelude.{
  ℕ, suc, ◌+◌, ◌-◌, ◌^◌, ◌≤◌, ◌<◌, ◌≡◌, refl, length, arith, true, false, Bool, Option, none, some,
  Bool-cases, u64, inl, inr,
}
use voice_flux_engine.Ring.{Ring, is_reject, pop_loop, evict_loop, push}
use voice_flux_engine.Ring.Inv.{IsValid, contents, slot, length-window}
use voice_flux_engine.Ring.Queue.{Queue, Op, put, get, Reply, put_step, get_step, rest}
use voice_flux_engine.Ring.Queue
use voice_flux_engine.Ring.Steps.{
  filled, emptied, try_push_full, try_push_room, filled-IsValid, contents-filled, pop_empty,
  pop_some, emptied-IsValid, contents-emptied,
}

module _ {ℓ} {A : Type ℓ} (blank : A) (m : ℕ) where
  -- the ring as a queue
  abbrev pub view : Ring A → Queue A
  view r = record { items = contents blank m r; evicted = r.dropped }

  pub length-contents : (r : Ring A) → length (contents blank m r) ≡ r.tail - r.head
  length-contents r = length-window blank m r.slots r.head (r.tail - r.head)

  -- A push that ends within one round, in a valid ring that holds what the queue would.
  pub record Pushed (x : A) (r : Ring A) (fuel : ℕ) : Type ℓ where
    pub done : Bool
    pub next : Ring A
    pub runs : push blank (suc fuel) x r ≡ some (done, next)
    pub valid : IsValid blank m next
    pub refines : ◌≡◌ {A = Bool × Queue A} (done, view next) (put_step m r.policy x (view r))
    pub tail_le : next.tail ≤ r.tail + 1
    pub same_policy : next.policy ≡ r.policy

  push_room :
      (r : Ring A) (x : A) (fuel : ℕ)
      → IsValid blank m r
      → r.tail + m < 2 ^ 63
      → r.tail < r.head + m
      → Pushed x r fuel
  push_room r x fuel v small h = record {
    done = true;
    next = filled blank m x r;
    runs = unfold push in rw (try_push_room blank m r x v small h);
    valid = filled-IsValid blank m r x v h;
    refines = ground (arith, length-contents r, contents-filled blank m r x v h, v.ordered);
    tail_le = omega arith;
    same_policy = refl;
  }

  push_reject :
      (r : Ring A) (x : A) (fuel : ℕ)
      → IsValid blank m r
      → r.tail ≡ r.head + m
      → is_reject r.policy ≡ true
      → Pushed x r fuel
  push_reject r x fuel v e j = record {
    done = false;
    next = r;
    runs = unfold push in rw (try_push_full blank m r x v e, j);
    valid = v;
    refines = ground (arith, length-contents r);
    tail_le = omega arith;
    same_policy = refl;
  }

  -- the ring once the oldest element is evicted and counted
  abbrev evicted : Ring A → Ring A
  evicted r = record (emptied blank m r) { dropped = u64 (r.dropped + 1) }

  evicted-IsValid : (r : Ring A) → IsValid blank m r → r.head < r.tail → IsValid blank m (evicted r)
  evicted-IsValid r v h =
      let w = emptied-IsValid blank m r v h in
      record {
        two = w.two;
        sized = w.sized;
        masked = w.masked;
        ordered = w.ordered;
        fits = w.fits;
        ready = w.ready;
        free = w.free;
      }

  push_evict :
      (r : Ring A) (x : A) (fuel : ℕ)
      → IsValid blank m r
      → r.tail + m < 2 ^ 63
      → r.tail ≡ r.head + m
      → is_reject r.policy ≡ false
      → Pushed x r fuel
  push_evict r x fuel v small e j =
      let busy : r.head < r.tail = omega (arith, v.two) in
      let w = evicted-IsValid r v busy in
      let room : r.tail < r.head + 1 + m = omega arith in
      record {
        done = true;
        next = filled blank m x (evicted r);
        runs =
            unfold push evict_loop in
            rw
              (
                try_push_full blank m r x v e,
                j,
                pop_some blank m r fuel v small busy,
                evict_loop,
                try_push_room blank m (evicted r) x w small room,
              )
              (rw (try_push_room blank m (evicted r) x w small room));
        valid = filled-IsValid blank m (evicted r) x w room;
        refines = ground (
          arith,
          length-contents r,
          contents-filled blank m (evicted r) x w room,
          contents-emptied blank m r v busy,
          v.two,
        );
        tail_le = omega arith;
        same_policy = refl;
      }

  pub push-Pushed :
      (r : Ring A) (x : A) (fuel : ℕ) → IsValid blank m r → r.tail + m < 2 ^ 63 → Pushed x r fuel
  push-Pushed r x fuel v small = elim (dec_lt r.tail (r.head + m)) [
    | yes room ↦ push_room r x fuel v small room
    | no full ↦
        let e : r.tail ≡ r.head + m = omega (arith, v.fits) in
        elim (Bool-cases (is_reject r.policy)) [
          | inl j ↦ push_reject r x fuel v e j
          | inr j ↦ push_evict r x fuel v small e j
        ]
  ]

  -- A pop that ends within one round, in a valid ring.
  pub record Popped (r : Ring A) (fuel : ℕ) : Type ℓ where
    pub out : Option A
    pub next : Ring A
    pub runs : pop_loop blank (suc fuel) r ≡ some (out, next)
    pub valid : IsValid blank m next
    pub refines : ((Queue.found out, out), view next) ≡ get_step (contents blank m r) r.dropped
    pub tail_le : next.tail ≡ r.tail
    pub same_policy : next.policy ≡ r.policy

  pub pop-Popped : (r : Ring A) (fuel : ℕ) → IsValid blank m r → r.tail + m < 2 ^ 63 → Popped r fuel
  pop-Popped r fuel v small = elim (dec_lt r.head r.tail) [
    | yes busy ↦ record {
      out = some (slot blank m r.slots r.head).val;
      next = emptied blank m r;
      runs = pop_some blank m r fuel v small busy;
      valid = emptied-IsValid blank m r v busy;
      refines = rw (contents-emptied blank m r v busy);
      tail_le = refl;
      same_policy = refl;
    }
    | no idle ↦
        let e : r.head ≡ r.tail = omega (arith, v.ordered) in
        let none_left : r.tail - r.head ≡ 0 = omega arith in
        record {
          out = none;
          next = r;
          runs = pop_empty blank m r fuel v (omega arith) e;
          valid = v;
          refines = rw none_left;
          tail_le = refl;
          same_policy = refl;
        }
  ]
