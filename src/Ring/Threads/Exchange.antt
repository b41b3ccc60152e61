-- ===== src/Ring/Threads/Exchange.antt =====
-- What the two goroutines exchange through a new ring, and that they do not race.
use native.Mathlib.Nat.{mod-eq_of_lt}
use native.Mathlib.Decide.{dec_lt}
use voice_flux_engine.Prelude.{
  ℕ, ◌+◌, ◌%◌, ◌^◌, ◌≤◌, ◌<◌, ◌≡◌, ◌≢◌, refl, sym, ap, ◌∙◌, subst, length, get_or, List, ◌++◌,
  false, Option, none, some, arith, ◌⊎◌, inl, inr, ◌==◌, ==_cases,
}
use voice_flux_engine.Ring.{Ring, Slot, Policy, blank_slot, slot_at}
use voice_flux_engine.Ring.Inv.{slot, mod-ne}
use voice_flux_engine.Ring.New.{made, made-IsValid}
use voice_flux_engine.Ring.Threads.{
  Popping, finds_empty, pop_move, Pushing, resting, advancing, trying, writing, publishing,
  counting, evicting, popping, consumer, evictor, Tick, run, start,
}
use voice_flux_engine.Ring.Threads.Core.{Core, Clear, below}
use voice_flux_engine.Ring.Threads.Pops.{owned, Good, pop_move-Good}
use voice_flux_engine.Ring.Threads.Shares.{share, held}
use voice_flux_engine.Ring.Threads.Sound.{Sound, ProdAt, ConsAt, prod_owned, cons_owned}
use voice_flux_engine.Ring.Threads.Linear.{run-Sound, run-few}
use voice_flux_engine.Ring.Threads.Core.{Core-swap}

-- The slots that the goroutines may touch.
abbrev pub producer_slot : {A : Type 0} → Ring A → Pushing A → Option ℕ
producer_slot r (writing v) = some r.tail
producer_slot r (publishing v) = some r.tail
producer_slot r p = prod_owned p

abbrev pub NoRace : ℕ → Option ℕ → Option ℕ → Type 0
NoRace m (some p) (some c) = p % m ≢ c % m
NoRace m _ _ = Unit

not-Clear : (n : ℕ) (o : Option ℕ) (t : ℕ) → ¬ Clear n o t → (c : ℕ) × (o ≡ some c) × (t ≡ c + n)
not-Clear n none t h = absurd (h tt)
not-Clear n (some c) t h = elim (==_cases t (c + n)) [
  | inl e ↦ (c, refl, e)
  | inr ne ↦ absurd (h ne)
]

module _ {A : Type 0} (blank : A) where
  start_bounded :
      (n k : ℕ) (p : Policy)
      → 2 ≤ n
      → n < 2 ^ 63
      → n ≡ 2 ^ k
      → (q : ℕ) → (slot blank n (made blank n p).slots q).seq ≤ 0 + n
  start_bounded n k p two small e q =
      let v = made-IsValid blank n k p two small e in
      let lt : q % n < n = omega (arith, two) in
      let same : q % n % n ≡ q % n = mod-eq_of_lt lt in
      let there =
        ap (λ i. (get_or (made blank n p).slots i (blank_slot blank)).seq) (sym same)
        ∙ ap (λ (s : Slot A). s.seq) (v.free (q % n) (omega arith) (omega arith)) in
      omega arith

  start-Sound :
      (n k : ℕ) (p : Policy)
      → 2 ≤ n
      → n < 2 ^ 63
      → n ≡ 2 ^ k
      → Sound blank n (start (made blank n p))
  start-Sound n k p two small e =
      let v = made-IsValid blank n k p two small e in
      let slots = (made blank n p).slots in
      record {
        core = record {
          two = two;
          sized = v.sized;
          masked = v.masked;
          lead = omega arith;
          fits = omega arith;
          ready = λ q x y. absurd (omega arith);
          free = λ q x y _ _. ap (λ (s : Slot A). s.seq) (v.free q (omega arith) y);
          bounded = λ q. start_bounded n k p two small e q;
          mine = tt;
          other = tt;
          apart = tt;
        };
        prod_at = refl;
        cons_at = tt;
        claimed = refl;
        delivers = refl;
        evicts = refl;
      }

  run_start-Sound :
      (n k : ℕ) (p : Policy) (ts : List (Tick A))
      → 2 ≤ n
      → n ≡ 2 ^ k
      → n + length ts < 2 ^ 63
      → Sound blank n (run blank ts (start (made blank n p)))
  run_start-Sound n k p ts two e small =
      run-Sound blank n ts (start (made blank n p)) (omega arith)
        (start-Sound n k p two (omega arith) e)

  -- A new ring of at least two slots whose producer and consumer interleave in any order, below 2^63
  -- steps. The elements that pops have returned and the one in the consumer's hands are the published
  -- elements that the consumer claimed, in order, and so for the evictions; each of the oldest
  -- published elements is claimed once, and those not claimed yet are at most the capacity.
  pub run-exchanges :
      (n k : ℕ) (p : Policy) (ts : List (Tick A))
      → 2 ≤ n
      → n ≡ 2 ^ k
      → n + length ts < 2 ^ 63
      → let s = run blank ts (start (made blank n p)) in
        (s.delivered ++ held blank (cons_owned s.cons) s.accepted
          ≡ share consumer s.claims s.accepted)
        × (s.evicted ++ held blank (prod_owned s.prod) s.accepted
            ≡ share evictor s.claims s.accepted)
        × (length s.claims ≤ length s.accepted)
        × (length s.accepted ≤ length s.claims + n)
  run-exchanges n k p ts two e small =
      let s = run_start-Sound n k p ts two e small in
      let c = s.claimed in
      (s.delivers, s.evicts, omega (arith, s.core.lead), omega (arith, s.core.fits))

  consumer_away :
      (n : ℕ) (r : Ring A) (acc : List A) (a o : Option ℕ)
      → Core blank n r acc a o
      → (slot blank n r.slots (length acc)).seq ≡ length acc
      → NoRace n (some (length acc)) o
  consumer_away n r acc a none k u = tt
  consumer_away n r acc a (some c) k u =
      let near = below blank n (Core-swap blank n k) u c k.other in
      λ q. mod-ne n c (length acc) (omega (arith, k.lead, k.other.0)) near (sym q)

  owners_away :
      (n : ℕ) (r : Ring A) (acc : List A) (a b : Option ℕ) → Core blank n r acc a b → NoRace n a b
  owners_away n r acc none b k = tt
  owners_away n r acc (some c) none k = tt
  owners_away n r acc (some c) (some d) k =
      let (lc, nc, _) = k.mine in
      let (ld, nd, _) = k.other in
      let lead = k.lead in
      λ q. elim (dec_lt c d) [
        | yes lt ↦ mod-ne n c d lt (omega arith) q
        | no ge ↦
            let ne = k.apart in
            elim (==_cases c d) [
              | inl same ↦ ne same
              | inr _ ↦ mod-ne n d c (omega arith) (omega arith) (sym q)
            ]
      ]

  away :
      (n : ℕ) (r : Ring A) (acc : List A) (p : Pushing A) (o : Option ℕ)
      → Core blank n r acc (prod_owned p) o
      → ProdAt blank n r acc p
      → NoRace n (producer_slot r p) o
  away n r acc (writing v) o k (t, u, _) =
      subst (λ x. NoRace n (some x) o) (sym t) (consumer_away n r acc none o k u)
  away n r acc (publishing v) o k (t, u, _) =
      subst (λ x. NoRace n (some x) o) (sym t)
        (consumer_away n r acc none o k (ap (λ (s : Slot A). s.seq) u))
  away n r acc (evicting v pc) o k h = owners_away n r acc (owned pc) o k
  away n r acc resting o k h = tt
  away n r acc (trying v) o k h = tt
  away n r acc advancing o k h = tt
  away n r acc (counting v) o k h = tt

  -- A new ring of at least two slots whose producer and consumer interleave in any order, below 2^63
  -- steps. The goroutines never have hold of the same slot: a slot whose value one of them copies,
  -- wipes or writes, or whose number it is about to store, is another one than the other's.
  pub run-NoRace :
      (n k : ℕ) (p : Policy) (ts : List (Tick A))
      → 2 ≤ n
      → n ≡ 2 ^ k
      → n + length ts < 2 ^ 63
      → let s = run blank ts (start (made blank n p)) in
        NoRace n (producer_slot s.ring s.prod) (cons_owned s.cons)
  run-NoRace n k p ts two e small =
      let s = run blank ts (start (made blank n p)) in
      let h = run_start-Sound n k p ts two e small in
      away n s.ring s.accepted s.prod (cons_owned s.cons) h.core h.prod_at

  full_slots :
      (n : ℕ) (r : Ring A) (acc : List A) (o : Option ℕ) (claims : ℕ)
      → Core blank n r acc none o
      → claims ≡ r.head
      → (slot_at blank r (length acc)).seq ≢ length acc
      → (length acc ≡ claims + n) ⊎ ((c : ℕ) × (o ≡ some c) × (length acc ≡ c + n))
  full_slots n r acc o claims k same full = elim (==_cases (length acc) (r.head + n)) [
    | inl q ↦ inl (omega arith)
    | inr ne ↦
        let room : length acc < r.head + n = omega (arith, k.fits) in
        let taken : Clear n o (length acc) → (slot_at blank r (length acc)).seq ≡ length acc =
          λ clear.
            ap (λ i. (get_or r.slots i (blank_slot blank)).seq) (k.masked (length acc))
            ∙ k.free (length acc) (omega arith) room tt clear in
        inr (not-Clear n o (length acc) (λ clear. full (taken clear)))
  ]

  -- A new ring of at least two slots whose producer and consumer interleave in any order, below 2^63
  -- steps. A pop of the consumer whose next step answers that the ring is empty does so only when
  -- every published element has been claimed, though the read cursor that it looks at may be old.
  pub run-empty :
      (n k : ℕ) (p : Policy) (ts : List (Tick A)) (pc : Popping A)
      → 2 ≤ n
      → n ≡ 2 ^ k
      → n + length ts < 2 ^ 63
      → let s = run blank ts (start (made blank n p)) in
        s.cons ≡ popping pc
        → pop_move blank pc s.ring ≡ finds_empty
        → length s.claims ≡ length s.accepted
  run-empty n k p ts pc two e small at found =
      let s = run blank ts (start (made blank n p)) in
      let h = run_start-Sound n k p ts two e small in
      let few = run-few blank n ts (start (made blank n p)) in
      let core =
        subst (λ c. Core blank n s.ring s.accepted (prod_owned s.prod) (cons_owned c)) at h.core in
      let g =
        pop_move-Good blank n s.ring s.accepted (prod_owned s.prod) pc (omega arith)
          (Core-swap blank n core) (subst (ConsAt blank n s.ring s.accepted) at h.cons_at) in
      h.claimed ∙ (subst (Good blank n s.ring s.accepted (prod_owned s.prod) pc) found g).1

  -- In the same setting, an attempt to push fails only when all slots hold elements that are not
  -- claimed, or the consumer has not released the slot that comes next.
  run-full :
      (n k : ℕ) (p : Policy) (ts : List (Tick A)) (v : A)
      → 2 ≤ n
      → n ≡ 2 ^ k
      → n + length ts < 2 ^ 63
      → let s = run blank ts (start (made blank n p)) in
        s.prod ≡ trying v
        → ((slot_at blank s.ring s.ring.tail).seq == s.ring.tail) ≡ false
        → (length s.accepted ≡ length s.claims + n)
          ⊎ ((c : ℕ) × (cons_owned s.cons ≡ some c) × (length s.accepted ≡ c + n))
  run-full n k p ts v two e small at full =
      let s = run blank ts (start (made blank n p)) in
      let h = run_start-Sound n k p ts two e small in
      let core =
        subst (λ q. Core blank n s.ring s.accepted (prod_owned q) (cons_owned s.cons)) at h.core in
      let t : s.ring.tail ≡ length s.accepted =
        subst (ProdAt blank n s.ring s.accepted) at h.prod_at in
      full_slots n s.ring s.accepted (cons_owned s.cons) (length s.claims) core h.claimed
        (subst (λ x. (slot_at blank s.ring x).seq ≢ x) t (λ q. ground arith))
