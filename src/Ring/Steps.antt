-- ===== src/Ring/Steps.antt =====
-- What one successful step of each kind does to a valid ring, and when it fails.
use native.Mathlib.Nat.{add-mod_right}
use native.Mathlib.Decide.{dec_lt}
use voice_flux_engine.Prelude.{
  ℕ, suc, ◌+◌, ◌-◌, ◌%◌, ◌^◌, ◌<◌, ◌≡◌, ap, ◌∙◌, u64, set, arith, length-set, [], ◌∷◌, ◌++◌, true,
  false, none, some, ==_refl,
}
use voice_flux_engine.Ring.{Ring, Slot, try_push, pop_loop}
use voice_flux_engine.Ring.Inv.{
  IsValid, slot, slot-set_self, slot-set_ne, contents, window-snoc, window-set_above,
  window-set_below,
}

module _ {ℓ} {A : Type ℓ} (blank : A) (m : ℕ) where
  abbrev pub filled : A → Ring A → Ring A
  filled v r = record r {
    slots = set r.slots (r.tail % m) (record { seq = r.tail + 1; val = v });
    tail = r.tail + 1;
  }

  abbrev pub emptied : Ring A → Ring A
  emptied r = record r {
    slots = set r.slots (r.head % m) (record { seq = r.head + m; val = blank });
    head = r.head + 1;
  }

  -- the slot at `tail` one turn on is the oldest one
  full-slot :
      (r : Ring A)
      → IsValid blank m r
      → r.tail ≡ r.head + m
      → (slot blank m r.slots r.tail).seq ≡ r.head + 1
  full-slot r v e = rw (e, add-mod_right) (v.ready r.head (omega arith) (omega (arith, v.two)))

  pub try_push_full :
      (r : Ring A) (x : A)
      → IsValid blank m r
      → r.tail ≡ r.head + m
      → try_push blank x r ≡ (false, r)
  unfolding try_push
  try_push_full r x v e = rw (v.masked r.tail) (ground (arith, full-slot r v e, v.two))

  pub try_push_room :
      (r : Ring A) (x : A)
      → IsValid blank m r
      → r.tail + m < 2 ^ 63
      → r.tail < r.head + m
      → try_push blank x r ≡ (true, filled x r)
  unfolding try_push
  try_push_room r x v small h =
      rw (v.masked r.tail) (ground (arith, v.free r.tail (omega arith) h, v.two))

  pub filled-IsValid :
      (r : Ring A) (x : A) → IsValid blank m r → r.tail < r.head + m → IsValid blank m (filled x r)
  filled-IsValid r x v h = record {
    two = v.two;
    sized = length-set r.slots _ _ ∙ v.sized;
    masked = v.masked;
    ordered = omega (arith, v.ordered);
    fits = omega arith;
    ready = λ p a b. elim (dec_lt p r.tail) [
      | yes old ↦
          ap (λ (s : Slot A). s.seq)
            (slot-set_ne blank m r.slots p r.tail _ old (omega (arith, v.fits))).1
          ∙ v.ready p a old
      | no new ↦
          let e : p ≡ r.tail = omega arith in
          rw (e, slot-set_self blank m r.slots r.tail _ (omega (arith, v.two)) v.sized)
    ];
    free = λ p a b.
        (slot-set_ne blank m r.slots r.tail p _ (omega arith) (omega (arith, v.ordered))).0
        ∙ v.free p (omega arith) b;
  }

  pub contents-filled :
      (r : Ring A) (x : A)
      → IsValid blank m r
      → r.tail < r.head + m
      → contents blank m (filled x r) ≡ contents blank m r ++ x ∷ []
  contents-filled r x v h =
      let n = r.tail - r.head in
      let one_more : r.tail + 1 - r.head ≡ suc n = omega (arith, v.ordered) in
      rw (
        one_more,
        window-snoc blank m (filled x r).slots r.head n r.tail (omega (arith, v.ordered)),
        slot-set_self blank m r.slots r.tail _ (omega (arith, v.two)) v.sized,
        window-set_above blank m r.slots r.head n r.tail _ (omega (arith, v.ordered)) h,
      )

  pub pop_empty :
      (r : Ring A) (fuel : ℕ)
      → IsValid blank m r
      → r.tail < 2 ^ 63
      → r.head ≡ r.tail
      → pop_loop blank (suc fuel) r ≡ some (none, r)
  unfolding pop_loop
  pop_empty r fuel v small e =
      rw (v.masked r.head) (ground (arith, v.free r.head (omega arith) (omega (arith, v.two))))

  pub pop_some :
      (r : Ring A) (fuel : ℕ)
      → IsValid blank m r
      → r.tail + m < 2 ^ 63
      → r.head < r.tail
      → pop_loop blank (suc fuel) r ≡ some (some (slot blank m r.slots r.head).val, emptied r)
  unfolding pop_loop
  pop_some r fuel v small h =
      let s = slot blank m r.slots r.head in
      let up : u64 (r.head + 1) ≡ r.head + 1 = omega arith in
      let turn : u64 (r.head + m) ≡ r.head + m = omega (arith, v.fits) in
      let same : (s.seq + 2 ^ 64 - (r.head + 1)) % 2 ^ 64 ≡ 0 =
        omega (arith, v.ready r.head (omega arith) h) in
      rw (v.masked r.head, ==_refl r.head, v.sized, up, turn, same) (rw (v.masked r.head))

  pub emptied-IsValid :
      (r : Ring A) → IsValid blank m r → r.head < r.tail → IsValid blank m (emptied r)
  emptied-IsValid r v h = record {
    two = v.two;
    sized = length-set r.slots _ _ ∙ v.sized;
    masked = v.masked;
    ordered = omega arith;
    fits = omega (arith, v.fits);
    ready = λ p a b.
        ap (λ (s : Slot A). s.seq)
          (slot-set_ne blank m r.slots r.head p _ (omega arith) (omega (arith, v.fits))).0
        ∙ v.ready p (omega arith) b;
    free = λ p a b. elim (dec_lt p (r.head + m)) [
      | yes old ↦ (slot-set_ne blank m r.slots r.head p _ (omega arith) old).0 ∙ v.free p a old
      | no new ↦
          let e : p ≡ r.head + m = omega arith in
          rw (e, add-mod_right)
            (slot-set_self blank m r.slots r.head _ (omega (arith, v.two)) v.sized)
    ];
  }

  pub contents-emptied :
      (r : Ring A)
      → IsValid blank m r
      → r.head < r.tail
      → contents blank m r ≡ (slot blank m r.slots r.head).val ∷ contents blank m (emptied r)
  contents-emptied r v h =
      let n = r.tail - (r.head + 1) in
      let one_more : r.tail - r.head ≡ suc n = omega arith in
      rw (
        one_more,
        window-set_below blank m r.slots (r.head + 1) n r.head
            (record { seq = r.head + m; val = blank }) (omega arith) (omega (arith, v.fits)),
      )
