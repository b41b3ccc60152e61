-- ===== src/Ring/Inv.antt =====
-- The representation invariant of a ring between two calls.
use native.Mathlib.Nat.{add-zero}
use voice_flux_engine.Prelude.{
  ap, ap₂, [], ◌∷◌, ◌++◌, ℕ, zero, suc, ◌+◌, ◌-◌, ◌%◌, ◌≤◌, ◌<◌, ◌≡◌, ◌≢◌, refl, sym, bit_and,
  length, get_or, set, List, arith, get_or-set_self, get_or-set_ne,
}
use voice_flux_engine.Ring.{Ring, Slot, blank_slot, slot_at}

-- Two positions less than a turn apart have different slots.
pub mod-ne : (m p q : ℕ) → p < q → q < p + m → p % m ≢ q % m
mod-ne m p q lt near e = grind arith

module _ {ℓ} {A : Type ℓ} (blank : A) where
  -- the slot of position `p` in a ring of `m` slots
  abbrev pub slot : ℕ → List (Slot A) → ℕ → Slot A
  slot m slots p = get_or slots (p % m) (blank_slot blank)

  pub slot-set_self :
      (m : ℕ) (slots : List (Slot A)) (p : ℕ) (s : Slot A)
      → 0 < m
      → length slots ≡ m
      → slot m (set slots (p % m) s) p ≡ s
  slot-set_self m slots p s h e = get_or-set_self slots (p % m) s (blank_slot blank) (omega arith)

  pub slot-set_ne :
      (m : ℕ) (slots : List (Slot A)) (p q : ℕ) (s : Slot A)
      → p < q
      → q < p + m
      → (slot m (set slots (p % m) s) q ≡ slot m slots q)
        × (slot m (set slots (q % m) s) p ≡ slot m slots p)
  slot-set_ne m slots p q s h k = (
    get_or-set_ne slots (p % m) (q % m) s (blank_slot blank) (mod-ne m p q h k),
    get_or-set_ne slots (q % m) (p % m) s (blank_slot blank) (λ e. mod-ne m p q h k (sym e)),
  )

  -- the values from position `h` on, `n` of them
  abbrev pub window : ℕ → List (Slot A) → ℕ → ℕ → List A
  window m slots h zero = []
  window m slots h (suc n) = (slot m slots h).val ∷ window m slots (h + 1) n

  pub length-window : (m : ℕ) (slots : List (Slot A)) (h n : ℕ) → length (window m slots h n) ≡ n
  length-window m slots h zero = refl
  length-window m slots h (suc n) = ap suc (length-window m slots (h + 1) n)

  -- A write past a window of at most a turn leaves it alone.
  pub window-set_above :
      (m : ℕ) (slots : List (Slot A)) (h n q : ℕ) (s : Slot A)
      → h + n ≤ q
      → q < h + m
      → window m (set slots (q % m) s) h n ≡ window m slots h n
  window-set_above m slots h zero q s a b = refl
  window-set_above m slots h (suc n) q s a b =
      ap₂ ◌∷◌ (ap (λ (x : Slot A). x.val) (slot-set_ne m slots h q s (omega arith) (omega arith)).1)
        (window-set_above m slots (h + 1) n q s (omega arith) (omega arith))

  -- So does a write before it.
  pub window-set_below :
      (m : ℕ) (slots : List (Slot A)) (h n q : ℕ) (s : Slot A)
      → q < h
      → h + n ≤ q + m
      → window m (set slots (q % m) s) h n ≡ window m slots h n
  window-set_below m slots h zero q s a b = refl
  window-set_below m slots h (suc n) q s a b =
      ap₂ ◌∷◌ (ap (λ (x : Slot A). x.val) (slot-set_ne m slots q h s (omega arith) (omega arith)).0)
        (window-set_below m slots (h + 1) n q s (omega arith) (omega arith))

  pub window-snoc :
      (m : ℕ) (slots : List (Slot A)) (h n q : ℕ)
      → h + n ≡ q
      → window m slots h (suc n) ≡ window m slots h n ++ (slot m slots q).val ∷ []
  window-snoc m slots h zero q e = rw (← e, add-zero)
  window-snoc m slots h (suc n) q e =
      ap (◌∷◌ (slot m slots h).val) (window-snoc m slots (h + 1) n q (omega arith))

  -- `m` is the capacity: at least 2, and the mask takes remainders by it. The slots from `head` to
  -- `tail` are published; those from `tail` to a turn past `head` are free and blank.
  pub record IsValid (m : ℕ) (r : Ring A) : Type ℓ where
    pub two : 2 ≤ m
    pub sized : length r.slots ≡ m
    pub masked : (x : ℕ) → bit_and x r.mask ≡ x % m
    pub ordered : r.head ≤ r.tail
    pub fits : r.tail ≤ r.head + m
    pub ready : (p : ℕ) → r.head ≤ p → p < r.tail → (slot m r.slots p).seq ≡ p + 1
    pub free :
        (p : ℕ) → r.tail ≤ p → p < r.head + m → slot m r.slots p ≡ record { seq = p; val = blank }

  -- the elements in the ring, oldest first
  abbrev pub contents : ℕ → Ring A → List A
  contents m r = window m r.slots r.head (r.tail - r.head)

  pub slot_at-slot :
      (m : ℕ) (r : Ring A) (p : ℕ) → IsValid m r → slot_at blank r p ≡ slot m r.slots p
  slot_at-slot m r p v = rw (v.masked p)
