-- ===== src/Ring/Threads/Core.antt =====
-- The memory of a ring under its two goroutines: which slots are published, free and owned, and how
-- each access changes that.
use native.Mathlib.Nat.{add-mod_right}
use native.Mathlib.Decide.{dec_lt}
use voice_flux_engine.Prelude.{
  ℕ, ◌+◌, ◌%◌, ◌≤◌, ◌<◌, ◌≡◌, ◌≢◌, sym, ap, ◌∙◌, subst, set, get_or, get_or-append, get_or-last,
  get_or-set_ne, length, length-set, length-append, bit_and, List, [], ◌∷◌, ◌++◌, Option, none,
  some, arith, ◌⊎◌, inl, inr, ==_cases,
}
use voice_flux_engine.Ring.{Ring, Slot, blank_slot}
use voice_flux_engine.Ring.Inv.{slot, slot-set_self, slot-set_ne}

-- the position that a goroutine owns is not one turn before `p`
abbrev pub Clear : ℕ → Option ℕ → ℕ → Type 0
Clear m none p = Unit
Clear m (some c) p = p ≢ c + m

abbrev pub Apart : Option ℕ → Option ℕ → Type 0
Apart (some c) (some d) = c ≢ d
Apart _ _ = Unit

Apart-sym : (a b : Option ℕ) → Apart a b → Apart b a
Apart-sym none none h = tt
Apart-sym none (some d) h = tt
Apart-sym (some c) none h = tt
Apart-sym (some c) (some d) h = λ e. h (sym e)

module _ {ℓ} {A : Type ℓ} (blank : A) (m : ℕ) where
  -- an owned position: claimed, not released, and so not written again
  abbrev pub Holds : Ring A → ℕ → Option ℕ → Type 0
  Holds r t none = Unit
  Holds r t (some c) = (c < r.head) × (t ≤ c + m) × ((slot blank m r.slots c).seq ≡ c + 1)

  -- `acc` is what has been published, and `a` and `b` are the positions that the goroutines own.
  pub record Core (r : Ring A) (acc : List A) (a b : Option ℕ) : Type ℓ where
    pub two : 2 ≤ m
    pub sized : length r.slots ≡ m
    pub masked : (x : ℕ) → bit_and x r.mask ≡ x % m
    pub lead : r.head ≤ length acc
    pub fits : length acc ≤ r.head + m
    pub ready :
        (p : ℕ)
        → r.head ≤ p
        → p < length acc
        → slot blank m r.slots p ≡ record { seq = p + 1; val = get_or acc p blank }
    pub free :
        (p : ℕ)
        → length acc ≤ p
        → p < r.head + m
        → Clear m a p
        → Clear m b p
        → (slot blank m r.slots p).seq ≡ p
    pub bounded : (p : ℕ) → (slot blank m r.slots p).seq ≤ length acc + m
    pub mine : Holds r (length acc) a
    pub other : Holds r (length acc) b
    pub apart : Apart a b

  pub Core-swap : {r : Ring A} {acc : List A} {a b : Option ℕ} → Core r acc a b → Core r acc b a
  Core-swap {a} {b} k = record {
    two = k.two;
    sized = k.sized;
    masked = k.masked;
    lead = k.lead;
    fits = k.fits;
    ready = k.ready;
    free = λ p x y cb ca. k.free p x y ca cb;
    bounded = k.bounded;
    mine = k.other;
    other = k.mine;
    apart = Apart-sym a b k.apart;
  }

  Holds-aside :
      (r : Ring A) (n t d : ℕ) (o : Option ℕ)
      → Holds r n o
      → Holds (record r { tail = t; dropped = d }) n o
  Holds-aside r n t d none h = tt
  Holds-aside r n t d (some c) h = h

  -- The write cursor and the count of drops do not matter.
  pub Core-aside :
      {r : Ring A} {acc : List A} {a b : Option ℕ} (t d : ℕ)
      → Core r acc a b
      → Core (record r { tail = t; dropped = d }) acc a b
  Core-aside {r} {acc} {a} {b} t d k = record {
    two = k.two;
    sized = k.sized;
    masked = k.masked;
    lead = k.lead;
    fits = k.fits;
    ready = k.ready;
    free = k.free;
    bounded = k.bounded;
    mine = Holds-aside r (length acc) t d a k.mine;
    other = Holds-aside r (length acc) t d b k.other;
    apart = k.apart;
  }

  -- a write to the slot of `p`
  abbrev pub put_slot : ℕ → Slot A → Ring A → Ring A
  put_slot p s r = record r { slots = set r.slots (p % m) s }

  -- is seen at no other position less than a turn away
  pub slot-near :
      (slots : List (Slot A)) (p q : ℕ) (s : Slot A)
      → p ≢ q
      → p < q + m
      → q < p + m
      → slot blank m (set slots (p % m) s) q ≡ slot blank m slots q
  slot-near slots p q s ne near far = elim (dec_lt p q) [
    | yes lt ↦ (slot-set_ne blank m slots p q s lt far).0
    | no ge ↦ (slot-set_ne blank m slots q p s (omega arith) near).1
  ]

  -- nor at one less than two turns on, but for that one turn on
  slot-far :
      (slots : List (Slot A)) (p q : ℕ) (s : Slot A)
      → p < q
      → q < p + m + m
      → q ≢ p + m
      → slot blank m (set slots (p % m) s) q ≡ slot blank m slots q
  slot-far slots p q s lt far ne = elim (dec_lt q (p + m)) [
    | yes near ↦ slot-near slots p q s (omega arith) (omega arith) near
    | no over ↦
        subst (λ i. slot blank m (set slots i s) q ≡ slot blank m slots q) (add-mod_right p m)
          (slot-near slots (p + m) q s (omega arith) (omega arith) (omega arith))
  ]

  pub slot_self :
      {r : Ring A} {acc : List A} {a b : Option ℕ} (k : Core r acc a b) (p : ℕ) (s : Slot A)
      → slot blank m (set r.slots (p % m) s) p ≡ s
  slot_self {r} k p s = slot-set_self blank m r.slots p s (omega (arith, k.two)) k.sized

  -- a write is seen at every position of its slot, and nowhere else
  pub slot-cases :
      {r : Ring A} {acc : List A} {a b : Option ℕ} (k : Core r acc a b) (p q : ℕ) (s : Slot A)
      → ((q % m ≡ p % m) × (slot blank m (set r.slots (p % m) s) q ≡ s))
        ⊎ (slot blank m (set r.slots (p % m) s) q ≡ slot blank m r.slots q)
  slot-cases {r} k p q s = elim (==_cases (p % m) (q % m)) [
    | inl e ↦ inl (
      sym e,
      ap (λ i. get_or (set r.slots (p % m) s) i (blank_slot blank)) (sym e) ∙ slot_self k p s,
    )
    | inr ne ↦ inr (get_or-set_ne r.slots (p % m) (q % m) s (blank_slot blank) ne)
  ]

  bounded-put :
      {r : Ring A} {acc : List A} {a b : Option ℕ} (k : Core r acc a b) (p n : ℕ) (s : Slot A)
      → s.seq ≤ n
      → length acc + m ≤ n
      → (q : ℕ) → (slot blank m (set r.slots (p % m) s) q).seq ≤ n
  bounded-put {r} k p n s small more q = elim (slot-cases k p q s) [
    | inl (_, e) ↦ subst (λ (x : Slot A). x.seq ≤ n) (sym e) small
    | inr e ↦ let le = k.bounded q in subst (λ (x : Slot A). x.seq ≤ n) (sym e) (omega arith)
  ]

  Holds-next :
      (r : Ring A) (t : ℕ) (b : Option ℕ) → Holds r t b → Holds (record r { head = r.head + 1 }) t b
  Holds-next r t none h = tt
  Holds-next r t (some d) (lt, le, e) = (omega arith, le, e)

  Holds-apart : (r : Ring A) (t : ℕ) (b : Option ℕ) → Holds r t b → Apart (some r.head) b
  Holds-apart r t none h = tt
  Holds-apart r t (some d) (lt, le, e) = λ q. omega arith

  -- A goroutine claims the oldest position.
  pub claim-Core :
      {r : Ring A} {acc : List A} {b : Option ℕ}
      → Core r acc none b
      → r.head < length acc
      → Core (record r { head = r.head + 1 }) acc (some r.head) b
  claim-Core {r} {acc} {b} k lt = record {
    two = k.two;
    sized = k.sized;
    masked = k.masked;
    lead = omega arith;
    fits = omega (arith, k.fits);
    ready = λ p x y. k.ready p (omega arith) y;
    free = λ p x y ca cb. k.free p x (omega arith) tt cb;
    bounded = k.bounded;
    mine = (omega arith, k.fits, ap (λ (s : Slot A). s.seq) (k.ready r.head (omega arith) lt));
    other = Holds-next r (length acc) b k.other;
    apart = Holds-apart r (length acc) b k.other;
  }

  module _ {r : Ring A} {acc : List A} {c : ℕ} {b : Option ℕ} (k : Core r acc (some c) b)
      (s : Slot A) where
    own-ready :
        (p : ℕ)
        → r.head ≤ p
        → p < length acc
        → slot blank m (set r.slots (c % m) s) p ≡ record { seq = p + 1; val = get_or acc p blank }
    own-ready p x y =
        let (lt, le, e) = k.mine in
        slot-near r.slots c p s (omega arith) (omega arith) (omega arith) ∙ k.ready p x y

    own-free :
        (p : ℕ)
        → length acc ≤ p
        → p < r.head + m
        → p ≢ c + m
        → Clear m b p
        → (slot blank m (set r.slots (c % m) s) p).seq ≡ p
    own-free p x y ne cb =
        let (lt, le, e) = k.mine in
        ap (λ (s : Slot A). s.seq)
          (slot-far r.slots c p s (omega (arith, k.lead)) (omega (arith, k.lead)) ne)
        ∙ k.free p x y ne cb

    own-other :
        (o : Option ℕ)
        → Holds r (length acc) o
        → Apart (some c) o
        → Holds (put_slot c s r) (length acc) o
    own-other none h ap' = tt
    own-other (some d) (lt', le', e') ne =
        let (lt, le, e) = k.mine in
        (
          lt',
          le',
          ap (λ (s : Slot A). s.seq)
                (slot-near r.slots c d s ne (omega (arith, k.lead)) (omega (arith, k.lead)))
              ∙ e',
        )

    -- The owner changes the value of its slot.
    pub own-Core : s.seq ≡ c + 1 → Core (put_slot c s r) acc (some c) b
    own-Core e =
        let (lt, le, _) = k.mine in
        record {
          two = k.two;
          sized = length-set r.slots _ _ ∙ k.sized;
          masked = k.masked;
          lead = k.lead;
          fits = k.fits;
          ready = own-ready;
          free = own-free;
          bounded = bounded-put k c (length acc + m) s (omega (arith, k.lead)) (omega arith);
          mine = (lt, le, ap (λ (s : Slot A). s.seq) (slot_self k c s) ∙ e);
          other = own-other b k.other k.apart;
          apart = k.apart;
        }

    -- The owner gives its slot back, for the position one turn on.
    pub release-Core : s.seq ≡ c + m → Core (put_slot c s r) acc none b
    release-Core e =
        let (lt, le, _) = k.mine in
        record {
          two = k.two;
          sized = length-set r.slots _ _ ∙ k.sized;
          masked = k.masked;
          lead = k.lead;
          fits = k.fits;
          ready = own-ready;
          free = λ p x y _ cb. elim (==_cases p (c + m)) [
            | inl q ↦
                subst (λ p. (slot blank m (set r.slots (c % m) s) p).seq ≡ p) (sym q)
                  (ap (λ i. (get_or (set r.slots (c % m) s) i (blank_slot blank)).seq)
                      (add-mod_right c m)
                    ∙ ap (λ (s : Slot A). s.seq) (slot_self k c s)
                    ∙ e)
            | inr ne ↦ own-free p x y ne cb
          ];
          bounded = bounded-put k c (length acc + m) s (omega (arith, k.lead)) (omega arith);
          mine = tt;
          other = own-other b k.other k.apart;
          apart = tt;
        }

  module _ {r : Ring A} {acc : List A} {a b : Option ℕ} (k : Core r acc a b)
      (unused : (slot blank m r.slots (length acc)).seq ≡ length acc) where
    -- An owned position is less than a turn before a slot that is free.
    pub below : (c : ℕ) → Holds r (length acc) (some c) → length acc < c + m
    below c (lt, le, e) = elim (==_cases (length acc) (c + m)) [
      | inl q ↦
          let turn : length acc % m ≡ c % m = ap (λ p. p % m) q ∙ add-mod_right c m in
          let same : length acc ≡ c + 1 =
            sym unused ∙ ap (λ i. (get_or r.slots i (blank_slot blank)).seq) turn ∙ e in
          absurd (omega (arith, k.two))
      | inr ne ↦ omega arith
    ]

    -- There is room when the slot of the next position is free.
    pub room : length acc < r.head + m
    room = elim (==_cases (length acc) (r.head + m)) [
      | inl q ↦
          let turn : length acc % m ≡ r.head % m = ap (λ p. p % m) q ∙ add-mod_right r.head m in
          let first = k.ready r.head (omega arith) (omega (arith, k.two)) in
          let same : length acc ≡ r.head + 1 =
            sym unused
            ∙ ap (λ i. (get_or r.slots i (blank_slot blank)).seq) turn
            ∙ ap (λ (s : Slot A). s.seq) first in
          absurd (omega (arith, k.two))
      | inr ne ↦ omega (arith, k.fits)
    ]

    pub tail-other :
        (s : Slot A) (acc' : List A) (o : Option ℕ)
        → length acc' ≤ length acc + 1
        → Holds r (length acc) o
        → Holds (put_slot (length acc) s r) (length acc') o
    tail-other s acc' none small h = tt
    tail-other s acc' (some c) small (lt, le, e) =
        let near = below c (lt, le, e) in
        (
          lt,
          omega arith,
          ap (λ (s : Slot A). s.seq)
                (slot-near r.slots (length acc) c s (omega (arith, k.lead)) near
                  (omega (arith, k.lead)))
              ∙ e,
        )

    tail-ready :
        (s : Slot A)
        → length acc < r.head + m
        → (p : ℕ) → r.head ≤ p
        → p < length acc
        → slot blank m (set r.slots (length acc % m) s) p
          ≡ record { seq = p + 1; val = get_or acc p blank }
    tail-ready s room p x y =
        slot-near r.slots (length acc) p s (omega arith) (omega arith) (omega arith) ∙ k.ready p x y

    tail-free :
        (s : Slot A) (p : ℕ)
        → length acc < p
        → p < r.head + m
        → Clear m a p
        → Clear m b p
        → (slot blank m (set r.slots (length acc % m) s) p).seq ≡ p
    tail-free s p x y ca cb =
        ap (λ (s : Slot A). s.seq)
          (slot-near r.slots (length acc) p s (omega arith) (omega arith) (omega (arith, k.lead)))
        ∙ k.free p (omega arith) y ca cb

    -- The producer writes a value that it has not published.
    pub write-Core :
        (s : Slot A)
        → s.seq ≡ length acc
        → length acc < r.head + m
        → Core (put_slot (length acc) s r) acc a b
    write-Core s e room = record {
      two = k.two;
      sized = length-set r.slots _ _ ∙ k.sized;
      masked = k.masked;
      lead = k.lead;
      fits = k.fits;
      ready = tail-ready s room;
      free = λ p x y ca cb. elim (==_cases (length acc) p) [
        | inl q ↦
            subst (λ p. (slot blank m (set r.slots (length acc % m) s) p).seq ≡ p) q
              (ap (λ (s : Slot A). s.seq) (slot_self k (length acc) s) ∙ e)
        | inr ne ↦ tail-free s p (omega arith) y ca cb
      ];
      bounded = bounded-put k (length acc) (length acc + m) s (omega arith) (omega arith);
      mine = tail-other s acc a (omega arith) k.mine;
      other = tail-other s acc b (omega arith) k.other;
      apart = k.apart;
    }

    -- The producer publishes it.
    pub publish-Core :
        (v : A)
        → length acc < r.head + m
        → Core
            (put_slot (length acc) (record { seq = length acc + 1; val = v }) r)
            (acc ++ v ∷ [])
            a
            b
    publish-Core v room =
        let s : Slot A = record { seq = length acc + 1; val = v } in
        let l = length-append acc (v ∷ []) in
        record {
          two = k.two;
          sized = length-set r.slots _ _ ∙ k.sized;
          masked = k.masked;
          lead = omega (arith, k.lead);
          fits = omega arith;
          ready = λ p x y. elim (==_cases (length acc) p) [
            | inl q ↦
                subst
                  (λ p.
                    slot blank m (set r.slots (length acc % m) s) p
                    ≡ record { seq = p + 1; val = get_or (acc ++ v ∷ []) p blank })
                  q
                  (slot_self k (length acc) s
                    ∙ ap (λ x. record { seq = length acc + 1; val = x })
                        (sym (get_or-last acc v blank)))
            | inr ne ↦
                tail-ready s room p x (omega arith)
                ∙ ap (λ x. record { seq = p + 1; val = x })
                    (sym (get_or-append acc (v ∷ []) p blank (omega arith)))
          ];
          free = λ p x y ca cb. tail-free s p (omega arith) y ca cb;
          bounded =
              bounded-put k (length acc) (length (acc ++ v ∷ []) + m) s (omega arith) (omega arith);
          mine = tail-other s (acc ++ v ∷ []) a (omega arith) k.mine;
          other = tail-other s (acc ++ v ∷ []) b (omega arith) k.other;
          apart = k.apart;
        }
