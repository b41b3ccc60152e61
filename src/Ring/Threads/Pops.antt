-- ===== src/Ring/Threads/Pops.antt =====
-- A step of `pop`, by either goroutine.
use native.Mathlib.Nat.{add-mod_right}
use native.Mathlib.Decide.{dec_lt}
use voice_flux_engine.Prelude.{
  ℕ, ◌+◌, ◌-◌, ◌%◌, ◌^◌, ◌≤◌, ◌<◌, ◌≡◌, refl, sym, ap, ◌∙◌, subst, u64, is_negative, ◌==◌, get_or,
  length, Bool-cases, List, Option, none, some, arith, inl, inr, ==_cases,
}
use voice_flux_engine.Ring.{Ring, Slot, blank_slot}
use voice_flux_engine.Ring.Inv.{slot}
use voice_flux_engine.Ring.Threads.{
  Popping, loading, checking, claiming, copying, wiping, releasing, PopMove, goes, owns,
  finds_empty, gives, pop_move,
}
use voice_flux_engine.Ring.Threads.Core.{
  Apart, Holds, Core, put_slot, slot-cases, slot-near, claim-Core, own-Core, release-Core, below,
}

abbrev pub owned {ℓ} : {A : Type ℓ} → Popping A → Option ℕ
owned (copying c) = some c
owned (wiping c v) = some c
owned (releasing c v) = some c
owned _ = none

module _ {A : Type 0} (blank : A) (m : ℕ) where
  -- what a goroutine in `pop` knows
  abbrev pub At : Ring A → List A → Popping A → Type 0
  At r acc loading = Unit
  At r acc (checking h) = (h ≤ r.head) × (h < r.head → h + 1 ≤ (slot blank m r.slots h).seq)
  At r acc (claiming h) = (h ≤ r.head) × (h < length acc)
  At r acc (copying c) = (slot blank m r.slots c).val ≡ get_or acc c blank
  At r acc (wiping c v) = v ≡ get_or acc c blank
  At r acc (releasing c v) = v ≡ get_or acc c blank

  abbrev pub Keeps : Ring A → Ring A → Option ℕ → Type 0
  Keeps r r' none = Unit
  Keeps r r' (some d) = slot blank m r'.slots d ≡ slot blank m r.slots d

  -- What a step leaves to the other goroutine, which owns `b`; `t` is the next position to publish.
  pub record Calm (t : ℕ) (b : Option ℕ) (r r' : Ring A) : Type 0 where
    pub head_le : r.head ≤ r'.head
    pub same_tail : r'.tail ≡ r.tail
    pub grows : (p : ℕ) → (slot blank m r.slots p).seq ≤ (slot blank m r'.slots p).seq
    pub passed : (p : ℕ) → r.head ≤ p → p < r'.head → p + 1 ≤ (slot blank m r'.slots p).seq
    pub unused : (slot blank m r.slots t).seq ≡ t → slot blank m r'.slots t ≡ slot blank m r.slots t
    pub keeps : Keeps r r' b

  Keeps-refl : (r : Ring A) (b : Option ℕ) → Keeps r r b
  Keeps-refl r none = tt
  Keeps-refl r (some d) = refl

  pub Calm-refl : (t : ℕ) (b : Option ℕ) (r : Ring A) → Calm t b r r
  Calm-refl t b r = record {
    head_le = omega arith;
    same_tail = refl;
    grows = λ p. omega arith;
    passed = λ p x y. absurd (omega arith);
    unused = λ e. refl;
    keeps = Keeps-refl r b;
  }

  -- what `pop` sees of another goroutine's step
  pub record Seen (b : Option ℕ) (r r' : Ring A) : Type 0 where
    pub head_le : r.head ≤ r'.head
    pub grows : (p : ℕ) → (slot blank m r.slots p).seq ≤ (slot blank m r'.slots p).seq
    pub passed : (p : ℕ) → r.head ≤ p → p < r'.head → p + 1 ≤ (slot blank m r'.slots p).seq
    pub keeps : Keeps r r' b

  Seen-Calm : {t : ℕ} {b : Option ℕ} {r r' : Ring A} → Calm t b r r' → Seen b r r'
  Seen-Calm k = record { head_le = k.head_le; grows = k.grows; passed = k.passed; keeps = k.keeps }

  -- The other goroutine still knows what it knew.
  pub At-Seen :
      (r r' : Ring A) (acc : List A) (pc : Popping A)
      → Seen (owned pc) r r'
      → At r acc pc
      → At r' acc pc
  At-Seen r r' acc loading k h = tt
  At-Seen r r' acc (checking h) k (le, up) = (
    omega (arith, k.head_le),
    λ lt. elim (dec_lt h r.head) [
      | yes old ↦ let g = k.grows h in let u = up old in omega arith
      | no new ↦ k.passed h (omega arith) lt
    ],
  )
  At-Seen r r' acc (claiming h) k (le, lt) = (omega (arith, k.head_le), lt)
  At-Seen r r' acc (copying c) k e = ap (λ (s : Slot A). s.val) k.keeps ∙ e
  At-Seen r r' acc (wiping c v) k e = e
  At-Seen r r' acc (releasing c v) k e = e

  pub At-Calm :
      (r r' : Ring A) (acc : List A) (pc : Popping A)
      → Calm (length acc) (owned pc) r r'
      → At r acc pc
      → At r' acc pc
  At-Calm r r' acc pc k h = At-Seen r r' acc pc (Seen-Calm k) h

  -- Nor does it matter that more is published.
  pub At-more :
      (r : Ring A) (acc acc' : List A) (pc : Popping A)
      → length acc ≤ length acc'
      → ((i : ℕ) → i < length acc → get_or acc' i blank ≡ get_or acc i blank)
      → r.head ≤ length acc
      → Holds blank m r (length acc) (owned pc)
      → At r acc pc
      → At r acc' pc
  At-more r acc acc' loading more same lead k h = tt
  At-more r acc acc' (checking h) more same lead k at = at
  At-more r acc acc' (claiming h) more same lead k (le, lt) = (le, omega arith)
  At-more r acc acc' (copying c) more same lead (lt, _, _) e = e ∙ sym (same c (omega arith))
  At-more r acc acc' (wiping c v) more same lead (lt, _, _) e = e ∙ sym (same c (omega arith))
  At-more r acc acc' (releasing c v) more same lead (lt, _, _) e = e ∙ sym (same c (omega arith))

  tail-Keeps :
      {r : Ring A} {acc : List A} {b : Option ℕ} (k : Core blank m r acc none b) (x : Slot A)
      (o : Option ℕ)
      → (slot blank m r.slots (length acc)).seq ≡ length acc
      → Holds blank m r (length acc) o
      → Keeps r (put_slot blank m (length acc) x r) o
  tail-Keeps k x none u h = tt
  tail-Keeps {r} {acc} k x (some c) u (lt, le, e) =
      slot-near blank m r.slots (length acc) c x (omega (arith, k.lead))
        (below blank m k u c (lt, le, e)) (omega (arith, k.lead))

  -- what the consumer sees of the producer's write to the next slot
  pub tail-Seen :
      {r : Ring A} {acc : List A} {b : Option ℕ} (k : Core blank m r acc none b) (x : Slot A)
      → (slot blank m r.slots (length acc)).seq ≡ length acc
      → length acc ≤ x.seq
      → Seen b r (put_slot blank m (length acc) x r)
  tail-Seen {r} {acc} {b} k x u up = record {
    head_le = omega arith;
    grows = λ p. elim (slot-cases blank m k (length acc) p x) [
      | inl (q, e') ↦
          subst (λ (y : Slot A). (slot blank m r.slots p).seq ≤ y.seq) (sym e')
            (subst (λ i. (get_or r.slots i (blank_slot blank)).seq ≤ x.seq) (sym q) (omega arith))
      | inr e' ↦ subst (λ (y : Slot A). (slot blank m r.slots p).seq ≤ y.seq) (sym e') (omega arith)
    ];
    passed = λ p x y. absurd (omega arith);
    keeps = tail-Keeps k x b u k.other;
  }

  own-Keeps :
      {r : Ring A} {acc : List A} {c : ℕ} {b : Option ℕ} (k : Core blank m r acc (some c) b)
      (s : Slot A) (o : Option ℕ)
      → Holds blank m r (length acc) o
      → Apart (some c) o
      → Keeps r (put_slot blank m c s r) o
  own-Keeps k s none h ne = tt
  own-Keeps {r} {c} k s (some d) (lt', le', e') ne =
      let (lt, le, e) = k.mine in
      slot-near blank m r.slots c d s ne (omega (arith, k.lead)) (omega (arith, k.lead))

  -- a write of an owner to its slot
  own-Calm :
      {r : Ring A} {acc : List A} {c : ℕ} {b : Option ℕ} (k : Core blank m r acc (some c) b)
      (s : Slot A)
      → c + 1 ≤ s.seq
      → Calm (length acc) b r (put_slot blank m c s r)
  own-Calm {r} {acc} {c} {b} k s up =
      let (lt, le, e) = k.mine in
      record {
        head_le = omega arith;
        same_tail = refl;
        grows = λ p. elim (slot-cases blank m k c p s) [
          | inl (q, e') ↦
              subst (λ (x : Slot A). (slot blank m r.slots p).seq ≤ x.seq) (sym e')
                (subst (λ i. (get_or r.slots i (blank_slot blank)).seq ≤ s.seq) (sym q)
                  (omega arith))
          | inr e' ↦
              subst (λ (x : Slot A). (slot blank m r.slots p).seq ≤ x.seq) (sym e') (omega arith)
        ];
        passed = λ p x y. absurd (omega arith);
        unused = λ u.
            slot-near blank m r.slots c (length acc) s (omega (arith, k.lead))
              (omega (arith, k.lead)) (below blank m k u c k.mine);
        keeps = own-Keeps k s b k.other k.apart;
      }

  -- what holds after a step of `pop` from `pc`, which does not own a position of the other goroutine
  abbrev pub Good : Ring A → List A → Option ℕ → Popping A → PopMove A → Type 0
  Good r acc b pc (goes pc' r') =
      Core blank m r' acc (owned pc') b
      × At r' acc pc'
      × Calm (length acc) b r r'
      × (owned pc' ≡ owned pc)
      × (r'.head ≡ r.head)
  Good r acc b pc (owns h r') =
      Core blank m r' acc (some h) b
      × At r' acc (copying h)
      × Calm (length acc) b r r'
      × (owned pc ≡ none)
      × (h ≡ r.head)
      × (h < length acc)
      × (r'.head ≡ h + 1)
  Good r acc b pc finds_empty = (owned pc ≡ none) × (r.head ≡ length acc)
  Good r acc b pc (gives v r') =
      Core blank m r' acc none b
      × Calm (length acc) b r r'
      × (c : ℕ) × (owned pc ≡ some c)
      × (v ≡ get_or acc c blank)
      × (r'.head ≡ r.head)

  -- the slot of the next position to publish is not published
  unpublished :
      (r : Ring A) (acc : List A) (b : Option ℕ)
      → Core blank m r acc none b
      → r.head ≡ length acc
      → (slot blank m r.slots r.head).seq < r.head + 1
  unpublished r acc none k e =
      omega (arith, k.free r.head (omega arith) (omega (arith, k.two)) tt tt)
  unpublished r acc (some d) k e = elim (==_cases r.head (d + m)) [
    | inl q ↦
        let (lt, le, f) = k.other in
        let turn : r.head % m ≡ d % m = ap (λ p. p % m) q ∙ add-mod_right d m in
        let same : (slot blank m r.slots r.head).seq ≡ d + 1 =
          ap (λ i. (get_or r.slots i (blank_slot blank)).seq) turn ∙ f in
        omega arith
    | inr ne ↦ omega (arith, k.free r.head (omega arith) (omega (arith, k.two)) tt ne)
  ]

  -- the number of a published slot
  published :
      (r : Ring A) (acc : List A) (b : Option ℕ)
      → Core blank m r acc none b
      → r.head < length acc
      → (slot blank m r.slots r.head).seq ≡ r.head + 1
  published r acc b k lt = ap (λ (s : Slot A). s.seq) (k.ready r.head (omega arith) lt)

  -- The number that is read shows an empty ring only when the ring is empty.
  seen_empty :
      (r : Ring A) (acc : List A) (b : Option ℕ) (h : ℕ)
      → Core blank m r acc none b
      → At r acc (checking h)
      → (slot blank m r.slots h).seq < h + 1
      → r.head ≡ length acc
  seen_empty r acc b h k (le, up) early = elim (dec_lt h r.head) [
    | yes old ↦ let u = up old in absurd (omega arith)
    | no new ↦
        let same : h ≡ r.head = omega arith in
        let early' = subst (λ p. (slot blank m r.slots p).seq < p + 1) same early in
        elim (dec_lt r.head (length acc)) [
          | yes lt ↦ let e = published r acc b k lt in absurd (omega arith)
          | no ge ↦ omega (arith, k.lead)
        ]
  ]

  seen_published :
      (r : Ring A) (acc : List A) (b : Option ℕ) (h : ℕ)
      → Core blank m r acc none b
      → At r acc (checking h)
      → (slot blank m r.slots h).seq ≡ h + 1
      → h < length acc
  seen_published r acc b h k (le, up) e = elim (dec_lt h (length acc)) [
    | yes lt ↦ lt
    | no ge ↦
        let same : h ≡ r.head = omega (arith, k.lead) in
        let e' = subst (λ p. (slot blank m r.slots p).seq ≡ p + 1) same e in
        let u = unpublished r acc b k (omega (arith, k.lead)) in absurd (omega arith)
  ]

  move-checking :
      (r : Ring A) (acc : List A) (b : Option ℕ) (h : ℕ)
      → length acc + m < 2 ^ 63
      → Core blank m r acc none b
      → At r acc (checking h)
      → Good r acc b (checking h) (pop_move blank (checking h) r)
  unfolding pop_move
  move-checking r acc b h small k (le, up) =
      let seq = (slot blank m r.slots h).seq in
      let diff = (seq + 2 ^ 64 - (h + 1)) % 2 ^ 64 in
      let word : u64 (h + 1) ≡ h + 1 = omega (arith, k.lead) in
      let top = k.bounded h in
      rw (k.masked h, word)
        (elim (Bool-cases (is_negative diff)) [
          | inl neg ↦ rw neg (refl, seen_empty r acc b h k (le, up) (ground arith))
          | inr ok ↦ elim (Bool-cases (diff == 0)) [
            | inl z ↦
                rw (ok, z)
                  (
                    k,
                    (le, seen_published r acc b h k (le, up) (ground arith)),
                    Calm-refl (length acc) b r,
                    refl,
                    refl,
                  )
            | inr z ↦ rw (ok, z) (k, tt, Calm-refl (length acc) b r, refl, refl)
          ]
        ])

  claim-Calm :
      (r : Ring A) (acc : List A) (b : Option ℕ)
      → Core blank m r acc none b
      → r.head < length acc
      → Calm (length acc) b r (record r { head = r.head + 1 })
  claim-Calm r acc b k lt = record {
    head_le = omega arith;
    same_tail = refl;
    grows = λ p. omega arith;
    passed = λ p x y.
        let here : r.head ≡ p = omega arith in
        subst (λ p. p + 1 ≤ (slot blank m r.slots p).seq) here
          (omega (arith, published r acc b k lt));
    unused = λ e. refl;
    keeps = Keeps-refl r b;
  }

  move-claiming :
      (r : Ring A) (acc : List A) (b : Option ℕ) (h : ℕ)
      → length acc + m < 2 ^ 63
      → Core blank m r acc none b
      → At r acc (claiming h)
      → Good r acc b (claiming h) (pop_move blank (claiming h) r)
  unfolding pop_move
  move-claiming r acc b h small k (le, lt) = elim (Bool-cases (r.head == h)) [
    | inl t ↦
        let same : r.head ≡ h = ground arith in
        let next : u64 (h + 1) ≡ r.head + 1 = omega arith in
        let first : r.head < length acc = omega arith in
        let value = ap (λ (s : Slot A). s.val) (k.ready r.head (omega arith) first) in
        rw (t, next)
          (subst
            (λ p.
              Core blank m (record r { head = r.head + 1 }) acc (some p) b
              × ((slot blank m r.slots p).val ≡ get_or acc p blank)
              × Calm (length acc) b r (record r { head = r.head + 1 })
              × (◌≡◌ {A = Option ℕ} none none)
              × (p ≡ r.head)
              × (p < length acc)
              × (r.head + 1 ≡ p + 1))
            same
            (
              claim-Core blank m k first,
              value,
              claim-Calm r acc b k first,
              refl,
              refl,
              first,
              refl,
            ))
    | inr f ↦ rw f (k, tt, Calm-refl (length acc) b r, refl, refl)
  ]

  move-wiping :
      (r : Ring A) (acc : List A) (b : Option ℕ) (c : ℕ) (v : A)
      → Core blank m r acc (some c) b
      → At r acc (wiping c v)
      → Good r acc b (wiping c v) (pop_move blank (wiping c v) r)
  unfolding pop_move
  move-wiping r acc b c v k e =
      let (_, _, q) = k.mine in
      let s : Slot A = record (slot blank m r.slots c) { val = blank } in
      rw (k.masked c) (own-Core blank m k s q, e, own-Calm k s (omega arith), refl, refl)

  move-releasing :
      (r : Ring A) (acc : List A) (b : Option ℕ) (c : ℕ) (v : A)
      → length acc + m < 2 ^ 63
      → Core blank m r acc (some c) b
      → At r acc (releasing c v)
      → Good r acc b (releasing c v) (pop_move blank (releasing c v) r)
  unfolding pop_move
  move-releasing r acc b c v small k e =
      let (lt, _, q) = k.mine in
      let s : Slot A = record (slot blank m r.slots c) { seq = c + m } in
      let turn : u64 (c + m) ≡ c + m = omega (arith, k.lead) in
      rw (k.masked c, k.sized, turn)
        (release-Core blank m k s refl, own-Calm k s (omega (arith, k.two)), c, refl, e, refl)

  -- Every step of `pop`.
  pub pop_move-Good :
      (r : Ring A) (acc : List A) (b : Option ℕ) (pc : Popping A)
      → length acc + m < 2 ^ 63
      → Core blank m r acc (owned pc) b
      → At r acc pc
      → Good r acc b pc (pop_move blank pc r)
  unfolding pop_move
  pop_move-Good r acc b loading small k h =
      (k, (omega arith, λ lt. absurd (omega arith)), Calm-refl (length acc) b r, refl, refl)
  pop_move-Good r acc b (checking h) small k at = move-checking r acc b h small k at
  pop_move-Good r acc b (claiming h) small k at = move-claiming r acc b h small k at
  pop_move-Good r acc b (copying c) small k e =
      rw (k.masked c) (k, e, Calm-refl (length acc) b r, refl, refl)
  pop_move-Good r acc b (wiping c v) small k e = move-wiping r acc b c v k e
  pop_move-Good r acc b (releasing c v) small k e = move-releasing r acc b c v small k e
