-- ===== src/Ring/Threads/Sound.antt =====
-- Both goroutines keep the ring sound, whatever their interleaving.
use voice_flux_engine.Prelude.{
  ℕ, ◌+◌, ◌%◌, ◌^◌, ◌≤◌, ◌<◌, ◌≡◌, refl, sym, ap, ap₂, ◌∙◌, subst, u64, ◌==◌, if-true, if-false,
  set, get_or, get_or-append, length, length-append, bit_and, true, false, Bool-cases, List, [],
  ◌∷◌, ◌++◌, append-nil, Option, none, some, arith, inl, inr,
}
use voice_flux_engine.Ring.{Ring, Slot, blank_slot, slot_at, is_reject}
use voice_flux_engine.Ring.Inv.{slot}
use voice_flux_engine.Ring.Threads.{
  Popping, loading, checking, claiming, wiping, releasing, PopMove, goes, owns, finds_empty, gives,
  set_val, set_seq, pop_move, copying, Pushing, resting, advancing, trying, writing, publishing,
  counting, evicting, Taking, idle, popping, Taker, consumer, evictor, System, evict_step,
  push_step, take_step, pop_step,
}
use voice_flux_engine.Ring.Threads.Core.{
  Core, Core-swap, Holds, put_slot, slot_self, write-Core, publish-Core, tail-other, room,
  Core-aside,
}
use voice_flux_engine.Ring.Threads.Pops.{
  owned, At, At-Calm, At-Seen, At-more, tail-Seen, Calm, Good, pop_move-Good,
}
use voice_flux_engine.Ring.Threads.Shares.{same, share, held, share-append, share-claim}

abbrev pub prod_owned : {A : Type 0} → Pushing A → Option ℕ
prod_owned (evicting v pc) = owned pc
prod_owned _ = none

abbrev pub cons_owned : {A : Type 0} → Taking A → Option ℕ
cons_owned idle = none
cons_owned (popping pc) = owned pc

module _ {A : Type 0} (blank : A) (m : ℕ) where
  -- what the producer knows
  abbrev pub ProdAt : Ring A → List A → Pushing A → Type 0
  ProdAt r acc (writing v) =
      (r.tail ≡ length acc)
      × ((slot blank m r.slots (length acc)).seq ≡ length acc)
      × (length acc < r.head + m)
  ProdAt r acc (publishing v) =
      (r.tail ≡ length acc)
      × (slot blank m r.slots (length acc) ≡ record { seq = length acc; val = v })
      × (length acc < r.head + m)
  ProdAt r acc advancing = r.tail + 1 ≡ length acc
  ProdAt r acc (evicting v pc) = (r.tail ≡ length acc) × At blank m r acc pc
  ProdAt r acc resting = r.tail ≡ length acc
  ProdAt r acc (trying v) = r.tail ≡ length acc
  ProdAt r acc (counting v) = r.tail ≡ length acc

  abbrev pub ConsAt : Ring A → List A → Taking A → Type 0
  ConsAt r acc idle = Unit
  ConsAt r acc (popping pc) = At blank m r acc pc

  pub record Sound (s : System A) : Type 0 where
    pub core : Core blank m s.ring s.accepted (prod_owned s.prod) (cons_owned s.cons)
    pub prod_at : ProdAt s.ring s.accepted s.prod
    pub cons_at : ConsAt s.ring s.accepted s.cons
    pub claimed : length s.claims ≡ s.ring.head
    pub delivers :
        s.delivered ++ held blank (cons_owned s.cons) s.accepted
        ≡ share consumer s.claims s.accepted
    pub evicts :
        s.evicted ++ held blank (prod_owned s.prod) s.accepted ≡ share evictor s.claims s.accepted

  ProdAt-Calm :
      (r r' : Ring A) (acc : List A) (p : Pushing A)
      → Calm blank m (length acc) (prod_owned p) r r'
      → ProdAt r acc p
      → ProdAt r' acc p
  ProdAt-Calm r r' acc (writing v) k (t, e, lt) =
      (k.same_tail ∙ t, ap (λ (s : Slot A). s.seq) (k.unused e) ∙ e, omega (arith, k.head_le))
  ProdAt-Calm r r' acc (publishing v) k (t, e, lt) =
      (k.same_tail ∙ t, k.unused (ap (λ (s : Slot A). s.seq) e) ∙ e, omega (arith, k.head_le))
  ProdAt-Calm r r' acc advancing k t = omega (arith, k.same_tail)
  ProdAt-Calm r r' acc (evicting v pc) k (t, h) = (k.same_tail ∙ t, At-Calm blank m r r' acc pc k h)
  ProdAt-Calm r r' acc resting k t = k.same_tail ∙ t
  ProdAt-Calm r r' acc (trying v) k t = k.same_tail ∙ t
  ProdAt-Calm r r' acc (counting v) k t = k.same_tail ∙ t

  ConsAt-Calm :
      (r r' : Ring A) (acc : List A) (c : Taking A)
      → Calm blank m (length acc) (cons_owned c) r r'
      → ConsAt r acc c
      → ConsAt r' acc c
  ConsAt-Calm r r' acc idle k h = tt
  ConsAt-Calm r r' acc (popping pc) k h = At-Calm blank m r r' acc pc k h

  -- a claim of the oldest element, by its claimer and by the other one
  claim-mine :
      (w : Taker) (cs : List Taker) (acc out : List A) (h : ℕ)
      → same w w ≡ true
      → length cs ≡ h
      → h < length acc
      → out ++ [] ≡ share w cs acc
      → out ++ get_or acc h blank ∷ [] ≡ share w (cs ++ w ∷ []) acc
  claim-mine w cs acc out h r l lt e =
      ap (λ x. x ++ get_or acc h blank ∷ []) (sym (append-nil out) ∙ e)
      ∙ ap (λ n. share w cs acc ++ get_or acc n blank ∷ []) (sym l)
      ∙ ap (λ x. share w cs acc ++ x) (sym (if-true (get_or acc (length cs) blank ∷ []) [] r))
      ∙ sym (share-claim blank w w cs acc (omega arith))

  claim-other :
      (w w' : Taker) (cs : List Taker) (acc out : List A)
      → same w w' ≡ false
      → length cs < length acc
      → out ≡ share w cs acc
      → out ≡ share w (cs ++ w' ∷ []) acc
  claim-other w w' cs acc out r lt e =
      e
      ∙ sym (append-nil (share w cs acc))
      ∙ ap (λ x. share w cs acc ++ x) (sym (if-false (get_or acc (length cs) blank ∷ []) [] r))
      ∙ sym (share-claim blank w w' cs acc lt)

  take_step-Sound :
      (s : System A) (pc : Popping A) (mv : PopMove A)
      → Sound (record s { cons = popping pc })
      → Good blank m s.ring s.accepted (prod_owned s.prod) pc mv
      → Sound (take_step blank mv (record s { cons = popping pc }))
  take_step-Sound s pc (goes pc' r) k (c, at, calm, o, h) = record {
    core = Core-swap blank m c;
    prod_at = ProdAt-Calm s.ring r s.accepted s.prod calm k.prod_at;
    cons_at = at;
    claimed = k.claimed ∙ sym h;
    delivers = ap (λ o. s.delivered ++ held blank o s.accepted) o ∙ k.delivers;
    evicts = k.evicts;
  }
  take_step-Sound s pc (owns h r) k (c, at, calm, o, e, lt, up) = record {
    core = Core-swap blank m c;
    prod_at = ProdAt-Calm s.ring r s.accepted s.prod calm k.prod_at;
    cons_at = at;
    claimed = let l = length-append s.claims (consumer ∷ []) in let q = k.claimed in omega arith;
    delivers =
        claim-mine consumer s.claims s.accepted s.delivered h refl (k.claimed ∙ sym e) lt
          (ap (λ o. s.delivered ++ held blank o s.accepted) (sym o) ∙ k.delivers);
    evicts =
        let q = k.claimed in
        claim-other evictor consumer s.claims s.accepted _ refl (omega arith) k.evicts;
  }
  take_step-Sound s pc finds_empty k (o, e) = record {
    core = subst (λ o. Core blank m s.ring s.accepted (prod_owned s.prod) o) o k.core;
    prod_at = k.prod_at;
    cons_at = tt;
    claimed = k.claimed;
    delivers = ap (λ o. s.delivered ++ held blank o s.accepted) (sym o) ∙ k.delivers;
    evicts = k.evicts;
  }
  take_step-Sound s pc (gives v r) k (c, calm, p, o, e, h) = record {
    core = Core-swap blank m c;
    prod_at = ProdAt-Calm s.ring r s.accepted s.prod calm k.prod_at;
    cons_at = tt;
    claimed = k.claimed ∙ sym h;
    delivers =
        append-nil (s.delivered ++ v ∷ [])
        ∙ ap (λ x. s.delivered ++ x ∷ []) e
        ∙ ap (λ o. s.delivered ++ held blank o s.accepted) (sym o)
        ∙ k.delivers;
    evicts = k.evicts;
  }

  evict_step-Sound :
      (s : System A) (v : A) (pc : Popping A) (mv : PopMove A)
      → Sound (record s { prod = evicting v pc })
      → Good blank m s.ring s.accepted (cons_owned s.cons) pc mv
      → Sound (evict_step blank v mv (record s { prod = evicting v pc }))
  evict_step-Sound s v pc (goes pc' r) k (c, at, calm, o, h) = record {
    core = c;
    prod_at = (calm.same_tail ∙ k.prod_at.0, at);
    cons_at = ConsAt-Calm s.ring r s.accepted s.cons calm k.cons_at;
    claimed = k.claimed ∙ sym h;
    delivers = k.delivers;
    evicts = ap (λ o. s.evicted ++ held blank o s.accepted) o ∙ k.evicts;
  }
  evict_step-Sound s v pc (owns h r) k (c, at, calm, o, e, lt, up) = record {
    core = c;
    prod_at = (calm.same_tail ∙ k.prod_at.0, at);
    cons_at = ConsAt-Calm s.ring r s.accepted s.cons calm k.cons_at;
    claimed = let l = length-append s.claims (evictor ∷ []) in let q = k.claimed in omega arith;
    delivers =
        let q = k.claimed in
        claim-other consumer evictor s.claims s.accepted _ refl (omega arith) k.delivers;
    evicts =
        claim-mine evictor s.claims s.accepted s.evicted h refl (k.claimed ∙ sym e) lt
          (ap (λ o. s.evicted ++ held blank o s.accepted) (sym o) ∙ k.evicts);
  }
  evict_step-Sound s v pc finds_empty k (o, e) = record {
    core = subst (λ o. Core blank m s.ring s.accepted o (cons_owned s.cons)) o k.core;
    prod_at = k.prod_at.0;
    cons_at = k.cons_at;
    claimed = k.claimed;
    delivers = k.delivers;
    evicts = ap (λ o. s.evicted ++ held blank o s.accepted) (sym o) ∙ k.evicts;
  }
  evict_step-Sound s v pc (gives x r) k (c, calm, p, o, e, h) = record {
    core = c;
    prod_at = calm.same_tail ∙ k.prod_at.0;
    cons_at = ConsAt-Calm s.ring r s.accepted s.cons calm k.cons_at;
    claimed = k.claimed ∙ sym h;
    delivers = k.delivers;
    evicts =
        append-nil (s.evicted ++ x ∷ [])
        ∙ ap (λ x. s.evicted ++ x ∷ []) e
        ∙ ap (λ o. s.evicted ++ held blank o s.accepted) (sym o)
        ∙ k.evicts;
  }

  -- the producer's own accesses, which the consumer does not see
  tail-ConsAt :
      (r : Ring A) (acc acc' : List A) (x : Slot A) (c : Taking A)
      → Core blank m r acc none (cons_owned c)
      → (slot blank m r.slots (length acc)).seq ≡ length acc
      → length acc ≤ x.seq
      → length acc ≤ length acc'
      → ((i : ℕ) → i < length acc → get_or acc' i blank ≡ get_or acc i blank)
      → ConsAt r acc c
      → ConsAt (put_slot blank m (length acc) x r) acc' c
  tail-ConsAt r acc acc' x idle k u le more same h = tt
  tail-ConsAt r acc acc' x (popping pc) k u le more same h =
      At-more blank m (put_slot blank m (length acc) x r) acc acc' pc more same k.lead
        (tail-other blank m k u x acc (owned pc) (omega arith) k.other)
        (At-Seen blank m r (put_slot blank m (length acc) x r) acc pc (tail-Seen blank m k x u le)
          h)

  held-same :
      (r : Ring A) (acc acc' : List A) (o : Option ℕ)
      → Holds blank m r (length acc) o
      → r.head ≤ length acc
      → ((i : ℕ) → i < length acc → get_or acc' i blank ≡ get_or acc i blank)
      → held blank o acc' ≡ held blank o acc
  held-same r acc acc' none h lead same = refl
  held-same r acc acc' (some c) (lt, le, e) lead same = ap (λ x. x ∷ []) (same c (omega arith))

  try-Sound :
      (s : System A) (v : A)
      → Sound (record s { prod = trying v })
      → Sound (push_step blank (trying v) s)
  unfolding push_step
  try-Sound s v k =
      let t = s.ring.tail in
      elim (Bool-cases ((slot_at blank s.ring t).seq == t)) [
        | inl free ↦
            let q : (slot_at blank s.ring t).seq ≡ t = ground arith in
            let unused : (slot blank m s.ring.slots (length s.accepted)).seq ≡ length s.accepted =
              subst (λ p. (slot blank m s.ring.slots p).seq ≡ p) k.prod_at
                (ap (λ i. (get_or s.ring.slots i (blank_slot blank)).seq) (sym (k.core.masked t))
                  ∙ q) in
            rw free (record {
              core = k.core;
              prod_at = (k.prod_at, unused, room blank m k.core unused);
              cons_at = k.cons_at;
              claimed = k.claimed;
              delivers = k.delivers;
              evicts = k.evicts;
            })
        | inr full ↦ elim (Bool-cases (is_reject s.ring.policy)) [
          | inl r ↦
              rw (full, r)
                (record {
                  core = k.core;
                  prod_at = k.prod_at;
                  cons_at = k.cons_at;
                  claimed = k.claimed;
                  delivers = k.delivers;
                  evicts = k.evicts;
                })
          | inr r ↦
              rw (full, r)
                (record {
                  core = k.core;
                  prod_at = (k.prod_at, tt);
                  cons_at = k.cons_at;
                  claimed = k.claimed;
                  delivers = k.delivers;
                  evicts = k.evicts;
                })
        ]
      ]

  At-aside :
      (r : Ring A) (acc : List A) (t d : ℕ) (c : Taking A)
      → ConsAt r acc c
      → ConsAt (record r { tail = t; dropped = d }) acc c
  At-aside r acc t d idle h = tt
  At-aside r acc t d (popping loading) h = tt
  At-aside r acc t d (popping (checking p)) h = h
  At-aside r acc t d (popping (claiming p)) h = h
  At-aside r acc t d (popping (copying p)) h = h
  At-aside r acc t d (popping (wiping p v)) h = h
  At-aside r acc t d (popping (releasing p v)) h = h

  set_val-put_slot :
      (r : Ring A) (n : ℕ) (v : A)
      → ((x : ℕ) → bit_and x r.mask ≡ x % m)
      → r.tail ≡ n
      → set_val blank r.tail v r
        ≡ put_slot blank m n (record (slot blank m r.slots n) { val = v }) r
  set_val-put_slot r n v masked t =
      ap (λ p. set_val blank p v r) t
      ∙ ap
          (λ i. record r {
            slots = set r.slots i (record (get_or r.slots i (blank_slot blank)) { val = v });
          })
          (masked n)

  set_seq-put_slot :
      (r : Ring A) (n : ℕ) (v : A)
      → ((x : ℕ) → bit_and x r.mask ≡ x % m)
      → r.tail ≡ n
      → u64 (n + 1) ≡ n + 1
      → slot blank m r.slots n ≡ record { seq = n; val = v }
      → set_seq blank r.tail (u64 (r.tail + 1)) r
        ≡ put_slot blank m n (record { seq = n + 1; val = v }) r
  set_seq-put_slot r n v masked t next e =
      ap (λ p. set_seq blank p (u64 (p + 1)) r) t
      ∙ ap
          (λ i. record r {
            slots =
                set r.slots i (record (get_or r.slots i (blank_slot blank)) { seq = u64 (n + 1) });
          })
          (masked n)
      ∙ ap₂ (λ k (y : Slot A). put_slot blank m n (record { seq = k; val = y.val }) r) next e

  write-Sound :
      (s : System A) (v : A)
      → Sound (record s { prod = writing v })
      → Sound (push_step blank (writing v) s)
  unfolding push_step
  write-Sound s v k =
      let (t, u, free) = k.prod_at in
      let n = length s.accepted in
      let x : Slot A = record (slot blank m s.ring.slots n) { val = v } in
      let filled : x ≡ record { seq = n; val = v } = ap (λ i. record { seq = i; val = v }) u in
      subst (λ r. Sound (record s { ring = r; prod = publishing v }))
        (sym (set_val-put_slot s.ring n v k.core.masked t))
        (record {
          core = write-Core blank m k.core u x u free;
          prod_at = (t, slot_self blank m k.core n x ∙ filled, free);
          cons_at =
              tail-ConsAt s.ring s.accepted s.accepted x s.cons k.core u (omega arith) (omega arith)
                (λ i lt. refl) k.cons_at;
          claimed = k.claimed;
          delivers = k.delivers;
          evicts = k.evicts;
        })

  publish-Sound :
      (s : System A) (v : A)
      → length s.accepted + m < 2 ^ 63
      → Sound (record s { prod = publishing v })
      → Sound (push_step blank (publishing v) s)
  unfolding push_step
  publish-Sound s v small k =
      let (t, e, free) = k.prod_at in
      let n = length s.accepted in
      let u = ap (λ (s : Slot A). s.seq) e in
      let next : u64 (n + 1) ≡ n + 1 = omega arith in
      let l = length-append s.accepted (v ∷ []) in
      let old : (i : ℕ)
          → i < n
          → get_or (s.accepted ++ v ∷ []) i blank ≡ get_or s.accepted i blank =
        λ i lt. get_or-append s.accepted (v ∷ []) i blank lt in
      let few : length s.claims ≤ n = omega (arith, k.claimed, k.core.lead) in
      subst (λ r. Sound (record s { ring = r; prod = advancing; accepted = s.accepted ++ v ∷ [] }))
        (sym (set_seq-put_slot s.ring n v k.core.masked t next e))
        (record {
          core = publish-Core blank m k.core u v free;
          prod_at = omega arith;
          cons_at =
              tail-ConsAt s.ring s.accepted (s.accepted ++ v ∷ []) (record { seq = n + 1; val = v })
                s.cons k.core u (omega arith) (omega arith) old k.cons_at;
          claimed = k.claimed;
          delivers =
              ap (λ x. s.delivered ++ x)
                (held-same s.ring s.accepted (s.accepted ++ v ∷ []) (cons_owned s.cons) k.core.other
                  k.core.lead old)
              ∙ k.delivers
              ∙ sym (share-append consumer s.claims s.accepted (v ∷ []) few);
          evicts = k.evicts ∙ sym (share-append evictor s.claims s.accepted (v ∷ []) few);
        })

  advance-Sound :
      (s : System A)
      → length s.accepted + m < 2 ^ 63
      → Sound (record s { prod = advancing })
      → Sound (push_step blank advancing s)
  unfolding push_step
  advance-Sound s small k =
      let t' = u64 (s.ring.tail + 1) in
      let next : t' ≡ s.ring.tail + 1 = let t = k.prod_at in omega arith in
      record {
        core = Core-aside blank m t' s.ring.dropped k.core;
        prod_at = next ∙ k.prod_at;
        cons_at = At-aside s.ring s.accepted t' s.ring.dropped s.cons k.cons_at;
        claimed = k.claimed;
        delivers = k.delivers;
        evicts = k.evicts;
      }

  count-Sound :
      (s : System A) (v : A)
      → Sound (record s { prod = counting v })
      → Sound (push_step blank (counting v) s)
  unfolding push_step
  count-Sound s v k =
      let d = u64 (s.ring.dropped + 1) in
      record {
        core = Core-aside blank m s.ring.tail d k.core;
        prod_at = k.prod_at;
        cons_at = At-aside s.ring s.accepted s.ring.tail d s.cons k.cons_at;
        claimed = k.claimed;
        delivers = k.delivers;
        evicts = k.evicts;
      }

  pub push_step-Sound :
      (p : Pushing A) (s : System A)
      → length s.accepted + m < 2 ^ 63
      → Sound (record s { prod = p })
      → Sound (push_step blank p (record s { prod = p }))
  unfolding push_step
  push_step-Sound resting s small k = k
  push_step-Sound (trying v) s small k = try-Sound s v k
  push_step-Sound (writing v) s small k = write-Sound s v k
  push_step-Sound (publishing v) s small k = publish-Sound s v small k
  push_step-Sound advancing s small k = advance-Sound s small k
  push_step-Sound (evicting v pc) s small k =
      evict_step-Sound s v pc (pop_move blank pc s.ring) k
        (pop_move-Good blank m s.ring s.accepted (cons_owned s.cons) pc small k.core k.prod_at.1)
  push_step-Sound (counting v) s small k = count-Sound s v k

  pub pop_step-Sound :
      (c : Taking A) (s : System A)
      → length s.accepted + m < 2 ^ 63
      → Sound (record s { cons = c })
      → Sound (pop_step blank c (record s { cons = c }))
  pop_step-Sound idle s small k = k
  pop_step-Sound (popping pc) s small k = take_step-Sound s pc (pop_move blank pc s.ring) k (
      pop_move-Good blank m s.ring s.accepted (prod_owned s.prod) pc small
        (Core-swap blank m k.core) k.cons_at)
