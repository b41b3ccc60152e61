-- ===== src/Pool/Sound.antt =====
-- A pool hands out buffers that are large enough and keeps each buffer in one place.
use voice_flux_engine.Prelude.{
  ℕ, ◌+◌, ◌^◌, ◌≤◌, ◌<◌, ◌≡◌, ◌⊎◌, refl, sym, ap, ◌∙◌, subst, ltb, if-true, if-false, u64, Bool,
  Bool-cases, Option, none, some, List, [], ◌∷◌, ◌++◌, arith, inl, inr,
}
use voice_flux_engine.Ring.{reject, pop_loop}
use voice_flux_engine.Ring.Inv.{IsValid, contents}
use voice_flux_engine.Ring.Queue.{Queue, Reply, found, get_step, put_step}
use voice_flux_engine.Ring.Refine.{view, pop-Popped, push-Pushed, Popped, Pushed}
use voice_flux_engine.Pool.{Buffer, no_buffer, BufferPool, get, put}

abbrev pub AllFit : ℕ → List Buffer → Type 0
AllFit size [] = Unit
AllFit size (b ∷ bs) = (size ≤ b.cap) × AllFit size bs

AllFit-snoc :
    (size : ℕ) (bs : List Buffer) (b : Buffer)
    → AllFit size bs
    → size ≤ b.cap
    → AllFit size (bs ++ b ∷ [])
AllFit-snoc size [] b h k = (k, tt)
AllFit-snoc size (x ∷ bs) b (l, h) k = (l, AllFit-snoc size bs b h k)

module _ (m : ℕ) where
  abbrev pub free_buffers : BufferPool → List Buffer
  free_buffers p = contents no_buffer m p.free

  -- The free list is a valid ring of capacity `m` that refuses when full, and its buffers are large
  -- enough.
  pub record IsSound (p : BufferPool) : Type 0 where
    pub valid : IsValid no_buffer m p.free
    pub policy : p.free.policy ≡ reject
    pub fit : AllFit p.size (free_buffers p)

  got :
      (out : Option Buffer) (q : Queue Buffer) (items : List Buffer) (d size : ℕ)
      → ◌≡◌ {A = Reply Buffer × Queue Buffer} ((found out, out), q) (get_step items d)
      → AllFit size items
      → ((b : Buffer) × (out ≡ some b)
          × (size ≤ b.cap)
          × (items ≡ b ∷ q.items)
          × AllFit size q.items)
        ⊎ ((out ≡ none) × (items ≡ []) × (q.items ≡ []))
  got out q [] d size e f = inr (ground arith, refl, ground arith)
  got out q (x ∷ xs) d size e (l, f) =
      let same : q.items ≡ xs = ground arith in
      inl (x, ground arith, l, ap (◌∷◌ x) (sym same), subst (AllFit size) (sym same) f)

  -- `Get` returns within one round of its loop a buffer of at least the pool's size: the oldest free
  -- one, which leaves the free list, or, when none is free, a new one, and counts a miss. The pool
  -- stays sound.
  pub get_fits :
      (name : ℕ) (p : BufferPool)
      → IsSound p
      → p.free.tail + m < 2 ^ 63
      → (b : Buffer) × (p' : BufferPool) × (get name p ≡ some (b, p'))
        × (p.size ≤ b.cap)
        × IsSound p'
        × (((free_buffers p ≡ b ∷ free_buffers p') × (p'.misses ≡ p.misses))
            ⊎ ((free_buffers p ≡ []) × (b.name ≡ name) × (p'.misses ≡ u64 (p.misses + 1))))
  unfolding get
  get_fits name p s small =
      let q : Popped no_buffer m p.free 0 = pop-Popped no_buffer m p.free 0 s.valid small in
      let pol = q.same_policy ∙ s.policy in
      elim (got q.out (view no_buffer m q.next) (free_buffers p) p.free.dropped p.size q.refines
        s.fit) [
          | inl (b, o, l, c, f) ↦
              let runs : pop_loop no_buffer 1 p.free ≡ some (some b, q.next) =
                q.runs ∙ ap (λ x. some (x, q.next)) o in
              (
                b,
                record p { free = q.next },
                rw (runs, get) refl,
                l,
                record { valid = q.valid; policy = pol; fit = f },
                inl (c, refl),
              )
          | inr (o, c, f) ↦
              let runs : pop_loop no_buffer 1 p.free ≡ some (none, q.next) =
                q.runs ∙ ap (λ x. some (x, q.next)) o in
              (
                record { name = name; cap = p.size },
                record p { free = q.next; misses = u64 (p.misses + 1) },
                rw (runs, get) refl,
                omega arith,
                record { valid = q.valid; policy = pol; fit = subst (AllFit p.size) (sym f) tt },
                inr (c, refl, refl),
              )
        ]

  kept :
      (done : Bool) (q q' : Queue Buffer) (b : Buffer)
      → ◌≡◌ {A = Bool × Queue Buffer} (done, q') (put_step m reject b q)
      → (q'.items ≡ q.items) ⊎ (q'.items ≡ q.items ++ b ∷ [])
  kept done q q' b e = ground arith

  -- `Put` returns within one round; it appends a buffer that is large enough to the free list, or
  -- drops it, and drops one that is too small. The pool stays sound and counts no miss.
  pub put_keeps :
      (b : Buffer) (p : BufferPool)
      → IsSound p
      → p.free.tail + m < 2 ^ 63
      → (p' : BufferPool) × (put b p ≡ some p')
        × IsSound p'
        × (p'.misses ≡ p.misses)
        × ((free_buffers p' ≡ free_buffers p)
            ⊎ ((p.size ≤ b.cap) × (free_buffers p' ≡ free_buffers p ++ b ∷ [])))
  unfolding put
  put_keeps b p s small = elim (Bool-cases (ltb b.cap p.size)) [
    | inl t ↦ (p, if-true _ _ t, s, refl, inl refl)
    | inr t ↦
        let q : Pushed no_buffer m b p.free 0 = push-Pushed no_buffer m p.free b 0 s.valid small in
        let big : p.size ≤ b.cap = ground arith in
        let r =
          subst
            (λ pol.
              ◌≡◌ {A = Bool × Queue Buffer} (q.done, view no_buffer m q.next)
                (put_step m pol b (view no_buffer m p.free)))
            s.policy q.refines in
        let runs : put b p ≡ some (record p { free = q.next }) =
          if-false _ _ t ∙ rw (q.runs) refl in
        let pol = q.same_policy ∙ s.policy in
        elim (kept q.done (view no_buffer m p.free) (view no_buffer m q.next) b r) [
          | inl c ↦ (
            record p { free = q.next },
            runs,
            record { valid = q.valid; policy = pol; fit = subst (AllFit p.size) (sym c) s.fit },
            refl,
            inl c,
          )
          | inr c ↦ (
            record p { free = q.next },
            runs,
            record {
              valid = q.valid;
              policy = pol;
              fit = subst (AllFit p.size) (sym c) (AllFit-snoc p.size (free_buffers p) b s.fit big);
            },
            refl,
            inr (big, c),
          )
        ]
  ]
