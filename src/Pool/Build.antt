-- ===== src/Pool/Build.antt =====
-- `NewBufferPool`: a new pool is sound, and holds its buffers.
use voice_flux_engine.Prelude.{
  ℕ, zero, suc, ◌+◌, ◌^◌, ◌≤◌, ◌<◌, ◌≡◌, refl, ap, ◌∙◌, subst, sym, Bool, some, List, [], ◌∷◌, ◌++◌,
  append-nil, append_assoc, length, length-append, arith,
}
use voice_flux_engine.Prelude.Result.{ok}
use voice_flux_engine.Ring.{Ring, reject}
use voice_flux_engine.Ring.Inv.{IsValid, contents}
use voice_flux_engine.Ring.New.{made, made-IsValid, new-made}
use voice_flux_engine.Ring.Queue.{Queue, put_step}
use voice_flux_engine.Ring.Refine.{view, push-Pushed, Pushed}
use voice_flux_engine.Pool.{Buffer, no_buffer, BufferPool, fill, new_pool}
use voice_flux_engine.Pool.Sound.{AllFit, IsSound, free_buffers}

-- the buffers from number `i` on, `n` of them
abbrev pub buffers : ℕ → ℕ → ℕ → List Buffer
buffers zero i size = []
buffers (suc n) i size = record { name = i; cap = size } ∷ buffers n (i + 1) size

buffers-AllFit : (n i size : ℕ) → AllFit size (buffers n i size)
buffers-AllFit zero i size = tt
buffers-AllFit (suc n) i size = (omega arith, buffers-AllFit n (i + 1) size)

module _ (m : ℕ) where
  record Filled (n i size : ℕ) (r : Ring Buffer) : Type 0 where
    next : Ring Buffer
    runs : fill n i size r ≡ some next
    valid : IsValid no_buffer m next
    policy : next.policy ≡ reject
    holds : contents no_buffer m next ≡ contents no_buffer m r ++ buffers n i size

  put_room :
      (b : Buffer) (q q' : Queue Buffer) (done : Bool)
      → length q.items < m
      → ◌≡◌ {A = Bool × Queue Buffer} (done, q') (put_step m reject b q)
      → q'.items ≡ q.items ++ b ∷ []
  put_room b q q' done h e = ground arith

  fill-Filled :
      (n i size : ℕ) (r : Ring Buffer)
      → IsValid no_buffer m r
      → r.policy ≡ reject
      → length (contents no_buffer m r) + n ≤ m
      → r.tail + n + m < 2 ^ 63
      → Filled n i size r
  unfolding fill
  fill-Filled zero i size r v p room small = record {
    next = r;
    runs = refl;
    valid = v;
    policy = p;
    holds = sym (append-nil (contents no_buffer m r));
  }
  fill-Filled (suc n) i size r v p room small =
      let b : Buffer = record { name = i; cap = size } in
      let q : Pushed no_buffer m b r 0 = push-Pushed no_buffer m r b 0 v (omega arith) in
      let e =
        subst
          (λ pol.
            ◌≡◌ {A = Bool × Queue Buffer} (q.done, view no_buffer m q.next)
              (put_step m pol b (view no_buffer m r)))
          p q.refines in
      let now : contents no_buffer m q.next ≡ contents no_buffer m r ++ b ∷ [] =
        put_room b (view no_buffer m r) (view no_buffer m q.next) q.done (omega arith) e in
      let le = q.tail_le in
      let len = ap length now ∙ length-append (contents no_buffer m r) (b ∷ []) in
      let f =
        fill-Filled n (i + 1) size q.next q.valid (q.same_policy ∙ p) (omega arith) (omega arith) in
      record {
        next = f.next;
        runs = rw (fill, q.runs) f.runs;
        valid = f.valid;
        policy = f.policy;
        holds =
            f.holds
            ∙ ap (λ l. l ++ buffers n (i + 1) size) now
            ∙ append_assoc (contents no_buffer m r) (b ∷ []) (buffers n (i + 1) size);
      }

-- A pool made with a power of two from 2 to below 2^62 as its count is sound and has that many
-- buffers of its size, and has missed none.
pub new_pool-IsSound :
    (n k size : ℕ)
    → n ≡ 2 ^ k
    → 2 ≤ n
    → n < 2 ^ 61
    → (p : BufferPool) × (new_pool n size ≡ ok (some p))
      × IsSound n p
      × (p.size ≡ size)
      × (p.misses ≡ 0)
      × (free_buffers n p ≡ buffers n 0 size)
unfolding new_pool
new_pool-IsSound n k size e two small =
    let r = made no_buffer n reject in
    let f : Filled n n 0 size r =
      fill-Filled n n 0 size r (made-IsValid no_buffer n k reject two (omega arith) e) refl
        (omega arith) (omega arith) in
    (
      record { free = f.next; size = size; misses = 0 },
      rw (new_pool, new-made no_buffer n k reject e, f.runs) refl,
      record {
        valid = f.valid;
        policy = f.policy;
        fit = subst (AllFit size) (sym f.holds) (buffers-AllFit n 0 size);
      },
      refl,
      refl,
      f.holds,
    )
