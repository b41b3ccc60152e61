-- ===== src/Pool/Tests.antt =====
-- A pool of two buffers with one of them free.
use voice_flux_engine.Prelude.{ℕ, ◌+◌, ◌≤◌, ◌≡◌, ◌⊎◌, refl, u64, some, [], ◌∷◌, arith}
use voice_flux_engine.Prelude.Result.{ok}
use voice_flux_engine.Ring.{Ring, reject, new, push, try_push}
use voice_flux_engine.Ring.New.{made, made-IsValid}
use voice_flux_engine.Ring.Inv.{IsValid}
use voice_flux_engine.Ring.Steps.{filled, filled-IsValid}
use voice_flux_engine.Pool.{Buffer, no_buffer, BufferPool, get, new_pool, fill}
use voice_flux_engine.Pool.Sound.{IsSound, free_buffers, get_fits}

abbrev buffer : ℕ → Buffer
buffer i = record { name = i; cap = 640 }

abbrev pool : BufferPool
pool = record {
  free = filled no_buffer 2 (buffer 0) (made no_buffer 2 reject);
  size = 640;
  misses = 0;
}

two-IsValid : IsValid no_buffer 2 (made no_buffer 2 reject)
two-IsValid = made-IsValid no_buffer 2 1 reject (omega arith) (omega arith) refl

pool-IsSound : IsSound 2 pool
pool-IsSound = record {
  valid = filled-IsValid no_buffer 2 (made no_buffer 2 reject) (buffer 0) two-IsValid (omega arith);
  policy = refl;
  fit = (omega arith, tt);
}

full_pool :
    (r : Ring Buffer) × (new_pool 2 640 ≡ ok (some (record { free = r; size = 640; misses = 0 })))
    × (free_buffers 2 (record { free = r; size = 640; misses = 0 }) ≡ buffer 0 ∷ buffer 1 ∷ [])
unfolding new_pool fill new push try_push
full_pool = (filled no_buffer 2 (buffer 1) pool.free, refl, refl)

get_fits_example :
    (b : Buffer) × (p : BufferPool) × (get 9 pool ≡ some (b, p))
    × (640 ≤ b.cap)
    × IsSound 2 p
    × (((buffer 0 ∷ [] ≡ b ∷ free_buffers 2 p) × (p.misses ≡ 0))
        ⊎ ((buffer 0 ∷ [] ≡ []) × (b.name ≡ 9) × (p.misses ≡ u64 (0 + 1))))
get_fits_example = get_fits 2 9 pool pool-IsSound (omega arith)
