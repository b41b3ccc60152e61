-- ===== src/Pool.antt =====
-- internal/ringbuf/pool.go: buffers that circulate through a ring of free ones. A buffer is its
-- identity and its capacity; its length is always 0 here.
pub mod Sound
pub mod Build
mod Tests
use voice_flux_engine.Prelude.{ℕ, zero, suc, ◌+◌, ltb, if◌then◌else◌, u64, Bool, Option, none, some}
use voice_flux_engine.Prelude.Int.{ℤ, pos, negsuc}
use voice_flux_engine.Prelude.Result.{Result, ok, err}
use voice_flux_engine.Ring.{Ring, RingError, reject, new, push, pop_loop}

pub record Buffer : Type 0 where
  pub name : ℕ
  pub cap : ℕ

abbrev pub no_buffer : Buffer
no_buffer = record { name = 0; cap = 0 }

pub record BufferPool : Type 0 where
  pub free : Ring Buffer
  pub size : ℕ
  pub misses : ℕ

-- The pushes of the constructor; `i` numbers the buffers.
unfoldable pub fill : ℕ → ℕ → ℕ → Ring Buffer → Option (Ring Buffer)
fill zero i size r = some r
fill (suc n) i size r = elim (push no_buffer 1 (record { name = i; cap = size }) r) [
  | none ↦ none
  | some (_, r') ↦ fill n (i + 1) size r'
]

-- `NewBufferPool` of a positive count
unfoldable pub new_pool : ℕ → ℕ → Result RingError (Option BufferPool)
new_pool count size = elim (new no_buffer (pos count) reject) [
  | err e ↦ err e
  | ok r ↦ ok (elim (fill count 0 size r) [
    | none ↦ none
    | some free ↦ some (record { free = free; size = size; misses = 0 })
  ])
]

-- `Get`, with the identity of a buffer newly made; the loop of the ring has one round
unfoldable pub get : ℕ → BufferPool → Option (Buffer × BufferPool)
get name p = elim (pop_loop no_buffer 1 p.free) [
  | none ↦ none
  | some (some b, r) ↦ some (b, record p { free = r })
  | some (none, r) ↦
      some
        (record { name = name; cap = p.size }, record p { free = r; misses = u64 (p.misses + 1) })
]

-- `Put`
unfoldable pub put : Buffer → BufferPool → Option BufferPool
put b p = if ltb b.cap p.size then some p else elim (push no_buffer 1 b p.free) [
  | none ↦ none
  | some (_, r) ↦ some (record p { free = r })
]
