-- ===== src/Ring.antt =====
-- internal/ringbuf/ring.go: a bounded ring whose slots carry sequence numbers, run by one goroutine
-- at a time. A `for` loop takes fuel, and `none` says that it ran out.
pub mod Inv
pub mod Steps
pub mod Queue
pub mod Refine
pub mod History
pub mod New
pub mod Unit
pub mod Threads
mod Tests
use voice_flux_engine.Prelude.{
  ℕ, zero, suc, ◌+◌, ◌-◌, bit_and, ◌==◌, ltb, leb, if◌then◌else◌, u64, sub_u64, is_negative, Bool,
  true, false, not, ◌||◌, Option, none, some, List, [], ◌∷◌, length, get_or, set,
}
use voice_flux_engine.Prelude.Int.{ℤ, pos, negsuc}
use voice_flux_engine.Prelude.Result.{Result, ok, err}
use Prim.Native.String.{String}
use text.Mathlib.Text.{◌==◌ as str_eq}

-- A `Policy` is a uint8; `other` is one that has no name.
pub data Policy : Type 0 where
  reject drop_oldest : Policy
  other : ℕ → Policy

pub data RingError : Type 0 where
  bad_capacity : ℤ → RingError
  unknown_policy : String → RingError

abbrev pub is_reject : Policy → Bool
is_reject reject = true
is_reject _ = false

unfoldable pub parse_policy : String → Result RingError Policy
parse_policy s =
    if str_eq s "reject"
    then ok reject
    else if str_eq s "drop_oldest"
    then ok drop_oldest
    else err (unknown_policy s)

pub record Slot {ℓ} (A : Type ℓ) : Type ℓ where
  pub seq : ℕ
  pub val : A

pub record Ring {ℓ} (A : Type ℓ) : Type ℓ where
  pub mask : ℕ
  pub policy : Policy
  pub slots : List (Slot A)
  pub tail : ℕ
  pub head : ℕ
  pub dropped : ℕ

-- `blank` is the zero value of the element type.
module _ {ℓ} {A : Type ℓ} (blank : A) where
  abbrev pub blank_slot : Slot A
  blank_slot = record { seq = 0; val = blank }

  abbrev pub slot_at : Ring A → ℕ → Slot A
  slot_at r p = get_or r.slots (bit_and p r.mask) blank_slot

  -- the slots `i`, `i + 1`, …, `n` of them
  abbrev pub fresh_slots : ℕ → ℕ → List (Slot A)
  fresh_slots zero i = []
  fresh_slots (suc n) i = record { seq = u64 i; val = blank } ∷ fresh_slots n (i + 1)

  unfoldable pub new : ℤ → Policy → Result RingError (Ring A)
  new (negsuc n) p = err (bad_capacity (negsuc n))
  new (pos n) p =
      if n == 0 || not (bit_and n (n - 1) == 0)
      then err (bad_capacity (pos n))
      else ok (record {
        mask = n - 1;
        policy = p;
        slots = fresh_slots n 0;
        tail = 0;
        head = 0;
        dropped = 0;
      })

  unfoldable pub try_push : A → Ring A → Bool × Ring A
  try_push v r =
      let t = r.tail in
      let s = slot_at r t in
      if s.seq == t
      then (
        true,
        record r {
          slots = set r.slots (bit_and t r.mask) (record { seq = u64 (t + 1); val = v });
          tail = u64 (t + 1);
        },
      )
      else (false, r)

  -- `CompareAndSwap` on the read cursor
  abbrev pub cas_head : ℕ → ℕ → Ring A → Bool × Ring A
  cas_head old next r = if r.head == old then (true, record r { head = next }) else (false, r)

  -- what `pop` does once it has claimed position `h`
  abbrev pub release_slot : ℕ → Ring A → A × Ring A
  release_slot h r = (
    (slot_at r h).val,
    record r {
      slots =
          set r.slots (bit_and h r.mask) (record { seq = u64 (h + length r.slots); val = blank });
    },
  )

  unfoldable pub pop_loop : ℕ → Ring A → Option (Option A × Ring A)
  pop_loop zero r = none
  pop_loop (suc fuel) r =
      let again = pop_loop fuel r in
      let h = r.head in
      let diff = sub_u64 (slot_at r h).seq (u64 (h + 1)) in
      if is_negative diff
      then some (none, r)
      else if diff == 0
      then (let (won, r') = cas_head h (u64 (h + 1)) r in
          if won then (let (v, r'') = release_slot h r' in some (some v, r'')) else again)
      else again

  abbrev pub count_drop : Option A × Ring A → Ring A
  count_drop (none, r) = r
  count_drop (some v, r) = record r { dropped = u64 (r.dropped + 1) }

  -- one round of the eviction loop of `Push`
  unfoldable pub evict_loop : ℕ → A → Ring A → Option (Bool × Ring A)
  evict_loop zero v r = none
  evict_loop (suc fuel) v r = elim (pop_loop (suc fuel) r) [
    | none ↦ none
    | some got ↦
        let (done, r') = try_push v (count_drop got) in
        elim done [ true ↦ some (true, r') | false ↦ evict_loop fuel v r' ]
  ]

  unfoldable pub push : ℕ → A → Ring A → Option (Bool × Ring A)
  push fuel v r =
      let (done, r') = try_push v r in
      if done
      then some (true, r')
      else if is_reject r.policy
      then some (false, r)
      else evict_loop fuel v r

  unfoldable pub len : Ring A → ℕ
  len r =
      let n = r.tail - r.head in
      if ltb r.tail r.head then 0 else if leb n (length r.slots) then n else length r.slots

  unfoldable pub cap : Ring A → ℕ
  cap r = length r.slots
