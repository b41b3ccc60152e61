-- ===== src/Ring/Threads.antt =====
-- internal/ringbuf/ring.go with its two goroutines: a producer that runs Push and a consumer that
-- runs Pop, interleaved at each atomic operation and each access to a value. Only the producer writes
-- the write cursor, so that its load of the cursor and of the slot's number are one step.
pub mod Core
pub mod Pops
pub mod Shares
pub mod Sound
pub mod Linear
pub mod Exchange
use voice_flux_engine.Prelude.{
  ℕ, ◌+◌, ◌==◌, if◌then◌else◌, u64, sub_u64, is_negative, bit_and, set, length, Bool, true, false,
  List, [], ◌∷◌, ◌++◌,
}
use voice_flux_engine.Ring.{Ring, Slot, slot_at, is_reject}

-- Where a goroutine is in `pop`: before the load of the read cursor, before the load of the slot's
-- number, before the compare-and-swap, and, once it owns a position, before it copies the value, wipes
-- it and releases the slot.
pub data Popping {ℓ} (A : Type ℓ) : Type ℓ where
  loading : Popping A
  checking claiming copying : ℕ → Popping A
  wiping releasing : ℕ → A → Popping A

-- What a step of `pop` does: it goes on, owns a position, answers that the ring is empty, or answers
-- a value.
pub data PopMove {ℓ} (A : Type ℓ) : Type ℓ where
  goes : Popping A → Ring A → PopMove A
  owns : ℕ → Ring A → PopMove A
  finds_empty : PopMove A
  gives : A → Ring A → PopMove A

-- The same for `Push`: before an attempt, before the value is written, before it is published, before
-- the write cursor moves; and inside an eviction and after one.
pub data Pushing {ℓ} (A : Type ℓ) : Type ℓ where
  resting advancing : Pushing A
  trying writing publishing counting : A → Pushing A
  evicting : A → Popping A → Pushing A

pub data Taking {ℓ} (A : Type ℓ) : Type ℓ where
  idle : Taking A
  popping : Popping A → Taking A

pub data Taker : Type 0 where
  consumer evictor : Taker

pub data Tick {ℓ} (A : Type ℓ) : Type ℓ where
  calls_push : A → Tick A
  produces calls_pop consumes : Tick A

-- The ring, the goroutines, and what they have done: the values published, who has claimed each of
-- the first of them, and the values that the consumer and the evictions took out.
pub record System {ℓ} (A : Type ℓ) : Type ℓ where
  pub ring : Ring A
  pub prod : Pushing A
  pub cons : Taking A
  pub accepted : List A
  pub claims : List Taker
  pub delivered : List A
  pub evicted : List A

module _ {ℓ} {A : Type ℓ} (blank : A) where
  abbrev pub set_val : ℕ → A → Ring A → Ring A
  set_val p v r = record r {
    slots = set r.slots (bit_and p r.mask) (record (slot_at blank r p) { val = v });
  }

  abbrev pub set_seq : ℕ → ℕ → Ring A → Ring A
  set_seq p n r = record r {
    slots = set r.slots (bit_and p r.mask) (record (slot_at blank r p) { seq = n });
  }

  -- one step of `pop`
  unfoldable pub pop_move : Popping A → Ring A → PopMove A
  pop_move loading r = goes (checking r.head) r
  pop_move (checking h) r =
      let diff = sub_u64 (slot_at blank r h).seq (u64 (h + 1)) in
      if is_negative diff
      then finds_empty
      else if diff == 0
      then goes (claiming h) r
      else goes loading r
  pop_move (claiming h) r =
      if r.head == h then owns h (record r { head = u64 (h + 1) }) else goes loading r
  pop_move (copying h) r = goes (wiping h (slot_at blank r h).val) r
  pop_move (wiping h v) r = goes (releasing h v) (set_val h blank r)
  pop_move (releasing h v) r = gives v (set_seq h (u64 (h + length r.slots)) r)

  abbrev pub evict_step : A → PopMove A → System A → System A
  evict_step v (goes pc r) s = record s { ring = r; prod = evicting v pc }
  evict_step v (owns h r) s = record s {
    ring = r;
    prod = evicting v (copying h);
    claims = s.claims ++ evictor ∷ [];
  }
  evict_step v finds_empty s = record s { prod = trying v }
  evict_step v (gives x r) s = record s {
    ring = r;
    prod = counting v;
    evicted = s.evicted ++ x ∷ [];
  }

  -- one step of `Push`
  unfoldable pub push_step : Pushing A → System A → System A
  push_step resting s = s
  push_step (trying v) s =
      let t = s.ring.tail in
      if (slot_at blank s.ring t).seq == t
      then record s { prod = writing v }
      else if is_reject s.ring.policy
      then record s { prod = resting }
      else record s { prod = evicting v loading }
  push_step (writing v) s = record s { ring = set_val s.ring.tail v s.ring; prod = publishing v }
  push_step (publishing v) s = record s {
    ring = set_seq s.ring.tail (u64 (s.ring.tail + 1)) s.ring;
    prod = advancing;
    accepted = s.accepted ++ v ∷ [];
  }
  push_step advancing s = record s {
    ring = record s.ring { tail = u64 (s.ring.tail + 1) };
    prod = resting;
  }
  push_step (evicting v pc) s = evict_step v (pop_move pc s.ring) s
  push_step (counting v) s = record s {
    ring = record s.ring { dropped = u64 (s.ring.dropped + 1) };
    prod = trying v;
  }

  abbrev pub take_step : PopMove A → System A → System A
  take_step (goes pc r) s = record s { ring = r; cons = popping pc }
  take_step (owns h r) s = record s {
    ring = r;
    cons = popping (copying h);
    claims = s.claims ++ consumer ∷ [];
  }
  take_step finds_empty s = record s { cons = idle }
  take_step (gives x r) s = record s { ring = r; cons = idle; delivered = s.delivered ++ x ∷ [] }

  -- one step of `Pop`
  abbrev pub pop_step : Taking A → System A → System A
  pop_step idle s = s
  pop_step (popping pc) s = take_step (pop_move pc s.ring) s

  abbrev pub start_push : A → Pushing A → System A → System A
  start_push v resting s = record s { prod = trying v }
  start_push v _ s = s

  abbrev pub start_pop : Taking A → System A → System A
  start_pop idle s = record s { cons = popping loading }
  start_pop (popping pc) s = s

  -- a step that its goroutine cannot make does nothing
  unfoldable pub tick : Tick A → System A → System A
  tick (calls_push v) s = start_push v s.prod s
  tick produces s = push_step s.prod s
  tick calls_pop s = start_pop s.cons s
  tick consumes s = pop_step s.cons s

  unfoldable pub run : List (Tick A) → System A → System A
  run [] s = s
  run (t ∷ ts) s = run ts (tick t s)

abbrev pub start : {A : Type 0} → Ring A → System A
start r = record {
  ring = r;
  prod = resting;
  cons = idle;
  accepted = [];
  claims = [];
  delivered = [];
  evicted = [];
}
