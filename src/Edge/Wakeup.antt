-- ===== src/Edge/Wakeup.antt =====
-- One producer and one consumer of an edge, with a third goroutine that drains it. A push and the
-- ring of the bell are two steps, and so are a failed pop and the wait.
use voice_flux_engine.Prelude.{
  ℕ, suc, ◌+◌, ◌^◌, ◌<◌, ◌≡◌, ◌⊎◌, refl, sym, subst, length, if◌then◌else◌, Bool, true, false, List,
  [], ◌∷◌, Option, none, some, Bool-cases, if-true, if-false, Option-cases, inl, inr, arith,
}
use voice_flux_engine.Ring.{Ring, Policy, pop_loop, push}
use voice_flux_engine.Ring.Inv.{IsValid, contents}
use voice_flux_engine.Ring.Queue.{Queue, Reply, found, get_step, put_step}
use voice_flux_engine.Ring.Refine.{view, pop-Popped, push-Pushed, Popped, Pushed}
use voice_flux_engine.Edge.{Edge, wake}
use voice_flux_engine.Edge.Drain.{get-nil}

pub data Move (A : Type 0) : Type 0 where
  pushes : A → Move A
  rings tries wakes steals : Move A

-- `ringing` is a producer that has pushed and not yet rung; `parked` is a consumer that has found
-- the ring empty and waits for the bell.
pub record Waiting (A : Type 0) : Type 0 where
  pub edge : Edge A
  pub ringing : Bool
  pub parked : Bool

module _ {A : Type 0} (blank : A) where
  abbrev pub with_ring : Ring A → Waiting A → Waiting A
  with_ring r s = record s { edge = record s.edge { ring = r } }

  abbrev pub popped : Option A → Ring A → Waiting A → Waiting A
  popped none r s = record (with_ring r s) { parked = true }
  popped (some _) r s = with_ring r s

  -- each loop of the ring has one round; a move that its goroutine cannot make does nothing
  unfoldable pub move : Move A → Waiting A → Waiting A
  move (pushes v) s = if s.ringing then s else elim (push blank 1 v s.edge.ring) [
    | none ↦ s
    | some (done, r) ↦ record (with_ring r s) { ringing = done }
  ]
  move rings s =
      if s.ringing then record s { edge = record s.edge { bell = true }; ringing = false } else s
  move tries s =
      if s.parked
      then s
      else elim (pop_loop blank 1 s.edge.ring) [ none ↦ s | some (out, r) ↦ popped out r s ]
  move wakes s =
      if s.parked
      then elim (wake s.edge) [ none ↦ s | some e ↦ record s { edge = e; parked = false } ]
      else s
  move steals s = elim (pop_loop blank 1 s.edge.ring) [ none ↦ s | some (_, r) ↦ with_ring r s ]

  unfoldable pub moves : List (Move A) → Waiting A → Waiting A
  moves [] s = s
  moves (a ∷ todo) s = moves todo (move a s)

  module _ (m : ℕ) where
    abbrev pub Covered : Waiting A → Type 0
    Covered s =
        s.parked ≡ true
        → (contents blank m s.edge.ring ≡ []) ⊎ (s.edge.bell ≡ true) ⊎ (s.ringing ≡ true)

    -- a valid ring, with room for `n` more pushes below 2^63, and a wait that will end
    abbrev pub Sound : ℕ → Waiting A → Type 0
    Sound n s = IsValid blank m s.edge.ring × (s.edge.ring.tail + m + n < 2 ^ 63) × Covered s

    put-refused :
        (done : Bool) (q q' : Queue A) (p : Policy) (v : A)
        → ◌≡◌ {A = Bool × Queue A} (done, q') (put_step m p v q)
        → done ≡ false
        → q'.items ≡ q.items
    put-refused done q q' p v e h = ground arith

    get-refused :
        (out : Option A) (q : Queue A) (items : List A) (d : ℕ)
        → ◌≡◌ {A = Reply A × Queue A} ((found out, out), q) (get_step items d)
        → out ≡ none
        → q.items ≡ []
    get-refused out q [] d e h = ground arith
    get-refused out q (x ∷ xs) d e h = ground arith

    pushes-Sound : (n : ℕ) (v : A) (s : Waiting A) → Sound (suc n) s → Sound n (move (pushes v) s)
    unfolding move
    pushes-Sound n v s (val, small, cov) = elim (Bool-cases s.ringing) [
      | inl b ↦
          let same : move (pushes v) s ≡ s = if-true s _ b in
          subst (Sound n) (sym same) (val, omega arith, cov)
      | inr b ↦
          let p : Pushed blank m v s.edge.ring 0 =
            push-Pushed blank m s.edge.ring v 0 val (omega arith) in
          let le = p.tail_le in
          let cov' : s.parked ≡ true
              → (contents blank m p.next ≡ []) ⊎ (s.edge.bell ≡ true) ⊎ (p.done ≡ true) =
            λ k. elim (Bool-cases p.done) [
              | inl d ↦ inr (inr d)
              | inr d ↦
                  let same =
                    put-refused p.done (view blank m s.edge.ring) (view blank m p.next)
                      s.edge.ring.policy v p.refines d in
                  let c = cov k in ground arith
            ] in
          rw (b, p.runs, move) (p.valid, omega arith, cov')
    ]

    tries-Sound : (n : ℕ) (s : Waiting A) → Sound (suc n) s → Sound n (move tries s)
    unfolding move
    tries-Sound n s (val, small, cov) = elim (Bool-cases s.parked) [
      | inl b ↦
          let same : move tries s ≡ s = if-true s _ b in
          subst (Sound n) (sym same) (val, omega arith, cov)
      | inr b ↦
          let p : Popped blank m s.edge.ring 0 =
            pop-Popped blank m s.edge.ring 0 val (omega arith) in
          let t = p.tail_le in
          elim (Option-cases p.out) [
            | inl o ↦
                let g =
                  get-refused p.out (view blank m p.next) (contents blank m s.edge.ring)
                    s.edge.ring.dropped p.refines o in
                rw (b, p.runs, move, o) (p.valid, omega arith, λ _. inl g)
            | inr (x, o) ↦
                rw (b, p.runs, move, o) (p.valid, omega arith, λ k. absurd (ground arith))
          ]
    ]

    steals-Sound : (n : ℕ) (s : Waiting A) → Sound (suc n) s → Sound n (move steals s)
    unfolding move
    steals-Sound n s (val, small, cov) =
        let p : Popped blank m s.edge.ring 0 = pop-Popped blank m s.edge.ring 0 val (omega arith) in
        let t = p.tail_le in
        let cov' : s.parked ≡ true
            → (contents blank m p.next ≡ []) ⊎ (s.edge.bell ≡ true) ⊎ (s.ringing ≡ true) =
          λ k. elim (cov k) [
            | inl c ↦
                inl
                  (get-nil p.out (view blank m p.next) (contents blank m s.edge.ring)
                    s.edge.ring.dropped p.refines c).1
            | inr c ↦ inr c
          ] in
        rw (p.runs, move) (p.valid, omega arith, cov')

    move-Sound : (n : ℕ) (a : Move A) (s : Waiting A) → Sound (suc n) s → Sound n (move a s)
    unfolding move wake
    move-Sound n (pushes v) s h = pushes-Sound n v s h
    move-Sound n rings s (val, small, cov) = elim (Bool-cases s.ringing) [
      | inl b ↦ rw (b, move) (val, omega arith, λ _. inr (inl refl))
      | inr b ↦
          let same : move rings s ≡ s = if-false _ s b in
          subst (Sound n) (sym same) (val, omega arith, cov)
    ]
    move-Sound n tries s h = tries-Sound n s h
    move-Sound n wakes s (val, small, cov) = elim (Bool-cases s.parked) [
      | inl b ↦ elim (Bool-cases s.edge.bell) [
        | inl c ↦ rw (b, c, move, wake) (val, omega arith, λ k. absurd (ground arith))
        | inr c ↦ rw (b, c, move, wake) (val, omega arith, cov)
      ]
      | inr b ↦
          let same : move wakes s ≡ s = if-false _ s b in
          subst (Sound n) (sym same) (val, omega arith, cov)
    ]
    move-Sound n steals s h = steals-Sound n s h

    moves-Sound :
        (todo : List (Move A)) (s : Waiting A) → Sound (length todo) s → Sound 0 (moves todo s)
    unfolding moves
    moves-Sound [] s h = h
    moves-Sound (a ∷ todo) s h = moves-Sound todo (move a s) (move-Sound (length todo) a s h)

    -- No wake-up is lost: from a valid ring and an active consumer, after any interleaving of the
    -- producer, the consumer and a drain that keeps the cursor below 2^63, a consumer that waits
    -- while the ring holds elements finds the bell rung, or the producer is about to ring it.
    pub no_lost_wakeup :
        (todo : List (Move A)) (s : Waiting A)
        → IsValid blank m s.edge.ring
        → s.edge.ring.tail + m + length todo < 2 ^ 63
        → s.parked ≡ false
        → let s' = moves todo s in
          s'.parked ≡ true
          → ¬ (contents blank m s'.edge.ring ≡ [])
          → (s'.edge.bell ≡ true) ⊎ (s'.ringing ≡ true)
    no_lost_wakeup todo s v small active parked some_left =
        let (_, _, cov) = moves-Sound todo s (v, small, λ k. absurd (ground arith)) in
        elim (cov parked) [ inl c ↦ absurd (some_left c) | inr c ↦ c ]
