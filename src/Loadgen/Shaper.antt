-- ===== src/Loadgen/Shaper.antt =====
-- internal/loadgen/shaper.go: the pacing of a virtual caller's frames. A time is the number of
-- nanoseconds since the zero time, a duration is a number of nanoseconds and not negative.
use voice_flux_engine.Prelude.{
  ℕ, ◌+◌, ◌-◌, ◌%◌, ◌<◌, ◌≤◌, ◌≡◌, ◌≢◌, refl, ap, subst, sym, ◌∙◌, max, ltb, leb, ◌==◌, ◌&&◌, ◌||◌,
  not, if◌then◌else◌, if-true, if-false, Bool, false, Option, none, some, List, [], ◌∷◌, arith,
  Bool-cases, ◌⊎◌, inl, inr,
}

pub record Netem : Type 0 where
  pub delay : ℕ
  pub jitter : ℕ
  pub burst_every : ℕ
  pub burst_hold : ℕ
  pub seed : ℕ

abbrev pub enabled : Netem → Bool
enabled n = ltb 0 n.delay || (ltb 0 n.jitter || (ltb 0 n.burst_every && ltb 0 n.burst_hold))

-- the `shaper` without its generator of random numbers
pub record Shaper : Type 0 where
  pub n : Netem
  pub epoch : ℕ
  pub last_release : ℕ

abbrev pub new_shaper : Netem → Shaper
new_shaper n = record { n = n; epoch = 0; last_release = 0 }

-- What the burst window adds to a delay. The remainder of a negative phase is negative in Go.
unfoldable pub burst_delay : Netem → ℕ → ℕ → ℕ
burst_delay n epoch ideal =
    if ltb 0 n.burst_every && ltb 0 n.burst_hold
    then (if ltb ideal epoch
        then n.burst_hold + (epoch - ideal) % n.burst_every
        else if ltb ((ideal - epoch) % n.burst_every) n.burst_hold
        then n.burst_hold - (ideal - epoch) % n.burst_every
        else 0)
    else 0

-- `release`; `draw` is the random number below the jitter
unfoldable pub release : (draw ideal : ℕ) → Shaper → ℕ × Shaper
release draw ideal s =
    let epoch = if s.epoch == 0 then ideal else s.epoch in
    let d = s.n.delay + (if ltb 0 s.n.jitter then draw else 0) + burst_delay s.n epoch ideal in
    let t = if ltb (ideal + d) s.last_release then s.last_release else ideal + d in
    (t, record s { epoch = epoch; last_release = t })

pub record Clock : Type 0 where
  pub interval : ℕ
  pub next : ℕ
  pub last_ideal : ℕ
  pub sh : Option Shaper

abbrev pub new_clock : ℕ → Netem → Clock
new_clock interval n = record {
  interval = interval;
  next = 0;
  last_ideal = 0;
  sh = if enabled n then some (new_shaper n) else none;
}

-- the time of the next slot, read at `now`
abbrev pub peek_ideal : ℕ → Clock → ℕ
peek_ideal now c = if c.next == 0 then now else c.next

-- `sleepUntil` at `now`: `done` tells whether the context has ended, `fired` whether the timer's case
-- of the select is the one that is taken.
abbrev pub sleep_until : (now t : ℕ) → (done fired : Bool) → Bool
sleep_until now t done fired = if leb t now then not done else fired

abbrev advance : ℕ → Option Shaper → Clock → Clock
advance ideal sh c = record c { last_ideal = ideal; next = ideal + c.interval; sh = sh }

-- `wait` up to its call of `sleepUntil`: the time that it sleeps until
unfoldable pub slot : (now draw : ℕ) → Clock → ℕ × Clock
slot now draw c =
    let ideal = peek_ideal now c in
    elim c.sh [
      | none ↦ (ideal, advance ideal none c)
      | some s ↦ let (at, s') = release draw ideal s in (at, advance ideal (some s') c)
    ]

unfoldable pub wait : (now draw : ℕ) → (done fired : Bool) → Clock → Bool × Clock
wait now draw done fired c = let (at, c') = slot now draw c in (sleep_until now at done fired, c')

-- the slots of a run of waits: the ideal time and the time of each, given the time and the draw at each
unfoldable pub slots : List (ℕ × ℕ) → Clock → List (ℕ × ℕ)
slots [] c = []
slots ((now, draw) ∷ ws) c = let (at, c') = slot now draw c in (c'.last_ideal, at) ∷ slots ws c'

-- the draws of a run are below the jitter
abbrev pub Drawn : ℕ → List (ℕ × ℕ) → Type 0
Drawn jitter [] = Unit
Drawn jitter ((now, draw) ∷ ws) = (draw ≤ jitter) × Drawn jitter ws

abbrev pub most : Netem → ℕ
most n = n.delay + n.jitter + n.burst_hold

-- no frame of a burst window that began at `epoch` is sent before the window's end
abbrev pub Held : Netem → (epoch ideal at : ℕ) → Type 0
Held n epoch ideal at =
    0 < n.burst_every
    → (ideal - epoch) % n.burst_every < n.burst_hold
    → ideal + n.burst_hold ≤ at + (ideal - epoch) % n.burst_every

-- The slots from time `t` on, on the grid; `before` is the time of the slot before.
abbrev pub OnGrid : Netem → (interval epoch t before : ℕ) → List (ℕ × ℕ) → Type 0
OnGrid n interval epoch t before [] = Unit
OnGrid n interval epoch t before ((ideal, at) ∷ rest) =
    (ideal ≡ t)
    × (before ≤ at)
    × (ideal ≤ at)
    × (at ≤ ideal + most n)
    × Held n epoch ideal at
    × OnGrid n interval epoch (t + interval) at rest

burst_delay-le :
    (n : Netem) (epoch ideal : ℕ) → epoch ≤ ideal → burst_delay n epoch ideal ≤ n.burst_hold
unfolding burst_delay
burst_delay-le n epoch ideal h = ground arith

burst_delay-holds :
    (n : Netem) (epoch ideal : ℕ)
    → epoch ≤ ideal
    → 0 < n.burst_every
    → (ideal - epoch) % n.burst_every < n.burst_hold
    → n.burst_hold ≤ burst_delay n epoch ideal + (ideal - epoch) % n.burst_every
unfolding burst_delay
burst_delay-holds n epoch ideal h pos inside = ground arith

-- The delay `d` of a frame, and what `release` makes of it.
release_cases :
    (draw ideal epoch : ℕ) (s : Shaper)
    → epoch ≢ 0
    → (s.epoch ≡ epoch) ⊎ ((s.epoch ≡ 0) × (ideal ≡ epoch))
    → draw ≤ s.n.jitter
    → (d : ℕ) × (release draw ideal s ≡ (
      max (ideal + d) s.last_release,
      record s { epoch = epoch; last_release = max (ideal + d) s.last_release },
    ))
      × (burst_delay s.n epoch ideal ≤ d)
      × (d ≤ s.n.delay + s.n.jitter + burst_delay s.n epoch ideal)
unfolding release
release_cases draw ideal epoch s nz h le =
    let e : (if s.epoch == 0 then ideal else s.epoch) ≡ epoch = ground arith in
    let extra : ℕ = if ltb 0 s.n.jitter then draw else 0 in
    let delay : ℕ → ℕ = λ x. s.n.delay + extra + burst_delay s.n x ideal in
    let later : ℕ → ℕ =
      λ x. if ltb (ideal + delay x) s.last_release then s.last_release else ideal + delay x in
    let m : later epoch ≡ max (ideal + delay epoch) s.last_release = ground arith in
    let f : ℕ → ℕ → ℕ × Shaper = λ x t. (t, record s { epoch = x; last_release = t }) in
    (delay epoch, ap (λ x. f x (later x)) e ∙ ap (f epoch) m, omega arith, ground arith)

abbrev clock_at : ℕ → ℕ → ℕ → Option Shaper → Clock
clock_at i next last sh = record { interval = i; next = next; last_ideal = last; sh = sh }

-- The first wait of a run gives its frame the ideal time `t`.
abbrev Starts : (next t : ℕ) → List (ℕ × ℕ) → Type 0
Starts next t [] = Unit
Starts next t ((now, draw) ∷ ws) = (if next == 0 then now else next) ≡ t

started : (next : ℕ) (ws : List (ℕ × ℕ)) → next ≢ 0 → Starts next next ws
started next [] nz = tt
started next ((now, draw) ∷ ws) nz = ground arith

shaped_run :
    (n : Netem) (epoch i next t last ep before : ℕ) (ws : List (ℕ × ℕ))
    → epoch ≢ 0
    → epoch ≤ t
    → Starts next t ws
    → (ep ≡ epoch) ⊎ ((ep ≡ 0) × (t ≡ epoch))
    → before ≤ t + most n
    → Drawn n.jitter ws
    → OnGrid n i epoch t before (
        slots ws
          (clock_at i next last (some (record { n = n; epoch = ep; last_release = before }))))
unfolding slots slot
shaped_run n epoch i next t last ep before [] nz le start first within drawn = tt
shaped_run n epoch i next t last ep before ((now, draw) ∷ ws) nz le start first within
      (below, drawn) =
    let s : Shaper = record { n = n; epoch = ep; last_release = before } in
    let (d, e, lo, hi) = release_cases draw t epoch s nz first below in
    let at = max (t + d) before in
    let less = burst_delay-le n epoch t le in
    let rest =
      shaped_run n epoch i (t + i) (t + i) t epoch at ws nz (omega arith)
        (started (t + i) ws (omega arith)) (inl refl) (omega arith) drawn in
    rw (start, e)
      (
        refl,
        omega arith,
        omega arith,
        omega arith,
        (λ pos inside. let holds = burst_delay-holds n epoch t le pos inside in omega arith),
        rest,
      )

plain_run :
    (n : Netem) (epoch i next t last : ℕ) (before : ℕ) (ws : List (ℕ × ℕ))
    → enabled n ≡ false
    → Starts next t ws
    → t ≢ 0
    → before ≤ t
    → OnGrid n i epoch t before (slots ws (clock_at i next last none))
unfolding slots slot
plain_run n epoch i next t last before [] off start nz le = tt
plain_run n epoch i next t last before ((now, draw) ∷ ws) off start nz le =
    let rest =
      plain_run n epoch i (t + i) (t + i) t t ws off (started (t + i) ws (omega arith))
        (omega arith) (omega arith) in
    rw start (refl, le, omega arith, omega arith, (λ pos inside. absurd (ground arith)), rest)

-- Whatever the network disturbance, the n-th frame has its ideal time exactly n intervals after the
-- first wait. The slot times that the clock gives do not decrease; none is before the frame's ideal
-- time, and none after it by more than the delay, the jitter and the hold together. A frame whose
-- ideal time falls into a burst window has its slot no earlier than the end of that window.
pub slots-OnGrid :
    (n : Netem) (interval now draw : ℕ) (ws : List (ℕ × ℕ))
    → now ≢ 0
    → Drawn n.jitter ((now, draw) ∷ ws)
    → OnGrid n interval now now 0 (slots ((now, draw) ∷ ws) (new_clock interval n))
slots-OnGrid n interval now draw ws nz drawn = elim (Bool-cases (enabled n)) [
  | inl on ↦
      subst
        (λ sh. OnGrid n interval now now 0 (slots ((now, draw) ∷ ws) (clock_at interval 0 0 sh)))
        (sym (if-true (some (new_shaper n)) none on))
        (shaped_run n now interval 0 now 0 0 0 ((now, draw) ∷ ws) nz (omega arith) refl
          (inr (refl, refl)) (omega arith) drawn)
  | inr off ↦
      subst
        (λ sh. OnGrid n interval now now 0 (slots ((now, draw) ∷ ws) (clock_at interval 0 0 sh)))
        (sym (if-false (some (new_shaper n)) none off))
        (plain_run n now interval 0 now 0 0 ((now, draw) ∷ ws) off refl nz (omega arith))
]
