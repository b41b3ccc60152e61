-- ===== src/Loadgen/Collector.antt =====
-- internal/loadgen/loadgen.go: the collector of the observations of a step. The mutex makes each
-- operation one step; the worker's log is left out. Durations are nanoseconds.
use voice_flux_engine.Prelude.{
  ℕ, suc, ◌+◌, ◌-◌, ◌<◌, ◌^◌, ◌≡◌, refl, sym, subst, ap, if◌then◌else◌, if-true, if-false, Bool,
  true, false, List, [], ◌∷◌, ◌++◌, u64, sub_u64, arith,
}
use voice_flux_engine.Prelude.Int.{ℤ}

pub data SampleKind : Type 0 where
  sample_first sample_barge : SampleKind

pub record Collector : Type 0 where
  pub frames_sent : ℕ
  pub live : ℕ
  pub measuring : Bool
  pub first : List ℤ
  pub barge : List ℤ
  pub turns : ℕ
  pub errs : ℕ

pub record WindowAgg : Type 0 where
  pub first : List ℤ
  pub barge : List ℤ
  pub turns : ℕ
  pub errs : ℕ
  pub frames : ℕ

-- a worker is started or returns
abbrev pub worker_spawn : Collector → Collector
worker_spawn c = record c { live = c.live + 1 }

abbrev pub worker_exit : Collector → Collector
worker_exit c = record c { live = c.live - 1 }

unfoldable pub add_sample : SampleKind → ℤ → Collector → Collector
add_sample sample_first d c = if c.measuring then record c { first = c.first ++ d ∷ [] } else c
add_sample sample_barge d c = if c.measuring then record c { barge = c.barge ++ d ∷ [] } else c

unfoldable pub turn_done : Collector → Collector
turn_done c = if c.measuring then record c { turns = c.turns + 1 } else c

unfoldable pub fail : Collector → Collector
fail c = if c.measuring then record c { errs = c.errs + 1 } else c

-- a worker has sent a frame
abbrev pub frame_sent : Collector → Collector
frame_sent c = record c { frames_sent = u64 (c.frames_sent + 1) }

unfoldable pub begin_window : Collector → ℕ × Collector
begin_window c =
    (c.frames_sent, record c { first = []; barge = []; turns = 0; errs = 0; measuring = true })

unfoldable pub end_window : ℕ → Collector → WindowAgg × Collector
end_window mark c = (
  record {
    first = c.first;
    barge = c.barge;
    turns = c.turns;
    errs = c.errs;
    frames = sub_u64 c.frames_sent mark;
  },
  record c { measuring = false },
)

-- what the workers do
pub data WorkerOp : Type 0 where
  exits sends completes fails : WorkerOp
  samples : SampleKind → ℤ → WorkerOp

unfoldable pub work : WorkerOp → Collector → Collector
work exits c = worker_exit c
work sends c = frame_sent c
work completes c = turn_done c
work fails c = fail c
work (samples k d) c = add_sample k d c

unfoldable pub work_all : List WorkerOp → Collector → Collector
work_all [] c = c
work_all (op ∷ ops) c = work_all ops (work op c)

-- what a window sees of some operations
abbrev pub tally : List WorkerOp → WindowAgg → WindowAgg
tally [] a = a
tally (exits ∷ ops) a = tally ops a
tally (sends ∷ ops) a = tally ops (record a { frames = a.frames + 1 })
tally (completes ∷ ops) a = tally ops (record a { turns = a.turns + 1 })
tally (fails ∷ ops) a = tally ops (record a { errs = a.errs + 1 })
tally (samples sample_first d ∷ ops) a = tally ops (record a { first = a.first ++ d ∷ [] })
tally (samples sample_barge d ∷ ops) a = tally ops (record a { barge = a.barge ++ d ∷ [] })

abbrev pub no_agg : WindowAgg
no_agg = record { first = []; barge = []; turns = 0; errs = 0; frames = 0 }

-- the window so far
abbrev so_far : ℕ → Collector → WindowAgg
so_far frames c = record {
  first = c.first;
  barge = c.barge;
  turns = c.turns;
  errs = c.errs;
  frames = frames;
}

abbrev sent : List WorkerOp → ℕ
sent [] = 0
sent (exits ∷ ops) = sent ops
sent (sends ∷ ops) = suc (sent ops)
sent (completes ∷ ops) = sent ops
sent (fails ∷ ops) = sent ops
sent (samples k d ∷ ops) = sent ops

window-tally :
    (mark frames : ℕ) (ops : List WorkerOp) (c : Collector)
    → c.measuring ≡ true
    → c.frames_sent ≡ u64 (mark + frames)
    → mark < 2 ^ 64
    → frames + sent ops < 2 ^ 64
    → (end_window mark (work_all ops c)).0 ≡ tally ops (so_far frames c)
unfolding end_window work_all work add_sample turn_done fail
window-tally mark frames [] c m e lo l =
    let same : sub_u64 c.frames_sent mark ≡ frames = ground arith in ap (λ n. so_far n c) same
window-tally mark frames (exits ∷ ops) c m e lo l =
    window-tally mark frames ops (worker_exit c) m e lo l
window-tally mark frames (sends ∷ ops) c m e lo l =
    window-tally mark (frames + 1) ops (frame_sent c) m (omega arith) lo (omega arith)
window-tally mark frames (completes ∷ ops) c m e lo l =
    let c' : Collector = record c { turns = c.turns + 1 } in
    subst (λ x. (end_window mark (work_all ops x)).0 ≡ tally ops (so_far frames c'))
      (sym (if-true c' c m)) (window-tally mark frames ops c' m e lo l)
window-tally mark frames (fails ∷ ops) c m e lo l =
    let c' : Collector = record c { errs = c.errs + 1 } in
    subst (λ x. (end_window mark (work_all ops x)).0 ≡ tally ops (so_far frames c'))
      (sym (if-true c' c m)) (window-tally mark frames ops c' m e lo l)
window-tally mark frames (samples sample_first d ∷ ops) c m e lo l =
    let c' : Collector = record c { first = c.first ++ d ∷ [] } in
    subst (λ x. (end_window mark (work_all ops x)).0 ≡ tally ops (so_far frames c'))
      (sym (if-true c' c m)) (window-tally mark frames ops c' m e lo l)
window-tally mark frames (samples sample_barge d ∷ ops) c m e lo l =
    let c' : Collector = record c { barge = c.barge ++ d ∷ [] } in
    subst (λ x. (end_window mark (work_all ops x)).0 ≡ tally ops (so_far frames c'))
      (sym (if-true c' c m)) (window-tally mark frames ops c' m e lo l)

-- A window's aggregate is what the workers do between its begin and its end, in order, whatever the
-- collector held before and whether a window was open.
pub window_exact :
    (ops : List WorkerOp) (c : Collector)
    → c.frames_sent < 2 ^ 64
    → sent ops < 2 ^ 64
    → let (mark, opened) = begin_window c in
      (end_window mark (work_all ops opened)).0 ≡ tally ops no_agg
unfolding begin_window
window_exact ops c lo l =
    window-tally c.frames_sent 0 ops (begin_window c).1 refl (omega arith) lo (omega arith)

ignored_turn : (c : Collector) → c.measuring ≡ false → turn_done c ≡ c
unfolding turn_done
ignored_turn c m = if-false _ _ m

ignored_fail : (c : Collector) → c.measuring ≡ false → fail c ≡ c
unfolding fail
ignored_fail c m = if-false _ _ m

ignored_sample :
    (k : SampleKind) (d : ℤ) (c : Collector) → c.measuring ≡ false → add_sample k d c ≡ c
unfolding add_sample
ignored_sample sample_first d c m = if-false _ _ m
ignored_sample sample_barge d c m = if-false _ _ m

abbrev pub Unseen : Collector → Collector → Type 0
Unseen c c' =
    (c'.first ≡ c.first) × (c'.barge ≡ c.barge) × (c'.turns ≡ c.turns) × (c'.errs ≡ c.errs)

-- Outside a window the collector takes no observation but the count of frames.
pub closed_ignores :
    (ops : List WorkerOp) (c : Collector) → c.measuring ≡ false → Unseen c (work_all ops c)
unfolding work_all work
closed_ignores [] c m = (refl, refl, refl, refl)
closed_ignores (exits ∷ ops) c m = closed_ignores ops (worker_exit c) m
closed_ignores (sends ∷ ops) c m = closed_ignores ops (frame_sent c) m
closed_ignores (completes ∷ ops) c m =
    subst (λ x. Unseen c (work_all ops x)) (sym (ignored_turn c m)) (closed_ignores ops c m)
closed_ignores (fails ∷ ops) c m =
    subst (λ x. Unseen c (work_all ops x)) (sym (ignored_fail c m)) (closed_ignores ops c m)
closed_ignores (samples k d ∷ ops) c m =
    subst (λ x. Unseen c (work_all ops x)) (sym (ignored_sample k d c m)) (closed_ignores ops c m)
