-- ===== src/Adapter/Framer.antt =====
-- internal/adapter/ttsframe.go: the framer that cuts synthesised audio into frames of one length.
use voice_flux_engine.Prelude.{
  ℕ, zero, suc, ◌+◌, ◌-◌, ◌*◌, ◌/◌, ◌<◌, ◌≤◌, ◌≡◌, refl, sym, ap, ap₂, ◌∙◌, subst, ltb, leb, ◌==◌,
  if◌then◌else◌, if-true, if-false, Bool, true, false, Bool-cases, Option, none, some, List, [],
  ◌∷◌, ◌++◌, append_assoc, length, length-append, length-take, length-drop, take, drop,
  take-append-drop, replicate, arith, inl, inr,
}
use voice_flux_engine.Adapter.{AudioFrame}

-- Durations are nanoseconds; `start` is the time of the first frame, `none` before it.
pub record PcmFramer : Type 0 where
  pub sample_rate : ℕ
  pub frame_duration : ℕ
  pub lead : ℕ
  pub carry : List ℕ
  pub total : ℕ
  pub start : Option ℕ

abbrev pub second : ℕ
second = 1000000000

abbrev pub samples_per_frame : PcmFramer → ℕ
samples_per_frame f = f.sample_rate * f.frame_duration / second

abbrev pub bytes_per_frame : PcmFramer → ℕ
bytes_per_frame f = samples_per_frame f * 2

abbrev pub start_or : Option ℕ → ℕ → ℕ
start_or none now = now
start_or (some t) now = t

abbrev pub lead_of : PcmFramer → ℕ
lead_of f = if f.lead == 0 then 200000000 else f.lead

-- The pacing of a frame at time `now`: the time until which `Emit` waits, and the anchor.
unfoldable pub pace : ℕ → PcmFramer → ℕ × PcmFramer
pace now f =
    let play = f.total * second / f.sample_rate in
    let target = start_or f.start now + play in
    if ltb target now
    then (now - lead_of f, record f { start = some (now - play) })
    else (target - lead_of f, record f { start = some (start_or f.start now) })

abbrev pub frame_at : List ℕ → PcmFramer → AudioFrame
frame_at pcm f = record { pcm = pcm; ts_us = f.total * 1000000 / f.sample_rate }

-- The loop of `Emit`, with fuel, at a positive sample rate. `clock` is the time read at a sample
-- position; `goes` says of each frame of the call, numbered from `i`, whether neither its wait nor its
-- send meets the end of the context. The frames sent, whether the loop ends in an error, and the
-- framer.
unfoldable pub emit_loop :
    ℕ → (ℕ → ℕ) → (ℕ → Bool) → (i : ℕ) → PcmFramer → Option (List AudioFrame × Bool × PcmFramer)
emit_loop zero clock goes i f = none
emit_loop (suc fuel) clock goes i f =
    let bpf = bytes_per_frame f in
    let f' : PcmFramer = record (pace (clock f.total) f).1 { carry = drop bpf f.carry } in
    let rest =
      emit_loop fuel clock goes (i + 1) (record f' { total = f.total + samples_per_frame f }) in
    if leb bpf (length f.carry)
    then (if goes i
        then elim rest [
          | none ↦ none
          | some (frames, failed, last) ↦
              some (frame_at (take bpf f.carry) f ∷ frames, failed, last)
        ]
        else some ([], true, f'))
    else some ([], false, f)

unfoldable pub emit :
    ℕ → (ℕ → ℕ) → (ℕ → Bool) → List ℕ → PcmFramer → Option (List AudioFrame × Bool × PcmFramer)
emit fuel clock goes pcm f = emit_loop fuel clock goes 0 (record f { carry = f.carry ++ pcm })

-- `Flush` when the send does not fail
unfoldable pub flush : PcmFramer → List AudioFrame × PcmFramer
flush f = if length f.carry == 0 then ([], f) else (
  frame_at (f.carry ++ replicate (bytes_per_frame f - length f.carry) 0) f ∷ [],
  record f { carry = [] },
)

-- all the audio of some frames
abbrev pub audio : List AudioFrame → List ℕ
audio [] = []
audio (f ∷ fs) = f.pcm ++ audio fs

-- Frames of `n` bytes with the times of the sample clock from `total` on, `step` samples each.
abbrev pub Cut : ℕ → ℕ → ℕ → ℕ → List AudioFrame → Type 0
Cut n rate step total [] = Unit
Cut n rate step total (f ∷ fs) =
    (length f.pcm ≡ n) × (f.ts_us ≡ total * 1000000 / rate) × Cut n rate step (total + step) fs

pace-keeps :
    (now : ℕ) (f : PcmFramer)
    → let f' = (pace now f).1 in
      (f'.sample_rate ≡ f.sample_rate) × (f'.frame_duration ≡ f.frame_duration)
unfolding pace
pace-keeps now f = (ground arith, ground arith)

-- Waiting until the time that `pace` gives, no frame is sent further ahead of its place in real time
-- than the lead, and a late framer takes the present as the frame's place.
pub pace_lead :
    (now : ℕ) (f : PcmFramer)
    → let (wait, f') = pace now f in
      let play = f.total * second / f.sample_rate in
      (s : ℕ) × (f'.start ≡ some s) × (s + play ≤ wait + lead_of f) × (now ≤ s + play)
unfolding pace
pace_lead now f =
    let play = f.total * second / f.sample_rate in
    let target = start_or f.start now + play in
    elim (Bool-cases (ltb target now)) [
      | inl t ↦
          let past : target < now = ground arith in
          (
            now - play,
            ap {A = ℕ × PcmFramer} (λ x. x.1.start) (if-true _ _ t),
            subst (λ w. now - play + play ≤ w + lead_of f)
                (sym (ap {A = ℕ × PcmFramer} (λ x. x.0) (if-true _ _ t))) (omega arith),
            omega arith,
          )
      | inr t ↦
          let here : now ≤ target = ground arith in
          (
            start_or f.start now,
            ap {A = ℕ × PcmFramer} (λ x. x.1.start) (if-false _ _ t),
            subst (λ w. target ≤ w + lead_of f)
                (sym (ap {A = ℕ × PcmFramer} (λ x. x.0) (if-false _ _ t))) (omega arith),
            here,
          )
    ]

Cut-same :
    {n n' rate rate' step step' : ℕ} (fs : List AudioFrame) (total : ℕ)
    → n ≡ n'
    → rate ≡ rate'
    → step ≡ step'
    → Cut n rate step total fs
    → Cut n' rate' step' total fs
Cut-same {n} {n'} {rate} {rate'} {step} {step'} fs total e e' e'' c =
    subst (λ i. Cut n' rate' i total fs) e''
      (subst (λ i. Cut n' i step total fs) e' (subst (λ i. Cut i rate step total fs) e c))

-- Given a round more than there are bytes, `emit_loop` ends and cuts all of them but less than a
-- frame.
loop-cuts :
    (fuel : ℕ) (clock : ℕ → ℕ) (goes : ℕ → Bool) (n : ℕ) (f : PcmFramer)
    → ((i : ℕ) → goes i ≡ true)
    → 0 < bytes_per_frame f
    → length f.carry < fuel
    → (frames : List AudioFrame) × (last : PcmFramer) × (emit_loop fuel clock goes n f
        ≡ some (frames, false, last))
      × (audio frames ++ last.carry ≡ f.carry)
      × (length last.carry < bytes_per_frame f)
      × Cut (bytes_per_frame f) f.sample_rate (samples_per_frame f) f.total frames
unfolding emit_loop
loop-cuts zero clock goes n f ok pos h = absurd (omega arith)
loop-cuts (suc fuel) clock goes n f ok pos h =
    let bpf = bytes_per_frame f in
    elim (Bool-cases (leb bpf (length f.carry))) [
      | inr t ↦ ([], f, if-false _ _ t, refl, ground arith, tt)
      | inl t ↦
          let le : bpf ≤ length f.carry = ground arith in
          let paced = (pace (clock f.total) f).1 in
          let next : PcmFramer = record paced {
            carry = drop bpf f.carry;
            total = f.total + samples_per_frame f;
          } in
          let (rate, duration) = pace-keeps (clock f.total) f in
          let cut = length-drop bpf f.carry in
          let len = length-take bpf f.carry in
          let same : samples_per_frame next ≡ samples_per_frame f =
            ap₂ (λ r d. r * d / second) rate duration in
          let bytes : bytes_per_frame next ≡ bpf = ap (λ n. n * 2) same in
          let (frames, last, e, a, l, c) =
            loop-cuts fuel clock goes (n + 1) next ok (omega arith) (omega arith) in
          (
            frame_at (take bpf f.carry) f ∷ frames,
            last,
            if-true _ _ t ∙ if-true _ _ (ok n) ∙ rw (e) refl,
            append_assoc (take bpf f.carry) (audio frames) last.carry
                ∙ ap (λ r. take bpf f.carry ++ r) a
                ∙ take-append-drop bpf f.carry,
            omega arith,
            (omega arith, refl, Cut-same frames (f.total + samples_per_frame f) bytes rate same c),
          )
    ]

-- `Emit` ends, given a round more than there are bytes, when a frame has any and neither a send nor
-- the context ends it before. It emits frames of one length whose times run on from the position of
-- the framer by the sample clock; their audio and what the framer keeps, less than a frame, are what
-- it kept before and what it was given.
pub emit_cuts :
    (fuel : ℕ) (clock : ℕ → ℕ) (goes : ℕ → Bool) (pcm : List ℕ) (f : PcmFramer)
    → ((i : ℕ) → goes i ≡ true)
    → 0 < bytes_per_frame f
    → length f.carry + length pcm < fuel
    → (frames : List AudioFrame) × (last : PcmFramer) × (emit fuel clock goes pcm f
        ≡ some (frames, false, last))
      × (audio frames ++ last.carry ≡ f.carry ++ pcm)
      × (length last.carry < bytes_per_frame f)
      × Cut (bytes_per_frame f) f.sample_rate (samples_per_frame f) f.total frames
unfolding emit
emit_cuts fuel clock goes pcm f ok pos h =
    let l = length-append f.carry pcm in
    loop-cuts fuel clock goes 0 (record f { carry = f.carry ++ pcm }) ok pos (omega arith)
