-- ===== src/Pipeline/Latency.antt =====
-- internal/pipeline/turn.go: the latencies of `TurnStats`. A time is the number of nanoseconds since
-- the zero time, which `none` is; the sums of durations do not wrap, as spans are below 292 years.
use voice_flux_engine.Prelude.{
  ℕ, ◌+◌, ◌-◌, ◌≤◌, ◌<◌, ◌^◌, ◌≡◌, refl, sym, ap, ap₂, ◌∙◌, ltb, min, if◌then◌else◌, Option, none,
  some, arith,
}
use voice_flux_engine.Prelude.Int.{
  ℤ, pos, negsuc, sub_nat, ◌+ℤ◌, ◌-ℤ◌, sub_nat-add, sub_nat-sub, sub_nat-eq,
}
use voice_flux_engine.Pipeline.{TurnStats}

abbrev pub nanos : Option ℕ → ℕ
nanos none = 0
nanos (some t) = t

-- `a.Sub(b)`, which stops at the ends of int64
abbrev pub span : Option ℕ → Option ℕ → ℤ
span b a =
    if ltb (nanos a) (nanos b)
    then negsuc (min (nanos b - nanos a - 1) (2 ^ 63 - 1))
    else pos (min (nanos a - nanos b) (2 ^ 63 - 1))

unfoldable pub first_response : TurnStats → ℤ
first_response s = elim s.tts_first_frame_at [
  | none ↦ pos 0
  | some t ↦ span s.utterance_end_at (some t)
]

unfoldable pub model_latency : TurnStats → ℤ
model_latency s = elim s.tts_first_frame_at [
  | none ↦ pos 0
  | some t ↦
      span s.utterance_end_at s.asr_final_at
      +ℤ span s.llm_start_at s.llm_first_token_at
      +ℤ span s.tts_start_at (some t)
]

unfoldable pub kernel_overhead : TurnStats → ℤ
kernel_overhead s = elim s.tts_first_frame_at [
  | none ↦ pos 0
  | some t ↦ first_response s -ℤ model_latency s
]

-- Below 2^62 nanoseconds after `t0`.
abbrev pub Near : ℕ → Option ℕ → Type 0
Near t0 t = (t0 ≤ nanos t) × (nanos t < t0 + 2 ^ 62)

span-Near :
    (t0 : ℕ) (a b : Option ℕ) → Near t0 a → Near t0 b → span a b ≡ sub_nat (nanos b) (nanos a)
span-Near t0 a b h k = ground arith

telescope :
    (u f s k v w : ℕ)
    → sub_nat w u -ℤ (sub_nat f u +ℤ sub_nat k s +ℤ sub_nat w v) ≡ sub_nat s f +ℤ sub_nat v k
telescope u f s k v w =
    ap (λ x. sub_nat w u -ℤ (x +ℤ sub_nat w v)) (sub_nat-add f u k s)
    ∙ ap (λ x. sub_nat w u -ℤ x) (sub_nat-add (f + k) (u + s) w v)
    ∙ sub_nat-sub w u (f + k + w) (u + s + v)
    ∙ sub_nat-eq (w + (u + s + v)) (u + (f + k + w)) (s + v) (f + k) (omega arith)
    ∙ sym (sub_nat-add s f v k)

elim-some :
    {o : Option ℕ} {t : ℕ} (x y : ℤ) → o ≡ some t → ◌≡◌ {A = ℤ} (elim o [ none ↦ x | some _ ↦ y ]) y
elim-some x y e = rw e refl

-- The account of a turn whose times are set within 2^62 nanoseconds. What the first response takes
-- beyond the waits for the models is the two waits in the program's own queues: from the final
-- transcript to the opening of the model's stream, and from its first token to the hand-over of the
-- token to the synthesis.
pub kernel_overhead-queues :
    (t0 : ℕ) (t : ℕ) (s : TurnStats)
    → s.tts_first_frame_at ≡ some t
    → Near t0 s.utterance_end_at
    → Near t0 s.asr_final_at
    → Near t0 s.llm_start_at
    → Near t0 s.llm_first_token_at
    → Near t0 s.tts_start_at
    → Near t0 (some t)
    → kernel_overhead s
      ≡ span s.asr_final_at s.llm_start_at +ℤ span s.llm_first_token_at s.tts_start_at
unfolding kernel_overhead first_response model_latency
kernel_overhead-queues t0 t s e hu hf hs hk hv hw =
    let near = span-Near t0 in
    let one : first_response s ≡ span s.utterance_end_at (some t) = rw (e, first_response) refl in
    let sum : model_latency s
        ≡ span s.utterance_end_at s.asr_final_at
          +ℤ span s.llm_start_at s.llm_first_token_at
          +ℤ span s.tts_start_at (some t) =
      rw (e, model_latency) refl in
    let whole : kernel_overhead s ≡ first_response s -ℤ model_latency s =
      elim-some (pos 0) (first_response s -ℤ model_latency s) e in
    let flat =
      ap₂ ◌+ℤ◌
        (ap₂ ◌+ℤ◌ (near s.utterance_end_at s.asr_final_at hu hf)
          (near s.llm_start_at s.llm_first_token_at hs hk))
        (near s.tts_start_at (some t) hv hw) in
    whole
    ∙ ap₂ ◌-ℤ◌ (one ∙ near s.utterance_end_at (some t) hu hw) (sum ∙ flat)
    ∙ telescope (nanos s.utterance_end_at) (nanos s.asr_final_at) (nanos s.llm_start_at)
        (nanos s.llm_first_token_at) (nanos s.tts_start_at) t
    ∙ sym (
        ap₂ ◌+ℤ◌ (near s.asr_final_at s.llm_start_at hf hs)
          (near s.llm_first_token_at s.tts_start_at hk hv))
