-- ===== src/Session/Build/Valid.antt =====
-- A validated configuration makes a conversation, in the state from which the other parts start.
use Prim.Native.String.{String}
use native.Mathlib.Nat.{pow-succ'}
use voice_flux_engine.Prelude.{
  ℕ, suc, ◌*◌, ◌/◌, ◌^◌, ◌≤◌, ◌<◌, ◌≡◌, refl, ap, ap₂, ◌∙◌, subst, sym, Bool, none, [], arith,
}
use voice_flux_engine.Prelude.Bits.{pow_pos}
use voice_flux_engine.Prelude.Int.{ℤ, pos, ◌*ℤ◌, quot, i64, i64_small, pos_part}
use voice_flux_engine.Prelude.Result.{ok, err}
use voice_flux_engine.Pool.{BufferPool}
use voice_flux_engine.Pool.Sound.{IsSound, free_buffers}
use voice_flux_engine.Pool.Build.{new_pool-IsSound, buffers}
use voice_flux_engine.Vad.{duration_frames}
use voice_flux_engine.Vad.Detector.{IsFresh}
use voice_flux_engine.Vad.Joint.{is_speaking}
use voice_flux_engine.Pipeline.{idle}
use voice_flux_engine.Pipeline.Build.{Built, new_pipeline, new_pipe}
use voice_flux_engine.Edge.{Edge}
use voice_flux_engine.Adapter.{AudioFrame}
use voice_flux_engine.Config.{Config, validate}
use voice_flux_engine.Config.Build.{validate-Valid, validated_builds}
use voice_flux_engine.Session.Build.{
  Conversation, Made, made, pipeline_error, no_frame, frame_bytes, make_pool, new_controller,
  fresh_session, new_session,
}

duration_frames-pos : (d n : ℤ) → 1 ≤ duration_frames d n
unfolding duration_frames
duration_frames-pos d n = ground arith

controller-IsFresh :
    {L : Type 0} (c : Config L) (duration : ℤ) → IsFresh (new_controller c duration).det
controller-IsFresh c duration = record {
  silent = refl;
  idle = refl;
  speech_pos = duration_frames-pos c.min_speech duration;
  hangover_pos = duration_frames-pos c.hangover duration;
}

frame_bytes_small :
    (n d : ℕ) → n * d < 2 ^ 63 → frame_bytes (pos n) (pos d) ≡ pos (n * d / 1000000000 * 2)
unfolding frame_bytes
frame_bytes_small n d h =
    let q : n * d / 1000000000 * 2 < 2 ^ 63 = omega arith in
    ap (λ x. i64 (quot x 1000000000 *ℤ pos 2)) (i64_small (n * d) h)
    ∙ i64_small (n * d / 1000000000 * 2) q

make_pool-runs :
    {L : Type 0} (n k size : ℕ)
    → n ≡ 2 ^ k
    → 2 ≤ n
    → n < 2 ^ 61
    → (p : BufferPool) × ((rest : BufferPool → Made L) → make_pool (pos n) (pos size) rest ≡ rest p)
      × IsSound n p
      × (free_buffers n p ≡ buffers n 0 size)
unfolding make_pool
make_pool-runs n k size e two small =
    let (p, q, s, _, _, f) = new_pool-IsSound n k size e two small in
    (p, λ rest. rw (make_pool, q) refl, s, f)

session-made :
    {L : Type 0} (c : Config L) (n d k : ℕ) (id : String) (now : ℕ) (b : Built AudioFrame)
    → c.ingress_capacity ≡ pos (2 ^ k)
    → c.sample_rate ≡ pos n
    → new_pipeline no_frame c ≡ ok b
    → 2 ^ k < 2 ^ 60
    → n * d < 2 ^ 63
    → (p : BufferPool) × (new_session c (pos d) id now
        ≡ made (record { session = fresh_session c (pos d) id now; built = b; pool = p }))
      × IsSound (2 * 2 ^ k) p
      × (free_buffers (2 * 2 ^ k) p ≡ buffers (2 * 2 ^ k) 0 (n * d / 1000000000 * 2))
unfolding new_session
session-made {L} c n d k id now b slots rate build few small =
    let rest : BufferPool → Made L = λ pool. elim (new_pipeline no_frame c) [
      | err e ↦ pipeline_error e
      | ok x ↦ made (record { session = fresh_session c (pos d) id now; built = x; pool = pool })
    ] in
    let count : i64 (pos 2 *ℤ c.ingress_capacity) ≡ pos (2 * 2 ^ k) =
      ap (λ x. i64 (pos 2 *ℤ x)) slots ∙ i64_small (2 * 2 ^ k) (omega arith) in
    let size : frame_bytes c.sample_rate (pos d) ≡ pos (n * d / 1000000000 * 2) =
      ap (λ x. frame_bytes x (pos d)) rate ∙ frame_bytes_small n d small in
    let (p, runs, sound, free) =
      make_pool-runs (2 * 2 ^ k) (suc k) (n * d / 1000000000 * 2) (sym (pow-succ' 2 k))
        (omega (arith, pow_pos k)) (omega arith) in
    (p, ap₂ (λ x y. make_pool x y rest) count size ∙ runs rest ∙ rw build refl, sound, free)

-- A new conversation.
abbrev pub IsNew : {L : Type 0} → Config L → ℕ → Conversation L → Type 0
IsNew c d v =
    let count = 2 * pos_part c.ingress_capacity in
    ((v.session.att ≡ none) × (v.session.attachments ≡ []) × (v.session.attaching ≡ none))
    × (IsFresh v.session.ctrl.det
        × (is_speaking v.session.ctrl.machine.state ≡ v.session.ctrl.det.in_speech))
    × ((v.built.pipe.phase ≡ idle) × (v.built.pipe.history ≡ []))
    × IsSound count v.pool
    × (free_buffers count v.pool ≡ buffers count 0 (pos_part c.sample_rate * d / 1000000000 * 2))

module _ {L : Type 0} (not_positive : L → Bool) (gt : L → L → Bool) where
  pipeline-made :
      (c : Config L)
      → validate not_positive gt c ≡ none
      → (i : Edge AudioFrame) × (o : Edge AudioFrame) × (new_pipeline no_frame c
          ≡ ok (record { ingress = i; pipe = new_pipe o }))
  unfolding new_pipeline
  pipeline-made c h =
      let (p, q, i, o, x, y, m, n) = validated_builds not_positive gt no_frame c h in
      (i, o, rw (new_pipeline, x, y, m, n) refl)

  -- With a configuration that passes validation, a frame duration that is not negative, an ingress
  -- capacity below 2^60 and a product of rate and duration below 2^63, `newSession` succeeds. The
  -- session has no connection; the detector is fresh and agrees with the machine; the pipeline is
  -- idle and remembers nothing; and the pool is sound and has two buffers of a frame for each slot
  -- of the ingress ring.
  pub validated_conversation :
      (c : Config L) (d : ℕ) (id : String) (now : ℕ)
      → validate not_positive gt c ≡ none
      → pos_part c.ingress_capacity < 2 ^ 60
      → pos_part c.sample_rate * d < 2 ^ 63
      → (v : Conversation L) × (new_session c (pos d) id now ≡ made v) × IsNew c d v
  validated_conversation c d id now h few small =
      let v = validate-Valid not_positive gt c h in
      let (n, rate) = v.rate in
      let (k, slots) = v.ingress in
      let (i, o, build) = pipeline-made c h in
      let b : Built AudioFrame = record { ingress = i; pipe = new_pipe o } in
      let (p, runs, sound, free) =
        session-made c n d k id now b slots rate build (subst (λ x. pos_part x < 2 ^ 60) slots few)
          (subst (λ x. pos_part x * d < 2 ^ 63) rate small) in
      (
        record { session = fresh_session c (pos d) id now; built = b; pool = p },
        runs,
        (
          (refl, refl, refl),
          (controller-IsFresh c (pos d), refl),
          (refl, refl),
          subst (λ x. IsSound (2 * pos_part x) p) (sym slots) sound,
          subst
              (λ x.
                free_buffers (2 * pos_part x) p
                ≡ buffers (2 * pos_part x) 0 (pos_part c.sample_rate * d / 1000000000 * 2))
              (sym slots)
              (free ∙ ap (λ x. buffers (2 * 2 ^ k) 0 (pos_part x * d / 1000000000 * 2)) (sym rate)),
        ),
      )
