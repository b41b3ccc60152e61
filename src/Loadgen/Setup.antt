-- ===== src/Loadgen/Setup.antt =====
-- internal/loadgen/loadgen.go, the configuration of a run and its defaults, and the audio frames of
-- worker.go. A duration is a number of nanoseconds; the logger is left out.
use Prim.Native.String.{String}
use text.Mathlib.Text.{◌==◌ as str_eq}
use voice_flux_engine.Prelude.{
  ℕ, zero, suc, ◌+◌, ◌*◌, ◌/◌, ◌%◌, ◌<◌, ◌≡◌, refl, sym, ap, subst, ◌∙◌, ltb, if◌then◌else◌,
  if-false, Bool, true, false, not, ◌&&◌, ◌||◌, List, [], ◌∷◌, length, arith,
}
use voice_flux_engine.Prelude.Int.{ℤ, pos, negsuc}
use voice_flux_engine.Prelude.Result.{Result, ok, err, ok-injective}
use voice_flux_engine.Config.{is_positive, lt_int}
use voice_flux_engine.Loadgen.Shaper.{Netem}

pub record LoadConfig : Type 0 where
  pub url : String
  pub metrics_url : String
  pub steps : List ℤ
  pub step_duration : ℤ
  pub warmup : ℤ
  pub frame_interval : ℤ
  pub frame_duration : ℤ
  pub sample_rate : ℤ
  pub speech_frames : ℤ
  pub barge_every : ℤ
  pub barge_delay : ℤ
  pub quiet_gap : ℤ
  pub turn_timeout : ℤ
  pub netem : Netem
  pub speech_pcm : List ℕ
  pub silence_pcm : List ℕ

pub data SetupError : Type 0 where
  no_url bad_steps : SetupError

-- `pcmFrame`, with the sample that the amplitude gives
unfoldable pub pcm_frame : ℕ → ℕ → List ℕ
pcm_frame zero v = []
pcm_frame (suc n) v = v % 256 ∷ v / 256 ∷ pcm_frame n v

abbrev pub milliseconds : ℕ → ℤ
milliseconds n = pos (n * 1000000)

-- the function `def` of `normalize`
abbrev pub default : ℤ → ℤ → ℤ
default d v = if is_positive d then d else v

abbrev pub or_steps : List ℤ → List ℤ
or_steps [] = pos 1 ∷ pos 5 ∷ pos 10 ∷ pos 20 ∷ pos 40 ∷ pos 80 ∷ []
or_steps (n ∷ steps) = n ∷ steps

-- the loop over the steps after the first; `before` is the step before
unfoldable pub later_steps : ℤ → List ℤ → Bool
later_steps before [] = true
later_steps before (n ∷ steps) = not (not (is_positive n) || lt_int n before) && later_steps n steps

unfoldable pub check_steps : List ℤ → Bool
check_steps [] = true
check_steps (n ∷ steps) = is_positive n && later_steps n steps

abbrev pub magnitude : ℤ → ℕ
magnitude (pos n) = n
magnitude (negsuc n) = 0

-- Both factors are positive here, and their product is below 2^63.
abbrev pub frame_samples : ℤ → ℤ → ℕ
frame_samples rate duration = magnitude rate * magnitude duration / 1000000000

-- the defaults, and the frames of speech (half the full scale) and of silence
unfoldable pub with_defaults : LoadConfig → LoadConfig
with_defaults c =
    let rate = default c.sample_rate (pos 16000) in
    let duration = default c.frame_duration (milliseconds 20) in
    record c {
      steps = or_steps c.steps;
      step_duration = default c.step_duration (milliseconds 10000);
      warmup = default c.warmup (milliseconds 2000);
      frame_interval = default c.frame_interval (milliseconds 20);
      frame_duration = duration;
      barge_delay = default c.barge_delay (milliseconds 150);
      quiet_gap = default c.quiet_gap (milliseconds 350);
      turn_timeout = default c.turn_timeout (milliseconds 10000);
      sample_rate = rate;
      speech_frames = default c.speech_frames (pos 30);
      speech_pcm = pcm_frame (frame_samples rate duration) 16383;
      silence_pcm = pcm_frame (frame_samples rate duration) 0;
    }

unfoldable pub normalize : LoadConfig → Result SetupError LoadConfig
normalize c =
    if str_eq c.url ""
    then err no_url
    else if not (check_steps (or_steps c.steps))
    then err bad_steps
    else ok (with_defaults c)

-- `frameNominalUs`
abbrev pub frame_nominal_us : LoadConfig → ℕ
frame_nominal_us c = magnitude c.frame_duration / 1000

-- `rampStagger` of a warmup that is not negative
abbrev pub ramp_stagger : ℕ → ℕ
ramp_stagger warmup = if ltb warmup 100000000 then warmup / 2 + 1000000 else warmup

length-pcm_frame : (n v : ℕ) → length (pcm_frame n v) ≡ n * 2
unfolding pcm_frame
length-pcm_frame zero v = refl
length-pcm_frame (suc n) v = let rec = length-pcm_frame n v in omega arith

default-positive : (d : ℤ) (n : ℕ) → 0 < n → is_positive (default d (pos n)) ≡ true
default-positive d n h = ground arith

default_idem : (d : ℤ) (n : ℕ) → 0 < n → default (default d (pos n)) (pos n) ≡ default d (pos n)
default_idem d n h = ground arith

or_steps_idem : (steps : List ℤ) → or_steps (or_steps steps) ≡ or_steps steps
or_steps_idem [] = refl
or_steps_idem (n ∷ steps) = refl

-- what a run relies on
abbrev pub Usable : LoadConfig → Type 0
Usable c =
    (check_steps c.steps ≡ true)
    × (is_positive c.step_duration ≡ true)
    × (is_positive c.warmup ≡ true)
    × (is_positive c.frame_interval ≡ true)
    × (is_positive c.frame_duration ≡ true)
    × (is_positive c.sample_rate ≡ true)
    × (is_positive c.speech_frames ≡ true)
    × (is_positive c.turn_timeout ≡ true)
    × (length c.speech_pcm ≡ frame_samples c.sample_rate c.frame_duration * 2)
    × (length c.silence_pcm ≡ length c.speech_pcm)

guards :
    {x c' : LoadConfig} (a b : Bool)
    → (if a then err no_url else if not b then err bad_steps else ok x) ≡ ok c'
    → (a ≡ false) × (b ≡ true) × (x ≡ c')
guards true b h = absurd (ground arith)
guards false true h = (refl, refl, ok-injective h)
guards false false h = absurd (ground arith)

with_defaults-Usable :
    (c : LoadConfig) → check_steps (or_steps c.steps) ≡ true → Usable (with_defaults c)
unfolding with_defaults
with_defaults-Usable c h =
    let rate = default c.sample_rate (pos 16000) in
    let n = frame_samples rate (default c.frame_duration (milliseconds 20)) in
    (
      h,
      default-positive c.step_duration 10000000000 (omega arith),
      default-positive c.warmup 2000000000 (omega arith),
      default-positive c.frame_interval 20000000 (omega arith),
      default-positive c.frame_duration 20000000 (omega arith),
      default-positive c.sample_rate 16000 (omega arith),
      default-positive c.speech_frames 30 (omega arith),
      default-positive c.turn_timeout 10000000000 (omega arith),
      length-pcm_frame n 16383,
      length-pcm_frame n 0 ∙ sym (length-pcm_frame n 16383),
    )

with_defaults-url :
    (c : LoadConfig) → str_eq c.url "" ≡ false → str_eq (with_defaults c).url "" ≡ false
unfolding with_defaults
with_defaults-url c h = h

with_defaults-steps :
    (c : LoadConfig)
    → check_steps (or_steps c.steps) ≡ true
    → not (check_steps (or_steps (with_defaults c).steps)) ≡ false
unfolding with_defaults
with_defaults-steps c h = rw (or_steps_idem c.steps, h) refl

with_defaults_idem : (c : LoadConfig) → with_defaults (with_defaults c) ≡ with_defaults c
unfolding with_defaults
with_defaults_idem c =
    let rate = default_idem c.sample_rate 16000 (omega arith) in
    let duration = default_idem c.frame_duration 20000000 (omega arith) in
    λ i. record c {
      steps = or_steps_idem c.steps i;
      step_duration = default_idem c.step_duration 10000000000 (omega arith) i;
      warmup = default_idem c.warmup 2000000000 (omega arith) i;
      frame_interval = default_idem c.frame_interval 20000000 (omega arith) i;
      frame_duration = duration i;
      barge_delay = default_idem c.barge_delay 150000000 (omega arith) i;
      quiet_gap = default_idem c.quiet_gap 350000000 (omega arith) i;
      turn_timeout = default_idem c.turn_timeout 10000000000 (omega arith) i;
      sample_rate = rate i;
      speech_frames = default_idem c.speech_frames 30 (omega arith) i;
      speech_pcm = pcm_frame (frame_samples (rate i) (duration i)) 16383;
      silence_pcm = pcm_frame (frame_samples (rate i) (duration i)) 0;
    }

-- When `normalize` accepts a configuration, the result can be run: its steps are positive and do not
-- decrease, its durations are positive, and both its audio frames hold the samples of one frame.
-- Normalizing the result again changes nothing.
pub normalize-Usable :
    (c c' : LoadConfig) → normalize c ≡ ok c' → Usable c' × (normalize c' ≡ ok c')
unfolding normalize
normalize-Usable c c' h =
    let (named, steps, e) = guards (str_eq c.url "") (check_steps (or_steps c.steps)) h in
    subst (λ x. Usable x × (normalize x ≡ ok x)) e
      (
        with_defaults-Usable c steps,
        if-false _ _ (with_defaults-url c named)
            ∙ if-false _ _ (with_defaults-steps c steps)
            ∙ ap ok (with_defaults_idem c),
      )
