-- ===== src/Config.antt =====
-- internal/config/config.go: the validation of a configuration, with the fields that it reads. `F` is
-- float64, with `x <= 0` and `x > y` as functions.
pub mod Build
pub mod Dotenv
pub mod Load
mod Tests
use Prim.Native.String.{String}
use text.Mathlib.Text.{◌==◌ as str_eq}
use voice_flux_engine.Prelude.{
  ℕ, ◌-◌, ltb, ◌==◌, ◌&&◌, ◌||◌, not, bit_and, if◌then◌else◌, Bool, true, false, Option, none, some,
}
use voice_flux_engine.Prelude.Int.{ℤ, pos, negsuc}
use voice_flux_engine.Prelude.Result.{Result, ok, err}
use voice_flux_engine.Ring.{parse_policy, Policy, RingError}

pub record Config (F : Type 0) : Type 0 where
  pub addr : String
  pub sample_rate : ℤ
  pub channels : ℤ
  pub ingress_capacity : ℤ
  pub egress_capacity : ℤ
  pub ingress_policy : String
  pub egress_policy : String
  pub token_chan_cap : ℤ
  pub transcript_chan_cap : ℤ
  pub audio_chan_cap : ℤ
  pub hangover : ℤ
  pub min_speech : ℤ
  pub exit_threshold : F
  pub energy_threshold : F
  pub idle_timeout : ℤ
  pub asr_final_delay : ℤ
  pub llm_token_delay : ℤ
  pub llm_token_jitter : ℤ
  pub tts_frame_delay : ℤ

pub data ConfigError : Type 0 where
  empty_addr bad_sample_rate bad_channels bad_ingress_capacity bad_egress_capacity : ConfigError
  bad_ingress_policy bad_egress_policy bad_chan_caps short_hangover bad_exit_threshold : ConfigError
  bad_idle_timeout negative_delay : ConfigError

abbrev pub is_positive : ℤ → Bool
is_positive (pos n) = ltb 0 n
is_positive (negsuc n) = false

abbrev pub is_below_zero : ℤ → Bool
is_below_zero (pos n) = false
is_below_zero (negsuc n) = true

-- a < b
abbrev pub lt_int : ℤ → ℤ → Bool
lt_int (pos a) (pos b) = ltb a b
lt_int (pos a) (negsuc b) = false
lt_int (negsuc a) (pos b) = true
lt_int (negsuc a) (negsuc b) = ltb b a

abbrev pub is_power_of_two : ℤ → Bool
is_power_of_two (pos n) = ltb 0 n && (bit_and n (n - 1) == 0)
is_power_of_two (negsuc n) = false

abbrev pub is_ok : Result RingError Policy → Bool
is_ok (ok _) = true
is_ok (err _) = false

module _ {F : Type 0} (not_positive : F → Bool) (gt : F → F → Bool) where
  -- the checks of `Validate` from the detector's on
  unfoldable pub validate_rest : Config F → Option ConfigError
  validate_rest c =
      if lt_int c.hangover c.min_speech
      then some short_hangover
      else if not_positive c.exit_threshold || gt c.exit_threshold c.energy_threshold
      then some bad_exit_threshold
      else if not (is_positive c.idle_timeout)
      then some bad_idle_timeout
      else if is_below_zero c.asr_final_delay
          || (is_below_zero c.llm_token_delay
              || (is_below_zero c.llm_token_jitter || is_below_zero c.tts_frame_delay))
      then some negative_delay
      else none

  -- `Validate`; `none` is a nil error
  unfoldable pub validate : Config F → Option ConfigError
  unfolding validate_rest
  validate c =
      if str_eq c.addr ""
      then some empty_addr
      else if not (is_positive c.sample_rate)
      then some bad_sample_rate
      else if not (is_positive c.channels)
      then some bad_channels
      else if not (is_power_of_two c.ingress_capacity)
      then some bad_ingress_capacity
      else if not (is_power_of_two c.egress_capacity)
      then some bad_egress_capacity
      else if not (is_ok (parse_policy c.ingress_policy))
      then some bad_ingress_policy
      else if not (is_positive c.token_chan_cap)
          || (not (is_positive c.transcript_chan_cap) || not (is_positive c.audio_chan_cap))
      then some bad_chan_caps
      else if not (is_ok (parse_policy c.egress_policy))
      then some bad_egress_policy
      else validate_rest c
