-- ===== src/Config/Load.antt =====
-- internal/config/config.go: `Default`, `Load` and the overrides from the environment, on the fields
-- that `Config` has. Durations are nanoseconds.
use Prim.Native.String.{String}
use text.Mathlib.Text.{◌==◌ as str_eq}
use voice_flux_engine.Prelude.{
  ◌≡◌, refl, subst, if◌then◌else◌, Bool, false, Option, none, some, option_case, arith, inl, inr,
}
use voice_flux_engine.Prelude.Int.{ℤ, pos}
use voice_flux_engine.Prelude.Result.{Result, ok, err, ok-injective}
use voice_flux_engine.Ring.{parse_policy}
use voice_flux_engine.Config.{Config, ConfigError, validate}

module _ {F : Type 0} where
  -- `Default`, given its two thresholds
  unfoldable pub default_config : (exit energy : F) → Config F
  default_config exit energy = record {
    addr = ":8080";
    sample_rate = pos 16000;
    channels = pos 1;
    ingress_capacity = pos 64;
    egress_capacity = pos 64;
    ingress_policy = "drop_oldest";
    egress_policy = "drop_oldest";
    token_chan_cap = pos 32;
    transcript_chan_cap = pos 2;
    audio_chan_cap = pos 8;
    hangover = pos 300000000;
    min_speech = pos 100000000;
    exit_threshold = exit;
    energy_threshold = energy;
    idle_timeout = pos 60000000000;
    asr_final_delay = pos 0;
    llm_token_delay = pos 0;
    llm_token_jitter = pos 0;
    tts_frame_delay = pos 0;
  }

  -- `applyEnvOverrides` with the values of its variables, empty when one is not set; `atoi` is
  -- strconv.Atoi. The fields for Redis are not among those of `Config`.
  unfoldable pub apply_env_overrides :
      (atoi : String → Option ℤ) → (addr sample_rate : String) → Config F → Config F
  apply_env_overrides atoi addr rate c =
      let c' : Config F = if str_eq addr "" then c else record c { addr = addr } in
      if str_eq rate ""
      then c'
      else elim (atoi rate) [ none ↦ c' | some n ↦ record c' { sample_rate = n } ]

module _ {F : Type 0} (not_positive : F → Bool) (gt : F → F → Bool) where
  -- The default configuration is valid when its thresholds are.
  pub default-valid :
      (exit energy : F)
      → not_positive exit ≡ false
      → gt exit energy ≡ false
      → validate not_positive gt (default_config exit energy) ≡ none
  unfolding validate default_config parse_policy
  default-valid exit energy h k = rw (h, k) refl

pub data LoadError : Type 0 where
  not_read not_parsed : LoadError
  invalid : ConfigError → LoadError

module _ {F D : Type 0} (not_positive : F → Bool) (gt : F → F → Bool) where
  -- `Load`: `read` is the file's content, `unmarshal` the YAML decoder, which writes over a
  -- configuration
  unfoldable pub load_config :
      (read : Option D)
      → (unmarshal : D → Config F → Option (Config F)) → (atoi : String → Option ℤ)
      → (addr sample_rate : String) → (exit energy : F) → Result LoadError (Config F)
  load_config none unmarshal atoi addr rate exit energy = err not_read
  load_config (some d) unmarshal atoi addr rate exit energy =
      elim (unmarshal d (default_config exit energy)) [
        | none ↦ err not_parsed
        | some c ↦
            let c' = apply_env_overrides atoi addr rate c in
            elim (validate not_positive gt c') [ none ↦ ok c' | some e ↦ err (invalid e) ]
      ]

  -- A configuration that `Load` returns has passed its validation.
  pub load_config-valid :
      (read : Option D)
      → (unmarshal : D → Config F → Option (Config F)) → (atoi : String → Option ℤ)
      → (addr rate : String) → (exit energy : F) → (c : Config F)
      → load_config read unmarshal atoi addr rate exit energy ≡ ok c
      → validate not_positive gt c ≡ none
  unfolding load_config
  load_config-valid none unmarshal atoi addr rate exit energy c h = absurd (ground arith)
  load_config-valid (some d) unmarshal atoi addr rate exit energy c h =
      elim (option_case (unmarshal d (default_config exit energy)) (err not_parsed) (ok c)
        (λ x.
          elim (validate not_positive gt (apply_env_overrides atoi addr rate x))
            as (λ _. Result LoadError (Config F)) [
              | none ↦ ok (apply_env_overrides atoi addr rate x)
              | some e ↦ err (invalid e)
            ])
        h) [
          | inl (e, h') ↦ absurd (ground arith)
          | inr (x, e, h') ↦
              let x' = apply_env_overrides atoi addr rate x in
              elim (option_case (validate not_positive gt x') (ok x') (ok c) (λ e. err (invalid e))
                h') [
                  | inl (v, k) ↦ subst (λ y. validate not_positive gt y ≡ none) (ok-injective k) v
                  | inr (f, v, k) ↦ absurd (ground arith)
                ]
        ]
