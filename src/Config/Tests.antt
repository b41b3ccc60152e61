-- ===== src/Config/Tests.antt =====
-- A configuration over numbers as levels.
use voice_flux_engine.Prelude.{ℕ, Bool, ◌≡◌, refl, ltb, ◌==◌, none, some, List, [], ◌∷◌}
use voice_flux_engine.Prelude.Int.{pos}
use voice_flux_engine.Ring.{parse_policy}
use voice_flux_engine.Config.{Config, validate, short_hangover}
use voice_flux_engine.Prelude.Bytes.{trim_left, trim_right}
use voice_flux_engine.Config.Dotenv.{unquote, entry, set_entry, load}

abbrev not_positive : ℕ → Bool
not_positive x = x == 0

abbrev gt : ℕ → ℕ → Bool
gt x y = ltb y x

abbrev config : Config ℕ
config = record {
  addr = ":8080";
  sample_rate = pos 16000;
  channels = pos 1;
  ingress_capacity = pos 64;
  egress_capacity = pos 256;
  ingress_policy = "drop_oldest";
  egress_policy = "drop_oldest";
  token_chan_cap = pos 64;
  transcript_chan_cap = pos 16;
  audio_chan_cap = pos 64;
  hangover = pos 300;
  min_speech = pos 60;
  exit_threshold = 5;
  energy_threshold = 10;
  idle_timeout = pos 30;
  asr_final_delay = pos 0;
  llm_token_delay = pos 0;
  llm_token_jitter = pos 0;
  tts_frame_delay = pos 0;
}

valid : validate not_positive gt config ≡ none
unfolding validate parse_policy
valid = refl

invalid : validate not_positive gt (record config { hangover = pos 1 }) ≡ some short_hangover
unfolding validate parse_policy
invalid = refl

-- A=1
abbrev line_a : List ℕ
line_a = b'A' ∷ b'=' ∷ b'1' ∷ []

-- export B = 'x'
abbrev line_b : List ℕ
line_b =
    b'e' ∷ b'x' ∷ b'p' ∷ b'o' ∷ b'r' ∷ b't' ∷ b' ' ∷ b'B' ∷ b' ' ∷ b'=' ∷ b' ' ∷ b'\'' ∷ b'x'
    ∷ b'\'' ∷ []

loaded :
    load (line_a ∷ line_b ∷ []) ((b'A' ∷ [], b'7' ∷ []) ∷ [])
    ≡ some ((b'B' ∷ [], b'x' ∷ []) ∷ (b'A' ∷ [], b'7' ∷ []) ∷ [])
unfolding load entry set_entry unquote trim_left trim_right
loaded = refl
