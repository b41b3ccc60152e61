-- ===== src/Session/Build/Tests.antt =====
-- Conversations with the default configuration, over numbers as levels.
use voice_flux_engine.Prelude.{ℕ, ◌==◌, ltb, Bool, ◌≡◌, refl, none, arith}
use voice_flux_engine.Prelude.Int.{pos, negsuc}
use voice_flux_engine.Ring.{parse_policy, new, push, try_push}
use voice_flux_engine.Pool.{new_pool, fill}
use voice_flux_engine.Config.{Config, validate}
use voice_flux_engine.Config.Load.{default_config, default-valid}
use voice_flux_engine.Session.Build.{
  Conversation, made, panics, frame_bytes, make_pool, new_session,
}
use voice_flux_engine.Session.Build.Valid.{validated_conversation, IsNew}

abbrev not_positive : ℕ → Bool
not_positive x = x == 0

abbrev gt : ℕ → ℕ → Bool
gt x y = ltb y x

abbrev config : Config ℕ
config = default_config 5 10

valid : validate not_positive gt config ≡ none
valid = default-valid not_positive gt 5 10 refl refl

validated_conversation_example :
    (v : Conversation ℕ) × (new_session config (pos 20000000) "s" 1 ≡ made v)
    × IsNew config 20000000 v
unfolding default_config
validated_conversation_example =
    validated_conversation not_positive gt config 20000000 "s" 1 valid (omega arith) (omega arith)

-- a frame duration of -20 ms, which no validation refuses
abbrev small_ring : Config ℕ
small_ring = record config { ingress_capacity = pos 1 }

negative_duration :
    (validate not_positive gt small_ring ≡ none)
    × (new_session small_ring (negsuc 19999999) "s" 1 ≡ panics)
unfolding default_config validate parse_policy new_session make_pool frame_bytes new_pool fill new
    push try_push
negative_duration = (refl, refl)
