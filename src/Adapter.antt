-- ===== src/Adapter.antt =====
-- internal/adapter/adapter.go: the values that cross the adapter boundary.
pub mod Framer
pub mod Sentence
pub mod Mock
pub mod Registry
pub mod Chat
pub mod Sherpa
mod Tests
use voice_flux_engine.Prelude.{ℕ, Bool, List}
use Prim.Native.String.{String}

pub record AudioFrame : Type 0 where
  pub pcm : List ℕ
  pub ts_us : ℕ

pub record Transcript : Type 0 where
  pub text : String
  pub final : Bool
  pub ts_us : ℕ

pub data Role : Type 0 where
  system user assistant : Role

pub record Message : Type 0 where
  pub role : Role
  pub text : String

pub record Turn : Type 0 where
  pub prompt : String
  pub history : List Message
