-- ===== src/Pipeline.antt =====
-- internal/pipeline/pipeline.go and turn.go: the orchestrator of one conversation and the response
-- chain of the turn in hand. Times are nanoseconds; `none` is Go's zero time.
pub mod Run
pub mod History
pub mod Hooks
pub mod Turns
pub mod Flush
pub mod Latency
pub mod Asr
pub mod Build
mod Tests
use Prim.Native.String.{String, ◌++◌ as append}
use text.Mathlib.Text.{◌==◌ as str_eq}
use voice_flux_engine.Prelude.{
  ℕ, ◌+◌, ◌-◌, ltb, if◌then◌else◌, Bool, true, false, Option, none, some, List, [], ◌∷◌, ◌++◌,
  length, drop,
}
use voice_flux_engine.Adapter.{AudioFrame, Role, user, assistant, Message, Turn}

pub record Utterance : Type 0 where
  pub text : String
  pub end_at : Option ℕ
  pub final_at : Option ℕ

pub record TurnStats : Type 0 where
  pub prompt : String
  pub reply : String
  pub utterance_end_at : Option ℕ
  pub asr_final_at : Option ℕ
  pub llm_start_at : Option ℕ
  pub llm_first_token_at : Option ℕ
  pub llm_last_token_at : Option ℕ
  pub tts_start_at : Option ℕ
  pub tts_first_frame_at : Option ℕ
  pub tts_last_frame_at : Option ℕ
  pub ended_at : Option ℕ
  pub cancelled : Bool
  pub flushed_frames : ℕ
  pub barge_in_latency : ℕ

-- `reply` is the builder of the forwarder, `halted` whether the turn's context is cancelled, and
-- `finished` whether `done` is closed.
pub record Handle : Type 0 where
  pub stats : TurnStats
  pub reply : String
  pub halted : Bool
  pub failed : Bool
  pub finished : Bool

-- Where `Run` stands: `cancelling` is inside `cancelTurn`, begun at a time, and returns from `Run`
-- afterwards or not.
pub data Phase : Type 0 where
  idle : Phase
  running : Handle → Phase
  cancelling : ℕ → Bool → Handle → Phase
  returned : Phase

-- calls of `OnTurnStart` and `OnTurnEnd`
pub data Hook : Type 0 where
  turn_start : Hook
  turn_end : Bool → Hook

-- `asked` are the turns given to the model, `published` the calls of `OnTurnStats`.
pub record Pipeline (E : Type 0) : Type 0 where
  pub phase : Phase
  pub history : List Message
  pub finals : List Utterance
  pub barge_in : Bool
  pub egress : E
  pub last : Option TurnStats
  pub published : List TurnStats
  pub hooks : List Hook
  pub asked : List Turn

abbrev pub max_history : ℕ
max_history = 16

abbrev pub exchange : String → String → List Message
exchange prompt reply =
    record { role = user; text = prompt } ∷ record { role = assistant; text = reply } ∷ []

unfoldable pub append_history : String → String → List Message → List Message
append_history prompt reply history =
    let longer = history ++ exchange prompt reply in
    if ltb max_history (length longer) then drop (length longer - max_history) longer else longer

abbrev pub first_time : Option ℕ → ℕ → Option ℕ
first_time none now = some now
first_time (some t) now = some t

unfoldable pub new_handle : Utterance → ℕ → Handle
new_handle u now = record {
  stats = record {
    prompt = u.text;
    reply = "";
    utterance_end_at = u.end_at;
    asr_final_at = u.final_at;
    llm_start_at = some now;
    llm_first_token_at = none;
    llm_last_token_at = none;
    tts_start_at = none;
    tts_first_frame_at = none;
    tts_last_frame_at = none;
    ended_at = none;
    cancelled = false;
    flushed_frames = 0;
    barge_in_latency = 0;
  };
  reply = "";
  halted = false;
  failed = false;
  finished = false;
}

-- the forwarder gets a token
unfoldable pub on_token : String → ℕ → Handle → Handle
on_token text now h = record h {
  stats = record h.stats {
    llm_first_token_at = first_time h.stats.llm_first_token_at now;
    llm_last_token_at = some now;
  };
  reply = append h.reply text;
}

-- it hands the token to the synthesis
unfoldable pub on_handed : ℕ → Handle → Handle
on_handed now h = record h {
  stats = record h.stats { tts_start_at = first_time h.stats.tts_start_at now };
}

-- the egress pump has pushed a frame
unfoldable pub on_synthesised : ℕ → Handle → Handle
on_synthesised now h = record h {
  stats = record h.stats {
    tts_first_frame_at = first_time h.stats.tts_first_frame_at now;
    tts_last_frame_at = some now;
  };
}

-- a stage fails with an error that is no cancellation
unfoldable pub on_failure : Handle → Handle
on_failure h = record h { failed = true; halted = true }

-- all four goroutines have ended
unfoldable pub on_finished : ℕ → Handle → Handle
on_finished now h = record h {
  stats = record h.stats { reply = h.reply; ended_at = some now };
  finished = true;
}

-- whether `Run` goes on
abbrev pub after_cancel : Bool → Phase
after_cancel true = returned
after_cancel false = idle

module _ {E : Type 0} where
  unfoldable pub publish : TurnStats → Pipeline E → Pipeline E
  publish t p = record p { last = some t; published = p.published ++ t ∷ [] }

  -- `startTurn`, with the history copied for the model
  unfoldable pub start_turn : Utterance → ℕ → Pipeline E → Pipeline E
  unfolding new_handle
  start_turn u now p = record p {
    phase = running (new_handle u now);
    asked = p.asked ++ record { prompt = u.text; history = p.history } ∷ [];
    hooks = p.hooks ++ turn_start ∷ [];
  }

  -- `finishTurn` once `done` is closed
  unfoldable pub finish_turn : Handle → Pipeline E → Pipeline E
  unfolding publish append_history
  finish_turn h p =
      let p' =
        publish h.stats
          (record p { history = append_history h.stats.prompt h.stats.reply p.history }) in
      record p' { phase = idle; hooks = p'.hooks ++ turn_end false ∷ [] }

  -- `cancelTurn` up to the wait for `done`
  unfoldable pub cancel_begin : ℕ → Bool → Handle → Pipeline E → Pipeline E
  cancel_begin now leave h p = record p {
    phase = cancelling now leave (record h { halted = true });
  }

  module _ (drain_egress : E → ℕ × E) where
    -- and after it
    unfoldable pub cancel_finish : ℕ → Bool → ℕ → Handle → Pipeline E → Pipeline E
    unfolding publish append_history
    cancel_finish begin leave now h p =
        let (flushed, out) = drain_egress p.egress in
        let t = record h.stats {
          cancelled = true;
          flushed_frames = flushed;
          barge_in_latency = now - begin;
        } in
        let p' =
          publish t
            (record p { egress = out; history = append_history t.prompt t.reply p.history }) in
        record p' { phase = after_cancel leave; hooks = p'.hooks ++ turn_end true ∷ [] }
