-- ===== src/Pipeline/Tests.antt =====
-- A conversation of two turns, the first of which is interrupted.
use Prim.Native.String.{String}
use voice_flux_engine.Prelude.{
  ℕ, ◌+◌, ◌==◌, ◌≤◌, ◌≡◌, refl, true, false, none, some, List, [], ◌∷◌, ◌++◌, length, suffix, arith,
}
use voice_flux_engine.Prelude.Sort.{count}
use voice_flux_engine.Pipeline.Asr.{
  PumpEvent, handed, bell, cut, pump, start, finish, listed, popped, pump-recycles,
}
use voice_flux_engine.Adapter.{AudioFrame}
use voice_flux_engine.Ring.{Ring, drop_oldest}
use voice_flux_engine.Ring.Inv.{IsValid, contents}
use voice_flux_engine.Ring.New.{made, made-IsValid}
use voice_flux_engine.Ring.Steps.{filled, filled-IsValid}
use voice_flux_engine.Edge.{Edge}
use voice_flux_engine.Pipeline.{
  Utterance, TurnStats, Handle, idle, cancelling, Pipeline, new_handle, max_history,
}
use voice_flux_engine.Pipeline.Run.{
  Event, exec, run, chain_runs, asks_barge_in, recognised, takes_barge_in, takes_final, takes_done,
  cancel_ends, token, synthesised, chain_ends,
}
use voice_flux_engine.Pipeline.History.{told, open_told, said, history_last}
use voice_flux_engine.Pipeline.Hooks.{turn_hooks, open_hooks, hooks_pair}
use voice_flux_engine.Pipeline.Turns.{all_prompts, spoken, accepted, run-prompts}
use voice_flux_engine.Pipeline.Flush.{no_frame, push_egress, drain_egress, cancel_silences}

abbrev two : Ring AudioFrame
two = made no_frame 2 drop_oldest

two-IsValid : IsValid no_frame 2 two
two-IsValid = made-IsValid no_frame 2 1 drop_oldest (omega arith) (omega arith) refl

abbrev frame : AudioFrame
frame = record { pcm = 1 ∷ 2 ∷ []; ts_us = 0 }

abbrev started : Pipeline (Edge AudioFrame)
started = record {
  phase = idle;
  history = [];
  finals = [];
  barge_in = false;
  egress = record { ring = two; bell = false };
  last = none;
  published = [];
  hooks = [];
  asked = [];
}

abbrev says : String → Utterance
says text = record { text = text; end_at = some 1; final_at = some 2 }

abbrev talk : List Event
talk =
    recognised (says "hello")
    ∷ recognised (says "")
    ∷ recognised (says "stop")
    ∷ takes_final 3
    ∷ token "well" 4
    ∷ synthesised frame 5
    ∷ asks_barge_in
    ∷ takes_barge_in 6
    ∷ chain_ends 7
    ∷ cancel_ends 8
    ∷ takes_final 9
    ∷ takes_final 10
    ∷ chain_ends 11
    ∷ takes_done 12
    ∷ []

history_last_example :
    let p' = run (push_egress 2) (drain_egress 2) 4 talk started in
    (p'.asked ≡ told [] p'.published ++ open_told p'.published p'.phase)
    × (p'.history ≡ suffix max_history (said p'.published))
    × (length p'.history ≤ max_history)
history_last_example =
    history_last (push_egress 2) (drain_egress 2) 4 talk started refl refl refl refl

hooks_pair_example :
    let p' = run (push_egress 2) (drain_egress 2) 4 talk started in
    p'.hooks ≡ turn_hooks p'.published ++ open_hooks p'.phase
hooks_pair_example = hooks_pair (push_egress 2) (drain_egress 2) 4 talk started refl refl refl

run-prompts_example :
    all_prompts
      (push_egress 2)
      (drain_egress 2)
      4
      (run (push_egress 2) (drain_egress 2) 4 talk started)
    ≡ [] ++ spoken (accepted (push_egress 2) (drain_egress 2) 4 talk started)
run-prompts_example = run-prompts (push_egress 2) (drain_egress 2) 4 talk started

abbrev waiting : Pipeline (Edge AudioFrame)
waiting = record started { finals = says "next" ∷ [] }

abbrev ended : Handle
ended = record (new_handle (says "hello") 3) { halted = true; finished = true }

abbrev cancelled : Pipeline (Edge AudioFrame)
cancelled = record started {
  phase = cancelling 6 false ended;
  egress = record { ring = filled no_frame 2 frame two; bell = true };
}

cancel_silences_example :
    let p' = exec (push_egress 2) (drain_egress 2) 4 (cancel_ends 8) cancelled in
    (p'.phase ≡ idle)
    × (chain_runs p'.phase ≡ false)
    × (contents no_frame 2 p'.egress.ring ≡ [])
    × (t : TurnStats) × (p'.last ≡ some t)
    × (t.cancelled ≡ true)
    × (t.flushed_frames ≡ 1)
cancel_silences_example =
    cancel_silences 2 4 6 8 false ended cancelled refl refl
      (filled-IsValid no_frame 2 two frame two-IsValid (omega arith)) (omega arith)

abbrev timed : TurnStats
timed = record {
  prompt = "hello";
  reply = "hi";
  utterance_end_at = some 1000;
  asr_final_at = some 2000;
  llm_start_at = some 2500;
  llm_first_token_at = some 4000;
  llm_last_token_at = some 6000;
  tts_start_at = some 4100;
  tts_first_frame_at = some 5000;
  tts_last_frame_at = some 9000;
  ended_at = some 9500;
  cancelled = false;
  flushed_frames = 0;
  barge_in_latency = 0;
}

abbrev pump_events : List (PumpEvent ℕ)
pump_events = handed 3 ∷ bell ∷ handed 4 ∷ cut 90 5 ∷ handed 6 ∷ []

pump-recycles_example :
    count (λ b. b == 5) (finish (pump pump_events start)).recycled
    ≡ count (λ b. b == 5) start.recycled
      + count (λ b. b == 5) (listed start.prev)
      + count (λ b. b == 5) (popped pump_events)
pump-recycles_example = pump-recycles (λ b. b == 5) pump_events start refl
