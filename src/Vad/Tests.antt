-- ===== src/Vad/Tests.antt =====
-- A detector over numbers as levels, and a conversation with an interruption.
use voice_flux_engine.Prelude.{
  ℕ, ◌≤◌, ◌≡◌, ◌↔◌, refl, leb, ltb, Bool, true, false, List, [], ◌∷◌, arith,
}
use voice_flux_engine.Prelude.Int.{pos}
use voice_flux_engine.Vad.{
  Energy, process, feed, speech_start, speech_end, Machine, new_machine, responding_agent, apply,
  Controller, push_audio, end_utterance, barge_in, ingest, duration_frames,
}
use voice_flux_engine.Vad.Detector.{IsFresh, heard, trailing, detector_exact}
use voice_flux_engine.Vad.Joint.{Input, frame, started, run, frames_never_illegal, Agree, handle}

abbrev ge : ℕ → ℕ → Bool
ge a b = leb b a

abbrev detector : Energy ℕ
detector = record {
  enter = 10;
  exit = 5;
  min_speech_frames = 2;
  hangover_frames = 3;
  in_speech = false;
  run = 0;
}

abbrev controller : Controller ℕ
controller = record { det = detector; machine = new_machine }

fresh : IsFresh detector
fresh = record { silent = refl; idle = refl; speech_pos = omega arith; hangover_pos = omega arith }

apart : (x : ℕ) → ge x 10 ≡ true → ltb x 5 ≡ false
apart x h = ground arith

detector_exact_example :
    (((process ge ltb 12 (heard ge ltb detector apart fresh (11 ∷ 3 ∷ []))).0 ≡ speech_start) ↔ (
      ((heard ge ltb detector apart fresh (11 ∷ 3 ∷ [])).in_speech ≡ false)
      × (2 ≤ trailing (λ l. ge l 10) (12 ∷ 11 ∷ 3 ∷ []))))
    × (((process ge ltb 12 (heard ge ltb detector apart fresh (11 ∷ 3 ∷ []))).0 ≡ speech_end) ↔ (
        ((heard ge ltb detector apart fresh (11 ∷ 3 ∷ [])).in_speech ≡ true)
        × (3 ≤ trailing (λ l. ltb l 5) (12 ∷ 11 ∷ 3 ∷ []))))
detector_exact_example = detector_exact ge ltb detector apart fresh 12 (11 ∷ 3 ∷ [])

durations : duration_frames (pos 100) (pos 20) ≡ 5
unfolding duration_frames
durations = refl

abbrev answering : Machine
answering = record { state = responding_agent; illegal = 0 }

-- two loud frames, three quiet ones, an answer, and two loud frames over it
abbrev talk : List (Input ℕ)
talk = frame 20 ∷ frame 21 ∷ frame 1 ∷ frame 2 ∷ frame 3 ∷ started ∷ frame 30 ∷ frame 31 ∷ []

talk_calls :
    (run ge ltb (λ f. f) talk controller).0
    ≡ push_audio 20
      ∷ push_audio 21
      ∷ push_audio 1
      ∷ push_audio 2
      ∷ end_utterance
      ∷ push_audio 3
      ∷ push_audio 30
      ∷ barge_in
      ∷ push_audio 31
      ∷ []
unfolding run handle ingest feed process apply
talk_calls = refl

frames_never_illegal_example :
    let now = (run ge ltb (λ (f : ℕ). f) talk controller).1 in
    ((ingest ge ltb (λ (f : ℕ). f) 40 now).1.machine.illegal ≡ now.machine.illegal)
    × Agree ge ltb (λ (f : ℕ). f) (ingest ge ltb (λ (f : ℕ). f) 40 now).1
frames_never_illegal_example = frames_never_illegal ge ltb (λ f. f) talk controller 40 refl
