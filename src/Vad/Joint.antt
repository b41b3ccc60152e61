-- ===== src/Vad/Joint.antt =====
-- The controller: detector and machine together, fed by frames and by the life of the responses.
use voice_flux_engine.Prelude.{
  ◌≡◌, refl, ap, if◌then◌else◌, Bool, true, false, List, [], ◌∷◌, ◌++◌, arith,
}
use voice_flux_engine.Vad.{
  State, speaking_user, thinking, responding_agent, nothing, speech_start, speech_end,
  response_started, response_done, apply, process, Controller, SinkCall, push_audio, end_utterance,
  barge_in, feed, ingest,
}

-- what reaches a controller: a frame, or the turn hooks of the pipeline
pub data Input (F : Type 0) : Type 0 where
  frame : F → Input F
  started done : Input F

abbrev pub is_speaking : State → Bool
is_speaking speaking_user = true
is_speaking _ = false

abbrev pub is_answering : State → Bool
is_answering thinking = true
is_answering responding_agent = true
is_answering _ = false

-- the calls that hand audio on
abbrev pub pushed : {F : Type 0} → List (SinkCall F) → List F
pushed [] = []
pushed (push_audio f ∷ calls) = f ∷ pushed calls
pushed (_ ∷ calls) = pushed calls

abbrev pub frames : {F : Type 0} → List (Input F) → List F
frames [] = []
frames (frame f ∷ ins) = f ∷ frames ins
frames (_ ∷ ins) = frames ins

module _ {L F : Type 0} (ge lt : L → L → Bool) (level : F → L) where
  -- Detector and machine agree on whether the user speaks.
  abbrev pub Agree : Controller L → Type 0
  Agree c = is_speaking c.machine.state ≡ c.det.in_speech

  unfoldable pub handle : Input F → Controller L → List (SinkCall F) × Controller L
  handle (frame f) c = ingest ge lt level f c
  handle started c = feed response_started c
  handle done c = feed response_done c

  unfoldable pub run : List (Input F) → Controller L → List (SinkCall F) × Controller L
  run [] c = ([], c)
  run (i ∷ ins) c =
      let (calls, c') = handle i c in let (more, c'') = run ins c' in (calls ++ more, c'')

  handle-Agree : (i : Input F) (c : Controller L) → Agree c → Agree (handle i c).1
  unfolding handle ingest feed apply process
  handle-Agree (frame f) c a = ground arith
  handle-Agree started c a = ground arith
  handle-Agree done c a = ground arith

  run-Agree : (ins : List (Input F)) (c : Controller L) → Agree c → Agree (run ins c).1
  unfolding run
  run-Agree [] c a = a
  run-Agree (i ∷ ins) c a = run-Agree ins (handle i c).1 (handle-Agree i c a)

  ingest-legal :
      (f : F) (c : Controller L)
      → Agree c
      → ((ingest ge lt level f c).1.machine.illegal ≡ c.machine.illegal)
  unfolding ingest feed apply process
  ingest-legal f c a = ground arith

  ingest-calls :
      (f : F) (c : Controller L)
      → Agree c
      → let ev = (process ge lt (level f) c.det).0 in
        let calls = (ingest ge lt level f c).0 in
        (ev ≡ nothing → calls ≡ push_audio f ∷ [])
        × (ev ≡ speech_end → calls ≡ end_utterance ∷ push_audio f ∷ [])
        × (ev ≡ speech_start
            → calls ≡ (
                if is_answering c.machine.state
                then barge_in ∷ push_audio f ∷ []
                else push_audio f ∷ []))
  unfolding ingest feed apply process
  ingest-calls f c a = (ground arith, ground arith, ground arith)

  -- A controller whose two halves agree at the start, as they do in a new one, never sends an event
  -- of the detector that the machine rejects, after any frames and turns: a frame leaves the count
  -- of illegal events alone, and the halves agree again.
  pub frames_never_illegal :
      (ins : List (Input F)) (c : Controller L) (f : F)
      → Agree c
      → let now = (run ins c).1 in
        ((ingest ge lt level f now).1.machine.illegal ≡ now.machine.illegal)
        × Agree (ingest ge lt level f now).1
  frames_never_illegal ins c f a =
      let b = run-Agree ins c a in
      (ingest-legal f (run ins c).1 b, unfold handle in handle-Agree (frame f) (run ins c).1 b)

  -- After any history of a controller whose halves agree, a frame at which the detector reports
  -- nothing is only handed on; one that ends speech submits the utterance first, once; and one that
  -- starts speech cancels the answer first exactly when one is pending or playing.
  pub frame_calls :
      (ins : List (Input F)) (c : Controller L) (f : F)
      → Agree c
      → let now = (run ins c).1 in
        let ev = (process ge lt (level f) now.det).0 in
        let calls = (ingest ge lt level f now).0 in
        (ev ≡ nothing → calls ≡ push_audio f ∷ [])
        × (ev ≡ speech_end → calls ≡ end_utterance ∷ push_audio f ∷ [])
        × (ev ≡ speech_start
            → calls ≡ (
                if is_answering now.machine.state
                then barge_in ∷ push_audio f ∷ []
                else push_audio f ∷ []))
  frame_calls ins c f a = ingest-calls f (run ins c).1 (run-Agree ins c a)

  pub pushed-append : (xs ys : List (SinkCall F)) → pushed (xs ++ ys) ≡ pushed xs ++ pushed ys
  pushed-append [] ys = refl
  pushed-append (push_audio f ∷ xs) ys = ap (◌∷◌ f) (pushed-append xs ys)
  pushed-append (end_utterance ∷ xs) ys = pushed-append xs ys
  pushed-append (barge_in ∷ xs) ys = pushed-append xs ys

  frames-cons :
      (i : Input F) (ins : List (Input F)) → frames (i ∷ ins) ≡ frames (i ∷ []) ++ frames ins
  frames-cons (frame f) ins = refl
  frames-cons started ins = refl
  frames-cons done ins = refl

  pushed-handle : (i : Input F) (c : Controller L) → pushed (handle i c).0 ≡ frames (i ∷ [])
  unfolding handle ingest feed apply process
  pushed-handle (frame f) c = ground arith
  pushed-handle started c = ground arith
  pushed-handle done c = ground arith

  -- Every frame is handed to the sink once and in order, whatever is detected and rejected.
  pub run-pushed : (ins : List (Input F)) (c : Controller L) → pushed (run ins c).0 ≡ frames ins
  unfolding run
  run-pushed [] c = refl
  run-pushed (i ∷ ins) c = rw (
    pushed-append (handle i c).0 (run ins (handle i c).1).0,
    pushed-handle i c,
    run-pushed ins (handle i c).1,
    frames-cons i ins,
  )

  -- a frame alone
  pub pushed-ingest : (f : F) (c : Controller L) → pushed (ingest ge lt level f c).0 ≡ f ∷ []
  unfolding ingest feed apply process
  pushed-ingest f c = ground arith
