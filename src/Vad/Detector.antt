-- ===== src/Vad/Detector.antt =====
-- The detector against the runs of loud and quiet frames that it has heard.
use voice_flux_engine.Prelude.{
  ℕ, suc, ◌≤◌, ◌≡◌, ◌↔◌, if◌then◌else◌, Bool, true, false, List, [], ◌∷◌, arith,
}
use voice_flux_engine.Vad.{Energy, process, speech_start, speech_end}

-- how many of the newest frames pass a test
abbrev pub trailing : {L : Type 0} → (L → Bool) → List L → ℕ
trailing p [] = 0
trailing p (l ∷ hist) = if p l then suc (trailing p hist) else 0

-- A detector as `NewController` makes it.
pub record IsFresh {L : Type 0} (e : Energy L) : Type 0 where
  pub silent : e.in_speech ≡ false
  pub idle : e.run ≡ 0
  pub speech_pos : 1 ≤ e.min_speech_frames
  pub hangover_pos : 1 ≤ e.hangover_frames

-- `Exit <= Enter`, as far as the comparisons say: no frame is both loud and quiet.
module _ {L : Type 0} (ge lt : L → L → Bool) (e0 : Energy L)
    (apart : (x : L) → ge x e0.enter ≡ true → lt x e0.exit ≡ false) (fresh : IsFresh e0) where
  abbrev pub loud : L → Bool
  loud l = ge l e0.enter

  abbrev pub quiet : L → Bool
  quiet l = lt l e0.exit

  -- the detector after a list of frames, the newest first
  pub heard : List L → Energy L
  heard [] = e0
  heard (l ∷ hist) = (process ge lt l (heard hist)).1

  -- what the fields say of the frames heard
  abbrev Runs : Energy L → List L → Type 0
  Runs e hist =
      (e.enter ≡ e0.enter)
      × (e.exit ≡ e0.exit)
      × (e.min_speech_frames ≡ e0.min_speech_frames)
      × (e.hangover_frames ≡ e0.hangover_frames)
      × (e.run ≡ (if e.in_speech then trailing quiet hist else trailing loud hist))

  process-Runs :
      (e : Energy L) (l : L) (hist : List L) → Runs e hist → Runs (process ge lt l e).1 (l ∷ hist)
  unfolding process
  process-Runs e l hist r = ground (arith, apart l, fresh)

  heard-Runs : (hist : List L) → Runs (heard hist) hist
  unfolding heard
  heard-Runs [] = ground (arith, fresh)
  heard-Runs (l ∷ hist) = process-Runs (heard hist) l hist (heard-Runs hist)

  starts :
      (e : Energy L) (l : L) (hist : List L)
      → Runs e hist
      → ((process ge lt l e).0 ≡ speech_start)
        ↔ ((e.in_speech ≡ false) × (e0.min_speech_frames ≤ trailing loud (l ∷ hist)))
  unfolding process
  starts e l hist r = (ground (arith, fresh), ground (arith, fresh))

  ends :
      (e : Energy L) (l : L) (hist : List L)
      → Runs e hist
      → ((process ge lt l e).0 ≡ speech_end)
        ↔ ((e.in_speech ≡ true) × (e0.hangover_frames ≤ trailing quiet (l ∷ hist)))
  unfolding process
  ends e l hist r = (ground (arith, fresh), ground (arith, fresh))

  -- Where no level is both loud and quiet and both frame counts are positive, a detector that has
  -- heard any frames at all reports the start of speech exactly when it is outside speech and the
  -- newest `MinSpeechFrames` frames are loud, and the end exactly when it is inside speech and the
  -- newest `HangoverFrames` frames are quiet.
  pub detector_exact :
      (l : L) (hist : List L)
      → (((process ge lt l (heard hist)).0 ≡ speech_start)
          ↔ (((heard hist).in_speech ≡ false) × (e0.min_speech_frames ≤ trailing loud (l ∷ hist))))
        × (((process ge lt l (heard hist)).0 ≡ speech_end)
            ↔ (((heard hist).in_speech ≡ true) × (e0.hangover_frames ≤ trailing quiet (l ∷ hist))))
  detector_exact l hist =
      (starts (heard hist) l hist (heard-Runs hist), ends (heard hist) l hist (heard-Runs hist))
