-- ===== src/Adapter/Mock/Streams.antt =====
-- What the stand-ins of mock.go for recognition and synthesis send.
use Prim.Native.String.{String}
use voice_flux_engine.Prelude.{
  ℕ, zero, suc, ◌+◌, ◌*◌, ◌/◌, ◌%◌, ◌<◌, ◌≤◌, ◌≡◌, refl, sym, subst, ap, ap₂, ◌∙◌, ltb, ◌==◌, ◌&&◌,
  if◌then◌else◌, if-true, if-false, true, false, Bool-cases, some, List, [], ◌∷◌, ◌++◌, take,
  length, length-append, length-replicate, arith, inl, inr,
}
use voice_flux_engine.Adapter.{AudioFrame, Transcript}
use voice_flux_engine.Adapter.Framer.{second, Cut}
use voice_flux_engine.Adapter.Mock.{
  join_words, mock_asr, mock_frames, frames_of, mock_stream, mock_tts,
}

abbrev pub last_stamp : ℕ → List ℕ → ℕ
last_stamp ts [] = ts
last_stamp ts (t ∷ rest) = last_stamp t rest

-- no final transcript
abbrev pub Partial : List Transcript → Type 0
Partial [] = Unit
Partial (t ∷ ts) = (t.final ≡ false) × Partial ts

-- The recogniser sends exactly one final transcript, as its last: the script, with the time stamp of
-- the last frame. Before it come at most as many partial ones as the script has words left.
pub mock_asr-final :
    (script : String) (words : List String) (every frames emitted ts : ℕ) (stamps : List ℕ)
    → emitted ≤ length words
    → (partials : List Transcript) × (mock_asr script words every frames emitted ts stamps
        ≡ partials ++ record { text = script; final = true; ts_us = last_stamp ts stamps } ∷ [])
      × Partial partials
      × (emitted + length partials ≤ length words)
unfolding mock_asr
mock_asr-final script words every frames emitted ts [] h = ([], refl, tt, omega arith)
mock_asr-final script words every frames emitted ts (t ∷ rest) h =
    elim (Bool-cases (ltb 0 every && (((frames + 1) % every == 0) && ltb emitted (length words)))) [
      | inl c ↦
          let (ps, e, p, l) =
            mock_asr-final script words every (frames + 1) (emitted + 1) t rest (ground arith) in
          let t' : Transcript = record {
            text = join_words (take (emitted + 1) words);
            final = false;
            ts_us = t;
          } in
          (t' ∷ ps, if-true _ _ c ∙ ap (◌∷◌ t') e, (refl, p), omega arith)
      | inr c ↦
          let (ps, e, p, l) = mock_asr-final script words every (frames + 1) emitted t rest h in
          (ps, if-false _ _ c ∙ e, p, l)
    ]

Cut-append :
    (n rate step total : ℕ) (fs gs : List AudioFrame)
    → Cut n rate step total fs
    → Cut n rate step (total + length fs * step) gs
    → Cut n rate step total (fs ++ gs)
Cut-append n rate step total [] gs c d =
    let e : total + 0 * step ≡ total = omega arith in subst (λ t. Cut n rate step t gs) e d
Cut-append n rate step total (f ∷ fs) gs (a, b, c) d =
    let e : total + suc (length fs) * step ≡ total + step + length fs * step = grind arith in
    (a, b, Cut-append n rate step (total + step) fs gs c (subst (λ t. Cut n rate step t gs) e d))

mock_frames-Cut :
    (rate step n total : ℕ)
    → Cut (step * 2) rate step total (mock_frames rate step n total)
      × (length (mock_frames rate step n total) ≡ n)
unfolding mock_frames
mock_frames-Cut rate step zero total = (tt, refl)
mock_frames-Cut rate step (suc n) total =
    let (c, l) = mock_frames-Cut rate step n (total + step) in
    ((length-replicate (step * 2) 0, refl, c), ap suc l)

abbrev pub frame_total : (frame_duration ms_per_rune : ℕ) → List (List ℕ) → ℕ
frame_total frame_duration ms_per_rune [] = 0
frame_total frame_duration ms_per_rune (t ∷ ts) =
    frames_of frame_duration ms_per_rune (length t) + frame_total frame_duration ms_per_rune ts

mock_stream-Cut :
    (rate duration ms total : ℕ) (ts : List (List ℕ))
    → let step = rate * duration / second in
      Cut (step * 2) rate step total (mock_stream rate duration ms total ts)
      × (length (mock_stream rate duration ms total ts) ≡ frame_total duration ms ts)
unfolding mock_stream
mock_stream-Cut rate duration ms total [] = (tt, refl)
mock_stream-Cut rate duration ms total (t ∷ ts) =
    let step = rate * duration / second in
    let n = frames_of duration ms (length t) in
    let (c, l) = mock_frames-Cut rate step n total in
    let (d, k) = mock_stream-Cut rate duration ms (total + n * step) ts in
    let fs = mock_frames rate step n total in
    let gs = mock_stream rate duration ms (total + n * step) ts in
    (
      Cut-append (step * 2) rate step total fs gs c
          (subst (λ m. Cut (step * 2) rate step (total + m * step) gs) (sym l) d),
      length-append fs gs ∙ ap₂ ◌+◌ l k,
    )

-- The synthesiser, at a positive rate and frame duration, sends silent frames of one length whose
-- times run on from zero by the sample clock, across the tokens; each token has the frames that its
-- runes take at the rate of speech, rounded up.
pub mock_tts-Cut :
    (rate duration ms : ℕ) (ts : List (List ℕ))
    → 0 < rate
    → 0 < duration
    → let step = rate * duration / second in
      let pace = if ltb 0 ms then ms else 60 in
      (frames : List AudioFrame) × (mock_tts rate duration ms ts ≡ some frames)
      × Cut (step * 2) rate step 0 frames
      × (length frames ≡ frame_total duration pace ts)
unfolding mock_tts
mock_tts-Cut rate duration ms ts h k =
    let pace = if ltb 0 ms then ms else 60 in
    let c : (ltb 0 rate && ltb 0 duration) ≡ true = ground arith in
    let (d, l) = mock_stream-Cut rate duration pace 0 ts in
    (mock_stream rate duration pace 0 ts, if-true _ _ c, d, l)
