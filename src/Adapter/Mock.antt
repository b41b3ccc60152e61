-- ===== src/Adapter/Mock.antt =====
-- internal/adapter/mock.go: the stand-ins for the models, when no wait and no send is cancelled. A
-- text of the language model is the list of its runes; durations are nanoseconds.
pub mod Streams
use Prim.Native.String.{String, ◌++◌ as append}
use voice_flux_engine.Prelude.{
  ℕ, zero, suc, ◌+◌, ◌-◌, ◌*◌, ◌/◌, ◌%◌, ◌<◌, ◌≤◌, ◌≡◌, ◌≢◌, refl, sym, subst, ap, ◌∙◌, ltb, leb,
  ◌==◌, ◌&&◌, if◌then◌else◌, if-true, if-false, Bool, true, false, Bool-cases, Option, none, some,
  List, [], ◌∷◌, ◌++◌, append-nil, append_assoc, length, length-replicate, take, replicate, arith,
  inl, inr,
}
use voice_flux_engine.Adapter.{AudioFrame, Transcript}
use voice_flux_engine.Adapter.Framer.{second, Cut}
use voice_flux_engine.Adapter.Sentence.{joined}

abbrev pub space : ℕ
space = 32

abbrev pub has_space : List ℕ → Bool
has_space [] = false
has_space (c ∷ cs) = if c == space then true else has_space cs

-- `strings.SplitAfter(text, " ")`, with what has been read of the part
unfoldable pub split_after : List ℕ → List ℕ → List (List ℕ)
split_after part [] = part ∷ []
split_after part (c ∷ cs) =
    let cut = split_after [] cs in
    let on = split_after (part ++ c ∷ []) cs in if c == space then (part ++ c ∷ []) ∷ cut else on

unfoldable pub drop_empty : List (List ℕ) → List (List ℕ)
drop_empty [] = []
drop_empty ([] ∷ ts) = drop_empty ts
drop_empty ((c ∷ cs) ∷ ts) = (c ∷ cs) ∷ drop_empty ts

-- the loop over three runes at a time
unfoldable pub by_three : List ℕ → List (List ℕ)
by_three [] = []
by_three (a ∷ []) = (a ∷ []) ∷ []
by_three (a ∷ b ∷ []) = (a ∷ b ∷ []) ∷ []
by_three (a ∷ b ∷ c ∷ cs) = (a ∷ b ∷ c ∷ []) ∷ by_three cs

unfoldable pub tokenize : List ℕ → List (List ℕ)
tokenize text = if has_space text then drop_empty (split_after [] text) else by_three text

-- e c h o : and a space
abbrev pub echo : List ℕ
echo = 101 ∷ 99 ∷ 104 ∷ 111 ∷ 58 ∷ 32 ∷ []

-- `MockLLM.Stream`: the tokens sent
unfoldable pub mock_llm : (reply prompt : List ℕ) → List (List ℕ)
mock_llm [] prompt = tokenize (echo ++ prompt)
mock_llm (c ∷ reply) prompt = tokenize (c ∷ reply)

abbrev pub join_words : List String → String
join_words [] = ""
join_words (w ∷ []) = w
join_words (w ∷ v ∷ ws) = append w (append " " (join_words (v ∷ ws)))

-- `MockASR.Stream` on the time stamps of the frames up to the end of its input. `words` are the fields
-- of the script.
unfoldable pub mock_asr :
    (script : String) (words : List String) (partial_every frames emitted last_ts : ℕ)
    → List ℕ
    → List Transcript
mock_asr script words every frames emitted last_ts [] =
    record { text = script; final = true; ts_us = last_ts } ∷ []
mock_asr script words every frames emitted last_ts (ts ∷ rest) =
    let more = mock_asr script words every (frames + 1) (emitted + 1) ts rest in
    let same = mock_asr script words every (frames + 1) emitted ts rest in
    if ltb 0 every && (((frames + 1) % every == 0) && ltb emitted (length words))
    then record { text = join_words (take (emitted + 1) words); final = false; ts_us = ts } ∷ more
    else same

-- the frames of a token, from a sample position on
unfoldable pub mock_frames : (rate per_frame count total : ℕ) → List AudioFrame
mock_frames rate per_frame zero total = []
mock_frames rate per_frame (suc n) total =
    record { pcm = replicate (per_frame * 2) 0; ts_us = total * 1000000 / rate }
    ∷ mock_frames rate per_frame n (total + per_frame)

-- how many frames `n` runes take, rounded up
abbrev pub frames_of : (frame_duration ms_per_rune n : ℕ) → ℕ
frames_of frame_duration ms_per_rune n =
    (n * ms_per_rune * 1000000 + frame_duration - 1) / frame_duration

unfoldable pub mock_stream :
    (rate frame_duration ms_per_rune total : ℕ) → List (List ℕ) → List AudioFrame
mock_stream rate frame_duration ms_per_rune total [] = []
mock_stream rate frame_duration ms_per_rune total (t ∷ ts) =
    let per_frame = rate * frame_duration / second in
    let n = frames_of frame_duration ms_per_rune (length t) in
    mock_frames rate per_frame n total
    ++ mock_stream rate frame_duration ms_per_rune (total + n * per_frame) ts

-- `MockTTS.Stream`; `none` is its error
unfoldable pub mock_tts :
    (rate frame_duration ms_per_rune : ℕ) → List (List ℕ) → Option (List AudioFrame)
mock_tts rate frame_duration ms_per_rune ts =
    if ltb 0 rate && ltb 0 frame_duration
    then some (mock_stream rate frame_duration (if ltb 0 ms_per_rune then ms_per_rune else 60) 0 ts)
    else none

split_after-joined : (part cs : List ℕ) → joined (split_after part cs) ≡ part ++ cs
unfolding split_after
split_after-joined part [] = refl
split_after-joined part (c ∷ cs) = elim (Bool-cases (c == space)) [
  | inl e ↦
      rw e (
        ap (λ xs. (part ++ c ∷ []) ++ xs) (split_after-joined [] cs)
        ∙ append_assoc part (c ∷ []) cs)
  | inr e ↦ rw e (split_after-joined (part ++ c ∷ []) cs ∙ append_assoc part (c ∷ []) cs)
]

drop_empty-joined : (ts : List (List ℕ)) → joined (drop_empty ts) ≡ joined ts
unfolding drop_empty
drop_empty-joined [] = refl
drop_empty-joined ([] ∷ ts) = drop_empty-joined ts
drop_empty-joined ((c ∷ cs) ∷ ts) = ap (λ xs. c ∷ cs ++ xs) (drop_empty-joined ts)

by_three-joined : (cs : List ℕ) → joined (by_three cs) ≡ cs
unfolding by_three
by_three-joined [] = refl
by_three-joined (a ∷ []) = refl
by_three-joined (a ∷ b ∷ []) = refl
by_three-joined (a ∷ b ∷ c ∷ cs) = ap (λ xs. a ∷ b ∷ c ∷ xs) (by_three-joined cs)

abbrev pub NoneEmpty : List (List ℕ) → Type 0
NoneEmpty [] = Unit
NoneEmpty (t ∷ ts) = (0 < length t) × NoneEmpty ts

drop_empty-NoneEmpty : (ts : List (List ℕ)) → NoneEmpty (drop_empty ts)
unfolding drop_empty
drop_empty-NoneEmpty [] = tt
drop_empty-NoneEmpty ([] ∷ ts) = drop_empty-NoneEmpty ts
drop_empty-NoneEmpty ((c ∷ cs) ∷ ts) = (omega arith, drop_empty-NoneEmpty ts)

by_three-NoneEmpty : (cs : List ℕ) → NoneEmpty (by_three cs)
unfolding by_three
by_three-NoneEmpty [] = tt
by_three-NoneEmpty (a ∷ []) = (omega arith, tt)
by_three-NoneEmpty (a ∷ b ∷ []) = (omega arith, tt)
by_three-NoneEmpty (a ∷ b ∷ c ∷ cs) = (omega arith, by_three-NoneEmpty cs)

-- The tokens of a text make up the text, and none is empty.
pub tokenize-joined : (text : List ℕ) → (joined (tokenize text) ≡ text) × NoneEmpty (tokenize text)
unfolding tokenize
tokenize-joined text = elim (Bool-cases (has_space text)) [
  | inl e ↦ rw e (
    drop_empty-joined (split_after [] text) ∙ split_after-joined [] text,
    drop_empty-NoneEmpty (split_after [] text),
  )
  | inr e ↦ rw e (by_three-joined text, by_three-NoneEmpty text)
]
