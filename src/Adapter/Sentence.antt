-- ===== src/Adapter/Sentence.antt =====
-- internal/adapter: `EndsSentence` of ttsframe.go, and the loop of openaitts/openaitts.go and
-- sherpa/tts.go that gathers tokens into sentences. A text is the list of its runes.
use voice_flux_engine.Prelude.{
  ℕ, ◌≡◌, refl, sym, ap, ◌∙◌, leb, ◌==◌, ◌&&◌, ◌||◌, if◌then◌else◌, if-true, if-false, Bool, true,
  false, Bool-cases, Option, none, some, List, [], ◌∷◌, ◌++◌, map, append_assoc, inl, inr,
}
use voice_flux_engine.Prelude.Result.{Result, ok, err, ◌>>=◌}

-- space or tab
abbrev pub is_blank : ℕ → Bool
is_blank c = (c == 32) || (c == 9)

-- the runes of unicode.IsSpace
abbrev pub is_space : ℕ → Bool
is_space c =
    (leb 9 c && leb c 13)
    || ((c == 32)
        || ((c == 0x85)
            || ((c == 0xA0)
                || ((c == 0x1680)
                    || ((leb 0x2000 c && leb c 0x200a)
                        || ((c == 0x2028)
                            || ((c == 0x2029)
                                || ((c == 0x202f) || ((c == 0x205f) || (c == 0x3000))))))))))

-- . ! ? ; and the end of a line, and 。 ！ ？ ；
abbrev pub is_stop : ℕ → Bool
is_stop c =
    (c == 46)
    || ((c == 33)
        || ((c == 63)
            || ((c == 59)
                || ((c == 10)
                    || ((c == 0x3002) || ((c == 0xFF01) || ((c == 0xFF1F) || (c == 0xFF1B))))))))

-- whether the last rune that is not blank is a stop
unfoldable pub last_stop : Bool → List ℕ → Bool
last_stop found [] = found
last_stop found (c ∷ cs) = last_stop (if is_blank c then found else is_stop c) cs

abbrev pub ends_sentence : List ℕ → Bool
ends_sentence s = last_stop false s

-- `strings.TrimSpace(s) == ""`
abbrev pub all_space : List ℕ → Bool
all_space [] = true
all_space (c ∷ cs) = is_space c && all_space cs

pub data TtsEvent : Type 0 where
  token : List ℕ → TtsEvent
  closed ctx_done : TtsEvent

-- `S` is the state of the framer and the frames sent, `synth` the synthesis of a text and `finish` the
-- flush of the framer.
module _ {S E : Type 0} (cancelled : E) (synth : List ℕ → S → Result E S)
    (finish : S → Result E S) where
  -- the function `flush`
  abbrev pub speak : List ℕ → S → Result E S
  speak text s = if all_space text then ok s else synth text s

  -- The loop of `Stream` on its events; `none` is that it waits for more.
  unfoldable pub stream : List TtsEvent → List ℕ → S → Option (Result E S)
  stream [] buf s = none
  stream (ctx_done ∷ es) buf s = some (err cancelled)
  stream (closed ∷ es) buf s = some (speak buf s >>= finish)
  stream (token t ∷ es) buf s =
      let keep = stream es (buf ++ t) s in
      let spoken = elim (speak (buf ++ t) s) as (λ _. Option (Result E S)) [
        | err e ↦ some (err e)
        | ok s' ↦ stream es [] s'
      ] in
      if ends_sentence (buf ++ t) then spoken else keep

  abbrev pub speak_all : List (List ℕ) → S → Result E S
  speak_all [] s = ok s
  speak_all (t ∷ ts) s = speak t s >>= speak_all ts

-- the sentences that tokens make up after `buf`; the last one may be unfinished
unfoldable pub sentences : List (List ℕ) → List ℕ → List (List ℕ)
sentences [] buf = buf ∷ []
sentences (t ∷ ts) buf =
    let keep = sentences ts (buf ++ t) in
    let cut = sentences ts [] in if ends_sentence (buf ++ t) then (buf ++ t) ∷ cut else keep

abbrev pub joined : List (List ℕ) → List ℕ
joined [] = []
joined (t ∷ ts) = t ++ joined ts

sentences-joined :
    (ts : List (List ℕ)) (buf : List ℕ) → joined (sentences ts buf) ≡ buf ++ joined ts
unfolding sentences
sentences-joined [] buf = refl
sentences-joined (t ∷ ts) buf = elim (Bool-cases (ends_sentence (buf ++ t))) [
  | inl e ↦
      rw e (ap (λ xs. (buf ++ t) ++ xs) (sentences-joined ts []) ∙ append_assoc buf t (joined ts))
  | inr e ↦ rw e (sentences-joined ts (buf ++ t) ∙ append_assoc buf t (joined ts))
]

module _ {S E : Type 0} (cancelled : E) (synth : List ℕ → S → Result E S)
    (finish : S → Result E S) where
  abbrev all : List (List ℕ) → S → Result E S
  all = speak_all cancelled synth finish

  one-part : (r : Result E S) → (r >>= finish) ≡ ((r >>= all []) >>= finish)
  one-part (ok s) = refl
  one-part (err e) = refl

  after_part :
      (r : Result E S) (go : S → Option (Result E S)) (parts : List (List ℕ))
      → ((s : S) → go s ≡ some (all parts s >>= finish))
      → ◌≡◌ {A = Option (Result E S)}
          (elim r as (λ _. Option (Result E S)) [ err e ↦ some (err e) | ok s ↦ go s ])
          (some ((r >>= all parts) >>= finish))
  after_part (err e) go parts h = refl
  after_part (ok s) go parts h = h s

  stream-parts :
      (ts : List (List ℕ)) (buf : List ℕ) (s : S)
      → stream cancelled synth finish (map token ts ++ closed ∷ []) buf s
        ≡ some (all (sentences ts buf) s >>= finish)
  unfolding stream sentences
  stream-parts [] buf s = ap some (one-part (speak cancelled synth finish buf s))
  stream-parts (t ∷ ts) buf s =
      let cut = (buf ++ t) ∷ sentences ts [] in
      let keep = sentences ts (buf ++ t) in
      let value : List (List ℕ) → Option (Result E S) = λ parts. some (all parts s >>= finish) in
      elim (Bool-cases (ends_sentence (buf ++ t))) [
        | inl e ↦
            if-true _ _ e
            ∙ after_part (speak cancelled synth finish (buf ++ t) s)
                (λ s'. stream cancelled synth finish (map token ts ++ closed ∷ []) [] s')
                (sentences ts []) (λ s'. stream-parts ts [] s')
            ∙ sym (ap value (if-true cut keep e))
        | inr e ↦
            if-false _ _ e ∙ stream-parts ts (buf ++ t) s ∙ sym (ap value (if-false cut keep e))
      ]

  -- A stream of tokens up to its end speaks its sentences one after another, in order, up to the first
  -- that fails, and flushes the framer when none fails; a sentence of white space is not spoken. The
  -- sentences make up the text of the tokens.
  pub stream-sentences :
      (ts : List (List ℕ)) (s : S)
      → (stream cancelled synth finish (map token ts ++ closed ∷ []) [] s
          ≡ some (speak_all cancelled synth finish (sentences ts []) s >>= finish))
        × (joined (sentences ts []) ≡ joined ts)
  stream-sentences ts s = (stream-parts ts [] s, sentences-joined ts [])
