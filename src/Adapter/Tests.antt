-- ===== src/Adapter/Tests.antt =====
-- A framer of two samples a frame, a recognition and a synthesis.
use voice_flux_engine.Prelude.{
  ℕ, ◌<◌, ◌≡◌, refl, ltb, Bool, true, false, some, List, [], ◌∷◌, ◌++◌, length, arith,
}
use voice_flux_engine.Prelude.Result.{Result, ok, err, ◌>>=◌}
use voice_flux_engine.Adapter.{AudioFrame}
use voice_flux_engine.Adapter.Sherpa.{
  AsrEvent, frame, in_closed, message, deadline, reader_exits, read_error, Asr, on_message,
  conclude, settle, wait, write_loop, new_asr,
}
use voice_flux_engine.Adapter.Sherpa.Final.{Concluded, stream-Concluded}
use voice_flux_engine.Adapter.Sentence.{
  token, closed, last_stop, stream, speak_all, sentences, joined, stream-sentences,
}
use voice_flux_engine.Adapter.Framer.{PcmFramer, emit, audio, Cut, flush, emit_cuts}

abbrev framer : PcmFramer
framer = record {
  sample_rate = 1000;
  frame_duration = 2000000;
  lead = 0;
  carry = 1 ∷ [];
  total = 4;
  start = some 500;
}

flushed : (flush framer).0 ≡ record { pcm = 1 ∷ 0 ∷ 0 ∷ 0 ∷ []; ts_us = 4000 } ∷ []
unfolding flush
flushed = refl

abbrev always : ℕ → Bool
always i = true

emit_cuts_example :
    (frames : List AudioFrame) × (last : PcmFramer) × (emit 9
        (λ n. n)
        always
        (2 ∷ 3 ∷ 4 ∷ 5 ∷ [])
        framer
      ≡ some (frames, false, last))
    × (audio frames ++ last.carry ≡ 1 ∷ 2 ∷ 3 ∷ 4 ∷ 5 ∷ [])
    × (length last.carry < 4)
    × Cut 4 1000 2 4 frames
emit_cuts_example =
    emit_cuts 9 (λ n. n) always (2 ∷ 3 ∷ 4 ∷ 5 ∷ []) framer (λ i. refl) (omega arith) (omega arith)

abbrev tiny : PcmFramer
tiny = record framer { frame_duration = 10000 }

-- the context ends after seven frames
abbrev seven : ℕ → Bool
seven i = ltb i 7

-- A partial text, then a finished one, then the end of the input.
abbrev heard_well : List AsrEvent
heard_well =
    frame 20 true
    ∷ message (record { text = 104 ∷ []; finished = false })
    ∷ message (record { text = 104 ∷ 105 ∷ []; finished = true })
    ∷ in_closed true
    ∷ deadline
    ∷ reader_exits
    ∷ []

abbrev heard_all : Asr
heard_all = record {
  last_ts = 20;
  last_text = 104 ∷ [];
  final_ch = some (104 ∷ 105 ∷ []);
  sent =
      record { text = 104 ∷ []; final = false; ts_us = 20 }
      ∷ record { text = 104 ∷ 105 ∷ []; final = true; ts_us = 20 }
      ∷ [];
  heard =
      record { text = 104 ∷ []; finished = false }
      ∷ record { text = 104 ∷ 105 ∷ []; finished = true }
      ∷ [];
}

heard-well : write_loop heard_well new_asr ≡ some (ok heard_all)
unfolding write_loop wait settle conclude on_message
heard-well = refl

stream-Concluded_example : Concluded heard_all
stream-Concluded_example = stream-Concluded heard_well heard_all heard-well

-- A connection that closes after a finished text, with no partial one, loses the text.
lost_final :
    write_loop (message (record { text = 104 ∷ []; finished = true }) ∷ reader_exits ∷ []) new_asr
    ≡ some (err read_error)
unfolding write_loop on_message
lost_final = refl

abbrev say : List ℕ → List (List ℕ) → Result ℕ (List (List ℕ))
say text spoken = ok (spoken ++ text ∷ [])

abbrev keep : List (List ℕ) → Result ℕ (List (List ℕ))
keep spoken = ok spoken

-- Hi. and the start of a sentence
abbrev words : List (List ℕ)
words = (72 ∷ []) ∷ (105 ∷ 46 ∷ []) ∷ (66 ∷ []) ∷ []

in_sentences : sentences words [] ≡ (72 ∷ 105 ∷ 46 ∷ []) ∷ (66 ∷ []) ∷ []
unfolding sentences last_stop
in_sentences = refl

stream-sentences_example :
    (stream 0 say keep
        (token (72 ∷ []) ∷ token (105 ∷ 46 ∷ []) ∷ token (66 ∷ []) ∷ closed ∷ [])
        []
        []
      ≡ some (speak_all 0 say keep (sentences words []) [] >>= keep))
    × (joined (sentences words []) ≡ 72 ∷ 105 ∷ 46 ∷ 66 ∷ [])
stream-sentences_example = stream-sentences 0 say keep words []
