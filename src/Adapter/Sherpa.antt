-- ===== src/Adapter/Sherpa.antt =====
-- internal/adapter/sherpa/asr.go: the client of the streaming recogniser. A text is a list of bytes.
-- What the goroutines and timers do is a sequence of events; `heard` are the messages read.
pub mod Final
use voice_flux_engine.Prelude.{
  ℕ, zero, suc, ◌+◌, ◌≡◌, refl, sym, subst, ap, ◌∙◌, if◌then◌else◌, Bool, true, false, Bool-cases,
  Option, none, some, List, [], ◌∷◌, ◌++◌, ltb, leb, ◌*◌, ◌/◌, replicate, length, inl, inr, arith,
}
use voice_flux_engine.Prelude.Result.{Result, ok, err, ok-injective}

pub record AsrResult : Type 0 where
  pub text : List ℕ
  pub finished : Bool

pub record Transcript : Type 0 where
  pub text : List ℕ
  pub final : Bool
  pub ts_us : ℕ

pub data AsrError : Type 0 where
  ctx_error read_error write_error silence_error : AsrError

-- A frame and whether it is written; the end of the input and whether the silence is fed; a message of
-- the sidecar; the reader's exit, always with an error; the end of the context; the deadline; the main
-- goroutine taking the final text. The last send is not cancelled.
pub data AsrEvent : Type 0 where
  frame : ℕ → Bool → AsrEvent
  in_closed : Bool → AsrEvent
  message : AsrResult → AsrEvent
  reader_exits ctx_done deadline takes_final : AsrEvent

pub record Asr : Type 0 where
  pub last_ts : ℕ
  pub last_text : List ℕ
  pub final_ch : Option (List ℕ)
  pub sent : List Transcript
  pub heard : List AsrResult

-- a send that does not block on the channel of one text
abbrev pub offer_final : List ℕ → Option (List ℕ) → Option (List ℕ)
offer_final t none = some t
offer_final t (some u) = some u

-- a round of the reader
unfoldable pub on_message : AsrResult → Asr → Asr
on_message r s = elim r.text [
  | [] ↦ record s { heard = s.heard ++ r ∷ [] }
  | c ∷ cs ↦
      if r.finished
      then record s { final_ch = offer_final (c ∷ cs) s.final_ch; heard = s.heard ++ r ∷ [] }
      else record s {
        last_text = c ∷ cs;
        sent = s.sent ++ record { text = c ∷ cs; final = false; ts_us = s.last_ts } ∷ [];
        heard = s.heard ++ r ∷ [];
      }
]

abbrev pub or_else : List ℕ → List ℕ → List ℕ
or_else [] u = u
or_else (c ∷ t) u = c ∷ t

abbrev pub chosen : Option (List ℕ) → List ℕ
chosen none = []
chosen (some t) = t

-- The end of `Stream`: the text taken, else what lies in the channel, else the last partial one.
unfoldable pub conclude : List ℕ → Asr → Asr
conclude final_text s = record s {
  sent =
      s.sent
      ++ record {
        text = or_else (or_else final_text (chosen s.final_ch)) s.last_text;
        final = true;
        ts_us = s.last_ts;
      }
        ∷ [];
}

-- the wait for the reader's exit, after the reading is cancelled
unfoldable pub settle : List ℕ → List AsrEvent → Asr → Option (Result AsrError Asr)
settle final_text [] s = none
settle final_text (message r ∷ es) s = settle final_text es (on_message r s)
settle final_text (reader_exits ∷ es) s = some (ok (conclude final_text s))
settle final_text (_ ∷ es) s = settle final_text es s

-- the loop `wait`
unfoldable pub wait : List AsrEvent → Asr → Option (Result AsrError Asr)
wait [] s = none
wait (message r ∷ es) s = wait es (on_message r s)
wait (takes_final ∷ es) s = elim s.final_ch [
  | none ↦ wait es s
  | some t ↦ settle t es (record s { final_ch = none })
]
wait (deadline ∷ es) s = settle [] es s
wait (reader_exits ∷ es) s = some (ok (conclude [] s))
wait (ctx_done ∷ es) s = some (err ctx_error)
wait (_ ∷ es) s = wait es s

-- the loop `writeLoop`, and what follows it
unfoldable pub write_loop : List AsrEvent → Asr → Option (Result AsrError Asr)
write_loop [] s = none
write_loop (frame ts true ∷ es) s = write_loop es (record s { last_ts = ts })
write_loop (frame ts false ∷ es) s = some (err write_error)
write_loop (in_closed true ∷ es) s = wait es s
write_loop (in_closed false ∷ es) s = some (err silence_error)
write_loop (message r ∷ es) s = write_loop es (on_message r s)
write_loop (reader_exits ∷ es) s = elim s.last_text [
  | [] ↦ some (err read_error)
  | c ∷ cs ↦ some (ok (conclude [] s))
]
write_loop (ctx_done ∷ es) s = some (err ctx_error)
write_loop (_ ∷ es) s = write_loop es s

abbrev pub new_asr : Asr
new_asr = record { last_ts = 0; last_text = []; final_ch = none; sent = []; heard = [] }

-- `feedSilence` when no write fails: the chunks, with a round for each of `n`
unfoldable pub feed_silence : (rounds rate sent tail_ms : ℕ) → List (List ℕ)
feed_silence zero rate sent tail_ms = []
feed_silence (suc n) rate sent tail_ms =
    let rest = feed_silence n rate (sent + 100) tail_ms in
    if ltb sent tail_ms then replicate (rate / 1000 * 100 * 2) 0 ∷ rest else []
