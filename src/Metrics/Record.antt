-- ===== src/Metrics/Record.antt =====
-- internal/metrics/m.go: the account of a finished turn in the instruments and on the dashboard.
-- The texts and the wall-clock time of a record are left out.
pub mod Accounts
use voice_flux_engine.Prelude.{
  ℕ, suc, ◌+◌, ◌-◌, ◌/◌, ◌%◌, ◌≡◌, refl, ltb, ◌&&◌, not, if◌then◌else◌, Bool, true, false, Option,
  none, some, List, [], ◌∷◌, arith,
}
use voice_flux_engine.Prelude.Int.{ℤ, pos, negsuc}
use voice_flux_engine.Prelude.Float.{Float64}
use voice_flux_engine.Pipeline.{TurnStats}
use voice_flux_engine.Pipeline.Latency.{span, first_response, kernel_overhead}
use voice_flux_engine.Metrics.{Counter, add_count, Histogram, observe}
use voice_flux_engine.Metrics.Hub.{Hub, publish}

-- times in milliseconds from the end of the utterance
pub record TurnRecord (F : Type 0) : Type 0 where
  pub cancelled : Bool
  pub wall_ms : F
  pub asr_final_ms : F
  pub llm_start_ms : F
  pub llm_first_token_ms : F
  pub llm_last_token_ms : F
  pub tts_start_ms : F
  pub tts_first_frame_ms : F
  pub tts_last_frame_ms : F
  pub first_response_ms : F
  pub kernel_ms : F
  pub barge_in_ms : F
  pub serial_ms : F

-- The instruments that `RecordTurn` feeds.
pub record M (F : Type 0) : Type 0 where
  pub hub : Hub (TurnRecord F)
  pub turns_completed : Counter
  pub turns_cancelled : Counter
  pub first_response : Histogram F
  pub kernel_overhead : Histogram F
  pub stage_asr_final : Histogram F
  pub stage_queue_wait : Histogram F
  pub stage_llm_first : Histogram F
  pub stage_tts_first : Histogram F
  pub barge_in_cancel : Histogram F

-- the quotient and the remainder of Go, which round to zero
abbrev pub quot : ℤ → ℕ → ℤ
quot (pos n) m = pos (n / m)
quot (negsuc n) m = if ltb (n + 1) m then pos 0 else negsuc ((n + 1) / m - 1)

abbrev pub rem : ℤ → ℕ → ℤ
rem (pos n) m = pos (n % m)
rem (negsuc n) m = if ltb 0 ((n + 1) % m) then negsuc ((n + 1) % m - 1) else pos 0

module _ (fl : Float64) where
  open fl use {F, of_int, add, sub, div, ge}

  -- `Duration.Seconds`
  abbrev pub seconds : ℤ → F
  seconds d =
      add (of_int (quot d 1000000000)) (div (of_int (rem d 1000000000)) (of_int (pos 1000000000)))

  -- a duration in milliseconds, by its whole microseconds
  abbrev pub millis : ℤ → F
  millis d = div (of_int (quot d 1000)) (of_int (pos 1000))

  abbrev pub rel : Option ℕ → Option ℕ → F
  rel t0 none = of_int (negsuc 0)
  rel t0 (some t) = millis (span t0 (some t))

  -- the stages one after another
  abbrev pub serial : (asr_final llm_start llm_last tts_start tts_last : F) → F
  serial asr_final llm_start llm_last tts_start tts_last =
      let zero = of_int (pos 0) in
      if ge asr_final zero && (ge llm_last zero && ge llm_start zero)
      then (let two = add asr_final (sub llm_last llm_start) in
          if ge tts_last zero && ge tts_start zero then add two (sub tts_last tts_start) else two)
      else zero

  unfoldable pub to_record : TurnStats → TurnRecord F
  to_record ts =
      let t0 = ts.utterance_end_at in
      record {
        cancelled = ts.cancelled;
        wall_ms = rel t0 ts.ended_at;
        asr_final_ms = rel t0 ts.asr_final_at;
        llm_start_ms = rel t0 ts.llm_start_at;
        llm_first_token_ms = rel t0 ts.llm_first_token_at;
        llm_last_token_ms = rel t0 ts.llm_last_token_at;
        tts_start_ms = rel t0 ts.tts_start_at;
        tts_first_frame_ms = rel t0 ts.tts_first_frame_at;
        tts_last_frame_ms = rel t0 ts.tts_last_frame_at;
        first_response_ms = millis (first_response ts);
        kernel_ms = millis (kernel_overhead ts);
        barge_in_ms = millis (pos ts.barge_in_latency);
        serial_ms =
            serial (rel t0 ts.asr_final_at) (rel t0 ts.llm_start_at) (rel t0 ts.llm_last_token_at)
              (rel t0 ts.tts_start_at) (rel t0 ts.tts_last_frame_at);
      }

  -- the histograms of a turn that sent a frame
  unfoldable pub observe_stages : TurnStats → M F → M F
  observe_stages ts m = record m {
    first_response = observe fl (seconds (first_response ts)) m.first_response;
    kernel_overhead = observe fl (seconds (kernel_overhead ts)) m.kernel_overhead;
    stage_asr_final =
        observe fl (seconds (span ts.utterance_end_at ts.asr_final_at)) m.stage_asr_final;
    stage_queue_wait =
        observe fl (seconds (span ts.asr_final_at ts.llm_start_at)) m.stage_queue_wait;
    stage_llm_first =
        observe fl (seconds (span ts.llm_start_at ts.llm_first_token_at)) m.stage_llm_first;
    stage_tts_first =
        observe fl (seconds (span ts.tts_start_at ts.tts_first_frame_at)) m.stage_tts_first;
  }

  -- the first part of `RecordTurn`, by whether the turn is cancelled
  unfoldable pub count_turn : Bool → TurnStats → M F → M F
  count_turn true ts m = record m {
    turns_cancelled = add_count 1 m.turns_cancelled;
    barge_in_cancel =
        if ltb 0 ts.barge_in_latency
        then observe fl (seconds (pos ts.barge_in_latency)) m.barge_in_cancel
        else m.barge_in_cancel;
  }
  count_turn false ts m = record m { turns_completed = add_count 1 m.turns_completed }

  -- the second part, by the time of the first frame
  unfoldable pub observe_turn : Option ℕ → TurnStats → M F → M F
  observe_turn none ts m = m
  observe_turn (some t) ts m = observe_stages ts m

  unfoldable pub record_turn : TurnStats → M F → M F
  record_turn ts m =
      let observed = observe_turn ts.tts_first_frame_at ts (count_turn ts.cancelled ts m) in
      record observed { hub = publish (to_record ts) observed.hub }
