-- ===== src/Metrics/Tests.antt =====
-- Instruments at work, with natural numbers in place of float64.
use voice_flux_engine.Prelude.{
  ℕ, ◌≡◌, refl, leb, true, false, none, some, List, [], ◌∷◌, ◌++◌, map, suffix, arith,
}
use voice_flux_engine.Prelude.Naturals.{naturals}
use voice_flux_engine.Pipeline.{TurnStats}
use voice_flux_engine.Metrics.{Counter, Histogram, search, observe, observe_all, new_histogram}
use voice_flux_engine.Metrics.Hub.{
  Hub, HubOp, publishes, subscribes, leaves, takes, run, new_hub, hub_history, Fit,
  hub_never_blocks,
}
use voice_flux_engine.Metrics.Record.{M, to_record}
use voice_flux_engine.Metrics.Record.Accounts.{record_turns, responses, record_turns-accounts}

abbrev bounds : List ℕ
bounds = 5 ∷ 10 ∷ 20 ∷ []

abbrev values : List ℕ
values = 7 ∷ 3 ∷ 25 ∷ 10 ∷ []

buckets :
    (observe_all naturals values (new_histogram naturals [] [] bounds)).counts ≡ 1 ∷ 2 ∷ 0 ∷ []
unfolding observe_all observe search
buckets = refl

ge_trans : (a b c : ℕ) → leb a b ≡ true → leb b c ≡ true → leb a c ≡ true
ge_trans a b c h k = ground arith

abbrev hub_ops : List (HubOp ℕ)
hub_ops = publishes 4 ∷ subscribes 1 ∷ publishes 5 ∷ takes 1 ∷ leaves 1 ∷ publishes 6 ∷ []

hub_never_blocks_example :
    (last : Hub ℕ) × (run hub_ops new_hub ≡ some last)
    × (last.hist ≡ 4 ∷ 5 ∷ 6 ∷ [])
    × Fit last.subs
hub_never_blocks_example = hub_never_blocks hub_ops

abbrev stats : TurnStats
stats = record {
  prompt = "hello";
  reply = "hi";
  utterance_end_at = some 1000;
  asr_final_at = some 2000;
  llm_start_at = some 2500;
  llm_first_token_at = some 4000;
  llm_last_token_at = some 6000;
  tts_start_at = some 4100;
  tts_first_frame_at = some 5000;
  tts_last_frame_at = some 9000;
  ended_at = some 9500;
  cancelled = false;
  flushed_frames = 0;
  barge_in_latency = 0;
}

abbrev counter : Counter
counter = record { name = []; help = []; v = 0 }

abbrev histogram : Histogram ℕ
histogram = new_histogram naturals [] [] bounds

abbrev m : M ℕ
m = record {
  hub = new_hub;
  turns_completed = counter;
  turns_cancelled = counter;
  first_response = histogram;
  kernel_overhead = histogram;
  stage_asr_final = histogram;
  stage_queue_wait = histogram;
  stage_llm_first = histogram;
  stage_tts_first = histogram;
  barge_in_cancel = histogram;
}

abbrev turns : List TurnStats
turns = stats ∷ record stats { cancelled = true; tts_first_frame_at = none } ∷ []

record_turns-accounts_example :
    let m' = record_turns naturals turns m in
    (m'.turns_completed.v ≡ 1)
    × (m'.turns_cancelled.v ≡ 1)
    × (m'.hub.hist ≡ suffix hub_history ([] ++ map (to_record naturals) turns))
    × (m'.first_response ≡ observe_all naturals (responses naturals turns) histogram)
record_turns-accounts_example = record_turns-accounts naturals turns m [] (omega arith) refl
