-- ===== src/Loadgen/Tests.antt =====
-- A load generator at work, with natural numbers in place of float64.
use voice_flux_engine.Prelude.{
  ℕ, zero, suc, ◌^◌, leb, ◌≡◌, refl, ap, true, false, Option, some, List, [], ◌∷◌, ◌++◌, length,
  length-replicate, replicate, map, none, arith, ◌⊎◌,
}
use voice_flux_engine.Prelude.Bytes.{bytes_eq, Without}
use voice_flux_engine.Prelude.Naturals.{naturals}
use voice_flux_engine.Metrics.{observe_all, new_histogram, sum_word, count_word, histogram_lines}
use voice_flux_engine.Loadgen.Shaper.{
  Netem, burst_delay, release, slot, new_clock, slots, OnGrid, slots-OnGrid,
}
use voice_flux_engine.Loadgen.Report.{StepRecord, degraded, find_knee, analyze}
use voice_flux_engine.Loadgen.Report.Knee.{Knee}
use voice_flux_engine.Loadgen.Scrape.{
  Snapshot, panics, bucket_open, bucket_key, map_put, parse_lines, total, hist_quantile,
}
use voice_flux_engine.Loadgen.Scrape.Quantile.{LastFinite, Bucket, Short, hist_quantile-Bucket}
use voice_flux_engine.Loadgen.Scrape.Observed.{scraped_observations}
use voice_flux_engine.Loadgen.Worker.{nothing, arrival, Round, TurnScript, turn, went}
use voice_flux_engine.Prelude.Result.{ok}
use voice_flux_engine.Frame.{decode}
use voice_flux_engine.Session.{ControlPayload}
use voice_flux_engine.Loadgen.Downlink.{
  Downlink, new_downlink, audio_arrives, text, read_fails, read_failed, await_start,
}
use voice_flux_engine.Loadgen.Downlink.Sent.{send_all, audio_frame, decode-send_all}
use voice_flux_engine.Loadgen.Worker.Ends.{
  Passes, here, there, Ends, turn-Ends, well, one_more, none_left,
}

abbrev stalls : Netem
stalls = record { delay = 5; jitter = 3; burst_every = 100; burst_hold = 40; seed = 1 }

abbrev waits : List (ℕ × ℕ)
waits = (1000, 2) ∷ (1000, 0) ∷ (1050, 1) ∷ []

-- two frames of a burst window leave together
held : slots waits (new_clock 20 stalls) ≡ (1000, 1047) ∷ (1020, 1047) ∷ (1040, 1047) ∷ []
unfolding slots slot release burst_delay
held = refl

slots-OnGrid_example : OnGrid stalls 20 1000 1000 0 (slots waits (new_clock 20 stalls))
slots-OnGrid_example =
    slots-OnGrid stalls 20 1000 2 ((1000, 0) ∷ (1050, 1) ∷ []) (λ e. omega arith)
      (omega arith, (omega arith, (omega arith, tt)))

abbrev measured : (concurrency errors latency : ℕ) → StepRecord ℕ
measured concurrency errors latency = record {
  concurrency = concurrency;
  live_workers = concurrency;
  duration_s = 10;
  turns = 7;
  errors = errors;
  e2e_first_p50 = latency;
  e2e_first_p95 = latency;
  e2e_first_p99 = latency;
  e2e_barge_p50 = 0;
  e2e_barge_p99 = 0;
  srv_first_p50 = latency;
  srv_first_p99 = latency;
  srv_kernel_p99 = 0;
  srv_barge_p99 = 0;
  server_turn_rate = 0;
  uplink_fps = 50;
  ingress_drop_rate = 0;
  egress_drop_per_s = 0;
  cpu_util = 0;
  goroutines = 9;
  heap_mb = 9;
  sessions_active = concurrency;
}

-- a transient error at 5, and a knee at 20
abbrev later : List (StepRecord ℕ)
later = measured 5 1 100 ∷ measured 10 0 110 ∷ measured 20 0 900 ∷ measured 40 2 950 ∷ []

knee_at_20 : (analyze naturals (measured 1 0 100 ∷ later)).knee_concurrency ≡ 20
unfolding analyze find_knee degraded
knee_at_20 = refl

abbrev bounds : List ℕ
bounds = 10 ∷ 20 ∷ 40 ∷ []

abbrev counts : List ℕ
counts = 1 ∷ 5 ∷ 4 ∷ []

hist_quantile-Bucket_example :
    (((leb 10 0 ≡ true) ⊎ (bounds ≡ [])) × (hist_quantile naturals bounds counts 99 ≡ 0))
    ⊎ (((leb 10 0 ≡ false)
          × Bucket naturals 0 0 0 bounds counts (hist_quantile naturals bounds counts 99))
        ⊎ ((leb 10 0 ≡ false)
            × Short naturals 0 0 counts
            × LastFinite naturals bounds (hist_quantile naturals bounds counts 99)))
unfolding total
hist_quantile-Bucket_example = hist_quantile-Bucket naturals bounds counts 99 refl

-- A number in unary.
abbrev format_unary : ℕ → List ℕ
format_unary n = replicate n b'1'

abbrev parse_unary : List ℕ → Option ℕ
parse_unary s = some (length s)

unary-reads : (n : ℕ) → parse_unary (format_unary n) ≡ some n
unary-reads n = ap some (length-replicate n b'1')

unary-plain : (n : ℕ) → Without b' ' (format_unary n)
unary-plain zero = tt
unary-plain (suc n) = ((λ e. omega arith), unary-plain n)

abbrev empty_snapshot : Snapshot ℕ
empty_snapshot = record { scalars = []; hists = [] }

-- turns
abbrev turns_name : List ℕ
turns_name = b'u' ∷ b'r' ∷ b'n' ∷ b's' ∷ []

ge_trans : (a b c : ℕ) → leb a b ≡ true → leb b c ≡ true → leb a c ≡ true
ge_trans a b c h k = ground arith

abbrev no_help : List ℕ
no_help = []

abbrev two_bounds : List ℕ
two_bounds = 1 ∷ 3 ∷ []

-- three values, one of them past the last bound
abbrev three_values : List ℕ
three_values = 3 ∷ 1 ∷ 4 ∷ []

turns_name-plain : Without b'{' (b't' ∷ turns_name)
turns_name-plain = (
  (λ e. omega arith),
  ((λ e. omega arith), ((λ e. omega arith), ((λ e. omega arith), ((λ e. omega arith), tt)))),
)

scraped_observations_example :
    let h =
      observe_all naturals three_values
        (new_histogram naturals (b't' ∷ turns_name) no_help two_bounds) in
    parse_lines naturals parse_unary empty_snapshot (histogram_lines naturals format_unary h)
    ≡ some (record {
      scalars =
          map_put bytes_eq
            ((b't' ∷ turns_name) ++ count_word)
            3
            (map_put bytes_eq ((b't' ∷ turns_name) ++ sum_word) h.sum []);
      hists = (b't' ∷ turns_name, (1, 1) ∷ (3, 2) ∷ (2 ^ 64, 3) ∷ []) ∷ [];
    })
scraped_observations_example =
    scraped_observations naturals parse_unary format_unary unary-reads unary-plain ge_trans b't'
      turns_name no_help two_bounds three_values empty_snapshot (λ e. omega arith) turns_name-plain
      (refl, (refl, tt)) (refl, (refl, tt)) ((refl, tt), (tt, tt)) ((refl, tt), (tt, tt)) refl
      (omega arith)

-- The bound's slice ends before it begins.
crossed_slice : bucket_key naturals parse_unary (b't' ∷ bucket_open ++ b'}' ∷ []) ≡ panics
unfolding bucket_key
crossed_slice = refl

abbrev rounds : List Round
rounds =
    record { sends = went; pick = arrival 900; last_audio = 0; now = 1010 }
    ∷ record { sends = went; pick = nothing; last_audio = 0; now = 3000 }
    ∷ []

abbrev script : TurnScript
script = record {
  sends = went ∷ went ∷ [];
  spoke_at = 1000;
  first_deadline = 2000;
  first_rounds = rounds;
  ride_until = 2000;
  ride_rounds = rounds;
  barge_start = 1000;
  barge_sends = went ∷ [];
  barge_spoke_at = 1000;
  barge_deadline = 2000;
  barge_rounds = rounds;
  second_deadline = 2000;
  second_rounds = rounds;
  quiet_deadline = 2000;
  quiet_rounds = rounds;
  realign_deadline = 2000;
  realign_rounds = rounds;
}

abbrev passed : Passes 2000 rounds
passed = there well (here well (omega arith))

turn-Ends_example : Ends (turn 350 true script).1
turn-Ends_example = turn-Ends 350 true script (record {
  spoken = one_more well (one_more well none_left);
  barged = one_more well none_left;
  first = passed;
  ride = passed;
  barge = passed;
  second = passed;
  calm = passed;
})

-- the audio of a response that nobody listens to any more
abbrev stale : Downlink
stale = record new_downlink { last_audio = 8; audio_c = 1 ∷ 2 ∷ 3 ∷ 4 ∷ 5 ∷ 6 ∷ 7 ∷ 8 ∷ [] }

-- The first frame of the next response finds the channel full.
lost_arrival : (audio_arrives 900 stale).audio_c ≡ stale.audio_c
lost_arrival = refl

abbrev nothing_decoded : List ℕ → Option ControlPayload
nothing_decoded bytes = none

-- a text message is passed over
passed_over : await_start nothing_decoded (λ p. none) (text ∷ read_fails ∷ []) ≡ read_failed
unfolding await_start
passed_over = refl

-- two frames, the second one nominal time after the first
decode-send_all_example :
    map decode (send_all 20000 ((7 ∷ []) ∷ (8 ∷ 9 ∷ []) ∷ []) (record { seq = 0; ts_us = 0 }))
    ≡ ok (audio_frame 1 0 (7 ∷ [])) ∷ ok (audio_frame 2 20000 (8 ∷ 9 ∷ [])) ∷ []
decode-send_all_example =
    decode-send_all 20000 0 0 ((7 ∷ []) ∷ (8 ∷ 9 ∷ []) ∷ []) (omega arith, (omega arith, tt))
      (omega arith) (omega arith)
