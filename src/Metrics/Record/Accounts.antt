-- ===== src/Metrics/Record/Accounts.antt =====
-- The accounts that `RecordTurn` of m.go keeps over a run of turns.
use voice_flux_engine.Prelude.{
  ℕ, ◌+◌, ◌<◌, ◌^◌, ◌≡◌, refl, sym, ap, ◌∙◌, not, if◌then◌else◌, Bool, true, false, Option, none,
  some, List, [], ◌∷◌, ◌++◌, map, append-nil, append_assoc, length, suffix, suffix-append, arith,
}
use voice_flux_engine.Prelude.Float.{Float64}
use voice_flux_engine.Prelude.Sort.{count}
use voice_flux_engine.Pipeline.{TurnStats}
use voice_flux_engine.Pipeline.Latency
use voice_flux_engine.Metrics.{add_count, Histogram, observe, observe_all}
use voice_flux_engine.Metrics.Hub.{hub_history, publish, hist-publish}
use voice_flux_engine.Metrics.Record.{
  M, TurnRecord, seconds, to_record, observe_stages, count_turn, observe_turn, record_turn,
}

module _ (fl : Float64) where
  open fl use {F}

  unfoldable pub record_turns : List TurnStats → M F → M F
  record_turns [] m = m
  record_turns (ts ∷ rest) m = record_turns rest (record_turn fl ts m)

  abbrev pub response : Option ℕ → TurnStats → List F
  response none ts = []
  response (some t) ts = seconds fl (Latency.first_response ts) ∷ []

  -- the first responses of the turns that sent a frame
  abbrev pub responses : List TurnStats → List F
  responses [] = []
  responses (ts ∷ rest) = response ts.tts_first_frame_at ts ++ responses rest

  abbrev ones : Bool → ℕ
  ones b = if b then 1 else 0

  ones-not : (c : Bool) → ones (not c) + ones c ≡ 1
  ones-not true = refl
  ones-not false = refl

  count_turn-fields :
      (c : Bool) (ts : TurnStats) (m : M F)
      → m.turns_completed.v + m.turns_cancelled.v + 1 < 2 ^ 64
      → let m' = count_turn fl c ts m in
        (m'.turns_completed.v ≡ m.turns_completed.v + ones (not c))
        × (m'.turns_cancelled.v ≡ m.turns_cancelled.v + ones c)
        × (m'.hub ≡ m.hub)
        × (m'.first_response ≡ m.first_response)
  unfolding count_turn add_count
  count_turn-fields true ts m small = (omega arith, omega arith, refl, refl)
  count_turn-fields false ts m small = (omega arith, omega arith, refl, refl)

  observe_turn-fields :
      (o : Option ℕ) (ts : TurnStats) (m : M F)
      → let m' = observe_turn fl o ts m in
        (m'.turns_completed ≡ m.turns_completed)
        × (m'.turns_cancelled ≡ m.turns_cancelled)
        × (m'.hub ≡ m.hub)
        × (m'.first_response ≡ observe_all fl (response o ts) m.first_response)
  unfolding observe_turn observe_stages observe_all
  observe_turn-fields none ts m = (refl, refl, refl, refl)
  observe_turn-fields (some t) ts m = (refl, refl, refl, refl)

  record_turn-fields :
      (ts : TurnStats) (m : M F)
      → m.turns_completed.v + m.turns_cancelled.v + 1 < 2 ^ 64
      → let m' = record_turn fl ts m in
        (m'.turns_completed.v ≡ m.turns_completed.v + ones (not ts.cancelled))
        × (m'.turns_cancelled.v ≡ m.turns_cancelled.v + ones ts.cancelled)
        × (m'.hub ≡ publish (to_record fl ts) m.hub)
        × (m'.first_response ≡ observe_all fl (response ts.tts_first_frame_at ts) m.first_response)
  unfolding record_turn
  record_turn-fields ts m small =
      let counted = count_turn fl ts.cancelled ts m in
      let (a, b, c, d) = count_turn-fields ts.cancelled ts m small in
      let (a', b', c', d') = observe_turn-fields ts.tts_first_frame_at ts counted in
      (
        ap (λ x. x.v) a' ∙ a,
        ap (λ x. x.v) b' ∙ b,
        ap (publish (to_record fl ts)) (c' ∙ c),
        d' ∙ ap (observe_all fl (response ts.tts_first_frame_at ts)) d,
      )

  observe_all-append :
      (xs ys : List F) (h : Histogram F)
      → observe_all fl (xs ++ ys) h ≡ observe_all fl ys (observe_all fl xs h)
  unfolding observe_all
  observe_all-append [] ys h = refl
  observe_all-append (x ∷ xs) ys h = observe_all-append xs ys (observe fl x h)

  -- After a run of turns each of them is counted once, as cancelled or as completed; the
  -- first-response histogram has observed, in order, the first response of each turn that sent a
  -- frame, cancelled or not; and the dashboard's history has the records of the last turns.
  pub record_turns-accounts :
      (turns : List TurnStats) (m : M F) (before : List (TurnRecord F))
      → m.turns_completed.v + m.turns_cancelled.v + length turns < 2 ^ 64
      → m.hub.hist ≡ suffix hub_history before
      → let m' = record_turns turns m in
        (m'.turns_completed.v ≡ m.turns_completed.v + count (λ ts. not ts.cancelled) turns)
        × (m'.turns_cancelled.v ≡ m.turns_cancelled.v + count (λ ts. ts.cancelled) turns)
        × (m'.hub.hist ≡ suffix hub_history (before ++ map (to_record fl) turns))
        × (m'.first_response ≡ observe_all fl (responses turns) m.first_response)
  unfolding record_turns observe_all
  record_turns-accounts [] m before small h = (omega arith, omega arith, rw append-nil h, refl)
  record_turns-accounts (ts ∷ turns) m before small h =
      let one = ones-not ts.cancelled in
      let m' = record_turn fl ts m in
      let r = to_record fl ts in
      let (a, b, c, d) = record_turn-fields ts m (omega arith) in
      let next : m'.hub.hist ≡ suffix hub_history (before ++ r ∷ []) =
        ap (λ x. x.hist) c
        ∙ hist-publish r m.hub
        ∙ ap (λ xs. suffix hub_history (xs ++ r ∷ [])) h
        ∙ suffix-append hub_history before (r ∷ []) in
      let (e, f, g, i) = record_turns-accounts turns m' (before ++ r ∷ []) (omega arith) next in
      (
        omega arith,
        omega arith,
        g ∙ ap (suffix hub_history) (append_assoc before (r ∷ []) (map (to_record fl) turns)),
        i
            ∙ ap (observe_all fl (responses turns)) d
            ∙ sym (
                observe_all-append (response ts.tts_first_frame_at ts) (responses turns)
                  m.first_response),
      )
