-- ===== src/Pipeline/History.antt =====
-- The conversation memory, over every history of the orchestrator.
use Prim.Native.String.{String}
use voice_flux_engine.Prelude.{
  ℕ, ◌-◌, ◌≤◌, ◌≡◌, refl, sym, ap, ap₂, ◌∙◌, subst, ltb, true, false, append-nil, append_assoc,
  Bool-cases, List, [], ◌∷◌, ◌++◌, length, suffix, suffix-append, length-suffix, arith, inl, inr,
}
use voice_flux_engine.Adapter.{AudioFrame, Message, Turn}
use voice_flux_engine.Pipeline.{
  TurnStats, Handle, Phase, idle, running, cancelling, returned, new_handle, on_token, on_handed,
  on_synthesised, on_failure, on_finished, Pipeline, exchange, append_history, start_turn,
  finish_turn, cancel_begin, cancel_finish, publish, max_history,
}
use voice_flux_engine.Pipeline.Run.{
  Event, exec, run, on_barge_in, on_final, on_done, on_end, on_cancel_ends, done-cases,
  cancel-cases, final-cases, step_chain, chain_runs,
}

-- all that was said in the published turns
abbrev pub said : List TurnStats → List Message
said [] = []
said (t ∷ ts) = exchange t.prompt t.reply ++ said ts

said-append : (ts us : List TurnStats) → said (ts ++ us) ≡ said ts ++ said us
said-append [] us = refl
said-append (t ∷ ts) us = ap (λ r. exchange t.prompt t.reply ++ r) (said-append ts us)

-- What the model was asked in some turns, when `before` were published: each prompt with the last
-- messages of all turns before it.
abbrev pub told : (before turns : List TurnStats) → List Turn
told before [] = []
told before (t ∷ ts) =
    record { prompt = t.prompt; history = suffix max_history (said before) }
    ∷ told (before ++ t ∷ []) ts

-- and in the turn in hand
abbrev pub open_told : List TurnStats → Phase → List Turn
open_told before (running h) =
    record { prompt = h.stats.prompt; history = suffix max_history (said before) } ∷ []
open_told before (cancelling _ _ h) =
    record { prompt = h.stats.prompt; history = suffix max_history (said before) } ∷ []
open_told before idle = []
open_told before returned = []

told-snoc :
    (before ts : List TurnStats) (t : TurnStats)
    → told before (ts ++ t ∷ [])
      ≡ told before ts
        ++ record { prompt = t.prompt; history = suffix max_history (said (before ++ ts)) } ∷ []
told-snoc before [] t =
    ap (λ b. record { prompt = t.prompt; history = suffix max_history (said b) } ∷ [])
      (sym (append-nil before))
told-snoc before (u ∷ ts) t =
    ap (◌∷◌ (record { prompt = u.prompt; history = suffix max_history (said before) })) (
      told-snoc (before ++ u ∷ []) ts t
      ∙ ap
          (λ b.
            told (before ++ u ∷ []) ts
            ++ record { prompt = t.prompt; history = suffix max_history (said b) } ∷ [])
          (append_assoc before (u ∷ []) ts))

chain-told :
    (f : Handle → Handle) (before : List TurnStats) (ph : Phase)
    → ((h : Handle) → (f h).stats.prompt ≡ h.stats.prompt)
    → open_told before (step_chain f ph) ≡ open_told before ph
chain-told f before idle k = refl
chain-told f before (running h) k = let p = k h in ground arith
chain-told f before (cancelling begin leave h) k = let p = k h in ground arith
chain-told f before returned k = refl

append_history-suffix :
    (prompt reply : String) (ms : List Message)
    → append_history prompt reply ms ≡ suffix max_history (ms ++ exchange prompt reply)
unfolding append_history
append_history-suffix prompt reply ms =
    let longer = ms ++ exchange prompt reply in
    elim (Bool-cases (ltb max_history (length longer))) [
      | inl t ↦ rw t
      | inr f ↦ let z : length longer - max_history ≡ 0 = ground arith in rw (f, z)
    ]

module _ {E : Type 0} (push_egress : AudioFrame → E → E) (drain_egress : E → ℕ × E)
    (final_cap : ℕ) where
  -- what the model remembers
  abbrev pub Remembers : Pipeline E → Type 0
  Remembers p = p.history ≡ suffix max_history (said p.published)

  remember :
      (t : TurnStats) (p : Pipeline E)
      → Remembers p
      → append_history t.prompt t.reply p.history
        ≡ suffix max_history (said (p.published ++ t ∷ []))
  remember t p h =
      append_history-suffix t.prompt t.reply p.history
      ∙ ap (λ m. suffix max_history (m ++ exchange t.prompt t.reply)) h
      ∙ suffix-append max_history (said p.published) (exchange t.prompt t.reply)
      ∙ ap (suffix max_history) (sym (said-append p.published (t ∷ [])))

  -- the measurements that a cancellation publishes
  abbrev cancelled_stats : ℕ → ℕ → Handle → Pipeline E → TurnStats
  cancelled_stats begin now h p = record h.stats {
    cancelled = true;
    flushed_frames = (drain_egress p.egress).0;
    barge_in_latency = now - begin;
  }

  exec-Remembers :
      (ev : Event) (p : Pipeline E)
      → Remembers p
      → Remembers (exec push_egress drain_egress final_cap ev p)
  unfolding exec on_barge_in on_final on_done on_end on_cancel_ends start_turn cancel_begin
      finish_turn cancel_finish publish
  exec-Remembers Event.asks_barge_in p h = h
  exec-Remembers (Event.recognised u) p h = ground arith
  exec-Remembers (Event.takes_barge_in now) p h = ground arith
  exec-Remembers (Event.takes_final now) p h = ground arith
  exec-Remembers (Event.takes_done now) p h =
      elim (done-cases push_egress drain_egress final_cap p) [
        | inl e ↦ subst Remembers (sym e) h
        | inr (g, _, _, e) ↦ subst Remembers (sym e) (remember g.stats p h)
      ]
  exec-Remembers (Event.takes_end now) p h = ground arith
  exec-Remembers (Event.cancel_ends now) p h =
      elim (cancel-cases push_egress drain_egress final_cap now p) [
        | inl e ↦ subst Remembers (sym e) h
        | inr (begin, leave, g, _, _, e) ↦
            subst Remembers (sym e) (remember (cancelled_stats begin now g p) p h)
      ]
  exec-Remembers (Event.token text now) p h = h
  exec-Remembers (Event.handed now) p h = h
  exec-Remembers (Event.synthesised f now) p h = ground arith
  exec-Remembers Event.stage_fails p h = h
  exec-Remembers (Event.chain_ends now) p h = h

  run-Remembers :
      (evs : List Event) (p : Pipeline E)
      → Remembers p
      → Remembers (run push_egress drain_egress final_cap evs p)
  unfolding run
  run-Remembers [] p r = r
  run-Remembers (ev ∷ evs) p r =
      run-Remembers evs (exec push_egress drain_egress final_cap ev p) (exec-Remembers ev p r)

  -- what the model was asked
  abbrev Asked : Pipeline E → Type 0
  Asked p = p.asked ≡ told [] p.published ++ open_told p.published p.phase

  chain-Asked :
      (f : Handle → Handle) (p : Pipeline E)
      → ((h : Handle) → (f h).stats.prompt ≡ h.stats.prompt)
      → Asked p
      → Asked (record p { phase = step_chain f p.phase })
  chain-Asked f p k a =
      a ∙ ap (λ x. told [] p.published ++ x) (sym (chain-told f p.published p.phase k))

  publish-Asked :
      (t : TurnStats) (p : Pipeline E)
      → open_told p.published p.phase
        ≡ record { prompt = t.prompt; history = suffix max_history (said p.published) } ∷ []
      → Asked p
      → p.asked ≡ told [] (p.published ++ t ∷ []) ++ []
  publish-Asked t p o a =
      a
      ∙ ap (λ x. told [] p.published ++ x) o
      ∙ sym (told-snoc [] p.published t)
      ∙ sym (append-nil (told [] (p.published ++ t ∷ [])))

  exec-Asked :
      (ev : Event) (p : Pipeline E)
      → Remembers p
      → Asked p
      → Asked (exec push_egress drain_egress final_cap ev p)
  unfolding exec on_barge_in on_done on_end on_cancel_ends start_turn new_handle cancel_begin
      finish_turn cancel_finish publish on_token on_handed on_synthesised on_failure on_finished
  exec-Asked Event.asks_barge_in p r a = a
  exec-Asked (Event.recognised u) p r a = ground arith
  exec-Asked (Event.takes_barge_in now) p r a = ground arith
  exec-Asked (Event.takes_final now) p r a =
      elim (final-cases push_egress drain_egress final_cap now p) [
        | inl e ↦ subst Asked (sym e) a
        | inr (u, rest, i, f, inl (t, e)) ↦ subst Asked (sym e) a
        | inr (u, rest, i, f, inr (t, e)) ↦ subst Asked (sym e) (
            ap₂ (λ m h. m ++ record { prompt = u.text; history = h } ∷ [])
              (a
                ∙ ap (λ x. told [] p.published ++ open_told p.published x) i
                ∙ append-nil (told [] p.published))
              r)
      ]
  exec-Asked (Event.takes_done now) p r a = elim (done-cases push_egress drain_egress final_cap p) [
    | inl e ↦ subst Asked (sym e) a
    | inr (g, q, _, e) ↦
        subst Asked (sym e) (publish-Asked g.stats p (ap (open_told p.published) q) a)
  ]
  exec-Asked (Event.takes_end now) p r a = ground arith
  exec-Asked (Event.cancel_ends now) p r a =
      elim (cancel-cases push_egress drain_egress final_cap now p) [
        | inl e ↦ subst Asked (sym e) a
        | inr (begin, true, g, q, _, e) ↦
            subst Asked (sym e)
              (publish-Asked (cancelled_stats begin now g p) p (ap (open_told p.published) q) a)
        | inr (begin, false, g, q, _, e) ↦
            subst Asked (sym e)
              (publish-Asked (cancelled_stats begin now g p) p (ap (open_told p.published) q) a)
      ]
  exec-Asked (Event.token text now) p r a = chain-Asked (on_token text now) p (λ h. refl) a
  exec-Asked (Event.handed now) p r a = chain-Asked (on_handed now) p (λ h. refl) a
  exec-Asked (Event.synthesised f now) p r a = elim (Bool-cases (chain_runs p.phase)) [
    | inl t ↦ rw (t, exec) (chain-Asked (on_synthesised now) p (λ h. refl) a)
    | inr t ↦ rw (t, exec) a
  ]
  exec-Asked Event.stage_fails p r a = chain-Asked on_failure p (λ h. refl) a
  exec-Asked (Event.chain_ends now) p r a = chain-Asked (on_finished now) p (λ h. refl) a

  run-Asked :
      (evs : List Event) (p : Pipeline E)
      → Remembers p
      → Asked p
      → Asked (run push_egress drain_egress final_cap evs p)
  unfolding run
  run-Asked [] p r a = a
  run-Asked (ev ∷ evs) p r a =
      run-Asked evs (exec push_egress drain_egress final_cap ev p) (exec-Remembers ev p r)
        (exec-Asked ev p r a)

  -- From a new conversation, after any events, the model has been asked once for each published turn
  -- and for the turn in hand, in order: with the prompt of the turn, and with the last 16 messages of
  -- the turns published before it, cancelled ones included. The memory for the next turn is the last
  -- 16 messages of all published turns.
  pub history_last :
      (evs : List Event) (p : Pipeline E)
      → p.history ≡ []
      → p.published ≡ []
      → p.asked ≡ []
      → p.phase ≡ idle
      → let p' = run push_egress drain_egress final_cap evs p in
        (p'.asked ≡ told [] p'.published ++ open_told p'.published p'.phase)
        × (p'.history ≡ suffix max_history (said p'.published))
        × (length p'.history ≤ max_history)
  history_last evs p h h' h'' i =
      let start : Remembers p = rw (h, h') refl in
      let r = run-Remembers evs p start in
      let p' = run push_egress drain_egress final_cap evs p in
      let l = ap length r in
      let l' = length-suffix max_history (said p'.published) in
      let asked : Asked p = rw (h', h'', i) refl in (run-Asked evs p start asked, r, omega arith)
