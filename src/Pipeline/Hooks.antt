-- ===== src/Pipeline/Hooks.antt =====
-- The hooks at the start and the end of the turns, over every history of the orchestrator.
use voice_flux_engine.Prelude.{
  ℕ, ◌-◌, ◌≡◌, refl, sym, ap, ◌∙◌, subst, Bool, true, false, Bool-cases, List, [], ◌∷◌, ◌++◌,
  append-nil, append_assoc, arith, inl, inr,
}
use voice_flux_engine.Adapter.{AudioFrame}
use voice_flux_engine.Pipeline.{
  TurnStats, Handle, Phase, idle, running, cancelling, returned, Hook, turn_start, turn_end,
  Pipeline, start_turn, finish_turn, cancel_begin, cancel_finish, publish, on_token, on_handed,
  on_synthesised, on_failure, on_finished, new_handle, after_cancel,
}
use voice_flux_engine.Pipeline.Run.{
  Event, exec, run, on_barge_in, on_final, on_done, on_end, on_cancel_ends, step_chain, done-cases,
  cancel-cases, final-cases, chain_runs,
}

-- the calls of the hooks for the published turns, and for the turn in hand
abbrev pub turn_hooks : List TurnStats → List Hook
turn_hooks [] = []
turn_hooks (t ∷ ts) = turn_start ∷ turn_end t.cancelled ∷ turn_hooks ts

abbrev pub open_hooks : Phase → List Hook
open_hooks (running h) = turn_start ∷ []
open_hooks (cancelling _ _ h) = turn_start ∷ []
open_hooks idle = []
open_hooks returned = []

-- whether the measurements of the turn in hand already say that it was cancelled
abbrev pub open_cancelled : Phase → Bool
open_cancelled (running h) = h.stats.cancelled
open_cancelled (cancelling _ _ h) = h.stats.cancelled
open_cancelled idle = false
open_cancelled returned = false

chain-open :
    (f : Handle → Handle) (ph : Phase)
    → ((h : Handle) → (f h).stats.cancelled ≡ h.stats.cancelled)
    → (open_hooks (step_chain f ph) ≡ open_hooks ph)
      × (open_cancelled (step_chain f ph) ≡ open_cancelled ph)
chain-open f idle k = (refl, refl)
chain-open f (running h) k = let kh = k h in (refl, ground arith)
chain-open f (cancelling begin leave h) k = let kh = k h in (refl, ground arith)
chain-open f returned k = (refl, refl)

turn_hooks-append :
    (ts us : List TurnStats) → turn_hooks (ts ++ us) ≡ turn_hooks ts ++ turn_hooks us
turn_hooks-append [] us = refl
turn_hooks-append (t ∷ ts) us =
    ap (λ r. turn_start ∷ turn_end t.cancelled ∷ r) (turn_hooks-append ts us)

module _ {E : Type 0} (push_egress : AudioFrame → E → E) (drain_egress : E → ℕ × E)
    (final_cap : ℕ) where
  -- the hooks that were called
  abbrev pub Announced : Pipeline E → Type 0
  Announced p =
      (p.hooks ≡ turn_hooks p.published ++ open_hooks p.phase) × (open_cancelled p.phase ≡ false)

  announce :
      (t : TurnStats) (p : Pipeline E)
      → open_hooks p.phase ≡ turn_start ∷ []
      → p.hooks ≡ turn_hooks p.published ++ open_hooks p.phase
      → p.hooks ++ turn_end t.cancelled ∷ [] ≡ turn_hooks (p.published ++ t ∷ []) ++ []
  announce t p o h =
      ap (λ m. m ++ turn_end t.cancelled ∷ []) (h ∙ ap (λ m. turn_hooks p.published ++ m) o)
      ∙ append_assoc (turn_hooks p.published) (turn_start ∷ []) (turn_end t.cancelled ∷ [])
      ∙ sym (turn_hooks-append p.published (t ∷ []))
      ∙ sym (append-nil (turn_hooks (p.published ++ t ∷ [])))

  -- the measurements that a cancellation publishes
  abbrev cancelled_stats : ℕ → ℕ → Handle → Pipeline E → TurnStats
  cancelled_stats begin now h p = record h.stats {
    cancelled = true;
    flushed_frames = (drain_egress p.egress).0;
    barge_in_latency = now - begin;
  }

  chain-Announced :
      (f : Handle → Handle) (p : Pipeline E)
      → ((h : Handle) → (f h).stats.cancelled ≡ h.stats.cancelled)
      → Announced p
      → Announced (record p { phase = step_chain f p.phase })
  chain-Announced f p k (h, c) =
      let (o, d) = chain-open f p.phase k in
      (h ∙ ap (λ m. turn_hooks p.published ++ m) (sym o), d ∙ c)

  -- a phase without a turn
  after-cancel :
      (leave : Bool) (hooks hooks' : List Hook)
      → hooks ≡ hooks' ++ []
      → (hooks ≡ hooks' ++ open_hooks (after_cancel leave))
        × (open_cancelled (after_cancel leave) ≡ false)
  after-cancel true hooks hooks' e = (e, refl)
  after-cancel false hooks hooks' e = (e, refl)

  -- a step of `Run` that keeps the turn in hand
  same-Announced :
      (p q : Pipeline E)
      → q.hooks ≡ p.hooks
      → q.published ≡ p.published
      → open_hooks q.phase ≡ open_hooks p.phase
      → open_cancelled q.phase ≡ open_cancelled p.phase
      → Announced p
      → Announced q
  same-Announced p q e e' e'' e3 (h, c) = (
    e
        ∙ h
        ∙ ap (λ m. turn_hooks m ++ open_hooks p.phase) (sym e')
        ∙ ap (λ m. turn_hooks q.published ++ m) (sym e''),
    e3 ∙ c,
  )

  exec-Announced :
      (ev : Event) (p : Pipeline E)
      → Announced p
      → Announced (exec push_egress drain_egress final_cap ev p)
  unfolding exec on_barge_in on_final on_done on_end on_cancel_ends start_turn cancel_begin
      finish_turn cancel_finish publish new_handle on_token on_handed on_synthesised on_failure
      on_finished
  exec-Announced Event.asks_barge_in p h = h
  exec-Announced (Event.recognised u) p h = ground arith
  exec-Announced (Event.takes_barge_in now) p hc =
      same-Announced p (on_barge_in push_egress drain_egress final_cap now p) (ground arith)
        (ground arith) (ground arith) (ground arith) hc
  exec-Announced (Event.takes_final now) p (h, c) =
      elim (final-cases push_egress drain_egress final_cap now p) [
        | inl e ↦ subst Announced (sym e) (h, c)
        | inr (u, rest, i, _, inl (_, e)) ↦ subst Announced (sym e) (h, c)
        | inr (u, rest, i, _, inr (_, e)) ↦ subst Announced (sym e) (
          ap (λ m. m ++ turn_start ∷ [])
              (h
                ∙ ap (λ m. turn_hooks p.published ++ open_hooks m) i
                ∙ append-nil (turn_hooks p.published)),
          refl,
        )
      ]
  exec-Announced (Event.takes_done now) p (h, c) =
      elim (done-cases push_egress drain_egress final_cap p) [
        | inl e ↦ subst Announced (sym e) (h, c)
        | inr (g, r, _, e) ↦
            let no_cancel : g.stats.cancelled ≡ false = sym (ap open_cancelled r) ∙ c in
            subst Announced (sym e) (
              ap (λ b. p.hooks ++ turn_end b ∷ []) (sym no_cancel)
                  ∙ announce g.stats p (ap open_hooks r) h,
              refl,
            )
      ]
  exec-Announced (Event.takes_end now) p hc =
      same-Announced p (on_end push_egress drain_egress final_cap now p) (ground arith)
        (ground arith) (ground arith) (ground arith) hc
  exec-Announced (Event.cancel_ends now) p (h, c) =
      elim (cancel-cases push_egress drain_egress final_cap now p) [
        | inl e ↦ subst Announced (sym e) (h, c)
        | inr (begin, leave, g, r, _, e) ↦ subst Announced (sym e) (
            after-cancel leave _ (turn_hooks (p.published ++ cancelled_stats begin now g p ∷ []))
              (announce (cancelled_stats begin now g p) p (ap open_hooks r) h))
      ]
  exec-Announced (Event.token text now) p hc = chain-Announced (on_token text now) p (λ g. refl) hc
  exec-Announced (Event.handed now) p hc = chain-Announced (on_handed now) p (λ g. refl) hc
  exec-Announced (Event.synthesised f now) p hc = elim (Bool-cases (chain_runs p.phase)) [
    | inl t ↦ rw (t, exec) (chain-Announced (on_synthesised now) p (λ g. refl) hc)
    | inr t ↦ rw (t, exec) hc
  ]
  exec-Announced Event.stage_fails p hc = chain-Announced on_failure p (λ g. refl) hc
  exec-Announced (Event.chain_ends now) p hc = chain-Announced (on_finished now) p (λ g. refl) hc

  run-Announced :
      (evs : List Event) (p : Pipeline E)
      → Announced p
      → Announced (run push_egress drain_egress final_cap evs p)
  unfolding run
  run-Announced [] p r = r
  run-Announced (ev ∷ evs) p r =
      run-Announced evs (exec push_egress drain_egress final_cap ev p) (exec-Announced ev p r)

  -- From a new conversation, after any events, the turn hooks have been called once at the start and
  -- once at the end of each published turn, in turn, the end saying whether it was cancelled; a
  -- further start is that of the turn in hand.
  pub hooks_pair :
      (evs : List Event) (p : Pipeline E)
      → p.hooks ≡ []
      → p.published ≡ []
      → p.phase ≡ idle
      → let p' = run push_egress drain_egress final_cap evs p in
        p'.hooks ≡ turn_hooks p'.published ++ open_hooks p'.phase
  hooks_pair evs p h h' i =
      let start : Announced p = rw (h, h', i) (refl, refl) in (run-Announced evs p start).0
