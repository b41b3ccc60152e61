-- ===== src/Pipeline/Turns.antt =====
-- Utterances and turns: each final gets one turn, in order, and what cancels a turn.
use Prim.Native.String.{String}
use text.Mathlib.Text.{◌==◌ as str_eq}
use voice_flux_engine.Prelude.{
  ℕ, ◌≡◌, refl, sym, ap, ◌∙◌, ltb, if◌then◌else◌, Bool, true, false, Bool-cases, if-true, if-false,
  List, [], ◌∷◌, ◌++◌, length, map, map-append, append-nil, append_assoc, arith, inl, inr,
}
use voice_flux_engine.Adapter.{AudioFrame}
use voice_flux_engine.Pipeline.{
  Utterance, TurnStats, Handle, Phase, idle, running, cancelling, returned, Pipeline, start_turn,
  finish_turn, cancel_begin, cancel_finish, publish, on_token, on_handed, on_synthesised,
  on_failure, on_finished, new_handle,
}
use voice_flux_engine.Pipeline.Run.{
  Event, exec, run, on_barge_in, on_final, on_done, on_end, on_cancel_ends, step_chain, done-cases,
  cancel-cases, final-cases, chain_runs, asks_barge_in, takes_barge_in, takes_final,
}

-- the texts of the utterances that say something
abbrev pub spoken : List Utterance → List String
spoken [] = []
spoken (u ∷ us) = if str_eq u.text "" then spoken us else u.text ∷ spoken us

abbrev pub open_prompt : Phase → List String
open_prompt (running h) = h.stats.prompt ∷ []
open_prompt (cancelling _ _ h) = h.stats.prompt ∷ []
open_prompt idle = []
open_prompt returned = []

abbrev pub prompts : List TurnStats → List String
prompts ts = map (λ t. t.prompt) ts

spoken-append : (us vs : List Utterance) → spoken (us ++ vs) ≡ spoken us ++ spoken vs
spoken-append [] vs = refl
spoken-append (u ∷ us) vs = elim (Bool-cases (str_eq u.text "")) [
  | inl t ↦ rw (t) (spoken-append us vs)
  | inr t ↦ rw (t) (ap (◌∷◌ u.text) (spoken-append us vs))
]

step-prompt :
    (b : Bool) (f : Handle → Handle) (h : Handle)
    → (f h).stats.prompt ≡ h.stats.prompt
    → (if b then h else f h).stats.prompt ∷ [] ≡ h.stats.prompt ∷ []
step-prompt true f h k = refl
step-prompt false f h k = ap (λ x. x ∷ []) k

chain-prompt :
    (f : Handle → Handle) (ph : Phase)
    → ((h : Handle) → (f h).stats.prompt ≡ h.stats.prompt)
    → open_prompt (step_chain f ph) ≡ open_prompt ph
chain-prompt f idle k = refl
chain-prompt f (running h) k = step-prompt h.finished f h (k h)
chain-prompt f (cancelling begin leave h) k = step-prompt h.finished f h (k h)
chain-prompt f returned k = refl

module _ {E : Type 0} (push_egress : AudioFrame → E → E) (drain_egress : E → ℕ × E)
    (final_cap : ℕ) where
  -- the utterance that an event adds to the queue of finals
  unfoldable pub accepts : Event → Pipeline E → List Utterance
  accepts (Event.recognised u) p = if ltb (length p.finals) final_cap then u ∷ [] else []
  accepts _ p = []

  unfoldable pub accepted : List Event → Pipeline E → List Utterance
  accepted [] p = []
  accepted (ev ∷ evs) p =
      accepts ev p ++ accepted evs (exec push_egress drain_egress final_cap ev p)

  -- the prompts of the turns that were, of the turn in hand, and of those to come
  abbrev pub all_prompts : Pipeline E → List String
  all_prompts p = prompts p.published ++ (open_prompt p.phase ++ spoken p.finals)

  same-prompts :
      (p q : Pipeline E)
      → q.published ≡ p.published
      → open_prompt q.phase ≡ open_prompt p.phase
      → q.finals ≡ p.finals
      → all_prompts q ≡ all_prompts p ++ []
  same-prompts p q e e' e'' =
      ap (λ m. prompts m ++ (open_prompt q.phase ++ spoken q.finals)) e
      ∙ ap (λ m. prompts p.published ++ (m ++ spoken q.finals)) e'
      ∙ ap (λ m. prompts p.published ++ (open_prompt p.phase ++ spoken m)) e''
      ∙ sym (append-nil (all_prompts p))

  chain-prompts :
      (f : Handle → Handle) (p : Pipeline E)
      → ((h : Handle) → (f h).stats.prompt ≡ h.stats.prompt)
      → all_prompts (record p { phase = step_chain f p.phase }) ≡ all_prompts p ++ []
  chain-prompts f p k =
      same-prompts p (record p { phase = step_chain f p.phase }) refl (chain-prompt f p.phase k)
        refl

  -- A turn that ends moves from the phase to the published turns.
  publish-prompts :
      (t : TurnStats) (p : Pipeline E)
      → open_prompt p.phase ≡ t.prompt ∷ []
      → prompts (p.published ++ t ∷ []) ++ spoken p.finals ≡ all_prompts p ++ []
  publish-prompts t p o =
      ap (λ m. m ++ spoken p.finals) (map-append (λ x. x.prompt) p.published (t ∷ []))
      ∙ append_assoc (prompts p.published) (t.prompt ∷ []) (spoken p.finals)
      ∙ ap (λ m. prompts p.published ++ (m ++ spoken p.finals)) (sym o)
      ∙ sym (append-nil (all_prompts p))

  add-final :
      (u : Utterance) (p : Pipeline E)
      → all_prompts (record p { finals = p.finals ++ u ∷ [] }) ≡ all_prompts p ++ spoken (u ∷ [])
  add-final u p =
      ap (λ m. prompts p.published ++ (open_prompt p.phase ++ m)) (spoken-append p.finals (u ∷ []))
      ∙ ap (λ m. prompts p.published ++ m)
          (sym (append_assoc (open_prompt p.phase) (spoken p.finals) (spoken (u ∷ []))))
      ∙ sym (
          append_assoc (prompts p.published) (open_prompt p.phase ++ spoken p.finals)
            (spoken (u ∷ [])))

  cancelled-prompts :
      (begin : ℕ) (leave : Bool) (now : ℕ) (g : Handle) (p : Pipeline E)
      → p.phase ≡ cancelling begin leave g
      → all_prompts (cancel_finish drain_egress begin leave now g p) ≡ all_prompts p ++ []
  unfolding cancel_finish publish
  cancelled-prompts begin true now g p r = publish-prompts _ p (ap open_prompt r)
  cancelled-prompts begin false now g p r = publish-prompts _ p (ap open_prompt r)

  take-final :
      (now : ℕ) (p : Pipeline E)
      → all_prompts (on_final push_egress drain_egress final_cap now p) ≡ all_prompts p
  unfolding start_turn new_handle
  take-final now p = elim (final-cases push_egress drain_egress final_cap now p) [
    | inl e ↦ ap all_prompts e
    | inr (u, rest, i, f, inl (t, e)) ↦
        ap all_prompts e
        ∙ ap (λ m. prompts p.published ++ (open_prompt p.phase ++ m))
            (sym (ap spoken f ∙ if-true (spoken rest) (u.text ∷ spoken rest) t))
    | inr (u, rest, i, f, inr (t, e)) ↦
        ap all_prompts e
        ∙ ap (λ m. prompts p.published ++ m)
            (sym (
              ap (λ m. open_prompt m ++ spoken p.finals) i
              ∙ ap spoken f
              ∙ if-false (spoken rest) (u.text ∷ spoken rest) t))
  ]

  exec-prompts :
      (ev : Event) (p : Pipeline E)
      → all_prompts (exec push_egress drain_egress final_cap ev p)
        ≡ all_prompts p ++ spoken (accepts ev p)
  unfolding exec accepts on_barge_in on_done on_end on_cancel_ends cancel_begin finish_turn
      cancel_finish publish on_token on_handed on_synthesised on_failure on_finished
  exec-prompts Event.asks_barge_in p = same-prompts p (record p { barge_in = true }) refl refl refl
  exec-prompts (Event.recognised u) p = elim (Bool-cases (ltb (length p.finals) final_cap)) [
    | inl t ↦ rw (t, exec, accepts) (add-final u p)
    | inr t ↦ rw (t, exec, accepts) (same-prompts p p refl refl refl)
  ]
  exec-prompts (Event.takes_barge_in now) p =
      same-prompts p (on_barge_in push_egress drain_egress final_cap now p) (ground arith)
        (ground arith) (ground arith)
  exec-prompts (Event.takes_final now) p = take-final now p ∙ sym (append-nil (all_prompts p))
  exec-prompts (Event.takes_done now) p = elim (done-cases push_egress drain_egress final_cap p) [
    | inl e ↦ ap all_prompts e ∙ sym (append-nil (all_prompts p))
    | inr (g, r, _, e) ↦ ap all_prompts e ∙ publish-prompts g.stats p (ap open_prompt r)
  ]
  exec-prompts (Event.takes_end now) p =
      same-prompts p (on_end push_egress drain_egress final_cap now p) (ground arith) (ground arith)
        (ground arith)
  exec-prompts (Event.cancel_ends now) p =
      elim (cancel-cases push_egress drain_egress final_cap now p) [
        | inl e ↦ ap all_prompts e ∙ sym (append-nil (all_prompts p))
        | inr (begin, leave, g, r, _, e) ↦
            ap all_prompts e ∙ cancelled-prompts begin leave now g p r
      ]
  exec-prompts (Event.token text now) p = chain-prompts (on_token text now) p (λ h. refl)
  exec-prompts (Event.handed now) p = chain-prompts (on_handed now) p (λ h. refl)
  exec-prompts (Event.synthesised f now) p = elim (Bool-cases (chain_runs p.phase)) [
    | inl t ↦
        rw (t, exec)
          (same-prompts p
            (record p {
              egress = push_egress f p.egress;
              phase = step_chain (on_synthesised now) p.phase;
            })
            refl (chain-prompt (on_synthesised now) p.phase (λ h. refl)) refl)
    | inr t ↦ rw (t, exec) (same-prompts p p refl refl refl)
  ]
  exec-prompts Event.stage_fails p = chain-prompts on_failure p (λ h. refl)
  exec-prompts (Event.chain_ends now) p = chain-prompts (on_finished now) p (λ h. refl)

  -- The prompts of the published turns, of the turn in hand and of the utterances still queued are,
  -- in order, those there were and then those of the utterances that the recognition hands over and
  -- that say something: none is skipped, doubled or reordered.
  pub run-prompts :
      (evs : List Event) (p : Pipeline E)
      → all_prompts (run push_egress drain_egress final_cap evs p)
        ≡ all_prompts p ++ spoken (accepted evs p)
  unfolding run accepted
  run-prompts [] p = sym (append-nil (all_prompts p))
  run-prompts (ev ∷ evs) p =
      let p' = exec push_egress drain_egress final_cap ev p in
      run-prompts evs p'
      ∙ ap (λ m. m ++ spoken (accepted evs p')) (exec-prompts ev p)
      ∙ append_assoc (all_prompts p) (spoken (accepts ev p)) (spoken (accepted evs p'))
      ∙ ap (λ m. all_prompts p ++ m) (sym (spoken-append (accepts ev p) (accepted evs p')))

  -- A barge-in that is asked for while no turn is in hand is kept: when the orchestrator then takes
  -- a waiting final first, the turn of that final is cancelled although nobody spoke into it.
  pub stale_barge_in :
      (u : Utterance) (rest : List Utterance) (now later : ℕ) (p : Pipeline E)
      → p.phase ≡ idle
      → p.finals ≡ u ∷ rest
      → str_eq u.text "" ≡ false
      → (run push_egress drain_egress final_cap
          (asks_barge_in ∷ takes_final now ∷ takes_barge_in later ∷ [])
          p).phase
        ≡ cancelling later false (record (new_handle u now) { halted = true })
  unfolding run exec on_final on_barge_in start_turn cancel_begin
  stale_barge_in u rest now later p i f t = rw (i, f, t, on_final, on_barge_in, start_turn)
