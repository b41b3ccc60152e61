-- ===== src/Pipeline/Run.antt =====
-- The orchestrator among the goroutines around it. `Run` selects among what is ready in any order,
-- so each case of its select is an event of its own.
use Prim.Native.String.{String}
use text.Mathlib.Text.{◌==◌ as str_eq}
use voice_flux_engine.Prelude.{
  ℕ, ◌≡◌, ◌⊎◌, arith, ltb, if◌then◌else◌, Bool, true, false, List, [], ◌∷◌, ◌++◌, length,
}
use voice_flux_engine.Adapter.{AudioFrame}
use voice_flux_engine.Pipeline.{
  Utterance, Handle, Phase, idle, running, cancelling, returned, Pipeline, on_token, on_handed,
  on_synthesised, on_failure, on_finished, start_turn, finish_turn, cancel_begin, cancel_finish,
}

pub data Event : Type 0 where
  -- `BargeIn` is called; the recognition loop has a final transcript
  asks_barge_in : Event
  recognised : Utterance → Event
  -- the cases of the select: a barge-in, a final, the end of the turn, the end of the conversation
  takes_barge_in takes_final takes_done takes_end : ℕ → Event
  -- `done` is closed while `cancelTurn` waits
  cancel_ends : ℕ → Event
  -- the response chain: a token, its hand-over, a frame, a failure, its end
  token : String → ℕ → Event
  handed : ℕ → Event
  synthesised : AudioFrame → ℕ → Event
  stage_fails : Event
  chain_ends : ℕ → Event

-- a step of the response chain, while it runs
abbrev pub step_chain : (Handle → Handle) → Phase → Phase
step_chain f (running h) = running (if h.finished then h else f h)
step_chain f (cancelling begin leave h) = cancelling begin leave (if h.finished then h else f h)
step_chain f idle = idle
step_chain f returned = returned

abbrev pub chain_runs : Phase → Bool
chain_runs (running h) = if h.finished then false else true
chain_runs (cancelling begin leave h) = if h.finished then false else true
chain_runs idle = false
chain_runs returned = false

-- `final_cap` is the capacity of `finals`.
module _ {E : Type 0} (push_egress : AudioFrame → E → E) (drain_egress : E → ℕ × E)
    (final_cap : ℕ) where
  unfoldable pub on_barge_in : ℕ → Pipeline E → Pipeline E
  on_barge_in now p =
      if p.barge_in
      then elim p.phase [
        | idle ↦ record p { barge_in = false }
        | running h ↦ cancel_begin now false h (record p { barge_in = false })
        | cancelling _ _ _ ↦ p
        | returned ↦ p
      ]
      else p

  unfoldable pub on_final : ℕ → Pipeline E → Pipeline E
  on_final now p = elim p.phase [
    | idle ↦ elim p.finals [
      | [] ↦ p
      | u ∷ rest ↦
          if str_eq u.text ""
          then record p { finals = rest }
          else start_turn u now (record p { finals = rest })
    ]
    | running _ ↦ p
    | cancelling _ _ _ ↦ p
    | returned ↦ p
  ]

  unfoldable pub on_done : Pipeline E → Pipeline E
  on_done p = elim p.phase [
    | running h ↦ if h.finished then finish_turn h p else p
    | idle ↦ p
    | cancelling _ _ _ ↦ p
    | returned ↦ p
  ]

  unfoldable pub on_end : ℕ → Pipeline E → Pipeline E
  on_end now p = elim p.phase [
    | running h ↦ cancel_begin now true h p
    | idle ↦ record p { phase = returned }
    | cancelling _ _ _ ↦ p
    | returned ↦ p
  ]

  unfoldable pub on_cancel_ends : ℕ → Pipeline E → Pipeline E
  on_cancel_ends now p = elim p.phase [
    | cancelling begin leave h ↦
        if h.finished then cancel_finish drain_egress begin leave now h p else p
    | idle ↦ p
    | running _ ↦ p
    | returned ↦ p
  ]

  unfoldable pub exec : Event → Pipeline E → Pipeline E
  exec asks_barge_in p = record p { barge_in = true }
  exec (recognised u) p =
      if ltb (length p.finals) final_cap then record p { finals = p.finals ++ u ∷ [] } else p
  exec (takes_barge_in now) p = on_barge_in now p
  exec (takes_final now) p = on_final now p
  exec (takes_done now) p = on_done p
  exec (takes_end now) p = on_end now p
  exec (cancel_ends now) p = on_cancel_ends now p
  exec (token text now) p = record p { phase = step_chain (on_token text now) p.phase }
  exec (handed now) p = record p { phase = step_chain (on_handed now) p.phase }
  exec (synthesised f now) p =
      if chain_runs p.phase
      then record p {
        egress = push_egress f p.egress;
        phase = step_chain (on_synthesised now) p.phase;
      }
      else p
  exec stage_fails p = record p { phase = step_chain on_failure p.phase }
  exec (chain_ends now) p = record p { phase = step_chain (on_finished now) p.phase }

  unfoldable pub run : List Event → Pipeline E → Pipeline E
  run [] p = p
  run (ev ∷ evs) p = run evs (exec ev p)

  -- The two events that end a turn either do nothing or end the turn in hand.
  pub done-cases :
      (p : Pipeline E)
      → (on_done p ≡ p)
        ⊎ ((h : Handle) × (p.phase ≡ running h)
            × (h.finished ≡ true)
            × (on_done p ≡ finish_turn h p))
  unfolding on_done
  done-cases p = ground arith

  pub cancel-cases :
      (now : ℕ) (p : Pipeline E)
      → (on_cancel_ends now p ≡ p)
        ⊎ ((begin : ℕ) × (leave : Bool) × (h : Handle) × (p.phase ≡ cancelling begin leave h)
            × (h.finished ≡ true)
            × (on_cancel_ends now p ≡ cancel_finish drain_egress begin leave now h p))
  unfolding on_cancel_ends
  cancel-cases now p = ground arith

  pub final-cases :
      (now : ℕ) (p : Pipeline E)
      → (on_final now p ≡ p)
        ⊎ ((u : Utterance) × (rest : List Utterance) × (p.phase ≡ idle)
            × (p.finals ≡ u ∷ rest)
            × (((str_eq u.text "" ≡ true) × (on_final now p ≡ record p { finals = rest }))
                ⊎ ((str_eq u.text "" ≡ false)
                    × (on_final now p ≡ start_turn u now (record p { finals = rest })))))
  unfolding on_final
  final-cases now p = ground arith
