-- ===== src/Vad/Dialogue.antt =====
-- The dialogue machine over whole lists of events.
use voice_flux_engine.Prelude.{
  ℕ, suc, ◌+◌, ◌≤◌, ◌≡◌, ◌↔◌, ◌⊎◌, true, false, List, [], ◌∷◌, arith, u64,
}
use voice_flux_engine.Vad.{
  State, speaking_user, thinking, responding_agent, Action, act_none, act_end_utterance,
  act_cancel_turn, Event, speech_start, speech_end, response_started, Machine, apply,
}

-- The response chain must be cancelled exactly when the user starts to speak while an answer is
-- pending or playing, or when an answer starts while the user speaks; the machine then listens to
-- the user. An utterance is submitted exactly when the user stops speaking, and the machine then
-- waits for the answer. A rejected event leaves the state, demands nothing and is counted.
pub apply_actions :
    (ev : Event) (m : Machine)
    → let a = apply ev m in
      ((a.action ≡ act_cancel_turn) ↔ (
        ((ev ≡ speech_start) × ((m.state ≡ thinking) ⊎ (m.state ≡ responding_agent)))
        ⊎ ((ev ≡ response_started) × (m.state ≡ speaking_user))))
      × (a.action ≡ act_cancel_turn → a.machine.state ≡ speaking_user)
      × ((a.action ≡ act_end_utterance) ↔ ((ev ≡ speech_end) × (m.state ≡ speaking_user)))
      × (a.action ≡ act_end_utterance → a.machine.state ≡ thinking)
      × (a.failed ≡ true
          → (a.action ≡ act_none)
            × (a.machine.state ≡ m.state)
            × (a.machine.illegal ≡ u64 (m.illegal + 1)))
      × (a.failed ≡ false → a.machine.illegal ≡ m.illegal)
unfolding apply
apply_actions ev m = (
  (ground arith, ground arith),
  ground arith,
  (ground arith, ground arith),
  ground arith,
  ground arith,
  ground arith,
)

-- events one after another, with the actions demanded
unfoldable pub apply_all : List Event → Machine → List Action × Machine
apply_all [] m = ([], m)
apply_all (ev ∷ evs) m =
    let a = apply ev m in let (acts, m') = apply_all evs a.machine in (a.action ∷ acts, m')

abbrev pub count_starts : List Event → ℕ
count_starts [] = 0
count_starts (speech_start ∷ evs) = suc (count_starts evs)
count_starts (_ ∷ evs) = count_starts evs

abbrev pub count_submits : List Action → ℕ
count_submits [] = 0
count_submits (act_end_utterance ∷ acts) = suc (count_submits acts)
count_submits (_ ∷ acts) = count_submits acts

-- an utterance is open
abbrev pub open_utterance : State → ℕ
open_utterance speaking_user = 1
open_utterance _ = 0

submit-step :
    (ev : Event) (m : Machine) (evs : List Event) (acts : List Action)
    → count_submits acts ≤ count_starts evs + open_utterance (apply ev m).machine.state
    → count_submits ((apply ev m).action ∷ acts) ≤ count_starts (ev ∷ evs) + open_utterance m.state
unfolding apply
submit-step ev m evs acts h = ground arith

-- No list of events submits more utterances than the user began, the one already open at the start
-- included.
pub submits-le-starts :
    (evs : List Event) (m : Machine)
    → count_submits (apply_all evs m).0 ≤ count_starts evs + open_utterance m.state
unfolding apply_all
submits-le-starts [] m = omega arith
submits-le-starts (ev ∷ evs) m =
    submit-step ev m evs (apply_all evs (apply ev m).machine).0
      (submits-le-starts evs (apply ev m).machine)
