-- ===== src/Vad.antt =====
-- internal/vad: the dialogue state machine (machine.go), the energy detector (vad.go) and the
-- controller that joins them on the reading goroutine (controller.go). The machine's mutex makes
-- each call one step; the optional observer `OnIllegal` only logs.
pub mod Rms
pub mod Detector
pub mod Dialogue
pub mod Joint
mod Tests
use voice_flux_engine.Prelude.{
  ℕ, ◌+◌, ◌*◌, ltb, leb, if◌then◌else◌, u64, Bool, true, false, Option, none, some, List, [], ◌∷◌,
  ◌++◌, ◌-◌, ◌/◌,
}
use voice_flux_engine.Prelude.Int.{ℤ, pos, negsuc}

pub data State : Type 0 where
  listening speaking_user thinking responding_agent : State

pub data Action : Type 0 where
  act_none act_end_utterance act_cancel_turn : Action

-- `Event.None` is `nothing`.
pub data Event : Type 0 where
  nothing speech_start speech_end response_started response_done : Event

pub record Machine : Type 0 where
  pub state : State
  pub illegal : ℕ

abbrev pub new_machine : Machine
new_machine = record { state = listening; illegal = 0 }

-- the cell of the transition table, if the event is legal in the state
unfoldable pub cell : State → Event → Option (State × Action)
cell listening speech_start = some (speaking_user, act_none)
cell listening response_started = some (responding_agent, act_none)
cell listening response_done = some (listening, act_none)
cell speaking_user speech_end = some (thinking, act_end_utterance)
cell speaking_user response_started = some (speaking_user, act_cancel_turn)
cell speaking_user response_done = some (speaking_user, act_none)
cell thinking speech_start = some (speaking_user, act_cancel_turn)
cell thinking response_started = some (responding_agent, act_none)
cell thinking response_done = some (listening, act_none)
cell responding_agent speech_start = some (speaking_user, act_cancel_turn)
cell responding_agent response_done = some (listening, act_none)
cell _ _ = none

pub record Applied : Type 0 where
  pub action : Action
  pub failed : Bool
  pub machine : Machine

-- `Apply`; `failed` is whether it returns an error.
unfoldable pub apply : Event → Machine → Applied
unfolding cell
apply ev m = elim (cell m.state ev) [
  | none ↦ record {
    action = act_none;
    failed = true;
    machine = record m { illegal = u64 (m.illegal + 1) };
  }
  | some (next, act) ↦ record { action = act; failed = false; machine = record m { state = next } }
]

-- The detector. `L` is the type of levels (float64), with its comparisons `level >= Enter` and
-- `level < Exit` as functions.
pub record Energy (L : Type 0) : Type 0 where
  pub enter : L
  pub exit : L
  pub min_speech_frames : ℕ
  pub hangover_frames : ℕ
  pub in_speech : Bool
  pub run : ℕ

module _ {L : Type 0} (ge lt : L → L → Bool) where
  -- `Process` once the level of the frame is known
  unfoldable pub process : L → Energy L → Event × Energy L
  process level e =
      if e.in_speech
      then (if lt level e.exit
          then (if leb e.hangover_frames (e.run + 1)
              then (speech_end, record e { in_speech = false; run = 0 })
              else (nothing, record e { run = e.run + 1 }))
          else (nothing, record e { run = 0 }))
      else (if ge level e.enter
          then (if leb e.min_speech_frames (e.run + 1)
              then (speech_start, record e { in_speech = true; run = 0 })
              else (nothing, record e { run = e.run + 1 }))
          else (nothing, record e { run = 0 }))

-- `durationFrames` of non-negative durations in nanoseconds.
unfoldable pub duration_frames : ℤ → ℤ → ℕ
duration_frames d (negsuc n) = 1
duration_frames (negsuc d) (pos n) = 1
duration_frames (pos d) (pos n) =
    if ltb 0 n then (if ltb ((d + n - 1) / n) 1 then 1 else (d + n - 1) / n) else 1

-- the calls that the controller makes on its sink
pub data SinkCall (F : Type 0) : Type 0 where
  push_audio : F → SinkCall F
  end_utterance barge_in : SinkCall F

pub record Controller (L : Type 0) : Type 0 where
  pub det : Energy L
  pub machine : Machine

abbrev pub action_calls : {F : Type 0} → Action → List (SinkCall F)
action_calls act_none = []
action_calls act_end_utterance = end_utterance ∷ []
action_calls act_cancel_turn = barge_in ∷ []

-- the unexported `apply` of the controller
unfoldable pub feed : {F L : Type 0} → Event → Controller L → List (SinkCall F) × Controller L
feed ev c =
    let a = apply ev c.machine in
    (if a.failed then [] else action_calls a.action, record c { machine = a.machine })

abbrev pub is_nothing : Event → Bool
is_nothing nothing = true
is_nothing _ = false

module _ {L F : Type 0} (ge lt : L → L → Bool) (level : F → L) where
  unfoldable pub ingest : F → Controller L → List (SinkCall F) × Controller L
  ingest f c =
      let (ev, det') = process ge lt (level f) c.det in
      let c' = record c { det = det' } in
      let (calls, c'') = feed ev c' in
      if is_nothing ev then (push_audio f ∷ [], c') else (calls ++ push_audio f ∷ [], c'')
