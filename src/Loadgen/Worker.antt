-- ===== src/Loadgen/Worker.antt =====
-- internal/loadgen/worker.go: the turns of a virtual caller. Times are nanoseconds. What the
-- connection and the clock do is given round by round to each loop; `pending` is that a loop still
-- runs: its rounds are used up, or a send has not returned.
pub mod Ends
use voice_flux_engine.Prelude.{
  ℕ, suc, ◌+◌, ◌-◌, ◌*◌, ◌%◌, ◌≤◌, ◌<◌, ◌^◌, ◌≡◌, refl, ltb, leb, ◌==◌, ◌&&◌, if◌then◌else◌,
  if-true, if-false, Bool, true, false, Bool-cases, Option, none, some, List, [], ◌∷◌, ◌++◌, u64,
  arith, ◌⊎◌, inl, inr,
}
use voice_flux_engine.Prelude.Int.{ℤ, pos, sub_nat}
use voice_flux_engine.Loadgen.Collector.{
  SampleKind, sample_first, sample_barge, WorkerOp, exits, completes, fails, samples,
}

pub data WaitPhase : Type 0 where
  first_response barge_in quiesce : WaitPhase

-- A send fails, the reader reports an error, or a phase passes its deadline.
pub data WorkerError : Type 0 where
  send_failed connection_failed : WorkerError
  timeout : WaitPhase → WorkerError

pub data Wait {ℓ} (A : Type ℓ) : Type ℓ where
  pending : Wait A
  broken : WorkerError → Wait A
  done : A → Wait A

-- A send returns without or with an error, or blocks.
pub data Sent : Type 0 where
  went failed blocked : Sent

-- how a loop goes on after a send
abbrev pub on_send {ℓ} : {A : Type ℓ} → Sent → Wait A → Wait A
on_send went rest = rest
on_send failed rest = broken send_failed
on_send blocked rest = pending

-- what the select without blocking takes
pub data Pick : Type 0 where
  nothing read_error : Pick
  arrival : ℕ → Pick

-- One round of a loop: what becomes of its send, what its select takes, the time of the last audio
-- and the time at the check of the deadline.
pub record Round : Type 0 where
  pub sends : Sent
  pub pick : Pick
  pub last_audio : ℕ
  pub now : ℕ

-- the check of the deadline, and the rest of the loop
abbrev pub past_deadline {ℓ} : {A : Type ℓ} → WaitPhase → ℕ → Round → Wait A → Wait A
past_deadline phase deadline r rest = if ltb deadline r.now then broken (timeout phase) else rest

-- the select: `otherwise` is where it goes on
abbrev pub on_pick : Pick → (after : ℕ) → (otherwise : Wait ℕ) → Wait ℕ
on_pick nothing after otherwise = otherwise
on_pick read_error after otherwise = broken connection_failed
on_pick (arrival t) after otherwise = if leb after t then done t else otherwise

unfoldable pub silence_until_audio_after : (after deadline : ℕ) → List Round → Wait ℕ
silence_until_audio_after after deadline [] = pending
silence_until_audio_after after deadline (r ∷ rs) =
    let rest = silence_until_audio_after after deadline rs in
    on_send r.sends (on_pick r.pick after (past_deadline first_response deadline r rest))

-- the send comes last
unfoldable pub await_barge : (after deadline : ℕ) → List Round → Wait ℕ
await_barge after deadline [] = pending
await_barge after deadline (r ∷ rs) =
    let rest = await_barge after deadline rs in
    on_pick r.pick after (past_deadline barge_in deadline r (on_send r.sends rest))

unfoldable pub silence_until_quiet : (quiet_gap deadline : ℕ) → List Round → Wait (Unit {0})
silence_until_quiet quiet_gap deadline [] = pending
silence_until_quiet quiet_gap deadline (r ∷ rs) =
    let rest = silence_until_quiet quiet_gap deadline rs in
    on_send r.sends (
      if leb (r.last_audio + quiet_gap) r.now
      then done tt
      else past_deadline quiesce deadline r rest)

-- `silenceFor`: the time is read before each send
unfoldable pub silence_for : (until : ℕ) → List Round → Wait (Unit {0})
silence_for until [] = pending
silence_for until (r ∷ rs) =
    let rest = silence_for until rs in if ltb r.now until then on_send r.sends rest else done tt

-- the frames of an utterance; the result is the ideal time of the last one
unfoldable pub speak : (spoke_at : ℕ) → List Sent → Wait ℕ
speak spoke_at [] = done spoke_at
speak spoke_at (x ∷ sends) = let rest = speak spoke_at sends in on_send x rest

-- What a turn meets: the sends of the utterance, the ideal time of its last frame, the rounds of the
-- loops with their deadlines, the same for the interruption, and what the worker meets when it waits
-- for quiet after a timeout.
pub record TurnScript : Type 0 where
  pub sends : List Sent
  pub spoke_at : ℕ
  pub first_deadline : ℕ
  pub first_rounds : List Round
  pub ride_until : ℕ
  pub ride_rounds : List Round
  pub barge_start : ℕ
  pub barge_sends : List Sent
  pub barge_spoke_at : ℕ
  pub barge_deadline : ℕ
  pub barge_rounds : List Round
  pub second_deadline : ℕ
  pub second_rounds : List Round
  pub quiet_deadline : ℕ
  pub quiet_rounds : List Round
  pub realign_deadline : ℕ
  pub realign_rounds : List Round

-- what the turn has measured, and how it goes on
abbrev pub TurnResult : Type 0
TurnResult = List (SampleKind × ℤ) × Wait (Unit {0})

infixl 5 ◌then_do◌
abbrev pub ◌then_do◌ {ℓ} : {A : Type ℓ} → Wait A → (A → TurnResult) → TurnResult
pending then_do f = ([], pending)
broken e then_do f = ([], broken e)
done a then_do f = f a

abbrev pub measure : SampleKind → (at since : ℕ) → TurnResult → TurnResult
measure k at since (ms, w) = ((k, sub_nat at since) ∷ ms, w)

unfoldable pub quiet : ℕ → TurnScript → TurnResult
quiet quiet_gap s = ([], silence_until_quiet quiet_gap s.quiet_deadline s.quiet_rounds)

-- the interruption; the channel of its signals is drained before
unfoldable pub barge_part : ℕ → TurnScript → TurnResult
barge_part quiet_gap s = silence_for s.ride_until s.ride_rounds then_do λ _.
    speak s.barge_spoke_at s.barge_sends then_do λ spoke_at.
    await_barge s.barge_start s.barge_deadline s.barge_rounds then_do λ barge_at.
    measure sample_barge barge_at s.barge_start (
      silence_until_audio_after barge_at s.second_deadline s.second_rounds then_do λ first_at.
      measure sample_first first_at spoke_at (quiet quiet_gap s))

-- `turn`
unfoldable pub turn : (quiet_gap : ℕ) (barge : Bool) → TurnScript → TurnResult
turn quiet_gap barge s = speak s.spoke_at s.sends then_do λ spoke_at.
    silence_until_audio_after spoke_at s.first_deadline s.first_rounds then_do λ first_at.
    measure sample_first first_at spoke_at
      (if barge then barge_part quiet_gap s else quiet quiet_gap s)

-- the rule of `run` for the turns with an interruption; turns are numbered from 1
abbrev pub is_barge : (barge_every turn_no : ℕ) → Bool
is_barge barge_every turn_no = ltb 0 barge_every && (turn_no % barge_every == 0)

abbrev pub sample_ops : List (SampleKind × ℤ) → List WorkerOp
sample_ops [] = []
sample_ops ((k, d) ∷ ms) = samples k d ∷ sample_ops ms

-- how `run` goes on after a timeout: what its second wait for quiet brings does not matter
abbrev pub realign : Wait (Unit {0}) → (rest : List WorkerOp) → List WorkerOp
realign pending rest = []
realign (broken e) rest = rest
realign (done _) rest = rest

-- The loop of `run`, while its context lasts: what it gives the collector.
unfoldable pub run : (quiet_gap barge_every turn_no : ℕ) → List TurnScript → List WorkerOp
run quiet_gap barge_every turn_no [] = exits ∷ []
run quiet_gap barge_every turn_no (s ∷ scripts) =
    let (ms, w) = turn quiet_gap (is_barge barge_every turn_no) s in
    let rest = run quiet_gap barge_every (turn_no + 1) scripts in
    sample_ops ms ++ (elim w [
      | pending ↦ []
      | broken (timeout phase) ↦
          fails ∷ realign (silence_until_quiet quiet_gap s.realign_deadline s.realign_rounds) rest
      | broken send_failed ↦ fails ∷ exits ∷ []
      | broken connection_failed ↦ fails ∷ exits ∷ []
      | done _ ↦ completes ∷ rest
    ])

-- the seed of a worker's disturbance
abbrev pub seed_for : (seed id : ℕ) → ℕ
seed_for seed id = u64 (seed * 31 + id + 1)
