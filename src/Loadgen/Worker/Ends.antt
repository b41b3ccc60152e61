-- ===== src/Loadgen/Worker/Ends.antt =====
-- The loops of worker.go end, and what they measure.
use voice_flux_engine.Prelude.{
  ℕ, ◌<◌, ◌≡◌, ltb, leb, if◌then◌else◌, Bool, true, false, if-true, if-false, subst, sym, ◌+◌, List,
  [], ◌∷◌, arith,
}
use voice_flux_engine.Loadgen.Collector.{SampleKind, sample_first}
use voice_flux_engine.Loadgen.Worker.{
  WaitPhase, first_response, barge_in, quiesce, WorkerError, send_failed, connection_failed,
  timeout, Wait, broken, done, Sent, went, failed, on_send, Pick, nothing, read_error, arrival,
  Round, silence_until_audio_after, past_deadline, on_pick, await_barge, silence_until_quiet,
  silence_for, speak, TurnScript, TurnResult, ◌then_do◌, measure, quiet, barge_part, turn,
}

-- The send has returned, with an error or not.
pub data Returns : Sent → Type 0 where
  well : Returns went
  ill : Returns failed

pub data AllReturn : List Sent → Type 0 where
  none_left : AllReturn []
  one_more : {x : Sent} {xs : List Sent} → Returns x → AllReturn xs → AllReturn (x ∷ xs)

-- A round of the list is at a time after `t`, and its send and those before it return.
pub data Passes (t : ℕ) : List Round → Type 0 where
  here : {r : Round} {rs : List Round} → Returns r.sends → t < r.now → Passes t (r ∷ rs)
  there : {r : Round} {rs : List Round} → Returns r.sends → Passes t rs → Passes t (r ∷ rs)

pub data Ends {ℓ} {A : Type ℓ} : Wait A → Type ℓ where
  broke : (e : WorkerError) → Ends (broken e)
  did : (a : A) → Ends (done a)

if-Ends {ℓ} : {A : Type ℓ} (b : Bool) {x y : Wait A} → Ends x → Ends y → Ends (if b then x else y)
if-Ends true h k = h
if-Ends false h k = k

on_send-Ends {ℓ} : {A : Type ℓ} {x : Sent} {w : Wait A} → Returns x → Ends w → Ends (on_send x w)
on_send-Ends well k = k
on_send-Ends ill k = broke send_failed

on_pick-Ends : (p : Pick) (after : ℕ) {w : Wait ℕ} → Ends w → Ends (on_pick p after w)
on_pick-Ends nothing after h = h
on_pick-Ends read_error after h = broke connection_failed
on_pick-Ends (arrival t) after h = if-Ends (leb after t) (did t) h

late-Ends {ℓ} :
    {A : Type ℓ} (phase : WaitPhase) {deadline : ℕ} (r : Round) (w : Wait A)
    → deadline < r.now
    → Ends (past_deadline phase deadline r w)
late-Ends phase {deadline} r w h =
    let t : ltb deadline r.now ≡ true = ground arith in
    subst Ends (sym (if-true (broken (timeout phase)) w t)) (broke (timeout phase))

audio-Ends :
    (after deadline : ℕ) {rs : List Round}
    → Passes deadline rs
    → Ends (silence_until_audio_after after deadline rs)
unfolding silence_until_audio_after
audio-Ends after deadline (here {r = r} u h) =
    on_send-Ends u (on_pick-Ends r.pick after (late-Ends first_response r _ h))
audio-Ends after deadline (there {r = r} u p) = on_send-Ends u (
    on_pick-Ends r.pick after
      (if-Ends (ltb deadline r.now) (broke (timeout first_response)) (audio-Ends after deadline p)))

barge-Ends :
    (after deadline : ℕ) {rs : List Round}
    → Passes deadline rs
    → Ends (await_barge after deadline rs)
unfolding await_barge
barge-Ends after deadline (here {r = r} u h) = on_pick-Ends r.pick after (late-Ends barge_in r _ h)
barge-Ends after deadline (there {r = r} u p) = on_pick-Ends r.pick after (
    if-Ends (ltb deadline r.now) (broke (timeout barge_in))
      (on_send-Ends u (barge-Ends after deadline p)))

quiet-Ends :
    (gap deadline : ℕ) {rs : List Round}
    → Passes deadline rs
    → Ends (silence_until_quiet gap deadline rs)
unfolding silence_until_quiet
quiet-Ends gap deadline (here {r = r} u h) =
    on_send-Ends u (if-Ends (leb (r.last_audio + gap) r.now) (did tt) (late-Ends quiesce r _ h))
quiet-Ends gap deadline (there {r = r} u p) = on_send-Ends u (
    if-Ends (leb (r.last_audio + gap) r.now) (did tt)
      (if-Ends (ltb deadline r.now) (broke (timeout quiesce)) (quiet-Ends gap deadline p)))

ride-Ends : (until : ℕ) {rs : List Round} → Passes until rs → Ends (silence_for until rs)
unfolding silence_for
ride-Ends until (here {r = r} {rs = rs} u h) =
    let f : ltb r.now until ≡ false = ground arith in
    subst Ends (sym (if-false (on_send r.sends (silence_for until rs)) (done tt) f)) (did tt)
ride-Ends until (there {r = r} u p) =
    if-Ends (ltb r.now until) (on_send-Ends u (ride-Ends until p)) (did tt)

speak-Ends : (t : ℕ) {sends : List Sent} → AllReturn sends → Ends (speak t sends)
unfolding speak
speak-Ends t none_left = did t
speak-Ends t (one_more u h) = on_send-Ends u (speak-Ends t h)

then_do-Ends {ℓ} :
    {A : Type ℓ} {w : Wait A} (f : A → TurnResult)
    → Ends w
    → ((a : A) → Ends (f a).1)
    → Ends (w then_do f).1
then_do-Ends f (broke e) k = broke e
then_do-Ends f (did a) k = k a

measure-Ends :
    (k : SampleKind) (at since : ℕ) (t : TurnResult) → Ends t.1 → Ends (measure k at since t).1
measure-Ends k at since t h = h

-- The sends of the utterances return, and each loop of the turn sees the time pass its deadline, or
-- the end of the ride, while its sends return.
pub record Timed (s : TurnScript) : Type 0 where
  pub spoken : AllReturn s.sends
  pub barged : AllReturn s.barge_sends
  pub first : Passes s.first_deadline s.first_rounds
  pub ride : Passes s.ride_until s.ride_rounds
  pub barge : Passes s.barge_deadline s.barge_rounds
  pub second : Passes s.second_deadline s.second_rounds
  pub calm : Passes s.quiet_deadline s.quiet_rounds

barge_part-Ends : (gap : ℕ) (s : TurnScript) → Timed s → Ends (barge_part gap s).1
unfolding barge_part quiet
barge_part-Ends gap s t = then_do-Ends _ (ride-Ends s.ride_until t.ride) λ _.
    then_do-Ends _ (speak-Ends s.barge_spoke_at t.barged) λ spoke_at.
      then_do-Ends _ (barge-Ends s.barge_start s.barge_deadline t.barge) λ barge_at.
        then_do-Ends _ (audio-Ends barge_at s.second_deadline t.second)
          λ first_at. quiet-Ends gap s.quiet_deadline t.calm

-- A turn ends, interrupting or not, with success or an error, when its sends return, with an error
-- or not, and each of its loops comes to a round at a time after its deadline: whatever arrives or
-- does not arrive, no loop goes on beyond such a round.
pub turn-Ends :
    (quiet_gap : ℕ) (barge : Bool) (s : TurnScript) → Timed s → Ends (turn quiet_gap barge s).1
unfolding turn quiet
turn-Ends gap barge s t = then_do-Ends _ (speak-Ends s.spoke_at t.spoken) λ spoke_at.
    then_do-Ends _ (audio-Ends spoke_at s.first_deadline t.first) λ first_at.
      elim barge
        as (λ b.
          Ends
            (measure sample_first first_at spoke_at
              (if b then barge_part gap s else quiet gap s)).1) [
                | true ↦ barge_part-Ends gap s t
                | false ↦ quiet-Ends gap s.quiet_deadline t.calm
              ]
