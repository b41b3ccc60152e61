-- ===== src/Edge/Tests.antt =====
-- An edge of two slots: drained, and with a consumer that waits.
use voice_flux_engine.Prelude.{ℕ, ◌≡◌, ◌⊎◌, refl, true, false, List, [], ◌∷◌, arith}
use voice_flux_engine.Ring.{Ring, drop_oldest, push, pop_loop, try_push}
use voice_flux_engine.Ring.Inv.{IsValid, contents}
use voice_flux_engine.Ring.New.{made, made-IsValid}
use voice_flux_engine.Ring.Steps.{filled}
use voice_flux_engine.Edge.{Edge, wake}
use voice_flux_engine.Edge.Wakeup.{
  Move, pushes, rings, tries, wakes, Waiting, move, moves, no_lost_wakeup,
}

abbrev two : Ring ℕ
two = made 0 2 drop_oldest

two-IsValid : IsValid 0 2 two
two-IsValid = made-IsValid 0 2 1 drop_oldest (omega arith) (omega arith) refl

abbrev one_in : Edge ℕ
one_in = record { ring = filled 0 2 5 two; bell = true }

abbrev start : Waiting ℕ
start = record { edge = record { ring = two; bell = false }; ringing = false; parked = false }

abbrev script : List (Move ℕ)
script = pushes 7 ∷ rings ∷ tries ∷ tries ∷ wakes ∷ tries ∷ pushes 8 ∷ []

waits : (moves 0 script start).parked ≡ true
unfolding moves move push pop_loop try_push wake
waits = refl

holds : ¬ (contents 0 2 (moves 0 script start).edge.ring ≡ [])
unfolding moves move push pop_loop try_push wake
holds h = cc h

no_lost_wakeup_example :
    ((moves 0 script start).edge.bell ≡ true) ⊎ ((moves 0 script start).ringing ≡ true)
no_lost_wakeup_example = no_lost_wakeup 0 2 script start two-IsValid (omega arith) refl waits holds
