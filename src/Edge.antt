-- ===== src/Edge.antt =====
-- internal/pipeline/edge.go: an audio boundary, a ring with a bell of capacity 1. A loop takes fuel,
-- and `none` says that it ran out.
pub mod Drain
pub mod Wakeup
mod Tests
use voice_flux_engine.Prelude.{
  ℕ, zero, suc, ◌+◌, if◌then◌else◌, Bool, true, false, Option, none, some,
}
use voice_flux_engine.Prelude.Int.{ℤ}
use voice_flux_engine.Prelude.Result.{Result, ok, err}
use voice_flux_engine.Ring.{Ring, RingError, Policy, new, push, pop_loop}

-- `bell` is whether the channel holds its token.
pub record Edge (A : Type 0) : Type 0 where
  pub ring : Ring A
  pub bell : Bool

-- a reader parked in `await` goes on when the bell has a token, which it takes
unfoldable pub wake : {A : Type 0} → Edge A → Option (Edge A)
wake e = if e.bell then some (record e { bell = false }) else none

module _ {A : Type 0} (blank : A) where
  unfoldable pub new_edge : ℤ → Policy → Result RingError (Edge A)
  new_edge capacity p = elim (new blank capacity p) [
    | ok r ↦ ok (record { ring = r; bell = false })
    | err e ↦ err e
  ]

  unfoldable pub push_edge : ℕ → A → Edge A → Option (Bool × Edge A)
  push_edge fuel v e = elim (push blank fuel v e.ring) [
    | none ↦ none
    | some (done, r) ↦
        some (done, if done then record { ring = r; bell = true } else record e { ring = r })
  ]

  -- `await`: one attempt, which parks on the bell when the ring is empty
  unfoldable pub try_take : ℕ → Edge A → Option (Option A × Edge A)
  try_take fuel e = elim (pop_loop blank fuel e.ring) [
    | none ↦ none
    | some (out, r) ↦ some (out, record e { ring = r })
  ]

  -- `drain` with `n` rounds allowed, each pop with one round of its own loop
  unfoldable pub drain : ℕ → Edge A → Option (ℕ × Edge A)
  drain zero e = none
  drain (suc n) e = elim (pop_loop blank 1 e.ring) [
    | none ↦ none
    | some (none, r) ↦ some (0, record e { ring = r })
    | some (some _, r) ↦ elim (drain n (record e { ring = r })) [
      | none ↦ none
      | some (k, e') ↦ some (k + 1, e')
    ]
  ]
