-- ===== src/Ring/Unit.antt =====
-- The ring of one slot, which `New` accepts since 1 is a power of two.
use voice_flux_engine.Prelude.{ℕ, zero, suc, ◌≡◌, refl, [], ◌∷◌, true, none, some}
use voice_flux_engine.Prelude.Int.{pos}
use voice_flux_engine.Prelude.Result.{ok}
use voice_flux_engine.Ring.{Ring, Policy, new, pop_loop, push, try_push}
use voice_flux_engine.Ring.Queue.{put}
use voice_flux_engine.Ring.History.{run}

module _ {ℓ} {A : Type ℓ} (blank : A) (p : Policy) (x y : A) where
  abbrev start : Ring A
  start = record {
    mask = 0;
    policy = p;
    slots = record { seq = 0; val = blank } ∷ [];
    tail = 0;
    head = 0;
    dropped = 0;
  }

  abbrev overwritten : Ring A
  overwritten = record {
    mask = 0;
    policy = p;
    slots = record { seq = 2; val = y } ∷ [];
    tail = 2;
    head = 0;
    dropped = 0;
  }

  stuck : (fuel : ℕ) → pop_loop blank fuel overwritten ≡ none
  unfolding pop_loop
  stuck zero = refl
  stuck (suc fuel) = stuck fuel

  -- A ring of capacity 1 takes a second element over an unread first one, whatever its policy and
  -- with no eviction counted, and from then on `pop` never returns, however long its loop runs.
  pub capacity_one :
      (r : Ring A) × (s : Ring A) × (new blank (pos 1) p ≡ ok r)
      × (run blank (put x ∷ put y ∷ []) r ≡ some ((true, none) ∷ (true, none) ∷ [], s))
      × (s.dropped ≡ 0)
      × ((fuel : ℕ) → pop_loop blank fuel s ≡ none)
  unfolding new run push try_push
  capacity_one = (start, overwritten, refl, refl, refl, stuck)
