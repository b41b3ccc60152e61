-- ===== src/Manager/Tests.antt =====
-- A client whose session has expired, one that is too old, and the totals of a session that goes.
use Prim.Native.String.{String}
use voice_flux_engine.Prelude.{ℕ, ◌<◌, ◌≤◌, ◌≡◌, ◌⊎◌, refl, true, false, none, some, List, [], ◌∷◌}
use voice_flux_engine.Frame.{Frame}
use voice_flux_engine.Vad.{new_machine}
use voice_flux_engine.Session.{Session, ControlPayload, start}
use voice_flux_engine.Manager.{
  Manager, serves, refused, waits, handshake, resolve, count_claim, reclaim_take, reclaim_fold,
  count,
}
use voice_flux_engine.Manager.Count.{Event, starts, takes, folds, exec, AllNew, Balanced}
use voice_flux_engine.Manager.Handshake.{handshake_known}

abbrev session : String → ℕ → Session ℕ
session id dups = record {
  id = id;
  ctrl = record {
    det = record {
      enter = 10;
      exit = 5;
      min_speech_frames = 2;
      hangover_frames = 2;
      in_speech = false;
      run = 0;
    };
    machine = new_machine;
  };
  calls = [];
  heard = [];
  wire = [];
  pending = none;
  clock_us = 0;
  downlink_seq = 0;
  uplink_floor = 0;
  last_active = 0;
  dup_frames = dups;
  stale_frames = 0;
  subtitle_drops = 0;
  epoch = 0;
  att = none;
  attachments = [];
  attaching = none;
  closed = false;
}

abbrev office : Manager ℕ
office = record {
  sessions = session "a" 3 ∷ session "b" 4 ∷ [];
  acc = record { dup_frames = 5; stale_frames = 0; subtitle_drops = 0; illegal_events = 0 };
  stale_epoch_claims = 0;
  sessions_created = 4;
  sessions_reclaimed = 2;
}

abbrev without_b : Manager ℕ
without_b = record office { sessions = session "a" 3 ∷ [] }

b-taken : reclaim_take "b" office ≡ some (session "b" 4, without_b)
unfolding reclaim_take
b-taken = refl

abbrev hello : String → ℕ → ControlPayload
hello id epoch = record { kind = start; detail = ""; session_id = id; epoch = epoch; last_seq = 0 }

abbrev script : List (Event ℕ)
script = starts (hello "" 0) "c" (some (session "c" 0)) ∷ takes "a" ∷ takes "a" ∷ folds ∷ []

script-AllNew : AllNew script (record { manager = office; leaving = [] })
unfolding exec resolve reclaim_take reclaim_fold
script-AllNew = (refl, (tt, (tt, (tt, tt))))

balanced : Balanced (record { manager = office; leaving = [] })
unfolding count
balanced = refl

abbrev first_frame : Frame
first_frame = record { typ = 3; seq = 0; ts_us = 0; payload = [] }

handshake_known_example :
    ((w : ℕ)
      → (session "a" 3).attaching ≡ some w
      → handshake first_frame (some (hello "a" 2)) "c" none office
        ≡ (waits (session "a" 3) 2, office))
    × ((session "a" 3).attaching ≡ none
        → false ≡ false
        → 0 < 2
        → (s : Session ℕ) × ((handshake first_frame (some (hello "a" 2)) "c" none office).0
            ≡ serves s)
          × (s.attaching ≡ some 2)
          × ((handshake first_frame (some (hello "a" 2)) "c" none office).1.stale_epoch_claims ≡ 0))
    × ((session "a" 3).attaching ≡ none
        → (false ≡ true) ⊎ (2 ≤ 0)
        → handshake first_frame (some (hello "a" 2)) "c" none office
          ≡ (refused, count_claim office))
handshake_known_example =
    handshake_known first_frame (hello "a" 2) "c" none (session "a" 3) office refl refl refl refl
