-- ===== src/Session/Build.antt =====
-- internal/session/session.go, `newSession`, with vad/controller.go, `NewController`: what a manager's
-- configuration makes of a new conversation, without the callbacks that join its parts. The frame
-- duration is apart from `Config`, since no validation reads it.
pub mod Valid
mod Tests
use Prim.Native.String.{String}
use voice_flux_engine.Prelude.{
  ℕ, if◌then◌else◌, Bool, false, Option, none, some, List, [], ◌∷◌, ◌++◌,
}
use voice_flux_engine.Prelude.Int.{ℤ, pos, negsuc, ◌*ℤ◌, quot, i64}
use voice_flux_engine.Prelude.Result.{Result, ok, err}
use voice_flux_engine.Ring.{RingError}
use voice_flux_engine.Adapter.{AudioFrame}
use voice_flux_engine.Pool.{BufferPool, new_pool}
use voice_flux_engine.Config.{Config}
use voice_flux_engine.Vad.{
  Controller, new_machine, duration_frames, feed, response_started, response_done,
}
use voice_flux_engine.Pipeline.{Hook, turn_start, turn_end}
use voice_flux_engine.Pipeline.Build.{Built, BuildError, new_pipeline}
use voice_flux_engine.Session.{Session, ControlPayload, barge_in}
use voice_flux_engine.Session.Downlink.{enqueue_control}

abbrev pub no_frame : AudioFrame
no_frame = record { pcm = []; ts_us = 0 }

-- a session with the pipeline and the buffer pool that it owns
pub record Conversation (L : Type 0) : Type 0 where
  pub session : Session L
  pub built : Built AudioFrame
  pub pool : BufferPool

-- What `newSession` comes to: a conversation, one of its two errors, a panic of `make`, or, for the
-- loops of the pool's ring, no end.
pub data Made (L : Type 0) : Type 0 where
  made : Conversation L → Made L
  pool_error : RingError → Made L
  pipeline_error : BuildError → Made L
  panics pending : Made L

-- the bytes of a frame of 16-bit mono samples
unfoldable pub frame_bytes : (rate duration : ℤ) → ℤ
frame_bytes rate duration = i64 (quot (i64 (rate *ℤ duration)) 1000000000 *ℤ pos 2)

-- `NewBufferPool` of any count and size: a capacity below 0 makes `make` panic, unless the count is
-- refused before
unfoldable pub make_pool : {L : Type 0} → (count size : ℤ) → (BufferPool → Made L) → Made L
make_pool (negsuc n) size rest = pool_error (RingError.bad_capacity (negsuc n))
make_pool (pos n) (pos size) rest = elim (new_pool n size) [
  | err e ↦ pool_error e
  | ok none ↦ pending
  | ok (some p) ↦ rest p
]
make_pool (pos n) (negsuc size) rest = elim (new_pool n 0) [ err e ↦ pool_error e | ok _ ↦ panics ]

module _ {L : Type 0} where
  -- `NewController` without a detector of its own
  abbrev pub new_controller : Config L → ℤ → Controller L
  new_controller c duration = record {
    det = record {
      enter = c.energy_threshold;
      exit = c.exit_threshold;
      min_speech_frames = duration_frames c.min_speech duration;
      hangover_frames = duration_frames c.hangover duration;
      in_speech = false;
      run = 0;
    };
    machine = new_machine;
  }

  abbrev pub fresh_session : Config L → ℤ → String → ℕ → Session L
  fresh_session c duration id now = record {
    id = id;
    ctrl = new_controller c duration;
    calls = [];
    heard = [];
    wire = [];
    pending = none;
    clock_us = 0;
    downlink_seq = 0;
    uplink_floor = 0;
    last_active = now;
    dup_frames = 0;
    stale_frames = 0;
    subtitle_drops = 0;
    epoch = 0;
    att = none;
    attachments = [];
    attaching = none;
    closed = false;
  }

  unfoldable pub new_session : Config L → (duration : ℤ) → String → ℕ → Made L
  new_session c duration id now =
      make_pool (i64 (pos 2 *ℤ c.ingress_capacity)) (frame_bytes c.sample_rate duration) (λ pool.
        elim (new_pipeline no_frame c) [
          | err e ↦ pipeline_error e
          | ok b ↦
              made (record { session = fresh_session c duration id now; built = b; pool = pool })
        ])
