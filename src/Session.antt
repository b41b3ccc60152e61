-- ===== src/Session.antt =====
-- internal/session/session.go: one conversation across its connections. A mutex or an atomic makes
-- each operation below one step. Connections are named by the epoch that they claimed.
pub mod Downlink
pub mod Uplink
pub mod Run
pub mod Readers
pub mod Dedup
pub mod Wire
pub mod Hands
pub mod Build
pub mod Epochs
mod Tests
use Prim.Native.String.{String}
use voice_flux_engine.Prelude.{
  ℕ, suc, ◌+◌, ◌*◌, ◌/◌, ◌<◌, ltb, leb, ◌==◌, if◌then◌else◌, u64, Bool, true, false, not, Option,
  none, some, List, [], ◌∷◌, ◌++◌, length,
}
use voice_flux_engine.Prelude.Result.{Result, ok, err}
use voice_flux_engine.Adapter.{AudioFrame}
use voice_flux_engine.Frame.{Frame}
use voice_flux_engine.Vad.{Controller, SinkCall, ingest}

pub data ControlKind : Type 0 where
  unspecified start stop barge_in error : ControlKind

-- `ControlPayload` of frame.proto
pub record ControlPayload : Type 0 where
  pub kind : ControlKind
  pub detail : String
  pub session_id : String
  pub epoch : ℕ
  pub last_seq : ℕ

pub record WireMsg : Type 0 where
  pub typ : ℕ
  pub ts_us : ℕ
  pub payload : List ℕ

abbrev pub type_audio : ℕ
type_audio = 1

abbrev pub type_text : ℕ
type_text = 2

abbrev pub type_control : ℕ
type_control = 3

-- the capacity of the channel `wire`
abbrev pub wire_cap : ℕ
wire_cap = 256

-- The reading loop of an attachment: it waits for a frame, or has one that is past the test of the
-- mark. `stopping` is a loop that has taken a client's stop and, inside `reclaim`, waits for the
-- session's mutex in `close`.
pub data Reader : Type 0 where
  reading stopping exited : Reader
  holding : Frame → Reader

-- `hand` is the message that the writer has taken from the queue and not yet numbered.
pub record Attachment : Type 0 where
  pub epoch : ℕ
  pub stale : Bool
  pub reader : Reader
  pub writing : Bool
  pub acked : Bool
  pub hand : Option WireMsg

-- a frame that `Ingest` was called with, and the epoch of its connection
pub record Heard : Type 0 where
  pub from : ℕ
  pub frame : Frame

-- `attachments` are those whose loops still run; `att` is the one that the session points to.
-- `calls` are the calls made on the pipeline so far, `heard` the frames given to the controller.
-- `pending` is the message with which the audio pump waits for room in the wire queue. `attaching` is
-- the claim of an `attach` that holds the mutex while it waits for the reader of the connection it supersedes.
pub record Session (L : Type 0) : Type 0 where
  pub id : String
  pub ctrl : Controller L
  pub calls : List (SinkCall AudioFrame)
  pub heard : List Heard
  pub wire : List WireMsg
  pub pending : Option WireMsg
  pub clock_us : ℕ
  pub downlink_seq : ℕ
  pub uplink_floor : ℕ
  pub last_active : ℕ
  pub dup_frames : ℕ
  pub stale_frames : ℕ
  pub subtitle_drops : ℕ
  pub epoch : ℕ
  pub att : Option ℕ
  pub attachments : List Attachment
  pub attaching : Option ℕ
  pub closed : Bool

pub data AttachError : Type 0 where
  session_closed : AttachError
  stale_claim : ℕ → ℕ → AttachError

-- the attachment that claimed an epoch
abbrev pub find : ℕ → List Attachment → Option Attachment
find e [] = none
find e (a ∷ rest) = if a.epoch == e then some a else find e rest

abbrev pub update : ℕ → (Attachment → Attachment) → List Attachment → List Attachment
update e f [] = []
update e f (a ∷ rest) = if a.epoch == e then f a ∷ rest else a ∷ update e f rest

abbrev pub remove : ℕ → List Attachment → List Attachment
remove e [] = []
remove e (a ∷ rest) = if a.epoch == e then rest else a ∷ remove e rest

abbrev pub is_reading : Reader → Bool
is_reading reading = true
is_reading _ = false

abbrev pub is_stopping : Reader → Bool
is_stopping stopping = true
is_stopping _ = false

abbrev pub is_exited : Reader → Bool
is_exited exited = true
is_exited _ = false

abbrev pub mark_stale : Option ℕ → List Attachment → List Attachment
mark_stale none rest = rest
mark_stale (some e) rest = update e (λ a. record a { stale = true }) rest

-- the frame that a reading loop has
abbrev pub held_frame : Reader → Option Frame
held_frame (holding f) = some f
held_frame _ = none

abbrev pub set_reader : Reader → Attachment → Attachment
set_reader p a = record a { reader = p }

-- whether `readExited` of the attachment is closed; one that is gone has ended both loops
abbrev pub read_exited : Option ℕ → List Attachment → Bool
read_exited none rest = true
read_exited (some e) rest = elim (find e rest) [ none ↦ true | some a ↦ is_exited a.reader ]

abbrev pub is_att : Option ℕ → ℕ → Bool
is_att none e = false
is_att (some now) e = now == e

abbrev pub is_free : Option ℕ → Bool
is_free none = true
is_free (some _) = false

module _ {L : Type 0} where
  abbrev pub touch : ℕ → Session L → Session L
  touch now s = record s { last_active = now }

  -- `attach` up to the wait: the guards, and the end of the connection that is superseded. A call
  -- that finds the mutex taken has not started.
  unfoldable pub attach_claim : ℕ → Session L → Result AttachError (Session L)
  attach_claim claimed s =
      if s.closed
      then err session_closed
      else if leb claimed s.epoch
      then err (stale_claim claimed s.epoch)
      else ok (record s { attaching = some claimed; attachments = mark_stale s.att s.attachments })

  -- the rest of `attach`, which waits while the old reader runs; `none` while it waits
  unfoldable pub attach_bind : ℕ → Session L → Option (Session L)
  attach_bind now s = elim s.attaching [
    | none ↦ none
    | some claimed ↦
        if read_exited s.att s.attachments
        then some (record s {
          epoch = claimed;
          att = some claimed;
          attachments =
              record {
                epoch = claimed;
                stale = false;
                reader = reading;
                writing = true;
                acked = false;
                hand = none;
              }
              ∷ s.attachments;
          attaching = none;
          last_active = now;
        })
        else none
  ]

  -- once both loops of an attachment have ended and the mutex is free
  unfoldable pub detach : ℕ → Session L → Session L
  detach e s = record s {
    att = if is_att s.att e then none else s.att;
    attachments = remove e s.attachments;
  }

  unfoldable pub close : Session L → Session L
  close s = if s.closed then s else record s { closed = true }
