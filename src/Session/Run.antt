-- ===== src/Session/Run.antt =====
-- A session as a machine: what can happen to it, one event after another.
use Prim.Native.String.{String}
use voice_flux_engine.Prelude.{
  ℕ, if◌then◌else◌, ◌&&◌, Bool, true, false, not, Option, none, some, List, [], ◌∷◌,
}
use voice_flux_engine.Prelude.Result.{ok, err}
use voice_flux_engine.Adapter.{AudioFrame}
use voice_flux_engine.Frame.{Frame}
use voice_flux_engine.Session.{
  Session, WireMsg, ControlPayload, exited, Attachment, find, update, is_reading, is_stopping,
  is_exited, held_frame, set_reader, is_free, attach_claim, attach_bind, detach, close,
}
use voice_flux_engine.Session.Downlink.{
  send_ack, enqueue, pump_take, pump_send, take_next, write_frame,
}
use voice_flux_engine.Session.Uplink.{admit, on_frame}

pub data Event : Type 0 where
  -- `attach` is entered with a claim; it binds the connection at a time
  claim bind : ℕ → Event
  -- the reader of an epoch gets a frame, and tests the mark
  arrives : ℕ → Frame → Event
  -- it handles a frame that is past the test, at a time; the manager knows the session or not
  handles : ℕ → Bool → ℕ → Event
  -- the reader of an epoch fails, or goes on to close the session; its writer ends
  read_fails stops write_ends : ℕ → Event
  detaches : ℕ → Event
  -- `close` by another goroutine
  closes : Event
  -- the pipeline enqueues a subtitle or control message, and hands audio to the pump
  enqueues : WireMsg → Event
  takes : AudioFrame → Event
  sends : Event
  -- the writer of an epoch answers the handshake, and the write succeeds or not
  acks : ℕ → String → Bool → Event
  -- the writer of an epoch takes a message; it numbers it at a time, and the write succeeds or not
  draws : ℕ → Event
  writes : ℕ → ℕ → Bool → Event

abbrev pub end_writer : Attachment → Attachment
end_writer a = record a { writing = false }

abbrev pub has_message : Option WireMsg → Bool
has_message none = false
has_message (some _) = true

-- the writer sees that its context or a ping has ended, which it does without a message in its hand
abbrev pub leave_writer : Attachment → Attachment
leave_writer a = record a { writing = has_message a.hand && a.writing }

abbrev pub after_ack : Bool → Attachment → Attachment
after_ack sent a = record a { acked = sent; writing = sent }

abbrev pub set_hand : WireMsg → Attachment → Attachment
set_hand m a = record a { hand = some m }

-- a message whose write fails is dropped, and the writer ends
abbrev pub after_write : Bool → Attachment → Attachment
after_write sent a = record a { hand = none; writing = sent }

module _ {L : Type 0} (ge lt : L → L → Bool) (level : AudioFrame → L)
    (unmarshal : List ℕ → Option ControlPayload) (marshal : ControlPayload → Option (List ℕ))
    (rate : ℕ) where
  -- An event that cannot happen in the state, as a step that needs the mutex while it is taken, is
  -- the identity.
  unfoldable pub exec : Event → Session L → Session L
  exec (claim c) s =
      if is_free s.attaching then elim (attach_claim c s) [ ok s' ↦ s' | err _ ↦ s ] else s
  exec (bind now) s = elim (attach_bind now s) [ none ↦ s | some s' ↦ s' ]
  exec (arrives e f) s = elim (find e s.attachments) [
    | none ↦ s
    | some a ↦ if is_reading a.reader then admit f a s else s
  ]
  exec (handles e known now) s = elim (find e s.attachments) [
    | none ↦ s
    | some a ↦ elim (held_frame a.reader) [
      | none ↦ s
      | some f ↦ on_frame ge lt level unmarshal known now f a s
    ]
  ]
  exec (read_fails e) s = elim (find e s.attachments) [
    | none ↦ s
    | some a ↦
        if is_reading a.reader
        then record s { attachments = update e (set_reader exited) s.attachments }
        else s
  ]
  exec (stops e) s = elim (find e s.attachments) [
    | none ↦ s
    | some a ↦
        if is_stopping a.reader && is_free s.attaching
        then close (record s { attachments = update e (set_reader exited) s.attachments })
        else s
  ]
  exec (write_ends e) s = record s { attachments = update e leave_writer s.attachments }
  exec (detaches e) s = elim (find e s.attachments) [
    | none ↦ s
    | some a ↦ if is_exited a.reader && not a.writing && is_free s.attaching then detach e s else s
  ]
  exec closes s = if is_free s.attaching then close s else s
  exec (enqueues m) s = enqueue m s
  exec (takes f) s = elim s.pending [ none ↦ pump_take rate f s | some _ ↦ s ]
  exec sends s = elim (pump_send s) [ none ↦ s | some s' ↦ s' ]
  exec (acks e detail sent) s = elim (find e s.attachments) [
    | none ↦ s
    | some a ↦
        if a.writing && not a.acked
        then elim (send_ack marshal detail a s) [
          | none ↦ record s { attachments = update e end_writer s.attachments }
          | some (_, s') ↦ record s' { attachments = update e (after_ack sent) s'.attachments }
        ]
        else s
  ]
  exec (draws e) s = elim (find e s.attachments) [
    | none ↦ s
    | some a ↦
        if a.writing && (a.acked && not (has_message a.hand))
        then elim (take_next s) [
          | none ↦ s
          | some (m, s') ↦ record s' { attachments = update e (set_hand m) s'.attachments }
        ]
        else s
  ]
  exec (writes e now sent) s = elim (find e s.attachments) [
    | none ↦ s
    | some a ↦ elim a.hand [
      | none ↦ s
      | some m ↦
          let (_, s') = write_frame m s in
          record s' {
            attachments = update e (after_write sent) s'.attachments;
            last_active = if sent then now else s'.last_active;
          }
    ]
  ]

  unfoldable pub run : List Event → Session L → Session L
  run [] s = s
  run (ev ∷ evs) s = run evs (exec ev s)
