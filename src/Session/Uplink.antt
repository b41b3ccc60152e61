-- ===== src/Session/Uplink.antt =====
-- The reading loop (session.go).
use voice_flux_engine.Prelude.{
  ℕ, ◌+◌, leb, ◌==◌, if◌then◌else◌, u64, Bool, true, false, Option, none, some, List, [], ◌∷◌, ◌++◌,
}
use voice_flux_engine.Adapter.{AudioFrame}
use voice_flux_engine.Frame.{Frame}
use voice_flux_engine.Vad.{ingest}
use voice_flux_engine.Session.{
  Session, ControlPayload, ControlKind, Attachment, Reader, type_audio, type_control, stop, reading,
  holding, stopping, exited, update, set_reader,
}

abbrev pub is_stop : ControlKind → Bool
is_stop stop = true
is_stop _ = false

-- whether a control frame ends the conversation
abbrev pub wants_stop : Option ControlPayload → Bool
wants_stop none = false
wants_stop (some c) = is_stop c.kind

-- `reclaim` from the reading loop: it closes the session unless the manager has let go of it
abbrev pub stop_phase : Bool → Reader
stop_phase true = stopping
stop_phase false = exited

module _ {L : Type 0} where
  -- `advanceFloor`: claims a sequence number above the floor
  unfoldable pub advance_floor : ℕ → Session L → Bool × Session L
  advance_floor seq s =
      if leb seq s.uplink_floor then (false, s) else (true, record s { uplink_floor = seq })

  -- A round of `readLoop` on the attachment `a`, first up to the test of the mark.
  unfoldable pub admit : Frame → Attachment → Session L → Session L
  admit f a s =
      if a.stale
      then record s { stale_frames = u64 (s.stale_frames + 1) }
      else record s { attachments = update a.epoch (set_reader (holding f)) s.attachments }

  module _ (ge lt : L → L → Bool) (level : AudioFrame → L)
      (unmarshal : List ℕ → Option ControlPayload) where
    -- `Ingest` on a frame of the connection of an epoch
    unfoldable pub deliver : ℕ → Frame → Session L → Session L
    deliver e f s =
        let (calls, c) = ingest ge lt level (record { pcm = f.payload; ts_us = f.ts_us }) s.ctrl in
        record s {
          ctrl = c;
          calls = s.calls ++ calls;
          heard = s.heard ++ record { from = e; frame = f } ∷ [];
        }

    unfoldable pub on_audio : ℕ → Frame → Session L → Session L
    unfolding advance_floor deliver
    on_audio e f s =
        let (fresh, s') = advance_floor f.seq s in
        if fresh then deliver e f s' else record s' { dup_frames = u64 (s'.dup_frames + 1) }

    -- how the loop goes on after a frame; `known` is whether the manager still holds the session
    abbrev pub next_reader : Bool → Frame → Reader
    next_reader known f =
        if f.typ == type_control
        then (if wants_stop (unmarshal f.payload) then stop_phase known else reading)
        else reading

    -- and then the rest of the round, on the frame that is past the test
    unfoldable pub on_frame : Bool → ℕ → Frame → Attachment → Session L → Session L
    unfolding on_audio
    on_frame known now f a s =
        let s' = record s {
          last_active = now;
          attachments = update a.epoch (set_reader (next_reader known f)) s.attachments;
        } in
        if f.typ == type_audio then on_audio a.epoch f s' else s'
