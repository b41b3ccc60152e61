-- ===== src/Session/Downlink.antt =====
-- The writing loop, the audio pump and the queue between them (session.go).
use Prim.Native.String.{String}
use voice_flux_engine.Prelude.{
  ℕ, ◌+◌, ◌*◌, ◌/◌, ltb, if◌then◌else◌, u64, Option, none, some, List, [], ◌∷◌, ◌++◌, length,
}
use voice_flux_engine.Adapter.{AudioFrame}
use voice_flux_engine.Frame.{Frame}
use voice_flux_engine.Session.{
  Session, ControlPayload, WireMsg, Attachment, type_audio, type_text, type_control, wire_cap,
  start,
}

module _ {L : Type 0} where
  -- `writeFrame` up to the call of `WriteFrame`: the next downlink frame
  unfoldable pub write_frame : WireMsg → Session L → Frame × Session L
  write_frame m s =
      let n = u64 (s.downlink_seq + 1) in
      (
        record { typ = m.typ; seq = n; ts_us = m.ts_us; payload = m.payload },
        record s { downlink_seq = n },
      )

  -- `writeLoop` takes a message; `none` when the queue is empty
  unfoldable pub take_next : Session L → Option (WireMsg × Session L)
  take_next s = elim s.wire [ [] ↦ none | m ∷ rest ↦ some (m, record s { wire = rest }) ]

  -- the handshake answer with which `writeLoop` begins; `none` when it cannot be encoded
  unfoldable pub send_ack :
      (ControlPayload → Option (List ℕ))
      → String
      → Attachment
      → Session L
      → Option (Frame × Session L)
  unfolding write_frame
  send_ack marshal detail a s =
      let ack : ControlPayload = record {
        kind = start;
        detail = detail;
        session_id = s.id;
        epoch = a.epoch;
        last_seq = s.uplink_floor;
      } in
      elim (marshal ack) [
        | none ↦ none
        | some p ↦ some (write_frame (record { typ = type_control; ts_us = 0; payload = p }) s)
      ]

  -- the send with a `default` that sheds
  unfoldable pub enqueue : WireMsg → Session L → Session L
  enqueue m s =
      if ltb (length s.wire) wire_cap
      then record s { wire = s.wire ++ m ∷ [] }
      else record s { subtitle_drops = u64 (s.subtitle_drops + 1) }

  -- `enqueueText` and `enqueueControl`, given what `proto.Marshal` returns
  unfoldable pub enqueue_text : Option (List ℕ) → ℕ → Session L → Session L
  unfolding enqueue
  enqueue_text none ts s = s
  enqueue_text (some p) ts s = enqueue (record { typ = type_text; ts_us = ts; payload = p }) s

  unfoldable pub enqueue_control : Option (List ℕ) → Session L → Session L
  unfolding enqueue
  enqueue_control none s = s
  enqueue_control (some p) s =
      enqueue (record { typ = type_control; ts_us = s.clock_us; payload = p }) s

  -- `audioPump` takes a frame: it stamps the frame and advances the clock before it sends
  unfoldable pub pump_take : ℕ → AudioFrame → Session L → Session L
  pump_take rate f s = record s {
    clock_us = s.clock_us + length f.pcm / 2 * 1000000 / rate;
    pending = some (record { typ = type_audio; ts_us = s.clock_us; payload = f.pcm });
  }

  -- the blocking send of the pump; `none` while the queue is full or nothing is pending
  unfoldable pub pump_send : Session L → Option (Session L)
  pump_send s = elim s.pending [
    | none ↦ none
    | some m ↦
        if ltb (length s.wire) wire_cap
        then some (record s { wire = s.wire ++ m ∷ []; pending = none })
        else none
  ]
