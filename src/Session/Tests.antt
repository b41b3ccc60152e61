-- ===== src/Session/Tests.antt =====
-- A client that connects, loses its connection and takes over, and one that stops meanwhile.
use voice_flux_engine.Prelude.{
  ℕ, ◌≤◌, ◌≡◌, refl, leb, ltb, Bool, true, false, Option, none, some, List, [], ◌∷◌, ◌++◌, map,
  length, ◌⊎◌, ◌+◌, ◌==◌,
}
use voice_flux_engine.Frame.{Frame}
use voice_flux_engine.Adapter.{AudioFrame}
use voice_flux_engine.Vad.{new_machine}
use voice_flux_engine.Vad.Joint.{pushed}
use voice_flux_engine.Session.{
  Session, ControlPayload, WireMsg, Heard, stop, stopping, read_exited, attach_claim, attach_bind,
  type_control, type_text, Attachment,
}
use voice_flux_engine.Session.Downlink.{send_ack, enqueue, take_next, write_frame}
use voice_flux_engine.Session.Uplink.{admit, on_frame, on_audio, advance_floor, deliver}
use voice_flux_engine.Session.Run.{
  Event, claim, bind, arrives, handles, read_fails, stops, enqueues, acks, draws, writes, exec, run,
}
use voice_flux_engine.Session.Dedup.{
  Increasing, delivered, delivers, to_audio, heard-Increasing, run_pushes_delivered,
}
use voice_flux_engine.Session.Readers.{count_readers}
use voice_flux_engine.Session.Readers.Single.{run-one_reader}
use voice_flux_engine.Session.Readers.Stuck.{run_deadlock}
use voice_flux_engine.Session.Epochs.{frames_held, delivered_current}
use voice_flux_engine.Session.Hands.{count_of, hands, to_msg}
use voice_flux_engine.Session.Hands.Run.{run-hands}
use voice_flux_engine.Session.Hands.Moves.{numbered}
use voice_flux_engine.Session.Wire.{
  taken, takes_out, queued, downlink, Consecutive, run-wire, downlink-Consecutive,
}

abbrev ge : ℕ → ℕ → Bool
ge a b = leb b a

abbrev level : AudioFrame → ℕ
level f = length f.pcm

abbrev stop_payload : ControlPayload
stop_payload = record { kind = stop; detail = ""; session_id = ""; epoch = 0; last_seq = 0 }

-- a codec that knows one message
abbrev unmarshal : List ℕ → Option ControlPayload
unmarshal [] = none
unmarshal (_ ∷ _) = some stop_payload

abbrev marshal : ControlPayload → Option (List ℕ)
marshal c = some (c.epoch ∷ c.last_seq ∷ [])

abbrev fresh : Session ℕ
fresh = record {
  id = "s";
  ctrl = record {
    det = record {
      enter = 10;
      exit = 5;
      min_speech_frames = 2;
      hangover_frames = 2;
      in_speech = false;
      run = 0;
    };
    machine = new_machine;
  };
  calls = [];
  heard = [];
  wire = [];
  pending = none;
  clock_us = 0;
  downlink_seq = 0;
  uplink_floor = 0;
  last_active = 0;
  dup_frames = 0;
  stale_frames = 0;
  subtitle_drops = 0;
  epoch = 0;
  att = none;
  attachments = [];
  attaching = none;
  closed = false;
}

abbrev audio : ℕ → Frame
audio n = record { typ = 1; seq = n; ts_us = 0; payload = n ∷ [] }

abbrev stop_frame : Frame
stop_frame = record { typ = type_control; seq = 0; ts_us = 0; payload = 3 ∷ [] }

abbrev subtitle : WireMsg
subtitle = record { typ = 2; ts_us = 7; payload = 65 ∷ [] }

abbrev reconnect : List Event
reconnect =
    claim 1
    ∷ bind 0
    ∷ acks 1 "created" true
    ∷ arrives 1 (audio 4)
    ∷ handles 1 true 1
    ∷ arrives 1 (audio 4)
    ∷ handles 1 true 2
    ∷ enqueues subtitle
    ∷ arrives 1 (audio 5)
    ∷ claim 2
    ∷ handles 1 true 3
    ∷ arrives 1 (audio 6)
    ∷ bind 4
    ∷ draws 1
    ∷ read_fails 1
    ∷ bind 5
    ∷ writes 1 5 false
    ∷ acks 2 "resumed" true
    ∷ arrives 2 (audio 4)
    ∷ handles 2 true 6
    ∷ enqueues subtitle
    ∷ draws 2
    ∷ writes 2 6 true
    ∷ arrives 2 (audio 7)
    ∷ handles 2 true 7
    ∷ arrives 2 (audio 8)
    ∷ []

reconnect_delivers :
    map (λ f. f.seq) (delivered ge ltb level unmarshal marshal 16000 reconnect fresh)
    ≡ 4 ∷ 5 ∷ 7 ∷ []
unfolding delivered delivers exec attach_bind attach_claim send_ack admit on_frame on_audio
    advance_floor deliver enqueue take_next
reconnect_delivers = refl

-- a subtitle is lost with the old connection, and the next is sent
reconnect_sends :
    map (λ m. m.ts_us) (taken ge ltb level unmarshal marshal 16000 reconnect fresh) ≡ 7 ∷ 7 ∷ []
unfolding taken takes_out exec attach_bind attach_claim send_ack admit on_frame on_audio
    advance_floor deliver enqueue take_next write_frame
reconnect_sends = refl

heard-Increasing_example :
    Increasing 0
      (map (λ h. h.frame.seq) (run ge ltb level unmarshal marshal 16000 reconnect fresh).heard)
heard-Increasing_example =
    heard-Increasing ge ltb level unmarshal marshal 16000 reconnect fresh refl

run_pushes_delivered_example :
    pushed (run ge ltb level unmarshal marshal 16000 reconnect fresh).calls
    ≡ pushed fresh.calls
      ++ map to_audio (delivered ge ltb level unmarshal marshal 16000 reconnect fresh)
run_pushes_delivered_example =
    run_pushes_delivered ge ltb level unmarshal marshal 16000 reconnect fresh

run-one_reader_example :
    count_readers (run ge ltb level unmarshal marshal 16000 reconnect fresh).attachments ≤ 1
run-one_reader_example =
    run-one_reader ge ltb level unmarshal marshal 16000 reconnect fresh refl refl

abbrev connection : Attachment
connection = record {
  epoch = 1;
  stale = true;
  reader = stopping;
  writing = true;
  acked = false;
  hand = none;
}

abbrev stuck_session : Session ℕ
stuck_session = record fresh {
  attaching = some 2;
  att = some 1;
  attachments = connection ∷ [];
  epoch = 1;
  last_active = 3;
}

-- a new session can get there
stuck-reached :
    run ge ltb level unmarshal marshal 16000
      (claim 1 ∷ bind 0 ∷ arrives 1 stop_frame ∷ handles 1 true 3 ∷ claim 2 ∷ [])
      fresh
    ≡ stuck_session
unfolding run exec attach_bind attach_claim admit on_frame
stuck-reached = refl

run_deadlock_example :
    let s' = run ge ltb level unmarshal marshal 16000 (stops 1 ∷ bind 9 ∷ []) stuck_session in
    (s'.attaching ≡ some 2) × (s'.closed ≡ false) × (read_exited (some 1) s'.attachments ≡ false)
run_deadlock_example =
    run_deadlock ge ltb level unmarshal marshal 16000 2 1 connection (stops 1 ∷ bind 9 ∷ [])
      stuck_session refl refl refl refl refl

delivered_current_example :
    let s' = run ge ltb level unmarshal marshal 16000 reconnect fresh in
    let s'' = exec ge ltb level unmarshal marshal 16000 (handles 2 true 8) s' in
    ((s''.heard ≡ s'.heard)
      ⊎ ((h : Heard) × (s''.heard ≡ s'.heard ++ h ∷ [])
          × (s'.att ≡ some h.from)
          × (s'.epoch ≡ h.from)
          × (0 ≤ h.from)))
    × (frames_held s'.attachments ≤ 1)
    × ((c : ℕ)
        → s'.attaching ≡ some c
        → length s''.heard + frames_held s''.attachments
          ≤ length s'.heard + frames_held s'.attachments)
delivered_current_example =
    delivered_current ge ltb level unmarshal marshal 16000 reconnect (handles 2 true 8) fresh refl
      refl refl

run-wire_example :
    taken ge ltb level unmarshal marshal 16000 reconnect fresh
      ++ (run ge ltb level unmarshal marshal 16000 reconnect fresh).wire
    ≡ [] ++ queued ge ltb level unmarshal marshal 16000 reconnect fresh
run-wire_example = run-wire ge ltb level unmarshal marshal 16000 reconnect fresh

downlink-Consecutive_example :
    Consecutive 0 (downlink ge ltb level unmarshal marshal 16000 reconnect fresh)
downlink-Consecutive_example =
    downlink-Consecutive ge ltb level unmarshal marshal 16000 reconnect fresh

abbrev is_text : WireMsg → Bool
is_text m = m.typ == type_text

run-hands_example :
    let s' = run ge ltb level unmarshal marshal 16000 reconnect fresh in
    count_of is_text (taken ge ltb level unmarshal marshal 16000 reconnect fresh) + 0
    ≡ count_of is_text (map to_msg (numbered ge ltb level unmarshal marshal 16000 reconnect fresh))
      + hands is_text s'.attachments
run-hands_example = run-hands ge ltb level unmarshal marshal 16000 is_text reconnect fresh tt
