-- ===== src/Session/Wire.antt =====
-- The downlink of a session: its queue and the sequence numbers and times of what is sent.
use voice_flux_engine.Prelude.{
  ℕ, ◌+◌, ◌≤◌, ◌≡◌, sym, ap, ◌∙◌, subst, ltb, if◌then◌else◌, u64, Bool, not, ◌&&◌, Option, none,
  some, List, [], ◌∷◌, ◌++◌, append-nil, append_assoc, length, length-append, arith,
}
use voice_flux_engine.Frame.{Frame}
use voice_flux_engine.Adapter.{AudioFrame}
use voice_flux_engine.Session.{
  Session, ControlPayload, WireMsg, find, attach_claim, attach_bind, detach, close, wire_cap,
}
use voice_flux_engine.Session.Downlink.{
  send_ack, enqueue, pump_take, pump_send, take_next, write_frame,
}
use voice_flux_engine.Session.Uplink.{admit, on_frame, on_audio, advance_floor, deliver}
use voice_flux_engine.Session.Run.{Event, exec, run, has_message}

module _ {L : Type 0} where
  -- the message that the writer of a connection takes from the queue
  unfoldable pub takes_out : Event → Session L → List WireMsg
  takes_out (Event.draws e) s = elim (find e s.attachments) [
    | none ↦ []
    | some a ↦
        if a.writing && (a.acked && not (has_message a.hand))
        then elim (take_next s) [ none ↦ [] | some (m, _) ↦ m ∷ [] ]
        else []
  ]
  takes_out _ s = []

  -- the message that an event adds to the queue
  unfoldable pub queues : Event → Session L → List WireMsg
  queues (Event.enqueues m) s = if ltb (length s.wire) wire_cap then m ∷ [] else []
  queues Event.sends s = elim s.pending [
    | none ↦ []
    | some m ↦ if ltb (length s.wire) wire_cap then m ∷ [] else []
  ]
  queues _ s = []

-- the sequence numbers after `n`, with their wrap-around
abbrev pub Consecutive : ℕ → List Frame → Type 0
Consecutive n [] = Unit
Consecutive n (f ∷ fs) = (f.seq ≡ u64 (n + 1)) × Consecutive f.seq fs

abbrev pub last_sent : ℕ → List Frame → ℕ
last_sent n [] = n
last_sent n (f ∷ fs) = last_sent f.seq fs

module _ {L : Type 0} (marshal : ControlPayload → Option (List ℕ)) where
  -- every frame with which an event calls `WriteFrame`, whether or not the call succeeds
  unfoldable pub sends_out : Event → Session L → List Frame
  sends_out (Event.acks e detail sent) s = elim (find e s.attachments) [
    | none ↦ []
    | some a ↦
        if a.writing && not a.acked
        then elim (send_ack marshal detail a s) [ none ↦ [] | some (f, _) ↦ f ∷ [] ]
        else []
  ]
  sends_out (Event.writes e now sent) s = elim (find e s.attachments) [
    | none ↦ []
    | some a ↦ elim a.hand [ none ↦ [] | some m ↦ (write_frame m s).0 ∷ [] ]
  ]
  sends_out ev s = []

module _ {L : Type 0} (ge lt : L → L → Bool) (level : AudioFrame → L)
    (unmarshal : List ℕ → Option ControlPayload) (marshal : ControlPayload → Option (List ℕ))
    (rate : ℕ) where
  exec-wire :
      (ev : Event) (s : Session L)
      → takes_out ev s ++ (exec ge lt level unmarshal marshal rate ev s).wire
        ≡ s.wire ++ queues ev s
  unfolding exec send_ack takes_out queues sends_out admit on_frame on_audio advance_floor deliver
      close enqueue pump_take pump_send take_next write_frame attach_claim attach_bind detach
  exec-wire ev s = let n = append-nil s.wire in grind arith

  exec-seq :
      (ev : Event) (s : Session L)
      → Consecutive s.downlink_seq (sends_out marshal ev s)
        × ((exec ge lt level unmarshal marshal rate ev s).downlink_seq
            ≡ last_sent s.downlink_seq (sends_out marshal ev s))
  unfolding exec send_ack takes_out queues sends_out admit on_frame on_audio advance_floor deliver
      close enqueue pump_take pump_send take_next write_frame attach_claim attach_bind detach
  exec-seq ev s = ground arith

  exec-bound :
      (ev : Event) (s : Session L)
      → length s.wire ≤ wire_cap
      → length (exec ge lt level unmarshal marshal rate ev s).wire ≤ wire_cap
  unfolding exec send_ack takes_out queues sends_out admit on_frame on_audio advance_floor deliver
      close enqueue pump_take pump_send take_next write_frame attach_claim attach_bind detach
  exec-bound ev s h =
      let n = λ (m : WireMsg). length-append s.wire (m ∷ []) in grind (arith, length-append)

  -- the messages taken from the queue and put into it, and the frames written, in a history
  unfoldable pub taken : List Event → Session L → List WireMsg
  taken [] s = []
  taken (ev ∷ evs) s = takes_out ev s ++ taken evs (exec ge lt level unmarshal marshal rate ev s)

  unfoldable pub queued : List Event → Session L → List WireMsg
  queued [] s = []
  queued (ev ∷ evs) s = queues ev s ++ queued evs (exec ge lt level unmarshal marshal rate ev s)

  unfoldable pub downlink : List Event → Session L → List Frame
  downlink [] s = []
  downlink (ev ∷ evs) s =
      sends_out marshal ev s ++ downlink evs (exec ge lt level unmarshal marshal rate ev s)

  -- What the writers of all connections have taken from the queue, in the order in which they took
  -- it, followed by what is still in it, is what was in it and what was put into it: over any number
  -- of reconnects nothing in the queue is lost, repeated or reordered before a writer has it.
  pub run-wire :
      (evs : List Event) (s : Session L)
      → taken evs s ++ (run ge lt level unmarshal marshal rate evs s).wire ≡ s.wire ++ queued evs s
  unfolding run taken queued
  run-wire [] s = sym (append-nil s.wire)
  run-wire (ev ∷ evs) s =
      let s' = exec ge lt level unmarshal marshal rate ev s in
      let r = run ge lt level unmarshal marshal rate evs s' in
      append_assoc (takes_out ev s) (taken evs s') r.wire
      ∙ ap (λ m. takes_out ev s ++ m) (run-wire evs s')
      ∙ sym (append_assoc (takes_out ev s) s'.wire (queued evs s'))
      ∙ ap (λ m. m ++ queued evs s') (exec-wire ev s)
      ∙ append_assoc s.wire (queues ev s) (queued evs s')

  append-Consecutive :
      (n : ℕ) (fs gs : List Frame)
      → Consecutive n fs
      → Consecutive (last_sent n fs) gs
      → Consecutive n (fs ++ gs)
  append-Consecutive n [] gs h k = k
  append-Consecutive n (f ∷ fs) gs (e, h) k = (e, append-Consecutive f.seq fs gs h k)

  -- The frames that the writers of a session number, handshake answers and frames whose write fails
  -- included, carry consecutive sequence numbers (modulo 2^64) after its last one, in the order in
  -- which they are numbered, over any number of reconnects.
  pub downlink-Consecutive :
      (evs : List Event) (s : Session L) → Consecutive s.downlink_seq (downlink evs s)
  unfolding downlink
  downlink-Consecutive [] s = tt
  downlink-Consecutive (ev ∷ evs) s =
      let s' = exec ge lt level unmarshal marshal rate ev s in
      let (c, l) = exec-seq ev s in
      append-Consecutive s.downlink_seq (sends_out marshal ev s) (downlink evs s') c
        (subst (λ n. Consecutive n (downlink evs s')) l (downlink-Consecutive evs s'))

  -- The downlink queue never holds more than its capacity, whatever is produced and however slow the
  -- client.
  pub run-wire_bound :
      (evs : List Event) (s : Session L)
      → length s.wire ≤ wire_cap
      → length (run ge lt level unmarshal marshal rate evs s).wire ≤ wire_cap
  unfolding run
  run-wire_bound [] s h = h
  run-wire_bound (ev ∷ evs) s h =
      run-wire_bound evs (exec ge lt level unmarshal marshal rate ev s) (exec-bound ev s h)
