-- ===== src/Session/Dedup.antt =====
-- Which uplink frames reach the controller, over all the connections of a session.
use voice_flux_engine.Prelude.{
  ℕ, ◌<◌, ◌≡◌, refl, sym, ap, ◌∙◌, subst, ltb, ◌==◌, if◌then◌else◌, Bool, true, false, ◌&&◌, Option,
  Option-cases, none, some, List, [], ◌∷◌, ◌++◌, map, append-nil, append_assoc, map-append, ◌⊎◌,
  arith, inl, inr,
}
use voice_flux_engine.Frame.{Frame}
use voice_flux_engine.Vad.{ingest}
use voice_flux_engine.Vad.Joint.{pushed, pushed-append, pushed-ingest}
use voice_flux_engine.Adapter.{AudioFrame}
use voice_flux_engine.Session.{
  Session, ControlPayload, Attachment, Heard, find, held_frame, attach_claim, attach_bind, detach,
  close, type_audio,
}
use voice_flux_engine.Session.Downlink.{
  send_ack, enqueue, pump_take, pump_send, take_next, write_frame,
}
use voice_flux_engine.Session.Uplink.{admit, on_frame, on_audio, advance_floor, deliver}
use voice_flux_engine.Session.Run.{Event, exec, run}

-- strictly increasing and above `n`
abbrev pub Increasing : ℕ → List ℕ → Type 0
Increasing n [] = Unit
Increasing n (x ∷ xs) = (n < x) × Increasing x xs

abbrev pub to_audio : Frame → AudioFrame
to_audio f = record { pcm = f.payload; ts_us = f.ts_us }

abbrev pub is_handling : Event → Bool
is_handling (Event.handles _ _ _) = true
is_handling _ = false

module _ {L : Type 0} where
  -- the frame that an event ought to hand to the controller: an audio frame above the floor, past the
  -- test of the mark
  unfoldable pub delivers : Event → Session L → List Frame
  delivers (Event.handles e known now) s = elim (find e s.attachments) [
    | none ↦ []
    | some a ↦ elim (held_frame a.reader) [
      | none ↦ []
      | some f ↦ if f.typ == type_audio && ltb s.uplink_floor f.seq then f ∷ [] else []
    ]
  ]
  delivers _ s = []

abbrev pub last_seq : ℕ → List ℕ → ℕ
last_seq n [] = n
last_seq n (m ∷ ms) = last_seq m ms

last-snoc : (n x : ℕ) (ms : List ℕ) → last_seq n (ms ++ x ∷ []) ≡ x
last-snoc n x [] = refl
last-snoc n x (m ∷ ms) = last-snoc m x ms

module _ {L : Type 0} (ge lt : L → L → Bool) (level : AudioFrame → L)
    (unmarshal : List ℕ → Option ControlPayload) (marshal : ControlPayload → Option (List ℕ))
    (rate : ℕ) where
  unfoldable pub delivered : List Event → Session L → List Frame
  delivered [] s = []
  delivered (ev ∷ evs) s =
      delivers ev s ++ delivered evs (exec ge lt level unmarshal marshal rate ev s)

  -- the numbers of the frames heard are above `n` and increase up to the floor
  abbrev Ordered : ℕ → Session L → Type 0
  Ordered n s =
      Increasing n (map (λ h. h.frame.seq) s.heard)
      × (s.uplink_floor ≡ last_seq n (map (λ h. h.frame.seq) s.heard))

  pub frame-floor :
      (known : Bool) (now : ℕ) (f : Frame) (a : Attachment) (s : Session L)
      → let s' = on_frame ge lt level unmarshal known now f a s in
        ((s'.heard ≡ s.heard) × (s'.uplink_floor ≡ s.uplink_floor))
        ⊎ ((s'.heard ≡ s.heard ++ record { from = a.epoch; frame = f } ∷ [])
            × (s'.uplink_floor ≡ f.seq)
            × (s.uplink_floor < f.seq))
  unfolding on_frame on_audio advance_floor deliver
  frame-floor known now f a s = ground arith

  -- The handling of a frame past the test of the mark.
  abbrev pub Handling : Event → Session L → Attachment → Frame → Type 0
  Handling ev s a f =
      (e : ℕ) × (known : Bool) × (now : ℕ) × (ev ≡ Event.handles e known now)
      × (find e s.attachments ≡ some a)
      × (held_frame a.reader ≡ some f)
      × (exec ge lt level unmarshal marshal rate ev s
          ≡ on_frame ge lt level unmarshal known now f a s)

  pub calm-floor :
      (ev : Event) (s : Session L)
      → is_handling ev ≡ false
      → let s' = exec ge lt level unmarshal marshal rate ev s in
        (s'.heard ≡ s.heard) × (s'.uplink_floor ≡ s.uplink_floor)
  unfolding exec send_ack admit close enqueue pump_take pump_send take_next write_frame attach_claim
      attach_bind detach
  calm-floor ev s h = (ground arith, ground arith)

  pub handles-cases :
      (ev : Event) (s : Session L)
      → (is_handling ev ≡ false)
        ⊎ (exec ge lt level unmarshal marshal rate ev s ≡ s)
        ⊎ ((a : Attachment) × (f : Frame) × Handling ev s a f)
  unfolding exec
  handles-cases (Event.handles e known now) s = elim (Option-cases (find e s.attachments)) [
    | inl t ↦ inr (inl (rw (t, exec) refl))
    | inr (a, t) ↦ elim (Option-cases (held_frame a.reader)) [
      | inl h ↦ inr (inl (rw (t, h, exec) refl))
      | inr (f, h) ↦ inr (inr (a, f, (e, known, now, refl, t, h, rw (t, h, exec) refl)))
    ]
  ]
  handles-cases (Event.claim c) s = inl refl
  handles-cases (Event.bind now) s = inl refl
  handles-cases (Event.arrives e f) s = inl refl
  handles-cases (Event.read_fails e) s = inl refl
  handles-cases (Event.stops e) s = inl refl
  handles-cases (Event.write_ends e) s = inl refl
  handles-cases (Event.detaches e) s = inl refl
  handles-cases Event.closes s = inl refl
  handles-cases (Event.enqueues m) s = inl refl
  handles-cases (Event.takes f) s = inl refl
  handles-cases Event.sends s = inl refl
  handles-cases (Event.acks e d b) s = inl refl
  handles-cases (Event.draws e) s = inl refl
  handles-cases (Event.writes e now b) s = inl refl

  -- an event that is heard hears a frame above the floor, and moves the floor to it
  pub exec-floor :
      (ev : Event) (s : Session L)
      → let s' = exec ge lt level unmarshal marshal rate ev s in
        ((s'.heard ≡ s.heard) × (s'.uplink_floor ≡ s.uplink_floor))
        ⊎ ((a : Attachment) × (f : Frame) × Handling ev s a f
            × (s'.heard ≡ s.heard ++ record { from = a.epoch; frame = f } ∷ [])
            × (s'.uplink_floor ≡ f.seq)
            × (s.uplink_floor < f.seq))
  exec-floor ev s = elim (handles-cases ev s) [
    | inl h ↦ inl (calm-floor ev s h)
    | inr (inl h) ↦ inl (ap (λ t. t.heard) h, ap (λ t. t.uplink_floor) h)
    | inr (inr (a, f, (e, known, now, v, t, h, q))) ↦ elim (frame-floor known now f a s) [
      | inl (x, y) ↦ inl (ap (λ r. r.heard) q ∙ x, ap (λ r. r.uplink_floor) q ∙ y)
      | inr (x, y, z) ↦ inr (
        a,
        f,
        (e, known, now, v, t, h, q),
        ap (λ r. r.heard) q ∙ x,
        ap (λ r. r.uplink_floor) q ∙ y,
        z,
      )
    ]
  ]

  delivers-one :
      (ev : Event) (s : Session L) → (delivers ev s ≡ []) ⊎ ((f : Frame) × (delivers ev s ≡ f ∷ []))
  unfolding delivers
  delivers-one ev s = ground arith

  exec-calls_none :
      (ev : Event) (s : Session L)
      → delivers ev s ≡ []
      → (exec ge lt level unmarshal marshal rate ev s).calls ≡ s.calls
  unfolding exec send_ack delivers admit on_frame on_audio advance_floor deliver close enqueue
      pump_take pump_send take_next write_frame attach_claim attach_bind detach
  exec-calls_none ev s h = ground arith

  exec-calls_one :
      (ev : Event) (f : Frame) (s : Session L)
      → delivers ev s ≡ f ∷ []
      → (exec ge lt level unmarshal marshal rate ev s).calls
        ≡ s.calls ++ (ingest ge lt level (to_audio f) s.ctrl).0
  unfolding exec send_ack delivers admit on_frame on_audio advance_floor deliver close enqueue
      pump_take pump_send take_next write_frame attach_claim attach_bind detach
  exec-calls_one ev f s h = ground arith

  exec-pushed :
      (ev : Event) (s : Session L)
      → pushed (exec ge lt level unmarshal marshal rate ev s).calls
        ≡ pushed s.calls ++ map to_audio (delivers ev s)
  exec-pushed ev s = elim (delivers-one ev s) [
    | inl n ↦ rw (n, exec-calls_none ev s n) (sym (append-nil (pushed s.calls)))
    | inr (f, h) ↦
        rw (h, exec-calls_one ev f s h)
          (pushed-append ge lt level s.calls (ingest ge lt level (to_audio f) s.ctrl).0
            ∙ ap (λ r. pushed s.calls ++ r) (pushed-ingest ge lt level (to_audio f) s.ctrl))
  ]

  snoc-Increasing :
      (n x : ℕ) (ms : List ℕ) → Increasing n ms → last_seq n ms < x → Increasing n (ms ++ x ∷ [])
  snoc-Increasing n x [] h k = (k, tt)
  snoc-Increasing n x (m ∷ ms) (lt', h) k = (lt', snoc-Increasing m x ms h k)

  exec-Ordered :
      (n : ℕ) (ev : Event) (s : Session L)
      → Ordered n s
      → Ordered n (exec ge lt level unmarshal marshal rate ev s)
  exec-Ordered n ev s (up, fl) = elim (exec-floor ev s) [
    | inl (h, k) ↦ rw (h, k) (up, fl)
    | inr (a, f, _, h, k, lt') ↦
        let seqs = map (λ h'. h'.frame.seq) s.heard in
        let more =
          map-append (λ (h' : Heard). h'.frame.seq) s.heard
            (record { from = a.epoch; frame = f } ∷ []) in
        rw (h, k, more)
          (
            snoc-Increasing n f.seq seqs up (subst (λ m. m < f.seq) fl lt'),
            sym (last-snoc n f.seq seqs),
          )
  ]

  run-Ordered :
      (n : ℕ) (evs : List Event) (s : Session L)
      → Ordered n s
      → Ordered n (run ge lt level unmarshal marshal rate evs s)
  unfolding run
  run-Ordered n [] s o = o
  run-Ordered n (ev ∷ evs) s o =
      run-Ordered n evs (exec ge lt level unmarshal marshal rate ev s) (exec-Ordered n ev s o)

  -- In a session that has heard nothing, whatever arrives over however many connections, the frames
  -- that the controller hears carry strictly increasing sequence numbers above the first floor: none
  -- is heard twice, and none after a later one.
  pub heard-Increasing :
      (evs : List Event) (s : Session L)
      → s.heard ≡ []
      → Increasing s.uplink_floor
          (map (λ h. h.frame.seq) (run ge lt level unmarshal marshal rate evs s).heard)
  heard-Increasing evs s h =
      let start : Ordered s.uplink_floor s = rw h (tt, refl) in
      (run-Ordered s.uplink_floor evs s start).0

  -- The audio that the pipeline is given during a history is that of the frames that ought to be
  -- delivered, which are past the test of the mark and above the floor, each once and in order, after
  -- what it had before.
  pub run_pushes_delivered :
      (evs : List Event) (s : Session L)
      → pushed (run ge lt level unmarshal marshal rate evs s).calls
        ≡ pushed s.calls ++ map to_audio (delivered evs s)
  unfolding run delivered
  run_pushes_delivered [] s = sym (append-nil (pushed s.calls))
  run_pushes_delivered (ev ∷ evs) s =
      let s' = exec ge lt level unmarshal marshal rate ev s in
      run_pushes_delivered evs s'
      ∙ ap (λ r. r ++ map to_audio (delivered evs s')) (exec-pushed ev s)
      ∙ append_assoc (pushed s.calls) (map to_audio (delivers ev s))
          (map to_audio (delivered evs s'))
      ∙ ap (λ r. pushed s.calls ++ r) (sym (map-append to_audio (delivers ev s) (delivered evs s')))
