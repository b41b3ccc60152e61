-- ===== src/Session/Readers/Stuck.antt =====
-- A stop that meets a takeover: `attach` holds the session's mutex while it waits for the old
-- reader, and the old reader waits for the mutex in `close`.
use voice_flux_engine.Prelude.{
  ℕ, ◌≡◌, refl, sym, ap, ◌∙◌, subst, ◌==◌, Bool, true, false, Bool-cases, Option, some,
  Option-cases, List, [], ◌∷◌, arith, inl, inr,
}
use mathlib.Core.Option.{some-injective}
use voice_flux_engine.Frame.{Frame}
use voice_flux_engine.Adapter.{AudioFrame}
use voice_flux_engine.Session.{
  Session, ControlPayload, Reader, holding, stopping, exited, Attachment, find, update, is_reading,
  is_stopping, held_frame, set_reader, read_exited, attach_claim, attach_bind, detach, close,
}
use voice_flux_engine.Session.Downlink.{
  send_ack, enqueue, pump_take, pump_send, take_next, write_frame,
}
use voice_flux_engine.Session.Uplink.{
  next_reader, admit, on_frame, on_audio, advance_floor, deliver,
}
use voice_flux_engine.Session.Readers.{Keeps, find-update, find-update_ne}
use voice_flux_engine.Session.Readers.Single.{
  acks-effect, draws-effect, writes-effect, frame-attachments,
}
use voice_flux_engine.Session.Readers.Update.{update-none, find-epoch}
use voice_flux_engine.Session.Run.{
  Event, exec, run, end_writer, leave_writer, after_ack, set_hand, after_write,
}

-- the reader of epoch `e` still waits
abbrev pub Waits : ℕ → List Attachment → Type 0
Waits e rest = (a : Attachment) × (find e rest ≡ some a) × (a.reader ≡ stopping)

module _ {L : Type 0} (ge lt : L → L → Bool) (level : AudioFrame → L)
    (unmarshal : List ℕ → Option ControlPayload) (marshal : ControlPayload → Option (List ℕ))
    (rate : ℕ) where
  -- An `attach` with claim `c` is under way while the reader of epoch `e` closes the session.
  abbrev pub Stuck : ℕ → ℕ → Session L → Type 0
  Stuck c e s =
      Waits e s.attachments × (s.attaching ≡ some c) × (s.att ≡ some e) × (s.closed ≡ false)

  exec-lock :
      (c e : ℕ) (ev : Event) (s : Session L)
      → Stuck c e s
      → let s' = exec ge lt level unmarshal marshal rate ev s in
        (s'.attaching ≡ some c) × (s'.att ≡ some e) × (s'.closed ≡ false)
  unfolding exec send_ack admit on_frame on_audio advance_floor deliver close enqueue pump_take
      pump_send take_next write_frame attach_claim attach_bind detach
  exec-lock c e ev s ((a, f, r), l, t, o) = ground arith

  update-Waits :
      (e e' : ℕ) (f : Attachment → Attachment) (b : Attachment) (rest : List Attachment)
      → Keeps f
      → find e' rest ≡ some b
      → (b.reader ≡ stopping → (f b).reader ≡ stopping)
      → Waits e rest
      → Waits e (update e' f rest)
  update-Waits e e' f b rest k h stay (a, g, r) = elim (Bool-cases (e == e')) [
    | inl t ↦
        let same : e ≡ e' = ground arith in
        let ba : a ≡ b = some-injective a b (sym g ∙ ap (λ i. find i rest) same ∙ h) in
        (
          f b,
          ap (λ i. find i (update e' f rest)) same ∙ find-update e' f b rest k h,
          stay (ap (λ x. x.reader) (sym ba) ∙ r),
        )
    | inr t ↦ (a, find-update_ne e' e f rest k (ground arith) ∙ g, r)
  ]

  -- the same for an update that moves no reader
  calm-Waits :
      (e e' : ℕ) (f : Attachment → Attachment) (rest : List Attachment)
      → Keeps f
      → ((a : Attachment) → (f a).reader ≡ a.reader)
      → Waits e rest
      → Waits e (update e' f rest)
  calm-Waits e e' f rest k same w = elim (Option-cases (find e' rest)) [
    | inl n ↦ subst (Waits e) (sym (update-none e' f rest n)) w
    | inr (b, h) ↦ update-Waits e e' f b rest k h (λ x. same b ∙ x) w
  ]

  -- an update by a reading loop that was found, and is not the one that waits
  reader-Waits :
      (e e' : ℕ) (r : Reader) (b : Attachment) (s : Session L)
      → find e' s.attachments ≡ some b
      → is_stopping b.reader ≡ false
      → Waits e s.attachments
      → Waits e (update b.epoch (set_reader r) s.attachments)
  reader-Waits e e' r b s h d w =
      let q = find-epoch e' b s.attachments h in
      let h' : find b.epoch s.attachments ≡ some b =
        subst (λ i. find i s.attachments ≡ some b) (sym q) h in
      update-Waits e b.epoch (set_reader r) b s.attachments (λ x. refl) h'
        (λ x. absurd (ground arith)) w

  frame-Waits :
      (e e' : ℕ) (known : Bool) (now : ℕ) (f : Frame) (b : Attachment) (s : Session L)
      → find e' s.attachments ≡ some b
      → held_frame b.reader ≡ some f
      → Waits e s.attachments
      → Waits e (on_frame ge lt level unmarshal known now f b s).attachments
  frame-Waits e e' known now f b s h d w =
      subst (Waits e) (sym (frame-attachments ge lt level unmarshal marshal rate known now f b s))
        (reader-Waits e e' (next_reader ge lt level unmarshal known f) b s h (ground arith) w)

  admit-Waits :
      (e e' : ℕ) (f : Frame) (b : Attachment) (s : Session L)
      → find e' s.attachments ≡ some b
      → is_reading b.reader ≡ true
      → Waits e s.attachments
      → Waits e (admit f b s).attachments
  unfolding admit
  admit-Waits e e' f b s h d w =
      let u = reader-Waits e e' (holding f) b s h (ground arith) w in
      elim (Bool-cases b.stale) [ inl t ↦ rw t w | inr t ↦ rw t u ]

  exec-Waits :
      (c e : ℕ) (ev : Event) (s : Session L)
      → Stuck c e s
      → Waits e (exec ge lt level unmarshal marshal rate ev s).attachments
  unfolding exec send_ack close enqueue pump_take pump_send take_next write_frame detach attach_bind
  exec-Waits c e (Event.claim _) s (w, l, t, o) = rw (l) w
  exec-Waits c e (Event.bind now) s ((a, f, r), l, t, o) =
      subst (Waits e) (sym (ground arith)) (a, f, r)
  exec-Waits c e (Event.arrives e' f) s (w, l, t, o) = elim (Option-cases (find e' s.attachments)) [
    | inl n ↦ rw (n, exec) w
    | inr (b, h) ↦ elim (Bool-cases (is_reading b.reader)) [
      | inl d ↦ rw (h, d, exec) (admit-Waits e e' f b s h d w)
      | inr d ↦ rw (h, d, exec) w
    ]
  ]
  exec-Waits c e (Event.handles e' known now) s (w, l, t, o) =
      elim (Option-cases (find e' s.attachments)) [
        | inl n ↦ rw (n, exec) w
        | inr (b, h) ↦ elim (Option-cases (held_frame b.reader)) [
          | inl d ↦ rw (h, d, exec) w
          | inr (f, d) ↦ rw (h, d, exec) (frame-Waits e e' known now f b s h d w)
        ]
      ]
  exec-Waits c e (Event.read_fails e') s (w, l, t, o) =
      elim (Option-cases (find e' s.attachments)) [
        | inl n ↦ rw (n, exec) w
        | inr (b, h) ↦ elim (Bool-cases (is_reading b.reader)) [
          | inl d ↦
              rw (h, d, exec)
                (update-Waits e e' (set_reader exited) b s.attachments (λ x. refl) h
                  (λ x. absurd (ground arith)) w)
          | inr d ↦ rw (h, d, exec) w
        ]
      ]
  exec-Waits c e (Event.stops e') s (w, l, t, o) = subst (Waits e) (sym (ground arith)) w
  exec-Waits c e (Event.write_ends e') s (w, l, t, o) =
      calm-Waits e e' leave_writer s.attachments (λ a. refl) (λ a. refl) w
  exec-Waits c e (Event.acks e' d sent) s (w, l, t, o) =
      elim ((acks-effect ge lt level unmarshal marshal rate e' d sent s).1) [
        | inl u ↦ subst (Waits e) (sym u) w
        | inr (inl u) ↦
            subst (Waits e) (sym u)
              (calm-Waits e e' end_writer s.attachments (λ a. refl) (λ a. refl) w)
        | inr (inr u) ↦
            subst (Waits e) (sym u)
              (calm-Waits e e' (after_ack sent) s.attachments (λ a. refl) (λ a. refl) w)
      ]
  exec-Waits c e (Event.detaches e') s (w, l, t, o) = subst (Waits e) (sym (ground arith)) w
  exec-Waits c e Event.closes s (w, l, t, o) = rw (l) w
  exec-Waits c e (Event.enqueues m) s (w, l, t, o) = subst (Waits e) (sym (ground arith)) w
  exec-Waits c e (Event.takes f) s (w, l, t, o) = subst (Waits e) (sym (ground arith)) w
  exec-Waits c e Event.sends s (w, l, t, o) = subst (Waits e) (sym (ground arith)) w
  exec-Waits c e (Event.draws e') s (w, l, t, o) =
      elim ((draws-effect ge lt level unmarshal marshal rate e' s).1) [
        | inl u ↦ subst (Waits e) (sym u) w
        | inr (m, u) ↦
            subst (Waits e) (sym u)
              (calm-Waits e e' (set_hand m) s.attachments (λ a. refl) (λ a. refl) w)
      ]
  exec-Waits c e (Event.writes e' now sent) s (w, l, t, o) =
      elim ((writes-effect ge lt level unmarshal marshal rate e' now sent s).1) [
        | inl u ↦ subst (Waits e) (sym u) w
        | inr u ↦
            subst (Waits e) (sym u)
              (calm-Waits e e' (after_write sent) s.attachments (λ a. refl) (λ a. refl) w)
      ]

  run-Stuck :
      (c e : ℕ) (evs : List Event) (s : Session L)
      → Stuck c e s
      → Stuck c e (run ge lt level unmarshal marshal rate evs s)
  unfolding run
  run-Stuck c e [] s h = h
  run-Stuck c e (ev ∷ evs) s h =
      let (l, t, o) = exec-lock c e ev s h in
      run-Stuck c e evs (exec ge lt level unmarshal marshal rate ev s)
        (exec-Waits c e ev s h, l, t, o)

  -- A reader that has taken a client's stop and goes on to close the session, while an `attach` that
  -- supersedes it holds the mutex, waits for ever, and so does the `attach`: whatever happens
  -- afterwards, the `attach` is under way, the reader runs, and the session is not closed.
  pub run_deadlock :
      (c e : ℕ) (a : Attachment) (evs : List Event) (s : Session L)
      → s.attaching ≡ some c
      → s.att ≡ some e
      → s.closed ≡ false
      → find e s.attachments ≡ some a
      → a.reader ≡ stopping
      → let s' = run ge lt level unmarshal marshal rate evs s in
        (s'.attaching ≡ some c)
        × (s'.closed ≡ false)
        × (read_exited (some e) s'.attachments ≡ false)
  run_deadlock c e a evs s l t o f r =
      let ((b, g, q), l', t', o') = run-Stuck c e evs s ((a, f, r), l, t, o) in
      (l', o', ground arith)
