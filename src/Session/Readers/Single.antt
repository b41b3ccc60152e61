-- ===== src/Session/Readers/Single.antt =====
-- At most one reading loop of a session runs, so the ingress pool has one getter.
use Prim.Native.String.{String}
use voice_flux_engine.Prelude.{
  ℕ, ◌≤◌, ◌≡◌, refl, sym, subst, subst₂, Bool, not, ◌&&◌, Bool-cases, Option, none, some,
  Option-cases, List, [], ◌∷◌, arith, inl, inr, ◌⊎◌,
}
use voice_flux_engine.Frame.{Frame}
use voice_flux_engine.Adapter.{AudioFrame}
use voice_flux_engine.Session.{
  Session, ControlPayload, WireMsg, Reader, reading, holding, held_frame, exited, Attachment, find,
  update, is_free, is_exited, is_reading, set_reader, attach_claim, attach_bind, detach, close,
}
use voice_flux_engine.Session.Downlink.{
  send_ack, enqueue, pump_take, pump_send, take_next, write_frame,
}
use voice_flux_engine.Session.Uplink.{
  next_reader, admit, on_frame, on_audio, advance_floor, deliver,
}
use voice_flux_engine.Session.Readers.{live, count_readers}
use voice_flux_engine.Session.Run.{
  Event, exec, run, end_writer, leave_writer, after_ack, set_hand, after_write,
}
use voice_flux_engine.Session.Readers.Update.{
  One, update-One, calm-One, mark_stale-One, exited-live, bind-One, remove-One, find-epoch,
  live_of-le,
}

pub wire-cases :
    (w : List WireMsg) → (w ≡ []) ⊎ ((m : WireMsg) × (rest : List WireMsg) × (w ≡ m ∷ rest))
wire-cases [] = inl refl
wire-cases (m ∷ rest) = inr (m, rest, refl)

module _ {L : Type 0} (ge lt : L → L → Bool) (level : AudioFrame → L)
    (unmarshal : List ℕ → Option ControlPayload) (marshal : ControlPayload → Option (List ℕ))
    (rate : ℕ) where
  abbrev pub OneReader : Session L → Type 0
  OneReader s = One s.att s.attachments

  frame-att :
      (known : Bool) (now : ℕ) (f : Frame) (a : Attachment) (s : Session L)
      → ((on_frame ge lt level unmarshal known now f a s).att ≡ s.att)
  unfolding on_frame on_audio advance_floor deliver
  frame-att known now f a s = ground arith

  pub frame-attachments :
      (known : Bool) (now : ℕ) (f : Frame) (a : Attachment) (s : Session L)
      → ((on_frame ge lt level unmarshal known now f a s).attachments
          ≡ update a.epoch (set_reader (next_reader ge lt level unmarshal known f)) s.attachments)
  unfolding on_frame on_audio advance_floor deliver
  frame-attachments known now f a s = ground arith

  next-live : (known : Bool) (f : Frame) → live (next_reader ge lt level unmarshal known f) ≤ 1
  next-live known f = ground arith

  pub held-live : (r : Reader) (f : Frame) → held_frame r ≡ some f → live r ≡ 1
  held-live r f h = ground arith

  -- an update by the reading loop that was found
  reader-One :
      (e : ℕ) (r : Reader) (a : Attachment) (s : Session L)
      → find e s.attachments ≡ some a
      → live r ≤ live a.reader
      → OneReader s
      → One s.att (update a.epoch (set_reader r) s.attachments)
  reader-One e r a s h le one =
      let q = find-epoch e a s.attachments h in
      let h' : find a.epoch s.attachments ≡ some a =
        subst (λ i. find i s.attachments ≡ some a) (sym q) h in
      update-One s.att a.epoch (set_reader r) a s.attachments (λ b. refl) h' le one

  frame-One :
      (e : ℕ) (known : Bool) (now : ℕ) (f : Frame) (a : Attachment) (s : Session L)
      → find e s.attachments ≡ some a
      → held_frame a.reader ≡ some f
      → OneReader s
      → OneReader (on_frame ge lt level unmarshal known now f a s)
  frame-One e known now f a s h r one =
      let low = next-live known f in
      let l = held-live a.reader f r in
      subst₂ One (sym (frame-att known now f a s)) (sym (frame-attachments known now f a s))
        (reader-One e (next_reader ge lt level unmarshal known f) a s h (omega arith) one)

  admit-One :
      (e : ℕ) (f : Frame) (a : Attachment) (s : Session L)
      → find e s.attachments ≡ some a
      → a.reader ≡ reading
      → OneReader s
      → OneReader (admit f a s)
  unfolding admit
  admit-One e f a s h r one =
      let u = reader-One e (holding f) a s h (ground arith) one in ground arith

  -- what the events of the writers do to the connections
  pub acks-effect :
      (e : ℕ) (detail : String) (sent : Bool) (s : Session L)
      → let s' = exec ge lt level unmarshal marshal rate (Event.acks e detail sent) s in
        (s'.att ≡ s.att)
        × ((s'.attachments ≡ s.attachments)
            ⊎ (s'.attachments ≡ update e end_writer s.attachments)
            ⊎ (s'.attachments ≡ update e (after_ack sent) s.attachments))
  unfolding exec send_ack write_frame
  acks-effect e detail sent s = (ground arith, ground arith)

  draws-next :
      (e : ℕ) (m : WireMsg) (rest : List WireMsg) (s : Session L)
      → s.wire ≡ m ∷ rest
      → let s' = exec ge lt level unmarshal marshal rate (Event.draws e) s in
        (s'.attachments ≡ s.attachments) ⊎ (s'.attachments ≡ update e (set_hand m) s.attachments)
  unfolding exec take_next
  draws-next e m rest s w = ground arith

  draws-att :
      (e : ℕ) (s : Session L)
      → let s' = exec ge lt level unmarshal marshal rate (Event.draws e) s in
        (s'.att ≡ s.att) × (s.wire ≡ [] → s'.attachments ≡ s.attachments)
  unfolding exec take_next
  draws-att e s = (ground arith, ground arith)

  pub draws-effect :
      (e : ℕ) (s : Session L)
      → let s' = exec ge lt level unmarshal marshal rate (Event.draws e) s in
        (s'.att ≡ s.att)
        × ((s'.attachments ≡ s.attachments)
            ⊎ ((m : WireMsg) × (s'.attachments ≡ update e (set_hand m) s.attachments)))
  draws-effect e s =
      let (t, none_left) = draws-att e s in
      (
        t,
        elim (wire-cases s.wire) [
          | inl w ↦ inl (none_left w)
          | inr (m, rest, w) ↦ elim (draws-next e m rest s w) [ inl u ↦ inl u | inr u ↦ inr (m, u) ]
        ],
      )

  pub writes-effect :
      (e now : ℕ) (sent : Bool) (s : Session L)
      → let s' = exec ge lt level unmarshal marshal rate (Event.writes e now sent) s in
        (s'.att ≡ s.att)
        × ((s'.attachments ≡ s.attachments)
            ⊎ (s'.attachments ≡ update e (after_write sent) s.attachments))
  unfolding exec write_frame
  writes-effect e now sent s = (ground arith, ground arith)

  pub exec-One :
      (ev : Event) (s : Session L)
      → OneReader s
      → OneReader (exec ge lt level unmarshal marshal rate ev s)
  unfolding exec send_ack close enqueue pump_take pump_send take_next write_frame attach_claim
      detach
  exec-One (Event.claim c) s one =
      let m = mark_stale-One s.att s.att s.attachments one in ground arith
  exec-One (Event.bind now) s one = elim (Option-cases (attach_bind now s)) [
    | inl t ↦ rw (t, exec) one
    | inr (s', t) ↦ rw (t, exec) (bind-One now s s' t one)
  ]
  exec-One (Event.arrives e f) s one = elim (Option-cases (find e s.attachments)) [
    | inl t ↦ rw (t, exec) one
    | inr (a, t) ↦
        let u = admit-One e f a s t in
        elim (Bool-cases (is_reading a.reader)) [
          | inl b ↦ rw (t, b, exec) (u (ground arith) one)
          | inr b ↦ rw (t, b, exec) one
        ]
  ]
  exec-One (Event.handles e known now) s one = elim (Option-cases (find e s.attachments)) [
    | inl t ↦ rw (t, exec) one
    | inr (a, t) ↦ elim (Option-cases (held_frame a.reader)) [
      | inl b ↦ rw (t, b, exec) one
      | inr (f, b) ↦ rw (t, b, exec) (frame-One e known now f a s t b one)
    ]
  ]
  exec-One (Event.read_fails e) s one = elim (Option-cases (find e s.attachments)) [
    | inl t ↦ rw (t, exec) one
    | inr (a, t) ↦
        let u =
          update-One s.att e (set_reader exited) a s.attachments (λ b. refl) t (omega arith) one in
        rw (t, exec) (ground arith)
  ]
  exec-One (Event.stops e) s one = elim (Option-cases (find e s.attachments)) [
    | inl t ↦ rw (t, exec) one
    | inr (a, t) ↦
        let u =
          update-One s.att e (set_reader exited) a s.attachments (λ b. refl) t (omega arith) one in
        rw (t, exec) (ground arith)
  ]
  exec-One (Event.write_ends e) s one =
      calm-One s.att e leave_writer s.attachments (λ a. refl) (λ a. omega arith) one
  exec-One (Event.acks e detail sent) s one =
      let (t, eff) = acks-effect e detail sent s in
      let calm = calm-One s.att e in
      let go : OneReader (exec ge lt level unmarshal marshal rate (Event.acks e detail sent) s) =
        elim eff [
          | inl u ↦ subst₂ One (sym t) (sym u) one
          | inr (inl u) ↦
              subst₂ One (sym t) (sym u)
                (calm end_writer s.attachments (λ a. refl) (λ a. omega arith) one)
          | inr (inr u) ↦
              subst₂ One (sym t) (sym u)
                (calm (after_ack sent) s.attachments (λ a. refl) (λ a. omega arith) one)
        ] in
      go
  exec-One (Event.detaches e) s one = elim (Option-cases (find e s.attachments)) [
    | inl t ↦ rw (t, exec) one
    | inr (a, t) ↦ elim (Bool-cases (is_exited a.reader && not a.writing && is_free s.attaching)) [
      | inl b ↦
          rw (t, b, exec, detach)
            (remove-One s.att e a s.attachments t (exited-live a.reader (ground arith)) one)
      | inr b ↦ rw (t, b, exec) one
    ]
  ]
  exec-One Event.closes s one = ground arith
  exec-One (Event.enqueues m) s one = ground arith
  exec-One (Event.takes f) s one = ground arith
  exec-One Event.sends s one = ground arith
  exec-One (Event.draws e) s one =
      let (t, eff) = draws-effect e s in
      let go : OneReader (exec ge lt level unmarshal marshal rate (Event.draws e) s) = elim eff [
        | inl u ↦ subst₂ One (sym t) (sym u) one
        | inr (m, u) ↦
            subst₂ One (sym t) (sym u)
              (calm-One s.att e (set_hand m) s.attachments (λ a. refl) (λ a. omega arith) one)
      ] in
      go
  exec-One (Event.writes e now sent) s one =
      let (t, eff) = writes-effect e now sent s in
      let go : OneReader (exec ge lt level unmarshal marshal rate (Event.writes e now sent) s) =
        elim eff [
          | inl u ↦ subst₂ One (sym t) (sym u) one
          | inr u ↦
              subst₂ One (sym t) (sym u) (
                calm-One s.att e (after_write sent) s.attachments (λ a. refl) (λ a. omega arith)
                  one)
        ] in
      go

  run-One :
      (evs : List Event) (s : Session L)
      → OneReader s
      → OneReader (run ge lt level unmarshal marshal rate evs s)
  unfolding run
  run-One [] s one = one
  run-One (ev ∷ evs) s one =
      run-One evs (exec ge lt level unmarshal marshal rate ev s) (exec-One ev s one)

  -- From a session without connections, as a new one, no history ever has two reading loops running:
  -- a connection that takes over starts reading only when the reader it supersedes has ended. So the
  -- ingress pool, which allows one goroutine that gets buffers, has at most one.
  pub run-one_reader :
      (evs : List Event) (s : Session L)
      → s.att ≡ none
      → s.attachments ≡ []
      → count_readers (run ge lt level unmarshal marshal rate evs s).attachments ≤ 1
  run-one_reader evs s h h' =
      let start : OneReader s = rw (h, h') refl in
      let one = run-One evs s start in
      let r = run ge lt level unmarshal marshal rate evs s in
      let b = live_of-le r.att r.attachments in omega arith
