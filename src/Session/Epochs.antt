-- ===== src/Session/Epochs.antt =====
-- Epochs: only the newest connection is heard.
mod Marks
use Prim.Native.String.{String}
use voice_flux_engine.Prelude.{
  ℕ, length, length-append, ◌++◌, ◌+◌, ◌≤◌, ◌<◌, ◌≡◌, ◌≢◌, refl, sym, ap, ◌∙◌, subst, ltb, leb,
  ◌==◌, if◌then◌else◌, Bool, true, false, not, ◌&&◌, Bool-cases, Option, none, some, Option-cases,
  List, [], ◌∷◌, arith, inl, inr, ◌⊎◌,
}
use mathlib.Core.Option.{some-injective}
use voice_flux_engine.Prelude.Result.{ok, err}
use voice_flux_engine.Frame.{Frame}
use voice_flux_engine.Adapter.{AudioFrame}
use voice_flux_engine.Session.{
  Session, ControlPayload, Heard, Reader, reading, holding, stopping, exited, held_frame,
  Attachment, find, update, remove, is_free, is_exited, is_reading, set_reader, read_exited, is_att,
  mark_stale, attach_claim, attach_bind, detach, close,
}
use voice_flux_engine.Session.Downlink.{
  send_ack, enqueue, pump_take, pump_send, take_next, write_frame,
}
use voice_flux_engine.Session.Uplink.{
  stop_phase, next_reader, admit, on_frame, on_audio, advance_floor, deliver,
}
use voice_flux_engine.Session.Readers.{
  live, count_readers, live_at, live_of, Keeps, count-update, count-one, count-two, find-update,
  find-update_ne, find-remove_ne, count-remove,
}
use voice_flux_engine.Session.Dedup.{
  is_handling, handles-cases, exec-floor, calm-floor, frame-floor,
}
use voice_flux_engine.Session.Readers.Single.{
  exec-One, acks-effect, draws-effect, writes-effect, frame-attachments, held-live,
}
use voice_flux_engine.Session.Readers.Update.{other-exited, update-none, find-epoch, live_of-le}
use voice_flux_engine.Session.Run.{
  Event, exec, run, end_writer, leave_writer, after_ack, set_hand, after_write,
}
use Marks.{
  KeepsMark, Marked, update-Marked, mark-Marked, same-Marked, update_to-Marked, either-Marked,
}

-- 1 for a reader with a frame past the test of the mark
abbrev pub held : Reader → ℕ
held (holding _) = 1
held _ = 0

held-one : (r : Reader) (f : Frame) → held_frame r ≡ some f → held r ≡ 1
held-one r f h = ground arith

-- how many readers have a frame past the test of the mark
abbrev pub frames_held : List Attachment → ℕ
frames_held [] = 0
frames_held (a ∷ rest) = held a.reader + frames_held rest

held-update :
    (e : ℕ) (f : Attachment → Attachment) (a : Attachment) (rest : List Attachment)
    → find e rest ≡ some a
    → (frames_held (update e f rest) + held a.reader ≡ frames_held rest + held (f a).reader)
held-update e f a [] h = ground arith
held-update e f a (b ∷ rest) h =
    let rec = held-update e f a rest in
    elim (Bool-cases (b.epoch == e)) [
      | inl t ↦ ground arith
      | inr t ↦ let r = rec (ground arith) in ground arith
    ]

held-update_le :
    (e : ℕ) (f : Attachment → Attachment) (rest : List Attachment)
    → ((a : Attachment) → held (f a).reader ≤ held a.reader)
    → frames_held (update e f rest) ≤ frames_held rest
held-update_le e f [] k = omega arith
held-update_le e f (b ∷ rest) k =
    let kb = k b in let rec = held-update_le e f rest k in ground arith

either-held :
    (e : ℕ) (f : Attachment → Attachment) (rest rest' : List Attachment)
    → ((a : Attachment) → held (f a).reader ≤ held a.reader)
    → (rest' ≡ rest) ⊎ (rest' ≡ update e f rest)
    → frames_held rest' ≤ frames_held rest
either-held e f rest rest' k (inl p) =
    subst (λ r. frames_held r ≤ frames_held rest) (sym p) (omega arith)
either-held e f rest rest' k (inr p) =
    subst (λ r. frames_held r ≤ frames_held rest) (sym p) (held-update_le e f rest k)

held-le : (rest : List Attachment) → frames_held rest ≤ count_readers rest
held-le [] = omega arith
held-le (a ∷ rest) = let rec = held-le rest in ground arith

module _ {L : Type 0} (ge lt : L → L → Bool) (level : AudioFrame → L)
    (unmarshal : List ℕ → Option ControlPayload) (marshal : ControlPayload → Option (List ℕ))
    (rate : ℕ) where
  -- the current connection has the session's epoch, and a takeover has marked it
  abbrev pub CurrentEpoch : Session L → Type 0
  CurrentEpoch s = (e : ℕ) → s.att ≡ some e → e ≡ s.epoch

  abbrev pub Superseding : Session L → Type 0
  Superseding s = (c e : ℕ) → s.attaching ≡ some c → s.att ≡ some e → Marked e s.attachments

  exec-CurrentEpoch :
      (ev : Event) (s : Session L)
      → CurrentEpoch s
      → CurrentEpoch (exec ge lt level unmarshal marshal rate ev s)
  unfolding exec send_ack admit on_frame on_audio advance_floor deliver close enqueue pump_take
      pump_send take_next write_frame attach_claim attach_bind detach
  exec-CurrentEpoch ev s h e = let g = h e in ground arith

  exec-epoch :
      (ev : Event) (s : Session L)
      → ((c : ℕ) → s.attaching ≡ some c → s.epoch < c)
      → (s.epoch ≤ (exec ge lt level unmarshal marshal rate ev s).epoch)
        × ((c : ℕ)
            → (exec ge lt level unmarshal marshal rate ev s).attaching ≡ some c
            → (exec ge lt level unmarshal marshal rate ev s).epoch < c)
  unfolding exec send_ack admit on_frame on_audio advance_floor deliver close enqueue pump_take
      pump_send take_next write_frame attach_claim attach_bind detach
  exec-epoch ev s h = (
    elim (Option-cases s.attaching) [
      | inl n ↦ ground arith
      | inr (c, t) ↦ let g = h c t in ground arith
    ],
    λ c. let g = h c in ground arith,
  )

  exec-attaching :
      (ev : Event) (s : Session L) (c e : ℕ)
      → let s' = exec ge lt level unmarshal marshal rate ev s in
        s'.attaching ≡ some c
        → s'.att ≡ some e
        → (s.attaching ≡ some c) × (s.att ≡ some e)
          ⊎ ((ev ≡ Event.claim c)
              × (s'.attachments ≡ mark_stale s.att s.attachments)
              × (s.att ≡ some e))
  unfolding exec send_ack admit on_frame on_audio advance_floor deliver close enqueue pump_take
      pump_send take_next write_frame attach_claim attach_bind detach
  exec-attaching ev s c e h k = ground arith

  -- while an `attach` waits, no mark is taken away
  exec-Marked :
      (ev : Event) (s : Session L) (c c' e : ℕ)
      → s.attaching ≡ some c
      → (exec ge lt level unmarshal marshal rate ev s).attaching ≡ some c'
      → Marked e s.attachments
      → Marked e (exec ge lt level unmarshal marshal rate ev s).attachments
  unfolding exec send_ack admit on_frame on_audio advance_floor deliver close enqueue pump_take
      pump_send take_next write_frame attach_claim attach_bind detach
  exec-Marked (Event.claim x) s c c' e l l' m =
      same-Marked e s.attachments
        ((exec ge lt level unmarshal marshal rate (Event.claim x) s).attachments) (ground arith) m
  exec-Marked (Event.bind now) s c c' e l l' m =
      same-Marked e s.attachments
        ((exec ge lt level unmarshal marshal rate (Event.bind now) s).attachments) (ground arith) m
  exec-Marked (Event.arrives e' f) s c c' e l l' m = elim (Option-cases (find e' s.attachments)) [
    | inl n ↦
        same-Marked e s.attachments
          ((exec ge lt level unmarshal marshal rate (Event.arrives e' f) s).attachments)
          (ground arith) m
    | inr (b, h) ↦
        either-Marked e b.epoch (set_reader (holding f)) s.attachments
          ((exec ge lt level unmarshal marshal rate (Event.arrives e' f) s).attachments)
          (λ a. (refl, refl)) (ground arith) m
  ]
  exec-Marked (Event.handles e' known now) s c c' e l l' m =
      elim (handles-cases ge lt level unmarshal marshal rate (Event.handles e' known now) s) [
        | inl h ↦ absurd (ground arith)
        | inr (inl h) ↦
            same-Marked e s.attachments
              ((exec ge lt level unmarshal marshal rate (Event.handles e' known now) s).attachments)
              (ap (λ t. t.attachments) h) m
        | inr (inr (a, f, (_, k, n, _, _, _, q))) ↦
            update_to-Marked e a.epoch (set_reader (next_reader ge lt level unmarshal k f))
              s.attachments
              ((exec ge lt level unmarshal marshal rate (Event.handles e' known now) s).attachments)
              (λ b. (refl, refl))
              (ap (λ t. t.attachments) q
                ∙ frame-attachments ge lt level unmarshal marshal rate k n f a s)
              m
      ]
  exec-Marked (Event.read_fails e') s c c' e l l' m =
      either-Marked e e' (set_reader exited) s.attachments
        ((exec ge lt level unmarshal marshal rate (Event.read_fails e') s).attachments)
        (λ a. (refl, refl)) (ground arith) m
  exec-Marked (Event.stops e') s c c' e l l' m =
      either-Marked e e' (set_reader exited) s.attachments
        ((exec ge lt level unmarshal marshal rate (Event.stops e') s).attachments)
        (λ a. (refl, refl)) (ground arith) m
  exec-Marked (Event.write_ends e') s c c' e l l' m =
      either-Marked e e' leave_writer s.attachments
        ((exec ge lt level unmarshal marshal rate (Event.write_ends e') s).attachments)
        (λ a. (refl, refl)) (ground arith) m
  exec-Marked (Event.detaches e') s c c' e l l' m =
      same-Marked e s.attachments
        ((exec ge lt level unmarshal marshal rate (Event.detaches e') s).attachments) (ground arith)
        m
  exec-Marked Event.closes s c c' e l l' m =
      same-Marked e s.attachments
        ((exec ge lt level unmarshal marshal rate Event.closes s).attachments) (ground arith) m
  exec-Marked (Event.enqueues x) s c c' e l l' m =
      same-Marked e s.attachments
        ((exec ge lt level unmarshal marshal rate (Event.enqueues x) s).attachments) (ground arith)
        m
  exec-Marked (Event.takes f) s c c' e l l' m =
      same-Marked e s.attachments
        ((exec ge lt level unmarshal marshal rate (Event.takes f) s).attachments) (ground arith) m
  exec-Marked Event.sends s c c' e l l' m =
      same-Marked e s.attachments
        ((exec ge lt level unmarshal marshal rate Event.sends s).attachments) (ground arith) m
  exec-Marked (Event.acks e' d sent) s c c' e l l' m =
      elim ((acks-effect ge lt level unmarshal marshal rate e' d sent s).1) [
        | inl u ↦ same-Marked e s.attachments _ u m
        | inr (inl u) ↦ update_to-Marked e e' end_writer s.attachments _ (λ a. (refl, refl)) u m
        | inr (inr u) ↦
            update_to-Marked e e' (after_ack sent) s.attachments _ (λ a. (refl, refl)) u m
      ]
  exec-Marked (Event.draws e') s c c' e l l' m =
      elim ((draws-effect ge lt level unmarshal marshal rate e' s).1) [
        | inl u ↦ same-Marked e s.attachments _ u m
        | inr (x, u) ↦ update_to-Marked e e' (set_hand x) s.attachments _ (λ a. (refl, refl)) u m
      ]
  exec-Marked (Event.writes e' now sent) s c c' e l l' m =
      elim ((writes-effect ge lt level unmarshal marshal rate e' now sent s).1) [
        | inl u ↦ same-Marked e s.attachments _ u m
        | inr u ↦ update_to-Marked e e' (after_write sent) s.attachments _ (λ a. (refl, refl)) u m
      ]

  exec-Superseding :
      (ev : Event) (s : Session L)
      → Superseding s
      → Superseding (exec ge lt level unmarshal marshal rate ev s)
  exec-Superseding ev s h c e l t = elim (exec-attaching ev s c e l t) [
    | inl (l', t') ↦ exec-Marked ev s c c e l' l (h c e l' t')
    | inr (_, p, t') ↦
        subst (Marked e) (sym p) (
          subst (λ o. Marked e (mark_stale o s.attachments)) (sym t') (mark-Marked e s.attachments))
  ]

  -- what holds along every history of a session that starts without connections
  abbrev pub Orderly : Session L → Type 0
  Orderly s =
      (count_readers s.attachments ≡ live_of s.att s.attachments)
      × CurrentEpoch s
      × Superseding s
      × ((c : ℕ) → s.attaching ≡ some c → s.epoch < c)

  exec-Orderly :
      (ev : Event) (s : Session L)
      → Orderly s
      → Orderly (exec ge lt level unmarshal marshal rate ev s)
  exec-Orderly ev s (one, cur, sup, low) = (
    exec-One ge lt level unmarshal marshal rate ev s one,
    exec-CurrentEpoch ev s cur,
    exec-Superseding ev s sup,
    (exec-epoch ev s low).1,
  )

  run-Orderly :
      (evs : List Event) (s : Session L)
      → Orderly s
      → Orderly (run ge lt level unmarshal marshal rate evs s)
        × (s.epoch ≤ (run ge lt level unmarshal marshal rate evs s).epoch)
  unfolding run
  run-Orderly [] s h = (h, omega arith)
  run-Orderly (ev ∷ evs) s (one, cur, sup, low) =
      let s' = exec ge lt level unmarshal marshal rate ev s in
      let (o, le) = run-Orderly evs s' (exec-Orderly ev s (one, cur, sup, low)) in
      let (le', _) = exec-epoch ev s low in (o, omega arith)

  empty-Orderly :
      (s : Session L) → s.att ≡ none → s.attachments ≡ [] → s.attaching ≡ none → Orderly s
  empty-Orderly s h h' h'' = (
    ground arith,
    λ e t. absurd (ground arith),
    λ c e t. absurd (ground arith),
    λ c t. absurd (ground arith),
  )

  reads-att :
      (att : Option ℕ) (e : ℕ) (a : Attachment) (rest : List Attachment)
      → count_readers rest ≡ live_of att rest
      → find e rest ≡ some a
      → live a.reader ≡ 1
      → att ≡ some e
  reads-att none e a rest one t r = let c = count-one e a rest t in absurd (omega arith)
  reads-att (some now) e a rest one t r = elim (Bool-cases (now == e)) [
    | inl same ↦ ground arith
    | inr ne ↦ let z = other-exited e now a rest one t (ground arith) in absurd (omega arith)
  ]

  -- While a takeover is under way, a frame that arrives is not let past the test.
  arrives-held :
      (e : ℕ) (f : Frame) (c : ℕ) (s : Session L)
      → count_readers s.attachments ≡ live_of s.att s.attachments
      → Superseding s
      → s.attaching ≡ some c
      → (exec ge lt level unmarshal marshal rate (Event.arrives e f) s).attachments ≡ s.attachments
  unfolding exec admit
  arrives-held e f c s one sup l = elim (Option-cases (find e s.attachments)) [
    | inl n ↦ ground arith
    | inr (a, t) ↦ elim (Bool-cases (is_reading a.reader)) [
      | inl r ↦
          let m = sup c e l (reads-att s.att e a s.attachments one t (ground arith)) a t in
          ground arith
      | inr r ↦ ground arith
    ]
  ]

  -- Nor does any other event give a reader a frame.
  calm-held :
      (ev : Event) (c : ℕ) (s : Session L)
      → Orderly s
      → s.attaching ≡ some c
      → is_handling ev ≡ false
      → frames_held (exec ge lt level unmarshal marshal rate ev s).attachments
        ≤ frames_held s.attachments
  unfolding exec close enqueue pump_take pump_send attach_bind detach
  calm-held (Event.claim x) c s o l h = ground arith
  calm-held (Event.bind now) c s o l h = ground arith
  calm-held (Event.arrives e f) c s (one, _, sup, _) l h =
      let t = ap frames_held (arrives-held e f c s one sup l) in omega arith
  calm-held (Event.handles e known now) c s o l h = absurd (ground arith)
  calm-held (Event.read_fails e) c s o l h =
      either-held e (set_reader exited) s.attachments _ (λ a. omega arith) (ground arith)
  calm-held (Event.stops e) c s o l h = ground arith
  calm-held (Event.write_ends e) c s o l h =
      held-update_le e leave_writer s.attachments (λ a. omega arith)
  calm-held (Event.detaches e) c s o l h = ground arith
  calm-held Event.closes c s o l h = ground arith
  calm-held (Event.enqueues m) c s o l h = ground arith
  calm-held (Event.takes f) c s o l h = ground arith
  calm-held Event.sends c s o l h = ground arith
  calm-held (Event.acks e d sent) c s o l h =
      elim ((acks-effect ge lt level unmarshal marshal rate e d sent s).1) [
        | inl u ↦ either-held e end_writer s.attachments _ (λ a. omega arith) (inl u)
        | inr (inl u) ↦ either-held e end_writer s.attachments _ (λ a. omega arith) (inr u)
        | inr (inr u) ↦ either-held e (after_ack sent) s.attachments _ (λ a. omega arith) (inr u)
      ]
  calm-held (Event.draws e) c s o l h =
      elim ((draws-effect ge lt level unmarshal marshal rate e s).1) [
        | inl u ↦ either-held e end_writer s.attachments _ (λ a. omega arith) (inl u)
        | inr (m, u) ↦ either-held e (set_hand m) s.attachments _ (λ a. omega arith) (inr u)
      ]
  calm-held (Event.writes e now sent) c s o l h =
      either-held e (after_write sent) s.attachments _ (λ a. omega arith)
        ((writes-effect ge lt level unmarshal marshal rate e now sent s).1)

  next-held : (known : Bool) (f : Frame) → held (next_reader ge lt level unmarshal known f) ≡ 0
  next-held known f = ground arith

  exec-held :
      (ev : Event) (c : ℕ) (s : Session L)
      → Orderly s
      → s.attaching ≡ some c
      → let s' = exec ge lt level unmarshal marshal rate ev s in
        length s'.heard + frames_held s'.attachments ≤ length s.heard + frames_held s.attachments
  exec-held ev c s o l = elim (handles-cases ge lt level unmarshal marshal rate ev s) [
    | inl h ↦
        let same = ap length (calm-floor ge lt level unmarshal marshal rate ev s h).0 in
        let le = calm-held ev c s o l h in omega arith
    | inr (inl h) ↦ let same = ap (λ t. length t.heard + frames_held t.attachments) h in omega arith
    | inr (inr (a, f, (e, k, n, v, t, r, q))) ↦
        let all = ap (λ t. length t.heard + frames_held t.attachments) q in
        let here =
          ap frames_held (frame-attachments ge lt level unmarshal marshal rate k n f a s) in
        let next = set_reader (next_reader ge lt level unmarshal k f) in
        let p : find a.epoch s.attachments ≡ some a =
          subst (λ i. find i s.attachments ≡ some a) (sym (find-epoch e a s.attachments t)) t in
        let u = held-update a.epoch next a s.attachments p in
        let full = held-one a.reader f r in
        let free = next-held k f in
        let few : length (on_frame ge lt level unmarshal k n f a s).heard ≤ length s.heard + 1 =
          elim (frame-floor ge lt level unmarshal marshal rate k n f a s) [
            | inl (x, _) ↦ let y = ap length x in omega arith
            | inr (x, _, _) ↦
                let y =
                  ap length x ∙ length-append s.heard (record { from = a.epoch; frame = f } ∷ []) in
                omega arith
          ] in
        omega arith
  ]

  exec-heard :
      (ev : Event) (s : Session L)
      → count_readers s.attachments ≡ live_of s.att s.attachments
      → let s' = exec ge lt level unmarshal marshal rate ev s in
        (s'.heard ≡ s.heard)
        ⊎ ((h : Heard) × (s'.heard ≡ s.heard ++ h ∷ []) × (s.att ≡ some h.from))
  exec-heard ev s one = elim (exec-floor ge lt level unmarshal marshal rate ev s) [
    | inl (x, _) ↦ inl x
    | inr (a, f, (e, k, n, v, t, r, q), x, _, _) ↦
        let same : a.epoch ≡ e = find-epoch e a s.attachments t in
        let l = held-live ge lt level unmarshal marshal rate a.reader f r in
        inr (
          record { from = a.epoch; frame = f },
          x,
          reads-att s.att e a s.attachments one t l ∙ ap some (sym same),
        )
  ]

  -- A session that starts without connections, whatever has happened, and an event. The controller
  -- hears nothing more, or one frame, of the connection that the session points to, whose epoch is
  -- the session's and at least the first. At most one frame is past the test of the mark and not yet
  -- handled; while a takeover is under way no other passes the test, so that the frames heard and
  -- this one do not grow in number.
  pub delivered_current :
      (evs : List Event) (ev : Event) (s : Session L)
      → s.att ≡ none
      → s.attachments ≡ []
      → s.attaching ≡ none
      → let s' = run ge lt level unmarshal marshal rate evs s in
        let s'' = exec ge lt level unmarshal marshal rate ev s' in
        ((s''.heard ≡ s'.heard)
          ⊎ ((h : Heard) × (s''.heard ≡ s'.heard ++ h ∷ [])
              × (s'.att ≡ some h.from)
              × (s'.epoch ≡ h.from)
              × (s.epoch ≤ h.from)))
        × (frames_held s'.attachments ≤ 1)
        × ((c : ℕ)
            → s'.attaching ≡ some c
            → length s''.heard + frames_held s''.attachments
              ≤ length s'.heard + frames_held s'.attachments)
  delivered_current evs ev s h h' h'' =
      let s' = run ge lt level unmarshal marshal rate evs s in
      let ((one, cur, sup, low), le) = run-Orderly evs s (empty-Orderly s h h' h'') in
      let few = live_of-le s'.att s'.attachments in
      let held = held-le s'.attachments in
      (
        elim (exec-heard ev s' one) [
          | inl x ↦ inl x
          | inr (f, x, t) ↦
              let p = cur f.from t in inr (f, x, t, sym p, subst (λ n. s.epoch ≤ n) (sym p) le)
        ],
        omega arith,
        λ c l. exec-held ev c s' (one, cur, sup, low) l,
      )
