-- ===== src/Session/Hands/Run.antt =====
-- The messages between the downlink queue and a write, over a history of a session.
use voice_flux_engine.Prelude.{
  ℕ, ◌+◌, ◌≡◌, refl, ap, ◌∙◌, Bool, Option, Option-cases, List, [], ◌∷◌, map, map-append, inl, inr,
  arith,
}
use voice_flux_engine.Adapter.{AudioFrame}
use voice_flux_engine.Session.{
  Session, ControlPayload, WireMsg, holding, exited, find, remove, set_reader, mark_stale,
  attach_claim, attach_bind, detach, close,
}
use voice_flux_engine.Session.Downlink.{enqueue, pump_take, pump_send}
use voice_flux_engine.Session.Uplink.{next_reader, admit}
use voice_flux_engine.Session.Run.{Event, exec, run, leave_writer}
use voice_flux_engine.Session.Readers.Single.{frame-attachments}
use voice_flux_engine.Session.Dedup.{handles-cases}
use voice_flux_engine.Session.Wire.{takes_out, taken}
use voice_flux_engine.Session.Hands.{
  to_msg, count_of, count_of-append, in_hand, hands, hands-remove, AllTidy, find-is_tidy,
  remove-AllTidy,
}
use voice_flux_engine.Session.Hands.Moves.{
  numbers, numbered, Balanced, still, draws-Balanced, writes-Balanced, same-Balanced,
  update-Balanced, mark-hands, claim-attachments, detaches-attachments, acks-Balanced,
}

module _ {L : Type 0} (ge lt : L → L → Bool) (level : AudioFrame → L)
    (unmarshal : List ℕ → Option ControlPayload) (marshal : ControlPayload → Option (List ℕ))
    (rate : ℕ) where
  exec-Balanced :
      (p : WireMsg → Bool) (ev : Event) (s : Session L)
      → AllTidy s.attachments
      → Balanced ge lt level unmarshal marshal rate p ev s
  unfolding exec takes_out numbers attach_claim attach_bind enqueue pump_take pump_send close detach
      admit
  exec-Balanced p (Event.claim c) s t =
      let (h, t') = mark-hands ge lt level unmarshal marshal rate p s.att s.attachments t in
      elim (claim-attachments ge lt level unmarshal marshal rate c s) [
        | inl z ↦ same-Balanced ge lt level unmarshal marshal rate p (Event.claim c) s refl refl z t
        | inr z ↦
            still ge lt level unmarshal marshal rate p (Event.claim c) s
              (mark_stale s.att s.attachments) refl refl z h t'
      ]
  exec-Balanced p (Event.bind now) s t = (ground arith, ground arith)
  exec-Balanced p (Event.arrives e f) s t = elim (Option-cases (find e s.attachments)) [
    | inl h ↦
        same-Balanced ge lt level unmarshal marshal rate p (Event.arrives e f) s refl refl
          (ground arith) t
    | inr (a, h) ↦
        update-Balanced ge lt level unmarshal marshal rate p (Event.arrives e f) a.epoch
          (set_reader (holding f)) s refl refl (λ b. refl) (λ b k. k) (ground arith) t
  ]
  exec-Balanced p (Event.handles e known now) s t =
      elim (handles-cases ge lt level unmarshal marshal rate (Event.handles e known now) s) [
        | inl h ↦ absurd (ground arith)
        | inr (inl h) ↦
            same-Balanced ge lt level unmarshal marshal rate p (Event.handles e known now) s refl
              refl (ap (λ r. r.attachments) h) t
        | inr (inr (a, f, (_, k, n, _, _, _, q))) ↦
            update-Balanced ge lt level unmarshal marshal rate p (Event.handles e known now) a.epoch
              (set_reader (next_reader ge lt level unmarshal k f)) s refl refl (λ b. refl)
              (λ b h. h)
              (inr (
                ap (λ r. r.attachments) q
                ∙ frame-attachments ge lt level unmarshal marshal rate k n f a s))
              t
      ]
  exec-Balanced p (Event.read_fails e) s t =
      update-Balanced ge lt level unmarshal marshal rate p (Event.read_fails e) e
        (set_reader exited) s refl refl (λ b. refl) (λ b h. h) (ground arith) t
  exec-Balanced p (Event.stops e) s t =
      update-Balanced ge lt level unmarshal marshal rate p (Event.stops e) e (set_reader exited) s
        refl refl (λ b. refl) (λ b h. h) (ground arith) t
  exec-Balanced p (Event.write_ends e) s t =
      update-Balanced ge lt level unmarshal marshal rate p (Event.write_ends e) e leave_writer s
        refl refl (λ b. refl) (λ b h. ground arith) (inr refl) t
  exec-Balanced p (Event.detaches e) s t =
      elim (detaches-attachments ge lt level unmarshal marshal rate e s) [
        | inl z ↦
            same-Balanced ge lt level unmarshal marshal rate p (Event.detaches e) s refl refl z t
        | inr (a, h, q, z) ↦
            let tidy = find-is_tidy e a s.attachments h t in
            let idle : in_hand p a.hand ≡ 0 = ground arith in
            let u = hands-remove p e a s.attachments h in
            still ge lt level unmarshal marshal rate p (Event.detaches e) s (remove e s.attachments)
              refl refl z (omega arith) (remove-AllTidy e s.attachments t)
      ]
  exec-Balanced p Event.closes s t =
      same-Balanced ge lt level unmarshal marshal rate p Event.closes s refl refl (ground arith) t
  exec-Balanced p (Event.enqueues m) s t =
      same-Balanced ge lt level unmarshal marshal rate p (Event.enqueues m) s refl refl
        (ground arith) t
  exec-Balanced p (Event.takes f) s t =
      same-Balanced ge lt level unmarshal marshal rate p (Event.takes f) s refl refl (ground arith)
        t
  exec-Balanced p Event.sends s t =
      same-Balanced ge lt level unmarshal marshal rate p Event.sends s refl refl (ground arith) t
  exec-Balanced p (Event.acks e d sent) s t =
      acks-Balanced ge lt level unmarshal marshal rate p e d sent s t
  exec-Balanced p (Event.draws e) s t = draws-Balanced ge lt level unmarshal marshal rate p e s t
  exec-Balanced p (Event.writes e now sent) s t =
      writes-Balanced ge lt level unmarshal marshal rate p e now sent s t

  -- Whatever happens to a session, the messages that its writers take from the queue are neither lost
  -- nor doubled on the way to a write: of those that satisfy any test, as many have been taken and were in
  -- the hands of the writers at first as have been numbered, for a write that succeeds or not, and are
  -- in their hands at last, when at first only writers that have answered the handshake and go on have
  -- one.
  pub run-hands :
      (p : WireMsg → Bool) (evs : List Event) (s : Session L)
      → AllTidy s.attachments
      → let s' = run ge lt level unmarshal marshal rate evs s in
        count_of p (taken ge lt level unmarshal marshal rate evs s) + hands p s.attachments
        ≡ count_of p (map to_msg (numbered ge lt level unmarshal marshal rate evs s))
          + hands p s'.attachments
  unfolding run taken numbered
  run-hands p [] s t = omega arith
  run-hands p (ev ∷ evs) s t =
      let s' = exec ge lt level unmarshal marshal rate ev s in
      let (b, t') = exec-Balanced p ev s t in
      let rest = run-hands p evs s' t' in
      let x =
        count_of-append p (takes_out ev s) (taken ge lt level unmarshal marshal rate evs s') in
      let y =
        ap (count_of p)
          (map-append to_msg (numbers ev s) (numbered ge lt level unmarshal marshal rate evs s')) in
      let z =
        count_of-append p (map to_msg (numbers ev s))
          (map to_msg (numbered ge lt level unmarshal marshal rate evs s')) in
      omega arith
