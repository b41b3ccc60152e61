-- ===== src/Session/Hands/Moves.antt =====
-- The messages that a step of a session takes from the queue, numbers, and leaves in the hands of the
-- writers.
use Prim.Native.String.{String}
use voice_flux_engine.Prelude.{
  ℕ, ◌+◌, ◌≡◌, refl, ap, Bool, true, false, not, ◌&&◌, Bool-cases, Option, Option-cases, none, some,
  List, [], ◌∷◌, ◌++◌, map, ◌⊎◌, inl, inr, arith,
}
use voice_flux_engine.Frame.{Frame}
use voice_flux_engine.Adapter.{AudioFrame}
use voice_flux_engine.Session.{
  Session, ControlPayload, WireMsg, Attachment, find, update, remove, is_free, is_exited,
  mark_stale, attach_claim, detach,
}
use voice_flux_engine.Session.Downlink.{send_ack, take_next, write_frame}
use voice_flux_engine.Session.Run.{
  Event, exec, has_message, end_writer, after_ack, set_hand, after_write,
}
use voice_flux_engine.Session.Readers.Single.{wire-cases}
use voice_flux_engine.Session.Wire.{takes_out}
use voice_flux_engine.Session.Hands.{
  to_msg, weight, count_of, in_hand, hands, hands-update, hands-update_same, is_tidy, AllTidy,
  find-is_tidy, update-AllTidy, all-AllTidy,
}

module _ {L : Type 0} where
  -- the frame that a writer makes of the message in its hand and writes, with success or not
  unfoldable pub numbers : Event → Session L → List Frame
  numbers (Event.writes e now sent) s = elim (find e s.attachments) [
    | none ↦ []
    | some a ↦ elim a.hand [ none ↦ [] | some m ↦ (write_frame m s).0 ∷ [] ]
  ]
  numbers _ s = []

module _ {L : Type 0} (ge lt : L → L → Bool) (level : AudioFrame → L)
    (unmarshal : List ℕ → Option ControlPayload) (marshal : ControlPayload → Option (List ℕ))
    (rate : ℕ) where
  unfoldable pub numbered : List Event → Session L → List Frame
  numbered [] s = []
  numbered (ev ∷ evs) s =
      numbers ev s ++ numbered evs (exec ge lt level unmarshal marshal rate ev s)

  -- the messages that an event takes from the queue are then in a hand or numbered
  abbrev pub Balanced : (WireMsg → Bool) → Event → Session L → Type 0
  Balanced p ev s =
      let s' = exec ge lt level unmarshal marshal rate ev s in
      (count_of p (takes_out ev s) + hands p s.attachments
        ≡ count_of p (map to_msg (numbers ev s)) + hands p s'.attachments)
      × AllTidy s'.attachments

  -- an event that neither takes nor numbers a message
  pub still :
      (p : WireMsg → Bool) (ev : Event) (s : Session L) (rest : List Attachment)
      → takes_out ev s ≡ []
      → numbers ev s ≡ []
      → (exec ge lt level unmarshal marshal rate ev s).attachments ≡ rest
      → hands p rest ≡ hands p s.attachments
      → AllTidy rest
      → Balanced p ev s
  still p ev s rest x y z h t = rw (x, y, z, h) (refl, t)

  draws-taken :
      (e : ℕ) (a : Attachment) (m : WireMsg) (rest : List WireMsg) (s : Session L)
      → find e s.attachments ≡ some a
      → (a.writing && (a.acked && not (has_message a.hand))) ≡ true
      → s.wire ≡ m ∷ rest
      → (takes_out (Event.draws e) s ≡ m ∷ [])
        × ((exec ge lt level unmarshal marshal rate (Event.draws e) s).attachments
            ≡ update e (set_hand m) s.attachments)
  unfolding exec takes_out take_next
  draws-taken e a m rest s h q w = (ground arith, ground arith)

  -- the writer of an epoch takes nothing
  abbrev NoDraw : ℕ → Session L → Type 0
  NoDraw e s =
      (find e s.attachments ≡ none)
      ⊎ ((a : Attachment) × (find e s.attachments ≡ some a)
          × ((s.wire ≡ []) ⊎ ((a.writing && (a.acked && not (has_message a.hand))) ≡ false)))

  draws-still :
      (e : ℕ) (s : Session L)
      → NoDraw e s
      → (takes_out (Event.draws e) s ≡ [])
        × ((exec ge lt level unmarshal marshal rate (Event.draws e) s).attachments ≡ s.attachments)
  unfolding exec takes_out take_next
  draws-still e s (inl h) = (ground arith, ground arith)
  draws-still e s (inr (a, h, inl w)) = (ground arith, ground arith)
  draws-still e s (inr (a, h, inr q)) = (ground arith, ground arith)

  pub draws-Balanced :
      (p : WireMsg → Bool) (e : ℕ) (s : Session L)
      → AllTidy s.attachments
      → Balanced p (Event.draws e) s
  unfolding numbers
  draws-Balanced p e s t =
      let idle : NoDraw e s → Balanced p (Event.draws e) s = λ why.
        let (x, y) = draws-still e s why in
        still p (Event.draws e) s s.attachments x refl y refl t in
      elim (Option-cases (find e s.attachments)) [
        | inl n ↦ idle (inl n)
        | inr (a, h) ↦ elim (Bool-cases (a.writing && (a.acked && not (has_message a.hand)))) [
          | inr q ↦ idle (inr (a, h, inr q))
          | inl q ↦ elim (wire-cases s.wire) [
            | inl w ↦ idle (inr (a, h, inl w))
            | inr (m, rest, w) ↦
                let (x, y) = draws-taken e a m rest s h q w in
                let u = hands-update p e (set_hand m) a s.attachments h in
                let none_yet : in_hand p a.hand ≡ 0 = ground arith in
                rw (x, y)
                  (omega arith, update-AllTidy e (set_hand m) a s.attachments h (ground arith) t)
          ]
        ]
      ]

  writes-numbered :
      (e now : ℕ) (sent : Bool) (a : Attachment) (m : WireMsg) (s : Session L)
      → find e s.attachments ≡ some a
      → a.hand ≡ some m
      → (map to_msg (numbers (Event.writes e now sent) s) ≡ m ∷ [])
        × ((exec ge lt level unmarshal marshal rate (Event.writes e now sent) s).attachments
            ≡ update e (after_write sent) s.attachments)
  unfolding exec numbers write_frame
  writes-numbered e now sent a m s h q = (ground arith, ground arith)

  -- the writer of an epoch has nothing to number
  abbrev NoWrite : ℕ → Session L → Type 0
  NoWrite e s =
      (find e s.attachments ≡ none)
      ⊎ ((a : Attachment) × (find e s.attachments ≡ some a) × (a.hand ≡ none))

  writes-still :
      (e now : ℕ) (sent : Bool) (s : Session L)
      → NoWrite e s
      → (numbers (Event.writes e now sent) s ≡ [])
        × ((exec ge lt level unmarshal marshal rate (Event.writes e now sent) s).attachments
            ≡ s.attachments)
  unfolding exec numbers write_frame
  writes-still e now sent s (inl h) = (ground arith, ground arith)
  writes-still e now sent s (inr (a, h, q)) = (ground arith, ground arith)

  pub writes-Balanced :
      (p : WireMsg → Bool) (e now : ℕ) (sent : Bool) (s : Session L)
      → AllTidy s.attachments
      → Balanced p (Event.writes e now sent) s
  unfolding takes_out
  writes-Balanced p e now sent s t =
      let idle : NoWrite e s → Balanced p (Event.writes e now sent) s = λ why.
        let (x, y) = writes-still e now sent s why in
        still p (Event.writes e now sent) s s.attachments refl x y refl t in
      elim (Option-cases (find e s.attachments)) [
        | inl n ↦ idle (inl n)
        | inr (a, h) ↦ elim (Option-cases a.hand) [
          | inl q ↦ idle (inr (a, h, q))
          | inr (m, q) ↦
              let (x, y) = writes-numbered e now sent a m s h q in
              let u = hands-update p e (after_write sent) a s.attachments h in
              let full : in_hand p a.hand ≡ weight (p m) = ap (in_hand p) q in
              rw (x, y) (omega arith, update-AllTidy e (after_write sent) a s.attachments h refl t)
        ]
      ]

  pub same-Balanced :
      (p : WireMsg → Bool) (ev : Event) (s : Session L)
      → takes_out ev s ≡ []
      → numbers ev s ≡ []
      → (exec ge lt level unmarshal marshal rate ev s).attachments ≡ s.attachments
      → AllTidy s.attachments
      → Balanced p ev s
  same-Balanced p ev s x y z t = still p ev s s.attachments x y z refl t

  pub update-Balanced :
      (p : WireMsg → Bool) (ev : Event) (e : ℕ) (f : Attachment → Attachment) (s : Session L)
      → takes_out ev s ≡ []
      → numbers ev s ≡ []
      → ((a : Attachment) → (f a).hand ≡ a.hand)
      → ((a : Attachment) → is_tidy a ≡ true → is_tidy (f a) ≡ true)
      → let s' = exec ge lt level unmarshal marshal rate ev s in
        (s'.attachments ≡ s.attachments) ⊎ (s'.attachments ≡ update e f s.attachments)
        → AllTidy s.attachments
        → Balanced p ev s
  update-Balanced p ev e f s x y k l (inl z) t = same-Balanced p ev s x y z t
  update-Balanced p ev e f s x y k l (inr z) t =
      still p ev s (update e f s.attachments) x y z (hands-update_same p e f s.attachments k)
        (all-AllTidy e f s.attachments l t)

  pub mark-hands :
      (p : WireMsg → Bool) (o : Option ℕ) (rest : List Attachment)
      → AllTidy rest
      → (hands p (mark_stale o rest) ≡ hands p rest) × AllTidy (mark_stale o rest)
  mark-hands p none rest t = (refl, t)
  mark-hands p (some e) rest t = (
    hands-update_same p e (λ a. record a { stale = true }) rest (λ a. refl),
    all-AllTidy e (λ a. record a { stale = true }) rest (λ a h. h) t,
  )

  pub claim-attachments :
      (c : ℕ) (s : Session L)
      → let s' = exec ge lt level unmarshal marshal rate (Event.claim c) s in
        (s'.attachments ≡ s.attachments) ⊎ (s'.attachments ≡ mark_stale s.att s.attachments)
  unfolding exec attach_claim
  claim-attachments c s = ground arith

  pub detaches-attachments :
      (e : ℕ) (s : Session L)
      → let s' = exec ge lt level unmarshal marshal rate (Event.detaches e) s in
        (s'.attachments ≡ s.attachments)
        ⊎ ((a : Attachment) × (find e s.attachments ≡ some a)
            × (a.writing ≡ false)
            × (s'.attachments ≡ remove e s.attachments))
  unfolding exec detach
  detaches-attachments e s = elim (Option-cases (find e s.attachments)) [
    | inl h ↦ inl (ground arith)
    | inr (a, h) ↦ elim (Bool-cases (is_exited a.reader && not a.writing && is_free s.attaching)) [
      | inl q ↦ inr (a, h, ground arith, ground arith)
      | inr q ↦ inl (ground arith)
    ]
  ]

  -- a writer that has not answered the handshake, and how it goes on
  acks-attachments :
      (e : ℕ) (d : String) (sent : Bool) (s : Session L)
      → let s' = exec ge lt level unmarshal marshal rate (Event.acks e d sent) s in
        (s'.attachments ≡ s.attachments)
        ⊎ ((a : Attachment) × (find e s.attachments ≡ some a)
            × (a.acked ≡ false)
            × ((s'.attachments ≡ update e end_writer s.attachments)
                ⊎ (s'.attachments ≡ update e (after_ack sent) s.attachments)))
  unfolding exec send_ack write_frame
  acks-attachments e d sent s = elim (Option-cases (find e s.attachments)) [
    | inl h ↦ inl (ground arith)
    | inr (a, h) ↦ elim (Bool-cases (a.writing && not a.acked)) [
      | inl q ↦ inr (a, h, ground arith, ground arith)
      | inr q ↦ inl (ground arith)
    ]
  ]

  pub acks-Balanced :
      (p : WireMsg → Bool) (e : ℕ) (d : String) (sent : Bool) (s : Session L)
      → AllTidy s.attachments
      → Balanced p (Event.acks e d sent) s
  unfolding takes_out numbers
  acks-Balanced p e d sent s t = elim (acks-attachments e d sent s) [
    | inl z ↦ same-Balanced p (Event.acks e d sent) s refl refl z t
    | inr (a, h, q, z) ↦
        let tidy = find-is_tidy e a s.attachments h t in
        elim z [
          | inl z' ↦
              still p (Event.acks e d sent) s (update e end_writer s.attachments) refl refl z'
                (hands-update_same p e end_writer s.attachments (λ b. refl))
                (update-AllTidy e end_writer a s.attachments h (ground arith) t)
          | inr z' ↦
              still p (Event.acks e d sent) s (update e (after_ack sent) s.attachments) refl refl z'
                (hands-update_same p e (after_ack sent) s.attachments (λ b. refl))
                (update-AllTidy e (after_ack sent) a s.attachments h (ground arith) t)
        ]
  ]
