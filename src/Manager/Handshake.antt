-- ===== src/Manager/Handshake.antt =====
-- The handshake with `Handler`.
use Prim.Native.String.{String}
use text.Mathlib.Text.{◌==◌ as str_eq}
use voice_flux_engine.Prelude.{
  ℕ, ◌+◌, ◌<◌, ◌≤◌, ◌≡◌, ◌⊎◌, refl, ap, ◌∙◌, leb, ◌==◌, ◌&&◌, if◌then◌else◌, u64, true, false,
  Bool-cases, if-true, if-false, Option, none, some, ◌∷◌, arith, inl, inr,
}
use voice_flux_engine.Prelude.Result.{ok, err}
use voice_flux_engine.Frame.{Frame}
use voice_flux_engine.Session.{
  Session, ControlPayload, start, type_control, attach_claim, is_free, mark_stale, AttachError,
  session_closed, stale_claim,
}
use voice_flux_engine.Manager.{
  Manager, Detail, resumed, created, expired, delete, refused, serves, waits, attach_to, lookup,
  resolve, handshake, is_start, count_claim, replace,
}

is_start-and :
    (f : Frame) (c : ControlPayload)
    → f.typ ≡ type_control
    → c.kind ≡ start
    → (f.typ == type_control && is_start c.kind) ≡ true
is_start-and f c t k = ground arith

module _ {L : Type 0} where
  -- `attach_claim` on its two branches
  attach-ok :
      (k : ℕ) (s : Session L)
      → s.closed ≡ false
      → s.epoch < k
      → (s' : Session L) × (attach_claim k s ≡ ok s') × (s'.attaching ≡ some k)
  unfolding attach_claim
  attach-ok k s o lt =
      let low : leb k s.epoch ≡ false = ground arith in
      (
        record s { attaching = some k; attachments = mark_stale s.att s.attachments },
        if-false _ _ o ∙ if-false _ _ low,
        refl,
      )

  attach-err :
      (k : ℕ) (s : Session L)
      → (s.closed ≡ true) ⊎ (k ≤ s.epoch)
      → (e : AttachError) × (attach_claim k s ≡ err e)
  unfolding attach_claim
  attach-err k s (inl o) = (session_closed, if-true _ _ o)
  attach-err k s (inr le) = elim (Bool-cases s.closed) [
    | inl o ↦ (session_closed, if-true _ _ o)
    | inr o ↦
        let low : leb k s.epoch ≡ true = ground arith in
        (stale_claim k s.epoch, if-false _ _ o ∙ if-true _ _ low)
  ]

  served :
      (f : Frame) (c : ControlPayload) (id : String) (fresh : Option (Session L)) (s s' : Session L)
      (k : ℕ) (d : Detail) (m m' : Manager L)
      → (f.typ == type_control && is_start c.kind) ≡ true
      → resolve c id fresh m ≡ some (s, k, d, m')
      → is_free s.attaching ≡ true
      → attach_claim k s ≡ ok s'
      → handshake f (some c) id fresh m
        ≡ (serves s', record m' { sessions = replace s' m'.sessions })
  unfolding handshake attach_to
  served f c id fresh s s' k d m m' b r i a = rw (b, r, i, a) refl

  declined :
      (f : Frame) (c : ControlPayload) (id : String) (fresh : Option (Session L)) (s : Session L)
      (e : AttachError) (k : ℕ) (d : Detail) (m m' : Manager L)
      → (f.typ == type_control && is_start c.kind) ≡ true
      → resolve c id fresh m ≡ some (s, k, d, m')
      → is_free s.attaching ≡ true
      → attach_claim k s ≡ err e
      → handshake f (some c) id fresh m ≡ (refused, count_claim m')
  unfolding handshake attach_to
  declined f c id fresh s e k d m m' b r i a = rw (b, r, i, a) refl

  delayed :
      (f : Frame) (c : ControlPayload) (id : String) (fresh : Option (Session L)) (s : Session L)
      (k : ℕ) (d : Detail) (m m' : Manager L)
      → (f.typ == type_control && is_start c.kind) ≡ true
      → resolve c id fresh m ≡ some (s, k, d, m')
      → is_free s.attaching ≡ false
      → handshake f (some c) id fresh m ≡ (waits s k, m')
  unfolding handshake attach_to
  delayed f c id fresh s k d m m' b r i = rw (b, r, i) refl

  resolve-new :
      (c : ControlPayload) (id : String) (s : Session L) (m : Manager L)
      → lookup c.session_id m.sessions ≡ none
      → (k : ℕ) × (d : Detail) × (m' : Manager L) × (resolve c id (some s) m ≡ some (s, k, d, m'))
        × (0 < k)
        × (m'.stale_epoch_claims ≡ m.stale_epoch_claims)
        × (m'.sessions_created ≡ u64 (m.sessions_created + 1))
  unfolding resolve
  resolve-new c id s m n =
      let m' = record m {
        sessions = s ∷ delete id m.sessions;
        sessions_created = u64 (m.sessions_created + 1);
      } in
      elim (Bool-cases (str_eq c.session_id "")) [
        | inl t ↦ (
          (if c.epoch == 0 then 1 else c.epoch),
          created,
          m',
          rw (t, resolve) (if-true _ _ t),
          ground arith,
          refl,
          refl,
        )
        | inr t ↦ (1, expired, m', rw (t, n, resolve) (if-false _ _ t), omega arith, refl, refl)
      ]

  resolve-known :
      (c : ControlPayload) (id : String) (fresh : Option (Session L)) (s : Session L)
      (m : Manager L)
      → str_eq c.session_id "" ≡ false
      → lookup c.session_id m.sessions ≡ some s
      → resolve c id fresh m ≡ some (s, c.epoch, resumed, m)
  unfolding resolve
  resolve-known c id fresh s m n h = rw (n, h, resolve) refl

  -- A START that names no live session is served with the new one, whatever epoch it claims and even
  -- when it names a session that is gone; nothing is counted as a stale claim.
  pub handshake_new :
      (f : Frame) (c : ControlPayload) (id : String) (s : Session L) (m : Manager L)
      → f.typ ≡ type_control
      → c.kind ≡ start
      → lookup c.session_id m.sessions ≡ none
      → s.closed ≡ false
      → s.epoch ≡ 0
      → s.attaching ≡ none
      → (s' : Session L) × ((handshake f (some c) id (some s) m).0 ≡ serves s')
        × ((handshake f (some c) id (some s) m).1.stale_epoch_claims ≡ m.stale_epoch_claims)
        × ((handshake f (some c) id (some s) m).1.sessions_created ≡ u64 (m.sessions_created + 1))
  handshake_new f c id s m t k n o e i =
      let (claimed, d, m', r, low, st, cr) = resolve-new c id s m n in
      let (s', a, _) = attach-ok claimed s o (omega arith) in
      let h =
        served f c id (some s) s s' claimed d m m' (is_start-and f c t k) r (ap is_free i) a in
      (
        s',
        ap (λ x. x.0) h,
        ap (λ x. x.1.stale_epoch_claims) h ∙ st,
        ap (λ x. x.1.sessions_created) h ∙ cr,
      )

  -- A START for a live session. While another `attach` holds the session's mutex, this one waits, and
  -- the manager stays as it is. Otherwise, if the session is open and its epoch is below the claimed
  -- one, the START is served, with that claim, and not counted; if the session is closed, or the
  -- claim is not above its epoch, it is refused and counted as a stale claim.
  pub handshake_known :
      (f : Frame) (c : ControlPayload) (id : String) (fresh : Option (Session L)) (s : Session L)
      (m : Manager L)
      → f.typ ≡ type_control
      → c.kind ≡ start
      → str_eq c.session_id "" ≡ false
      → lookup c.session_id m.sessions ≡ some s
      → ((w : ℕ) → s.attaching ≡ some w → handshake f (some c) id fresh m ≡ (waits s c.epoch, m))
        × (s.attaching ≡ none
            → s.closed ≡ false
            → s.epoch < c.epoch
            → (s' : Session L) × ((handshake f (some c) id fresh m).0 ≡ serves s')
              × (s'.attaching ≡ some c.epoch)
              × ((handshake f (some c) id fresh m).1.stale_epoch_claims ≡ m.stale_epoch_claims))
        × (s.attaching ≡ none
            → (s.closed ≡ true) ⊎ (c.epoch ≤ s.epoch)
            → handshake f (some c) id fresh m ≡ (refused, count_claim m))
  handshake_known f c id fresh s m t k n h =
      let r = resolve-known c id fresh s m n h in
      let b = is_start-and f c t k in
      (
        (λ w i. delayed f c id fresh s c.epoch resumed m m b r (ap is_free i)),
        (λ i o lt.
            let (s', a, q) = attach-ok c.epoch s o lt in
            let e = served f c id fresh s s' c.epoch resumed m m b r (ap is_free i) a in
            (s', ap (λ x. x.0) e, q, ap (λ x. x.1.stale_epoch_claims) e)),
        (λ i why.
            let (x, a) = attach-err c.epoch s why in
            declined f c id fresh s x c.epoch resumed m m b r (ap is_free i) a),
      )
