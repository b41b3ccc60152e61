-- ===== src/Session/Epochs/Marks.antt =====
-- The marks of superseded connections in the list of a session.
use voice_flux_engine.Prelude.{
  ℕ, ◌≡◌, sym, subst, ◌==◌, true, Bool-cases, some, List, [], ◌∷◌, arith, inl, inr, ◌⊎◌,
}
use voice_flux_engine.Session.{Attachment, find, update, mark_stale}

-- An update that leaves epochs and marks alone.
abbrev pub KeepsMark : (Attachment → Attachment) → Type 0
KeepsMark f = (a : Attachment) → ((f a).epoch ≡ a.epoch) × ((f a).stale ≡ a.stale)

-- the connection of epoch `e`, if it is in the list, is marked as superseded
abbrev pub Marked : ℕ → List Attachment → Type 0
Marked e rest = (a : Attachment) → find e rest ≡ some a → a.stale ≡ true

pub update-Marked :
    (e e' : ℕ) (f : Attachment → Attachment) (rest : List Attachment)
    → KeepsMark f
    → Marked e rest
    → Marked e (update e' f rest)
update-Marked e e' f [] k m a h = m a h
update-Marked e e' f (b ∷ rest) k m a h =
    let kb = k b in
    let mb = m b in
    let rec = λ (m' : Marked e rest). update-Marked e e' f rest k m' a in
    let ma = m a in
    elim (Bool-cases (b.epoch == e')) [
      | inl t ↦ elim (Bool-cases (b.epoch == e)) [ inl u ↦ ground arith | inr u ↦ ground arith ]
      | inr t ↦ elim (Bool-cases (b.epoch == e)) [
        | inl u ↦ ground arith
        | inr u ↦ rec (λ a' h'. m a' (ground arith)) (ground arith)
      ]
    ]

pub mark-Marked : (e : ℕ) (rest : List Attachment) → Marked e (mark_stale (some e) rest)
mark-Marked e [] a h = ground arith
mark-Marked e (b ∷ rest) a h =
    let rec = mark-Marked e rest a in
    elim (Bool-cases (b.epoch == e)) [ inl t ↦ ground arith | inr t ↦ rec (ground arith) ]

pub same-Marked :
    (e : ℕ) (rest rest' : List Attachment) → rest' ≡ rest → Marked e rest → Marked e rest'
same-Marked e rest rest' p m = subst (Marked e) (sym p) m

pub update_to-Marked :
    (e e' : ℕ) (f : Attachment → Attachment) (rest rest' : List Attachment)
    → KeepsMark f
    → rest' ≡ update e' f rest
    → Marked e rest
    → Marked e rest'
update_to-Marked e e' f rest rest' k p m = subst (Marked e) (sym p) (update-Marked e e' f rest k m)

pub either-Marked :
    (e e' : ℕ) (f : Attachment → Attachment) (rest rest' : List Attachment)
    → KeepsMark f
    → (rest' ≡ rest) ⊎ (rest' ≡ update e' f rest)
    → Marked e rest
    → Marked e rest'
either-Marked e e' f rest rest' k (inl p) m = same-Marked e rest rest' p m
either-Marked e e' f rest rest' k (inr p) m = update_to-Marked e e' f rest rest' k p m
