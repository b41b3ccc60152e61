-- ===== src/Session/Readers/Update.antt =====
-- What a change of the list of connections does to the count of reading loops.
use voice_flux_engine.Prelude.{
  ℕ, ◌≤◌, ◌≡◌, ◌≢◌, refl, sym, ap, ◌∙◌, subst, ◌==◌, if◌then◌else◌, true, Bool-cases, Option, none,
  some, Option-cases, List, [], ◌∷◌, arith, inl, inr,
}
use voice_flux_engine.Session.{
  Session, Reader, Attachment, find, update, remove, is_exited, read_exited, is_att, mark_stale,
  attach_bind,
}
use voice_flux_engine.Session.Readers.{
  live, count_readers, live_at, live_of, Keeps, count-update, count-one, count-two, find-update,
  find-update_ne, find-remove_ne, count-remove,
}

pub update-none :
    (e : ℕ) (f : Attachment → Attachment) (rest : List Attachment)
    → find e rest ≡ none
    → update e f rest ≡ rest
update-none e f [] h = refl
update-none e f (b ∷ rest) h =
    let rec = update-none e f rest in
    elim (Bool-cases (b.epoch == e)) [
      | inl t ↦ ground arith
      | inr t ↦ let r = rec (ground arith) in ground arith
    ]

-- The only loop that may run is that of the current attachment.
abbrev pub One : Option ℕ → List Attachment → Type 0
One att rest = count_readers rest ≡ live_of att rest

pub other-exited :
    (e e' : ℕ) (a : Attachment) (rest : List Attachment)
    → One (some e') rest
    → find e rest ≡ some a
    → e' ≢ e
    → live a.reader ≡ 0
other-exited e e' a rest one h ne =
    let c = count-one e a rest h in
    elim (Option-cases (find e' rest)) [
      | inl t ↦ let z : live_at (find e' rest) ≡ 0 = ap live_at t in omega arith
      | inr (a', t) ↦
          let z : live_at (find e' rest) ≡ live a'.reader = ap live_at t in
          let d = count-two e e' a a' rest h t ne in omega arith
    ]

pub update-One :
    (att : Option ℕ) (e : ℕ) (f : Attachment → Attachment) (a : Attachment) (rest : List Attachment)
    → Keeps f
    → find e rest ≡ some a
    → live (f a).reader ≤ live a.reader
    → One att rest
    → One att (update e f rest)
update-One none e f a rest k h le one =
    let c = count-update e f a rest h in let d = count-one e a rest h in omega arith
update-One (some e') e f a rest k h le one =
    let c = count-update e f a rest h in
    elim (Bool-cases (e' == e)) [
      | inl t ↦
          let same : e' ≡ e = ground arith in
          let z : live_at (find e' rest) ≡ live a.reader =
            ap (λ i. live_at (find i rest)) same ∙ ap live_at h in
          let y : live_at (find e' (update e f rest)) ≡ live (f a).reader =
            ap (λ i. live_at (find i (update e f rest))) same
            ∙ ap live_at (find-update e f a rest k h) in
          omega arith
      | inr t ↦
          let ne : e' ≢ e = ground arith in
          let z = other-exited e e' a rest one h ne in
          let y = ap live_at (find-update_ne e e' f rest k ne) in omega arith
    ]

-- the same for an update that starts no loop whatever it is applied to
pub calm-One :
    (att : Option ℕ) (e : ℕ) (f : Attachment → Attachment) (rest : List Attachment)
    → Keeps f
    → ((a : Attachment) → live (f a).reader ≤ live a.reader)
    → One att rest
    → One att (update e f rest)
calm-One att e f rest k le one = elim (Option-cases (find e rest)) [
  | inl t ↦ subst (λ r. One att r) (sym (update-none e f rest t)) one
  | inr (a, t) ↦ update-One att e f a rest k t (le a) one
]

pub mark_stale-One :
    (att at' : Option ℕ) (rest : List Attachment) → One att rest → One att (mark_stale at' rest)
mark_stale-One att none rest one = one
mark_stale-One att (some e) rest one = calm-One att e _ rest (λ a. refl) (λ a. omega arith) one

pub exited-live : (r : Reader) → is_exited r ≡ true → live r ≡ 0
exited-live r h = ground arith

pub read_exited-live :
    (att : Option ℕ) (rest : List Attachment) → read_exited att rest ≡ true → live_of att rest ≡ 0
read_exited-live none rest h = refl
read_exited-live (some e) rest h = ground arith

pub bind-One :
    {L : Type 0} (now : ℕ) (s s' : Session L)
    → attach_bind now s ≡ some s'
    → One s.att s.attachments
    → One s'.att s'.attachments
unfolding attach_bind
bind-One now s s' h one = let z = read_exited-live s.att s.attachments in ground arith

pub remove-One :
    (att : Option ℕ) (e : ℕ) (a : Attachment) (rest : List Attachment)
    → find e rest ≡ some a
    → live a.reader ≡ 0
    → One att rest
    → One (if is_att att e then none else att) (remove e rest)
remove-One none e a rest h z one = let c = count-remove e a rest h in omega arith
remove-One (some e') e a rest h z one =
    let c = count-remove e a rest h in
    elim (Bool-cases (e' == e)) [
      | inl t ↦
          let y : live_at (find e' rest) ≡ 0 =
            ap (λ i. live_at (find i rest)) (ground arith) ∙ ap live_at h ∙ z in
          rw (t) (omega arith)
      | inr t ↦ let y = ap live_at (find-remove_ne e e' rest (ground arith)) in rw (t) (omega arith)
    ]

pub find-epoch :
    (e : ℕ) (a : Attachment) (rest : List Attachment) → find e rest ≡ some a → a.epoch ≡ e
find-epoch e a [] h = ground arith
find-epoch e a (b ∷ rest) h =
    let rec = find-epoch e a rest in
    elim (Bool-cases (b.epoch == e)) [ inl t ↦ ground arith | inr t ↦ rec (ground arith) ]

pub live_of-le : (att : Option ℕ) (rest : List Attachment) → live_of att rest ≤ 1
live_of-le none rest = omega arith
live_of-le (some e) rest = ground arith
