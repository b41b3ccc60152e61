-- ===== src/Session/Readers.antt =====
-- The reading loops of a session: how many there are, and what a stop during an `attach` does.
pub mod Update
pub mod Single
pub mod Stuck
use voice_flux_engine.Prelude.{
  ℕ, suc, ◌+◌, ◌≤◌, ◌≡◌, ◌≢◌, refl, sym, ap, ◌∙◌, ltb, leb, ◌==◌, tests, if◌then◌else◌, Bool, true,
  false, Bool-cases, Option, none, some, Option-cases, List, [], ◌∷◌, arith, inl, inr,
}
use voice_flux_engine.Prelude.Result.{ok, err}
use voice_flux_engine.Adapter.{AudioFrame}
use voice_flux_engine.Session.{
  Session, ControlPayload, Reader, reading, stopping, exited, Attachment, find, update, remove,
  is_exited, set_reader, read_exited, is_att, mark_stale, attach_claim, attach_bind, detach, close,
}
use voice_flux_engine.Session.Downlink.{enqueue, pump_take, pump_send, take_next, write_frame}
use voice_flux_engine.Session.Uplink.{
  stop_phase, next_reader, admit, on_frame, on_audio, advance_floor, deliver,
}
use voice_flux_engine.Session.Run.{Event, exec, run, end_writer}

-- 1 while the loop runs
abbrev pub live : Reader → ℕ
live exited = 0
live _ = 1

abbrev pub count_readers : List Attachment → ℕ
count_readers [] = 0
count_readers (a ∷ rest) = live a.reader + count_readers rest

abbrev pub live_at : Option Attachment → ℕ
live_at none = 0
live_at (some a) = live a.reader

abbrev pub live_of : Option ℕ → List Attachment → ℕ
live_of none rest = 0
live_of (some e) rest = live_at (find e rest)

pub count-update :
    (e : ℕ) (f : Attachment → Attachment) (a : Attachment) (rest : List Attachment)
    → find e rest ≡ some a
    → (count_readers (update e f rest) + live a.reader ≡ count_readers rest + live (f a).reader)
count-update e f a [] h = ground arith
count-update e f a (b ∷ rest) h =
    let rec = count-update e f a rest in
    elim (Bool-cases (b.epoch == e)) [
      | inl t ↦ ground arith
      | inr t ↦ let r = rec (ground arith) in ground arith
    ]

-- An update that keeps the epoch is found where it was made, and nowhere else.
abbrev pub Keeps : (Attachment → Attachment) → Type 0
Keeps f = (a : Attachment) → (f a).epoch ≡ a.epoch

pub find-update :
    (e : ℕ) (f : Attachment → Attachment) (a : Attachment) (rest : List Attachment)
    → Keeps f
    → find e rest ≡ some a
    → find e (update e f rest) ≡ some (f a)
find-update e f a [] k h = ground arith
find-update e f a (b ∷ rest) k h =
    let rec = find-update e f a rest k in
    let kb = k b in
    elim (Bool-cases (b.epoch == e)) [
      | inl t ↦ ground arith
      | inr t ↦ let r = rec (ground arith) in ground arith
    ]

pub find-update_ne :
    (e e' : ℕ) (f : Attachment → Attachment) (rest : List Attachment)
    → Keeps f
    → e' ≢ e
    → find e' (update e f rest) ≡ find e' rest
find-update_ne e e' f [] k h = refl
find-update_ne e e' f (b ∷ rest) k h =
    let rec = find-update_ne e e' f rest k h in
    let kb = k b in elim (Bool-cases (b.epoch == e)) [ inl t ↦ ground arith | inr t ↦ ground arith ]

pub find-remove_ne :
    (e e' : ℕ) (rest : List Attachment) → e' ≢ e → find e' (remove e rest) ≡ find e' rest
find-remove_ne e e' [] h = refl
find-remove_ne e e' (b ∷ rest) h =
    let rec = find-remove_ne e e' rest h in
    elim (Bool-cases (b.epoch == e)) [ inl t ↦ ground arith | inr t ↦ ground arith ]

pub count-remove :
    (e : ℕ) (a : Attachment) (rest : List Attachment)
    → find e rest ≡ some a
    → (count_readers (remove e rest) + live a.reader ≡ count_readers rest)
count-remove e a [] h = ground arith
count-remove e a (b ∷ rest) h =
    let rec = count-remove e a rest in
    elim (Bool-cases (b.epoch == e)) [
      | inl t ↦ ground arith
      | inr t ↦ let r = rec (ground arith) in ground arith
    ]

pub count-one :
    (e : ℕ) (a : Attachment) (rest : List Attachment)
    → find e rest ≡ some a
    → live a.reader ≤ count_readers rest
count-one e a rest h = let c = count-remove e a rest h in omega arith

pub count-two :
    (e e' : ℕ) (a a' : Attachment) (rest : List Attachment)
    → find e rest ≡ some a
    → find e' rest ≡ some a'
    → e' ≢ e
    → live a.reader + live a'.reader ≤ count_readers rest
count-two e e' a a' rest h h' ne =
    let c = count-remove e a rest h in
    let d = count-one e' a' (remove e rest) (find-remove_ne e e' rest ne ∙ h') in omega arith
