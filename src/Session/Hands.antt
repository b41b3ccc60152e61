-- ===== src/Session/Hands.antt =====
-- What becomes of the messages that the writers take from the downlink queue: counts of messages in
-- lists and in the hands of the writers.
pub mod Moves
pub mod Run
use Prim.Native.String.{String}
use voice_flux_engine.Prelude.{
  ℕ, ◌+◌, ◌≡◌, refl, sym, ap, ◌∙◌, subst, ◌==◌, if◌then◌else◌, Bool, true, false, not, ◌&&◌, ◌||◌,
  Bool-cases, Option, Option-cases, none, some, List, [], ◌∷◌, ◌++◌, map, map-append, ◌⊎◌, inl, inr,
  arith,
}
use voice_flux_engine.Prelude.Result.{ok, err}
use voice_flux_engine.Frame.{Frame}
use voice_flux_engine.Adapter.{AudioFrame}
use voice_flux_engine.Session.{
  Session, ControlPayload, WireMsg, Attachment, Reader, holding, exited, find, update, remove,
  set_reader, is_free, is_exited, is_reading, mark_stale, attach_claim, attach_bind, detach, close,
}
use voice_flux_engine.Session.Downlink.{
  send_ack, enqueue, pump_take, pump_send, take_next, write_frame,
}
use voice_flux_engine.Session.Uplink.{next_reader, admit, on_frame}
use voice_flux_engine.Session.Run.{
  Event, exec, run, has_message, end_writer, leave_writer, after_ack, set_hand, after_write,
}
use voice_flux_engine.Session.Readers.Single.{wire-cases, frame-attachments}
use voice_flux_engine.Session.Readers.Update.{find-epoch}
use voice_flux_engine.Session.Dedup.{is_handling, handles-cases}
use voice_flux_engine.Session.Wire.{takes_out, taken}

abbrev pub to_msg : Frame → WireMsg
to_msg f = record { typ = f.typ; ts_us = f.ts_us; payload = f.payload }

abbrev pub weight : Bool → ℕ
weight b = if b then 1 else 0

-- how many messages of a list, or in a hand, satisfy `p`
abbrev pub count_of : (WireMsg → Bool) → List WireMsg → ℕ
count_of p [] = 0
count_of p (m ∷ ms) = weight (p m) + count_of p ms

pub count_of-append :
    (p : WireMsg → Bool) (ms ns : List WireMsg)
    → count_of p (ms ++ ns) ≡ count_of p ms + count_of p ns
count_of-append p [] ns = omega arith
count_of-append p (m ∷ ms) ns = let r = count_of-append p ms ns in omega arith

abbrev pub in_hand : (WireMsg → Bool) → Option WireMsg → ℕ
in_hand p none = 0
in_hand p (some m) = weight (p m)

abbrev pub hands : (WireMsg → Bool) → List Attachment → ℕ
hands p [] = 0
hands p (a ∷ rest) = in_hand p a.hand + hands p rest

pub hands-update :
    (p : WireMsg → Bool) (e : ℕ) (f : Attachment → Attachment) (a : Attachment)
    (rest : List Attachment)
    → find e rest ≡ some a
    → (hands p (update e f rest) + in_hand p a.hand ≡ hands p rest + in_hand p (f a).hand)
hands-update p e f a [] h = ground arith
hands-update p e f a (b ∷ rest) h =
    let rec = hands-update p e f a rest in
    elim (Bool-cases (b.epoch == e)) [
      | inl t ↦ ground arith
      | inr t ↦ let r = rec (ground arith) in ground arith
    ]

pub hands-remove :
    (p : WireMsg → Bool) (e : ℕ) (a : Attachment) (rest : List Attachment)
    → find e rest ≡ some a
    → hands p (remove e rest) + in_hand p a.hand ≡ hands p rest
hands-remove p e a [] h = ground arith
hands-remove p e a (b ∷ rest) h =
    let rec = hands-remove p e a rest in
    elim (Bool-cases (b.epoch == e)) [
      | inl t ↦ ground arith
      | inr t ↦ let r = rec (ground arith) in ground arith
    ]

pub hands-update_same :
    (p : WireMsg → Bool) (e : ℕ) (f : Attachment → Attachment) (rest : List Attachment)
    → ((a : Attachment) → (f a).hand ≡ a.hand)
    → hands p (update e f rest) ≡ hands p rest
hands-update_same p e f [] k = refl
hands-update_same p e f (b ∷ rest) k =
    let kb = ap (in_hand p) (k b) in let rec = hands-update_same p e f rest k in ground arith

-- a writer with a message in its hand has answered the handshake and not ended
abbrev pub is_tidy : Attachment → Bool
is_tidy a = not (has_message a.hand) || (a.writing && a.acked)

abbrev pub AllTidy : List Attachment → Type 0
AllTidy [] = Unit
AllTidy (a ∷ rest) = (is_tidy a ≡ true) × AllTidy rest

pub find-is_tidy :
    (e : ℕ) (a : Attachment) (rest : List Attachment)
    → find e rest ≡ some a
    → AllTidy rest
    → is_tidy a ≡ true
find-is_tidy e a [] h t = absurd (ground arith)
find-is_tidy e a (b ∷ rest) h (tb, t) = elim (Bool-cases (b.epoch == e)) [
  | inl q ↦ ground arith
  | inr q ↦ find-is_tidy e a rest (ground arith) t
]

pub update-AllTidy :
    (e : ℕ) (f : Attachment → Attachment) (a : Attachment) (rest : List Attachment)
    → find e rest ≡ some a
    → is_tidy (f a) ≡ true
    → AllTidy rest
    → AllTidy (update e f rest)
update-AllTidy e f a [] h k t = tt
update-AllTidy e f a (b ∷ rest) h k (tb, t) = elim (Bool-cases (b.epoch == e)) [
  | inl q ↦ let same : a ≡ b = ground arith in rw (q) (subst (λ x. is_tidy (f x) ≡ true) same k, t)
  | inr q ↦ rw (q) (tb, update-AllTidy e f a rest (ground arith) k t)
]

pub all-AllTidy :
    (e : ℕ) (f : Attachment → Attachment) (rest : List Attachment)
    → ((a : Attachment) → is_tidy a ≡ true → is_tidy (f a) ≡ true)
    → AllTidy rest
    → AllTidy (update e f rest)
all-AllTidy e f [] k t = tt
all-AllTidy e f (b ∷ rest) k (tb, t) = elim (Bool-cases (b.epoch == e)) [
  | inl q ↦ rw (q) (k b tb, t)
  | inr q ↦ rw (q) (tb, all-AllTidy e f rest k t)
]

pub remove-AllTidy : (e : ℕ) (rest : List Attachment) → AllTidy rest → AllTidy (remove e rest)
remove-AllTidy e [] t = tt
remove-AllTidy e (b ∷ rest) (tb, t) = elim (Bool-cases (b.epoch == e)) [
  | inl q ↦ rw (q) t
  | inr q ↦ rw (q) (tb, remove-AllTidy e rest t)
]
