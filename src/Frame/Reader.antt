-- ===== src/Frame/Reader.antt =====
-- internal/transport/wsconn.go: a frame read from a message in pieces, the header first and then the
-- payload into a reused buffer. The message is the list of bytes that the library's reader holds;
-- `io.ReadFull` takes exactly so many, or fails.
use voice_flux_engine.Prelude.{
  ℕ, ◌≤◌, ◌<◌, ◌≡◌, ◌==◌, ltb, if◌then◌else◌, refl, List, ◌∷◌, length, arith, take, drop, Bool,
  true, false, Option, none, some, length-drop,
}
use native.Mathlib.Decide.{dec_lt}
use voice_flux_engine.Prelude.Result.{Result, ok, err}
use voice_flux_engine.Frame.{Frame, FrameError, short_header, decode_header, decode, header_size}

pub data ReadError : Type 0 where
  not_binary io_error trailing : ReadError
  frame_error : FrameError → ReadError

unfoldable pub read_full : ℕ → List ℕ → Option (List ℕ × List ℕ)
read_full n r = if ltb (length r) n then none else some (take n r, drop n r)

-- `ReadFrame` of one message
unfoldable pub read_frame : Bool → List ℕ → Result ReadError Frame
read_frame binary msg =
    if binary
    then elim (decode msg) [ ok f ↦ ok f | err e ↦ err (frame_error e) ]
    else err not_binary

-- after the header: the payload into a buffer of capacity `room`, then the probe for more
unfoldable pub read_payload : Frame → ℕ → List ℕ → ℕ → Result ReadError Frame × ℕ
unfolding read_full
read_payload f n r room =
    let cap' = if ltb room n then n else room in
    elim (read_full n r) [
      | none ↦ (err io_error, cap')
      | some (p, more) ↦
          (if length more == 0 then ok (record f { payload = p }) else err trailing, cap')
    ]

abbrev after_header : Result FrameError (Frame × ℕ) → List ℕ → ℕ → Result ReadError Frame × ℕ
after_header (err e) r room = (err (frame_error e), room)
after_header (ok (f, n)) r room = read_payload f n r room

-- `ReadFrameInto`, with the capacity of the buffer that it hands back
unfoldable pub read_frame_into : Bool → List ℕ → ℕ → Result ReadError Frame × ℕ
read_frame_into binary msg room =
    if binary
    then elim (read_full header_size msg) [
      | none ↦ (err io_error, room)
      | some (hdr, r) ↦ after_header (decode_header hdr) r room
    ]
    else (err not_binary, room)

-- a result with its error forgotten
abbrev pub success : {E A : Type 0} → Result E A → Option A
success (ok a) = some a
success (err e) = none

header_prefix : (msg : List ℕ) → 24 ≤ length msg → decode_header (take 24 msg) ≡ decode_header msg
unfolding decode_header
header_prefix
      (b0 ∷ b1 ∷ b2 ∷ b3 ∷ b4 ∷ b5 ∷ b6 ∷ b7 ∷ b8 ∷ b9 ∷ b10 ∷ b11 ∷ b12 ∷ b13 ∷ b14 ∷ b15 ∷ b16
        ∷ b17 ∷ b18 ∷ b19 ∷ b20 ∷ b21 ∷ b22 ∷ b23 ∷ rest)
      h =
    ground arith
header_prefix _ h = absurd (omega arith)

decode_short : (msg : List ℕ) → length msg < 24 → decode msg ≡ err short_header
unfolding decode decode_header
decode_short msg h = ground arith

read_full_short : (msg : List ℕ) (n : ℕ) → length msg < n → read_full n msg ≡ none
unfolding read_full
read_full_short msg n h = ground arith

read_full_long :
    (msg : List ℕ) (n : ℕ) → n ≤ length msg → read_full n msg ≡ some (take n msg, drop n msg)
unfolding read_full
read_full_long msg n h = ground arith

-- both readers from the header on
same_rest :
    (res : Result FrameError (Frame × ℕ)) (msg : List ℕ) (room : ℕ)
    → decode_header msg ≡ res
    → 24 ≤ length msg
    → (success (after_header res (drop 24 msg) room).0 ≡ success (read_frame true msg))
      × (room ≤ (after_header res (drop 24 msg) room).1)
unfolding decode read_payload read_frame
same_rest (err e) msg room h long = (rw h, omega arith)
same_rest (ok (f, n)) msg room h long =
    (rw h (ground (arith, length-drop 24 msg, length-drop n (drop 24 msg))), ground arith)

-- Reading a message in pieces into a reused buffer succeeds exactly when decoding it whole does, and
-- with the same frame; the buffer handed back is at least as large as the one given.
pub reader_agrees :
    (binary : Bool) (msg : List ℕ) (room : ℕ)
    → (success (read_frame_into binary msg room).0 ≡ success (read_frame binary msg))
      × (room ≤ (read_frame_into binary msg room).1)
unfolding read_frame_into read_frame
reader_agrees false msg room = (refl, omega arith)
reader_agrees true msg room = elim (dec_lt (length msg) 24) [
  | yes short ↦ rw (read_full_short msg 24 short, decode_short msg short) (refl, omega arith)
  | no long ↦
      rw (read_full_long msg 24 (omega arith), header_prefix msg (omega arith))
        (same_rest (decode_header msg) msg room refl (omega arith))
]
