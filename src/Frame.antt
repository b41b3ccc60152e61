-- ===== src/Frame.antt =====
-- internal/transport/frame.go: the binary frame, 24 bytes of header and a payload. A byte is a
-- number below 256, a byte slice is a list.
pub mod Bytes
pub mod RoundTrip
pub mod Echo
pub mod Reader
mod Tests
use voice_flux_engine.Prelude.{
  ℕ, zero, suc, ◌+◌, ◌*◌, ◌-◌, ◌/◌, ◌%◌, ◌^◌, ltb, ◌==◌, if◌then◌else◌, Bool, true, false, not,
  ◌||◌, List, [], ◌∷◌, ◌++◌, length, get_or, take, drop,
}
use voice_flux_engine.Prelude.Result.{Result, ok, err, ◌>>=◌}
use Bytes.{put_be, be}

-- The errors, with the numbers that they are wrapped with.
pub data FrameError : Type 0 where
  short_header bad_magic : FrameError
  version_mismatch : ℕ → FrameError
  payload_too_large : ℕ → FrameError
  frame_length : ℕ → ℕ → FrameError

-- `typ` is the byte of the frame type, `ts_us` the 64-bit pattern of the signed time stamp.
pub record Frame : Type 0 where
  pub typ : ℕ
  pub seq : ℕ
  pub ts_us : ℕ
  pub payload : List ℕ

abbrev pub magic0 : ℕ
magic0 = 0x56

abbrev pub magic1 : ℕ
magic1 = 0x53

abbrev pub version : ℕ
version = 1

abbrev pub header_size : ℕ
header_size = 24

abbrev pub max_payload : ℕ
max_payload = 64 * 1024

unfoldable pub encoded_len : Frame → ℕ
encoded_len f = header_size + length f.payload

unfoldable pub encode_header : Frame → List ℕ
encode_header f =
    magic0
    ∷ magic1
    ∷ version
    ∷ f.typ % 256
    ∷ (put_be 8 f.seq ++ (put_be 8 f.ts_us ++ put_be 4 (length f.payload % 2 ^ 32)))

unfoldable pub append_binary : Frame → List ℕ → Result FrameError (List ℕ)
append_binary f buf =
    if ltb max_payload (length f.payload)
    then err (payload_too_large (length f.payload))
    else ok ((buf ++ encode_header f) ++ f.payload)

unfoldable pub marshal_binary : Frame → Result FrameError (List ℕ)
marshal_binary f = append_binary f []

abbrev byte : List ℕ → ℕ → ℕ
byte buf i = get_or buf i 0

-- `buf[from:from+n]`
abbrev slice : List ℕ → ℕ → ℕ → List ℕ
slice buf from n = take n (drop from buf)

unfoldable pub decode_header : List ℕ → Result FrameError (Frame × ℕ)
decode_header hdr =
    if ltb (length hdr) header_size
    then err short_header
    else if not (byte hdr 0 == magic0) || not (byte hdr 1 == magic1)
    then err bad_magic
    else if not (byte hdr 2 == version)
    then err (version_mismatch (byte hdr 2))
    else (let n = be (slice hdr 20 4) in
        if ltb max_payload n
        then err (payload_too_large n)
        else ok (
          record {
            typ = byte hdr 3;
            seq = be (slice hdr 4 8);
            ts_us = be (slice hdr 12 8);
            payload = [];
          },
          n,
        ))

unfoldable pub decode : List ℕ → Result FrameError Frame
decode buf = do
  (f, n) ← decode_header buf
  if not (length buf == header_size + n)
      then err (frame_length n (length buf - header_size))
      else ok (record f { payload = slice buf header_size n })
