-- ===== src/Frame/Tests.antt =====
-- A frame with a payload of two bytes, its encoding, and messages that are refused.
use voice_flux_engine.Prelude.{
  ℕ, ◌+◌, ◌++◌, ◌≡◌, ◌≤◌, refl, List, [], ◌∷◌, arith, true, take, length,
}
use voice_flux_engine.Prelude.Result.{ok, err}
use voice_flux_engine.Frame.{
  Frame, marshal_binary, append_binary, encode_header, encoded_len, decode, decode_header,
  bad_magic, short_header, frame_length,
}
use voice_flux_engine.Frame.Echo.{
  EchoEvent, reads, forwards, takes, writes, write_fails, returns, reader_ends, write_failed,
  cancelled, echo, echo_all, echo_start, egress_cap, opt, ended, echo_faithful,
}
use voice_flux_engine.Frame.RoundTrip.{decode-marshal, marshal-decode}
use voice_flux_engine.Frame.Reader.{read_frame_into, read_frame, reader_agrees, success}

abbrev sample : Frame
sample = record { typ = 1; seq = 258; ts_us = 20000; payload = 7 ∷ 9 ∷ [] }

abbrev wire : List ℕ
wire =
    0x56 ∷ 0x53 ∷ 1 ∷ 1 ∷ 0 ∷ 0 ∷ 0 ∷ 0 ∷ 0 ∷ 0 ∷ 1 ∷ 2 ∷ 0 ∷ 0 ∷ 0 ∷ 0 ∷ 0 ∷ 0 ∷ 78 ∷ 32 ∷ 0 ∷ 0
    ∷ 0 ∷ 2 ∷ 7 ∷ 9 ∷ []

sample-wire : marshal_binary sample ≡ ok wire
unfolding marshal_binary append_binary encode_header
sample-wire = refl

wire-sample : decode wire ≡ ok sample
unfolding decode decode_header
wire-sample = refl

refused :
    (decode (take 23 wire) ≡ err short_header)
    × (decode (0 ∷ wire) ≡ err bad_magic)
    × (decode (take 25 wire) ≡ err (frame_length 2 1))
unfolding decode decode_header
refused = (refl, refl, refl)

decode-marshal_example :
    (buf : List ℕ) × (marshal_binary sample ≡ ok buf)
    × (length buf ≡ encoded_len sample)
    × (decode buf ≡ ok sample)
decode-marshal_example = decode-marshal sample (omega arith) (omega arith)

marshal-decode_example : marshal_binary sample ≡ ok wire
marshal-decode_example = marshal-decode wire sample (omega arith) wire-sample

reader_agrees_example :
    (success (read_frame_into true wire 100).0 ≡ success (read_frame true wire))
    × (100 ≤ (read_frame_into true wire 100).1)
reader_agrees_example = reader_agrees true wire 100

-- a connection that fails while a frame waits
abbrev echoed : List EchoEvent
echoed =
    reads sample
    ∷ forwards
    ∷ takes
    ∷ reads sample
    ∷ forwards
    ∷ writes
    ∷ takes
    ∷ reads sample
    ∷ write_fails
    ∷ returns
    ∷ reader_ends
    ∷ []

echoed_ends : (echo_all echoed echo_start).errc ≡ write_failed ∷ cancelled ∷ []
unfolding echo_all echo
echoed_ends = refl

echo_faithful_example :
    let s = echo_all echoed echo_start in
    (s.received ≡ s.written ++ opt s.failing ++ opt s.sending ++ s.egress ++ opt s.in_hand)
    × (length s.egress ≤ egress_cap)
    × (length s.errc ≡ ended s.reading + ended s.writing)
echo_faithful_example = echo_faithful echoed
