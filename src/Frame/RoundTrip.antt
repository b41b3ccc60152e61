-- ===== src/Frame/RoundTrip.antt =====
-- Encoding and decoding undo each other.
use native.Mathlib.Nat.{mod-eq_of_lt}
use voice_flux_engine.Prelude.{
  ℕ, ◌%◌, ◌^◌, ◌≤◌, ◌<◌, ◌≡◌, refl, List, [], ◌∷◌, ◌++◌, length, arith, ap, take, drop,
}
use voice_flux_engine.Prelude.Result.{ok}
use voice_flux_engine.Frame.{
  Frame, encoded_len, encode_header, append_binary, marshal_binary, decode_header, decode,
  max_payload, header_size,
}
use voice_flux_engine.Frame.Bytes.{be, be-put_be, put_be-be_from, AllBytes}

-- what the fields of a Go frame always satisfy
pub record Fits (f : Frame) : Type 0 where
  pub typ_lt : f.typ < 256
  pub seq_lt : f.seq < 2 ^ 64
  pub ts_lt : f.ts_us < 2 ^ 64

take-length : (xs : List ℕ) → take (length xs) xs ≡ xs
take-length [] = refl
take-length (x ∷ xs) = ap (◌∷◌ x) (take-length xs)

-- the bytes of a frame
abbrev encoded : Frame → List ℕ
encoded f = encode_header f ++ f.payload

decode_header-encoded :
    (f : Frame)
    → Fits f
    → length f.payload ≤ max_payload
    → decode_header (encoded f) ≡ ok (record f { payload = [] }, length f.payload)
unfolding decode_header encode_header
decode_header-encoded f v h =
    let whole : length f.payload % 2 ^ 32 ≡ length f.payload = omega arith in
    rw
      (
        be-put_be 8 f.seq v.seq_lt,
        be-put_be 8 f.ts_us v.ts_lt,
        be-put_be 4 (length f.payload % 2 ^ 32) (omega arith),
        mod-eq_of_lt v.typ_lt,
        whole,
      )
      (ground arith)

length-encoded : (f : Frame) → length (encoded f) ≡ encoded_len f
unfolding encode_header encoded_len
length-encoded f = omega arith

slice-encoded : (f : Frame) → take (length f.payload) (drop header_size (encoded f)) ≡ f.payload
unfolding encode_header
slice-encoded f = take-length f.payload

-- A frame whose fields fit and whose payload is at most `MaxPayload` long is encoded into
-- `EncodedLen` bytes, and `Decode` reads the same frame back from them.
pub decode-marshal :
    (f : Frame)
    → Fits f
    → length f.payload ≤ max_payload
    → (buf : List ℕ) × (marshal_binary f ≡ ok buf)
      × (length buf ≡ encoded_len f)
      × (decode buf ≡ ok f)
unfolding marshal_binary append_binary decode encoded_len
decode-marshal f v h = (
  encoded f,
  ground arith,
  length-encoded f,
  rw (decode_header-encoded f v h, length-encoded f, slice-encoded f) (ground arith),
)

-- what a successful decoding says of the bytes
header_facts :
    (b0 b1 b2 b3 b4 b5 b6 b7 b8 b9 b10 b11 b12 b13 b14 b15 b16 b17 b18 b19 b20 b21 b22 b23 : ℕ)
    (rest : List ℕ) (f : Frame)
    → decode (
        b0 ∷ b1 ∷ b2 ∷ b3 ∷ b4 ∷ b5 ∷ b6 ∷ b7 ∷ b8 ∷ b9 ∷ b10 ∷ b11 ∷ b12 ∷ b13 ∷ b14 ∷ b15 ∷ b16
        ∷ b17 ∷ b18 ∷ b19 ∷ b20 ∷ b21 ∷ b22 ∷ b23 ∷ rest)
      ≡ ok f
    → (b0 ≡ 0x56)
      × (b1 ≡ 0x53)
      × (b2 ≡ 1)
      × (be (b20 ∷ b21 ∷ b22 ∷ b23 ∷ []) ≤ max_payload)
      × (length rest ≡ be (b20 ∷ b21 ∷ b22 ∷ b23 ∷ []))
      × (f ≡ record {
        typ = b3;
        seq = be (b4 ∷ b5 ∷ b6 ∷ b7 ∷ b8 ∷ b9 ∷ b10 ∷ b11 ∷ []);
        ts_us = be (b12 ∷ b13 ∷ b14 ∷ b15 ∷ b16 ∷ b17 ∷ b18 ∷ b19 ∷ []);
        payload = take (be (b20 ∷ b21 ∷ b22 ∷ b23 ∷ [])) rest;
      })
unfolding decode decode_header
header_facts b0 b1 b2 b3 b4 b5 b6 b7 b8 b9 b10 b11 b12 b13 b14 b15 b16 b17 b18 b19 b20 b21 b22 b23
      rest f e =
    ground arith

-- a header and a payload put together from equal parts
assemble :
    {a a' b b' c c' p p' : List ℕ} (typ : ℕ)
    → a ≡ a'
    → b ≡ b'
    → c ≡ c'
    → p ≡ p'
    → (0x56 ∷ 0x53 ∷ 1 ∷ typ ∷ (a ++ (b ++ c))) ++ p
      ≡ (0x56 ∷ 0x53 ∷ 1 ∷ typ ∷ (a' ++ (b' ++ c'))) ++ p'
assemble typ ea eb ec ep = λ i. (0x56 ∷ 0x53 ∷ 1 ∷ typ ∷ (ea i ++ (eb i ++ ec i))) ++ ep i

marshal-encoded : (f : Frame) → length f.payload ≤ max_payload → marshal_binary f ≡ ok (encoded f)
unfolding marshal_binary append_binary
marshal-encoded f h = ground arith

read_back :
    (b0 b1 b2 b3 b4 b5 b6 b7 b8 b9 b10 b11 b12 b13 b14 b15 b16 b17 b18 b19 b20 b21 b22 b23 : ℕ)
    (rest : List ℕ) (f : Frame)
    → AllBytes (
        b0 ∷ b1 ∷ b2 ∷ b3 ∷ b4 ∷ b5 ∷ b6 ∷ b7 ∷ b8 ∷ b9 ∷ b10 ∷ b11 ∷ b12 ∷ b13 ∷ b14 ∷ b15 ∷ b16
        ∷ b17 ∷ b18 ∷ b19 ∷ b20 ∷ b21 ∷ b22 ∷ b23 ∷ rest)
    → decode (
        b0 ∷ b1 ∷ b2 ∷ b3 ∷ b4 ∷ b5 ∷ b6 ∷ b7 ∷ b8 ∷ b9 ∷ b10 ∷ b11 ∷ b12 ∷ b13 ∷ b14 ∷ b15 ∷ b16
        ∷ b17 ∷ b18 ∷ b19 ∷ b20 ∷ b21 ∷ b22 ∷ b23 ∷ rest)
      ≡ ok f
    → marshal_binary f
      ≡ ok (
          b0 ∷ b1 ∷ b2 ∷ b3 ∷ b4 ∷ b5 ∷ b6 ∷ b7 ∷ b8 ∷ b9 ∷ b10 ∷ b11 ∷ b12 ∷ b13 ∷ b14 ∷ b15 ∷ b16
          ∷ b17 ∷ b18 ∷ b19 ∷ b20 ∷ b21 ∷ b22 ∷ b23 ∷ rest)
unfolding encode_header
read_back b0 b1 b2 b3 b4 b5 b6 b7 b8 b9 b10 b11 b12 b13 b14 b15 b16 b17 b18 b19 b20 b21 b22 b23 rest
      f h e =
    let (m0, m1, v1, small, len, whole) =
      header_facts b0 b1 b2 b3 b4 b5 b6 b7 b8 b9 b10 b11 b12 b13 b14 b15 b16 b17 b18 b19 b20 b21 b22
        b23 rest f e in
    let pay : take (be (b20 ∷ b21 ∷ b22 ∷ b23 ∷ [])) rest ≡ rest = rw (← len) (take-length rest) in
    let typ : b3 % 256 ≡ b3 = omega arith in
    let size : length rest % 2 ^ 32 ≡ be (b20 ∷ b21 ∷ b22 ∷ b23 ∷ []) = omega arith in
    let limit : length rest ≤ max_payload = omega arith in
    rw
      (
        whole,
        pay,
        marshal-encoded
            (record {
              typ = b3;
              seq = be (b4 ∷ b5 ∷ b6 ∷ b7 ∷ b8 ∷ b9 ∷ b10 ∷ b11 ∷ []);
              ts_us = be (b12 ∷ b13 ∷ b14 ∷ b15 ∷ b16 ∷ b17 ∷ b18 ∷ b19 ∷ []);
              payload = rest;
            })
            limit,
        m0,
        m1,
        v1,
        typ,
        size,
      )
      (ap ok (
        assemble b3 (put_be-be_from (b4 ∷ b5 ∷ b6 ∷ b7 ∷ b8 ∷ b9 ∷ b10 ∷ b11 ∷ []) 0 (omega arith))
          (put_be-be_from (b12 ∷ b13 ∷ b14 ∷ b15 ∷ b16 ∷ b17 ∷ b18 ∷ b19 ∷ []) 0 (omega arith))
          (put_be-be_from (b20 ∷ b21 ∷ b22 ∷ b23 ∷ []) 0 (omega arith)) refl))

-- `Decode` accepts only what encoding its result gives: no two byte strings decode to one frame.
pub marshal-decode :
    (buf : List ℕ) (f : Frame) → AllBytes buf → decode buf ≡ ok f → marshal_binary f ≡ ok buf
unfolding decode decode_header
marshal-decode
      (b0 ∷ b1 ∷ b2 ∷ b3 ∷ b4 ∷ b5 ∷ b6 ∷ b7 ∷ b8 ∷ b9 ∷ b10 ∷ b11 ∷ b12 ∷ b13 ∷ b14 ∷ b15 ∷ b16
        ∷ b17 ∷ b18 ∷ b19 ∷ b20 ∷ b21 ∷ b22 ∷ b23 ∷ rest)
      f h e =
    read_back b0 b1 b2 b3 b4 b5 b6 b7 b8 b9 b10 b11 b12 b13 b14 b15 b16 b17 b18 b19 b20 b21 b22 b23
      rest f h e
marshal-decode _ f h e = cc
