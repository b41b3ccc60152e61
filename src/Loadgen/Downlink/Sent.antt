-- ===== src/Loadgen/Downlink/Sent.antt =====
-- What a worker of worker.go sends is what the server decodes.
use voice_flux_engine.Prelude.{
  ℕ, ◌+◌, ◌*◌, ◌≤◌, ◌<◌, ◌^◌, ◌≡◌, refl, ap, ap₂, ◌∙◌, true, List, [], ◌∷◌, map, length, u64, arith,
}
use voice_flux_engine.Prelude.Result.{Result, ok, err}
use voice_flux_engine.Frame.{Frame, FrameError, max_payload, decode}
use voice_flux_engine.Frame.RoundTrip.{Fits, decode-marshal}
use voice_flux_engine.Session.{type_audio}
use voice_flux_engine.Loadgen.Downlink.{SendError, encode_failed, Uplink, write_frame, send_audio}

-- the frames of `turn`'s loops on a connection that takes them, up to the first that fails
unfoldable pub send_all : (nominal : ℕ) → List (List ℕ) → Uplink → List (List ℕ)
send_all nominal [] u = []
send_all nominal (pcm ∷ pcms) u =
    let (sent, u') = send_audio true nominal pcm u in
    elim sent as (λ _. List (List ℕ)) [ err e ↦ [] | ok buf ↦ buf ∷ send_all nominal pcms u' ]

abbrev pub audio_frame : (seq ts_us : ℕ) → List ℕ → Frame
audio_frame seq ts_us pcm = record { typ = type_audio; seq = seq; ts_us = ts_us; payload = pcm }

-- the frames numbered after `seq`, one nominal time apart
abbrev pub numbered : (nominal seq ts_us : ℕ) → List (List ℕ) → List (Result FrameError Frame)
numbered nominal seq ts_us [] = []
numbered nominal seq ts_us (pcm ∷ pcms) =
    ok (audio_frame (seq + 1) ts_us pcm) ∷ numbered nominal (seq + 1) (ts_us + nominal) pcms

abbrev pub Short : List (List ℕ) → Type 0
Short [] = Unit
Short (pcm ∷ pcms) = (length pcm ≤ max_payload) × Short pcms

write_frame-decode :
    (f : Frame)
    → Fits f
    → length f.payload ≤ max_payload
    → (buf : List ℕ) × (write_frame true f ≡ ok buf) × (decode buf ≡ ok f)
unfolding write_frame
write_frame-decode f v h =
    let (buf, e, l, d) = decode-marshal f v h in
    (
      buf,
      ap
          (λ r. elim r as (λ _. Result SendError (List ℕ)) [
            | err e ↦ err (encode_failed e)
            | ok buf ↦ ok buf
          ])
          e,
      d,
    )

send_all-cons :
    (nominal seq ts_us : ℕ) (pcm buf : List ℕ) (pcms : List (List ℕ))
    → write_frame true (audio_frame (u64 (seq + 1)) ts_us pcm) ≡ ok buf
    → send_all nominal (pcm ∷ pcms) (record { seq = seq; ts_us = ts_us })
      ≡ buf ∷ send_all nominal pcms (record { seq = u64 (seq + 1); ts_us = u64 (ts_us + nominal) })
unfolding send_all send_audio
send_all-cons nominal seq ts_us pcm buf pcms e =
    let u' : Uplink = record { seq = u64 (seq + 1); ts_us = u64 (ts_us + nominal) } in
    ap
      (λ r. elim r as (λ _. List (List ℕ)) [ err e ↦ [] | ok buf ↦ buf ∷ send_all nominal pcms u' ])
      e

-- The audio that a worker sends decodes to frames numbered one after another, with times a nominal
-- frame apart, one for each piece of audio, when each piece fits a frame and neither the numbers nor
-- the times wrap.
pub decode-send_all :
    (nominal seq ts_us : ℕ) (pcms : List (List ℕ))
    → Short pcms
    → seq + length pcms < 2 ^ 64
    → ts_us + length pcms * nominal < 2 ^ 64
    → map decode (send_all nominal pcms (record { seq = seq; ts_us = ts_us }))
      ≡ numbered nominal seq ts_us pcms
unfolding send_all
decode-send_all nominal seq ts_us [] short few soon = refl
decode-send_all nominal seq ts_us (pcm ∷ pcms) (h, short) few soon =
    let n = length pcms * nominal in
    let whole : length (pcm ∷ pcms) * nominal ≡ nominal + n = omega arith in
    let next : u64 (seq + 1) ≡ seq + 1 = omega arith in
    let later : u64 (ts_us + nominal) ≡ ts_us + nominal = omega arith in
    let fits : Fits (audio_frame (seq + 1) ts_us pcm) = record {
      typ_lt = omega arith;
      seq_lt = omega arith;
      ts_lt = omega arith;
    } in
    let (buf, e, d) = write_frame-decode (audio_frame (seq + 1) ts_us pcm) fits h in
    let rec =
      decode-send_all nominal (seq + 1) (ts_us + nominal) pcms short (omega arith) (omega arith) in
    ap (map decode) (
      send_all-cons nominal seq ts_us pcm buf pcms
        (ap (λ k. write_frame true (audio_frame k ts_us pcm)) next ∙ e))
    ∙ ap₂ (λ r rs. r ∷ rs) d
        (ap₂ (λ k t. map decode (send_all nominal pcms (record { seq = k; ts_us = t }))) next later
          ∙ rec)
