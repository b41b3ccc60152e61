-- ===== src/Loadgen/Downlink.antt =====
-- internal/loadgen/worker.go: the two directions of a worker's connection, `sendAudio` and
-- `readLoop` with its channels, and the handshake of `connect`. Times are nanoseconds, but those of a
-- frame, which are microseconds by their bits.
pub mod Sent
pub mod Bounded
use voice_flux_engine.Prelude.{
  ℕ, suc, ◌+◌, ◌*◌, ◌≤◌, ◌<◌, ◌^◌, ◌≡◌, refl, ap, ap₂, ◌∙◌, ltb, ◌==◌, if◌then◌else◌, if-true, Bool,
  true, false, Option, none, some, List, [], ◌∷◌, ◌++◌, map, length, length-append, u64, arith,
}
use Prim.Native.String.{String}
use voice_flux_engine.Prelude.Result.{Result, ok, err}
use voice_flux_engine.Frame.{Frame, FrameError, max_payload, marshal_binary, decode}
use voice_flux_engine.Session.{
  ControlKind, unspecified, start, stop, barge_in, error, ControlPayload, type_audio, type_control,
}

pub data SendError : Type 0 where
  encode_failed : FrameError → SendError
  write_failed : SendError

-- `writeFrame`, with whether the connection takes the bytes
unfoldable pub write_frame : (takes : Bool) → Frame → Result SendError (List ℕ)
write_frame takes f = elim (marshal_binary f) as (λ _. Result SendError (List ℕ)) [
  | err e ↦ err (encode_failed e)
  | ok buf ↦ if takes then ok buf else err write_failed
]

-- what a worker numbers its frames by
pub record Uplink : Type 0 where
  pub seq : ℕ
  pub ts_us : ℕ

-- `sendAudio` after its wait; `nominal` is the time of a frame
unfoldable pub send_audio :
    (takes : Bool) (nominal : ℕ) → List ℕ → Uplink → Result SendError (List ℕ) × Uplink
send_audio takes nominal pcm u =
    let seq = u64 (u.seq + 1) in
    (
      write_frame takes (record { typ = type_audio; seq = seq; ts_us = u.ts_us; payload = pcm }),
      record { seq = seq; ts_us = u64 (u.ts_us + nominal) },
    )

-- what a read of the connection brings
pub data Received : Type 0 where
  read_fails text : Received
  binary : List ℕ → Received

pub data ReadError : Type 0 where
  closed : ReadError
  undecodable : FrameError → ReadError
  server_error : String → ReadError

pub record Downlink : Type 0 where
  pub last_audio : ℕ
  pub audio_c : List ℕ
  pub barge_c : List ℕ
  pub err_c : Option ReadError

abbrev pub audio_cap : ℕ
audio_cap = 8

abbrev pub barge_cap : ℕ
barge_cap = 4

-- `newDownlink`
abbrev pub new_downlink : Downlink
new_downlink = record { last_audio = 0; audio_c = []; barge_c = []; err_c = none }

-- a send that a full channel drops
abbrev pub try_send : (cap : ℕ) → ℕ → List ℕ → List ℕ
try_send cap t c = if ltb (length c) cap then c ++ t ∷ [] else c

-- `downlink.fail`
abbrev pub fail_downlink : ReadError → Downlink → Downlink
fail_downlink e d = record d { err_c = elim d.err_c [ none ↦ some e | some e' ↦ some e' ] }

abbrev pub audio_arrives : ℕ → Downlink → Downlink
audio_arrives now d = record d { last_audio = now; audio_c = try_send audio_cap now d.audio_c }

-- a control frame; the first component is whether the loop goes on
abbrev pub control_arrives : ℕ → ControlKind → String → Downlink → Bool × Downlink
control_arrives now barge_in detail d =
    (true, record d { barge_c = try_send barge_cap now d.barge_c })
control_arrives now error detail d = (false, fail_downlink (server_error detail) d)
control_arrives now unspecified detail d = (true, d)
control_arrives now start detail d = (true, d)
control_arrives now stop detail d = (true, d)

module _ (unmarshal : List ℕ → Option ControlPayload) where
  abbrev pub frame_arrives : ℕ → Frame → Downlink → Bool × Downlink
  frame_arrives now f d =
      if f.typ == type_audio
      then (true, audio_arrives now d)
      else if f.typ == type_control
      then (elim (unmarshal f.payload) as (λ _. Bool × Downlink) [
        | none ↦ (true, d)
        | some cp ↦ control_arrives now cp.kind cp.detail d
      ])
      else (true, d)

  -- a round of `readLoop`
  unfoldable pub read_round : ℕ → Received → Downlink → Bool × Downlink
  read_round now read_fails d = (false, fail_downlink closed d)
  read_round now text d = (true, d)
  read_round now (binary buf) d = elim (decode buf) as (λ _. Bool × Downlink) [
    | err e ↦ (false, fail_downlink (undecodable e) d)
    | ok f ↦ frame_arrives now f d
  ]

  unfoldable pub read_loop : List (ℕ × Received) → Downlink → Downlink
  read_loop [] d = d
  read_loop ((now, r) ∷ rs) d =
      let (goes_on, d') = read_round now r d in
      let rest = read_loop rs d' in if goes_on then rest else d'

pub data Handshake : Type 0 where
  waiting accepted : Handshake
  dial_failed read_failed bad_control no_payload : Handshake
  decode_failed : FrameError → Handshake
  start_failed : SendError → Handshake
  rejected : ControlKind → String → Handshake

module _ (unmarshal : List ℕ → Option ControlPayload)
    (marshal : ControlPayload → Option (List ℕ)) where
  abbrev pub answer : ControlKind → String → Handshake
  answer start detail = accepted
  answer stop detail = rejected stop detail
  answer barge_in detail = rejected barge_in detail
  answer error detail = rejected error detail
  answer unspecified detail = rejected unspecified detail

  -- the loop of `connect`
  unfoldable pub await_start : List Received → Handshake
  await_start [] = waiting
  await_start (read_fails ∷ rs) = read_failed
  await_start (text ∷ rs) = await_start rs
  await_start (binary buf ∷ rs) =
      let rest = await_start rs in
      elim (decode buf) as (λ _. Handshake) [
        | err e ↦ decode_failed e
        | ok f ↦
            if f.typ == type_control
            then (elim (unmarshal f.payload) as (λ _. Handshake) [
              | none ↦ bad_control
              | some cp ↦ answer cp.kind cp.detail
            ])
            else rest
      ]

  -- `connect` on what the dial, the write of the start and the reads bring
  unfoldable pub connect : (dials takes : Bool) → List Received → Handshake
  connect dials takes rs =
      if dials
      then (elim (marshal
            (record { kind = start; detail = ""; session_id = ""; epoch = 1; last_seq = 0 }))
          as (λ _. Handshake) [
            | none ↦ no_payload
            | some payload ↦
                elim (write_frame takes
                    (record { typ = type_control; seq = 0; ts_us = 0; payload = payload }))
                  as (λ _. Handshake) [ err e ↦ start_failed e | ok buf ↦ await_start rs ]
          ])
      else dial_failed
