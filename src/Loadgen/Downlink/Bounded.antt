-- ===== src/Loadgen/Downlink/Bounded.antt =====
-- The channels that readLoop of worker.go feeds.
use voice_flux_engine.Prelude.{
  ℕ, ◌≤◌, ◌==◌, if◌then◌else◌, Bool, true, false, Option, none, some, List, [], ◌∷◌, length,
  length-append, arith,
}
use Prim.Native.String.{String}
use voice_flux_engine.Prelude.Result.{ok, err}
use voice_flux_engine.Frame.{Frame, decode}
use voice_flux_engine.Session.{
  ControlKind, unspecified, start, stop, barge_in, error, ControlPayload, type_audio, type_control,
}
use voice_flux_engine.Loadgen.Downlink.{
  Received, read_fails, text, binary, undecodable, Downlink, audio_cap, barge_cap, try_send,
  fail_downlink, control_arrives, frame_arrives, read_round, read_loop,
}

abbrev pub Bounded : Downlink → Type 0
Bounded d = (length d.audio_c ≤ audio_cap) × (length d.barge_c ≤ barge_cap)

try_send-le : (cap t : ℕ) (c : List ℕ) → length c ≤ cap → length (try_send cap t c) ≤ cap
try_send-le cap t c h = let l = length-append c (t ∷ []) in ground arith

control-Bounded :
    (now : ℕ) (k : ControlKind) (detail : String) (d : Downlink)
    → Bounded d
    → Bounded (control_arrives now k detail d).1
control-Bounded now unspecified detail d b = b
control-Bounded now start detail d b = b
control-Bounded now stop detail d b = b
control-Bounded now barge_in detail d (a, b) = (a, try_send-le barge_cap now d.barge_c b)
control-Bounded now error detail d b = b

if-Bounded :
    (c : Bool) (x y : Bool × Downlink) → Bounded x.1 → Bounded y.1 → Bounded (if c then x else y).1
if-Bounded true x y bx by_y = bx
if-Bounded false x y bx by_y = by_y

either-Bounded : (c : Bool) (x y : Downlink) → Bounded x → Bounded y → Bounded (if c then x else y)
either-Bounded true x y bx by_y = bx
either-Bounded false x y bx by_y = by_y

module _ (unmarshal : List ℕ → Option ControlPayload) where
  payload-Bounded :
      (now : ℕ) (o : Option ControlPayload) (d : Downlink)
      → Bounded d
      → Bounded
          (elim o as (λ _. Bool × Downlink) [
            | none ↦ (true, d)
            | some cp ↦ control_arrives now cp.kind cp.detail d
          ]).1
  payload-Bounded now none d b = b
  payload-Bounded now (some cp) d b = control-Bounded now cp.kind cp.detail d b

  frame-Bounded :
      (now : ℕ) (f : Frame) (d : Downlink) → Bounded d → Bounded (frame_arrives unmarshal now f d).1
  frame-Bounded now f d (a, b) =
      if-Bounded (f.typ == type_audio) _ _ (try_send-le audio_cap now d.audio_c a, b)
        (if-Bounded (f.typ == type_control) _ _ (payload-Bounded now (unmarshal f.payload) d (a, b))
          (a, b))

  round-Bounded :
      (now : ℕ) (r : Received) (d : Downlink) → Bounded d → Bounded (read_round unmarshal now r d).1
  unfolding read_round
  round-Bounded now read_fails d b = b
  round-Bounded now text d b = b
  round-Bounded now (binary buf) d b =
      elim (decode buf)
        as (λ o.
          Bounded
            (elim o as (λ _. Bool × Downlink) [
              | err e ↦ (false, fail_downlink (undecodable e) d)
              | ok f ↦ frame_arrives unmarshal now f d
            ]).1) [ err e ↦ b | ok f ↦ frame-Bounded now f d b ]

  -- Whatever the connection brings, the reader's channels keep within their capacities.
  pub read_loop-Bounded :
      (rs : List (ℕ × Received)) (d : Downlink) → Bounded d → Bounded (read_loop unmarshal rs d)
  unfolding read_loop
  read_loop-Bounded [] d b = b
  read_loop-Bounded ((now, r) ∷ rs) d b =
      let next = round-Bounded now r d b in
      either-Bounded (read_round unmarshal now r d).0 _ _
        (read_loop-Bounded rs (read_round unmarshal now r d).1 next) next
