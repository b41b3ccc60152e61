-- ===== src/Pipeline/Flush.antt =====
-- A cancelled turn with the ring of the egress edge.
use voice_flux_engine.Prelude.{
  ℕ, ◌+◌, ◌-◌, ◌^◌, ◌<◌, ◌≡◌, refl, sym, subst, Bool, true, false, none, some, [], length, arith,
}
use voice_flux_engine.Adapter.{AudioFrame}
use voice_flux_engine.Ring.Inv.{IsValid, contents}
use voice_flux_engine.Ring.Refine.{length-contents}
use voice_flux_engine.Edge.{Edge, push_edge, drain}
use voice_flux_engine.Edge.Drain.{drain_exact}
use voice_flux_engine.Pipeline.{
  TurnStats, Handle, cancelling, Pipeline, cancel_finish, publish, after_cancel,
}
use voice_flux_engine.Pipeline.Run.{Event, exec, on_cancel_ends, chain_runs}

abbrev pub no_frame : AudioFrame
no_frame = record { pcm = []; ts_us = 0 }

after_cancel-rests : (leave : Bool) → chain_runs (after_cancel leave) ≡ false
after_cancel-rests true = refl
after_cancel-rests false = refl

-- `m` is the capacity of the egress ring. The loops get as many rounds as they need when no other
-- goroutine is in the ring; without an answer nothing changes.
module _ (m : ℕ) where
  unfoldable pub push_egress : AudioFrame → Edge AudioFrame → Edge AudioFrame
  push_egress f e = elim (push_edge no_frame 1 f e) [ none ↦ e | some (_, e') ↦ e' ]

  unfoldable pub drain_egress : Edge AudioFrame → ℕ × Edge AudioFrame
  drain_egress e = elim (drain no_frame (m + 1) e) [ none ↦ (0, e) | some got ↦ got ]

  drain_egress-exact :
      (e : Edge AudioFrame)
      → IsValid no_frame m e.ring
      → e.ring.tail + m < 2 ^ 63
      → ((drain_egress e).0 ≡ length (contents no_frame m e.ring))
        × IsValid no_frame m (drain_egress e).1.ring
        × (contents no_frame m (drain_egress e).1.ring ≡ [])
  unfolding drain_egress
  drain_egress-exact e v small =
      let l = length-contents no_frame m e.ring in
      let f = v.fits in
      let (e', d, v', c, _) = drain_exact no_frame m (m + 1) e v small (omega arith) in
      rw (d, drain_egress) (refl, v', c)

  -- When the stages of a cancelled turn have ended and nobody else is in the egress ring, the
  -- orchestrator publishes the turn as cancelled with the number of frames that were waiting, leaves
  -- an egress ring without a frame, and has no turn in hand that could add one.
  pub cancel_silences :
      (final_cap begin now : ℕ) (leave : Bool) (h : Handle) (p : Pipeline (Edge AudioFrame))
      → p.phase ≡ cancelling begin leave h
      → h.finished ≡ true
      → IsValid no_frame m p.egress.ring
      → p.egress.ring.tail + m < 2 ^ 63
      → let p' = exec push_egress drain_egress final_cap (Event.cancel_ends now) p in
        (p'.phase ≡ after_cancel leave)
        × (chain_runs p'.phase ≡ false)
        × (contents no_frame m p'.egress.ring ≡ [])
        × (t : TurnStats) × (p'.last ≡ some t)
        × (t.cancelled ≡ true)
        × (t.flushed_frames ≡ length (contents no_frame m p.egress.ring))
  unfolding exec on_cancel_ends cancel_finish publish
  cancel_silences final_cap begin now leave h p i f v small =
      let (k, _, c) = drain_egress-exact p.egress v small in
      let e : on_cancel_ends push_egress drain_egress final_cap now p
          ≡ cancel_finish drain_egress begin leave now h p =
        rw (i, f, on_cancel_ends) refl in
      let t = record h.stats {
        cancelled = true;
        flushed_frames = (drain_egress p.egress).0;
        barge_in_latency = now - begin;
      } in
      subst
        (λ q.
          (q.phase ≡ after_cancel leave)
          × (chain_runs q.phase ≡ false)
          × (contents no_frame m q.egress.ring ≡ [])
          × (x : TurnStats) × (q.last ≡ some x)
          × (x.cancelled ≡ true)
          × (x.flushed_frames ≡ length (contents no_frame m p.egress.ring)))
        (sym e) (refl, after_cancel-rests leave, c, t, refl, refl, k)
