-- ===== src/Pipeline/Asr.antt =====
-- internal/pipeline/pipeline.go, `runASRLoop`: the recognition of one utterance after another, with
-- the buffers of the frames going back to the pool. `B` is the type of frames.
use voice_flux_engine.Prelude.{
  ℕ, ◌+◌, arith, ◌≡◌, refl, subst, sym, ap, ◌∙◌, if◌then◌else◌, if-true, if-false, Bool, true,
  false, Option, none, some, List, [], ◌∷◌, ◌++◌, append-nil,
}
use voice_flux_engine.Prelude.Sort.{count}
use voice_flux_engine.Adapter.{Transcript}
use voice_flux_engine.Pipeline.{Utterance}

-- What happens in a round of `pump`: a bell with the ring empty; the end of the utterance or of the
-- context with the ring empty; a frame that the recogniser takes; a frame taken from the ring when the
-- end of the utterance or of the context is chosen.
pub data PumpEvent (B : Type 0) : Type 0 where
  bell ctx_ends : PumpEvent B
  ends : ℕ → PumpEvent B
  handed ctx_drops : B → PumpEvent B
  cut : ℕ → B → PumpEvent B

-- `given` are the frames that the recogniser has taken, `recycled` those whose buffers are back in the
-- pool; `halted` is that the loop is left.
pub record Pump (B : Type 0) : Type 0 where
  pub prev : Option B
  pub end_at : Option ℕ
  pub given : List B
  pub recycled : List B
  pub halted : Bool

module _ {B : Type 0} where
  abbrev pub recycle : B → Pump B → Pump B
  recycle f p = record p { recycled = p.recycled ++ f ∷ [] }

  -- `if havePrev`
  abbrev pub recycle_prev : Option B → Pump B → Pump B
  recycle_prev none p = p
  recycle_prev (some f) p = recycle f p

  unfoldable pub pump_step : PumpEvent B → Pump B → Pump B
  pump_step bell p = p
  pump_step ctx_ends p = record p { halted = true }
  pump_step (ends now) p = record p { end_at = some now; halted = true }
  pump_step (handed f) p = record (recycle_prev p.prev p) {
    prev = some f;
    given = p.given ++ f ∷ [];
  }
  pump_step (ctx_drops f) p = record (recycle f p) { halted = true }
  pump_step (cut now f) p = record (recycle f p) { end_at = some now; halted = true }

  -- The loop: what happens after it is left is not its own.
  unfoldable pub pump : List (PumpEvent B) → Pump B → Pump B
  pump [] p = p
  pump (e ∷ es) p = let rest = pump es (pump_step e p) in if p.halted then p else rest

  abbrev pub start : Pump B
  start = record { prev = none; end_at = none; given = []; recycled = []; halted = false }

  -- after the stream has returned
  unfoldable pub finish : Pump B → Pump B
  finish p = recycle_prev p.prev p

-- the goroutine that collects the transcripts: the last final one
unfoldable pub collect : Transcript → List Transcript → Transcript
collect final [] = final
collect final (t ∷ ts) = collect (if t.final then t else final) ts

abbrev pub no_transcript : Transcript
no_transcript = record { text = ""; final = false; ts_us = 0 }

-- how a round of the loop ends
pub data RoundEnd : Type 0 where
  ctx_error stream_error : RoundEnd
  hands : Utterance → RoundEnd

-- The end of a round: whether the context has ended when the stream has returned and whether the
-- stream failed; the transcripts, the time, and whether the queue takes the utterance before the
-- context ends.
unfoldable pub end_round :
    {B : Type 0} → (ctx_ended failed queued : Bool) → List Transcript → ℕ → Pump B → RoundEnd
end_round ctx_ended failed queued ts now p =
    if ctx_ended
    then ctx_error
    else if failed
    then stream_error
    else if queued
    then hands
        (record { text = (collect no_transcript ts).text; end_at = p.end_at; final_at = some now })
    else ctx_error

abbrev pub listed : {B : Type 0} → Option B → List B
listed none = []
listed (some f) = f ∷ []

-- the frames taken from the ring until the loop is left
abbrev pub popped : {B : Type 0} → List (PumpEvent B) → List B
popped [] = []
popped (bell ∷ es) = popped es
popped (ctx_ends ∷ es) = []
popped (ends now ∷ es) = []
popped (handed f ∷ es) = f ∷ popped es
popped (ctx_drops f ∷ es) = f ∷ []
popped (cut now f ∷ es) = f ∷ []

module _ {B : Type 0} where
  -- The buffers that are back are those of frames taken by the recogniser, without the last of them,
  -- and of a frame that it was not given.
  abbrev pub Lent : Pump B → Type 0
  Lent p =
      (back : List B) × (other : Option B) × (p.recycled ≡ back ++ listed other)
      × (p.given ≡ back ++ listed p.prev)

  abbrev Exact : Pump B → Type 0
  Exact p = p.given ≡ p.recycled ++ listed p.prev

  pump-stops : (es : List (PumpEvent B)) (p : Pump B) → p.halted ≡ true → pump es p ≡ p
  unfolding pump
  pump-stops [] p h = refl
  pump-stops (e ∷ es) p h = if-true _ _ h

  pump-nil : (p : Pump B) → pump [] p ≡ p
  unfolding pump
  pump-nil p = refl

  pump-step :
      (e : PumpEvent B) (es : List (PumpEvent B)) (p : Pump B)
      → p.halted ≡ false
      → pump (e ∷ es) p ≡ pump es (pump_step e p)
  unfolding pump
  pump-step e es p h = if-false _ _ h

  halts :
      (P : Pump B → Type 0) (e : PumpEvent B) (es : List (PumpEvent B)) (p : Pump B)
      → p.halted ≡ false
      → (pump_step e p).halted ≡ true
      → P (pump_step e p)
      → P (pump (e ∷ es) p)
  halts P e es p h t k = subst P (sym (pump-step e es p h ∙ pump-stops es (pump_step e p) t)) k

  Exact→Lent : (p : Pump B) → Exact p → Lent p
  Exact→Lent p h = (p.recycled, none, sym (append-nil p.recycled), h)

  recycle_prev-fields :
      (o : Option B) (p : Pump B)
      → let p' = recycle_prev o p in
        (p'.recycled ≡ p.recycled ++ listed o) × (p'.given ≡ p.given) × (p'.halted ≡ p.halted)
  recycle_prev-fields none p = (sym (append-nil p.recycled), refl, refl)
  recycle_prev-fields (some f) p = (refl, refl, refl)

  handed-Exact : (f : B) (p : Pump B) → Exact p → Exact (pump_step (handed f) p)
  unfolding pump_step
  handed-Exact f p inv =
      let (r, g, h) = recycle_prev-fields p.prev p in ap (λ xs. xs ++ f ∷ []) (inv ∙ sym r)

  -- After some events the buffers that are back in the pool are those of frames that the recogniser
  -- was given, without the last of them, and of one frame at most that it was not given.
  pub pump-Lent :
      (es : List (PumpEvent B)) (p : Pump B) → p.halted ≡ false → Exact p → Lent (pump es p)
  unfolding pump_step
  pump-Lent [] p h inv = subst Lent (sym (pump-nil p)) (Exact→Lent p inv)
  pump-Lent (bell ∷ es) p h inv =
      subst Lent (sym (pump-step bell es p h)) (pump-Lent es (pump_step bell p) h inv)
  pump-Lent (ctx_ends ∷ es) p h inv = halts Lent ctx_ends es p h refl (Exact→Lent p inv)
  pump-Lent (ends now ∷ es) p h inv = halts Lent (ends now) es p h refl (Exact→Lent p inv)
  pump-Lent (handed f ∷ es) p h inv = subst Lent (sym (pump-step (handed f) es p h)) (
      pump-Lent es (pump_step (handed f) p) (let (r, g, k) = recycle_prev-fields p.prev p in k ∙ h)
        (handed-Exact f p inv))
  pump-Lent (ctx_drops f ∷ es) p h inv =
      halts Lent (ctx_drops f) es p h refl (p.recycled, some f, refl, inv)
  pump-Lent (cut now f ∷ es) p h inv =
      halts Lent (cut now f) es p h refl (p.recycled, some f, refl, inv)

  count-append : (q : B → Bool) (xs ys : List B) → count q (xs ++ ys) ≡ count q xs + count q ys
  count-append q [] ys = omega arith
  count-append q (x ∷ xs) ys = omega (arith, count-append q xs ys)

  Returned : (B → Bool) → ℕ → Pump B → Type 0
  Returned q n p = count q (finish p).recycled ≡ n

  finish-count :
      (q : B → Bool) (p : Pump B)
      → count q (finish p).recycled ≡ count q p.recycled + count q (listed p.prev)
  unfolding finish
  finish-count q p =
      let (r, g, k) = recycle_prev-fields p.prev p in
      ap (count q) r ∙ count-append q p.recycled (listed p.prev)

  -- Once the stream has returned, the buffer of every frame that the loop took from the ring is back
  -- in the pool, exactly as often as it was taken, whichever event left the loop.
  pub pump-recycles :
      (q : B → Bool) (es : List (PumpEvent B)) (p : Pump B)
      → p.halted ≡ false
      → count q (finish (pump es p)).recycled
        ≡ count q p.recycled + count q (listed p.prev) + count q (popped es)
  unfolding finish pump_step Returned
  pump-recycles q [] p h = subst (Returned q _) (sym (pump-nil p)) (finish-count q p ∙ omega arith)
  pump-recycles q (bell ∷ es) p h =
      subst (Returned q _) (sym (pump-step bell es p h)) (pump-recycles q es p h)
  pump-recycles q (ctx_ends ∷ es) p h =
      halts (Returned q _) ctx_ends es p h refl
        (finish-count q (pump_step ctx_ends p) ∙ omega arith)
  pump-recycles q (ends now ∷ es) p h =
      halts (Returned q _) (ends now) es p h refl
        (finish-count q (pump_step (ends now) p) ∙ omega arith)
  pump-recycles q (handed f ∷ es) p h =
      let (r, g, k) = recycle_prev-fields p.prev p in
      let c = ap (count q) r ∙ count-append q p.recycled (listed p.prev) in
      let rec = pump-recycles q es (pump_step (handed f) p) (k ∙ h) in
      subst (Returned q _) (sym (pump-step (handed f) es p h)) (rec ∙ omega arith)
  pump-recycles q (ctx_drops f ∷ es) p h =
      let c = count-append q p.recycled (f ∷ []) in
      halts (Returned q _) (ctx_drops f) es p h refl
        (finish-count q (pump_step (ctx_drops f) p) ∙ omega arith)
  pump-recycles q (cut now f ∷ es) p h =
      let c = count-append q p.recycled (f ∷ []) in
      halts (Returned q _) (cut now f) es p h refl
        (finish-count q (pump_step (cut now f) p) ∙ omega arith)
