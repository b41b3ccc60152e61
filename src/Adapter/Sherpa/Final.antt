-- ===== src/Adapter/Sherpa/Final.antt =====
-- The final transcript of the recogniser's client in sherpa/asr.go.
use voice_flux_engine.Prelude.{
  ℕ, ◌≡◌, refl, sym, subst, ap, ap₂, ◌<◌, length, ◌∙◌, Bool, true, false, Option, none, some,
  option_case, ◌⊎◌, List, [], ◌∷◌, ◌++◌, arith, inl, inr,
}
use mathlib.Core.Option.{some-injective}
use voice_flux_engine.Prelude.Result.{Result, ok, err, ok-injective}
use voice_flux_engine.Adapter.Sherpa.{
  AsrResult, Transcript, AsrError, read_error, AsrEvent, frame, in_closed, message, reader_exits,
  ctx_done, deadline, takes_final, Asr, offer_final, on_message, or_else, chosen, conclude, settle,
  wait, write_loop, new_asr,
}

-- the texts that count: finished or partial, and not empty
abbrev finished_text : Bool → List ℕ → Option (List ℕ)
finished_text b [] = none
finished_text true (c ∷ cs) = some (c ∷ cs)
finished_text false (c ∷ cs) = none

abbrev keep_first : Option (List ℕ) → Option (List ℕ) → Option (List ℕ)
keep_first (some t) o = some t
keep_first none o = o

-- the first text that the sidecar has finished
abbrev pub first_final : Option (List ℕ) → List AsrResult → Option (List ℕ)
first_final found [] = found
first_final found (r ∷ rs) = first_final (keep_first found (finished_text r.finished r.text)) rs

abbrev newer : Bool → List ℕ → List ℕ → List ℕ
newer b [] old = old
newer true (c ∷ cs) old = old
newer false (c ∷ cs) old = c ∷ cs

-- the last text that it has not finished
abbrev pub last_partial : List ℕ → List AsrResult → List ℕ
last_partial old [] = old
last_partial old (r ∷ rs) = last_partial (newer r.finished r.text old) rs

-- the text that the messages call for
abbrev pub best_text : List AsrResult → List ℕ
best_text heard = or_else (chosen (first_final none heard)) (last_partial [] heard)

abbrev pub Partial : List Transcript → Type 0
Partial [] = Unit
Partial (t ∷ ts) = (t.final ≡ false) × Partial ts

Partial-append : (ts us : List Transcript) → Partial ts → Partial us → Partial (ts ++ us)
Partial-append [] us p q = q
Partial-append (t ∷ ts) us (h, p) q = (h, Partial-append ts us p q)

first_final-append :
    (found : Option (List ℕ)) (rs : List AsrResult) (r : AsrResult)
    → first_final found (rs ++ r ∷ [])
      ≡ keep_first (first_final found rs) (finished_text r.finished r.text)
first_final-append found [] r = refl
first_final-append found (x ∷ rs) r =
    first_final-append (keep_first found (finished_text x.finished x.text)) rs r

last_partial-append :
    (old : List ℕ) (rs : List AsrResult) (r : AsrResult)
    → last_partial old (rs ++ r ∷ []) ≡ newer r.finished r.text (last_partial old rs)
last_partial-append old [] r = refl
last_partial-append old (x ∷ rs) r = last_partial-append (newer x.finished x.text old) rs r

abbrev Full : Option (List ℕ) → Type 0
Full none = Unit
Full (some t) = 0 < length t

keep_first-Full : (o p : Option (List ℕ)) → Full o → Full p → Full (keep_first o p)
keep_first-Full none p h k = k
keep_first-Full (some t) p h k = h

finished_text-Full : (b : Bool) (t : List ℕ) → Full (finished_text b t)
finished_text-Full b [] = tt
finished_text-Full true (c ∷ cs) = omega arith
finished_text-Full false (c ∷ cs) = tt

first_final-Full :
    (found : Option (List ℕ)) (rs : List AsrResult) → Full found → Full (first_final found rs)
first_final-Full found [] h = h
first_final-Full found (r ∷ rs) h =
    first_final-Full (keep_first found (finished_text r.finished r.text)) rs (
      keep_first-Full found (finished_text r.finished r.text) h
        (finished_text-Full r.finished r.text))

keep_first-none : (o : Option (List ℕ)) → keep_first o none ≡ o
keep_first-none none = refl
keep_first-none (some t) = refl

-- an offer after the text taken and the channel's
keep_first-offer :
    (o ch : Option (List ℕ)) (t : List ℕ)
    → keep_first o (offer_final t ch) ≡ keep_first (keep_first o ch) (some t)
keep_first-offer none none t = refl
keep_first-offer none (some u) t = refl
keep_first-offer (some v) ch t = refl

-- `taken` is the text that the main goroutine holds.
record Hears (taken : Option (List ℕ)) (s : Asr) : Type 0 where
  finals : keep_first taken s.final_ch ≡ first_final none s.heard
  partials : s.last_text ≡ last_partial [] s.heard
  only_partial : Partial s.sent

text-Hears :
    (taken : Option (List ℕ)) (text : List ℕ) (finished : Bool) (s : Asr)
    → Hears taken s
    → Hears taken (on_message (record { text = text; finished = finished }) s)
unfolding on_message
text-Hears taken [] b s k =
    let r : AsrResult = record { text = []; finished = b } in
    record {
      finals =
          k.finals
          ∙ sym (first_final-append none s.heard r ∙ keep_first-none (first_final none s.heard));
      partials = k.partials ∙ sym (last_partial-append [] s.heard r);
      only_partial = k.only_partial;
    }
text-Hears taken (c ∷ cs) true s k =
    let r : AsrResult = record { text = c ∷ cs; finished = true } in
    record {
      finals =
          keep_first-offer taken s.final_ch (c ∷ cs)
          ∙ ap (λ o. keep_first o (some (c ∷ cs))) k.finals
          ∙ sym (first_final-append none s.heard r);
      partials = k.partials ∙ sym (last_partial-append [] s.heard r);
      only_partial = k.only_partial;
    }
text-Hears taken (c ∷ cs) false s k =
    let r : AsrResult = record { text = c ∷ cs; finished = false } in
    record {
      finals =
          k.finals
          ∙ sym (first_final-append none s.heard r ∙ keep_first-none (first_final none s.heard));
      partials = sym (last_partial-append [] s.heard r);
      only_partial = Partial-append s.sent _ k.only_partial (refl, tt);
    }

message-Hears :
    (taken : Option (List ℕ)) (r : AsrResult) (s : Asr)
    → Hears taken s
    → Hears taken (on_message r s)
message-Hears taken r s k = text-Hears taken r.text r.finished s k

or_else-full : (t u v : List ℕ) → 0 < length t → or_else (or_else t u) v ≡ or_else t v
or_else-full [] u v h = absurd (omega arith)
or_else-full (c ∷ t) u v h = refl

-- What a run sends: partial transcripts, and one final transcript at the end, with the first text that
-- the sidecar finished, or its last partial one when it finished none.
abbrev pub Concluded : Asr → Type 0
Concluded s =
    (partials : List Transcript) × (s.sent
      ≡ partials ++ record { text = best_text s.heard; final = true; ts_us = s.last_ts } ∷ [])
    × Partial partials

best_text-taken :
    (taken : Option (List ℕ)) (ch : Option (List ℕ)) (heard : List AsrResult) (last : List ℕ)
    → keep_first taken ch ≡ first_final none heard
    → last ≡ last_partial [] heard
    → or_else (or_else (chosen taken) (chosen ch)) last ≡ best_text heard
best_text-taken none ch heard last h k = ap₂ (λ o l. or_else (chosen o) l) h k
best_text-taken (some t) ch heard last h k =
    let full = subst Full (sym h) (first_final-Full none heard tt) in
    or_else-full t (chosen ch) last full ∙ ap₂ (λ o l. or_else (chosen o) l) h k

conclude-Concluded :
    (taken : Option (List ℕ)) (s : Asr) → Hears taken s → Concluded (conclude (chosen taken) s)
unfolding conclude
conclude-Concluded taken s k = (
  s.sent,
  ap (λ t. s.sent ++ record { text = t; final = true; ts_us = s.last_ts } ∷ [])
      (best_text-taken taken s.final_ch s.heard s.last_text k.finals k.partials),
  k.only_partial,
)

abbrev Done : Asr → Asr → Type 0
Done x s = ◌≡◌ {A = Option (Result AsrError Asr)} (some (ok x)) (some (ok s))

concludes :
    (taken : Option (List ℕ)) (x s : Asr)
    → Hears taken x
    → Done (conclude (chosen taken) x) s
    → Concluded s
concludes taken x s k h =
    subst Concluded (ok-injective (some-injective _ _ h)) (conclude-Concluded taken x k)

settle-Concluded :
    (taken : Option (List ℕ)) (es : List AsrEvent) (x s : Asr)
    → Hears taken x
    → settle (chosen taken) es x ≡ some (ok s)
    → Concluded s
unfolding settle
settle-Concluded taken [] x s k h = absurd (ground arith)
settle-Concluded taken (message r ∷ es) x s k h =
    settle-Concluded taken es (on_message r x) s (message-Hears taken r x k) h
settle-Concluded taken (reader_exits ∷ es) x s k h = concludes taken x s k h
settle-Concluded taken (frame ts b ∷ es) x s k h = settle-Concluded taken es x s k h
settle-Concluded taken (in_closed b ∷ es) x s k h = settle-Concluded taken es x s k h
settle-Concluded taken (ctx_done ∷ es) x s k h = settle-Concluded taken es x s k h
settle-Concluded taken (deadline ∷ es) x s k h = settle-Concluded taken es x s k h
settle-Concluded taken (takes_final ∷ es) x s k h = settle-Concluded taken es x s k h

list_case :
    {V : Type 0} (t : List ℕ) (x y v : V)
    → ◌≡◌ {A = V} (elim t [ [] ↦ x | c ∷ cs ↦ y ]) v
    → (x ≡ v) ⊎ (y ≡ v)
list_case [] x y v h = inl h
list_case (c ∷ cs) x y v h = inr h

wait-Concluded :
    (es : List AsrEvent) (x s : Asr) → Hears none x → wait es x ≡ some (ok s) → Concluded s
unfolding wait
wait-Concluded [] x s k h = absurd (ground arith)
wait-Concluded (message r ∷ es) x s k h =
    wait-Concluded es (on_message r x) s (message-Hears none r x k) h
wait-Concluded (takes_final ∷ es) x s k h =
    elim (option_case x.final_ch (wait es x) (some (ok s))
      (λ t. settle t es (record x { final_ch = none })) h) [
        | inl (e, h') ↦ wait-Concluded es x s k h'
        | inr (t, e, h') ↦
            settle-Concluded (some t) es (record x { final_ch = none }) s
              (record {
                finals = sym e ∙ k.finals;
                partials = k.partials;
                only_partial = k.only_partial;
              })
              h'
      ]
wait-Concluded (deadline ∷ es) x s k h = settle-Concluded none es x s k h
wait-Concluded (reader_exits ∷ es) x s k h = concludes none x s k h
wait-Concluded (ctx_done ∷ es) x s k h = absurd (ground arith)
wait-Concluded (frame ts b ∷ es) x s k h = wait-Concluded es x s k h
wait-Concluded (in_closed b ∷ es) x s k h = wait-Concluded es x s k h

write-Concluded :
    (es : List AsrEvent) (x s : Asr) → Hears none x → write_loop es x ≡ some (ok s) → Concluded s
unfolding write_loop
write-Concluded [] x s k h = absurd (ground arith)
write-Concluded (frame ts true ∷ es) x s k h =
    write-Concluded es (record x { last_ts = ts }) s
      (record { finals = k.finals; partials = k.partials; only_partial = k.only_partial }) h
write-Concluded (frame ts false ∷ es) x s k h = absurd (ground arith)
write-Concluded (in_closed true ∷ es) x s k h = wait-Concluded es x s k h
write-Concluded (in_closed false ∷ es) x s k h = absurd (ground arith)
write-Concluded (message r ∷ es) x s k h =
    write-Concluded es (on_message r x) s (message-Hears none r x k) h
write-Concluded (reader_exits ∷ es) x s k h =
    elim (list_case x.last_text (some (err read_error)) (some (ok (conclude [] x))) (some (ok s))
      h) [ inl e ↦ absurd (ground arith) | inr e ↦ concludes none x s k e ]
write-Concluded (ctx_done ∷ es) x s k h = absurd (ground arith)
write-Concluded (deadline ∷ es) x s k h = write-Concluded es x s k h
write-Concluded (takes_final ∷ es) x s k h = write-Concluded es x s k h

-- However the reading, the writing, the deadline and the connection's end interleave, a stream that
-- succeeds has sent exactly one final transcript, as its last. Its text is the first that the sidecar
-- finished, or else the last partial one, or empty, among the messages read.
pub stream-Concluded :
    (es : List AsrEvent) (s : Asr) → write_loop es new_asr ≡ some (ok s) → Concluded s
stream-Concluded es s h =
    write-Concluded es new_asr s (record { finals = refl; partials = refl; only_partial = tt }) h
