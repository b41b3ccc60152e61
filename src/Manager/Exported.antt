-- ===== src/Manager/Exported.antt =====
-- The exported totals when sessions go.
use Prim.Native.String.{String}
use text.Mathlib.Text.{◌==◌ as str_eq}
use voice_flux_engine.Prelude.{
  ℕ, ◌+◌, ◌≡◌, refl, ap, ◌∙◌, u64, Bool-cases, some, Option-cases, List, [], ◌∷◌, arith, inl, inr,
}
use voice_flux_engine.Session.{Session}
use voice_flux_engine.Manager.{
  Totals, Manager, lookup, delete, reclaim_take, reclaim_fold, reclaim, sum, exported,
}

module _ {L : Type 0} where
  sum-delete :
      (f : Session L → ℕ) (id : String) (s : Session L) (rest : List (Session L))
      → lookup id rest ≡ some s
      → f s + sum f (delete id rest) ≡ sum f rest
  sum-delete f id s [] h = ground arith
  sum-delete f id s (x ∷ rest) h =
      let rec = sum-delete f id s rest in
      elim (Bool-cases (str_eq x.id id)) [
        | inl t ↦ ground arith
        | inr t ↦ let r = rec (ground arith) in ground arith
      ]

  -- what the two halves of `reclaim` do to a session that is in the map
  pub taken :
      (id : String) (s : Session L) (m m' : Manager L)
      → reclaim_take id m ≡ some (s, m')
      → (lookup id m.sessions ≡ some s) × (m' ≡ record m { sessions = delete id m.sessions })
  unfolding reclaim_take
  taken id s m m' h = (ground arith, ground arith)

  -- Between its two halves `reclaim` takes the counters of the session out of every exported total:
  -- a scrape at that moment sees each total lower by the session's own count (modulo 2^64).
  pub take_dips :
      (acc : Totals → ℕ) (live : Session L → ℕ) (id : String) (s : Session L) (m m' : Manager L)
      → reclaim_take id m ≡ some (s, m')
      → u64 (exported acc live m' + live s) ≡ exported acc live m
  take_dips acc live id s m m' h =
      let (f, e) = taken id s m m' h in
      let d = sum-delete live id s m.sessions f in
      let x = ap (exported acc live) e in
      let a : u64 (u64 (acc m.acc + sum live (delete id m.sessions)) + live s)
          ≡ u64 (acc m.acc + sum live m.sessions) =
        omega arith in
      ap (λ n. u64 (n + live s)) x ∙ a

  -- The whole of `reclaim` keeps every exported total of frame hygiene (modulo 2^64), whether the
  -- session was there or not.
  pub reclaim_keeps :
      (id : String) (m : Manager L)
      → (exported (λ t. t.dup_frames) (λ s. s.dup_frames) (reclaim id m)
          ≡ exported (λ t. t.dup_frames) (λ s. s.dup_frames) m)
        × (exported (λ t. t.stale_frames) (λ s. s.stale_frames) (reclaim id m)
            ≡ exported (λ t. t.stale_frames) (λ s. s.stale_frames) m)
        × (exported (λ t. t.subtitle_drops) (λ s. s.subtitle_drops) (reclaim id m)
            ≡ exported (λ t. t.subtitle_drops) (λ s. s.subtitle_drops) m)
        × (exported (λ t. t.illegal_events) (λ s. s.ctrl.machine.illegal) (reclaim id m)
            ≡ exported (λ t. t.illegal_events) (λ s. s.ctrl.machine.illegal) m)
  unfolding reclaim reclaim_take reclaim_fold
  reclaim_keeps id m = elim (Option-cases (lookup id m.sessions)) [
    | inl n ↦ rw (n, reclaim_take, reclaim) (refl, refl, refl, refl)
    | inr (s, h) ↦
        let a = sum-delete (λ s. s.dup_frames) id s m.sessions h in
        let b = sum-delete (λ s. s.stale_frames) id s m.sessions h in
        let c = sum-delete (λ s. s.subtitle_drops) id s m.sessions h in
        let d = sum-delete (λ s. s.ctrl.machine.illegal) id s m.sessions h in
        rw (h, reclaim_take, reclaim) (omega arith, omega arith, omega arith, omega arith)
  ]
