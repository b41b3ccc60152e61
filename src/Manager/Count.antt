-- ===== src/Manager/Count.antt =====
-- The count of sessions: created, live, and reclaimed, with reclaims interleaved.
use Prim.Native.String.{String}
use text.Mathlib.Text.{◌==◌ as str_eq}
use voice_flux_engine.Prelude.{
  suc, ◌+◌, ◌≡◌, refl, ap, u64, Bool-cases, Option, none, some, Option-cases, List, [], ◌∷◌, ◌++◌,
  length, length-append, arith, inl, inr,
}
use voice_flux_engine.Session.{Session, ControlPayload}
use voice_flux_engine.Manager.{Manager, lookup, delete, resolve, reclaim_take, reclaim_fold, count}

-- A handshake with the id and the session that it may make; the first half of a reclaim; its second.
pub data Event (L : Type 0) : Type 0 where
  starts : ControlPayload → String → Option (Session L) → Event L
  takes : String → Event L
  folds : Event L

-- `leaving` are the sessions between the two halves of `reclaim`.
pub record Office (L : Type 0) : Type 0 where
  pub manager : Manager L
  pub leaving : List (Session L)

module _ {L : Type 0} where
  unfoldable pub exec : Event L → Office L → Office L
  exec (starts c id fresh) o = elim (resolve c id fresh o.manager) [
    | none ↦ o
    | some (_, _, _, m) ↦ record o { manager = m }
  ]
  exec (takes id) o = elim (reclaim_take id o.manager) [
    | none ↦ o
    | some (s, m) ↦ record { manager = m; leaving = o.leaving ++ s ∷ [] }
  ]
  exec folds o = elim o.leaving [
    | [] ↦ o
    | s ∷ rest ↦ record { manager = (reclaim_fold s o.manager).1; leaving = rest }
  ]

  unfoldable pub run : List (Event L) → Office L → Office L
  run [] o = o
  run (ev ∷ evs) o = run evs (exec ev o)

  -- the ids that the generator gives are not in use, as those of crypto/rand are
  abbrev pub IsNew : Event L → Office L → Type 0
  IsNew (starts c id fresh) o = lookup id o.manager.sessions ≡ none
  IsNew (takes _) o = Unit
  IsNew folds o = Unit

  abbrev pub AllNew : List (Event L) → Office L → Type 0
  AllNew [] o = Unit
  AllNew (ev ∷ evs) o = IsNew ev o × AllNew evs (exec ev o)

  -- Every session that was created is live, leaving, or reclaimed.
  abbrev pub Balanced : Office L → Type 0
  Balanced o =
      o.manager.sessions_created
      ≡ u64 (o.manager.sessions_reclaimed + (length o.leaving + count o.manager))

  length-delete :
      (id : String) (s : Session L) (rest : List (Session L))
      → lookup id rest ≡ some s
      → suc (length (delete id rest)) ≡ length rest
  length-delete id s [] h = ground arith
  length-delete id s (x ∷ rest) h =
      let rec = length-delete id s rest in
      elim (Bool-cases (str_eq x.id id)) [
        | inl t ↦ ground arith
        | inr t ↦ let r = rec (ground arith) in ground arith
      ]

  delete-none :
      (id : String) (rest : List (Session L)) → lookup id rest ≡ none → delete id rest ≡ rest
  delete-none id [] h = refl
  delete-none id (x ∷ rest) h =
      let rec = delete-none id rest in
      elim (Bool-cases (str_eq x.id id)) [
        | inl t ↦ ground arith
        | inr t ↦ let r = rec (ground arith) in ground arith
      ]

  exec-Balanced : (ev : Event L) (o : Office L) → IsNew ev o → Balanced o → Balanced (exec ev o)
  unfolding exec resolve reclaim_take reclaim_fold count
  exec-Balanced (starts c id fresh) o new b =
      let d = ap length (delete-none id o.manager.sessions new) in ground arith
  exec-Balanced (takes id) o new b = elim (Option-cases (lookup id o.manager.sessions)) [
    | inl n ↦ rw (n, reclaim_take, exec) b
    | inr (s, h) ↦
        let d = length-delete id s o.manager.sessions h in
        let l = length-append o.leaving (s ∷ []) in rw (h, reclaim_take, exec) (omega arith)
  ]
  exec-Balanced folds o new b = ground arith

  -- Over any handshakes and reclaims, each reclaim cut in two and interleaved with the rest, the
  -- number of sessions ever created is that of the sessions reclaimed, of those being reclaimed and
  -- of the live ones (modulo 2^64), provided that new ids are not in use.
  pub sessions_balance :
      (evs : List (Event L)) (o : Office L) → AllNew evs o → Balanced o → Balanced (run evs o)
  unfolding run
  sessions_balance [] o new b = b
  sessions_balance (ev ∷ evs) o (n, new) b =
      sessions_balance evs (exec ev o) new (exec-Balanced ev o n b)
