-- ===== src/Manager.antt =====
-- internal/session/manager.go: the sessions of the process and the totals that it exports. A mutex
-- makes each operation one step, except `reclaim`, which lets go of the mutex in the middle.
pub mod Exported
pub mod Count
pub mod Handshake
mod Tests
use Prim.Native.String.{String}
use text.Mathlib.Text.{◌==◌ as str_eq}
use voice_flux_engine.Prelude.{
  ℕ, ◌+◌, ◌-◌, ltb, ◌==◌, ◌&&◌, if◌then◌else◌, u64, Bool, true, false, Option, none, some, List, [],
  ◌∷◌, length,
}
use voice_flux_engine.Prelude.Result.{Result, ok, err}
use voice_flux_engine.Frame.{Frame}
use voice_flux_engine.Session.{
  Session, ControlPayload, ControlKind, start, close, attach_claim, is_free, type_control,
}

-- the totals of the sessions that are gone
pub record Totals : Type 0 where
  pub dup_frames : ℕ
  pub stale_frames : ℕ
  pub subtitle_drops : ℕ
  pub illegal_events : ℕ

pub record Manager (L : Type 0) : Type 0 where
  pub sessions : List (Session L)
  pub acc : Totals
  pub stale_epoch_claims : ℕ
  pub sessions_created : ℕ
  pub sessions_reclaimed : ℕ

pub data Detail : Type 0 where
  resumed created expired : Detail

-- What `Handler` answers to the first frame: an error frame, or service once `attach` is under way.
-- While another `attach` holds the mutex of the session, `attach` waits to start with its claim.
pub data Answer (L : Type 0) : Type 0 where
  expected_start refused : Answer L
  serves : Session L → Answer L
  waits : Session L → ℕ → Answer L

abbrev pub is_start : ControlKind → Bool
is_start start = true
is_start _ = false

module _ {L : Type 0} where
  -- the map by session id
  abbrev pub lookup : String → List (Session L) → Option (Session L)
  lookup id [] = none
  lookup id (s ∷ rest) = if str_eq s.id id then some s else lookup id rest

  abbrev pub delete : String → List (Session L) → List (Session L)
  delete id [] = []
  delete id (s ∷ rest) = if str_eq s.id id then rest else s ∷ delete id rest

  -- `newSessionID` gives `id` and `newSession` gives `fresh` or fails. The session that the client
  -- gets, the epoch it then claims, and the manager.
  unfoldable pub resolve :
      ControlPayload
      → String
      → Option (Session L)
      → Manager L
      → Option (Session L × ℕ × Detail × Manager L)
  resolve c id fresh m =
      let known = if str_eq c.session_id "" then none else lookup c.session_id m.sessions in
      elim known [
        | some s ↦ some (s, c.epoch, resumed, m)
        | none ↦ elim fresh [
          | none ↦ none
          | some s ↦
              let m' = record m {
                sessions = s ∷ delete id m.sessions;
                sessions_created = u64 (m.sessions_created + 1);
              } in
              if str_eq c.session_id ""
              then some (s, if c.epoch == 0 then 1 else c.epoch, created, m')
              else some (s, 1, expired, m')
        ]
      ]

  abbrev pub replace : Session L → List (Session L) → List (Session L)
  replace s [] = []
  replace s (x ∷ rest) = if str_eq x.id s.id then s ∷ rest else x ∷ replace s rest

  abbrev pub count_claim : Manager L → Manager L
  count_claim m = record m { stale_epoch_claims = u64 (m.stale_epoch_claims + 1) }

  -- the call of `attach` in `Handler`; one that waits is made again when the mutex is free
  unfoldable pub attach_to : ℕ → Session L → Manager L → Answer L × Manager L
  attach_to claimed s m =
      if is_free s.attaching
      then elim (attach_claim claimed s) [
        | ok s' ↦ (serves s', record m { sessions = replace s' m.sessions })
        | err _ ↦ (refused, count_claim m)
      ]
      else (waits s claimed, m)

  -- `Handler` from the first frame to `attach`, with what `proto.Unmarshal` returns
  unfoldable pub handshake :
      Frame → Option ControlPayload → String → Option (Session L) → Manager L → Answer L × Manager L
  handshake f payload id fresh m = elim payload [
    | none ↦ (expected_start, m)
    | some c ↦
        if f.typ == type_control && is_start c.kind
        then elim (resolve c id fresh m) [
          | none ↦ (refused, count_claim m)
          | some (s, claimed, _, m') ↦ attach_to claimed s m'
        ]
        else (expected_start, m)
  ]

  -- `reclaim` under the mutex: the session leaves the map, or was gone already
  unfoldable pub reclaim_take : String → Manager L → Option (Session L × Manager L)
  reclaim_take id m = elim (lookup id m.sessions) [
    | none ↦ none
    | some s ↦ some (s, record m { sessions = delete id m.sessions })
  ]

  abbrev pub add_totals : Session L → Totals → Totals
  add_totals s t = record {
    dup_frames = u64 (t.dup_frames + s.dup_frames);
    stale_frames = u64 (t.stale_frames + s.stale_frames);
    subtitle_drops = u64 (t.subtitle_drops + s.subtitle_drops);
    illegal_events = u64 (t.illegal_events + s.ctrl.machine.illegal);
  }

  -- and after it: the session is closed and its counters are folded in
  unfoldable pub reclaim_fold : Session L → Manager L → Session L × Manager L
  reclaim_fold s m = (
    close s,
    record m { sessions_reclaimed = u64 (m.sessions_reclaimed + 1); acc = add_totals s m.acc },
  )

  unfoldable pub reclaim : String → Manager L → Manager L
  unfolding reclaim_take reclaim_fold
  reclaim id m = elim (reclaim_take id m) [ none ↦ m | some (s, m') ↦ (reclaim_fold s m').1 ]

  unfoldable pub reclaim_all : List (Session L) → Manager L → Manager L
  reclaim_all [] m = m
  reclaim_all (s ∷ rest) m = reclaim_all rest (reclaim s.id m)

  -- the sessions of a snapshot that have been idle for longer than `idle`
  abbrev pub idle_sessions : ℕ → ℕ → List (Session L) → List (Session L)
  idle_sessions now idle [] = []
  idle_sessions now idle (s ∷ rest) =
      if ltb idle (now - s.last_active)
      then s ∷ idle_sessions now idle rest
      else idle_sessions now idle rest

  unfoldable pub reap_idle : ℕ → ℕ → Manager L → Manager L
  reap_idle now idle m = reclaim_all (idle_sessions now idle m.sessions) m

  -- the gauges, given which counter is exported
  abbrev pub sum : (Session L → ℕ) → List (Session L) → ℕ
  sum f [] = 0
  sum f (s ∷ rest) = f s + sum f rest

  abbrev pub exported : (Totals → ℕ) → (Session L → ℕ) → Manager L → ℕ
  exported acc live m = u64 (acc m.acc + sum live m.sessions)

  unfoldable pub count : Manager L → ℕ
  count m = length m.sessions
