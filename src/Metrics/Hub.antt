-- ===== src/Metrics/Hub.antt =====
-- internal/metrics/hub.go: the hub that fans the records of the turns out to the dashboards. A value
-- that does not marshal is not published; the mutex makes each operation one step.
use voice_flux_engine.Prelude.{
  ℕ, ◌-◌, ◌≤◌, ◌≡◌, refl, ap, ◌∙◌, ltb, ◌==◌, if◌then◌else◌, if-true, if-false, false, Bool-cases,
  Option, none, some, List, [], ◌∷◌, ◌++◌, append-nil, append_assoc, length, length-append, subst,
  drop, suffix, length-suffix, suffix-append, arith, inl, inr,
}

abbrev pub hub_history : ℕ
hub_history = 50

abbrev pub subscriber_capacity : ℕ
subscriber_capacity = 64

-- a channel of a subscriber: its identity and what it holds
pub record Subscriber (A : Type 0) : Type 0 where
  pub id : ℕ
  pub queue : List A

pub record Hub (A : Type 0) : Type 0 where
  pub subs : List (Subscriber A)
  pub hist : List A

module _ {A : Type 0} where
  -- a send that the buffer has room for or that is dropped
  abbrev pub offer : A → Subscriber A → Subscriber A
  offer b s =
      if ltb (length s.queue) subscriber_capacity then record s { queue = s.queue ++ b ∷ [] } else s

  abbrev pub offer_all : A → List (Subscriber A) → List (Subscriber A)
  offer_all b [] = []
  offer_all b (s ∷ subs) = offer b s ∷ offer_all b subs

  -- `Publish` of a marshalled value
  unfoldable pub publish : A → Hub A → Hub A
  publish b h =
      let hist = h.hist ++ b ∷ [] in
      record {
        subs = offer_all b h.subs;
        hist = if ltb hub_history (length hist) then suffix hub_history hist else hist;
      }

  -- `subscribe`: the replay blocks when the channel has no room for the history. `none` is that it
  -- blocks, with the mutex held.
  unfoldable pub subscribe : ℕ → Hub A → Option (Hub A)
  subscribe id h =
      if ltb subscriber_capacity (length h.hist)
      then none
      else some (record h { subs = record { id = id; queue = h.hist } ∷ h.subs })

  unfoldable pub unsubscribe : ℕ → List (Subscriber A) → List (Subscriber A)
  unsubscribe id [] = []
  unsubscribe id (s ∷ subs) =
      let rest = unsubscribe id subs in if s.id == id then rest else s ∷ rest

  abbrev pub pop_queue : Subscriber A → Option A × Subscriber A
  pop_queue s = elim s.queue [ [] ↦ (none, s) | b ∷ q ↦ (some b, record s { queue = q }) ]

  -- the receive of `ServeHTTP`
  unfoldable pub receive : ℕ → List (Subscriber A) → Option A × List (Subscriber A)
  receive id [] = (none, [])
  receive id (s ∷ subs) =
      let (got, rest) = receive id subs in
      if s.id == id then (let (first, s') = pop_queue s in (first, s' ∷ subs)) else (got, s ∷ rest)

  abbrev pub new_hub : Hub A
  new_hub = record { subs = []; hist = [] }

pub data HubOp (A : Type 0) : Type 0 where
  publishes : A → HubOp A
  subscribes leaves takes : ℕ → HubOp A

module _ {A : Type 0} where
  unfoldable pub step : HubOp A → Hub A → Option (Hub A)
  step (publishes b) h = some (publish b h)
  step (subscribes id) h = subscribe id h
  step (leaves id) h = some (record h { subs = unsubscribe id h.subs })
  step (takes id) h = some (record h { subs = (receive id h.subs).1 })

  unfoldable pub run : List (HubOp A) → Hub A → Option (Hub A)
  run [] h = some h
  run (op ∷ ops) h = elim (step op h) [ none ↦ none | some h' ↦ run ops h' ]

  abbrev pub published : List (HubOp A) → List A
  published [] = []
  published (publishes b ∷ ops) = b ∷ published ops
  published (subscribes id ∷ ops) = published ops
  published (leaves id ∷ ops) = published ops
  published (takes id ∷ ops) = published ops

  -- No channel holds more than its capacity.
  abbrev pub Fit : List (Subscriber A) → Type 0
  Fit [] = Unit
  Fit (s ∷ subs) = (length s.queue ≤ subscriber_capacity) × Fit subs

  Fit-offer_all : (b : A) (subs : List (Subscriber A)) → Fit subs → Fit (offer_all b subs)
  Fit-offer_all b [] f = tt
  Fit-offer_all b (s ∷ subs) (l, f) =
      let n = length-append s.queue (b ∷ []) in (ground arith, Fit-offer_all b subs f)

  Fit-unsubscribe : (id : ℕ) (subs : List (Subscriber A)) → Fit subs → Fit (unsubscribe id subs)
  unfolding unsubscribe
  Fit-unsubscribe id [] f = tt
  Fit-unsubscribe id (s ∷ subs) (l, f) =
      let rec = Fit-unsubscribe id subs f in
      elim (Bool-cases (s.id == id)) [ inl t ↦ rw t rec | inr t ↦ rw t (l, rec) ]

  pop_queue-le :
      (id : ℕ) (q : List A)
      → length q ≤ subscriber_capacity
      → length (pop_queue (record { id = id; queue = q })).1.queue ≤ subscriber_capacity
  pop_queue-le id [] h = h
  pop_queue-le id (b ∷ q) h = omega arith

  Fit-receive : (id : ℕ) (subs : List (Subscriber A)) → Fit subs → Fit (receive id subs).1
  unfolding receive
  Fit-receive id [] f = tt
  Fit-receive id (s ∷ subs) (l, f) = elim (Bool-cases (s.id == id)) [
    | inl t ↦ rw t (pop_queue-le s.id s.queue l, f)
    | inr t ↦ rw t (l, Fit-receive id subs f)
  ]

  -- The history after a value more is cut to its last values.
  pub hist-publish :
      (b : A) (h : Hub A) → (publish b h).hist ≡ suffix hub_history (h.hist ++ b ∷ [])
  unfolding publish
  hist-publish b h =
      let hist = h.hist ++ b ∷ [] in
      elim (Bool-cases (ltb hub_history (length hist))) [
        | inl t ↦ if-true _ _ t
        | inr t ↦
            let z : 0 ≡ length hist - hub_history = ground arith in
            if-false _ _ t ∙ ap (λ k. drop k hist) z
      ]

  subscribe-some :
      (id : ℕ) (h : Hub A)
      → length h.hist ≤ hub_history
      → subscribe id h ≡ some (record h { subs = record { id = id; queue = h.hist } ∷ h.subs })
  unfolding subscribe
  subscribe-some id h few =
      let room : ltb subscriber_capacity (length h.hist) ≡ false = ground arith in if-false _ _ room

  Kept : List A → Hub A → Type 0
  Kept before h = (h.hist ≡ suffix hub_history before) × Fit h.subs

  run-Kept :
      (ops : List (HubOp A)) (before : List A) (h : Hub A)
      → Kept before h
      → (last : Hub A) × (run ops h ≡ some last) × Kept (before ++ published ops) last
  unfolding run step publish Kept
  run-Kept [] before h k = (h, refl, rw append-nil k)
  run-Kept (publishes b ∷ ops) before h (e, f) =
      let next : Kept (before ++ b ∷ []) (publish b h) = (
        hist-publish b h
            ∙ ap (λ xs. suffix hub_history (xs ++ b ∷ [])) e
            ∙ suffix-append hub_history before (b ∷ []),
        Fit-offer_all b h.subs f,
      ) in
      let (last, r, k) = run-Kept ops (before ++ b ∷ []) (publish b h) next in
      (last, r, subst (λ xs. Kept xs last) (append_assoc before (b ∷ []) (published ops)) k)
  run-Kept (subscribes id ∷ ops) before h (e, f) =
      let l = length-suffix hub_history before in
      let few : length h.hist ≤ hub_history = rw e (omega arith) in
      let (last, r, k) =
        run-Kept ops before (record h { subs = record { id = id; queue = h.hist } ∷ h.subs })
          (e, (omega arith, f)) in
      (last, rw (subscribe-some id h few, run) r, k)
  run-Kept (leaves id ∷ ops) before h (e, f) =
      run-Kept ops before (record h { subs = unsubscribe id h.subs })
        (e, Fit-unsubscribe id h.subs f)
  run-Kept (takes id ∷ ops) before h (e, f) =
      run-Kept ops before (record h { subs = (receive id h.subs).1 }) (e, Fit-receive id h.subs f)

  -- However its operations interleave, the hub never blocks, not even in the replay that a new
  -- subscriber is given with the mutex held; its history is the last values published, up to the
  -- bound, and no channel holds more than its capacity.
  pub hub_never_blocks :
      (ops : List (HubOp A))
      → (last : Hub A) × (run ops new_hub ≡ some last)
        × (last.hist ≡ suffix hub_history (published ops))
        × Fit last.subs
  unfolding Kept
  hub_never_blocks ops =
      let (last, r, (e, f)) = run-Kept ops [] new_hub (refl, tt) in (last, r, e, f)
