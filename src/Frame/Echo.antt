-- ===== src/Frame/Echo.antt =====
-- internal/transport/server.go, `EchoHandler`: its reading and writing goroutine, and the channel
-- between them. A step of a goroutine that cannot be made leaves the state alone.
use voice_flux_engine.Prelude.{
  ℕ, ◌+◌, ◌≤◌, ◌≡◌, refl, ltb, if◌then◌else◌, Bool, true, false, ◌&&◌, Option, none, some, List, [],
  ◌∷◌, ◌++◌, length, length-append, append_assoc, append-nil, arith,
}
use voice_flux_engine.Frame.{Frame}

pub data EchoError : Type 0 where
  read_failed write_failed ping_failed cancelled : EchoError

-- `received` and `written` are what the connection gave and took, `in_hand` is the frame that the
-- reader sends, `sending` the one that the writer has taken and writes, `failing` the one whose
-- writing failed. `errc` is the channel of errors with what it has been sent; the handler returns its
-- first element, and cancels the context.
pub record Echo : Type 0 where
  pub received : List Frame
  pub in_hand : Option Frame
  pub egress : List Frame
  pub written : List Frame
  pub sending : Option Frame
  pub failing : Option Frame
  pub reading : Bool
  pub writing : Bool
  pub done : Bool
  pub errc : List EchoError

-- the capacity of `egress`
abbrev pub egress_cap : ℕ
egress_cap = 16

abbrev pub echo_start : Echo
echo_start = record {
  received = [];
  in_hand = none;
  egress = [];
  written = [];
  sending = none;
  failing = none;
  reading = true;
  writing = true;
  done = false;
  errc = [];
}

-- The reader reads a frame, fails to, sends the frame in its hand, or sees the end of the context
-- meanwhile. The writer takes a frame, has written it, or fails to, and otherwise pings in vain or
-- sees the end. The context ends, by the server or by the handler that has an error.
pub data EchoEvent : Type 0 where
  reads : Frame → EchoEvent
  read_fails forwards reader_ends takes writes write_fails ping_fails writer_ends : EchoEvent
  cancels returns : EchoEvent

abbrev pub end_reader : EchoError → Echo → Echo
end_reader e s = record s { reading = false; errc = s.errc ++ e ∷ [] }

abbrev pub end_writer : EchoError → Echo → Echo
end_writer e s = record s { writing = false; errc = s.errc ++ e ∷ [] }

unfoldable pub echo : EchoEvent → Echo → Echo
echo (reads f) s =
    if s.reading
    then elim s.in_hand [
      | none ↦ record s { received = s.received ++ f ∷ []; in_hand = some f }
      | some _ ↦ s
    ]
    else s
echo read_fails s =
    if s.reading then elim s.in_hand [ none ↦ end_reader read_failed s | some _ ↦ s ] else s
echo forwards s =
    if s.reading
    then elim s.in_hand [
      | none ↦ s
      | some f ↦
          if ltb (length s.egress) egress_cap
          then record s { in_hand = none; egress = s.egress ++ f ∷ [] }
          else s
    ]
    else s
echo reader_ends s =
    if s.reading && s.done then elim s.in_hand [ none ↦ s | some _ ↦ end_reader cancelled s ] else s
echo takes s =
    if s.writing
    then elim s.sending [
      | none ↦ elim s.egress [ [] ↦ s | f ∷ rest ↦ record s { egress = rest; sending = some f } ]
      | some _ ↦ s
    ]
    else s
echo writes s =
    if s.writing
    then elim s.sending [
      | none ↦ s
      | some f ↦ record s { sending = none; written = s.written ++ f ∷ [] }
    ]
    else s
echo write_fails s =
    if s.writing
    then elim s.sending [
      | none ↦ s
      | some f ↦ end_writer write_failed (record s { sending = none; failing = some f })
    ]
    else s
echo ping_fails s =
    if s.writing then elim s.sending [ none ↦ end_writer ping_failed s | some _ ↦ s ] else s
echo writer_ends s =
    if s.writing && s.done then elim s.sending [ none ↦ end_writer cancelled s | some _ ↦ s ] else s
echo cancels s = record s { done = true }
echo returns s = elim s.errc [ [] ↦ s | _ ∷ _ ↦ record s { done = true } ]

unfoldable pub echo_all : List EchoEvent → Echo → Echo
echo_all [] s = s
echo_all (ev ∷ evs) s = echo_all evs (echo ev s)

abbrev pub opt : Option Frame → List Frame
opt none = []
opt (some f) = f ∷ []

abbrev pub ended : Bool → ℕ
ended true = 0
ended false = 1

abbrev Echoes : Echo → Type 0
Echoes s =
    (s.received ≡ s.written ++ opt s.failing ++ opt s.sending ++ s.egress ++ opt s.in_hand)
    × (length s.egress ≤ egress_cap)
    × (length s.errc ≡ ended s.reading + ended s.writing)
    × (s.writing ≡ true → s.failing ≡ none)

echo-bounds :
    (ev : EchoEvent) (s : Echo)
    → Echoes s
    → (length (echo ev s).egress ≤ egress_cap)
      × (length (echo ev s).errc ≡ ended (echo ev s).reading + ended (echo ev s).writing)
      × ((echo ev s).writing ≡ true → (echo ev s).failing ≡ none)
unfolding echo
echo-bounds ev s (a, b, c, d) =
    (grind (arith, length-append), grind (arith, length-append), ground arith)

echo-received :
    (ev : EchoEvent) (s : Echo)
    → Echoes s
    → let s' = echo ev s in
      s'.received ≡ s'.written ++ opt s'.failing ++ opt s'.sending ++ s'.egress ++ opt s'.in_hand
unfolding echo
echo-received ev s (a, b, c, d) = grind (arith, append_assoc, append-nil, append-nil)

echo_all-Echoes : (evs : List EchoEvent) (s : Echo) → Echoes s → Echoes (echo_all evs s)
unfolding echo_all
echo_all-Echoes [] s h = h
echo_all-Echoes (ev ∷ evs) s h =
    let (b, c, d) = echo-bounds ev s h in
    echo_all-Echoes evs (echo ev s) (echo-received ev s h, b, c, d)

-- However the two goroutines of an echo handler, its connection and its server interleave, from the
-- start on: the frames received are those written, the one whose writing failed, the one that the
-- writer is writing, those in the channel and the one in the reader's hand, in this order; the
-- channel keeps to its capacity; and each goroutine sends one error, when it ends, so that the
-- channel of errors, of capacity 2, never blocks it.
pub echo_faithful :
    (evs : List EchoEvent)
    → let s = echo_all evs echo_start in
      (s.received ≡ s.written ++ opt s.failing ++ opt s.sending ++ s.egress ++ opt s.in_hand)
      × (length s.egress ≤ egress_cap)
      × (length s.errc ≡ ended s.reading + ended s.writing)
echo_faithful evs =
    let (a, b, c, _) = echo_all-Echoes evs echo_start (refl, omega arith, refl, λ _. refl) in
    (a, b, c)
