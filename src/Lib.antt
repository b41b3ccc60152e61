-- ===== src/Lib.antt =====
-- The core of the VoiceFluxEngine voice pipeline (Go), modelled and verified. Paths are from the
-- repository's root.
--
-- A client's WebSocket connection carries binary frames. The session layer binds connections to
-- conversations, drops replayed frames, and hands audio to the controller, which runs the
-- voice-activity detector and the dialogue state machine in line and drives the pipeline. The
-- pipeline takes audio from its ingress ring to recognition, turn by turn to the language model and
-- to synthesis through the adapters, and from its egress ring back to the connection. Each turn is
-- recorded in the metrics. The load generator plays the clients of many conversations, reads the
-- metrics back and looks for the load at which the server degrades.
--
-- Files:
--   Prelude, Prelude/*  lists, sorting, bits, bytes, integers, results and the interface of float64
--                       that the parts share, and tests of them
--   Ring, Ring/*        internal/ringbuf/ring.go: Policy, Ring, New, Push, pop, Len. Queue is the
--                       specification, Refine and History the proof that the ring implements it,
--                       New the constructor, Unit the ring of one slot. Ring/Threads has the producer
--                       and the consumer as two goroutines that interleave at each atomic operation
--                       (pop_move, push_step); Core is the invariant of the memory, Sound that of
--                       the goroutines and what they have exchanged
--   Pool, Pool/*        internal/ringbuf/pool.go: NewBufferPool (new_pool, and make_pool of Session/Build
--                       for any count and size), Get, Put
--   Vad, Vad/*          internal/vad: machine.go (Machine.Apply), vad.go (Energy.Process, rms),
--                       controller.go (Ingest, apply)
--   Frame, Frame/*      internal/transport: frame.go (MarshalBinary, AppendBinary, Decode) and the
--                       reader of wsconn.go (ReadFrameInto); server.go: EchoHandler (Echo)
--   Session, Session/*  internal/session/session.go: attach in two halves (attach_claim, and attach_bind
--                       after the wait), detach, close, a round of readLoop up to the test of the
--                       stale mark (admit) and from there on (on_frame), writeLoop (send_ack,
--                       take_next, and write_frame up to the call of WriteFrame, which may fail) and
--                       audioPump (pump_take, pump_send), enqueueText and enqueueControl. Run is the
--                       machine of all goroutines of a session; Dedup, Epochs, Readers, Wire and
--                       Hands are its invariants. Build has newSession (new_session)
--   Edge, Edge/*        internal/pipeline/edge.go: newEdge, push, await (try_take, wake), drain
--   Pipeline, Pipeline/* internal/pipeline/pipeline.go and turn.go: the cases of the select of Run
--                       (Run), startTurn, finishTurn, cancelTurn in two halves, appendHistory, publish,
--                       the steps of the response chain, the rounds of runASRLoop (Asr), the
--                       accounts of a turn (Latency), and New (Build)
--   Manager, Manager/*  internal/session/manager.go: resolve, Handler up to attach (handshake), whose
--                       call of attach may have to wait (attach_to), reclaim
--                       in two halves (reclaim_take, reclaim_fold), reapIdle, the gauges (exported)
--   Adapter, Adapter/*  internal/adapter/adapter.go: the data; ttsframe.go: PCMFramer (Framer) and
--                       EndsSentence (Sentence, with the loop of openaitts/openaitts.go); mock.go
--                       (Mock); registry.go (Registry); openaicompat/openaicompat.go: the messages and
--                       the event stream (Chat); sherpa/asr.go: Stream as events of its two goroutines
--                       (Sherpa)
--   Config, Config/*    internal/config/config.go: Validate; Default, Load and the overrides from the
--                       environment (Load); dotenv.go (Dotenv)
--   Metrics, Metrics/*  internal/metrics: metrics.go, counters, histograms and their exposition; hub.go
--                       (Hub); m.go, RecordTurn and toRecord (Record)
--   Loadgen, Loadgen/*  internal/loadgen: shaper.go (Shaper), report.go (Report), scrape.go (Scrape),
--                       worker.go, run and turn (Worker), connect, sendAudio and readLoop
--                       (Downlink), and loadgen.go: normalize (Setup), the collector (Collector),
--                       the ramp of Run (Ramp)
--
-- Numbers: a uint64 is a natural number with its wrap-around written out; the ring's theorems
-- suppose that its cursors have not reached 2^63, which at one element per nanosecond takes 292
-- years. Bytes are numbers below 256. The type float64 is a record of its operations
-- (Prelude/Float), a parameter of all that computes with it, with the few laws that a theorem needs
-- as its hypotheses; the tests use natural numbers in its place. Parsing and formatting of numbers
-- are parameters too.
--
-- Goroutines: what a mutex or an atomic makes one step is one step. Blocking is a step that does
-- nothing: an event that cannot happen in a state leaves it unchanged, and the theorems hold for
-- every list of events, hence for every interleaving.
--
-- Loops: the retry loops of the ring take fuel. One round is enough when one goroutine runs, as the
-- history theorem shows by giving each loop a single round. Ring/Threads has the loops as steps
-- without fuel. Draining an edge takes a round more than there are elements, and the framer a round
-- more than there are bytes; each round of the framer is told whether its wait and send succeed. A loop that waits for other goroutines or for the clock is given what
-- each round meets, as a list; it is pending when the list ends before the loop does or when a send
-- blocks, and a theorem says when it is not.
--
-- Not modelled: the callbacks of a session that forward transcripts, tokens and the turn hooks, the
-- loops that read synthesised audio into the framer, the gauges of the runtime, the serving of metrics
-- over HTTP, the printing of tables, CSV and HTML, and the requests of the clients of the models,
-- whose libraries and services are outside the repository; the generated protobuf code, the serving of
-- WebSockets, the commands and the formatting of error texts.
pub mod Prelude
pub mod Ring
pub mod Pool
pub mod Vad
pub mod Frame
pub mod Edge
pub mod Pipeline
pub mod Session
pub mod Manager
pub mod Adapter
pub mod Config
pub mod Metrics
pub mod Loadgen
