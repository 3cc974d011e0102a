-- ===== src/Lib.antt =====
-- whymiss explains why an Ethereum validator missed a duty. Collectors record timestamped
-- observations of one slot, an assembler puts them on a timeline, and the engine turns the timeline
-- into a verdict: the outcome, a cause from a closed taxonomy, a confidence and the evidence for it.
--
-- Modelled are the data model, internal/domain, the engine with its rules, internal/rca, the
-- assembler and the replay of recorded slots, internal/timeline, and the deterministic parts of the
-- collectors: the clock, the beacon node's answers, the Engine API and host counters, and the daemon's
-- own state machines.
--
--   Prelude      numbers, int64 (Int), durations and instants (Time), texts (Text), float64 (Float),
--                lexicographic orders (Order), insertion sort (Sorting), lists up to order (Permuted)
--   Domain       internal/domain: Errors (errors.go), Slot (slot.go), Schedule (schedule.go), Duty
--                (duty.go), Kinds, Attrs and Observation (observation.go), Sample (sample.go),
--                Timeline (timeline.go), Cause and Verdict (verdict.go)
--   Rca          internal/rca and internal/rca/rules: Config (rules/config.go), Stages
--                (rules/stages.go), Facts (rules/helpers.go), Outcome (outcome.go), Draft (the
--                verdict literals), Rules (rules/r010_... to rules/r999_...), Engine (engine.go and
--                rules/order.go), Evidence (what must stand on a timeline for a cause)
--   Assembly     internal/timeline: the assembler, with Compare and Texts for its sorts
--                (assembler.go), and Replay (replay.go)
--   Clock        internal/clock: Ntp and Packet (packet.go), Query (query.go), Sampler (sampler.go),
--                Tracker (tracker.go), Backoff (backoff.go, and internal/source/beaconapi/backoff.go)
--   App          internal/app: StreamHealth (streamhealth.go), HeadFanout (headfanout.go),
--                EngineWindows and BlockTiming (blocktiming.go), ClockStamp (clocktracker.go)
--   Beacon       internal/source/beaconapi: Cache (the eviction in heads.go, canonical_roots.go and
--                attestation_bits.go), Spec (spec.go), Bitlist (bitlist.go), Committees
--                (attestation_bits.go), Roots (canonical_roots.go and payload.go), Inclusion
--                (`CheckInclusion` of blocks.go), Genesis (genesis.go)
--   Scrape       internal/source/promscrape: the Engine calls between two snapshots (engine.go)
--   HostMetrics  internal/source/hostmetrics: Cpu (cpu.go) and Pressure (pressure.go)
--   Tests        the theorems at concrete values
--
-- The collectors' observations and samples enter the assembler (`add_observation`, `add_sample`),
-- whose `build` passes them, sorted, to `new_timeline` of Domain; `analyze` of Rca reads the timeline
-- that it returns. Clock measures the offsets that the rules on clock trust read.
--
-- A method `Validate` that returns nil is `none`; an error is the sentinel that it wraps, and
-- `invalid` where the source formats a message with no sentinel. `Evaluate` of a rule is a function
-- `evaluate` into Option: `none` is the pair of nil and false. `Analyze` is `analyze`, and `analyze`
-- of the source, which takes the rules, is `analyze_with`. A record that the source copies and
-- changes is a new record; a method that changes its receiver returns the new one. A method under a
-- mutex is one step.
--
-- Numbers. A slot is a uint64: a natural number, with % 2^64 written out where the source can wrap
-- around. A duration is an int64: an integer (ℤ, over the native numbers), with wrap64 where the
-- source adds or multiplies and clamp64 where `time.Time.Sub` saturates. An instant counts
-- nanoseconds from Go's zero time and says whether its location is UTC; a monotonic reading is never
-- compared in this code. float64 is a parameter, `FloatOps`: the arithmetic, the comparisons,
-- `strconv.ParseFloat` and the literals. A theorem that needs a fact of it takes it as a hypothesis:
-- `FloatOrder`, a transitive and irreflexive order, and `RoundsEras`, the nearest integer to a
-- quotient by 2^32.
--
-- Loops are structural recursion, but for two on fuel. The eviction of a cache is `none` while it has
-- not ended within its fuel; one round more than the cache has entries is enough, since each round
-- but the last drops one. `decimal` divides as often as the number is large.
--
-- Texts. A kind, a cause, a source or another name outside its vocabulary is `other_...` with the
-- text. A formatted statement is the list of its parts (`Piece`), not their characters. A text that
-- is decoded byte by byte is the list of its bytes. The attributes of an observation are an
-- association list in the order in which the source's map is iterated, and so are the maps of the
-- assembler and of the caches; R-011's map of newest samples with its sorted keys is one list sorted
-- by key. `sort.SliceStable` is a stable insertion sort.
--
-- Parameters. What a node, a time server, a file or the clock answers is an argument, and so are
-- `math.Float64bits`, `math.Round`, subtraction on float64, the splitting of a host from a port,
-- `encoding/json` and `strconv.ParseFloat`.
--
-- Not modelled: the HTTP and event-stream clients, sockets, jitter and deadlines; the polling of
-- heads, the validation of blocks, peers and the fetch of genesis (internal/source/beaconapi); the
-- parsing of metric texts (internal/source/promscrape); the collection loop with its duty tracking and
-- the network baseline (internal/app); the store, the configuration file, the report and the exporter;
-- the command and the tools. They surround the parts above with I/O, storage and rendering. Left out
-- as well are the text of error messages and the copies of slices, which only a caller that mutates
-- its argument sees.
pub mod Prelude
pub mod Domain
pub mod Assembly
pub mod Clock
pub mod App
pub mod Scrape
pub mod Beacon
pub mod HostMetrics
pub mod Rca
pub mod Tests
