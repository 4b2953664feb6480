-- ===== src/Lib.antt =====
-- A model of the core of TrueNow's services, and the theorems that make it correct.
--
-- TrueNow is a real-time analytics pipeline. Requests enter by the gateway, which admits them by
-- per-tenant and global token buckets, queues them by priority, guards its backends by a circuit
-- breaker, routes them and tracks how fresh the data of each partition is. The rebalancer assigns
-- virtual shards to physical ones, in epochs: shards are split, merged and salted by its coordinator,
-- and keys find their shard by its hasher. The hot tier keeps recent data in ring buffers, the query
-- API plans what to read of it, the watermark service watches how far behind each table is, and the
-- autoscaler registers instances, gives them ports and decides how many of them there should be.
--
-- Files and the code they model:
-- - Breaker.antt: services/gateway/internal/circuit/breaker.go. The record CircuitBreaker has the
--   struct's fields, and call, allow_request, record_success, record_failure, transition_to,
--   get_metrics and reset are its methods. Breaker/ has the invariant of every history, what opens
--   the breaker (Trip), what closes it and the backoff (Recovery), and its counters (Accounting).
-- - Limiter.antt: services/gateway/internal/ratelimit/hierarchical.go. TokenBucket and
--   HierarchicalLimiter, with the 32 shards of the tenant map as a function from the shard's index.
--   Limiter/ has one bucket (Bucket), what it grants over time (Rate), the two levels together
--   (Tenants) and the calls that change limits (Limits).
-- - Backpressure.antt: services/gateway/internal/backpressure/queue.go. The three channels are lists,
--   and a call of Enqueue that waits for room stands in a list of its own until it goes on
--   (resume_normal, resume_low) or its context runs out (give_up_normal, give_up_low). Backpressure/
--   has the bookkeeping (Invariant), what becomes of each call (Calls) and what callers are told
--   (Answers).
-- - Watermark.antt: services/gateway/internal/watermark/tracker.go. Watermark/ has the walks over
--   partitions (Partitions), the order of the watermarks (Invariant) and each update (Updates).
-- - Router.antt: services/gateway/internal/routing/router.go. What the service discovery and the HTTP
--   client answer is part of each attempt. Router/ has the circuits of the instances (Circuits) and
--   the retries (Retries).
-- - Shedder.antt: services/gateway/internal/backpressure/shedding.go, with the random numbers as
--   arguments. Shedder/Laws.antt is about its decisions and counters.
-- - Hasher.antt: services/rebalancer/internal/hasher/hasher.go (ShardHasher). Hasher/Ring.antt is
--   ConsistentHashRing, Balance.antt RebalanceVirtualShards with shuffleMapping, and Jump.antt
--   JumpHash; Keys and Owner say which node a key falls to, and Panics what the shuffle does.
-- - Registry.antt: services/autoscaler/pkg/registry/memory.go (InMemoryRegistry), with its types
--   (Registry/Types.antt), its state and index by service (State), its watchers (Watchers), and what
--   it tells of a service (Queries). An instance is an object that its caller shares, a number in a
--   store. Members, Agree and Index are about the index, and Run about sequences of operations.
-- - WatermarkStore.antt: services/watermark-service/internal/store/store.go, with the types of
--   services/watermark-service/pkg/types/watermark.go (WatermarkStore/Types.antt). WatermarkStore/ has
--   the keys of tables (TableKey), the violations of objectives (Violations), what a table's
--   watermark is made of (Table), and the system's watermark and health (System).
-- - RingBuffer.antt: services/hot-tier/internal/ringbuffer/lockfree.go. RingBuffer/ has the mask of
--   positions (Mask), what each write leaves (Writes), and what is read after any writes (Reads).
-- - Ports.antt: services/autoscaler/pkg/controller/port.go. Ports/Laws.antt says which port is given.
-- - Threshold.antt: services/autoscaler/pkg/scaler/threshold.go. Threshold/Decision.antt says what an
--   evaluation recommends.
-- - Planner.antt: services/query-api/internal/planner/planner.go, from the fields of a request.
-- - Scaler.antt: services/autoscaler/pkg/scaler/engine.go (ScalingEngine), with the configuration of
--   services/autoscaler/pkg/types/config.go (Scaler/Config.antt), on the registry of Registry.antt;
--   Scaler/Decide.antt is what EvaluateService does with the metrics. Scaler/ has what a valid
--   configuration is (Validation), the numbers that a decision asks for (Bounds), the cooldowns
--   (Cooldown), and how the engine agrees with its own checks and with the threshold evaluator
--   (Agreement).
-- - Discovery.antt: services/gateway/internal/discovery/discovery.go (LocalDiscovery), with the
--   goroutines of a watcher as steps. Discovery/ has the round robin (Balance) and what closing does
--   to the channels (Watchers).
-- - Pressure.antt: services/autoscaler/pkg/backpressure/coordinator.go (BackpressureCoordinator), with
--   its levels and configuration in Pressure/Config.antt. Smoothing says which level is taken from a
--   history, and Ticks what the evaluation loop comes to.
-- - Detector.antt: services/rebalancer/internal/detector/detector.go (HotspotDetector), with the types
--   in Detector/Types.antt. Analysis.antt is AnalyzeDistribution and HotKeys.antt DetectHotKeys;
--   Window is about the history of a shard, Latest about what an analysis collects, and Shards about
--   the hot and the cold ones.
-- - Adaptive.antt: services/gateway/internal/backpressure/adaptive.go (AdaptiveController). Limits says
--   within which bounds the limits stay, by one move of a limit (Steps).
-- - Coordinator.antt: services/rebalancer/internal/coordinator/coordinator.go, with the types of
--   services/rebalancer/pkg/types/types.go. Coordinator/Epoch.antt prepares, validates and enters
--   epochs, Split.antt, Merge.antt and Salt.antt are the operations on them, and the other files
--   of Coordinator/ hold the proofs: who holds which virtual shard (Ownership, Pieces, Mapping),
--   what makes an epoch consistent (Transition) and what each operation does (SplitLaws,
--   PlannedSplit, MergeLaws, SaltLaws), by what becomes of its action (Actions) and what epoch it
--   makes (Division, MergeEpoch).
-- - Base.antt and Base/: tests, lists and maps over the native numbers, machine words, and the
--   interface of float64. Each component's Examples.antt applies its theorems to concrete states.
--
-- Integers of 64 and 32 bits are bit patterns, and wrap as the machine's do (Base/Word.antt). A
-- Go map is an association list, whose order stands for the order that a range over it takes;
-- where calls that follow each other give out what they find, each takes an order of its own, as
-- an argument (Discovery.antt). A float64 and the operations on it are parameters
-- (Base/Float.antt), as are the hash of the tenant map and the readings of the clock. Each loop
-- is structural over the list or the map that the code walks, but for two in Hasher/ with fuel:
-- JumpHash has one step more than buckets, which Hasher/Jump.antt shows to be enough, and the
-- rounds that hand out virtual shards have as many steps as shards left. The loops that compare
-- and swap an atomic value succeed at the first try, since an operation of a component runs
-- alone; where calls wait for each other, as at the request queue, the order of the steps is any
-- sequence of them.
--
-- Not modelled: logging, HTTP and gRPC handlers, generated protocol code, the monitor, the control
-- plane, the stream ingester, and the sketches of the hot tier, whose values are estimates; of the
-- autoscaler the cascades and the controllers of processes; of the query API all but its planner, and
-- of the watermark service all but its store; of the gateway the ingestion, the producer and the
-- validator; of the rebalancer the Maglev table of the hasher.
pub mod Adaptive
pub mod Backpressure
pub mod Base
pub mod Breaker
pub mod Coordinator
pub mod Detector
pub mod Discovery
pub mod Hasher
pub mod Limiter
pub mod Planner
pub mod Ports
pub mod Pressure
pub mod Registry
pub mod RingBuffer
pub mod Router
pub mod Scaler
pub mod Shedder
pub mod Threshold
pub mod Watermark
pub mod WatermarkStore
