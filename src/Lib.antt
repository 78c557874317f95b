-- ===== src/Lib.antt =====
-- pacecache is a bounded in-process cache with exact LRU eviction per segment, expiration with an
-- optional sliding renewal, and coalesced loads. This library models its Go code and shows what its
-- operations do.
--
-- The parts and how they interact. A Cache (cache.go, lookup.go, set.go, delete.go) routes a key by
-- its hash to one of the independent segments of a storage (storage.go), reads the clock, computes
-- a lifetime and a deadline, forgets a load of the key that is in flight
-- (internal/singleflight/group.go) when it mutates, and calls the operation of the segment
-- (segment.go). A segment holds a map from keys to entries, an intrusive LRU list, and an
-- expiration index (expiration.go): buckets of entries by deadline, in a map by id and in a heap by
-- order. Cleanup pops due buckets; lookups check the exact deadline. A load (load.go) looks its key
-- up, joins or starts the call of the key in the group of the segment, and, if it owns the call,
-- runs the loader and publishes what that returned, unless a mutation has forgotten the call in the
-- meantime. The background worker (cleanup.go) cleans the segments up a quantum at a time. The
-- statistics (stats.go) are read from the segments and observed as metrics (extra/paceotel).
--
-- Which file models what:
-- Prelude, Prelude/*: tests, lists, the result type, Go maps, integers.
-- Chain, Chain/Edit: the doubly linked lists that segment.go and expiration.go both write out.
-- Lru, Lru/Order: pushFrontLocked, unlinkLocked and moveToFrontLocked of segment.go.
-- Clock, Clock/Bounds: the durations and deadlines of cache.go.
-- Expiration, Expiration/Buckets: bucketID and dueBucketID of expiration.go, and the interface
--   (IndexOps, IndexLaws) through which a segment uses the index.
-- Expiration/Heap and below: the bucket heap of expiration.go under container/heap.
--   Expiration/Lists and below: the lists of the buckets. Expiration/Index and below:
--   expirationIndex, its invariant Filed, and its laws.
-- Errors, Types: errors.go and the results of loads in types.go.
-- Stats: the counters of stats.go, and what is recorded of loads and deletions.
-- Segment: the state and the shared steps of segment.go; Segment/Lookup and Segment/Update: its
--   operations; Segment/Model: the abstract specification; Segment/Nodes and below, Shape and
--   Invariant: the invariant; Segment/Refines, Reads, Insert, Store, Removal and Cleanup: the
--   refinement of each operation.
-- Storage, Storage/Routing, At, Drain, Fresh: storage.go.
-- Options, Options/Valid: options.go.
-- Singleflight, Singleflight/Barrier, Fields: internal/singleflight/group.go: the map of calls,
--   what a call leaves and what its waiters get.
-- Cache: the operations of cache.go, lookup.go, set.go and delete.go; Cache/Valid: the invariant of
--   a cache; Cache/Steps, Publish, Removal, Clearing and Expired: its sets, deletions, clears and
--   manual cleanup.
-- Cache/Snapshot: the snapshot of stats.go. Cache/Load: the public methods of load.go on a whole
--   cache; Cache/Load/Stored and Overtaken: a load followed by a lookup, and a load that a mutation
--   of its key overtakes.
-- Loads: getOrLoad of load.go as the steps of a caller on one segment and its group. Loads/System:
--   callers and operations interleaved. Loads/Invariant and Moves: the invariant of calls and their
--   owners. Loads/Barrier, Agreement, Sound and Progress: what holds in every interleaving.
--   Loads/Lone, Alone and Early: a caller on its own.
-- Worker: a quantum of the background worker of cleanup.go. Worker/Sweep, Around, Batches, Passes,
--   Rounds and Quantum: what a quantum leaves. Worker/Scratch: the list that the passes reuse.
--   Worker/Lifecycle: StartCleanup, StopCleanup and the loop of run as a state machine.
-- Metrics: the registration of caches as sources of metrics in extra/paceotel/metrics.go;
--   Metrics/Instruments, Attributes and Observe: extra/paceotel/cache.go; Metrics/Registry: what
--   holds of the registrations.
-- Tests and below: the theorems at concrete inputs.
--
-- How the state is modelled. A pointer is a number and 0 is nil for entries; the links of an entry
-- and of a bucket are functions of the address, the other fields of an entry are in the memory
-- `cells` of its segment. A panic, a nil dereference and an index out of range are `panic`. An
-- operation that holds a lock from start to end is one function of the state. Times are nanoseconds
-- since the storage was created and are not negative, since the clock is monotonic; durations that
-- a caller may make negative are integers. Counters are unbounded. The counters of a segment are a
-- field of the segment, where the code passes a pointer to them with each call, and `none` is the
-- nil pointer. The value that an operation returns is `none` where the code returns the zero value.
-- A cache is one that is initialised: the early returns on one that is nil or not initialised are
-- left out, except for loads. An error is told apart by its identity. Keys have an equality that is
-- decidable and reflexive, so a Go key that differs from itself, such as one that holds a NaN, is
-- left out.
--
-- Interleavings. A step of a caller of getOrLoad is what it does under one lock, or what touches
-- nothing shared: a lookup under the mutex of the segment, StartCall and the publication under
-- state.mu, the end of DoCall under the mutex of the group, the wait. A mutation holds state.mu
-- from its Forget to its change of the segment, so it is one step; a lookup in between sees the
-- segment as it was before that step. What a caller reads of the world at a step, such as the
-- clock, its context and what its loader does, is in Env, and a theorem over all of them covers
-- each behaviour of the world. A worker of the cleanup has a number in place of its channel, and a
-- StopCleanup sends from the moment it has the lock, since no step of a worker depends on which of
-- the two comes first.
--
-- Fuel. The loops of container/heap run on fuel: a position, or the number of slots, which each
-- step brings closer to the end. The loop of cleanupExpired in segment.go runs on what is left of
-- its limit. The rounds of cleanupExpired in storage.go run on one more than the number of resident
-- entries, since each round but the last removes one. The batches of cleanupSingleSegment and the
-- rounds of cleanupSegments run on one more than the entry budget, since each of them but the last
-- uses up some of the budget. The bitwise and of segmentIndex runs on the 64 bits of a word.
--
-- Parameters. The hash of maphash, the random source of the jitter, slices.SortFunc, the readings
-- of the clock, the loader, the context, the meter of OpenTelemetry and its sets of attributes, the
-- choice of a select with two ready channels, and the answers of cleanupTimeBudgetExceeded are
-- arguments.
--
-- Not modelled: of extra/paceotel the options and the version, the descriptions, units and kinds of
-- instruments, and the conversion of durations to seconds; the benchmarks and the examples. Of the
-- core: Delete of several keys and Clear as interleaved steps on several segments, since each
-- segment sees its own part as one step; the snapshot of the statistics while other operations run;
-- the wrapping and the text of errors; the limits of memory, such as the panic of make for more
-- segments than fit; a loader that calls the cache again for its own key, which waits for itself.
pub mod Prelude
pub mod Chain
pub mod Lru
pub mod Clock
pub mod Stats
pub mod Expiration
pub mod Segment
pub mod Options
pub mod Storage
pub mod Singleflight
pub mod Cache
pub mod Tests
pub mod Types
pub mod Errors
pub mod Loads
pub mod Worker
pub mod Metrics
