-- ===== src/Lib.antt =====
-- Mnemon: the consolidation scheduler with the budget and the retries of its model calls, the registry
-- of open stores, the search of the memory graph, and the frames and the receipts between peers.
--
-- Parts. The AML server folds what users add to their memory in background jobs. Its scheduler
-- (internal/aml/scheduler.go) keeps the users with work, runs a job per user on its workers, lets
-- Searches hold users and lets Adds wait until a backlog falls. A job makes model calls. Each attempt
-- of a call (internal/memoryagent/resilience.go) reserves money of its provider's account in the
-- budget file (internal/memoryagent/budget.go), is sent, and settles or releases what it reserved;
-- attempts that fail are repeated under the policy of the call's class and the provider's retry budget.
--
-- A request reaches its user's store through the registry (internal/aml/registry.go), a cache of open
-- stores that closes one only when no request holds it. Within a store, insights are nodes of a graph
-- whose neighbourhoods are searched breadth first (internal/memory/graph/bfs.go). Apart from these, the
-- agency's peers exchange deliveries, receipts and Artifacts in frames
-- (internal/agency/peerlink/frame.go), which name them by digests (internal/agency/value.go); a signed
-- receipt settles the delivery that it answers (internal/agency/authority).
--
-- Files.
--   Prelude: names of the libraries, Boolean tests, lists, integers, maps and stores.
--   Scheduler/State, Locked, Ops, Views: the types of scheduler.go; the helpers that run under its
--     lock (retryDueLocked, firstUnheldLocked, forgetLocked, retryDelay and others); its operations
--     (Notify, WaitBacklog, Hold, Drain, Run, next, finish, Measured and others), one function for each
--     part between taking the lock and leaving it; and Status, StateOf and Backlog.
--   Scheduler/System: these parts as the steps of a concurrent system, taken in any order by any
--     callers, and the invariant of what it reaches.
--   Scheduler/Exclusion, Order, Outcomes, Pending, Draining, Wakeups, Backoff, Visible, Keeps: the
--     proofs, by what they are about.
--   Budget/State, Ops: the rows of the budget file and its transactions (SetCaps, reserveWithin,
--     settle, release).
--   Budget/Holds: SettleHolds, with its proofs.
--   Budget/Resolve, Sums, Balance, Reserve, CapSafety, Runs: the other proofs.
--   Resilience/Policies, Retries, Call: classPolicies with the delays and the tests on statuses;
--     retryBudget; and modelCall (attempt, spent, stop, result).
--   Resilience/Flight, Provider: how the request of an attempt ends and what becomes of its reservation
--     (exchange, broken, refused, meter, settleEstimate, release), and what an attempt takes of the
--     provider and gives back (admit, abort, run).
--   Resilience/Attempts: the attempts and the waits of a call, as the steps that the retry policy takes.
--   Resilience/Delays, Window, Ring, Bounds, Reports, Resolves, Permits: the proofs.
--   Registry/State, Ops, System: the entries and the registry; what acquire, the opener, release and
--     close do under the lock, with evictLocked and removeLocked; and these as steps of requests.
--   Registry/Invariant, Evict, Closing, Sound, Safety, Eviction: the proofs.
--   Graph/Bfs: BFS, its view of the store and the map of edges that newBFSView makes. Graph/Walks, Ends,
--     Results, Views: the proofs.
--   Peerlink/Hex, Digests, Frames, Streams: hexadecimal texts; ParseDigest, ParseDeliveryID and the texts
--     they read; the frames, frameToWire and wireToFrame with their checks; writeAll, writeFrame,
--     parseFrameWire and readFrame. Peerlink/Builds: the frames of deliveries, responses and requests.
--   Peerlink/Shapes, Accepts, Valid, Writes, Roundtrip, Reads, Canonical: the proofs.
--   Outbox/Settle: SettlePeerDelivery and expirePeerOutboxTx of internal/agency/authority, over the rows
--     of peer_outbox. Outbox/Receipts, Final: the proofs.
--   Scheduler/Examples, Budget/Examples, Resilience/Examples, Resilience/Flights, Registry/Examples,
--     Graph/Examples, Peerlink/Samples, Peerlink/Examples, Outbox/Examples: concrete runs on which the
--     theorems are used.
--
-- State. A Go object that several places share is a reference into a store (Prelude/Store): a
-- scheduled user is in the map, the queue and the retry heap at once. A Go map is an association list.
-- A closure that is called later (the release of a Hold) and a goroutine that sleeps (WaitBacklog) are
-- entries of the system's state. The change channel is a number: a channel of an earlier number is
-- closed. The clock, jitters, identifiers drawn and what a request brought back are arguments.
--
-- Bounds. Times are whole nanoseconds from 0, the zero time. The backlog of a user is an int64 that
-- wraps around; counters of objects in memory (holds, waiters, failures, the retry sequence) do not
-- wrap. A random number in [0, 1) is a multiple of 2⁻⁵³, and a product with it is rounded once,
-- exactly. Amounts of money are whole numbers of units of 10⁻¹², added exactly, where the code adds
-- float64 values: `held` and `spent` have no rounding residue here, which the code takes out only in
-- SettleHolds, and a reservation that fits the cap by the exact sum is admitted here where the code
-- may refuse it, as it does the hundredth of 0.01 under a cap of 1; a share of a cap is a number of
-- tenths. Two loops run on fuel: writeAll, a round for each byte, since a call of Write takes one or
-- more, and BFS, two rounds more than the store has insights, since a node is queued once. All
-- others are over a list or a fixed number of slots, or one round of them is a step. A frame's sizes
-- are below 2 ^ 32, and bytes are numbers.
--
-- Not modelled. Errors of SQLite, of the file system and of contexts that end within a transaction,
-- which the code rolls back and reports; the text of logs and errors; the observer's durations and
-- usage; a request whose goroutine panics; HTTP, the circuit breaker and the bulkheads, whose answers
-- are arguments; the wait of an attempt for its request, and the provider's close, but for what run
-- counts of it; Accounts of the budget; what opening and closing a store does, and the look for one on
-- disk; the SQL behind the graph's view; JSON, SHA-256 and UTF-8, which the frames take as a codec, and
-- Ed25519, whose signatures are an argument; parsing a receipt, an argument too; how deliveries are
-- queued; and the packages beside these files. The retry
-- policy of failsafe-go is a relation: it tries, asks stop, and tries again only when stop said no.
mod Prelude
pub mod Scheduler
pub mod Budget
pub mod Graph
pub mod Outbox
pub mod Peerlink
pub mod Registry
pub mod Resilience
