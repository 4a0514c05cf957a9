-- ===== src/Lib.antt =====
-- firq: a fair scheduler for the tasks of many tenants. Producers enqueue tasks under a tenant's
-- key; consumers dequeue them by deficit round robin over the tenants, priority by priority, with
-- limits on the tasks held, deadlines, cancellation and two ways of closing.
--
-- The program's parts, and where they are modelled (paths are those of the repository):
--   crates/firq-core/src/api.rs: tasks, configuration and results. Api.antt.
--   crates/firq-core/src/state.rs: the state's parts. State.antt, with a child for each: Ring
--     (ActiveRing), Tenant (QueueEntry, TenantState, Shard), Stats (StatsCounters), TopTenants,
--     Signal (WorkSignal).
--   crates/firq-core/src/scheduler.rs: Scheduler.antt and its children. Core has the record and
--     `new`; Counters, Shutdown, Quantum and Purge the private methods of these names; Insert what
--     the enqueues share; Enqueue the policy Reject (enqueue_try_reject), Drop the two policies that
--     drop a task, Policy the policy Timeout and the choice of a policy; Cancel, Dequeue
--     (try_dequeue) and Blocking the calls of these names; Snapshot has `stats`.
--     State/Ledger.antt has the fields that count live tasks, with the methods that touch only them.
--   crates/firq-core/src/prometheus.rs: Prometheus.antt, the text of a snapshot.
--   crates/firq-async/src/lib.rs: Async.antt has the wrapper over a shared scheduler and the receiver;
--     Async/Stream.antt, Async/Worker.antt and Async/Dispatcher.antt the stream, the dequeue thread
--     and the dispatcher.
--   crates/firq-tower/src/builder.rs: Tower/Builder.antt. crates/firq-tower/src/lib.rs: Tower.antt
--     has the rejections, Tower/Calls.antt a call of the service: what the channel, the wrapped
--     service and the owner of the future do are events, and a call is a state machine over the
--     scheduler, with its guard that cancels. Tower/Worker.antt is the worker thread that hands
--     permits to the calls, with the rounds and the sleeps of its blocking dequeue, and its end.
--   crates/firq-bench/src/main.rs: Bench.antt (scenarios, histogram), Bench/Fifo.antt (the baseline
--     queue).
--   Semaphore.antt and Channel.antt are the interfaces of tokio's semaphore and bounded channel: their
--     operations with what they promise.
--
-- How state corresponds: a method on `&self` is a function from the scheduler to the scheduler and
-- the answer, for calls that run one after the other; a shard that is locked is taken out, worked on
-- and written back on every way out. `HashMap` is an association list (State/Dict.antt), `HashSet` a
-- list without repetition, `VecDeque` a list with its front first, an array indexed by priority a
-- record of three. A `u64` is a native number: saturating sums and casts to `i64` are written out
-- (Prelude.antt, Prelude/Int.antt), and the issue of handles wraps. `Instant::now()` is the next
-- reading of a clock that is a parameter. What other threads do while a call waits is a parameter
-- too.
--
-- How the proofs are laid out: State/Accounts.antt says when a ledger agrees with the queues;
-- Scheduler/Valid.antt is the invariant of the whole scheduler between calls,
-- Scheduler/Ringed.antt that of the ring of active shards; Holds and Commit carry the first
-- through one locked shard; each call's `Valid` and `Ringed` children show that it keeps them.
-- State/Marked.antt and Scheduler/Active.antt are a third invariant, that the tenant of a queued
-- task stands in its ring and its shard in the ring of active shards, which each call's `Active`
-- child carries (for a dequeue, Active and Reach); Standing reads it. Steps puts the calls
-- together as a step relation with its reachable states. Dequeue/Work.antt is a measure of what a
-- consumer has still to do; Turns, Progress and Rounds show that a tenant's turn, a shard's search
-- and a call that find no task lower it, and Serving that a consumer is served. Laws, Fresh,
-- Closed, Returns, Below, Reasons and Activity prove what single calls answer. Async/Worker/Order
-- and Ends, and Tower/Worker/Permits, Closing, Watched and Shutdown carry invariants through the
-- events of the two threads.
--
-- Bounds and fuel: the two waiting loops run on fuel and give `none` when it is used up; the fuel
-- that `dequeue_blocking_timeout` needs is the number of clock readings until its deadline, since
-- each round makes two. In `dequeue_blocking` a look at the work signal by a sleeping thread takes
-- a unit of fuel like a round. The threads of the async receiver and of the tower layer need no
-- fuel of their own: they are state machines over events. The searches of a ring and of the active
-- shards run for the length the ring had at their start, which is what the source does. Handles
-- are unique until 2 ^ 64 have been issued, and theorems about enqueues say that the last one
-- issued is smaller.
--
-- Not modelled: interleavings inside one call (each call is atomic, but for the rounds of waiting
-- loops and of the tower's worker); the joins of threads; floating-point numbers (the target of a
-- percentile and the text of a ratio are parameters); the condition variables, which belong to
-- parking_lot and the standard library (a waiter's test of the work signal is modelled); the
-- benchmark's threads and output, and the examples and tests.
pub mod Prelude
pub mod Api
pub mod State
pub mod Scheduler
pub mod Semaphore
pub mod Tower
pub mod Async
pub mod Prometheus
pub mod Bench
pub mod Channel
mod Tests
