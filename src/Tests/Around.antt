-- ===== src/Tests/Around.antt =====
-- The layers around a scheduler at small states.
use firq.Tests.{program}
use firq.Prelude.{
  get_elem?, take, min, ◌-◌, ◌==◌, leb, ℕ, ◌≤◌, ◌+◌, ◌++◌, List, [], ◌∷◌, none, some, ◌≡◌, refl,
  arith, true, if◌then◌else◌, max, length, u64_max,
}
use firq.Api.{QueueTimeBucket, dequeued, DequeueResult}
use firq.Scheduler.Snapshot.Laws.{samples}
use firq.Async.{Join, completed, recv, dequeue_async}
use firq.Async.Receiver.{after, recv-dequeue_async}
use firq.Async.Stream
use firq.Async.Stream.{poll_all-items}
use firq.Semaphore.{Semaphore}
use firq.Async.Dispatcher
use firq.Async.Dispatcher.Bounds.{run-bounds}
use Prim.Native.String.{String}
use firq.Prometheus
use firq.Prometheus.Buckets.{bucket_lines-samples}
use firq.Tower.Worker
use firq.Tower.Worker.Permits.{run-in_flight_active}
use firq.Tower.Worker.Watched.{IsCalm}
use firq.Tower.Worker.Shutdown.{run-stopped}
use firq.Scheduler.Shutdown
use firq.Bench.Fifo
use firq.Bench.Fifo.Order.{started, run-order}
use firq.Tests.{task_of, one, alone, empty_scheduler}

abbrev always : ℕ → Join ℕ
always k = completed

recv-dequeue_async_example :
    recv alone always 1 1 0 (record { inner = one })
    ≡ after (dequeue_async alone (always 0) 1 (record { inner = one }))
recv-dequeue_async_example = recv-dequeue_async alone always 1 0 0 (record { inner = one })

abbrev polls : List (Stream.Poll (DequeueResult ℕ))
polls =
    Stream.pending
    ∷ Stream.ready (dequeued 1 (task_of 1))
    ∷ Stream.ready DequeueResult.empty
    ∷ Stream.pending
    ∷ []

poll_all-items_example :
    (Stream.items polls Stream.new ≡ Stream.tasks polls)
    × ((Stream.poll_all polls Stream.new).started
        ≡ Stream.answered polls + Stream.in_flight (Stream.poll_all polls Stream.new))
poll_all-items_example = poll_all-items polls

-- A semaphore that counts.
counting : Semaphore
counting = record {
  State = ℕ;
  new = λ n. n;
  available = λ st. st;
  acquire = λ n st. if leb n st then some (st - n) else none;
  release = λ n st. st + n;
  new-available = λ n. refl;
  acquire-available = λ n st st' e. ground (arith, e);
  acquire-waits = λ n st e. ground (arith, e);
  release-available = λ n st. refl;
}

abbrev dispatches : List (Dispatcher.DispatchEvent ℕ)
dispatches =
    Dispatcher.answered (dequeued 1 (task_of 1))
    ∷ Dispatcher.polled_permit
    ∷ Dispatcher.answered (dequeued 1 (task_of 2))
    ∷ Dispatcher.polled_permit
    ∷ []

run-bounds_example :
    let d = Dispatcher.run dispatches (Dispatcher.new {sem = counting} 1) in
    (length d.running ≤ max 1 1)
    × (d.phase ≡ Dispatcher.finished → d.running ≡ [])
    × (d.running ≡ [] → (Dispatcher.drain d).phase ≡ Dispatcher.finished)
run-bounds_example = run-bounds counting 1 dispatches (omega arith)

abbrev one_digit : ℕ → String
one_digit n = if n == 0 then "0" else "1"

abbrev two_buckets : List QueueTimeBucket
two_buckets = record { le_ns = 10; count = 1 } ∷ record { le_ns = 20; count = 0 } ∷ []

bucket_lines-samples_example :
    get_elem? (Prometheus.bucket_lines one_digit "firq" 0 two_buckets) 1
    ≡ some (Prometheus.bucket_line one_digit "firq" 20 (min (samples (take 2 two_buckets)) u64_max))
bucket_lines-samples_example = bucket_lines-samples one_digit "firq" 1 two_buckets _ refl

abbrev worker_events : List (Worker.WorkerEvent ℕ)
worker_events = Worker.tested ∷ Worker.searched ∷ Worker.polled_permit true ∷ Worker.tested ∷ []

run-in_flight_active_example :
    let w = Worker.run worker_events (Worker.new {sem = counting} one 2) in
    (Worker.in_flight_active w ≡ length w.running) × (length w.running ≤ max 2 1)
run-in_flight_active_example = run-in_flight_active counting one 2 worker_events

-- The layer is dropped while the worker sleeps.
abbrev shutdown_events : List (Worker.WorkerEvent ℕ)
shutdown_events = Worker.tested ∷ Worker.searched ∷ Worker.layer_dropped ∷ []

abbrev idle_worker : Worker.LayerWorker counting ℕ
idle_worker = Worker.new {sem = counting} empty_scheduler 2

asleep : (Worker.run (Worker.tested ∷ Worker.searched ∷ []) idle_worker).phase ≡ Worker.sleeping 0
unfolding program Worker.run Worker.advance Worker.search Worker.take_answer Worker.new
asleep = refl

shutdown_IsCalm : IsCalm shutdown_events idle_worker
unfolding program Worker.run Worker.advance Worker.search Worker.take_answer Worker.new
    Worker.drop_worker Shutdown.close_immediate Shutdown.set_shutdown_mode Shutdown.next_shutdown
shutdown_IsCalm = (omega arith, tt, (omega arith, tt, (omega arith, tt, tt)))

shutdown_flag : (Worker.run shutdown_events idle_worker).shutdown ≡ true
unfolding program Worker.run Worker.advance Worker.search Worker.take_answer Worker.new
    Worker.drop_worker Shutdown.close_immediate Shutdown.set_shutdown_mode Shutdown.next_shutdown
shutdown_flag = refl

run-stopped_example :
    let w = Worker.run shutdown_events idle_worker in
    let end =
      Worker.run
        (Worker.woken ∷ Worker.tested ∷ Worker.searched ∷ Worker.polled_permit true ∷ [])
        w in
    (end.phase ≡ Worker.stopped) × (end.running ≡ w.running)
run-stopped_example =
    run-stopped counting empty_scheduler 2 shutdown_events true shutdown_IsCalm shutdown_flag

abbrev fifo_calls : List (Fifo.FifoCall ℕ)
fifo_calls =
    Fifo.enqueues (task_of 1)
    ∷ Fifo.enqueues (task_of 2)
    ∷ Fifo.dequeues
    ∷ Fifo.enqueues (task_of 3)
    ∷ []

run-order_example :
    let r = Fifo.run fifo_calls (started 1) in
    (r.given ++ r.fifo.queue ≡ r.accepted) × (length r.fifo.queue ≤ 1)
run-order_example = run-order 1 fifo_calls
