-- ===== src/Tower/Worker.antt =====
-- crates/firq-tower/src/lib.rs: the worker thread of `FirqLayer::new` and `BackgroundWorker`. The
-- payload of a task is the sender on which its call waits. The thread's own steps, what the calls do
-- with their permits, what other threads do to the scheduler and the end of the layer arrive as
-- events.
pub mod Permits
pub mod Closing
pub mod Watched
pub mod Shutdown
use firq.Prelude.{
  ℕ, ◌-◌, max, Bool, true, false, List, [], ◌∷◌, Option, none, some, ltb, if◌then◌else◌,
}
use firq.Api.{Task, DequeueResult, dequeued, empty, closed}
use firq.Semaphore.{Semaphore, remove_at}
use firq.Scheduler.Core.{Scheduler}
use firq.State.Signal.{current, changed}
use firq.Scheduler.Shutdown.{close_immediate, should_return_closed}
use firq.Scheduler.Dequeue.{try_dequeue}

-- Where the thread stands: before the test of its flag, before a round of its blocking dequeue,
-- asleep in it until the work signal has changed from a number, with a task that waits for a permit,
-- or done.
pub data WorkerPhase (T : Type 0) : Type 0 where
  testing dequeuing stopped : WorkerPhase T
  sleeping : ℕ → WorkerPhase T
  acquiring : Task T → WorkerPhase T

-- The thread tests its flag; it makes a round of its dequeue; it wakes and looks at the work signal;
-- it polls for a permit, the call still being there or not; a call gives its permit back; the layer is
-- dropped; another thread acts on the scheduler.
pub data WorkerEvent (T : Type 0) : Type 0 where
  tested searched woken layer_dropped : WorkerEvent T
  polled_permit : Bool → WorkerEvent T
  returned : ℕ → WorkerEvent T
  acts : (Scheduler T → Scheduler T) → WorkerEvent T

module _ (sem : Semaphore) (T : Type 0) where
  -- `running` holds the tasks whose calls have a permit.
  pub record LayerWorker : Type 0 where
    pub scheduler : Scheduler T
    pub in_flight : sem.State
    pub in_flight_closed : Bool
    pub max_in_flight : ℕ
    pub shutdown : Bool
    pub phase : WorkerPhase T
    pub running : List (Task T)

module _ {sem : Semaphore} {T : Type 0} where
  unfoldable pub new : Scheduler T → ℕ → LayerWorker sem T
  new scheduler in_flight_limit = record {
    scheduler = scheduler;
    in_flight = sem.new (max in_flight_limit 1);
    in_flight_closed = false;
    max_in_flight = max in_flight_limit 1;
    shutdown = false;
    phase = testing;
    running = [];
  }

  -- `FirqLayer::in_flight_active`
  unfoldable pub in_flight_active : LayerWorker sem T → ℕ
  in_flight_active w = w.max_in_flight - sem.available w.in_flight

  -- What a round of the blocking dequeue answers. An empty one is followed by another while the
  -- estimate says that there are tasks, and by a sleep where it does not.
  unfoldable pub take_answer : ℕ → DequeueResult T → LayerWorker sem T → LayerWorker sem T
  take_answer observed (dequeued tenant task) w = record w { phase = acquiring task }
  take_answer observed closed w = record w { phase = stopped }
  take_answer observed empty w =
      if should_return_closed w.scheduler
      then record w { phase = stopped }
      else if ltb 0 w.scheduler.ledger.queue_len_estimate
      then record w { phase = dequeuing }
      else record w { phase = sleeping observed }

  -- A round of `dequeue_blocking`.
  unfoldable pub search : LayerWorker sem T → LayerWorker sem T
  search w =
      let observed = current w.scheduler.work_signal in
      let (s, result) = try_dequeue w.scheduler in
      take_answer observed result (record w { scheduler = s })

  -- The test of `wait_for_change`, before the thread sleeps and whenever it wakes.
  unfoldable pub wake : ℕ → LayerWorker sem T → LayerWorker sem T
  wake observed w =
      if changed w.scheduler.work_signal observed then record w { phase = dequeuing } else w

  -- A permit for a task: it goes to the call, or comes back where the call is gone.
  unfoldable pub hand_over : Bool → Task T → LayerWorker sem T → LayerWorker sem T
  hand_over call_there task w =
      if w.in_flight_closed
      then record w { phase = stopped }
      else elim (sem.acquire 1 w.in_flight) [
        | none ↦ w
        | some st ↦
            if call_there
            then record w { in_flight = st; phase = testing; running = task ∷ w.running }
            else record w { in_flight = sem.release 1 st; phase = testing }
      ]

  unfoldable pub give_back : ℕ → LayerWorker sem T → LayerWorker sem T
  give_back k w = elim (remove_at k w.running) [
    | none ↦ w
    | some rest ↦ record w { running = rest; in_flight = sem.release 1 w.in_flight }
  ]

  -- `BackgroundWorker::drop`, up to the join of the thread.
  unfoldable pub drop_worker : LayerWorker sem T → LayerWorker sem T
  drop_worker w = record w {
    shutdown = true;
    in_flight_closed = true;
    scheduler = close_immediate w.scheduler;
  }

  -- One event; one that cannot happen in a phase changes nothing.
  unfoldable pub advance : WorkerEvent T → WorkerPhase T → LayerWorker sem T → LayerWorker sem T
  advance tested testing w =
      if w.shutdown then record w { phase = stopped } else record w { phase = dequeuing }
  advance searched dequeuing w = search w
  advance woken (sleeping observed) w = wake observed w
  advance (polled_permit call_there) (acquiring task) w = hand_over call_there task w
  advance (returned k) phase w = give_back k w
  advance layer_dropped phase w = drop_worker w
  advance (acts action) phase w = record w { scheduler = action w.scheduler }
  advance e phase w = w

  unfoldable pub run : List (WorkerEvent T) → LayerWorker sem T → LayerWorker sem T
  run [] w = w
  run (e ∷ es) w = run es (advance e w.phase w)
