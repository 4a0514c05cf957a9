-- ===== src/Async/Dispatcher.antt =====
-- crates/firq-async/src/lib.rs: `Dispatcher`. The semaphore is tokio's: its operations and what
-- they promise are a parameter. What the scheduler, the semaphore and the handlers do arrives as
-- events, which `run` and the tasks that it spawns take one after the other.
pub mod Bounds
use firq.Prelude.{
  ℕ, zero, suc, ◌+◌, ◌%◌, ◌≤◌, ◌<◌, ◌≡◌, max, Bool, false, if◌then◌else◌, List, [], ◌∷◌, ◌++◌,
  Option, none, some,
}
use firq.Api.{DequeueResult, dequeued, empty, closed}
use firq.Async.{DequeueItem}
use firq.Semaphore.{Semaphore, remove_at}

-- Where `run` stands: at its dequeue, with an item that waits for a permit, waiting for all
-- permits after the loop, or done.
pub data Phase (T : Type 0) : Type 0 where
  dequeuing draining finished : Phase T
  acquiring : DequeueItem T → Phase T

-- What can happen: a dequeue answers, the wait for a permit is polled, a handler ends, the wait for
-- all permits is polled.
pub data DispatchEvent (T : Type 0) : Type 0 where
  answered : DequeueResult T → DispatchEvent T
  polled_permit polled_all : DispatchEvent T
  handled : ℕ → DispatchEvent T

module _ (sem : Semaphore) (T : Type 0) where
  -- `running` holds the items of the handlers that have not ended, each with its permit. No call of
  -- the dispatcher closes its semaphore.
  pub record Dispatcher : Type 0 where
    pub semaphore : sem.State
    pub semaphore_closed : Bool
    pub max_in_flight : ℕ
    pub phase : Phase T
    pub running : List (DequeueItem T)

abbrev pub u32_mod : ℕ
u32_mod = 4294967296

module _ {sem : Semaphore} {T : Type 0} where
  -- `Dispatcher::new`, at the start of `run`.
  unfoldable pub new : ℕ → Dispatcher sem T
  new max_in_flight = record {
    semaphore = sem.new (max max_in_flight 1);
    semaphore_closed = false;
    max_in_flight = max max_in_flight 1;
    phase = dequeuing;
    running = [];
  }

  -- The end of a handler, which drops its permit.
  unfoldable pub finish_handler : ℕ → Dispatcher sem T → Dispatcher sem T
  finish_handler k d = elim (remove_at k d.running) [
    | none ↦ d
    | some rest ↦ record d { running = rest; semaphore = sem.release 1 d.semaphore }
  ]

  -- The spawn of a handler once its permit is there. Where the semaphore is closed, the loop ends
  -- and the wait after it fails at once.
  unfoldable pub spawn : DequeueItem T → Dispatcher sem T → Dispatcher sem T
  spawn item d =
      if d.semaphore_closed
      then record d { phase = finished }
      else elim (sem.acquire 1 d.semaphore) [
        | none ↦ d
        | some st ↦ record d { semaphore = st; running = item ∷ d.running; phase = dequeuing }
      ]

  -- The wait for all permits, which are dropped at once. Their number is cast to `u32`.
  unfoldable pub drain : Dispatcher sem T → Dispatcher sem T
  drain d =
      let wanted = d.max_in_flight % u32_mod in
      if d.semaphore_closed
      then record d { phase = finished }
      else elim (sem.acquire wanted d.semaphore) [
        | none ↦ d
        | some st ↦ record d { semaphore = sem.release wanted st; phase = finished }
      ]

  -- One event; one that cannot happen in a phase changes nothing.
  unfoldable pub advance : DispatchEvent T → Phase T → Dispatcher sem T → Dispatcher sem T
  advance (handled k) phase d = finish_handler k d
  advance (answered (dequeued tenant task)) dequeuing d = record d {
    phase = acquiring (record { tenant = tenant; task = task });
  }
  advance (answered closed) dequeuing d = record d { phase = draining }
  advance (answered empty) dequeuing d = d
  advance polled_permit (acquiring item) d = spawn item d
  advance polled_all draining d = drain d
  advance e phase d = d

  unfoldable pub run : List (DispatchEvent T) → Dispatcher sem T → Dispatcher sem T
  run [] d = d
  run (e ∷ es) d = run es (advance e d.phase d)
