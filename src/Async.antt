-- ===== src/Async.antt =====
-- crates/firq-async/src/lib.rs: the async wrapper over a scheduler that all its clones share, and
-- the receiver. The shared scheduler is the state, passed on from call to call; what the runtime
-- does with a blocking task is a parameter.
pub mod Receiver
pub mod Stream
pub mod Worker
pub mod Dispatcher
use firq.Prelude.{ℕ, zero, suc, Bool, true, false, Option, none, some, map, if◌then◌else◌}
use firq.Api.{
  TenantKey, TaskHandle, Task, CloseMode, DequeueResult, dequeued, empty, closed, EnqueueResult,
  EnqueueWithHandleResult, CancelResult,
}
use firq.Scheduler.Core.{Scheduler}
use firq.Scheduler.Policy.{Others}
use firq.Scheduler.Policy
use firq.Scheduler.Cancel
use firq.Scheduler.Dequeue
use firq.Scheduler.Shutdown
use firq.Scheduler.Snapshot
use firq.Scheduler.Snapshot.{SchedulerStats}
use firq.Scheduler.Blocking.{dequeue_blocking}

pub record AsyncScheduler (T : Type 0) : Type 0 where
  pub inner : Scheduler T

pub record DequeueItem (T : Type 0) : Type 0 where
  pub tenant : TenantKey
  pub task : Task T

-- What becomes of a blocking task that the runtime is given: it ends, or it is cancelled or panics
-- and leaves the scheduler in some state.
pub data Join (T : Type 0) : Type 0 where
  completed : Join T
  failed : Scheduler T → Join T

module _ {T : Type 0} where
  -- The wrapper around the scheduler after a call, beside the call's answer.
  abbrev pub wrap : {A : Type 0} → Scheduler T × A → AsyncScheduler T × A
  wrap (s, answer) = (record { inner = s }, answer)

  abbrev pub wrap_some : {A : Type 0} → Option (Scheduler T × A) → Option (AsyncScheduler T × A)
  wrap_some none = none
  wrap_some (some r) = some (wrap r)

  unfoldable pub enqueue :
      Others T
      → ℕ
      → TenantKey
      → Task T
      → AsyncScheduler T
      → Option (AsyncScheduler T × EnqueueResult)
  enqueue others fuel tenant task a = wrap_some (Policy.enqueue others fuel tenant task a.inner)

  unfoldable pub enqueue_with_handle :
      Others T
      → ℕ
      → TenantKey
      → Task T
      → AsyncScheduler T
      → Option (AsyncScheduler T × EnqueueWithHandleResult)
  enqueue_with_handle others fuel tenant task a =
      wrap_some (Policy.enqueue_with_handle others fuel tenant task a.inner)

  unfoldable pub try_dequeue : AsyncScheduler T → AsyncScheduler T × DequeueResult T
  try_dequeue a = wrap (Dequeue.try_dequeue a.inner)

  unfoldable pub cancel : TaskHandle → AsyncScheduler T → AsyncScheduler T × CancelResult
  cancel handle a = wrap (Cancel.cancel handle a.inner)

  unfoldable pub stats : (ℕ → ℕ) → (ℕ → ℕ) → AsyncScheduler T → SchedulerStats
  stats target95 target99 a = Snapshot.stats target95 target99 a.inner

  unfoldable pub close_immediate : AsyncScheduler T → AsyncScheduler T
  close_immediate a = record { inner = Shutdown.close_immediate a.inner }

  unfoldable pub close : AsyncScheduler T → AsyncScheduler T
  close a = record { inner = Shutdown.close_immediate a.inner }

  unfoldable pub close_drain : AsyncScheduler T → AsyncScheduler T
  close_drain a = record { inner = Shutdown.close_drain a.inner }

  unfoldable pub close_with_mode : CloseMode → AsyncScheduler T → AsyncScheduler T
  close_with_mode mode a = record { inner = Shutdown.close_with_mode mode a.inner }

  unfoldable pub dequeue_async :
      Others T → Join T → ℕ → AsyncScheduler T → Option (AsyncScheduler T × DequeueResult T)
  dequeue_async others completed fuel a = wrap_some (dequeue_blocking others fuel a.inner)
  dequeue_async others (failed left) fuel a = some (record { inner = left }, closed)

  -- The answer of `recv` to what a dequeue answers; none where it asks again.
  unfoldable pub item_of : DequeueResult T → Option (Option (DequeueItem T))
  item_of (dequeued tenant task) = some (some (record { tenant = tenant; task = task }))
  item_of closed = some none
  item_of empty = none

module _ {T : Type 0} (others : Others T) (joined : ℕ → Join T) where
  -- `AsyncReceiver::recv`, its loop at round `k`.
  unfoldable pub recv :
      ℕ → ℕ → ℕ → AsyncScheduler T → Option (AsyncScheduler T × Option (DequeueItem T))
  recv rounds zero k a = none
  recv rounds (suc fuel) k a = elim (dequeue_async others (joined k) rounds a) [
    | none ↦ none
    | some (a', result) ↦ elim (item_of result) [
      | some answer ↦ some (a', answer)
      | none ↦ recv rounds fuel (suc k) a'
    ]
  ]
