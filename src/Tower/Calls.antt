-- ===== src/Tower/Calls.antt =====
-- crates/firq-tower/src/lib.rs: `FirqService::call` and the future that it returns, as a state
-- machine. `T` is the payload, the sender on which the worker hands over a permit; what the sender, the
-- wrapped service and the owner of the future do arrives as events.
pub mod Guard
use firq.Prelude.{ℕ, ◌⊎◌, inl, inr, Option, none, some}
use firq.Api.{Instant, TenantKey, TaskHandle, Task, normal, EnqueueWithHandleResult}
use firq.Scheduler.Core.{Scheduler, instant_now, tick}
use firq.Scheduler.Cancel.{cancel}
use firq.Scheduler.Policy.{Others, enqueue_with_handle}
use firq.Tower.{FirqError, RejectionMapper}

-- The future: not polled yet, waiting for its permit behind the guard that cancels, running the
-- wrapped service with the guard disarmed, finished, or dropped.
pub data CallState (R E : Type 0) : Type 0 where
  admitted waiting : TaskHandle → CallState R E
  running abandoned : CallState R E
  finished : R ⊎ FirqError E → CallState R E

-- What can happen to it: a poll, the permit on its channel or the loss of its sender, the wrapped
-- service's answer, and a drop.
pub data CallEvent (R E : Type 0) : Type 0 where
  polled granted lost dropped : CallEvent R E
  responded : R ⊎ E → CallEvent R E

abbrev pub deadline_of :
    {Request : Type 0} → Option (Request → Option Instant) → Request → Option Instant
deadline_of none req = none
deadline_of (some extractor) req = extractor req

-- The answer of the wrapped service, its error wrapped.
abbrev pub wrap : {R E : Type 0} → R ⊎ E → R ⊎ FirqError E
wrap (inl r) = inl r
wrap (inr e) = inr (FirqError.service e)

module _ {R E : Type 0} where
  -- What is returned at once, from the answer of the enqueue.
  unfoldable pub admit_call : RejectionMapper → EnqueueWithHandleResult → CallState R E
  admit_call mapper (EnqueueWithHandleResult.enqueued handle) = admitted handle
  admit_call mapper (EnqueueWithHandleResult.rejected reason) =
      finished (inr (FirqError.rejected (mapper reason)))
  admit_call mapper EnqueueWithHandleResult.closed = finished (inr FirqError.closed)

module _ {Request R E T : Type 0} where
  -- `call` up to the future; `none` where a waiting enqueue has used up its fuel.
  unfoldable pub call :
      Others T
      → ℕ
      → (Request → TenantKey)
      → Option (Request → Option Instant)
      → RejectionMapper
      → Request
      → T
      → Scheduler T
      → Option (Scheduler T × CallState R E)
  call others fuel extractor deadline_extractor mapper req tx s =
      let task : Task T = record {
        payload = tx;
        enqueue_ts = instant_now s;
        deadline = deadline_of deadline_extractor req;
        priority = normal;
        cost = 1;
      } in
      elim (enqueue_with_handle others fuel (extractor req) task (tick s)) [
        | none ↦ none
        | some (s', result) ↦ some (s', admit_call mapper result)
      ]

module _ {R E T : Type 0} where
  -- One event. The guard is made by the first poll, disarmed by the permit, and cancels when it is
  -- dropped armed. An event that cannot happen in a state changes nothing.
  unfoldable pub advance : CallEvent R E → CallState R E → Scheduler T → Scheduler T × CallState R E
  advance polled (admitted h) s = (s, waiting h)
  advance granted (waiting h) s = (s, running)
  advance lost (waiting h) s = ((cancel h s).0, finished (inr FirqError.permit_error))
  advance (responded r) running s = (s, finished (wrap r))
  advance dropped (waiting h) s = ((cancel h s).0, abandoned)
  advance dropped (admitted h) s = (s, abandoned)
  advance dropped running s = (s, abandoned)
  advance e c s = (s, c)
