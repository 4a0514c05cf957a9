-- ===== src/Scheduler/Policy.antt =====
-- `enqueue_timeout_with_handle`, and the choice of a policy in `enqueue_with_handle`. `others k` is
-- what other threads do to the scheduler while round `k` of a waiting loop sleeps; a loop that has
-- used up its fuel gives `none`.
use firq.Prelude.{ℕ, zero, suc, ◌+◌, not, true, false, Option, none, some, leb, if◌then◌else◌}
use firq.Api.{
  Instant, Duration, TenantKey, Task, BackpressurePolicy, reject, drop_oldest_per_tenant,
  drop_newest_per_tenant, timeout, timed_out, EnqueueResult, EnqueueWithHandleResult,
}
use firq.Scheduler.Core.{Scheduler, instant_now, tick, backpressure_for}
use firq.Scheduler.Shutdown.{is_accepting_enqueues}
use firq.Scheduler.Insert.{reject_with}
use firq.Scheduler.Enqueue.{accepted, shut, refused, enqueue_try_reject, enqueue_reject_with_handle}
use firq.Scheduler.Drop.{oldest, newest, enqueue_drop_with_handle}

-- `enqueue` forgets the handle.
abbrev pub forget_handle : EnqueueWithHandleResult → EnqueueResult
forget_handle (EnqueueWithHandleResult.enqueued _) = EnqueueResult.enqueued
forget_handle (EnqueueWithHandleResult.rejected reason) = EnqueueResult.rejected reason
forget_handle EnqueueWithHandleResult.closed = EnqueueResult.closed

abbrev pub Others : Type 0 → Type 0
Others T = ℕ → Scheduler T → Scheduler T

module _ {T : Type 0} (others : Others T) where
  -- The loop until the deadline, at its round `k`. The second reading of the clock is the one from
  -- which the time to sleep is taken.
  unfoldable pub wait_for_slot :
      ℕ
      → ℕ
      → Instant
      → TenantKey
      → Task T
      → Scheduler T
      → Option (Scheduler T × EnqueueWithHandleResult)
  wait_for_slot zero k deadline tenant task s = none
  wait_for_slot (suc fuel) k deadline tenant task s =
      let (s', attempt) = enqueue_try_reject tenant task s in
      if not (is_accepting_enqueues s)
      then some (s, EnqueueWithHandleResult.closed)
      else elim attempt [
        | accepted handle ↦ some (s', EnqueueWithHandleResult.enqueued handle)
        | shut ↦ some (s', EnqueueWithHandleResult.closed)
        | refused returned _ ↦ elim (leb deadline (instant_now s')) [
          | true ↦
              some (reject_with timed_out (tick s'), EnqueueWithHandleResult.rejected timed_out)
          | false ↦ wait_for_slot fuel (suc k) deadline tenant returned (others k (tick (tick s')))
        ]
      ]

  unfoldable pub enqueue_timeout_with_handle :
      ℕ
      → TenantKey
      → Task T
      → Duration
      → Scheduler T
      → Option (Scheduler T × EnqueueWithHandleResult)
  enqueue_timeout_with_handle fuel tenant task wait s =
      wait_for_slot fuel 0 (instant_now s + wait) tenant task (tick s)

  unfoldable pub enqueue_with_policy :
      BackpressurePolicy
      → ℕ
      → TenantKey
      → Task T
      → Scheduler T
      → Option (Scheduler T × EnqueueWithHandleResult)
  enqueue_with_policy reject fuel tenant task s = some (enqueue_reject_with_handle tenant task s)
  enqueue_with_policy drop_oldest_per_tenant fuel tenant task s =
      some (enqueue_drop_with_handle oldest tenant task s)
  enqueue_with_policy drop_newest_per_tenant fuel tenant task s =
      some (enqueue_drop_with_handle newest tenant task s)
  enqueue_with_policy (timeout wait) fuel tenant task s =
      enqueue_timeout_with_handle fuel tenant task wait s

  unfoldable pub enqueue_with_handle :
      ℕ → TenantKey → Task T → Scheduler T → Option (Scheduler T × EnqueueWithHandleResult)
  enqueue_with_handle fuel tenant task s =
      enqueue_with_policy (backpressure_for s tenant) fuel tenant task s

  unfoldable pub enqueue :
      ℕ → TenantKey → Task T → Scheduler T → Option (Scheduler T × EnqueueResult)
  enqueue fuel tenant task s = elim (enqueue_with_handle fuel tenant task s) [
    | none ↦ none
    | some (s', result) ↦ some (s', forget_handle result)
  ]
