-- ===== src/Tests/Serving.antt =====
-- A scheduler that is served, and one below its limits.
use firq.Prelude.{
  All, ◌≢◌, ◌⊎◌, ◌==◌, inl, inr, Bool-cases, subst, some_eq, ℕ, ◌≤◌, ◌<◌, ◌≡◌, refl, zero, suc,
  arith, i64_max,
}
use firq.Prelude.Int
use firq.Prelude.Int.{pos, ◌≤ℤ◌, ltb_ℤ}
use firq.Api.{
  Task, QueueTimeBucket, high, normal, SchedulerConfig, default_config, dequeued, DequeueResult,
  drain, cancelled, not_found, EnqueueWithHandleResult,
}
use firq.State.Tenant
use firq.Scheduler.Core.{Scheduler, new, tick, instant_now}
use firq.Scheduler.Core
use firq.Scheduler.Insert
use firq.Scheduler.Enqueue
use firq.Scheduler.Drop
use firq.State.Tenant.{TenantState, Shard}
use firq.Scheduler.Steps.{here, next}
use firq.Api
use firq.Scheduler.Active.{IsActive}
use firq.Scheduler.Steps.Active.{new-IsActive, Reach-IsActive}
use firq.Scheduler.Dequeue.Work.{IsFunded}
use firq.Scheduler.Dequeue.Rounds.{scheduler_work, Funded}
use firq.Scheduler.Dequeue.Serving.{attempts, Idle, attempts-Served}
use firq.Scheduler.Drop.Below.{enqueue_drop_with_handle-enqueue_reject_with_handle}
use firq.Tests.{
  program, ticking, task_of, fair_config, one, empty_scheduler-IsSound, one-Step, one-IsSound,
  one_found,
}

-- The new scheduler's and the busy one's queues are in reach, and its tenant is funded.
one-IsActive : IsActive one
one-IsActive =
    Reach-IsActive empty_scheduler-IsSound (new-IsActive ticking fair_config) (next here one-Step)

one_debts : (p : Api.Priority) → Int.neg_part (Tenant.at one_found.0.deficits p) ≤ i64_max
unfolding program one_found
one_debts high = omega arith
one_debts normal = omega arith
one_debts Api.low = omega arith

one_cheap :
    (p : Api.Priority)
    → All (λ (e : Tenant.QueueEntry ℕ). e.task.cost ≤ 1) (Tenant.at one_found.0.queues p)
unfolding program one_found
one_cheap high = tt
one_cheap normal = (omega arith, tt)
one_cheap Api.low = tt

one_tenant-IsFunded : IsFunded 1 one_found.0
unfolding program one_found
one_tenant-IsFunded = record {
  positive = omega arith;
  signed = refl;
  fits = omega arith;
  debts = one_debts;
  cheap = one_cheap;
}

one-Funded : Funded 1 one
unfolding program one_found
one-Funded zero tenant ts found = elim (Bool-cases (1 == tenant)) [
  | inl e ↦ subst (IsFunded 1) (some_eq one_found.0 ts (rw e at found)) one_tenant-IsFunded
  | inr e ↦ let missing = rw e at found in cc
]
one-Funded (suc i) tenant ts found = cc

attempts-Served_example :
    ((attempts (scheduler_work one) one).1 ≢ DequeueResult.empty)
    ⊎ Idle (attempts (scheduler_work one) one).0
attempts-Served_example = attempts-Served 1 one one-IsSound.0 one-IsSound.1 one-IsActive one-Funded

one_has_room :
    Tenant.total_len (Insert.tenant_entry one (Core.shard_at one (Core.shard_index one 1)) 1)
    < one.config.max_per_tenant
unfolding program
one_has_room = omega arith

one_is_below : one.ledger.queue_len_estimate < one.config.max_global
unfolding program
one_is_below = omega arith

enqueue_drop_with_handle-enqueue_reject_with_handle_example :
    Drop.enqueue_drop_with_handle Drop.oldest 1 (task_of 2) one
    ≡ Enqueue.enqueue_reject_with_handle 1 (task_of 2) one
enqueue_drop_with_handle-enqueue_reject_with_handle_example =
    enqueue_drop_with_handle-enqueue_reject_with_handle 1 (task_of 2) one one_has_room one_is_below
      Drop.oldest
