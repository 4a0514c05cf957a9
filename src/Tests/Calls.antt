-- ===== src/Tests/Calls.antt =====
-- The calls of a scheduler at small states.
use firq.Scheduler.Enqueue.Reasons.{Explains, enqueue_try_reject-Explains}
use firq.Prelude.{
  ℕ, ◌≤◌, ◌<◌, ◌+◌, [], ◌∷◌, some, ◌≡◌, refl, contains, arith, if◌then◌else◌, max, count, u64_max,
}
use firq.Prelude.Int.{pos}
use firq.Api.{high, normal, DequeueResult, drain, cancelled, not_found, EnqueueWithHandleResult}
use firq.State.Ring
use firq.State.Tenant
use firq.Scheduler.Core.{Scheduler, new, tick, instant_now}
use firq.Scheduler.Core
use firq.Scheduler.Shutdown
use firq.Scheduler.Quantum
use firq.Scheduler.Enqueue
use firq.Scheduler.Drop
use firq.Scheduler.Cancel
use firq.Scheduler.Dequeue
use firq.Scheduler.Blocking.{dequeue_blocking_timeout}
use firq.State.Tenant.{TenantState, Shard}
use firq.Scheduler.Valid.{IsValid}
use firq.Scheduler.Ringed.{IsRinged}
use firq.Scheduler.Steps.Active.{Reach-queued}
use firq.Scheduler.Steps.{dequeues, here, next, IsSound, Reach-new}
use firq.Scheduler.Dequeue.Fresh.{IsLater, Fresh, task_found, try_dequeue-Fresh}
use firq.Scheduler.Drop.Valid.{enqueue_drop_with_handle-IsValid}
use firq.Scheduler.Enqueue.Valid.{enqueue_reject_with_handle-IsValid}
use firq.Scheduler.Dequeue.Valid.{try_dequeue-IsValid}
use firq.Scheduler.Blocking.Returns.{dequeue_blocking_timeout-Returns}
use firq.Scheduler.Shutdown.Laws.{close_with_mode-IsValid, close_with_mode-max}
use firq.Scheduler.Closed.{Drains, try_dequeue-Drains}
use firq.Scheduler.Drop.Laws.{Displaces, drop_from_tenant-Displaces}
use firq.Scheduler.Cancel.Laws.{cancel-enqueue, cancel-cancel, cancel-slot}
use firq.Scheduler.Quantum.Laws.{IsSigned, entry_quantum, set_tenant_quantum-IsSigned}
use firq.Tests.{
  program, ticking, task_of, fair_config, one, one-Step, one-IsSound, one_found, alone,
  alone-Respects,
}

-- The theorems at these states.
Reach-new_example : IsValid (Dequeue.try_dequeue one).0
Reach-new_example =
    Reach-new ticking fair_config (Dequeue.try_dequeue one).0 (omega arith)
      (next (next here one-Step) (dequeues one))

Reach-queued_example :
    (0 < count 1 (Ring.items (Core.shard_at one 0).active_rings.second))
    × (count 0 (Ring.items one.active_shards) ≡ 1)
Reach-queued_example =
    Reach-queued ticking fair_config one 0 1 one_found.0 normal (omega arith) (next here one-Step)
      one_found.1 one_found.2

try_dequeue-Fresh_example :
    IsLater one.clock one.readings (Dequeue.try_dequeue one).0
    × Fresh one.clock one.readings
        (Dequeue.try_dequeue one).0.readings
        (task_found (Dequeue.try_dequeue one).1)
try_dequeue-Fresh_example = try_dequeue-Fresh one one-IsSound.0 one-IsSound.1

small_drop : one.ledger.next_task_id < u64_max
unfolding program
small_drop = omega arith

enqueue_drop_with_handle-IsValid_example :
    IsValid (Drop.enqueue_drop_with_handle Drop.newest 1 (task_of 2) one).0
enqueue_drop_with_handle-IsValid_example =
    enqueue_drop_with_handle-IsValid Drop.newest 1 (task_of 2) one one-IsSound.0 small_drop

enqueue_reject_with_handle-IsValid_example :
    IsValid (Enqueue.enqueue_reject_with_handle 1 (task_of 2) one).0
enqueue_reject_with_handle-IsValid_example =
    enqueue_reject_with_handle-IsValid 1 (task_of 2) one one-IsSound.0 small_drop

try_dequeue-IsValid_example :
    IsValid (Dequeue.try_dequeue one).0 × IsRinged (Dequeue.try_dequeue one).0
try_dequeue-IsValid_example = try_dequeue-IsValid one one-IsSound.0 one-IsSound.1

one_clock : one.clock ≡ ticking
unfolding program
one_clock = refl

ticking_passes : (k : ℕ) → 6 ≤ k → instant_now one + 50 ≤ one.clock k
unfolding program
ticking_passes k h = omega (arith, h)

dequeue_blocking_timeout-Returns_example :
    (r : Scheduler ℕ × DequeueResult ℕ) × (dequeue_blocking_timeout alone 7 50 one ≡ some r)
dequeue_blocking_timeout-Returns_example =
    dequeue_blocking_timeout-Returns alone 6 6 50 one alone-Respects one-IsSound ticking_passes
      (omega arith)

abbrev draining : Scheduler ℕ
draining = Shutdown.close_with_mode drain one

draining-IsSound : IsSound draining
draining-IsSound = close_with_mode-IsValid drain one one-IsSound.0 one-IsSound.1

draining_state : draining.shutdown_state ≡ 1
unfolding program Shutdown.close_with_mode Shutdown.set_shutdown_mode Shutdown.next_shutdown
draining_state = refl

try_dequeue-Drains_example : Drains (Dequeue.try_dequeue draining)
try_dequeue-Drains_example =
    try_dequeue-Drains draining draining-IsSound.0 draining-IsSound.1 draining_state

abbrev two_waiting : TenantState ℕ
two_waiting = record (Tenant.new_tenant (pos 1)) {
  queues = record {
    first = [];
    second = record { id = 1; task = task_of 1 } ∷ record { id = 2; task = task_of 2 } ∷ [];
    third = [];
  };
}

drop_from_tenant-Displaces_example :
    Displaces Drop.newest high two_waiting (Drop.drop_from_tenant Drop.newest high two_waiting)
drop_from_tenant-Displaces_example = drop_from_tenant-Displaces two_waiting Drop.newest high

accepted_one :
    (Enqueue.enqueue_reject_with_handle 1 (task_of 2) one).1 ≡ EnqueueWithHandleResult.enqueued 2
unfolding program
accepted_one = refl

cancel-enqueue_example :
    (Cancel.cancel 2 (Enqueue.enqueue_reject_with_handle 1 (task_of 2) one).0).1 ≡ cancelled
cancel-enqueue_example = cancel-enqueue 1 (task_of 2) one 2 accepted_one

cancel-cancel_example : (Cancel.cancel 1 (Cancel.cancel 1 one).0).1 ≡ not_found
cancel-cancel_example = cancel-cancel 1 one one-IsSound.0

cancel-slot_example :
    ((Cancel.cancel 1 one).1 ≡ (if contains 1 one.ledger.pending_ids then cancelled else not_found))
    × ((Cancel.cancel 1 one).0.ledger.queue_len_estimate
          + (if contains 1 one.ledger.pending_ids then 1 else 0)
        ≡ one.ledger.queue_len_estimate)
cancel-slot_example = cancel-slot 1 one one-IsSound.0

one_is_open : one.shutdown_state ≤ 2
unfolding program
one_is_open = omega arith

close_with_mode-max_example :
    (Shutdown.close_with_mode drain one).shutdown_state
    ≡ max one.shutdown_state (Shutdown.mode_target drain)
close_with_mode-max_example = close_with_mode-max drain one one_is_open

set_tenant_quantum-IsSigned_example :
    IsSigned 7 (entry_quantum (Quantum.set_tenant_quantum 1 7 one) 1)
set_tenant_quantum-IsSigned_example =
    set_tenant_quantum-IsSigned 1 7 one one-IsSound.0 (omega arith)

enqueue_try_reject-Explains_example : Explains 1 one (Enqueue.enqueue_try_reject 1 (task_of 2) one)
enqueue_try_reject-Explains_example = enqueue_try_reject-Explains 1 (task_of 2) one one-IsSound.0
