-- ===== src/Tests.antt =====
-- Runs of the model on small inputs, after the crate's own tests; the children apply the theorems to
-- the schedulers set up here.
mod Calls
mod Laws
mod Serving
mod Around
mod Threads
use firq.Scheduler.Blocking.Returns.{Respects}
use firq.Prelude.{
  get_elem?, take, min, All, ◌≢◌, ◌⊎◌, ◌-◌, ◌==◌, inl, inr, Bool, Bool-cases, leb, subst, some_eq,
  ℕ, ◌≤◌, ◌<◌, ◌+◌, ◌++◌, List, [], ◌∷◌, none, some, ◌≡◌, refl, ◌*◌, zero, suc, contains, insert,
  remove, arith, true, false, if◌then◌else◌, max, count, length, u64_max, i64_max,
}
use firq.Prelude.Int
use firq.Prelude.Int.{pos, ◌≤ℤ◌, ltb_ℤ}
use firq.Api.{
  Task, QueueTimeBucket, high, normal, SchedulerConfig, default_config, dequeued, DequeueResult,
  drain, cancelled, not_found, EnqueueWithHandleResult,
}
use firq.State.Dict
use firq.State.Ring
use firq.State.Ledger
use firq.State.Stats
use firq.State.Signal
use firq.State.TopTenants
use firq.State.Tenant
use firq.Scheduler.Core.{Scheduler, new, tick, instant_now}
use firq.Scheduler.Core
use firq.Scheduler.Counters
use firq.Scheduler.Shutdown
use firq.Scheduler.Quantum
use firq.Scheduler.Purge
use firq.Scheduler.Insert
use firq.Scheduler.Enqueue
use firq.Scheduler.Drop
use firq.Scheduler.Cancel
use firq.Scheduler.Dequeue
use firq.Scheduler.Policy.{Others, wait_for_slot}
use firq.Scheduler.Blocking.{dequeue_blocking_timeout}
use firq.State.Tenant.{TenantState, Shard}
use firq.Scheduler.Purge.{PurgedTenant, no_purge}
use firq.Scheduler.Valid.{IsValid}
use firq.Scheduler.Ringed.{IsRinged}
use firq.Scheduler.Start.{new-IsValid}
use firq.Scheduler.Steps.Active.{Reach-queued}
use firq.Scheduler.Steps.{Step, enqueues, dequeues, here, next, IsSound, Step-IsSound, Reach-new}
use firq.Scheduler.Dequeue.Fresh.{IsLater, Fresh, task_found, try_dequeue-Fresh}
use firq.Scheduler.Drop.Valid.{enqueue_drop_with_handle-IsValid}
use firq.Scheduler.Enqueue.Valid.{enqueue_reject_with_handle-IsValid}
use firq.Scheduler.Dequeue.Valid.{try_dequeue-IsValid}
use firq.Scheduler.Blocking.Returns.{Respects, dequeue_blocking_timeout-Returns}
use firq.Scheduler.Shutdown.Laws.{close_with_mode-IsValid, close_with_mode-max}
use firq.Scheduler.Closed.{Drains, try_dequeue-Drains}
use firq.Scheduler.Drop.Laws.{Displaces, drop_from_tenant-Displaces}
use firq.Scheduler.Cancel.Laws.{cancel-enqueue, cancel-cancel, cancel-slot}
use firq.Scheduler.Activity.{purge-push_entry}
use firq.State.Ring.Laws.{Pops, pop_front-Pops, items-push_back}
use firq.State.TopTenants.Laws.{length-observe, IsFalling, times, snapshot-IsFalling}
use firq.Scheduler.Snapshot
use firq.Scheduler.Snapshot.Laws.{samples, Covers, percentile-Covers}
use firq.Tower.Calls.{advance, lost, dropped, waiting, admitted}
use firq.Tower.Calls.Guard.{advance-guard}
use firq.Api
use firq.Scheduler.Active.{IsActive}
use firq.Scheduler.Steps.Active.{new-IsActive, Reach-IsActive}
use firq.Scheduler.Dequeue.Work.{IsFunded}
use firq.Scheduler.Dequeue.Rounds.{scheduler_work, Funded}
use firq.Scheduler.Dequeue.Serving.{attempts, Idle, attempts-Served}
use firq.Scheduler.Drop.Below.{enqueue_drop_with_handle-enqueue_reject_with_handle}
use firq.Async.{recv, dequeue_async}
use firq.Async.Receiver.{after, recv-dequeue_async}
use firq.Async.Stream
use firq.Async.Stream.{poll_all-items}
use firq.Semaphore.{Semaphore}
use firq.Async.Dispatcher
use firq.Async.Dispatcher.Bounds.{run-bounds}
use Prim.Native.String.{String}
use firq.Prometheus
use firq.Prometheus.Buckets.{bucket_lines-samples}
use firq.Tower.Worker
use firq.Tower.Worker.Permits.{run-in_flight_active}
use firq.Bench.Fifo
use firq.Bench.Fifo.Order.{started, run-order}

-- What a run computes with.
program : Unit {0}
unfolding contains insert remove Int.as_i64 Int.wrap_i64 Int.add_i64 Int.sub_i64 Int.◌+ℤ◌ Int.◌-ℤ◌
    Dict.lookup Dict.insert Dict.delete Ring.new Ring.len Ring.is_empty Ring.push_back
    Ring.pop_front Ledger.new Ledger.try_reserve_slot Ledger.release_reserved_slots
    Ledger.next_handle Ledger.register_pending Ledger.take_pending Ledger.mark_cancelled
    Ledger.take_cancelled_marker Ledger.clear_cancelled_marker Stats.new Signal.new
    Signal.notify_all TopTenants.new TopTenants.observe TopTenants.record_entries Tenant.new_tenant
    Tenant.total_len Tenant.new_shard Tenant.rings_empty Core.new Core.shard_index Core.shard_at
    Core.put_shard Core.activate_shard Core.notify_all Core.is_expired Counters.record_reject
    Counters.record_policy_drop Counters.record_dequeue Counters.record_queue_time
    Shutdown.is_accepting_enqueues Shutdown.should_return_closed Quantum.quantum_for
    Purge.purge_front Purge.side_scan Purge.purge_queue_with_budget Purge.purge_level
    Purge.purge_tenant_with_budget Purge.record_enqueue_purge_stats Purge.purge_tenant_for_enqueue
    Purge.is_tenant_near_limit Purge.purge_reason Purge.run_purge
    Purge.maybe_purge_tenant_before_enqueue Insert.tenant_entry Insert.write_back Insert.reserve
    Insert.push_entry Insert.commit Insert.admit Enqueue.purge_if_full Enqueue.settle
    Enqueue.enqueue_try_reject Enqueue.enqueue_reject_with_handle Drop.pop_back Drop.take_entry
    Drop.drop_first Drop.drop_from_tenant Drop.forget_dropped Drop.settle_drop Drop.reuse_or_reserve
    Drop.at_limit Drop.enqueue_drop_with_handle Cancel.cancel Dequeue.drop_dead
    Dequeue.record_expired Dequeue.dispatch Dequeue.take_front Dequeue.serve Dequeue.visit_tenant
    Dequeue.visit Dequeue.search_ring Dequeue.search_levels Dequeue.try_dequeue_from_shard
    Dequeue.put_searched Dequeue.give_up Dequeue.search_shards Dequeue.try_dequeue
program = tt

-- A clock that moves on by ten at each reading.
abbrev ticking : ℕ → ℕ
ticking k = k * 10

abbrev task_of : ℕ → Task ℕ
task_of payload = record {
  payload = payload;
  enqueue_ts = 0;
  deadline = none;
  priority = normal;
  cost = 1;
}

abbrev fair_config : SchedulerConfig
fair_config = record default_config { quantum = 1; top_tenants_capacity = 0 }

abbrev enq : ℕ → ℕ → Scheduler ℕ → Scheduler ℕ
enq tenant payload s = (Enqueue.enqueue_reject_with_handle tenant (task_of payload) s).0

-- The payloads of the next `n` dequeues; an empty answer gives 0.
serve_order : ℕ → Scheduler ℕ → List ℕ
serve_order zero s = []
serve_order (suc n) s =
    let r = Dequeue.try_dequeue s in
    elim r.1 [ dequeued _ t ↦ t.payload ∷ serve_order n r.0 | _ ↦ 0 ∷ serve_order n r.0 ]

abbrev four : Scheduler ℕ
four = enq 2 4 (enq 2 3 (enq 1 2 (enq 1 1 (new ticking fair_config))))

-- `async_worker_receiver_observes_basic_fair_order`; each round of empty credit is an answer of its own.
fair_order : serve_order 6 four ≡ 0 ∷ 1 ∷ 3 ∷ 0 ∷ 2 ∷ 4 ∷ []
unfolding program serve_order
fair_order = refl

-- A scheduler with one task, and the same scheduler at work.
abbrev empty_scheduler : Scheduler ℕ
empty_scheduler = new ticking fair_config

abbrev one : Scheduler ℕ
one = enq 1 1 empty_scheduler

one_is_next : one.ledger.next_task_id ≡ 1
unfolding program
one_is_next = refl

empty_scheduler-IsSound : IsSound empty_scheduler
empty_scheduler-IsSound = new-IsValid ticking fair_config (omega arith)

one-Step : Step empty_scheduler one
unfolding program
one-Step = enqueues empty_scheduler 1 (task_of 1) (omega arith)

one-IsSound : IsSound one
one-IsSound = Step-IsSound one-Step empty_scheduler-IsSound

one_found :
    (ts : TenantState ℕ) × (Dict.lookup 1 (Core.shard_at one 0).tenants ≡ some ts)
    × (Tenant.is_empty ts.queues.second ≡ false)
unfolding program
one_found = (_, refl, refl)

-- No other thread acts.
abbrev alone : Others ℕ
alone k s = s

alone-Respects : Respects alone
alone-Respects k s h = (h, record { same = refl; later = omega arith })
