-- ===== src/Scheduler/Drop/Below.antt =====
-- Below both limits the policies that drop a task do what the policy `Reject` does.
use firq.Prelude.{
  ◌+◌, ℕ, zero, suc, ◌≤◌, ◌<◌, ◌≡◌, refl, true, false, Bool, ◌∙◌, sym, ap, List, [], ◌∷◌, arith,
  inl, inr, Bool-cases, none, some, Option, leb,
}
use firq.Api.{
  Instant, Priority, high, normal, low, TenantKey, Task, TaskHandle, EnqueueWithHandleResult,
}
use firq.State.Ledger.{
  Ledger, take_pending, take_cancelled_marker, release_reserved_slots, try_reserve_slot,
}
use firq.State.Tenant.{TenantState, QueueEntry, at, total_len}
use firq.Scheduler.Core.{Scheduler, shard_index, shard_at, notify_all, instant_now}
use firq.Scheduler.Shutdown.{is_accepting_enqueues}
use firq.Scheduler.Purge.{
  EnqueuePurgeReason, PurgeStats, PurgedTenant, no_purge, count_cancelled, count_expired,
  purge_front, side_scan, purge_queue_with_budget, purge_level, purge_tenant_with_budget,
  record_enqueue_purge_stats, purge_tenant_for_enqueue, side_scan_budget, run_purge, purge_reason,
  count_attempt, maybe_purge_tenant_before_enqueue,
}
use firq.Scheduler.Purge.Tenant.{total_len-purge_tenant, record_enqueue_purge_stats-Same}
use firq.Scheduler.Insert.{Admission, tenant_entry, admit, is_tenant_full, reserve, commit}
use firq.Scheduler.Enqueue.{
  EnqueueAttempt, accepted, purge_if_full, settle, enqueue_try_reject, enqueue_reject_with_handle,
}
use firq.Scheduler.Closed.{closed-enqueues}
use firq.Scheduler.Drop.{DropStrategy, settle_drop, reuse_or_reserve, enqueue_drop_with_handle}

-- A purge of queues leaves the estimate alone.
module _ {T : Type 0} (now : Instant) where
  estimate-purge_front :
      (queue : List (QueueEntry T)) (g : Ledger) (st : PurgeStats)
      → (purge_front now queue g st).ledger.queue_len_estimate ≡ g.queue_len_estimate
  unfolding purge_front take_pending take_cancelled_marker
  estimate-purge_front [] g st = refl
  estimate-purge_front (e ∷ queue) g st =
      let g'' = (take_pending e.id (take_cancelled_marker e.id g).1).1 in
      let live = (take_pending e.id (take_cancelled_marker e.id g).1).0 in
      ground (
        arith,
        estimate-purge_front queue g'' (count_cancelled live st),
        estimate-purge_front queue g'' (count_expired live st),
      )

  estimate-side_scan :
      (budget : ℕ) (queue : List (QueueEntry T)) (g : Ledger) (st : PurgeStats)
      → (side_scan now budget queue g st).ledger.queue_len_estimate ≡ g.queue_len_estimate
  unfolding side_scan take_pending take_cancelled_marker
  estimate-side_scan zero queue g st = refl
  estimate-side_scan (suc budget) [] g st = refl
  estimate-side_scan (suc budget) (e ∷ queue) g st =
      let g' = (take_cancelled_marker e.id g).1 in
      let g'' = (take_pending e.id g').1 in
      let live = (take_pending e.id g').0 in
      ground (
        arith,
        estimate-side_scan budget queue g'' (count_cancelled live st),
        estimate-side_scan budget queue g'' (count_expired live st),
        estimate-side_scan budget queue g' st,
      )

  estimate-purge_level :
      (budget : ℕ) (p : Priority) (t : PurgedTenant T)
      → (purge_level now budget p t).ledger.queue_len_estimate ≡ t.ledger.queue_len_estimate
  unfolding purge_level purge_queue_with_budget
  estimate-purge_level budget p t =
      let queue = at t.tenant_state.queues p in
      let front = purge_front now queue t.ledger t.stats in
      ground (
        arith,
        estimate-purge_front queue t.ledger t.stats,
        estimate-side_scan budget front.queue front.ledger front.stats,
      )

  pub estimate-purge_tenant :
      (budget : ℕ) (ts : TenantState T) (g : Ledger)
      → (purge_tenant_with_budget now budget ts g).ledger.queue_len_estimate ≡ g.queue_len_estimate
  unfolding purge_tenant_with_budget
  estimate-purge_tenant budget ts g =
      let t0 : PurgedTenant T = record { tenant_state = ts; ledger = g; stats = no_purge } in
      let t1 = purge_level now budget high t0 in
      let t2 = purge_level now budget normal t1 in
      omega (
        arith,
        estimate-purge_level budget high t0,
        estimate-purge_level budget normal t1,
        estimate-purge_level budget low t2,
      )

module _ {T : Type 0} where
  -- After the purge that precedes an enqueue, no more slots are taken than before.
  pub estimate-record_enqueue_purge_stats :
      (st : PurgeStats) (s : Scheduler T)
      → (record_enqueue_purge_stats st s).ledger.queue_len_estimate ≤ s.ledger.queue_len_estimate
  unfolding record_enqueue_purge_stats notify_all release_reserved_slots
  estimate-record_enqueue_purge_stats st s = ground arith

  pub run_purge-falls :
      (reason : Option EnqueuePurgeReason) (s : Scheduler T) (ts : TenantState T)
      → let purge = run_purge reason s ts in
        (purge.scheduler.ledger.queue_len_estimate ≤ s.ledger.queue_len_estimate)
        × (total_len purge.tenant_state ≤ total_len ts)
        × (purge.scheduler.config ≡ s.config)
  unfolding run_purge purge_tenant_for_enqueue total_len
  run_purge-falls none s ts = (omega arith, omega arith, refl)
  run_purge-falls (some reason) s ts =
      let now = instant_now s in
      let budget = side_scan_budget reason in
      let purged = purge_tenant_with_budget now budget ts s.ledger in
      let s' : Scheduler T = record s { readings = s.readings + 1; ledger = purged.ledger } in
      (
        omega (
          arith,
          estimate-record_enqueue_purge_stats purged.stats s',
          estimate-purge_tenant now budget ts s.ledger,
        ),
        omega (arith, total_len-purge_tenant now budget ts s.ledger),
        (record_enqueue_purge_stats-Same purged.stats s').config,
      )

  admit-falls :
      (s : Scheduler T) (ts : TenantState T)
      → let a = admit s ts in
        (a.scheduler.ledger.queue_len_estimate ≤ s.ledger.queue_len_estimate)
        × (total_len a.tenant_state ≤ total_len ts)
        × (a.scheduler.config ≡ s.config)
  unfolding admit maybe_purge_tenant_before_enqueue total_len
  admit-falls s ts = run_purge-falls (purge_reason s (count_attempt ts)) s (count_attempt ts)

  -- A slot is there below `max_global`.
  reserve-below :
      (ran : Bool) (s : Scheduler T) (ts : TenantState T)
      → s.ledger.queue_len_estimate < s.config.max_global
      → (reserve ran s ts).reserved ≡ true
  unfolding reserve try_reserve_slot
  reserve-below ran s ts lt =
      let e : leb s.config.max_global s.ledger.queue_len_estimate ≡ false = ground arith in
      rw e refl

  -- The two enqueues below both limits.
  module _ (tenant : TenantKey) (task : Task T) (s : Scheduler T)
      (few : total_len (tenant_entry s (shard_at s (shard_index s tenant)) tenant)
        < s.config.max_per_tenant)
      (free : s.ledger.queue_len_estimate < s.config.max_global) where
    abbrev admitted : Admission T
    admitted = admit s (tenant_entry s (shard_at s (shard_index s tenant)) tenant)

    abbrev inserted : Scheduler T × TaskHandle
    inserted =
        let r = reserve admitted.ran_full_purge admitted.scheduler admitted.tenant_state in
        commit (shard_index s tenant) (shard_at s (shard_index s tenant)) tenant r.tenant_state task
          r.scheduler

    roomy : is_tenant_full admitted.scheduler admitted.tenant_state ≡ false
    roomy =
        let falls = admit-falls s (tenant_entry s (shard_at s (shard_index s tenant)) tenant) in
        ground (arith, falls.1, falls.2)

    below :
        leb admitted.scheduler.config.max_global admitted.scheduler.ledger.queue_len_estimate
        ≡ false
    below =
        let falls = admit-falls s (tenant_entry s (shard_at s (shard_index s tenant)) tenant) in
        ground (arith, falls.0, falls.2)

    got : (reserve admitted.ran_full_purge admitted.scheduler admitted.tenant_state).reserved ≡ true
    got =
        reserve-below admitted.ran_full_purge admitted.scheduler admitted.tenant_state
          (ground (arith, below))

    drop_below :
        (strategy : DropStrategy)
        → is_accepting_enqueues s ≡ true
        → enqueue_drop_with_handle strategy tenant task s
          ≡ (inserted.0, EnqueueWithHandleResult.enqueued inserted.1)
    unfolding enqueue_drop_with_handle settle_drop reuse_or_reserve
    drop_below strategy c = rw (c, roomy, below, got) refl

    unpurged : purge_if_full admitted ≡ admitted
    unfolding purge_if_full
    unpurged = rw roomy refl

    try_below :
        is_accepting_enqueues s ≡ true
        → enqueue_try_reject tenant task s ≡ (inserted.0, accepted inserted.1)
    unfolding enqueue_try_reject settle
    try_below c = rw (c, unpurged, roomy, got) refl

    reject_below :
        is_accepting_enqueues s ≡ true
        → enqueue_reject_with_handle tenant task s
          ≡ (inserted.0, EnqueueWithHandleResult.enqueued inserted.1)
    unfolding enqueue_reject_with_handle
    reject_below c =
        rw (try_below c, enqueue_reject_with_handle)
          (ap
            (λ (r : Scheduler T × EnqueueAttempt T).
              (r.0, EnqueueWithHandleResult.enqueued inserted.1))
            (try_below c))

    -- Where the tenant holds fewer than `max_per_tenant` entries and the estimate of live tasks
    -- is below `max_global`, an enqueue under a policy that drops, with either strategy, does
    -- and answers exactly what the policy `reject` does.
    pub enqueue_drop_with_handle-enqueue_reject_with_handle :
        (strategy : DropStrategy)
        → enqueue_drop_with_handle strategy tenant task s ≡ enqueue_reject_with_handle tenant task s
    enqueue_drop_with_handle-enqueue_reject_with_handle strategy =
        elim (Bool-cases (is_accepting_enqueues s)) [
          | inl c ↦ drop_below strategy c ∙ sym (reject_below c)
          | inr c ↦ let shut = closed-enqueues tenant task strategy s c in shut.1 ∙ sym shut.0
        ]
