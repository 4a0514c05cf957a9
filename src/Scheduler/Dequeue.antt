-- ===== src/Scheduler/Dequeue.antt =====
-- Deficit round robin: `try_dequeue` over the active shards, and `try_dequeue_from_shard` over a
-- shard's active tenants.
pub mod Front
pub mod Visit
pub mod Fresh
pub mod Active
pub mod Reach
pub mod Work
pub mod Turns
pub mod Progress
pub mod Rounds
pub mod Serving
pub mod Valid
use firq.Prelude.{
  ℕ, zero, suc, ◌-◌, true, false, not, List, [], ◌∷◌, Option, none, some, ltb, ◌==◌, if◌then◌else◌,
  min, set, sat_add, u64_max, i64_max,
}
use firq.Prelude.Int.{ℤ, pos, ltb_ℤ, add_i64, sub_i64}
use firq.Api.{TenantKey, Instant, Priority, ordered, Task, DequeueResult, dequeued, empty, closed}
use firq.State.Dict
use firq.State.Ring
use firq.State.Ledger.{Ledger, take_pending, take_cancelled_marker, release_reserved_slots}
use firq.State.TopTenants
use firq.State.Tenant.{Shard, TenantState, QueueEntry, at, put, rings_empty, is_empty}
use firq.Scheduler.Core.{
  Scheduler, shutdown_immediate, instant_now, tick, is_expired, shard_at, put_shard, notify_all,
}
use firq.Scheduler.Counters.{record_dequeue}
use firq.Scheduler.Shutdown.{should_return_closed}

-- A queue whose dead front has been dropped, and how many live tasks had expired.
pub record Drained (T : Type 0) : Type 0 where
  pub queue : List (QueueEntry T)
  pub ledger : Ledger
  pub expired_count : ℕ

-- The state after one tenant's turn or a whole search of a shard, and the task found.
pub record Turn (T : Type 0) : Type 0 where
  pub scheduler : Scheduler T
  pub shard : Shard T
  pub result : Option (TenantKey × Task T)

module _ {T : Type 0} where
  -- The `while let` loop at the front of a queue. An expired live task gives its slot back at once.
  unfoldable pub drop_dead : Instant → List (QueueEntry T) → Ledger → ℕ → Drained T
  drop_dead now [] g n = record { queue = []; ledger = g; expired_count = n }
  drop_dead now (e ∷ queue) g n =
      let (marked, g') = take_cancelled_marker e.id g in
      let (live, g'') = take_pending e.id g' in
      elim marked [
        | true ↦ drop_dead now queue g' n
        | false ↦ elim (is_expired e.task.deadline now) [
          | true ↦
              drop_dead now queue (if live then release_reserved_slots 1 g'' else g'')
                (if live then sat_add n 1 else n)
          | false ↦ record { queue = e ∷ queue; ledger = g'; expired_count = n }
        ]
      ]

  -- The counters and the wake-up for the tasks that had expired.
  unfoldable pub record_expired : ℕ → Scheduler T → Scheduler T
  record_expired n s =
      if ltb 0 n
      then notify_all (record s { stats = record s.stats { expired = sat_add s.stats.expired n } })
      else s

  abbrev pub put_tenant : TenantKey → TenantState T → Shard T → Shard T
  put_tenant tenant ts shard = record shard { tenants = Dict.insert tenant ts shard.tenants }

  abbrev pub push_ring : Priority → TenantKey → Shard T → Shard T
  push_ring p tenant shard = record shard {
    active_rings = put shard.active_rings p (Ring.push_back (at shard.active_rings p) tenant);
  }

  -- A turn that finds nothing to dispatch.
  abbrev pub skip : Scheduler T → Shard T → Turn T
  skip s shard = record { scheduler = s; shard = shard; result = none }

  -- The end of a turn that dispatches a task: its counters, its slot, and the waiters.
  unfoldable pub dispatch : TenantKey → Task T → Scheduler T → Scheduler T
  dispatch tenant task s =
      let s' = notify_all (record s { ledger = release_reserved_slots 1 s.ledger }) in
      let queue_time_ns = min (instant_now s' - task.enqueue_ts) u64_max in
      record (tick s') {
        stats = record_dequeue queue_time_ns s'.stats;
        top_tenants = TopTenants.observe s'.top_tenants tenant 1;
      }

  -- The cost in `i64`, capped at the largest value.
  abbrev pub capped_cost : Task T → ℤ
  capped_cost task = pos (min task.cost i64_max)

  -- The front entry leaves its queue; it is dispatched if it is pending and not cancelled.
  unfoldable pub take_front :
      Priority
      → TenantKey
      → QueueEntry T
      → List (QueueEntry T)
      → TenantState T
      → Scheduler T
      → Shard T
      → Turn T
  take_front p tenant e rest ts s shard =
      let popped = record ts {
        queues = put ts.queues p rest;
        active = if is_empty rest then put ts.active p false else ts.active;
      } in
      let shard' = if is_empty rest then shard else push_ring p tenant shard in
      let (marked, g) = take_cancelled_marker e.id s.ledger in
      let (live, g') = take_pending e.id g in
      if marked
      then skip (record s { ledger = g }) (put_tenant tenant popped shard')
      else if not live
      then skip (record s { ledger = g' }) (put_tenant tenant popped shard')
      else record {
        scheduler = dispatch tenant e.task (record s { ledger = g' });
        shard =
            put_tenant tenant
              (record popped {
                deficits = put ts.deficits p (sub_i64 (at ts.deficits p) (capped_cost e.task));
              })
              shard';
        result = some (tenant, e.task);
      }

  -- The turn once the dead front is gone: an empty queue makes the tenant inactive, a task beyond
  -- the deficit earns it a quantum, and any other leaves the queue.
  unfoldable pub serve :
      Priority → TenantKey → List (QueueEntry T) → TenantState T → Scheduler T → Shard T → Turn T
  serve p tenant [] ts s shard =
      skip s (put_tenant tenant (record ts { active = put ts.active p false }) shard)
  serve p tenant (e ∷ rest) ts s shard =
      if ltb_ℤ (at ts.deficits p) (capped_cost e.task)
      then skip s (
          push_ring p tenant (
            put_tenant tenant
              (record ts { deficits = put ts.deficits p (add_i64 (at ts.deficits p) ts.quantum) })
              shard))
      else take_front p tenant e rest ts s shard

  -- The turn of a tenant that has left the front of its ring.
  unfoldable pub visit_tenant :
      Priority → TenantKey → TenantState T → Scheduler T → Shard T → Turn T
  visit_tenant p tenant ts s shard =
      let now = instant_now s in
      let drained = drop_dead now (at ts.queues p) s.ledger 0 in
      serve p tenant drained.queue (record ts { queues = put ts.queues p drained.queue })
        (record_expired drained.expired_count (record (tick s) { ledger = drained.ledger })) shard

  -- A tenant that has no state is passed over.
  unfoldable pub visit : Priority → TenantKey → Scheduler T → Shard T → Turn T
  visit p tenant s shard = elim (Dict.lookup tenant shard.tenants) [
    | none ↦ skip s shard
    | some ts ↦ visit_tenant p tenant ts s shard
  ]

  -- The rounds left over one ring.
  unfoldable pub search_ring : ℕ → Priority → Scheduler T → Shard T → Turn T
  search_ring zero p s shard = skip s shard
  search_ring (suc n) p s shard = elim (Ring.pop_front (at shard.active_rings p)) [
    | none ↦ skip s shard
    | some (tenant, ring) ↦
        let turn =
          visit p tenant s (record shard { active_rings = put shard.active_rings p ring }) in
        elim turn.result [ some _ ↦ turn | none ↦ search_ring n p turn.scheduler turn.shard ]
  ]

  -- The loop over the priorities.
  unfoldable pub search_levels : List Priority → Scheduler T → Shard T → Turn T
  search_levels [] s shard = skip s shard
  search_levels (p ∷ ps) s shard =
      let turn = search_ring (Ring.len (at shard.active_rings p)) p s shard in
      elim turn.result [ some _ ↦ turn | none ↦ search_levels ps turn.scheduler turn.shard ]

  unfoldable pub try_dequeue_from_shard : Scheduler T → Shard T → Turn T
  try_dequeue_from_shard = search_levels ordered

  -- The shard written back after its search: it stays active while a ring holds a tenant.
  unfoldable pub put_searched : ℕ → Turn T → Scheduler T
  put_searched i turn =
      let s = put_shard turn.scheduler i turn.shard in
      if rings_empty turn.shard
      then record s { shard_active = set s.shard_active i false }
      else record s { active_shards = Ring.push_back s.active_shards i }

  -- What is returned when no shard gave a task.
  unfoldable pub give_up : Scheduler T → Scheduler T × DequeueResult T
  give_up s = (s, if should_return_closed s then closed else empty)

  -- The rounds that remain over the active shards.
  unfoldable pub search_shards : ℕ → Scheduler T → Scheduler T × DequeueResult T
  search_shards zero s = give_up s
  search_shards (suc n) s = elim (Ring.pop_front s.active_shards) [
    | none ↦ give_up s
    | some (i, ring) ↦
        let s' = record s { active_shards = ring } in
        let turn = try_dequeue_from_shard s' (shard_at s' i) in
        elim turn.result [
          | some (tenant, task) ↦ (put_searched i turn, dequeued tenant task)
          | none ↦ search_shards n (put_searched i turn)
        ]
  ]

  unfoldable pub try_dequeue : Scheduler T → Scheduler T × DequeueResult T
  try_dequeue s =
      if s.shutdown_state == shutdown_immediate
      then (s, closed)
      else search_shards (Ring.len s.active_shards) s
