-- ===== src/Scheduler/Activity.antt =====
-- When a tenant enters the ring of a priority: `push_entry` after a purge that emptied its queue.
use firq.Prelude.{ℕ, ◌+◌, ◌≡◌, ◌∙◌, refl, sym, ap, false, arith, [], ◌∷◌, ◌++◌, count, count-append}
use firq.Api.{Instant, Priority, TenantKey}
use firq.State.Ring
use firq.State.Ring.Laws.{items-push_back}
use firq.State.Tenant.{TenantState, QueueEntry, Shard, at, at-put}
use firq.Scheduler.Purge.{PurgedTenant, purge_queue_with_budget, purge_level}
use firq.Scheduler.Insert.{push_entry}

module _ {T : Type 0} where
  -- A queue that a purge leaves empty is marked as inactive.
  purge_level-inactive :
      (now : Instant) (budget : ℕ) (p : Priority) (t : PurgedTenant T)
      → at (purge_level now budget p t).tenant_state.queues p ≡ []
      → at (purge_level now budget p t).tenant_state.active p ≡ false
  unfolding purge_level
  purge_level-inactive now budget p t h =
      let ts = t.tenant_state in
      let purged = purge_queue_with_budget now budget (at ts.queues p) t.ledger t.stats in
      let e : purged.queue ≡ [] = sym (at-put ts.queues p purged.queue) ∙ h in
      rw (e, at-put ts.active p false) refl

  push_entry-items :
      (e : QueueEntry T) (tenant : TenantKey) (shard : Shard T) (ts : TenantState T)
      → Ring.IsValid (at shard.active_rings e.task.priority)
      → at ts.queues e.task.priority ≡ []
      → at ts.active e.task.priority ≡ false
      → Ring.items (at (push_entry e tenant shard ts).0.active_rings e.task.priority)
        ≡ Ring.items (at shard.active_rings e.task.priority) ++ tenant ∷ []
  unfolding push_entry
  push_entry-items e tenant shard ts v q a =
      let p = e.task.priority in
      rw (q, a, at-put shard.active_rings p (Ring.push_back (at shard.active_rings p) tenant))
        (items-push_back (at shard.active_rings p) tenant v).0

  -- After a purge that leaves a tenant's queue empty, inserting a task of that priority adds the
  -- tenant to the priority's ring once more, where the ring is valid, however often it holds the
  -- tenant already.
  pub purge-push_entry :
      (now : Instant) (budget : ℕ) (t : PurgedTenant T) (e : QueueEntry T) (tenant : TenantKey)
      (shard : Shard T)
      → Ring.IsValid (at shard.active_rings e.task.priority)
      → at (purge_level now budget e.task.priority t).tenant_state.queues e.task.priority ≡ []
      → let ts = (purge_level now budget e.task.priority t).tenant_state in
        count tenant (Ring.items (at (push_entry e tenant shard ts).0.active_rings e.task.priority))
        ≡ count tenant (Ring.items (at shard.active_rings e.task.priority)) + 1
  purge-push_entry now budget t e tenant shard v h =
      let p = e.task.priority in
      let ts = (purge_level now budget p t).tenant_state in
      let items = Ring.items (at shard.active_rings p) in
      ap (count tenant)
        (push_entry-items e tenant shard ts v h (purge_level-inactive now budget p t h))
      ∙ (count-append tenant items (tenant ∷ []) ∙ ground arith)
