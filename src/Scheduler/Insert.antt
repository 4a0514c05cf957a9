-- ===== src/Scheduler/Insert.antt =====
-- What both enqueues share: a slot of the global limit, the insertion into a tenant's queue and
-- the end of the call. A method that locks a shard takes it out, works on it, and writes it back on
-- every way out.
use firq.Prelude.{
  ℕ, Bool, true, false, not, ◌&&◌, ◌||◌, [], ◌∷◌, ◌++◌, none, some, ltb, leb, if◌then◌else◌,
  sat_add,
}
use firq.Prelude.Int.{as_i64}
use firq.Api.{TenantKey, TaskHandle, Task, EnqueueRejectReason}
use firq.State.Dict
use firq.State.Ring
use firq.State.Ledger.{try_reserve_slot, next_handle, register_pending}
use firq.State.Tenant.{
  Shard, TenantState, QueueEntry, at, put, total_len, rings_empty, is_empty, new_tenant,
}
use firq.Scheduler.Core.{Scheduler, put_shard, activate_shard, notify_all}
use firq.Scheduler.Counters.{record_reject}
use firq.Scheduler.Quantum.{quantum_for}
use firq.Scheduler.Purge.{
  full, ran_full, purge_tenant_for_enqueue, maybe_purge_tenant_before_enqueue,
}

-- Whether a slot was reserved, with the state after the purge that may have made room.
pub record Reservation (T : Type 0) : Type 0 where
  pub reserved : Bool
  pub scheduler : Scheduler T
  pub tenant_state : TenantState T

-- A tenant's state after the limits have been looked at, and whether a full purge was made.
pub record Admission (T : Type 0) : Type 0 where
  pub scheduler : Scheduler T
  pub tenant_state : TenantState T
  pub ran_full_purge : Bool

module _ {T : Type 0} where
  -- `shard.tenants.entry(tenant).or_insert_with(..)`
  unfoldable pub tenant_entry : Scheduler T → Shard T → TenantKey → TenantState T
  tenant_entry s shard tenant = elim (Dict.lookup tenant shard.tenants) [
    | some ts ↦ ts
    | none ↦ new_tenant (as_i64 (quantum_for s tenant))
  ]

  -- The state of a tenant written back into its shard, and the shard into the scheduler.
  unfoldable pub write_back : ℕ → Shard T → TenantKey → TenantState T → Scheduler T → Scheduler T
  write_back i shard tenant ts s =
      put_shard s i (record shard { tenants = Dict.insert tenant ts shard.tenants })

  -- The call of `try_reserve_slot`.
  abbrev pub reserve_slot : Scheduler T → TenantState T → Reservation T
  reserve_slot s ts =
      let (reserved, g) = try_reserve_slot s.config.max_global s.ledger in
      record { reserved = reserved; scheduler = record s { ledger = g }; tenant_state = ts }

  -- A slot, if need be after a full purge of the tenant that has not been made yet.
  unfoldable pub reserve : Bool → Scheduler T → TenantState T → Reservation T
  reserve ran_full_purge s ts =
      let first = reserve_slot s ts in
      if first.reserved || ran_full_purge
      then first
      else let purge = purge_tenant_for_enqueue full first.scheduler ts in
        if ltb 0 purge.stats.released_slots
        then reserve_slot purge.scheduler purge.tenant_state
        else record {
          reserved = false;
          scheduler = purge.scheduler;
          tenant_state = purge.tenant_state;
        }

  -- The entry at the back of its queue, the tenant made active where its queue was empty.
  unfoldable pub push_entry :
      QueueEntry T → TenantKey → Shard T → TenantState T → Shard T × TenantState T
  push_entry e tenant shard ts =
      let p = e.task.priority in
      let queue = at ts.queues p in
      let queued = record ts { queues = put ts.queues p (queue ++ e ∷ []) } in
      if is_empty queue && not (at ts.active p)
      then (
        record shard {
          active_rings = put shard.active_rings p (Ring.push_back (at shard.active_rings p) tenant);
        },
        record queued { active = put ts.active p true },
      )
      else (shard, queued)

  -- The end of both enqueues: the handle is issued, the entry pushed, the shard written back and
  -- activated, and the waiters woken.
  unfoldable pub commit :
      ℕ → Shard T → TenantKey → TenantState T → Task T → Scheduler T → Scheduler T × TaskHandle
  commit i shard tenant ts task s =
      let (handle, g) = next_handle s.ledger in
      let (shard', ts') = push_entry (record { id = handle; task = task }) tenant shard ts in
      let pushed = write_back i shard' tenant ts' (record s {
        ledger = register_pending handle g;
        stats = record s.stats { enqueued = sat_add s.stats.enqueued 1 };
      }) in
      let activated = if rings_empty shard then activate_shard pushed i else pushed in
      (if is_empty (at ts.queues task.priority) then notify_all activated else activated, handle)

  -- The purge made before anything else.
  unfoldable pub admit : Scheduler T → TenantState T → Admission T
  admit s ts =
      let (reason, purge) = maybe_purge_tenant_before_enqueue s ts in
      record {
        scheduler = purge.scheduler;
        tenant_state = purge.tenant_state;
        ran_full_purge = ran_full reason;
      }

  abbrev pub is_tenant_full : Scheduler T → TenantState T → Bool
  is_tenant_full s ts = leb s.config.max_per_tenant (total_len ts)

  abbrev pub reject_with : EnqueueRejectReason → Scheduler T → Scheduler T
  reject_with reason s = record s { stats = record_reject reason s.stats }
