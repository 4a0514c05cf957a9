-- ===== src/Scheduler/Holds.antt =====
-- The work on one tenant of a locked shard: what holds of the scheduler and of the tenant's state,
-- which is out of its shard, from the lock to the write-back.
use firq.Prelude.{
  Bool, ℕ, ◌+◌, ◌≤◌, ◌≡◌, ◌∙◌, false, arith, inl, inr, Bool-cases, ltb, if◌then◌else◌, Option, none,
  some, ◌||◌,
}
use firq.State.Ledger.{try_reserve_slot}
use firq.State.Accounts.{Accounts, reserve-Accounts, try_reserve_slot_fails}
use firq.State.Queued.{occ_queues}
use firq.State.Tenant.{TenantState, total_len}
use firq.Scheduler.Core.{Scheduler}
use firq.Scheduler.Purge.{
  EnqueuePurgeReason, full, side_scan_budget, purge_tenant_with_budget, count_attempt,
  record_enqueue_purge_stats, purge_tenant_for_enqueue, run_purge, purge_reason,
  maybe_purge_tenant_before_enqueue,
}
use firq.Scheduler.Insert.{reserve_slot, reserve, admit}
use firq.Scheduler.Purge.Tenant.{
  Same, purge_tenant-Accounts, total_len-purge_tenant, record_enqueue_purge_stats-Accounts,
  record_enqueue_purge_stats-Same,
}

-- `rest` counts what is queued elsewhere; `owed` is 1 once a slot is reserved for the new task.
pub record Holds {T : Type 0} (rest : ℕ → ℕ) (s0 s : Scheduler T) (ts : TenantState T) (owed : ℕ)
    : Type 0 where
  pub same : Same s0 s
  pub accounts :
      Accounts s0.config.max_global s0.ledger.next_task_id s.ledger
        (λ j. rest j + occ_queues j ts.queues)
        owed
  pub limited : total_len ts ≤ s0.config.max_per_tenant

pub Same-trans : {T : Type 0} (a b c : Scheduler T) → Same a b → Same b c → Same a c
Same-trans a b c h k = record {
  config = k.config ∙ h.config;
  shards = k.shards ∙ h.shards;
  active_shards = k.active_shards ∙ h.active_shards;
  shard_active = k.shard_active ∙ h.shard_active;
  shutdown_state = k.shutdown_state ∙ h.shutdown_state;
}

module _ {T : Type 0} (rest : ℕ → ℕ) (s0 s : Scheduler T) (ts : TenantState T)
    (h : Holds rest s0 s ts 0) where
  pub purge_tenant_for_enqueue-Holds :
      (reason : EnqueuePurgeReason)
      → let p = purge_tenant_for_enqueue reason s ts in Holds rest s0 p.scheduler p.tenant_state 0
  unfolding purge_tenant_for_enqueue total_len
  purge_tenant_for_enqueue-Holds reason =
      let now = s.clock s.readings in
      let budget = side_scan_budget reason in
      let t = purge_tenant_with_budget now budget ts s.ledger in
      let s1 : Scheduler T = record s { readings = s.readings + 1; ledger = t.ledger } in
      record {
        same =
            Same-trans s0 s1 (record_enqueue_purge_stats t.stats s1)
              (record {
                config = h.same.config;
                shards = h.same.shards;
                active_shards = h.same.active_shards;
                shard_active = h.same.shard_active;
                shutdown_state = h.same.shutdown_state;
              })
              (record_enqueue_purge_stats-Same t.stats s1);
        accounts =
            record_enqueue_purge_stats-Accounts _ t.stats s1
              (purge_tenant-Accounts now budget rest ts s.ledger h.accounts);
        limited = omega (arith, h.limited, total_len-purge_tenant now budget ts s.ledger);
      }

  pub run_purge-Holds :
      (reason : Option EnqueuePurgeReason)
      → let p = run_purge reason s ts in Holds rest s0 p.scheduler p.tenant_state 0
  unfolding run_purge
  run_purge-Holds none = h
  run_purge-Holds (some reason) = purge_tenant_for_enqueue-Holds reason

  -- One more id queued nowhere: a slot is reserved or it is not, and nothing else changes.
  pub reserve_slot-Holds :
      let r = reserve_slot s ts in
      Holds rest s0 r.scheduler r.tenant_state (if r.reserved then 1 else 0)
  reserve_slot-Holds = elim (Bool-cases (try_reserve_slot s.config.max_global s.ledger).0) [
    | inl e ↦ rw e (record {
      same = moved;
      accounts = rw h.same.config (reserve-Accounts s.ledger _ h.accounts (rw h.same.config at e));
      limited = h.limited;
    })
    | inr e ↦ rw e (record {
      same = moved;
      accounts = rw (try_reserve_slot_fails s.config.max_global s.ledger e) h.accounts;
      limited = h.limited;
    })
  ]
    where
      moved : Same s0 (reserve_slot s ts).scheduler
      moved = record {
        config = h.same.config;
        shards = h.same.shards;
        active_shards = h.same.active_shards;
        shard_active = h.same.shard_active;
        shutdown_state = h.same.shutdown_state;
      }

module _ {T : Type 0} (rest : ℕ → ℕ) (s0 s : Scheduler T) (ts : TenantState T)
    (h : Holds rest s0 s ts 0) where
  pub admit-Holds : let a = admit s ts in Holds rest s0 a.scheduler a.tenant_state 0
  unfolding admit maybe_purge_tenant_before_enqueue total_len
  admit-Holds =
      run_purge-Holds rest s0 s (count_attempt ts)
        (record { same = h.same; accounts = h.accounts; limited = h.limited })
        (purge_reason s (count_attempt ts))

  -- With or without a purge, `reserve` takes one slot or none.
  pub reserve-Holds :
      (ran : Bool)
      → let r = reserve ran s ts in
        Holds rest s0 r.scheduler r.tenant_state (if r.reserved then 1 else 0)
  unfolding reserve
  reserve-Holds ran = elim (Bool-cases ((reserve_slot s ts).reserved || ran)) [
    | inl e ↦ rw e (reserve_slot-Holds rest s0 s ts h)
    | inr e ↦
        let first = reserve_slot s ts in
        let f : first.reserved ≡ false = ground arith in
        let held =
          purge_tenant_for_enqueue-Holds rest s0 first.scheduler ts
            (rw f at (reserve_slot-Holds rest s0 s ts h)) full in
        let p = purge_tenant_for_enqueue full first.scheduler ts in
        rw e (elim (Bool-cases (ltb 0 p.stats.released_slots)) [
          | inl more ↦ rw more (reserve_slot-Holds rest s0 p.scheduler p.tenant_state held)
          | inr less ↦ rw less held
        ])
  ]

-- Neither makes a tenant's queues longer.
module _ {T : Type 0} where
  total_len-purge_for_enqueue :
      (reason : EnqueuePurgeReason) (s : Scheduler T) (ts : TenantState T)
      → total_len (purge_tenant_for_enqueue reason s ts).tenant_state ≤ total_len ts
  unfolding purge_tenant_for_enqueue total_len
  total_len-purge_for_enqueue reason s ts =
      total_len-purge_tenant (s.clock s.readings) (side_scan_budget reason) ts s.ledger

  pub total_len-reserve :
      (ran : Bool) (s : Scheduler T) (ts : TenantState T)
      → total_len (reserve ran s ts).tenant_state ≤ total_len ts
  unfolding reserve
  total_len-reserve ran s ts = elim (Bool-cases ((reserve_slot s ts).reserved || ran)) [
    | inl e ↦ rw e (omega arith)
    | inr e ↦
        let p = purge_tenant_for_enqueue full (reserve_slot s ts).scheduler ts in
        let le = total_len-purge_for_enqueue full (reserve_slot s ts).scheduler ts in
        rw e (elim (Bool-cases (ltb 0 p.stats.released_slots)) [
          | inl more ↦ rw more le
          | inr less ↦ rw less le
        ])
  ]
