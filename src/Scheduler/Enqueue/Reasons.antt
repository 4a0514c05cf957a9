-- ===== src/Scheduler/Enqueue/Reasons.antt =====
-- What a refused enqueue says of the scheduler.
use firq.Prelude.{
  ℕ, ◌≤◌, ◌<◌, ◌≡◌, ◌∙◌, refl, ap, true, false, Bool, arith, inl, inr, Bool-cases, some, length,
  ltb, ◌||◌,
}
use firq.Api.{TenantKey, Task, tenant_full, global_full, timed_out, SchedulerConfig}
use firq.State.Dict
use firq.State.Ledger.{try_reserve_slot}
use firq.State.Tenant.{Shard, TenantState, total_len}
use firq.Scheduler.Core.{Scheduler, shard_index, shard_at, instant_now, put_shard}
use firq.Scheduler.Shutdown.{is_accepting_enqueues}
use firq.Scheduler.Purge.{
  full, purge_tenant_with_budget, purge_tenant_for_enqueue, side_scan_budget,
  record_enqueue_purge_stats,
}
use firq.Scheduler.Insert.{
  Reservation, reserve, reserve_slot, write_back, admit, tenant_entry, is_tenant_full,
}
use firq.Scheduler.Active.{shard_at-put_self}
use firq.Scheduler.Enqueue.{
  EnqueueAttempt, accepted, shut, refused, purge_if_full, settle, enqueue_try_reject,
}
use firq.Scheduler.Enqueue.Valid.{shard_index-lt, purge_if_full-Holds}
use firq.Scheduler.Holds.{admit-Holds}
use firq.Scheduler.Valid.{IsValid, take_out-Holds, elsewhere}
use firq.Scheduler.Drop.Below.{estimate-purge_tenant}

module _ {T : Type 0} where
  -- No slot is there when a reservation fails.
  abbrev Lacks : Reservation T → Type 0
  Lacks r = r.scheduler.config.max_global ≤ r.scheduler.ledger.queue_len_estimate

  reserve_slot-Lacks :
      (s : Scheduler T) (ts : TenantState T)
      → (reserve_slot s ts).reserved ≡ false
      → Lacks (reserve_slot s ts)
  unfolding try_reserve_slot
  reserve_slot-Lacks s ts h = ground (arith, h)

  unreleased :
      (s : Scheduler T) (ts : TenantState T)
      → let purge = purge_tenant_for_enqueue full s ts in
        ltb 0 purge.stats.released_slots ≡ false
        → (purge.scheduler.ledger.queue_len_estimate ≡ s.ledger.queue_len_estimate)
          × (purge.scheduler.config ≡ s.config)
  unfolding purge_tenant_for_enqueue record_enqueue_purge_stats
  unreleased s ts h =
      let now = instant_now s in
      let purged = purge_tenant_with_budget now (side_scan_budget full) ts s.ledger in
      rw h (estimate-purge_tenant now (side_scan_budget full) ts s.ledger, refl)

  reserve-Lacks :
      (ran : Bool) (s : Scheduler T) (ts : TenantState T)
      → (reserve ran s ts).reserved ≡ false
      → Lacks (reserve ran s ts)
  unfolding reserve
  reserve-Lacks ran s ts h =
      let first = reserve_slot s ts in
      let purge = purge_tenant_for_enqueue full first.scheduler ts in
      elim (Bool-cases (first.reserved || ran)) [
        | inl e ↦ rw e (reserve_slot-Lacks s ts (rw e at h))
        | inr e ↦
            let before = reserve_slot-Lacks s ts (ground (arith, e)) in
            elim (Bool-cases (ltb 0 purge.stats.released_slots)) [
              | inl more ↦
                  rw (e, more)
                    (reserve_slot-Lacks purge.scheduler purge.tenant_state (rw (e, more) at h))
              | inr less ↦
                  let same = unreleased first.scheduler ts less in
                  rw (e, less)
                    (omega
                      (arith, before, same.0, ap (λ (c : SchedulerConfig). c.max_global) same.1))
            ]
      ]

  -- What the answer of an attempt says: the scheduler is closed, or it is open and the tenant
  -- holds as many entries as it may, or it is open and no slot is left.
  abbrev pub Explains : TenantKey → Scheduler T → Scheduler T × EnqueueAttempt T → Type 0
  Explains tenant s (s', accepted handle) = is_accepting_enqueues s ≡ true
  Explains tenant s (s', shut) = is_accepting_enqueues s ≡ false
  Explains tenant s (s', refused task tenant_full) =
      (is_accepting_enqueues s ≡ true)
      × (ts : TenantState T) × (Dict.lookup tenant (shard_at s' (shard_index s tenant)).tenants
          ≡ some ts)
      × (s'.config.max_per_tenant ≤ total_len ts)
  Explains tenant s (s', refused task global_full) =
      (is_accepting_enqueues s ≡ true) × s'.config.max_global ≤ s'.ledger.queue_len_estimate
  Explains tenant s (s', refused task timed_out) = ⊥

  write_back-full :
      (i tenant : ℕ) (shard : Shard T) (ts : TenantState T) (s : Scheduler T)
      → i < length s.shards
      → is_tenant_full s ts ≡ true
      → let s' = write_back i shard tenant ts s in
        (u : TenantState T) × (Dict.lookup tenant (shard_at s' i).tenants ≡ some u)
        × (s'.config.max_per_tenant ≤ total_len u)
  unfolding write_back
  write_back-full i tenant shard ts s lt h =
      let shard' : Shard T = record shard { tenants = Dict.insert tenant ts shard.tenants } in
      (
        ts,
        ap (λ (x : Shard T). Dict.lookup tenant x.tenants) (shard_at-put_self s i shard' lt)
            ∙ Dict.lookup-insert_self tenant ts shard.tenants,
        unfold put_shard in ground (arith, h),
      )

  settle-Explains :
      (s : Scheduler T) (tenant : TenantKey) (shard : Shard T) (task : Task T) (r : Reservation T)
      → is_accepting_enqueues s ≡ true
      → (r.reserved ≡ false → Lacks r)
      → Explains tenant s (settle (shard_index s tenant) shard tenant task r)
  unfolding settle write_back put_shard
  settle-Explains s tenant shard task r open_ lacks = elim (Bool-cases r.reserved) [
    | inl e ↦ rw e open_
    | inr e ↦ rw e (open_, lacks e)
  ]

  -- On a valid scheduler the answer of `enqueue_try_reject` is true of it: `shut` is given
  -- exactly where the scheduler is not open, and every other answer where it is; after
  -- `tenant_full` the tenant holds at least `max_per_tenant` entries, and after `global_full`
  -- the estimate of live tasks is at least `max_global`, whatever was purged meanwhile; no other
  -- reason is given.
  pub enqueue_try_reject-Explains :
      (tenant : TenantKey) (task : Task T) (s : Scheduler T)
      → IsValid s
      → Explains tenant s (enqueue_try_reject tenant task s)
  unfolding enqueue_try_reject
  enqueue_try_reject-Explains tenant task s v =
      let i = shard_index s tenant in
      let shard = shard_at s i in
      let ts = tenant_entry s shard tenant in
      let a = purge_if_full (admit s ts) in
      let h =
        purge_if_full-Holds (elsewhere s i tenant) s (admit s ts)
          (admit-Holds (elsewhere s i tenant) s s ts (take_out-Holds s i tenant v)) in
      elim (Bool-cases (is_accepting_enqueues s)) [
        | inr c ↦ rw c c
        | inl c ↦ rw c (elim (Bool-cases (is_tenant_full a.scheduler a.tenant_state)) [
          | inl e ↦
              let filled =
                write_back-full i tenant shard a.tenant_state a.scheduler
                  (rw h.same.shards (shard_index-lt s tenant v)) e in
              rw e (c, filled.0, filled.1, filled.2)
          | inr e ↦ rw e (
              settle-Explains s tenant shard task
                (reserve a.ran_full_purge a.scheduler a.tenant_state) c
                (reserve-Lacks a.ran_full_purge a.scheduler a.tenant_state))
        ])
      ]
