-- ===== src/Scheduler/Purge/Tenant.antt =====
-- What a purge does to a tenant and to the scheduler around it.
use firq.Prelude.{ℕ, ◌+◌, ◌≤◌, ◌≡◌, refl, arith, inl, inr, Bool-cases, ltb}
use native.Mathlib.Nat.{zero-add}
use firq.Api.{Instant, Priority, high, normal, low}
use firq.State.Ledger.{Ledger}
use firq.State.Accounts.{Accounts, Accounts-ext, occ, release-Accounts}
use firq.State.Queued.{
  occ_queues, occ_others, occ_queues-split, occ_queues-put, total_len-split, total_len-put,
}
use firq.State.Tenant.{TenantState, at, put, total_len}
use firq.Scheduler.Core.{Scheduler, notify_all}
use firq.Scheduler.Purge.{
  PurgeStats, PurgedTenant, no_purge, purge_queue_with_budget, purge_level,
  purge_tenant_with_budget, record_enqueue_purge_stats,
}
use firq.Scheduler.Purge.Queue.{purge_queue_with_budget-Accounts, length-purge_queue_with_budget}

abbrev pub TenantAccounts : {T : Type 0} → ℕ → ℕ → (ℕ → ℕ) → PurgedTenant T → Type 0
TenantAccounts limit next rest t =
    Accounts limit next t.ledger (λ j. rest j + occ_queues j t.tenant_state.queues)
      t.stats.released_slots

module _ {T : Type 0} (now : Instant) (budget : ℕ) where
  purge_level-Accounts :
      {limit next : ℕ} (rest : ℕ → ℕ) (p : Priority) (t : PurgedTenant T)
      → TenantAccounts limit next rest t
      → TenantAccounts limit next rest (purge_level now budget p t)
  unfolding purge_level
  purge_level-Accounts rest p t a =
      let qs = t.tenant_state.queues in
      let others = λ (j : ℕ). rest j + occ_others p j qs in
      let r = purge_queue_with_budget now budget (at qs p) t.ledger t.stats in
      Accounts-ext r.ledger (λ j. others j + occ j r.queue)
        (λ j. rest j + occ_queues j (put qs p r.queue)) r.stats.released_slots
        (purge_queue_with_budget-Accounts others now budget (at qs p) t.ledger t.stats (
          Accounts-ext t.ledger (λ j. rest j + occ_queues j qs) (λ j. others j + occ j (at qs p))
            t.stats.released_slots a (λ j. omega (arith, occ_queues-split p j qs))))
        (λ j. omega (arith, occ_queues-put p j qs r.queue))

  total_len-purge_level :
      (p : Priority) (t : PurgedTenant T)
      → total_len (purge_level now budget p t).tenant_state ≤ total_len t.tenant_state
  unfolding purge_level
  total_len-purge_level p t =
      let ts = t.tenant_state in
      let r = purge_queue_with_budget now budget (at ts.queues p) t.ledger t.stats in
      omega (
        arith,
        total_len-split p ts,
        total_len-put p ts (purge_level now budget p t).tenant_state r.queue refl,
        length-purge_queue_with_budget now budget (at ts.queues p) t.ledger t.stats,
      )

  pub purge_tenant-Accounts :
      {limit next : ℕ} (rest : ℕ → ℕ) (ts : TenantState T) (g : Ledger)
      → Accounts limit next g (λ j. rest j + occ_queues j ts.queues) 0
      → TenantAccounts limit next rest (purge_tenant_with_budget now budget ts g)
  unfolding purge_tenant_with_budget
  purge_tenant-Accounts rest ts g a =
      purge_level-Accounts rest low _
        (purge_level-Accounts rest normal _ (purge_level-Accounts rest high _ a))

  pub total_len-purge_tenant :
      (ts : TenantState T) (g : Ledger)
      → total_len (purge_tenant_with_budget now budget ts g).tenant_state ≤ total_len ts
  unfolding purge_tenant_with_budget
  total_len-purge_tenant ts g =
      let t0 : PurgedTenant T = record { tenant_state = ts; ledger = g; stats = no_purge } in
      let t1 = purge_level now budget high t0 in
      let t2 = purge_level now budget normal t1 in
      omega (
        arith,
        total_len-purge_level high t0,
        total_len-purge_level normal t1,
        total_len-purge_level low t2,
      )

-- The parts of a scheduler that the work on one tenant of a locked shard leaves alone.
pub record Same {T : Type 0} (s s' : Scheduler T) : Type 0 where
  pub config : s'.config ≡ s.config
  pub shards : s'.shards ≡ s.shards
  pub active_shards : s'.active_shards ≡ s.active_shards
  pub shard_active : s'.shard_active ≡ s.shard_active
  pub shutdown_state : s'.shutdown_state ≡ s.shutdown_state

module _ {T : Type 0} where
  pub record_enqueue_purge_stats-Accounts :
      {limit next : ℕ} (q : ℕ → ℕ) (st : PurgeStats) (s : Scheduler T)
      → Accounts limit next s.ledger q st.released_slots
      → Accounts limit next (record_enqueue_purge_stats st s).ledger q 0
  unfolding record_enqueue_purge_stats notify_all
  record_enqueue_purge_stats-Accounts q st s a = elim (Bool-cases (ltb 0 st.released_slots)) [
    | inl e ↦ rw e (release-Accounts s.ledger q 0 st.released_slots (rw zero-add a))
    | inr e ↦ let z : st.released_slots ≡ 0 = ground arith in rw e (rw z at a)
  ]

  pub record_enqueue_purge_stats-Same :
      (st : PurgeStats) (s : Scheduler T) → Same s (record_enqueue_purge_stats st s)
  unfolding record_enqueue_purge_stats notify_all
  record_enqueue_purge_stats-Same st s = ground arith
