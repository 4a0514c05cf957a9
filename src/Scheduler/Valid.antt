-- ===== src/Scheduler/Valid.antt =====
-- The invariant of a scheduler between two calls, and what it takes to write a tenant's state back
-- into a locked shard.
use firq.Prelude.{
  ℕ, ◌+◌, ◌-◌, ◌≤◌, ◌<◌, ◌≡◌, ◌∙◌, sym, ap, refl, arith, inl, inr, none, some, length, set, get_or,
  get_or-set_self, get_or-set_ne, length-set, Option-cases,
}
use native.Mathlib.Decide.{ℕ_discrete}
use firq.State.Dict
use firq.State.Accounts.{Accounts, Accounts-ext, occ}
use firq.State.Queued.{
  occ_queues, occ_tenant, occ_shard, occ_shards, occ_shards-set, occ_shards-get_or,
}
use firq.State.Tenant.{TenantState, Shard, total_len, new_tenant, new_shard}
use firq.Scheduler.Core.{Scheduler, shard_at}
use firq.Scheduler.Insert.{tenant_entry}
use firq.Scheduler.Holds.{Holds}

module _ {T : Type 0} where
  -- How often an id is queued in the whole scheduler.
  unfoldable pub queued : Scheduler T → ℕ → ℕ
  queued s j = occ_shards j s.shards

  -- Every queued id is pending or marked as cancelled, once and not both; the estimate is the
  -- number of pending ids and at most `max_global`; no tenant's queues are longer than
  -- `max_per_tenant` together.
  pub record IsValid (s : Scheduler T) : Type 0 where
    pub accounts : Accounts s.config.max_global s.ledger.next_task_id s.ledger (queued s) 0
    pub sharded : 0 < length s.shards
    pub limited :
        (i tenant : ℕ) (ts : TenantState T)
        → Dict.lookup tenant (shard_at s i).tenants ≡ some ts
        → total_len ts ≤ s.config.max_per_tenant

  -- What is queued outside one tenant of one shard.
  unfoldable pub elsewhere : Scheduler T → ℕ → ℕ → ℕ → ℕ
  elsewhere s i tenant j =
      occ_shards j s.shards - occ_queues j (tenant_entry s (shard_at s i) tenant).queues

  pub tenant_entry_old :
      (s : Scheduler T) (shard : Shard T) (tenant : ℕ) (ts : TenantState T)
      → Dict.lookup tenant shard.tenants ≡ some ts
      → tenant_entry s shard tenant ≡ ts
  unfolding tenant_entry
  tenant_entry_old s shard tenant ts e = rw (e, tenant_entry)

  occ-tenant_entry_new :
      (s : Scheduler T) (shard : Shard T) (tenant j : ℕ)
      → Dict.lookup tenant shard.tenants ≡ none
      → occ_queues j (tenant_entry s shard tenant).queues ≡ 0
  unfolding tenant_entry occ_queues new_tenant occ
  occ-tenant_entry_new s shard tenant j e = rw (e, tenant_entry)

  total_len-tenant_entry_new :
      (s : Scheduler T) (shard : Shard T) (tenant : ℕ)
      → Dict.lookup tenant shard.tenants ≡ none
      → total_len (tenant_entry s shard tenant) ≡ 0
  unfolding tenant_entry total_len new_tenant
  total_len-tenant_entry_new s shard tenant e = rw (e, tenant_entry)

  occ-tenant_entry-le :
      (s : Scheduler T) (i tenant j : ℕ)
      → occ_queues j (tenant_entry s (shard_at s i) tenant).queues ≤ occ_shards j s.shards
  unfolding shard_at occ_shard occ_tenant
  occ-tenant_entry-le s i tenant j =
      let shard = get_or s.shards i new_shard in
      elim (Option-cases (Dict.lookup tenant shard.tenants)) [
        | inl e ↦ omega (arith, occ-tenant_entry_new s shard tenant j e)
        | inr (ts, e) ↦ rw (tenant_entry_old s shard tenant ts e) (
            omega (
              arith,
              occ_shards-get_or j i s.shards,
              Dict.le-total_of_lookup (occ_tenant j) tenant ts shard.tenants e,
            ))
      ]

  -- A call takes a tenant's state out of its shard.
  pub take_out-Holds :
      (s : Scheduler T) (i tenant : ℕ)
      → IsValid s
      → Holds (elsewhere s i tenant) s s (tenant_entry s (shard_at s i) tenant) 0
  unfolding elsewhere queued
  take_out-Holds s i tenant v = record {
    same = record {
      config = refl;
      shards = refl;
      active_shards = refl;
      shard_active = refl;
      shutdown_state = refl;
    };
    accounts =
        Accounts-ext s.ledger _ _ 0 v.accounts
          (λ j. omega (arith, occ-tenant_entry-le s i tenant j));
    limited = within;
  }
    where
      within : total_len (tenant_entry s (shard_at s i) tenant) ≤ s.config.max_per_tenant
      within = elim (Option-cases (Dict.lookup tenant (shard_at s i).tenants)) [
        | inl e ↦ omega (arith, total_len-tenant_entry_new s (shard_at s i) tenant e)
        | inr (ts, e) ↦ rw (tenant_entry_old s (shard_at s i) tenant ts e) (v.limited i tenant ts e)
      ]

  put_back-queued :
      (s : Scheduler T) (i tenant j : ℕ) (ts : TenantState T) (shard : Shard T)
      → i < length s.shards
      → shard.tenants ≡ Dict.insert tenant ts (shard_at s i).tenants
      → occ_shards j (set s.shards i shard) ≡ elsewhere s i tenant j + occ_queues j ts.queues
  unfolding elsewhere shard_at occ_shard occ_tenant
  put_back-queued s i tenant j ts shard lt e =
      let old = get_or s.shards i new_shard in
      let set_eq = occ_shards-set j i s.shards shard new_shard lt in
      let same : occ_shard j shard ≡ Dict.total (occ_tenant j) (Dict.insert tenant ts old.tenants) =
        ap (Dict.total (occ_tenant j)) e in
      elim (Option-cases (Dict.lookup tenant old.tenants)) [
        | inl n ↦ omega (
          arith,
          set_eq,
          same,
          occ-tenant_entry_new s old tenant j n,
          occ-tenant_entry-le s i tenant j,
          Dict.total-insert_new (occ_tenant j) tenant ts old.tenants n,
        )
        | inr (ts', n) ↦ rw (tenant_entry_old s old tenant ts' n) (
            omega (
              arith,
              set_eq,
              same,
              occ_shards-get_or j i s.shards,
              Dict.le-total_of_lookup (occ_tenant j) tenant ts' old.tenants n,
              Dict.total-insert_old (occ_tenant j) tenant ts ts' old.tenants n,
            ))
      ]

  put_back-limited :
      (s : Scheduler T) (i tenant limit : ℕ) (ts : TenantState T) (shard : Shard T)
      → i < length s.shards
      → shard.tenants ≡ Dict.insert tenant ts (shard_at s i).tenants
      → ((k t : ℕ) (u : TenantState T)
          → Dict.lookup t (get_or s.shards k new_shard).tenants ≡ some u
          → total_len u ≤ limit)
      → total_len ts ≤ limit
      → (k t : ℕ) (u : TenantState T)
      → Dict.lookup t (get_or (set s.shards i shard) k new_shard).tenants ≡ some u
      → total_len u ≤ limit
  unfolding shard_at
  put_back-limited s i tenant limit ts shard lt e old new k t u found = elim (ℕ_discrete i k) [
    | yes p ↦
        let here : get_or (set s.shards i shard) k new_shard ≡ shard =
          rw (← p) (get_or-set_self s.shards i shard new_shard lt) in
        let found' : Dict.lookup t (Dict.insert tenant ts (get_or s.shards i new_shard).tenants)
            ≡ some u =
          ap (Dict.lookup t) (sym (ap (λ (x : Shard T). x.tenants) here ∙ e)) ∙ found in
        ground (
          arith,
          found',
          Dict.lookup-insert tenant t ts (get_or s.shards i new_shard).tenants,
          old i t u,
          new,
        )
    | no p ↦ old k t u (rw (get_or-set_ne s.shards i k shard new_shard p) at found)
  ]

  -- The invariant after a call that worked on one tenant of one shard.
  pub put_back-IsValid :
      (s s' : Scheduler T) (i tenant : ℕ) (ts : TenantState T) (shard : Shard T)
      → IsValid s
      → i < length s.shards
      → shard.tenants ≡ Dict.insert tenant ts (shard_at s i).tenants
      → s'.config ≡ s.config
      → s'.shards ≡ set s.shards i shard
      → Accounts s.config.max_global s'.ledger.next_task_id s'.ledger
          (λ j. elsewhere s i tenant j + occ_queues j ts.queues)
          0
      → total_len ts ≤ s.config.max_per_tenant
      → IsValid s'
  unfolding queued shard_at
  put_back-IsValid s s' i tenant ts shard v lt e cfg sh a len = record {
    accounts = rw cfg (
        Accounts-ext s'.ledger _ _ 0 a
          (λ j. ap (occ_shards j) sh ∙ put_back-queued s i tenant j ts shard lt e));
    sharded = rw (sh, length-set s.shards i shard) v.sharded;
    limited = λ k t u found. rw cfg (
        put_back-limited s i tenant s.config.max_per_tenant ts shard lt e v.limited len k t u
          (rw sh at found));
  }
