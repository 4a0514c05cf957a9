-- ===== src/Scheduler/Quantum.antt =====
-- The quantum of a tenant: the override, the provider or the configuration, at least 1.
pub mod Valid
pub mod Laws
pub mod Active
use firq.Prelude.{ℕ, List, [], ◌∷◌, Option, none, some, max}
use firq.Prelude.Int.{ℤ, as_i64}
use firq.Api.{TenantKey, QuantumProvider}
use firq.State.Dict
use firq.State.Tenant.{Shard, TenantState}
use firq.Scheduler.Core.{Scheduler, shard_index, shard_at, put_shard}

module _ {T : Type 0} where
  unfoldable pub quantum_for : Scheduler T → TenantKey → ℕ
  quantum_for s tenant = elim (Dict.lookup tenant s.tenant_quantum) [
    | some value ↦ max value 1
    | none ↦ elim s.quantum_provider [
      | some provider ↦ max (provider tenant) 1
      | none ↦ max s.config.quantum 1
    ]
  ]

  -- `self.quantum_for(tenant) as i64`, which is written to a tenant's state.
  abbrev pub quantum_i64 : Scheduler T → TenantKey → ℤ
  quantum_i64 s tenant = as_i64 (quantum_for s tenant)

  unfoldable pub refresh_tenant_quantum : TenantKey → Scheduler T → Scheduler T
  refresh_tenant_quantum tenant s =
      let i = shard_index s tenant in
      let shard = shard_at s i in
      elim (Dict.lookup tenant shard.tenants) [
        | none ↦ s
        | some state ↦ put_shard s i (record shard {
          tenants =
              Dict.insert tenant (record state { quantum = quantum_i64 s tenant }) shard.tenants;
        })
      ]

  unfoldable pub set_tenant_quantum : TenantKey → ℕ → Scheduler T → Scheduler T
  unfolding refresh_tenant_quantum
  set_tenant_quantum tenant quantum s =
      refresh_tenant_quantum tenant
        (record s { tenant_quantum = Dict.insert tenant (max quantum 1) s.tenant_quantum })

  unfoldable pub clear_tenant_quantum : TenantKey → Scheduler T → Scheduler T
  unfolding refresh_tenant_quantum Dict.delete
  clear_tenant_quantum tenant s =
      refresh_tenant_quantum tenant
        (record s { tenant_quantum = Dict.delete tenant s.tenant_quantum })

  -- The loop over a shard's tenants.
  unfoldable pub refresh_all :
      Scheduler T → List (TenantKey × TenantState T) → List (TenantKey × TenantState T)
  refresh_all s [] = []
  refresh_all s ((tenant, state) ∷ ts) =
      (tenant, record state { quantum = quantum_i64 s tenant }) ∷ refresh_all s ts

  unfoldable pub refresh_shards : Scheduler T → List (Shard T) → List (Shard T)
  unfolding refresh_all quantum_for
  refresh_shards s [] = []
  refresh_shards s (shard ∷ shards) =
      record shard { tenants = refresh_all s shard.tenants } ∷ refresh_shards s shards

  unfoldable pub set_quantum_provider : Option QuantumProvider → Scheduler T → Scheduler T
  unfolding refresh_shards
  set_quantum_provider provider s =
      let s' = record s { quantum_provider = provider } in
      record s' { shards = refresh_shards s' s'.shards }
