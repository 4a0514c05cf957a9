-- ===== src/Scheduler/Quantum/Laws.antt =====
-- The sign of the quantum that a tenant's state holds.
use firq.Prelude.{
  ℕ, refl, none, ◌%◌, length, ◌≤◌, ◌<◌, ◌≡◌, ◌∙◌, ap, arith, Option-cases, inl, inr, u64_max,
  i64_max, true, max, some, length-set,
}
use firq.Prelude.Int.{ℤ, pos, as_i64, ◌≤ℤ◌, ltb_ℤ}
use firq.Api.{TenantKey}
use firq.State.Dict
use firq.State.Tenant.{Shard, TenantState, new_tenant}
use firq.Scheduler.Core.{Scheduler, shard_index, shard_at, put_shard}
use firq.Scheduler.Quantum.{quantum_for, quantum_i64, refresh_tenant_quantum, set_tenant_quantum}
use firq.Scheduler.Insert.{tenant_entry}
use firq.Scheduler.Valid.{IsValid}
use firq.Scheduler.Active.{shard_at-put_self}
use firq.Scheduler.Enqueue.Valid.{shard_index-lt}

-- The sign that a stored quantum has where `quantum` was asked for.
abbrev pub IsSigned : ℕ → ℤ → Type 0
IsSigned quantum z = (quantum ≤ i64_max → pos 1 ≤ℤ z) × (i64_max < quantum → ltb_ℤ z (pos 0) ≡ true)

as_i64-IsSigned :
    (quantum : ℕ) → quantum ≤ u64_max → IsSigned quantum (as_i64 (max (max quantum 1) 1))
unfolding as_i64
as_i64-IsSigned quantum h = (λ small. ground arith, λ large. ground arith)

module _ {T : Type 0} where
  -- The quantum of the state that an enqueue of the tenant works on.
  abbrev pub entry_quantum : Scheduler T → TenantKey → ℤ
  entry_quantum s tenant = (tenant_entry s (shard_at s (shard_index s tenant)) tenant).quantum

  new_entry :
      (s : Scheduler T) (shard : Shard T) (tenant : TenantKey)
      → Dict.lookup tenant shard.tenants ≡ none
      → (tenant_entry s shard tenant).quantum ≡ quantum_i64 s tenant
  unfolding tenant_entry new_tenant
  new_entry s shard tenant e = rw (e, tenant_entry) refl

  old_entry :
      (s : Scheduler T) (shard : Shard T) (tenant : TenantKey) (ts : TenantState T)
      → Dict.lookup tenant shard.tenants ≡ some ts
      → (tenant_entry s shard tenant).quantum ≡ ts.quantum
  unfolding tenant_entry
  old_entry s shard tenant ts e = rw (e, tenant_entry) refl

  shard_index-put_shard :
      (s : Scheduler T) (i : ℕ) (shard : Shard T) (tenant : TenantKey)
      → shard_index (put_shard s i shard) tenant ≡ shard_index s tenant
  unfolding shard_index put_shard
  shard_index-put_shard s i shard tenant = ap (λ (n : ℕ). tenant % n) (length-set s.shards i shard)

  refreshed_quantum :
      (s : Scheduler T) (tenant : TenantKey)
      → shard_index s tenant < length s.shards
      → entry_quantum (refresh_tenant_quantum tenant s) tenant ≡ quantum_i64 s tenant
  unfolding refresh_tenant_quantum
  refreshed_quantum s tenant lt =
      let i = shard_index s tenant in
      let shard = shard_at s i in
      elim (Option-cases (Dict.lookup tenant shard.tenants)) [
        | inl e ↦ rw (e, refresh_tenant_quantum) (new_entry s shard tenant e)
        | inr (ts, e) ↦
            let ts' : TenantState T = record ts { quantum = quantum_i64 s tenant } in
            let shard' : Shard T = record shard {
              tenants = Dict.insert tenant ts' shard.tenants;
            } in
            let s' = put_shard s i shard' in
            rw (e, refresh_tenant_quantum)
              (ap (λ (k : ℕ). (tenant_entry s' (shard_at s' k) tenant).quantum)
                  (shard_index-put_shard s i shard' tenant)
                ∙ ap (λ (x : Shard T). (tenant_entry s' x tenant).quantum)
                    (shard_at-put_self s i shard' lt)
                ∙ old_entry s' shard' tenant ts' (Dict.lookup-insert_self tenant ts' shard.tenants))
      ]

  -- On a valid scheduler, after `set_tenant_quantum` with a quantum that fits a `u64`, the state
  -- that the tenant's next enqueue works on, its own or a new one, holds a signed quantum of at
  -- least 1 where the one asked for fits an `i64`, and a negative one where it does not.
  pub set_tenant_quantum-IsSigned :
      (tenant : TenantKey) (quantum : ℕ) (s : Scheduler T)
      → IsValid s
      → quantum ≤ u64_max
      → IsSigned quantum (entry_quantum (set_tenant_quantum tenant quantum s) tenant)
  unfolding set_tenant_quantum quantum_for shard_index
  set_tenant_quantum-IsSigned tenant quantum s v h =
      let s' : Scheduler T = record s {
        tenant_quantum = Dict.insert tenant (max quantum 1) s.tenant_quantum;
      } in
      let stored : quantum_i64 s' tenant ≡ as_i64 (max (max quantum 1) 1) =
        rw (Dict.lookup-insert_self tenant (max quantum 1) s.tenant_quantum, quantum_for) refl in
      rw (refreshed_quantum s' tenant (shard_index-lt s tenant v) ∙ stored)
        (as_i64-IsSigned quantum h)
