-- ===== src/Scheduler/Quantum/Active.antt =====
-- Changing a quantum leaves every queue, flag and ring alone.
use firq.Prelude.{
  ℕ, zero, suc, ◌≡◌, ◌∙◌, refl, sym, ap, subst, List, [], ◌∷◌, inl, inr, Bool-cases, ◌==◌, Option,
  Option-cases, some, some_eq, get_or, max,
}
use firq.Api.{TenantKey, QuantumProvider}
use firq.State.Dict
use firq.State.Tenant.{TenantState, Shard, new_shard, rings_empty}
use firq.State.Marked.{Marked, IsServed, insert-IsServed}
use firq.Scheduler.Core.{Scheduler, shard_index, shard_at}
use firq.Scheduler.Valid.{IsValid}
use firq.Scheduler.Commit.{IsValid-ext}
use firq.Scheduler.Enqueue.Valid.{shard_index-lt}
use firq.Scheduler.Active.{IsActive, IsActive-ext, put_shard-IsServed, put_shard-IsAwake}
use firq.Scheduler.Quantum.{
  quantum_i64, refresh_tenant_quantum, set_tenant_quantum, clear_tenant_quantum, refresh_all,
  refresh_shards, set_quantum_provider,
}
use firq.Scheduler.Quantum.Valid.{length-refresh_shards}

module _ {T : Type 0} where
  refresh_tenant_quantum-IsActive :
      (tenant : TenantKey) (s : Scheduler T)
      → IsValid s
      → IsActive s
      → IsActive (refresh_tenant_quantum tenant s)
  unfolding refresh_tenant_quantum
  refresh_tenant_quantum-IsActive tenant s v w =
      let i = shard_index s tenant in
      let shard = shard_at s i in
      let lt = shard_index-lt s tenant v in
      elim (Option-cases (Dict.lookup tenant shard.tenants)) [
        | inl e ↦ rw (e, refresh_tenant_quantum) w
        | inr (ts, e) ↦
            let ts' : TenantState T = record ts { quantum = quantum_i64 s tenant } in
            let shard' : Shard T = record shard {
              tenants = Dict.insert tenant ts' shard.tenants;
            } in
            rw (e, refresh_tenant_quantum)
              (record {
                served = put_shard-IsServed s i shard' lt w.served (
                    insert-IsServed shard tenant ts' shard' (w.served i) refl refl
                      (λ p. (w.served i).served tenant ts e p));
                awake =
                    put_shard-IsAwake s i shard' w.awake lt
                      (unfold rings_empty in w.awake.flagged i);
              })
      ]

  pub set_tenant_quantum-IsActive :
      (tenant : TenantKey) (quantum : ℕ) (s : Scheduler T)
      → IsValid s
      → IsActive s
      → IsActive (set_tenant_quantum tenant quantum s)
  unfolding set_tenant_quantum
  set_tenant_quantum-IsActive tenant quantum s v w =
      let s' : Scheduler T = record s {
        tenant_quantum = Dict.insert tenant (max quantum 1) s.tenant_quantum;
      } in
      refresh_tenant_quantum-IsActive tenant s' (IsValid-ext s s' v refl refl refl)
        (IsActive-ext s s' w refl refl refl)

  pub clear_tenant_quantum-IsActive :
      (tenant : TenantKey) (s : Scheduler T)
      → IsValid s
      → IsActive s
      → IsActive (clear_tenant_quantum tenant s)
  unfolding clear_tenant_quantum
  clear_tenant_quantum-IsActive tenant s v w =
      let s' : Scheduler T = record s { tenant_quantum = Dict.delete tenant s.tenant_quantum } in
      refresh_tenant_quantum-IsActive tenant s' (IsValid-ext s s' v refl refl refl)
        (IsActive-ext s s' w refl refl refl)

  -- A refreshed tenant has the flags and queues that it had.
  lookup-refresh_all_old :
      (s : Scheduler T) (t : ℕ) (m : List (TenantKey × TenantState T)) (u : TenantState T)
      → Dict.lookup t (refresh_all s m) ≡ some u
      → (old : TenantState T) × (Dict.lookup t m ≡ some old)
        × (old.active ≡ u.active)
        × (old.queues ≡ u.queues)
  unfolding refresh_all Dict.lookup
  lookup-refresh_all_old s t [] u e = cc
  lookup-refresh_all_old s t ((k, ts) ∷ m) u e = elim (Bool-cases (k == t)) [
    | inl h ↦
        let same = some_eq _ u (rw h at e) in
        rw h (
          ts,
          refl,
          ap (λ (x : TenantState T). x.active) same,
          ap (λ (x : TenantState T). x.queues) same,
        )
    | inr h ↦ rw h (lookup-refresh_all_old s t m u (rw h at e))
  ]

  shard_at-refresh_shards :
      (s : Scheduler T) (i : ℕ) (shards : List (Shard T))
      → get_or (refresh_shards s shards) i new_shard ≡ record (get_or shards i new_shard) {
        tenants = refresh_all s (get_or shards i new_shard).tenants;
      }
  unfolding refresh_shards new_shard refresh_all
  shard_at-refresh_shards s i [] = refl
  shard_at-refresh_shards s zero (shard ∷ shards) = refl
  shard_at-refresh_shards s (suc i) (shard ∷ shards) = shard_at-refresh_shards s i shards

  refresh_all-IsServed :
      (s : Scheduler T) (shard : Shard T)
      → IsServed shard
      → IsServed (record shard { tenants = refresh_all s shard.tenants })
  refresh_all-IsServed s shard w = record {
    valid = w.valid;
    served = λ t u e p.
        let (old, found, a, q) = lookup-refresh_all_old s t shard.tenants u e in
        subst (λ x. Marked t shard.active_rings x u.queues) a
          (subst (λ x. Marked t shard.active_rings old.active x) q (w.served t old found)) p;
  }

  pub set_quantum_provider-IsActive :
      (provider : Option QuantumProvider) (s : Scheduler T)
      → IsActive s
      → IsActive (set_quantum_provider provider s)
  unfolding set_quantum_provider shard_at rings_empty
  set_quantum_provider-IsActive provider s w =
      let s' : Scheduler T = record s { quantum_provider = provider } in
      let n = length-refresh_shards s' s.shards in
      record {
        served = λ i.
            rw (shard_at-refresh_shards s' i s.shards)
              (refresh_all-IsServed s' (shard_at s i) (w.served i));
        awake = record {
          flags = w.awake.flags ∙ sym n;
          once = λ i lt. w.awake.once i (rw n at lt);
          flagged = λ i h. w.awake.flagged i (rw (shard_at-refresh_shards s' i s.shards) at h);
        };
      }
