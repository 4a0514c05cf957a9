-- ===== src/Scheduler/Quantum/Valid.antt =====
-- Changing a quantum keeps the invariant: the queues and the ledger are left alone.
use firq.Prelude.{
  ℕ, ◌+◌, ◌≤◌, ◌≡◌, refl, sym, ap, List, [], ◌∷◌, arith, inl, inr, Option, Option-cases, some,
  length, length-set, get_or, zero, suc, max, Bool-cases, ◌==◌,
}
use firq.Api.{TenantKey, QuantumProvider}
use firq.State.Dict
use firq.State.Accounts.{Accounts-ext}
use firq.State.Queued.{occ_tenant, occ_shard, occ_shards, occ_queues}
use firq.State.Tenant.{TenantState, Shard, total_len, new_shard}
use firq.Scheduler.Core.{Scheduler, shard_index, shard_at, put_shard}
use firq.Scheduler.Quantum.{
  quantum_i64, refresh_tenant_quantum, set_tenant_quantum, clear_tenant_quantum, refresh_all,
  refresh_shards, set_quantum_provider,
}
use firq.Scheduler.Valid.{
  IsValid, queued, elsewhere, take_out-Holds, put_back-IsValid, tenant_entry_old,
}
use firq.Scheduler.Commit.{IsValid-ext}
use firq.Scheduler.Enqueue.Valid.{shard_index-lt}
use firq.Scheduler.Ringed.{IsRinged, IsRinged-ext}

module _ {T : Type 0} where
  refresh_tenant_quantum-IsValid :
      (tenant : TenantKey) (s : Scheduler T) → IsValid s → IsValid (refresh_tenant_quantum tenant s)
  unfolding refresh_tenant_quantum put_shard total_len
  refresh_tenant_quantum-IsValid tenant s v =
      let i = shard_index s tenant in
      let shard = shard_at s i in
      elim (Option-cases (Dict.lookup tenant shard.tenants)) [
        | inl e ↦ rw (e, refresh_tenant_quantum) v
        | inr (ts, e) ↦
            let ts' : TenantState T = record ts { quantum = quantum_i64 s tenant } in
            let h = take_out-Holds s i tenant v in
            rw (e, refresh_tenant_quantum)
              (put_back-IsValid s _ i tenant ts'
                (record shard { tenants = Dict.insert tenant ts' shard.tenants }) v
                (shard_index-lt s tenant v) refl refl refl
                (Accounts-ext s.ledger _ _ 0 h.accounts (λ j.
                  ap (λ (x : TenantState T). elsewhere s i tenant j + occ_queues j x.queues)
                    (sym (tenant_entry_old s shard tenant ts e))))
                (v.limited i tenant ts e))
      ]

  refresh_tenant_quantum-IsRinged :
      (tenant : TenantKey) (s : Scheduler T)
      → IsRinged s
      → IsRinged (refresh_tenant_quantum tenant s)
  unfolding refresh_tenant_quantum put_shard
  refresh_tenant_quantum-IsRinged tenant s w =
      let i = shard_index s tenant in
      let shard = shard_at s i in
      elim (Option-cases (Dict.lookup tenant shard.tenants)) [
        | inl e ↦ rw (e, refresh_tenant_quantum) w
        | inr (ts, e) ↦
            rw (e, refresh_tenant_quantum)
              (IsRinged-ext s _ w refl (
                length-set s.shards i (record shard {
                  tenants =
                      Dict.insert tenant (record ts { quantum = quantum_i64 s tenant })
                        shard.tenants;
                })))
      ]

  pub set_tenant_quantum-IsValid :
      (tenant : TenantKey) (quantum : ℕ) (s : Scheduler T)
      → IsValid s
      → IsRinged s
      → IsValid (set_tenant_quantum tenant quantum s)
        × IsRinged (set_tenant_quantum tenant quantum s)
  unfolding set_tenant_quantum
  set_tenant_quantum-IsValid tenant quantum s v w =
      let s' : Scheduler T = record s {
        tenant_quantum = Dict.insert tenant (max quantum 1) s.tenant_quantum;
      } in
      (
        refresh_tenant_quantum-IsValid tenant s' (IsValid-ext s s' v refl refl refl),
        refresh_tenant_quantum-IsRinged tenant s' (IsRinged-ext s s' w refl refl),
      )

  pub clear_tenant_quantum-IsValid :
      (tenant : TenantKey) (s : Scheduler T)
      → IsValid s
      → IsRinged s
      → IsValid (clear_tenant_quantum tenant s) × IsRinged (clear_tenant_quantum tenant s)
  unfolding clear_tenant_quantum
  clear_tenant_quantum-IsValid tenant s v w =
      let s' : Scheduler T = record s { tenant_quantum = Dict.delete tenant s.tenant_quantum } in
      (
        refresh_tenant_quantum-IsValid tenant s' (IsValid-ext s s' v refl refl refl),
        refresh_tenant_quantum-IsRinged tenant s' (IsRinged-ext s s' w refl refl),
      )

  -- A refresh of all the tenants of a shard changes no queue.
  occ-refresh_all :
      (s : Scheduler T) (j : ℕ) (m : List (TenantKey × TenantState T))
      → Dict.total (occ_tenant j) (refresh_all s m) ≡ Dict.total (occ_tenant j) m
  unfolding refresh_all Dict.total occ_tenant
  occ-refresh_all s j [] = refl
  occ-refresh_all s j ((k, ts) ∷ m) = omega (arith, occ-refresh_all s j m)

  lookup-refresh_all :
      (s : Scheduler T) (limit t : ℕ) (m : List (TenantKey × TenantState T))
      → ((u : TenantState T) → Dict.lookup t m ≡ some u → total_len u ≤ limit)
      → (u : TenantState T) → Dict.lookup t (refresh_all s m) ≡ some u
      → total_len u ≤ limit
  unfolding refresh_all Dict.lookup total_len
  lookup-refresh_all s limit t [] old u e = old u e
  lookup-refresh_all s limit t ((k, ts) ∷ m) old u e = elim (Bool-cases (k == t)) [
    | inl h ↦ ground (arith, old ts, e, h)
    | inr h ↦ lookup-refresh_all s limit t m (rw h at old) u (rw h at e)
  ]

  pub length-refresh_shards :
      (s : Scheduler T) (shards : List (Shard T)) → length (refresh_shards s shards) ≡ length shards
  unfolding refresh_shards
  length-refresh_shards s [] = refl
  length-refresh_shards s (shard ∷ shards) = ap suc (length-refresh_shards s shards)

  occ-refresh_shards :
      (s : Scheduler T) (j : ℕ) (shards : List (Shard T))
      → occ_shards j (refresh_shards s shards) ≡ occ_shards j shards
  unfolding refresh_shards occ_shards occ_shard
  occ-refresh_shards s j [] = refl
  occ-refresh_shards s j (shard ∷ shards) =
      omega (arith, occ-refresh_all s j shard.tenants, occ-refresh_shards s j shards)

  get_or-refresh_shards :
      (s : Scheduler T) (i : ℕ) (shards : List (Shard T))
      → (get_or (refresh_shards s shards) i new_shard).tenants
        ≡ refresh_all s (get_or shards i new_shard).tenants
  unfolding refresh_shards new_shard refresh_all
  get_or-refresh_shards s i [] = refl
  get_or-refresh_shards s zero (shard ∷ shards) = refl
  get_or-refresh_shards s (suc i) (shard ∷ shards) = get_or-refresh_shards s i shards

  pub set_quantum_provider-IsValid :
      (provider : Option QuantumProvider) (s : Scheduler T)
      → IsValid s
      → IsRinged s
      → IsValid (set_quantum_provider provider s) × IsRinged (set_quantum_provider provider s)
  unfolding set_quantum_provider queued shard_at
  set_quantum_provider-IsValid provider s v w =
      let s' : Scheduler T = record s { quantum_provider = provider } in
      (
        record {
          accounts = Accounts-ext s.ledger _ _ 0 v.accounts (λ j. occ-refresh_shards s' j s.shards);
          sharded = rw (length-refresh_shards s' s.shards) v.sharded;
          limited = λ i t u e.
              lookup-refresh_all s' s.config.max_per_tenant t (get_or s.shards i new_shard).tenants
                (λ u e. v.limited i t u e) u (rw (get_or-refresh_shards s' i s.shards) at e);
        },
        IsRinged-ext s _ w refl (length-refresh_shards s' s.shards),
      )
