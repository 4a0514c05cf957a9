-- ===== src/State/Queued.antt =====
-- How often an id is queued: in the queues of a tenant, of a shard and of all shards.
use firq.Prelude.{ℕ, zero, suc, ◌+◌, ◌≤◌, ◌<◌, ◌≡◌, List, [], ◌∷◌, ◌++◌, arith, length, set, get_or}
use firq.Api.{Priority, high, normal, low}
use firq.State.Dict
use firq.State.Accounts.{occ}
use firq.State.Tenant.{PerPriority, at, put, QueueEntry, TenantState, Shard, total_len, new_shard}

module _ {T : Type 0} where
  unfoldable pub occ_queues : ℕ → PerPriority (List (QueueEntry T)) → ℕ
  occ_queues j qs = occ j qs.first + occ j qs.second + occ j qs.third

  -- The other two queues.
  unfoldable pub occ_others : Priority → ℕ → PerPriority (List (QueueEntry T)) → ℕ
  occ_others high j qs = occ j qs.second + occ j qs.third
  occ_others normal j qs = occ j qs.first + occ j qs.third
  occ_others low j qs = occ j qs.first + occ j qs.second

  pub occ_queues-split :
      (p : Priority) (j : ℕ) (qs : PerPriority (List (QueueEntry T)))
      → occ_queues j qs ≡ occ_others p j qs + occ j (at qs p)
  unfolding occ_queues occ_others
  occ_queues-split high j qs = omega arith
  occ_queues-split normal j qs = omega arith
  occ_queues-split low j qs = omega arith

  pub occ_queues-put :
      (p : Priority) (j : ℕ) (qs : PerPriority (List (QueueEntry T))) (queue : List (QueueEntry T))
      → occ_queues j (put qs p queue) ≡ occ_others p j qs + occ j queue
  unfolding occ_queues occ_others
  occ_queues-put high j qs queue = omega arith
  occ_queues-put normal j qs queue = omega arith
  occ_queues-put low j qs queue = omega arith

  pub occ-append : (j : ℕ) (xs ys : List (QueueEntry T)) → occ j (xs ++ ys) ≡ occ j xs + occ j ys
  unfolding occ
  occ-append j [] ys = omega arith
  occ-append j (x ∷ xs) ys = omega (arith, occ-append j xs ys)

  unfoldable pub occ_tenant : ℕ → TenantState T → ℕ
  occ_tenant j ts = occ_queues j ts.queues

  unfoldable pub occ_shard : ℕ → Shard T → ℕ
  occ_shard j shard = Dict.total (occ_tenant j) shard.tenants

  unfoldable pub occ_shards : ℕ → List (Shard T) → ℕ
  occ_shards j [] = 0
  occ_shards j (shard ∷ shards) = occ_shard j shard + occ_shards j shards

  pub occ_shards-set :
      (j i : ℕ) (shards : List (Shard T)) (shard d : Shard T)
      → i < length shards
      → occ_shards j (set shards i shard) + occ_shard j (get_or shards i d)
        ≡ occ_shards j shards + occ_shard j shard
  unfolding occ_shards
  occ_shards-set j i [] shard d h = absurd (omega arith)
  occ_shards-set j zero (x ∷ xs) shard d h = omega arith
  occ_shards-set j (suc i) (x ∷ xs) shard d h =
      omega (arith, occ_shards-set j i xs shard d (omega arith))

  -- The length of the queues, split in the same way.
  unfoldable pub len_others : Priority → PerPriority (List (QueueEntry T)) → ℕ
  len_others high qs = length qs.second + length qs.third
  len_others normal qs = length qs.first + length qs.third
  len_others low qs = length qs.first + length qs.second

  pub total_len-split :
      (p : Priority) (ts : TenantState T)
      → total_len ts ≡ len_others p ts.queues + length (at ts.queues p)
  unfolding total_len len_others
  total_len-split high ts = omega arith
  total_len-split normal ts = omega arith
  total_len-split low ts = omega arith

  pub total_len-put :
      (p : Priority) (ts ts' : TenantState T) (queue : List (QueueEntry T))
      → ts'.queues ≡ put ts.queues p queue
      → total_len ts' ≡ len_others p ts.queues + length queue
  unfolding total_len len_others
  total_len-put high ts ts' queue e = rw e (omega arith)
  total_len-put normal ts ts' queue e = rw e (omega arith)
  total_len-put low ts ts' queue e = rw e (omega arith)

  pub occ_shards-get_or :
      (j i : ℕ) (shards : List (Shard T))
      → occ_shard j (get_or shards i new_shard) ≤ occ_shards j shards
  unfolding occ_shards occ_shard new_shard Dict.total
  occ_shards-get_or j i [] = omega arith
  occ_shards-get_or j zero (x ∷ xs) = omega arith
  occ_shards-get_or j (suc i) (x ∷ xs) = omega (arith, occ_shards-get_or j i xs)
