-- ===== src/Scheduler/Start.antt =====
-- `Scheduler::new` gives a scheduler for which the invariants hold.
use firq.Prelude.{
  ℕ, zero, suc, ◌≤◌, ◌≡◌, refl, arith, none, replicate, length-replicate, get_or, u64_max, max,
}
use firq.Api.{Instant, SchedulerConfig}
use firq.State.Dict
use firq.State.Ring
use firq.State.Ledger
use firq.State.Queued.{occ_shards, occ_shard}
use firq.State.Tenant.{new_shard}
use firq.Scheduler.Core.{new, shard_at}
use firq.Scheduler.Valid.{IsValid, queued}
use firq.Scheduler.Ringed.{IsRinged}

occ-new_shards : (T : Type 0) (n j : ℕ) → occ_shards j (replicate n (new_shard {T = T})) ≡ 0
unfolding occ_shards occ_shard new_shard Dict.total
occ-new_shards T zero j = refl
occ-new_shards T (suc n) j = omega (arith, occ-new_shards T n j)

pub new_shard-no_tenant :
    (T : Type 0) (n i t : ℕ)
    → Dict.lookup t (get_or (replicate n (new_shard {T = T})) i new_shard).tenants ≡ none
unfolding new_shard Dict.lookup
new_shard-no_tenant T zero i t = refl
new_shard-no_tenant T (suc n) zero t = refl
new_shard-no_tenant T (suc n) (suc i) t = new_shard-no_tenant T n i t

module _ {T : Type 0} where
  -- `new` gives a scheduler for which both invariants hold, where `max_global` fits a `u64`.
  pub new-IsValid :
      (clock : ℕ → Instant) (config : SchedulerConfig)
      → config.max_global ≤ u64_max
      → IsValid {T = T} (new clock config) × IsRinged {T = T} (new clock config)
  unfolding new queued shard_at Ledger.new Ring.new Ring.items
  new-IsValid clock config h = (
    record {
      accounts = record {
        balanced = λ j. occ-new_shards T (max config.shards 1) j;
        once = λ j. omega (arith, occ-new_shards T (max config.shards 1) j);
        latest = refl;
        issued = λ j lt. occ-new_shards T (max config.shards 1) j;
        slots = refl;
        fits = omega arith;
        word = h;
      };
      sharded = omega (arith, length-replicate (max config.shards 1) (new_shard {T = T}));
      limited =
          λ i t u e. absurd (ground (arith, e, new_shard-no_tenant T (max config.shards 1) i t));
    },
    record { ring = omega arith; below = tt },
  )
