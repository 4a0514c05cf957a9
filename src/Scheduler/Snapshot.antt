-- ===== src/Scheduler/Snapshot.antt =====
-- `stats`: the snapshot of the counters. `target` stands for the percentile's product and rounding in
-- floating point, `(total as f64 * pct).ceil() as u64`; the saturation ratio, a floating-point
-- quotient, is left as its two parts.
pub mod Laws
use firq.Prelude.{ℕ, ◌+◌, ◌%◌, List, [], ◌∷◌, leb, ◌==◌, if◌then◌else◌, sat_add, u64_mod}
use firq.Api.{QueueTimeBucket, TenantCount}
use firq.State.Stats.{queue_time_buckets_ns}
use firq.State.TopTenants.{snapshot}
use firq.Scheduler.Core.{Scheduler}

pub record SchedulerStats : Type 0 where
  pub enqueued : ℕ
  pub dequeued : ℕ
  pub expired : ℕ
  pub dropped : ℕ
  pub rejected_global : ℕ
  pub rejected_tenant : ℕ
  pub timeout_rejected : ℕ
  pub dropped_policy : ℕ
  pub queue_len_estimate : ℕ
  pub max_global : ℕ
  pub queue_time_sum_ns : ℕ
  pub queue_time_samples : ℕ
  pub queue_time_p95_ns : ℕ
  pub queue_time_p99_ns : ℕ
  pub queue_time_histogram : List QueueTimeBucket
  pub top_tenants : List TenantCount

-- Each bound with its count.
unfoldable pub histogram : List ℕ → List ℕ → List QueueTimeBucket
histogram [] counts = []
histogram (bound ∷ bounds) [] = []
histogram (bound ∷ bounds) (c ∷ counts) =
    record { le_ns = bound; count = c } ∷ histogram bounds counts

-- The sum in `u64`, which wraps.
unfoldable pub total_samples : List QueueTimeBucket → ℕ
total_samples [] = 0
total_samples (b ∷ bs) = (b.count + total_samples bs) % u64_mod

unfoldable pub last_bound : List QueueTimeBucket → ℕ
last_bound [] = 0
last_bound (b ∷ []) = b.le_ns
last_bound (b ∷ c ∷ bs) = last_bound (c ∷ bs)

-- The loop over the buckets, from a cumulated count on; `last` is given when it runs out.
unfoldable pub find_bucket : ℕ → ℕ → ℕ → List QueueTimeBucket → ℕ
find_bucket target cumulative last [] = last
find_bucket target cumulative last (b ∷ bs) =
    if leb target (sat_add cumulative b.count)
    then b.le_ns
    else find_bucket target (sat_add cumulative b.count) last bs

unfoldable pub percentile : (ℕ → ℕ) → List QueueTimeBucket → ℕ
unfolding total_samples find_bucket last_bound
percentile target buckets =
    if total_samples buckets == 0
    then 0
    else find_bucket (target (total_samples buckets)) 0 (last_bound buckets) buckets

module _ {T : Type 0} where
  -- `target95` and `target99` are the roundings for the two percentiles.
  unfoldable pub stats : (ℕ → ℕ) → (ℕ → ℕ) → Scheduler T → SchedulerStats
  unfolding histogram percentile snapshot
  stats target95 target99 s =
      let buckets = histogram queue_time_buckets_ns s.stats.queue_time_buckets in
      record {
        enqueued = s.stats.enqueued;
        dequeued = s.stats.dequeued;
        expired = s.stats.expired;
        dropped = s.stats.dropped;
        rejected_global = s.stats.rejected_global;
        rejected_tenant = s.stats.rejected_tenant;
        timeout_rejected = s.stats.timeout_rejected;
        dropped_policy = s.stats.dropped_policy;
        queue_len_estimate = s.ledger.queue_len_estimate;
        max_global = s.config.max_global;
        queue_time_sum_ns = s.stats.queue_time_sum_ns;
        queue_time_samples = s.stats.queue_time_samples;
        queue_time_p95_ns = percentile target95 buckets;
        queue_time_p99_ns = percentile target99 buckets;
        queue_time_histogram = buckets;
        top_tenants = snapshot s.top_tenants;
      }
