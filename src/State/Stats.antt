-- ===== src/State/Stats.antt =====
-- crates/firq-core/src/state.rs: `QUEUE_TIME_BUCKETS_NS` and `StatsCounters`, less
-- `queue_len_estimate`, which stands with the sets of ids in the ledger of the scheduler.
use firq.Prelude.{ℕ, List, [], ◌∷◌, u64_max, length, replicate}

abbrev pub queue_time_buckets_ns : List ℕ
queue_time_buckets_ns =
    10_000 ∷ 50_000 ∷ 100_000 ∷ 500_000 ∷ 1_000_000 ∷ 5_000_000 ∷ 10_000_000 ∷ 50_000_000
    ∷ 100_000_000 ∷ 500_000_000 ∷ 1_000_000_000 ∷ u64_max ∷ []

pub record StatsCounters : Type 0 where
  pub enqueued : ℕ
  pub dequeued : ℕ
  pub expired : ℕ
  pub dropped : ℕ
  pub rejected_global : ℕ
  pub rejected_tenant : ℕ
  pub timeout_rejected : ℕ
  pub dropped_policy : ℕ
  pub queue_time_sum_ns : ℕ
  pub queue_time_samples : ℕ
  pub queue_time_buckets : List ℕ
  pub enqueue_purge_runs : ℕ

unfoldable pub new : StatsCounters
new = record {
  enqueued = 0;
  dequeued = 0;
  expired = 0;
  dropped = 0;
  rejected_global = 0;
  rejected_tenant = 0;
  timeout_rejected = 0;
  dropped_policy = 0;
  queue_time_sum_ns = 0;
  queue_time_samples = 0;
  queue_time_buckets = replicate (length queue_time_buckets_ns) 0;
  enqueue_purge_runs = 0;
}
