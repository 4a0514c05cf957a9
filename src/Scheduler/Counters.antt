-- ===== src/Scheduler/Counters.antt =====
-- The counters of `StatsCounters` that the scheduler's methods raise, each by a saturating add.
use firq.Prelude.{ℕ, List, [], ◌∷◌, leb, if◌then◌else◌, sat_add}
use firq.Api.{EnqueueRejectReason, global_full, tenant_full, timed_out}
use firq.State.Stats.{StatsCounters, queue_time_buckets_ns}

-- The loop over the bounds: the first bucket whose bound the time does not exceed.
unfoldable pub bump_bucket : ℕ → List ℕ → List ℕ → List ℕ
bump_bucket t [] counts = counts
bump_bucket t (bound ∷ bounds) [] = []
bump_bucket t (bound ∷ bounds) (c ∷ counts) =
    if leb t bound then sat_add c 1 ∷ counts else c ∷ bump_bucket t bounds counts

unfoldable pub record_queue_time : ℕ → StatsCounters → StatsCounters
unfolding bump_bucket
record_queue_time t st = record st {
  queue_time_buckets = bump_bucket t queue_time_buckets_ns st.queue_time_buckets;
}

unfoldable pub record_reject : EnqueueRejectReason → StatsCounters → StatsCounters
record_reject global_full st = record st {
  dropped = sat_add st.dropped 1;
  rejected_global = sat_add st.rejected_global 1;
}
record_reject tenant_full st = record st {
  dropped = sat_add st.dropped 1;
  rejected_tenant = sat_add st.rejected_tenant 1;
}
record_reject timed_out st = record st {
  dropped = sat_add st.dropped 1;
  timeout_rejected = sat_add st.timeout_rejected 1;
}

unfoldable pub record_policy_drop : StatsCounters → StatsCounters
record_policy_drop st = record st {
  dropped = sat_add st.dropped 1;
  dropped_policy = sat_add st.dropped_policy 1;
}

-- The counters of one dispatched task.
unfoldable pub record_dequeue : ℕ → StatsCounters → StatsCounters
unfolding record_queue_time
record_dequeue queue_time_ns st = record_queue_time queue_time_ns (record st {
  dequeued = sat_add st.dequeued 1;
  queue_time_sum_ns = sat_add st.queue_time_sum_ns queue_time_ns;
  queue_time_samples = sat_add st.queue_time_samples 1;
})
