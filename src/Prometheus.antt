-- ===== src/Prometheus.antt =====
-- crates/firq-core/src/prometheus.rs: the text of a statistics snapshot. `number` stands for the
-- decimal text of a `u64`, and `ratio` is the text of the saturation ratio to six places.
pub mod Buckets
use Prim.Native.String.{String, ◌++◌}
use firq.Prelude.{ℕ, Bool, true, false, List, [], ◌∷◌, ◌==◌, if◌then◌else◌, sat_add, u64_max}
use firq.Api.{QueueTimeBucket, TenantCount}
use firq.Scheduler.Snapshot.{SchedulerStats}

-- Whether a text has no character.
abbrev is_empty : String → Bool
is_empty String.[] = true
is_empty (String.◌∷◌ c text) = false

-- The three lines of a metric.
abbrev metric : String → String → String → String → String → String
metric ns name help kind value =
    "# HELP " ++ ns ++ "_" ++ name ++ " " ++ help ++ "\n# TYPE " ++ ns ++ "_" ++ name ++ " " ++ kind
    ++ "\n" ++ ns ++ "_" ++ name ++ " " ++ value ++ "\n"

module _ (number : ℕ → String) where
  abbrev pub bound_text : ℕ → String
  bound_text le_ns = if le_ns == u64_max then "+Inf" else number le_ns

  unfoldable pub bucket_line : String → ℕ → ℕ → String
  bucket_line ns le_ns cumulative =
      ns ++ "_queue_time_ns_bucket{le=\"" ++ bound_text le_ns ++ "\"} " ++ number cumulative ++ "\n"

  -- The loop over the buckets, from a cumulated count on: its lines.
  unfoldable pub bucket_lines : String → ℕ → List QueueTimeBucket → List String
  bucket_lines ns cumulative [] = []
  bucket_lines ns cumulative (b ∷ bs) =
      bucket_line ns b.le_ns (sat_add cumulative b.count)
      ∷ bucket_lines ns (sat_add cumulative b.count) bs

  unfoldable pub tenant_line : String → TenantCount → String
  tenant_line ns entry =
      ns
      ++ "_tenant_dequeued_total{tenant=\""
      ++ number entry.tenant
      ++ "\"} "
      ++ number entry.count
      ++ "\n"

  unfoldable pub tenant_lines : String → List TenantCount → List String
  unfolding tenant_line
  tenant_lines ns [] = []
  tenant_lines ns (entry ∷ entries) = tenant_line ns entry ∷ tenant_lines ns entries

  -- Lines pushed one after the other.
  unfoldable pub push_all : List String → String
  push_all [] = ""
  push_all (line ∷ lines) = line ++ push_all lines

  unfoldable pub render_histogram : String → SchedulerStats → String
  unfolding bucket_lines push_all
  render_histogram ns stats = elim stats.queue_time_histogram [
    | [] ↦ ""
    | b ∷ bs ↦
        "# HELP "
        ++ ns
        ++ "_queue_time_ns Queue time histogram\n# TYPE "
        ++ ns
        ++ "_queue_time_ns histogram\n"
        ++ push_all (bucket_lines ns 0 (b ∷ bs))
        ++ ns
        ++ "_queue_time_ns_count "
        ++ number stats.queue_time_samples
        ++ "\n"
        ++ ns
        ++ "_queue_time_ns_sum "
        ++ number stats.queue_time_sum_ns
        ++ "\n"
  ]

  unfoldable pub render_tenants : String → SchedulerStats → String
  unfolding tenant_lines push_all
  render_tenants ns stats = elim stats.top_tenants [
    | [] ↦ ""
    | entry ∷ entries ↦
        "# HELP "
        ++ ns
        ++ "_tenant_dequeued_total Approx dequeued count per tenant (top talkers)\n# TYPE "
        ++ ns
        ++ "_tenant_dequeued_total gauge\n"
        ++ push_all (tenant_lines ns (entry ∷ entries))
  ]

  unfoldable pub render_counters : String → String → SchedulerStats → String
  render_counters ns ratio stats =
      metric ns "enqueued_total" "Total tasks enqueued" "counter" (number stats.enqueued)
      ++ metric ns "dequeued_total" "Total tasks dequeued" "counter" (number stats.dequeued)
      ++ metric ns "dropped_total" "Total tasks dropped by backpressure" "counter"
          (number stats.dropped)
      ++ metric ns "rejected_global_total" "Total enqueues rejected by global capacity" "counter"
          (number stats.rejected_global)
      ++ metric ns "rejected_tenant_total" "Total enqueues rejected by tenant capacity" "counter"
          (number stats.rejected_tenant)
      ++ metric ns "timeout_rejected_total" "Total enqueues rejected due to timeout" "counter"
          (number stats.timeout_rejected)
      ++ metric ns "dropped_policy_total" "Total tasks dropped by replacement policies" "counter"
          (number stats.dropped_policy)
      ++ metric ns "expired_total" "Total tasks expired before dequeue" "counter"
          (number stats.expired)
      ++ metric ns "queue_len_estimate" "Estimated queue length" "gauge"
          (number stats.queue_len_estimate)
      ++ metric ns "max_global_config" "Configured global queue capacity" "gauge"
          (number stats.max_global)
      ++ metric ns "queue_saturation_ratio"
          "Queue saturation ratio (queue_len_estimate / max_global)" "gauge" ratio
      ++ metric ns "queue_time_sum_ns" "Sum of queue time in ns" "counter"
          (number stats.queue_time_sum_ns)
      ++ metric ns "queue_time_samples" "Total queue time samples" "counter"
          (number stats.queue_time_samples)
      ++ metric ns "queue_time_p95_ns" "Approx p95 queue time in ns" "gauge"
          (number stats.queue_time_p95_ns)
      ++ metric ns "queue_time_p99_ns" "Approx p99 queue time in ns" "gauge"
          (number stats.queue_time_p99_ns)

  unfoldable pub render_stats : String → SchedulerStats → String → String
  unfolding render_counters render_histogram render_tenants
  render_stats ratio stats namespace =
      let ns = if is_empty namespace then "firq" else namespace in
      render_counters ns ratio stats ++ render_histogram ns stats ++ render_tenants ns stats
