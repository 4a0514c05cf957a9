-- ===== src/Bench.antt =====
-- crates/firq-bench/src/main.rs: the scenarios of the benchmark, its histogram, and the scheduler it
-- sets up. Seconds and milliseconds are numbers; the threads and the printed output are left out.
pub mod Fifo
use Prim.Native.String.{String}
use firq.Prelude.{
  ℕ, zero, suc, ◌+◌, ◌*◌, ◌%◌, u64_mod, Bool, true, false, List, [], ◌∷◌, ◌++◌, Option, none, some,
  leb, length, replicate, if◌then◌else◌,
}
use firq.Api.{Instant, TenantKey, Priority, high, normal, low, Task, SchedulerConfig, reject}
use firq.State.Stats
use firq.Scheduler.Snapshot.{histogram, percentile}

-- The bounds of the buckets: those of the scheduler's own histogram but for its last one.
abbrev pub queue_time_buckets_ns : List ℕ
queue_time_buckets_ns =
    10000 ∷ 50000 ∷ 100000 ∷ 500000 ∷ 1000000 ∷ 5000000 ∷ 10000000 ∷ 50000000 ∷ 100000000
    ∷ 500000000 ∷ 1000000000 ∷ 5000000000 ∷ 10000000000 ∷ 30000000000 ∷ 60000000000 ∷ 120000000000
    ∷ []

pub record BenchConfig : Type 0 where
  pub default_run_seconds : ℕ
  pub worker_count : ℕ
  pub max_global : ℕ
  pub max_per_tenant : ℕ
  pub quantum : ℕ

abbrev pub default_bench_config : BenchConfig
default_bench_config = record {
  default_run_seconds = 8;
  worker_count = 2;
  max_global = 10000;
  max_per_tenant = 1000;
  quantum = 2;
}

pub data ProducerClass : Type 0 where
  hot cold : ProducerClass

pub record ProducerProfile : Type 0 where
  pub tenant : TenantKey
  pub class : ProducerClass
  pub interval_ms : ℕ
  pub priority : Priority
  pub cost : ℕ
  pub deadline_ms : Option ℕ

pub record Scenario : Type 0 where
  pub name : String
  pub description : String
  pub run_seconds : Option ℕ
  pub work_ms : ℕ
  pub max_global : Option ℕ
  pub max_per_tenant : Option ℕ
  pub producers : List ProducerProfile
  pub report_cold_tail : Bool

-- A loop over tenants, from `first` on, that pushes the same profile for each.
unfoldable pub producers_from : ℕ → ℕ → ProducerProfile → List ProducerProfile
producers_from first zero profile = []
producers_from first (suc n) profile =
    record profile { tenant = first } ∷ producers_from (suc first) n profile

abbrev pub profile_of : ProducerClass → ℕ → Priority → Option ℕ → ProducerProfile
profile_of class interval_ms priority deadline_ms = record {
  tenant = 0;
  class = class;
  interval_ms = interval_ms;
  priority = priority;
  cost = 1;
  deadline_ms = deadline_ms;
}

unfoldable pub hot_tenant_sustained : Scenario
unfolding producers_from
hot_tenant_sustained = record {
  name = "hot_tenant_sustained";
  description = "A sustained hot tenant competes with many cold tenants";
  run_seconds = some 6;
  work_ms = 1;
  max_global = some 50000;
  max_per_tenant = some 1000;
  producers =
      producers_from 1 1 (profile_of hot 0 high none)
      ++ producers_from 2 20 (profile_of cold 15 low none);
  report_cold_tail = true;
}

unfoldable pub burst_massive : Scenario
unfolding producers_from
burst_massive = record {
  name = "burst_massive";
  description = "Massive burst of simultaneous producers";
  run_seconds = some 4;
  work_ms = 2;
  max_global = some 6000;
  max_per_tenant = some 200;
  producers = producers_from 1 160 (profile_of cold 0 normal none);
  report_cold_tail = false;
}

unfoldable pub mixed_priorities : Scenario
unfolding producers_from
mixed_priorities = record {
  name = "mixed_priorities";
  description = "Mixed High/Normal/Low priorities under load";
  run_seconds = none;
  work_ms = 2;
  max_global = none;
  max_per_tenant = none;
  producers =
      producers_from 1 20 (profile_of hot 2 high none)
      ++ producers_from 21 60 (profile_of cold 4 normal none)
      ++ producers_from 81 60 (profile_of cold 7 low none);
  report_cold_tail = false;
}

unfoldable pub deadline_expiration : Scenario
unfolding producers_from
deadline_expiration = record {
  name = "deadline_expiration";
  description = "Short deadlines to force dequeue expirations";
  run_seconds = some 5;
  work_ms = 6;
  max_global = some 4000;
  max_per_tenant = some 128;
  producers = producers_from 1 80 (profile_of cold 1 normal (some 5));
  report_cold_tail = false;
}

unfoldable pub capacity_pressure : Scenario
unfolding producers_from
capacity_pressure = record {
  name = "capacity_pressure";
  description = "Global and per-tenant capacity pressure";
  run_seconds = some 5;
  work_ms = 3;
  max_global = some 2000;
  max_per_tenant = some 40;
  producers = producers_from 1 120 (profile_of cold 0 normal none);
  report_cold_tail = false;
}

unfoldable pub scenarios : List Scenario
unfolding hot_tenant_sustained burst_massive mixed_priorities deadline_expiration capacity_pressure
scenarios =
    hot_tenant_sustained ∷ burst_massive ∷ mixed_priorities ∷ deadline_expiration
    ∷ capacity_pressure ∷ []

abbrev pub unwrap_or : Option ℕ → ℕ → ℕ
unwrap_or (some n) default = n
unwrap_or none default = default

-- The scheduler that `run_firq` sets up.
unfoldable pub firq_config : BenchConfig → Scenario → SchedulerConfig
firq_config config scenario = record {
  shards = 4;
  max_global = unwrap_or scenario.max_global config.max_global;
  max_per_tenant = unwrap_or scenario.max_per_tenant config.max_per_tenant;
  quantum = config.quantum;
  quantum_by_tenant = [];
  quantum_provider = none;
  backpressure = reject;
  backpressure_by_tenant = [];
  top_tenants_capacity = 64;
}

-- The task of one round of a producer; `now` is the reading for its deadline, and `stamp` the next.
unfoldable pub produced_task : ProducerProfile → Instant → Instant → Task ProducerClass
produced_task profile now stamp = record {
  payload = profile.class;
  enqueue_ts = stamp;
  deadline = elim profile.deadline_ms [ none ↦ none | some ms ↦ some (now + ms * 1000000) ];
  priority = profile.priority;
  cost = profile.cost;
}

-- `ConcurrentHistogram`: its counts.
unfoldable pub new_histogram : List ℕ
new_histogram = replicate (length queue_time_buckets_ns) 0

-- The loop over the bounds: the first bucket whose bound the value does not exceed.
unfoldable pub observe_from : ℕ → List ℕ → List ℕ → List ℕ
observe_from value_ns [] counts = counts
observe_from value_ns (bound ∷ bounds) [] = []
observe_from value_ns (bound ∷ bounds) (c ∷ counts) =
    if leb value_ns bound
    then (c + 1) % u64_mod ∷ counts
    else c ∷ observe_from value_ns bounds counts

unfoldable pub observe : ℕ → List ℕ → List ℕ
unfolding observe_from
observe value_ns counts = observe_from value_ns queue_time_buckets_ns counts

-- `percentile_from_counts`; `target` is the product and rounding in floating point.
unfoldable pub percentile_from_counts : (ℕ → ℕ) → List ℕ → ℕ
unfolding histogram percentile
percentile_from_counts target counts = percentile target (histogram queue_time_buckets_ns counts)
