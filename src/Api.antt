-- ===== src/Api.antt =====
-- crates/firq-core/src/api.rs: tasks, priorities, configuration and results. A `TenantKey` and a
-- `TaskHandle` are the `u64` that they wrap. An `Instant` and a `Duration` are numbers of
-- nanoseconds. `HashMap` is an association list.
use firq.Prelude.{ℕ, List, [], ◌∷◌, Option, none}

abbrev pub TenantKey : Type 0
TenantKey = ℕ

abbrev pub TaskHandle : Type 0
TaskHandle = ℕ

abbrev pub Instant : Type 0
Instant = ℕ

abbrev pub Duration : Type 0
Duration = ℕ

pub data Priority : Type 0 where
  high normal low : Priority

abbrev pub index : Priority → ℕ
index high = 0
index normal = 1
index low = 2

-- Priorities in dequeue order.
abbrev pub ordered : List Priority
ordered = high ∷ normal ∷ low ∷ []

pub record Task (T : Type 0) : Type 0 where
  pub payload : T
  pub enqueue_ts : Instant
  pub deadline : Option Instant
  pub priority : Priority
  pub cost : ℕ

abbrev pub QuantumProvider : Type 0
QuantumProvider = TenantKey → ℕ

pub data BackpressurePolicy : Type 0 where
  reject drop_oldest_per_tenant drop_newest_per_tenant : BackpressurePolicy
  timeout : Duration → BackpressurePolicy

pub record SchedulerConfig : Type 0 where
  pub shards : ℕ
  pub max_global : ℕ
  pub max_per_tenant : ℕ
  pub quantum : ℕ
  pub quantum_by_tenant : List (TenantKey × ℕ)
  pub quantum_provider : Option QuantumProvider
  pub backpressure : BackpressurePolicy
  pub backpressure_by_tenant : List (TenantKey × BackpressurePolicy)
  pub top_tenants_capacity : ℕ

-- `SchedulerConfig::default()`
abbrev pub default_config : SchedulerConfig
default_config = record {
  shards = 1;
  max_global = 1000;
  max_per_tenant = 100;
  quantum = 10;
  quantum_by_tenant = [];
  quantum_provider = none;
  backpressure = reject;
  backpressure_by_tenant = [];
  top_tenants_capacity = 10;
}

pub data EnqueueRejectReason : Type 0 where
  global_full tenant_full timed_out : EnqueueRejectReason

pub data EnqueueResult : Type 0 where
  enqueued : EnqueueResult
  rejected : EnqueueRejectReason → EnqueueResult
  closed : EnqueueResult

pub data EnqueueWithHandleResult : Type 0 where
  enqueued : TaskHandle → EnqueueWithHandleResult
  rejected : EnqueueRejectReason → EnqueueWithHandleResult
  closed : EnqueueWithHandleResult

pub data CloseMode : Type 0 where
  immediate drain : CloseMode

pub data CancelResult : Type 0 where
  cancelled not_found : CancelResult

pub data DequeueResult (T : Type 0) : Type 0 where
  dequeued : TenantKey → Task T → DequeueResult T
  empty closed : DequeueResult T

pub record QueueTimeBucket : Type 0 where
  pub le_ns : ℕ
  pub count : ℕ

pub record TenantCount : Type 0 where
  pub tenant : TenantKey
  pub count : ℕ
