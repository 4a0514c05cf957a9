-- ===== src/Scheduler/Core.antt =====
-- `Scheduler`, its constructor, and the small methods on its shards. The clock stands for
-- `Instant::now()`: `clock k` is its reading number `k`, and `readings` counts those made.
use firq.Prelude.{
  ℕ, ◌+◌, ◌%◌, Bool, true, false, List, Option, none, some, ltb, if◌then◌else◌, max, replicate,
  get_or, set, length,
}
use firq.Api.{Instant, TenantKey, QuantumProvider, BackpressurePolicy, SchedulerConfig}
use firq.State.Dict
use firq.State.Ring
use firq.State.Ring.{ActiveRing}
use firq.State.Ledger
use firq.State.Ledger.{Ledger}
use firq.State.Stats
use firq.State.Stats.{StatsCounters}
use firq.State.Signal
use firq.State.Signal.{WorkSignal}
use firq.State.TopTenants
use firq.State.TopTenants.{TopTenants}
use firq.State.Tenant.{Shard, new_shard}

abbrev pub shutdown_open : ℕ
shutdown_open = 0

abbrev pub shutdown_drain : ℕ
shutdown_drain = 1

abbrev pub shutdown_immediate : ℕ
shutdown_immediate = 2

pub record Scheduler (T : Type 0) : Type 0 where
  pub config : SchedulerConfig
  pub shards : List (Shard T)
  pub active_shards : ActiveRing
  pub stats : StatsCounters
  pub work_signal : WorkSignal
  pub shutdown_state : ℕ
  pub shard_active : List Bool
  pub top_tenants : TopTenants
  pub tenant_quantum : List (TenantKey × ℕ)
  pub quantum_provider : Option QuantumProvider
  pub ledger : Ledger
  pub clock : ℕ → Instant
  pub readings : ℕ

module _ {T : Type 0} where
  -- `Scheduler::new`
  unfoldable pub new : (ℕ → Instant) → SchedulerConfig → Scheduler T
  unfolding Ring.new Ledger.new Stats.new Signal.new TopTenants.new new_shard
  new clock config = record {
    config = config;
    shards = replicate (max config.shards 1) new_shard;
    active_shards = Ring.new;
    stats = Stats.new;
    work_signal = Signal.new;
    shutdown_state = shutdown_open;
    shard_active = replicate (max config.shards 1) false;
    top_tenants = TopTenants.new config.top_tenants_capacity;
    tenant_quantum = config.quantum_by_tenant;
    quantum_provider = config.quantum_provider;
    ledger = Ledger.new;
    clock = clock;
    readings = 0;
  }

  -- `Instant::now()`: the reading, and the scheduler after it.
  abbrev pub instant_now : Scheduler T → Instant
  instant_now s = s.clock s.readings

  abbrev pub tick : Scheduler T → Scheduler T
  tick s = record s { readings = s.readings + 1 }

  -- `usize` has 64 bits.
  unfoldable pub shard_index : Scheduler T → TenantKey → ℕ
  shard_index s tenant = tenant % length s.shards

  -- `self.shards[i]`, for an index in range.
  unfoldable pub shard_at : Scheduler T → ℕ → Shard T
  shard_at s i = get_or s.shards i new_shard

  -- What a guard on a shard has written.
  unfoldable pub put_shard : Scheduler T → ℕ → Shard T → Scheduler T
  put_shard s i shard = record s { shards = set s.shards i shard }

  -- `shard_active[i].swap(true)`, and the push where it was false.
  unfoldable pub activate_shard : Scheduler T → ℕ → Scheduler T
  activate_shard s i = if get_or s.shard_active i false then s else record s {
    shard_active = set s.shard_active i true;
    active_shards = Ring.push_back s.active_shards i;
  }

  unfoldable pub notify_all : Scheduler T → Scheduler T
  unfolding Signal.notify_all
  notify_all s = record s { work_signal = Signal.notify_all s.work_signal }

  unfoldable pub backpressure_for : Scheduler T → TenantKey → BackpressurePolicy
  backpressure_for s tenant = elim (Dict.lookup tenant s.config.backpressure_by_tenant) [
    | some policy ↦ policy
    | none ↦ s.config.backpressure
  ]

-- A deadline has passed when the clock is beyond it.
unfoldable pub is_expired : Option Instant → Instant → Bool
is_expired none now = false
is_expired (some deadline) now = ltb deadline now
