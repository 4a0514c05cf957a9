-- ===== src/Tower/Builder.antt =====
-- crates/firq-tower/src/builder.rs: `Firq`, and what `build` makes of it. The semaphore is the
-- number of its permits; the worker thread is not part of the record.
use firq.Prelude.{ℕ, Option, none, some, max}
use firq.Api.{Instant, TenantKey, SchedulerConfig, default_config, BackpressurePolicy}
use firq.Scheduler.Core
use firq.Scheduler.Core.{Scheduler}
use firq.Tower.{RejectionMapper, default_rejection_mapper}

pub record Firq (Request : Type 0) : Type 0 where
  pub config : SchedulerConfig
  pub in_flight_limit : ℕ
  pub deadline_extractor : Option (Request → Option Instant)
  pub rejection_mapper : RejectionMapper

pub record FirqLayer (Request T : Type 0) : Type 0 where
  pub scheduler : Scheduler T
  pub extractor : Request → TenantKey
  pub in_flight : ℕ
  pub max_in_flight : ℕ
  pub deadline_extractor : Option (Request → Option Instant)
  pub rejection_mapper : RejectionMapper

module _ {Request : Type 0} where
  unfoldable pub default_firq : Firq Request
  unfolding default_rejection_mapper
  default_firq = record {
    config = default_config;
    in_flight_limit = 256;
    deadline_extractor = none;
    rejection_mapper = default_rejection_mapper;
  }

  unfoldable pub with_shards : ℕ → Firq Request → Firq Request
  with_shards shards f = record f { config = record f.config { shards = shards } }

  unfoldable pub with_max_global : ℕ → Firq Request → Firq Request
  with_max_global limit f = record f { config = record f.config { max_global = limit } }

  unfoldable pub with_max_per_tenant : ℕ → Firq Request → Firq Request
  with_max_per_tenant limit f = record f { config = record f.config { max_per_tenant = limit } }

  unfoldable pub with_quantum : ℕ → Firq Request → Firq Request
  with_quantum quantum f = record f { config = record f.config { quantum = quantum } }

  unfoldable pub with_backpressure : BackpressurePolicy → Firq Request → Firq Request
  with_backpressure policy f = record f { config = record f.config { backpressure = policy } }

  unfoldable pub with_in_flight_limit : ℕ → Firq Request → Firq Request
  with_in_flight_limit limit f = record f { in_flight_limit = max limit 1 }

  unfoldable pub with_deadline_extractor : (Request → Option Instant) → Firq Request → Firq Request
  with_deadline_extractor extractor f = record f { deadline_extractor = some extractor }

  unfoldable pub with_rejection_mapper : RejectionMapper → Firq Request → Firq Request
  with_rejection_mapper mapper f = record f { rejection_mapper = mapper }

  -- `FirqLayer::new` on a new scheduler.
  unfoldable pub build :
      {T : Type 0} → (ℕ → Instant) → (Request → TenantKey) → Firq Request → FirqLayer Request T
  build clock extractor f = record {
    scheduler = Core.new clock f.config;
    extractor = extractor;
    in_flight = max f.in_flight_limit 1;
    max_in_flight = max f.in_flight_limit 1;
    deadline_extractor = f.deadline_extractor;
    rejection_mapper = f.rejection_mapper;
  }
