-- ===== src/State/Tenant.antt =====
-- crates/firq-core/src/state.rs: `QueueEntry`, `TenantState` and `Shard`. An array of three that
-- the source indexes by `Priority::index` is a record with a field for each index. A `VecDeque` is
-- a list, front first; an `i64` is an integer.
use firq.Prelude.{ℕ, ◌+◌, Bool, true, false, List, [], ◌∷◌, ◌&&◌, length, ◌≡◌, refl}
use firq.Prelude.Int.{ℤ, pos}
use firq.Api.{Priority, high, normal, low, Task, TenantKey}
use firq.State.Ring
use firq.State.Ring.{ActiveRing}

pub record PerPriority {ℓ} (A : Type ℓ) : Type ℓ where
  pub first : A
  pub second : A
  pub third : A

module _ {ℓ} {A : Type ℓ} where
  -- `[v; 3]`
  abbrev pub fill : A → PerPriority A
  fill v = record { first = v; second = v; third = v }

  -- `a[p.index()]`
  abbrev pub at : PerPriority A → Priority → A
  at a high = a.first
  at a normal = a.second
  at a low = a.third

  -- `a[p.index()] = v`
  abbrev pub put : PerPriority A → Priority → A → PerPriority A
  put a high v = record a { first = v }
  put a normal v = record a { second = v }
  put a low v = record a { third = v }

pub at-put {ℓ} : {A : Type ℓ} (a : PerPriority A) (p : Priority) (v : A) → at (put a p v) p ≡ v
at-put a high v = refl
at-put a normal v = refl
at-put a low v = refl

pub record QueueEntry (T : Type 0) : Type 0 where
  pub id : ℕ
  pub task : Task T

pub record TenantState (T : Type 0) : Type 0 where
  pub queues : PerPriority (List (QueueEntry T))
  pub deficits : PerPriority ℤ
  pub quantum : ℤ
  pub active : PerPriority Bool
  pub enqueue_attempts_since_purge : ℕ

pub record Shard (T : Type 0) : Type 0 where
  pub tenants : List (TenantKey × TenantState T)
  pub active_rings : PerPriority ActiveRing

module _ {T : Type 0} where
  -- `TenantState::new`
  unfoldable pub new_tenant : ℤ → TenantState T
  new_tenant quantum = record {
    queues = fill [];
    deficits = fill (pos 0);
    quantum = quantum;
    active = fill false;
    enqueue_attempts_since_purge = 0;
  }

  unfoldable pub total_len : TenantState T → ℕ
  total_len t = length t.queues.first + length t.queues.second + length t.queues.third

  -- `Shard::new`
  unfoldable pub new_shard : Shard T
  new_shard = record { tenants = []; active_rings = fill Ring.new }

  -- `shard.active_rings.iter().all(|ring| ring.is_empty())`; its negation is the `any` of
  -- `try_dequeue`.
  unfoldable pub rings_empty : Shard T → Bool
  rings_empty s =
      Ring.is_empty s.active_rings.first
      && Ring.is_empty s.active_rings.second
      && Ring.is_empty s.active_rings.third

  abbrev pub is_empty : List (QueueEntry T) → Bool
  is_empty [] = true
  is_empty (e ∷ q) = false
