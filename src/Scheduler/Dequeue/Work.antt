-- ===== src/Scheduler/Dequeue/Work.antt =====
-- A measure of what a consumer has still to do, which a turn that finds no task lowers: the
-- entries queued, what their tenants' deficits lack of their costs, and the places in the rings.
use firq.Prelude.{
  ℕ, ◌+◌, ◌-◌, ◌≤◌, ◌<◌, ◌≡◌, List, [], ◌∷◌, arith, inl, inr, Bool-cases, some, length, min,
  i64_max, All,
}
use firq.Prelude.Int.{ℤ, pos, negsuc, pos_part, neg_part, wrap_i64, as_i64}
use firq.Api.{Instant, Priority, high, normal, low, TenantKey}
use firq.State.Dict
use firq.State.Ring
use firq.State.Ring.{ActiveRing}
use firq.State.Ledger.{Ledger, take_cancelled_marker}
use firq.State.Tenant.{PerPriority, TenantState, QueueEntry, Shard, at, put}
use firq.Scheduler.Core.{is_expired}
use firq.Scheduler.Dequeue.{drop_dead}

-- A sum of signed numbers that fits does not wrap.
pub wrap_i64-fits : (v : ℤ) → pos_part v ≤ i64_max → neg_part v ≤ i64_max → wrap_i64 v ≡ v
unfolding wrap_i64 as_i64
wrap_i64-fits (pos n) h k = ground arith
wrap_i64-fits (negsuc n) h k = ground arith

-- What a deficit lacks of a cost.
abbrev pub lack : ℕ → ℤ → ℕ
lack cost deficit = (cost + neg_part deficit) - pos_part deficit

abbrev pub places : PerPriority ActiveRing → ℕ
places rings =
    length (Ring.items rings.first)
    + length (Ring.items rings.second)
    + length (Ring.items rings.third)

pub places-put :
    (p : Priority) (rings : PerPriority ActiveRing) (ring : ActiveRing)
    → places (put rings p ring) + length (Ring.items (at rings p))
      ≡ places rings + length (Ring.items ring)
places-put high rings ring = omega arith
places-put normal rings ring = omega arith
places-put low rings ring = omega arith

module _ {T : Type 0} where
  unfoldable pub costs : List (QueueEntry T) → ℕ
  costs [] = 0
  costs (e ∷ queue) = min e.task.cost i64_max + costs queue

  abbrev pub queue_work : List (QueueEntry T) → ℤ → ℕ
  queue_work queue deficit = length queue + lack (costs queue) deficit

  unfoldable pub tenant_work : TenantState T → ℕ
  tenant_work ts =
      queue_work ts.queues.first ts.deficits.first
      + queue_work ts.queues.second ts.deficits.second
      + queue_work ts.queues.third ts.deficits.third

  unfoldable pub shard_work : Shard T → ℕ
  shard_work shard = places shard.active_rings + Dict.total tenant_work shard.tenants

  -- A tenant whose quantum is positive, and whose deficit stays in range when it earns a quantum:
  -- no task costs more than `most`.
  pub record IsFunded (most : ℕ) (ts : TenantState T) : Type 0 where
    pub positive : 0 < pos_part ts.quantum
    pub signed : neg_part ts.quantum ≡ 0
    pub fits : pos_part ts.quantum + most ≤ i64_max
    pub debts : (p : Priority) → neg_part (at ts.deficits p) ≤ i64_max
    pub cheap : (p : Priority) → All (λ (e : QueueEntry T). e.task.cost ≤ most) (at ts.queues p)

  abbrev pub FundedShard : ℕ → Shard T → Type 0
  FundedShard most shard =
      (tenant : TenantKey) (ts : TenantState T)
      → Dict.lookup tenant shard.tenants ≡ some ts
      → IsFunded most ts

  pub tenant_work-put :
      (p : Priority) (ts ts' : TenantState T) (queue : List (QueueEntry T)) (deficit : ℤ)
      → ts'.queues ≡ put ts.queues p queue
      → ts'.deficits ≡ put ts.deficits p deficit
      → tenant_work ts' + queue_work (at ts.queues p) (at ts.deficits p)
        ≡ tenant_work ts + queue_work queue deficit
  unfolding tenant_work
  tenant_work-put high ts ts' queue deficit eq ed = rw (eq, ed) (omega arith)
  tenant_work-put normal ts ts' queue deficit eq ed = rw (eq, ed) (omega arith)
  tenant_work-put low ts ts' queue deficit eq ed = rw (eq, ed) (omega arith)

  -- The dead front that leaves a queue.
  abbrev pub Shrinks : List (QueueEntry T) → List (QueueEntry T) → Type 0
  Shrinks after before = (length after ≤ length before) × (costs after ≤ costs before)

  Shrinks-cons :
      (e : QueueEntry T) (after before : List (QueueEntry T))
      → Shrinks after before
      → Shrinks after (e ∷ before)
  unfolding costs
  Shrinks-cons e after before h = (omega (arith, h.0), omega (arith, h.1))

  pub drop_dead-work :
      (now : Instant) (queue : List (QueueEntry T)) (g : Ledger) (n : ℕ)
      → Shrinks (drop_dead now queue g n).queue queue
  unfolding drop_dead take_cancelled_marker
  drop_dead-work now [] g n = (omega arith, omega arith)
  drop_dead-work now (e ∷ queue) g n = elim (Bool-cases (take_cancelled_marker e.id g).0) [
    | inl m ↦ rw (m, drop_dead) (Shrinks-cons e _ queue (drop_dead-work now queue _ n))
    | inr m ↦
        rw (m, drop_dead)
          (elim (Bool-cases (is_expired e.task.deadline now)) [
            | inl x ↦ rw x (Shrinks-cons e _ queue (drop_dead-work now queue _ _))
            | inr x ↦ rw x (omega arith, omega arith)
          ])
  ]

  pub drop_dead-All :
      (P : QueueEntry T → Type 0) (now : Instant) (queue : List (QueueEntry T)) (g : Ledger) (n : ℕ)
      → All P queue
      → All P (drop_dead now queue g n).queue
  unfolding drop_dead take_cancelled_marker
  drop_dead-All P now [] g n a = a
  drop_dead-All P now (e ∷ queue) g n a = elim (Bool-cases (take_cancelled_marker e.id g).0) [
    | inl m ↦ rw (m, drop_dead) (drop_dead-All P now queue _ n a.1)
    | inr m ↦
        rw (m, drop_dead)
          (elim (Bool-cases (is_expired e.task.deadline now)) [
            | inl x ↦ rw x (drop_dead-All P now queue _ _ a.1)
            | inr x ↦ rw x a
          ])
  ]
