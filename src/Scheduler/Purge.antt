-- ===== src/Scheduler/Purge.antt =====
-- Purging a tenant's queues before an enqueue: `maybe_purge_tenant_before_enqueue` down to
-- `purge_queue_with_budget`.
pub mod Queue
pub mod Tenant
pub mod Marked
use firq.Prelude.{
  ℕ, zero, suc, ◌*◌, Bool, true, false, List, [], ◌∷◌, Option, none, some, ltb, leb, ◌==◌, ◌||◌,
  if◌then◌else◌, sat_add, sat_add32,
}
use firq.Api.{Instant, Priority, high, normal, low}
use firq.State.Ledger.{Ledger, take_pending, take_cancelled_marker, release_reserved_slots}
use firq.State.Tenant.{TenantState, QueueEntry, at, put, total_len, is_empty}
use firq.Scheduler.Core.{Scheduler, instant_now, tick, is_expired, notify_all}

abbrev pub enqueue_purge_interval : ℕ
enqueue_purge_interval = 32

abbrev pub near_limit_percent : ℕ
near_limit_percent = 90

pub data EnqueuePurgeReason : Type 0 where
  periodic near_limit full : EnqueuePurgeReason

-- How far beyond the front a purge looks: the scan budgets.
abbrev pub side_scan_budget : EnqueuePurgeReason → ℕ
side_scan_budget periodic = 0
side_scan_budget near_limit = 8
side_scan_budget full = 32

pub record PurgeStats : Type 0 where
  pub removed_expired_live : ℕ
  pub released_slots : ℕ

abbrev pub no_purge : PurgeStats
no_purge = record { removed_expired_live = 0; released_slots = 0 }

-- The counts of an entry removed because of its marker, and because of its deadline; `live` is
-- what `take_pending` said of it.
abbrev pub count_cancelled : Bool → PurgeStats → PurgeStats
count_cancelled live st =
    if live then record st { released_slots = sat_add st.released_slots 1 } else st

abbrev pub count_expired : Bool → PurgeStats → PurgeStats
count_expired live st =
    if live
    then record st {
      removed_expired_live = sat_add st.removed_expired_live 1;
      released_slots = sat_add st.released_slots 1;
    }
    else st

abbrev pub ran_full : Option EnqueuePurgeReason → Bool
ran_full (some full) = true
ran_full _ = false

-- A queue under a purge, with what the purge has done so far.
pub record PurgedQueue (T : Type 0) : Type 0 where
  pub queue : List (QueueEntry T)
  pub ledger : Ledger
  pub stats : PurgeStats

pub record PurgedTenant (T : Type 0) : Type 0 where
  pub tenant_state : TenantState T
  pub ledger : Ledger
  pub stats : PurgeStats

-- What a purge gives its caller: the scheduler, the tenant's state and the statistics.
pub record Purge (T : Type 0) : Type 0 where
  pub scheduler : Scheduler T
  pub tenant_state : TenantState T
  pub stats : PurgeStats

module _ {T : Type 0} where
  -- The `while let` loop over the front: dead entries leave until a live one is met.
  unfoldable pub purge_front : Instant → List (QueueEntry T) → Ledger → PurgeStats → PurgedQueue T
  purge_front now [] g st = record { queue = []; ledger = g; stats = st }
  purge_front now (e ∷ queue) g st =
      let (marked, g') = take_cancelled_marker e.id g in
      let (live, g'') = take_pending e.id g' in
      elim marked [
        | true ↦ purge_front now queue g'' (count_cancelled live st)
        | false ↦ elim (is_expired e.task.deadline now) [
          | true ↦ purge_front now queue g'' (count_expired live st)
          | false ↦ record { queue = e ∷ queue; ledger = g'; stats = st }
        ]
      ]

  -- The loop over `idx`, on the entries from `idx` on; the budget falls with every entry scanned.
  unfoldable pub side_scan : Instant → ℕ → List (QueueEntry T) → Ledger → PurgeStats → PurgedQueue T
  side_scan now zero queue g st = record { queue = queue; ledger = g; stats = st }
  side_scan now (suc budget) [] g st = record { queue = []; ledger = g; stats = st }
  side_scan now (suc budget) (e ∷ queue) g st =
      let (marked, g') = take_cancelled_marker e.id g in
      let (live, g'') = take_pending e.id g' in
      elim marked [
        | true ↦ side_scan now budget queue g'' (count_cancelled live st)
        | false ↦ elim (is_expired e.task.deadline now) [
          | true ↦ side_scan now budget queue g'' (count_expired live st)
          | false ↦
              let rest = side_scan now budget queue g' st in record rest { queue = e ∷ rest.queue }
        ]
      ]

  unfoldable pub purge_queue_with_budget :
      Instant → ℕ → List (QueueEntry T) → Ledger → PurgeStats → PurgedQueue T
  purge_queue_with_budget now budget queue g st =
      let front = purge_front now queue g st in
      if (budget == 0) || is_empty front.queue
      then front
      else side_scan now budget front.queue front.ledger front.stats

  -- One round of the loop over the three queues.
  unfoldable pub purge_level : Instant → ℕ → Priority → PurgedTenant T → PurgedTenant T
  purge_level now budget p t =
      let ts = t.tenant_state in
      let purged = purge_queue_with_budget now budget (at ts.queues p) t.ledger t.stats in
      record {
        tenant_state = record ts {
          queues = put ts.queues p purged.queue;
          active = if is_empty purged.queue then put ts.active p false else ts.active;
        };
        ledger = purged.ledger;
        stats = purged.stats;
      }

  unfoldable pub purge_tenant_with_budget : Instant → ℕ → TenantState T → Ledger → PurgedTenant T
  purge_tenant_with_budget now budget ts g = purge_level now budget low (
      purge_level now budget normal
        (purge_level now budget high (record { tenant_state = ts; ledger = g; stats = no_purge })))

  unfoldable pub record_enqueue_purge_stats : PurgeStats → Scheduler T → Scheduler T
  record_enqueue_purge_stats st s =
      let s' = record s {
        stats = record s.stats {
          enqueue_purge_runs = sat_add s.stats.enqueue_purge_runs 1;
          expired = sat_add s.stats.expired st.removed_expired_live;
        };
      } in
      if ltb 0 st.released_slots
      then notify_all (record s' { ledger = release_reserved_slots st.released_slots s'.ledger })
      else s'

  unfoldable pub purge_tenant_for_enqueue :
      EnqueuePurgeReason → Scheduler T → TenantState T → Purge T
  purge_tenant_for_enqueue reason s ts =
      let now = instant_now s in
      let purged = purge_tenant_with_budget now (side_scan_budget reason) ts s.ledger in
      record {
        scheduler =
            record_enqueue_purge_stats purged.stats (record (tick s) { ledger = purged.ledger });
        tenant_state = record purged.tenant_state { enqueue_attempts_since_purge = 0 };
        stats = purged.stats;
      }

  -- In 128 bits the products do not saturate.
  unfoldable pub is_tenant_near_limit : Scheduler T → ℕ → Bool
  is_tenant_near_limit s tenant_len =
      if s.config.max_per_tenant == 0
      then true
      else leb (s.config.max_per_tenant * near_limit_percent) (tenant_len * 100)

  -- Why to purge, after the attempt has been counted.
  unfoldable pub purge_reason : Scheduler T → TenantState T → Option EnqueuePurgeReason
  purge_reason s ts =
      if leb s.config.max_per_tenant (total_len ts)
      then some full
      else if is_tenant_near_limit s (total_len ts)
      then some near_limit
      else if leb enqueue_purge_interval ts.enqueue_attempts_since_purge
      then some periodic
      else none

  abbrev pub count_attempt : TenantState T → TenantState T
  count_attempt ts = record ts {
    enqueue_attempts_since_purge = sat_add32 ts.enqueue_attempts_since_purge 1;
  }

  -- The purge for a reason, where there is one.
  unfoldable pub run_purge : Option EnqueuePurgeReason → Scheduler T → TenantState T → Purge T
  run_purge none s ts = record { scheduler = s; tenant_state = ts; stats = no_purge }
  run_purge (some reason) s ts = purge_tenant_for_enqueue reason s ts

  -- The reason is the first component.
  unfoldable pub maybe_purge_tenant_before_enqueue :
      Scheduler T → TenantState T → Option EnqueuePurgeReason × Purge T
  maybe_purge_tenant_before_enqueue s ts =
      let counted = count_attempt ts in
      let reason = purge_reason s counted in (reason, run_purge reason s counted)
