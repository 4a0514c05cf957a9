-- ===== src/Scheduler/Drop.antt =====
-- Enqueueing under the policies that drop a task of the same tenant: `drop_from_tenant` and
-- `enqueue_drop_with_handle`.
pub mod Valid
pub mod Ringed
pub mod Laws
pub mod Active
pub mod Below
use firq.Prelude.{
  ℕ, Bool, true, false, not, ◌||◌, List, [], ◌∷◌, Option, none, some, leb, if◌then◌else◌,
}
use firq.Api.{
  TenantKey, EnqueueRejectReason, Priority, high, normal, low, Task, global_full, tenant_full,
  EnqueueWithHandleResult,
}
use firq.State.Ledger.{take_pending, clear_cancelled_marker}
use firq.State.Tenant.{Shard, TenantState, QueueEntry, at, put}
use firq.Scheduler.Core.{Scheduler, shard_index, shard_at}
use firq.Scheduler.Counters.{record_policy_drop}
use firq.Scheduler.Shutdown.{is_accepting_enqueues}
use firq.Scheduler.Insert.{
  Admission, Reservation, tenant_entry, write_back, reserve, commit, admit, is_tenant_full,
  reject_with,
}

pub data DropStrategy : Type 0 where
  oldest newest : DropStrategy

-- The priorities that an incoming task may displace, lowest first.
abbrev pub drop_order : Priority → List Priority
drop_order high = low ∷ normal ∷ high ∷ []
drop_order normal = low ∷ normal ∷ []
drop_order low = low ∷ []

-- The result of `drop_from_tenant`: the entry dropped, and the state without it.
pub record Dropped (T : Type 0) : Type 0 where
  pub entry : QueueEntry T
  pub tenant_state : TenantState T

module _ {T : Type 0} where
  -- `pop_back`: the last entry, and the others.
  unfoldable pub pop_back : QueueEntry T → List (QueueEntry T) → QueueEntry T × List (QueueEntry T)
  pop_back e [] = (e, [])
  pop_back e (f ∷ queue) = let (last, rest) = pop_back f queue in (last, e ∷ rest)

  unfoldable pub take_entry :
      DropStrategy → QueueEntry T → List (QueueEntry T) → QueueEntry T × List (QueueEntry T)
  take_entry oldest e queue = (e, queue)
  take_entry newest e queue = pop_back e queue

  -- The loop over the drop order: the first queue that is not empty gives an entry.
  unfoldable pub drop_first : DropStrategy → List Priority → TenantState T → Option (Dropped T)
  drop_first strategy [] ts = none
  drop_first strategy (p ∷ ps) ts = elim (at ts.queues p) [
    | [] ↦ drop_first strategy ps ts
    | e ∷ queue ↦
        let (entry, rest) = take_entry strategy e queue in
        some (record { entry = entry; tenant_state = record ts { queues = put ts.queues p rest } })
  ]

  unfoldable pub drop_from_tenant : DropStrategy → Priority → TenantState T → Option (Dropped T)
  drop_from_tenant strategy incoming ts = drop_first strategy (drop_order incoming) ts

  -- What becomes of the entry dropped; the slot of a live one is reused.
  unfoldable pub forget_dropped : QueueEntry T → Scheduler T → Bool × Scheduler T
  forget_dropped e s =
      let (live, g) = take_pending e.id (clear_cancelled_marker e.id s.ledger) in
      (live, record s { ledger = g; stats = if live then record_policy_drop s.stats else s.stats })

  -- The end of `enqueue_drop_with_handle`, from where a slot is at hand or not.
  unfoldable pub settle_drop :
      ℕ → Shard T → TenantKey → Task T → Reservation T → Scheduler T × EnqueueWithHandleResult
  settle_drop i shard tenant task r =
      if r.reserved
      then (let (s, handle) = commit i shard tenant r.tenant_state task r.scheduler in
          (s, EnqueueWithHandleResult.enqueued handle))
      else (
        reject_with global_full (write_back i shard tenant r.tenant_state r.scheduler),
        EnqueueWithHandleResult.rejected global_full,
      )

  -- The slot of a live entry that was dropped, or a new one.
  unfoldable pub reuse_or_reserve : Bool → Bool → Scheduler T → TenantState T → Reservation T
  reuse_or_reserve reused_slot ran_full_purge s ts =
      if reused_slot
      then record { reserved = true; scheduler = s; tenant_state = ts }
      else reserve ran_full_purge s ts

  -- The branch at a limit: `reason` is given where there is nothing to drop.
  unfoldable pub at_limit :
      DropStrategy
      → ℕ
      → Shard T
      → TenantKey
      → Task T
      → EnqueueRejectReason
      → Admission T
      → Scheduler T × EnqueueWithHandleResult
  at_limit strategy i shard tenant task reason a =
      elim (drop_from_tenant strategy task.priority a.tenant_state) [
        | none ↦ (
          reject_with reason (write_back i shard tenant a.tenant_state a.scheduler),
          EnqueueWithHandleResult.rejected reason,
        )
        | some d ↦
            let (reused_slot, s') = forget_dropped d.entry a.scheduler in
            settle_drop i shard tenant task
              (reuse_or_reserve reused_slot a.ran_full_purge s' d.tenant_state)
      ]

  unfoldable pub enqueue_drop_with_handle :
      DropStrategy → TenantKey → Task T → Scheduler T → Scheduler T × EnqueueWithHandleResult
  enqueue_drop_with_handle strategy tenant task s =
      if not (is_accepting_enqueues s)
      then (s, EnqueueWithHandleResult.closed)
      else let i = shard_index s tenant in
        let shard = shard_at s i in
        let a = admit s (tenant_entry s shard tenant) in
        let at_tenant_limit = is_tenant_full a.scheduler a.tenant_state in
        let at_global_limit =
          leb a.scheduler.config.max_global a.scheduler.ledger.queue_len_estimate in
        if at_tenant_limit || at_global_limit
        then at_limit strategy i shard tenant task
            (if at_tenant_limit then tenant_full else global_full) a
        else settle_drop i shard tenant task
            (reuse_or_reserve false a.ran_full_purge a.scheduler a.tenant_state)
