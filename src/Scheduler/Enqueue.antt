-- ===== src/Scheduler/Enqueue.antt =====
-- Enqueueing under the policy `Reject`: `enqueue_try_reject` and `enqueue_reject_with_handle`.
pub mod Valid
pub mod Ringed
pub mod Active
pub mod Reasons
use firq.Prelude.{ℕ, true, not, ◌&&◌, if◌then◌else◌}
use firq.Api.{
  TenantKey, TaskHandle, Task, EnqueueRejectReason, global_full, tenant_full,
  EnqueueWithHandleResult,
}
use firq.State.Tenant.{Shard}
use firq.Scheduler.Core.{Scheduler, shard_index, shard_at}
use firq.Scheduler.Shutdown.{is_accepting_enqueues}
use firq.Scheduler.Purge.{full, purge_tenant_for_enqueue}
use firq.Scheduler.Insert.{
  Reservation, Admission, tenant_entry, write_back, reserve, commit, admit, is_tenant_full,
  reject_with,
}

pub data EnqueueAttempt (T : Type 0) : Type 0 where
  accepted : TaskHandle → EnqueueAttempt T
  shut : EnqueueAttempt T
  refused : Task T → EnqueueRejectReason → EnqueueAttempt T

module _ {T : Type 0} where
  -- The full purge of a tenant found at its limit, where none was made yet.
  unfoldable pub purge_if_full : Admission T → Admission T
  purge_if_full a =
      if is_tenant_full a.scheduler a.tenant_state && not a.ran_full_purge
      then (let purge = purge_tenant_for_enqueue full a.scheduler a.tenant_state in
          record {
            scheduler = purge.scheduler;
            tenant_state = purge.tenant_state;
            ran_full_purge = true;
          })
      else a

  -- `enqueue_try_reject` once a slot has been asked for.
  unfoldable pub settle :
      ℕ → Shard T → TenantKey → Task T → Reservation T → Scheduler T × EnqueueAttempt T
  settle i shard tenant task r =
      if r.reserved
      then (let (s, handle) = commit i shard tenant r.tenant_state task r.scheduler in
          (s, accepted handle))
      else (write_back i shard tenant r.tenant_state r.scheduler, refused task global_full)

  -- The shutdown state is tested again under the lock; in a run of calls one after the other the
  -- second test sees what the first one saw.
  unfoldable pub enqueue_try_reject :
      TenantKey → Task T → Scheduler T → Scheduler T × EnqueueAttempt T
  enqueue_try_reject tenant task s =
      if not (is_accepting_enqueues s)
      then (s, shut)
      else let i = shard_index s tenant in
        let shard = shard_at s i in
        let a = purge_if_full (admit s (tenant_entry s shard tenant)) in
        if is_tenant_full a.scheduler a.tenant_state
        then (write_back i shard tenant a.tenant_state a.scheduler, refused task tenant_full)
        else settle i shard tenant task (reserve a.ran_full_purge a.scheduler a.tenant_state)

  unfoldable pub enqueue_reject_with_handle :
      TenantKey → Task T → Scheduler T → Scheduler T × EnqueueWithHandleResult
  enqueue_reject_with_handle tenant task s =
      let (s', attempt) = enqueue_try_reject tenant task s in
      elim attempt [
        | accepted handle ↦ (s', EnqueueWithHandleResult.enqueued handle)
        | shut ↦ (s', EnqueueWithHandleResult.closed)
        | refused _ reason ↦ (reject_with reason s', EnqueueWithHandleResult.rejected reason)
      ]
