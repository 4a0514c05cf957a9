-- ===== src/Scheduler/Steps.antt =====
-- The runs of a scheduler: the calls that its clients make, one after the other, from `new` on. A
-- call that waits is the sequence of its attempts, with other calls between them.
pub mod Active
use firq.Prelude.{ℕ, ◌≤◌, ◌<◌, refl, u64_max, Option}
use firq.Api.{
  Instant, TenantKey, TaskHandle, Task, EnqueueRejectReason, CloseMode, QuantumProvider,
  SchedulerConfig,
}
use firq.Scheduler.Core.{Scheduler, new, tick}
use firq.Scheduler.Shutdown.{close_with_mode}
use firq.Scheduler.Shutdown.Laws.{close_with_mode-IsValid}
use firq.Scheduler.Quantum.{set_tenant_quantum, clear_tenant_quantum, set_quantum_provider}
use firq.Scheduler.Quantum.Valid.{
  set_tenant_quantum-IsValid, clear_tenant_quantum-IsValid, set_quantum_provider-IsValid,
}
use firq.Scheduler.Insert.{reject_with}
use firq.Scheduler.Enqueue.{enqueue_try_reject, enqueue_reject_with_handle}
use firq.Scheduler.Enqueue.Valid.{enqueue_try_reject-IsValid, enqueue_reject_with_handle-IsValid}
use firq.Scheduler.Enqueue.Ringed.{enqueue_try_reject-IsRinged, enqueue_reject_with_handle-IsRinged}
use firq.Scheduler.Drop.{DropStrategy, enqueue_drop_with_handle}
use firq.Scheduler.Drop.Valid.{enqueue_drop_with_handle-IsValid}
use firq.Scheduler.Drop.Ringed.{enqueue_drop_with_handle-IsRinged}
use firq.Scheduler.Cancel.{cancel}
use firq.Scheduler.Cancel.Valid.{cancel-IsValid, cancel-IsRinged}
use firq.Scheduler.Dequeue.{try_dequeue}
use firq.Scheduler.Dequeue.Valid.{try_dequeue-IsValid}
use firq.Scheduler.Valid.{IsValid}
use firq.Scheduler.Commit.{IsValid-ext}
use firq.Scheduler.Ringed.{IsRinged, IsRinged-ext}
use firq.Scheduler.Start.{new-IsValid}

-- The calls. Handles have not run out when a task is enqueued.
pub data Step {T : Type 0} : Scheduler T → Scheduler T → Type 0 where
  attempts :
      (s : Scheduler T) (tenant : TenantKey) (task : Task T)
      → s.ledger.next_task_id < u64_max
      → Step s (enqueue_try_reject tenant task s).0
  enqueues :
      (s : Scheduler T) (tenant : TenantKey) (task : Task T)
      → s.ledger.next_task_id < u64_max
      → Step s (enqueue_reject_with_handle tenant task s).0
  drops :
      (s : Scheduler T) (strategy : DropStrategy) (tenant : TenantKey) (task : Task T)
      → s.ledger.next_task_id < u64_max
      → Step s (enqueue_drop_with_handle strategy tenant task s).0
  dequeues : (s : Scheduler T) → Step s (try_dequeue s).0
  cancels : (s : Scheduler T) (id : TaskHandle) → Step s (cancel id s).0
  closes : (s : Scheduler T) (mode : CloseMode) → Step s (close_with_mode mode s)
  sets_quantum :
      (s : Scheduler T) (tenant : TenantKey) (quantum : ℕ)
      → Step s (set_tenant_quantum tenant quantum s)
  clears_quantum : (s : Scheduler T) (tenant : TenantKey) → Step s (clear_tenant_quantum tenant s)
  sets_provider :
      (s : Scheduler T) (provider : Option QuantumProvider)
      → Step s (set_quantum_provider provider s)
  reads_clock : (s : Scheduler T) → Step s (tick s)
  counts_reject : (s : Scheduler T) (reason : EnqueueRejectReason) → Step s (reject_with reason s)

pub data Reach {T : Type 0} (s : Scheduler T) : Scheduler T → Type 0 where
  here : Reach s s
  next : {t u : Scheduler T} → Reach s t → Step t u → Reach s u

-- Both invariants.
abbrev pub IsSound : {T : Type 0} → Scheduler T → Type 0
IsSound s = IsValid s × IsRinged s

module _ {T : Type 0} where
  -- Every call keeps the invariants, whatever it answers.
  pub Step-IsSound : {s t : Scheduler T} → Step s t → IsSound s → IsSound t
  Step-IsSound (attempts s tenant task h) (v, w) =
      (enqueue_try_reject-IsValid tenant task s v h, enqueue_try_reject-IsRinged tenant task s v w)
  Step-IsSound (enqueues s tenant task h) (v, w) = (
    enqueue_reject_with_handle-IsValid tenant task s v h,
    enqueue_reject_with_handle-IsRinged tenant task s v w,
  )
  Step-IsSound (drops s strategy tenant task h) (v, w) = (
    enqueue_drop_with_handle-IsValid strategy tenant task s v h,
    enqueue_drop_with_handle-IsRinged strategy tenant task s v w,
  )
  Step-IsSound (dequeues s) (v, w) = try_dequeue-IsValid s v w
  Step-IsSound (cancels s id) (v, w) = (cancel-IsValid id s v, cancel-IsRinged id s w)
  Step-IsSound (closes s mode) (v, w) = close_with_mode-IsValid mode s v w
  Step-IsSound (sets_quantum s tenant quantum) (v, w) =
      set_tenant_quantum-IsValid tenant quantum s v w
  Step-IsSound (clears_quantum s tenant) (v, w) = clear_tenant_quantum-IsValid tenant s v w
  Step-IsSound (sets_provider s provider) (v, w) = set_quantum_provider-IsValid provider s v w
  Step-IsSound (reads_clock s) (v, w) =
      (IsValid-ext s (tick s) v refl refl refl, IsRinged-ext s (tick s) w refl refl)
  Step-IsSound (counts_reject s reason) (v, w) = (
    IsValid-ext s (reject_with reason s) v refl refl refl,
    IsRinged-ext s (reject_with reason s) w refl refl,
  )

  pub Reach-IsSound : {s t : Scheduler T} → IsSound s → Reach s t → IsSound t
  Reach-IsSound h here = h
  Reach-IsSound h (next r e) = Step-IsSound e (Reach-IsSound h r)

  -- In every scheduler that a sequence of calls can reach from `new`, while handles have not run
  -- out and `max_global` fits a `u64`: every queued id is pending or marked as cancelled, once
  -- and not both; no id is queued that was not issued; the estimate is the number of pending ids
  -- and at most `max_global`; there is a shard; and no tenant holds more than `max_per_tenant`
  -- entries.
  pub Reach-new :
      (clock : ℕ → Instant) (config : SchedulerConfig) (s : Scheduler T)
      → config.max_global ≤ u64_max
      → Reach (new clock config) s
      → IsValid s
  Reach-new clock config s h r = (Reach-IsSound (new-IsValid clock config h) r).0
