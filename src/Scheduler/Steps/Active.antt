-- ===== src/Scheduler/Steps/Active.antt =====
-- The calls leave no queued task out of reach of `try_dequeue`.
use firq.Prelude.{
  ℕ, zero, suc, ◌≤◌, ◌<◌, ◌≡◌, ◌∙◌, refl, sym, u64_max, false, count, get_or, replicate,
  length-replicate, some, max, contains, inl, inr, Bool-cases, arith, ◌≢◌, Option, none,
}
use firq.Api.{
  Instant, Priority, high, normal, low, TenantKey, TaskHandle, CloseMode, SchedulerConfig,
}
use firq.State.Dict
use firq.State.Ring
use firq.State.Ring.{ActiveRing}
use firq.State.Ledger.{take_pending}
use firq.State.Tenant.{TenantState, at, new_shard, is_empty, rings_empty}
use firq.Scheduler.Core.{Scheduler, new, tick, shard_at, notify_all}
use firq.Scheduler.Shutdown.{close_with_mode, set_shutdown_mode}
use firq.Scheduler.Cancel.{cancel}
use firq.Scheduler.Insert.{reject_with}
use firq.Scheduler.Standing.{IsActive-queued}
use firq.Scheduler.Active.{IsActive, IsActive-ext}
use firq.Scheduler.Enqueue.Active.{enqueue_try_reject-IsActive, enqueue_reject_with_handle-IsActive}
use firq.Scheduler.Drop.Active.{enqueue_drop_with_handle-IsActive}
use firq.Scheduler.Dequeue.Reach.{try_dequeue-IsActive}
use firq.Scheduler.Quantum.Active.{
  set_tenant_quantum-IsActive, clear_tenant_quantum-IsActive, set_quantum_provider-IsActive,
}
use firq.Scheduler.Start.{new-IsValid, new_shard-no_tenant}
use firq.Scheduler.Steps.{
  Step, attempts, enqueues, drops, dequeues, cancels, closes, sets_quantum, clears_quantum,
  sets_provider, reads_clock, counts_reject, Reach, here, next, IsSound, Reach-IsSound,
}

get_or-replicate : {A : Type 0} (n i : ℕ) (a : A) → get_or (replicate n a) i a ≡ a
get_or-replicate zero i a = refl
get_or-replicate (suc n) zero a = refl
get_or-replicate (suc n) (suc i) a = get_or-replicate n i a

module _ {T : Type 0} where
  pub new-IsActive :
      (clock : ℕ → Instant) (config : SchedulerConfig) → IsActive {T = T} (new clock config)
  unfolding new shard_at new_shard rings_empty Ring.is_empty Ring.len Ring.new Ring.items
  new-IsActive clock config =
      let n = max config.shards 1 in
      let same : (i : ℕ) → get_or (replicate n (new_shard {T = T})) i new_shard ≡ new_shard =
        λ i. get_or-replicate n i new_shard in
      record {
        served = λ i. record {
          valid = λ p. rw (same i) (empty_valid p);
          served = λ tenant ts e. absurd (none_some ts e (new_shard-no_tenant T n i tenant));
        };
        awake = record {
          flags = length-replicate n false ∙ sym (length-replicate n new_shard);
          once = λ i lt. rw (get_or-replicate n i false) refl;
          flagged = λ i h. absurd (busy (rw (same i) at h));
        };
      }
    where
      empty_valid : (p : Priority) → Ring.IsValid (at (new_shard {T = T}).active_rings p)
      empty_valid high = omega arith
      empty_valid normal = omega arith
      empty_valid low = omega arith

      none_some : {x : Option (TenantState T)} (ts : TenantState T) → x ≡ some ts → x ≢ none
      none_some ts e n = cc

      busy : rings_empty (new_shard {T = T}) ≢ false
      busy h = cc

  cancel-IsActive : (id : TaskHandle) (s : Scheduler T) → IsActive s → IsActive (cancel id s).0
  unfolding cancel notify_all take_pending
  cancel-IsActive id s w = elim (Bool-cases (contains id s.ledger.pending_ids)) [
    | inl e ↦ rw e (IsActive-ext s _ w refl refl refl)
    | inr e ↦ rw e w
  ]

  close_with_mode-IsActive :
      (mode : CloseMode) (s : Scheduler T) → IsActive s → IsActive (close_with_mode mode s)
  unfolding close_with_mode set_shutdown_mode notify_all
  close_with_mode-IsActive mode s w =
      let t = close_with_mode mode s in
      let same : (t.shards ≡ s.shards)
          × (t.active_shards ≡ s.active_shards)
          × (t.shard_active ≡ s.shard_active) =
        ground arith in
      IsActive-ext s t w same.0 same.1 same.2

  Step-IsActive : {s t : Scheduler T} → Step s t → IsSound s → IsActive s → IsActive t
  Step-IsActive (attempts s tenant task h) (v, r) w =
      enqueue_try_reject-IsActive tenant task s v r w
  Step-IsActive (enqueues s tenant task h) (v, r) w =
      enqueue_reject_with_handle-IsActive tenant task s v r w
  Step-IsActive (drops s strategy tenant task h) (v, r) w =
      enqueue_drop_with_handle-IsActive strategy tenant task s v r w
  Step-IsActive (dequeues s) (v, r) w = try_dequeue-IsActive s v r w
  Step-IsActive (cancels s id) h w = cancel-IsActive id s w
  Step-IsActive (closes s mode) h w = close_with_mode-IsActive mode s w
  Step-IsActive (sets_quantum s tenant quantum) (v, r) w =
      set_tenant_quantum-IsActive tenant quantum s v w
  Step-IsActive (clears_quantum s tenant) (v, r) w = clear_tenant_quantum-IsActive tenant s v w
  Step-IsActive (sets_provider s provider) h w = set_quantum_provider-IsActive provider s w
  Step-IsActive (reads_clock s) h w = IsActive-ext s (tick s) w refl refl refl
  Step-IsActive (counts_reject s reason) h w =
      IsActive-ext s (reject_with reason s) w refl refl refl

  pub Reach-IsActive : {s t : Scheduler T} → IsSound s → IsActive s → Reach s t → IsActive t
  Reach-IsActive h w here = w
  Reach-IsActive h w (next r e) = Step-IsActive e (Reach-IsSound h r) (Reach-IsActive h w r)

  -- In every scheduler that a sequence of calls can reach from `new`, while handles have not run
  -- out and `max_global` fits a `u64`: a tenant with a task queued at some priority stands in
  -- the ring of that priority in its shard, and the shard stands exactly once in the ring of
  -- active shards.
  pub Reach-queued :
      (clock : ℕ → Instant) (config : SchedulerConfig) (s : Scheduler T) (i : ℕ)
      (tenant : TenantKey) (ts : TenantState T) (p : Priority)
      → config.max_global ≤ u64_max
      → Reach (new clock config) s
      → Dict.lookup tenant (shard_at s i).tenants ≡ some ts
      → is_empty (at ts.queues p) ≡ false
      → (0 < count tenant (Ring.items (at (shard_at s i).active_rings p)))
        × (count i (Ring.items s.active_shards) ≡ 1)
  Reach-queued clock config s i tenant ts p h r found busy =
      IsActive-queued s (Reach-IsActive (new-IsValid clock config h) (new-IsActive clock config) r)
        i tenant ts p found busy
