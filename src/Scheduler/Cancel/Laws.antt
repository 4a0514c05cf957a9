-- ===== src/Scheduler/Cancel/Laws.antt =====
-- What `cancel` answers, and what becomes of the slot and of the id.
use firq.Prelude.{
  remove, List, ℕ, ◌+◌, ◌≡◌, ◌∙◌, ap, refl, true, false, arith, inl, inr, Bool-cases, contains,
  insert, contains-count, count-remove, length-remove, if◌then◌else◌, not,
}
use firq.Api.{TenantKey, Task, TaskHandle, cancelled, not_found, EnqueueWithHandleResult}
use firq.State.Ledger.{
  Ledger, next_handle, register_pending, take_pending, release_reserved_slots, mark_cancelled,
}
use firq.State.Tenant.{Shard, TenantState}
use firq.Scheduler.Core.{Scheduler, notify_all, shard_at, shard_index}
use firq.Scheduler.Shutdown.{is_accepting_enqueues}
use firq.Scheduler.Insert.{Reservation, tenant_entry, reserve, commit, admit, is_tenant_full}
use firq.Scheduler.Enqueue.{
  purge_if_full, settle, enqueue_try_reject, enqueue_reject_with_handle, EnqueueAttempt, accepted,
  shut, refused,
}
use firq.Scheduler.Cancel.{cancel}
use firq.Scheduler.Commit.{commit_parts}
use firq.Scheduler.Valid.{IsValid, queued}

insert-contains : (id : ℕ) (xs : List ℕ) → contains id (insert id xs) ≡ true
unfolding contains insert
insert-contains id xs = elim (Bool-cases (contains id xs)) [
  | inl e ↦ ground (arith, e)
  | inr e ↦ ground (arith, e)
]

module _ {T : Type 0} where
  -- On a valid scheduler `cancel` answers `cancelled` for a pending id and `not_found` for any
  -- other, and it lowers the estimate by one in the first case and not at all in the second.
  pub cancel-slot :
      (id : TaskHandle) (s : Scheduler T)
      → IsValid s
      → ((cancel id s).1 ≡ (if contains id s.ledger.pending_ids then cancelled else not_found))
        × ((cancel id s).0.ledger.queue_len_estimate
              + (if contains id s.ledger.pending_ids then 1 else 0)
            ≡ s.ledger.queue_len_estimate)
  unfolding cancel take_pending mark_cancelled release_reserved_slots notify_all queued shard_at
  cancel-slot id s v = elim (Bool-cases (contains id s.ledger.pending_ids)) [
    | inl e ↦ rw e (refl, omega (arith, v.accounts.slots, length-remove id s.ledger.pending_ids e))
    | inr e ↦ rw e (refl, omega arith)
  ]

  -- After `cancel` an id is not pending.
  pub cancel-not_pending :
      (id : TaskHandle) (s : Scheduler T)
      → IsValid s
      → contains id (cancel id s).0.ledger.pending_ids ≡ false
  unfolding cancel take_pending mark_cancelled release_reserved_slots notify_all queued shard_at
  cancel-not_pending id s v = elim (Bool-cases (contains id s.ledger.pending_ids)) [
    | inl e ↦
        let gone : contains id (remove id s.ledger.pending_ids) ≡ false = ground (
          arith,
          contains-count id (remove id s.ledger.pending_ids),
          count-remove id id s.ledger.pending_ids e,
          v.accounts.balanced id,
          v.accounts.once id,
        ) in
        rw (e, gone)
    | inr e ↦ rw (e, e)
  ]

  not_pending-not_found :
      (id : TaskHandle) (s : Scheduler T)
      → contains id s.ledger.pending_ids ≡ false
      → (cancel id s).1 ≡ not_found
  unfolding cancel take_pending
  not_pending-not_found id s h = rw h

  -- From a valid scheduler, a second `cancel` of the same handle answers `not_found`.
  pub cancel-cancel :
      (id : TaskHandle) (s : Scheduler T) → IsValid s → (cancel id (cancel id s).0).1 ≡ not_found
  cancel-cancel id s v = not_pending-not_found id (cancel id s).0 (cancel-not_pending id s v)

  -- The handle that `commit` returns is pending.
  commit-pending :
      (i tenant : ℕ) (shard : Shard T) (ts : TenantState T) (task : Task T) (s : Scheduler T)
      → let r = commit i shard tenant ts task s in contains r.1 r.0.ledger.pending_ids ≡ true
  unfolding commit register_pending
  commit-pending i tenant shard ts task s =
      let handle = (next_handle s.ledger).0 in
      ap (λ (g : Ledger). contains handle g.pending_ids) (commit_parts i shard tenant ts task s).2
      ∙ insert-contains handle (next_handle s.ledger).1.pending_ids

  -- What an attempt must give: the handle of a pending task, or no handle.
  abbrev Grants : Scheduler T × EnqueueAttempt T → Type 0
  Grants (s, accepted h) = contains h s.ledger.pending_ids ≡ true
  Grants (s, shut) = Unit
  Grants (s, refused task reason) = Unit

  settle-Grants :
      (i tenant : ℕ) (shard : Shard T) (task : Task T) (r : Reservation T)
      → Grants (settle i shard tenant task r)
  unfolding settle
  settle-Grants i tenant shard task r = elim (Bool-cases r.reserved) [
    | inl e ↦ rw e (commit-pending i tenant shard r.tenant_state task r.scheduler)
    | inr e ↦ rw e tt
  ]

  enqueue_try_reject-Grants :
      (tenant : TenantKey) (task : Task T) (s : Scheduler T)
      → Grants (enqueue_try_reject tenant task s)
  unfolding enqueue_try_reject
  enqueue_try_reject-Grants tenant task s =
      let i = shard_index s tenant in
      let a = purge_if_full (admit s (tenant_entry s (shard_at s i) tenant)) in
      elim (Bool-cases (not (is_accepting_enqueues s))) [
        | inl c ↦ rw c tt
        | inr c ↦ rw c (elim (Bool-cases (is_tenant_full a.scheduler a.tenant_state)) [
          | inl e ↦ rw e tt
          | inr e ↦ rw e (
              settle-Grants i tenant (shard_at s i) task
                (reserve a.ran_full_purge a.scheduler a.tenant_state))
        ])
      ]

  enqueue_reject_with_handle-pending :
      (tenant : TenantKey) (task : Task T) (s : Scheduler T) (h : TaskHandle)
      → (enqueue_reject_with_handle tenant task s).1 ≡ EnqueueWithHandleResult.enqueued h
      → contains h (enqueue_reject_with_handle tenant task s).0.ledger.pending_ids ≡ true
  unfolding enqueue_reject_with_handle
  enqueue_reject_with_handle-pending tenant task s h e =
      go (enqueue_try_reject tenant task s) refl (enqueue_try_reject-Grants tenant task s)
    where
      go :
          (r : Scheduler T × EnqueueAttempt T)
          → enqueue_try_reject tenant task s ≡ r
          → Grants r
          → contains h (enqueue_reject_with_handle tenant task s).0.ledger.pending_ids ≡ true
      go (t, accepted k) p g = ground (arith, p, e, g)
      go (t, shut) p g = ground (arith, p, e)
      go (t, refused task' reason) p g = ground (arith, p, e)

  -- A handle that `enqueue_reject_with_handle` returns can be cancelled: `cancel` on the
  -- scheduler after the enqueue answers `cancelled`.
  pub cancel-enqueue :
      (tenant : TenantKey) (task : Task T) (s : Scheduler T) (h : TaskHandle)
      → (enqueue_reject_with_handle tenant task s).1 ≡ EnqueueWithHandleResult.enqueued h
      → (cancel h (enqueue_reject_with_handle tenant task s).0).1 ≡ cancelled
  unfolding cancel take_pending
  cancel-enqueue tenant task s h e = rw (enqueue_reject_with_handle-pending tenant task s h e)
