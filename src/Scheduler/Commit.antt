-- ===== src/Scheduler/Commit.antt =====
-- The end of an enqueue: a task for which a slot is held becomes a queued and pending one.
use firq.Prelude.{
  ℕ, suc, ◌+◌, ◌<◌, ◌≡◌, refl, ap, arith, hit, ◌++◌, length, length-append, List, [], ◌∷◌, u64_max,
  set,
}
use firq.Api.{TenantKey, Task}
use firq.State.Dict
use firq.State.Ledger.{next_handle, register_pending}
use firq.State.Accounts.{Accounts-ext, Accounts-latest, next_handle_fresh, issue-Accounts, occ}
use firq.State.Queued.{
  occ_queues, occ_shards, occ_queues-split, occ_queues-put, occ-append, total_len-split,
  total_len-put,
}
use firq.State.Tenant.{TenantState, QueueEntry, Shard, at, put, total_len}
use firq.Scheduler.Core.{Scheduler, shard_at, put_shard, activate_shard, notify_all}
use firq.Scheduler.Insert.{push_entry, commit, write_back}
use firq.Scheduler.Holds.{Holds}
use firq.Scheduler.Valid.{IsValid, elsewhere, put_back-IsValid, queued}

module _ {T : Type 0} where
  push_entry-queues :
      (e : QueueEntry T) (tenant : TenantKey) (shard : Shard T) (ts : TenantState T)
      → let p = e.task.priority in
        ((push_entry e tenant shard ts).1.queues ≡ put ts.queues p (at ts.queues p ++ e ∷ []))
        × ((push_entry e tenant shard ts).0.tenants ≡ shard.tenants)
  unfolding push_entry
  push_entry-queues e tenant shard ts = ground arith

  -- A call that leaves without enqueueing writes the tenant's state back.
  pub write_back-IsValid :
      (s s' : Scheduler T) (i tenant : ℕ) (ts : TenantState T)
      → IsValid s
      → i < length s.shards
      → Holds (elsewhere s i tenant) s s' ts 0
      → IsValid (write_back i (shard_at s i) tenant ts s')
  unfolding write_back put_shard
  write_back-IsValid s s' i tenant ts v lt h =
      put_back-IsValid s _ i tenant ts
        (record (shard_at s i) { tenants = Dict.insert tenant ts (shard_at s i).tenants }) v lt refl
        h.same.config
        (ap
          (λ (x : List (Shard T)).
            set x i
              (record (shard_at s i) { tenants = Dict.insert tenant ts (shard_at s i).tenants }))
          h.same.shards)
        (Accounts-latest s'.ledger _ 0 h.accounts) h.limited

  -- The wake-ups and the shard's activation change nothing that the invariant reads.
  pub IsValid-ext :
      (s s' : Scheduler T)
      → IsValid s
      → s'.config ≡ s.config
      → s'.shards ≡ s.shards
      → s'.ledger ≡ s.ledger
      → IsValid s'
  unfolding queued shard_at
  IsValid-ext s s' v c sh g = record {
    accounts = rw (c, g) (Accounts-ext s.ledger _ _ 0 v.accounts (λ j. ap (occ_shards j) sh));
    sharded = rw sh v.sharded;
    limited = λ k t u found. rw c (v.limited k t u (rw sh at found));
  }

  occ-push_entry :
      (e : QueueEntry T) (tenant : TenantKey) (shard : Shard T) (ts : TenantState T) (j : ℕ)
      → occ_queues j (push_entry e tenant shard ts).1.queues ≡ occ_queues j ts.queues + hit j e.id
  unfolding occ
  occ-push_entry e tenant shard ts j =
      let p = e.task.priority in
      rw (push_entry-queues e tenant shard ts).0 (
        omega (
          arith,
          occ_queues-put p j ts.queues (at ts.queues p ++ e ∷ []),
          occ_queues-split p j ts.queues,
          occ-append j (at ts.queues p) (e ∷ []),
        ))

  total_len-push_entry :
      (e : QueueEntry T) (tenant : TenantKey) (shard : Shard T) (ts : TenantState T)
      → total_len (push_entry e tenant shard ts).1 ≡ suc (total_len ts)
  total_len-push_entry e tenant shard ts =
      let p = e.task.priority in
      omega (
        arith,
        total_len-put p ts (push_entry e tenant shard ts).1 (at ts.queues p ++ e ∷ [])
            (push_entry-queues e tenant shard ts).0,
        total_len-split p ts,
        length-append {0} (at ts.queues p) (e ∷ []),
      )

  -- The scheduler that `commit` builds, before the wake-ups.
  abbrev pub inserted : ℕ → Shard T → TenantKey → TenantState T → Task T → Scheduler T → Scheduler T
  inserted i shard tenant ts task s =
      let handle = (next_handle s.ledger).0 in
      let pushed = push_entry (record { id = handle; task = task }) tenant shard ts in
      record s {
        shards =
            set s.shards i
              (record pushed.0 { tenants = Dict.insert tenant pushed.1 pushed.0.tenants });
        ledger = register_pending handle (next_handle s.ledger).1;
      }

  pub commit_parts :
      (i : ℕ) (shard : Shard T) (tenant : TenantKey) (ts : TenantState T) (task : Task T)
      (s : Scheduler T)
      → let s' = (commit i shard tenant ts task s).0 in
        let t = inserted i shard tenant ts task s in
        (s'.config ≡ t.config) × (s'.shards ≡ t.shards) × (s'.ledger ≡ t.ledger)
  unfolding commit write_back put_shard activate_shard notify_all
  commit_parts i shard tenant ts task s = ground arith

  -- The accounts and the limits hold after the insertion.
  pub commit-IsValid :
      (s s' : Scheduler T) (i tenant : ℕ) (ts : TenantState T) (task : Task T)
      → IsValid s
      → i < length s.shards
      → Holds (elsewhere s i tenant) s s' ts 1
      → s.ledger.next_task_id < u64_max
      → total_len ts < s.config.max_per_tenant
      → IsValid (commit i (shard_at s i) tenant ts task s').0
  commit-IsValid s s' i tenant ts task v lt h small room =
      let shard = shard_at s i in
      let handle = (next_handle s'.ledger).0 in
      let e : QueueEntry T = record { id = handle; task = task } in
      let pushed = push_entry e tenant shard ts in
      let t = inserted i shard tenant ts task s' in
      let parts = commit_parts i shard tenant ts task s' in
      let fresh = next_handle_fresh s'.ledger _ 1 h.accounts small in
      IsValid-ext t _
        (put_back-IsValid s t i tenant pushed.1
          (record pushed.0 { tenants = Dict.insert tenant pushed.1 pushed.0.tenants }) v lt
          (ap (Dict.insert tenant pushed.1) (push_entry-queues e tenant shard ts).1) h.same.config
          (ap
            (λ (x : List (Shard T)).
              set x i (record pushed.0 { tenants = Dict.insert tenant pushed.1 pushed.0.tenants }))
            h.same.shards)
          (Accounts-latest t.ledger _ 0 (
            issue-Accounts s'.ledger (λ j. elsewhere s i tenant j + occ_queues j ts.queues) _
              h.accounts small
              (λ j. omega (arith, occ-push_entry e tenant shard ts j, ap (hit j) fresh))))
          (omega (arith, total_len-push_entry e tenant shard ts)))
        parts.0 parts.1 parts.2
