-- ===== src/Scheduler/Enqueue/Valid.antt =====
-- Every way out of `enqueue_try_reject` and `enqueue_reject_with_handle` keeps the invariant.
use firq.Prelude.{
  ℕ, ◌<◌, ◌≡◌, ap, false, not, ◌&&◌, arith, inl, inr, Bool-cases, length, u64_max, if◌then◌else◌,
}
use firq.Api.{TenantKey, SchedulerConfig, Task}
use firq.State.Tenant.{TenantState, total_len}
use firq.Scheduler.Core.{Scheduler, shard_at, shard_index}
use firq.Scheduler.Shutdown.{is_accepting_enqueues}
use firq.Scheduler.Insert.{Admission, Reservation, tenant_entry, admit, is_tenant_full, reserve}
use firq.Scheduler.Purge.{full}
use firq.Scheduler.Enqueue.{purge_if_full, settle, enqueue_try_reject, enqueue_reject_with_handle}
use firq.Scheduler.Holds.{
  Holds, admit-Holds, reserve-Holds, purge_tenant_for_enqueue-Holds, total_len-reserve,
}
use firq.Scheduler.Valid.{IsValid, elsewhere, take_out-Holds}
use firq.Scheduler.Commit.{write_back-IsValid, commit-IsValid, IsValid-ext}

module _ {T : Type 0} where
  pub shard_index-lt :
      (s : Scheduler T) (tenant : TenantKey) → IsValid s → shard_index s tenant < length s.shards
  unfolding shard_index
  shard_index-lt s tenant v = omega (arith, v.sharded)

  pub purge_if_full-Holds :
      (rest : ℕ → ℕ) (s0 : Scheduler T) (a : Admission T)
      → Holds rest s0 a.scheduler a.tenant_state 0
      → Holds rest s0 (purge_if_full a).scheduler (purge_if_full a).tenant_state 0
  unfolding purge_if_full
  purge_if_full-Holds rest s0 a h =
      elim (Bool-cases (is_tenant_full a.scheduler a.tenant_state && not a.ran_full_purge)) [
        | inl e ↦ rw e (purge_tenant_for_enqueue-Holds rest s0 a.scheduler a.tenant_state h full)
        | inr e ↦ rw e h
      ]

  settle-IsValid :
      (s : Scheduler T) (i tenant : ℕ) (task : Task T) (r : Reservation T)
      → IsValid s
      → i < length s.shards
      → Holds (elsewhere s i tenant) s r.scheduler r.tenant_state (if r.reserved then 1 else 0)
      → s.ledger.next_task_id < u64_max
      → total_len r.tenant_state < s.config.max_per_tenant
      → IsValid (settle i (shard_at s i) tenant task r).0
  unfolding settle
  settle-IsValid s i tenant task r v lt h small room = elim (Bool-cases r.reserved) [
    | inl e ↦
        rw e (commit-IsValid s r.scheduler i tenant r.tenant_state task v lt (rw e at h) small room)
    | inr e ↦ rw e (write_back-IsValid s r.scheduler i tenant r.tenant_state v lt (rw e at h))
  ]

  pub not-full :
      (s : Scheduler T) (ts : TenantState T)
      → is_tenant_full s ts ≡ false
      → total_len ts < s.config.max_per_tenant
  not-full s ts e = ground arith

  pub enqueue_try_reject-IsValid :
      (tenant : TenantKey) (task : Task T) (s : Scheduler T)
      → IsValid s
      → s.ledger.next_task_id < u64_max
      → IsValid (enqueue_try_reject tenant task s).0
  unfolding enqueue_try_reject
  enqueue_try_reject-IsValid tenant task s v small =
      let i = shard_index s tenant in
      let lt = shard_index-lt s tenant v in
      let ts = tenant_entry s (shard_at s i) tenant in
      let a = purge_if_full (admit s ts) in
      let h =
        purge_if_full-Holds (elsewhere s i tenant) s (admit s ts)
          (admit-Holds (elsewhere s i tenant) s s ts (take_out-Holds s i tenant v)) in
      elim (Bool-cases (not (is_accepting_enqueues s))) [
        | inl c ↦ rw c v
        | inr c ↦ rw c (elim (Bool-cases (is_tenant_full a.scheduler a.tenant_state)) [
          | inl e ↦ rw e (write_back-IsValid s a.scheduler i tenant a.tenant_state v lt h)
          | inr e ↦ rw e (
              settle-IsValid s i tenant task (reserve a.ran_full_purge a.scheduler a.tenant_state) v
                lt
                (reserve-Holds (elsewhere s i tenant) s a.scheduler a.tenant_state h
                  a.ran_full_purge)
                small
                (omega (
                  arith,
                  total_len-reserve a.ran_full_purge a.scheduler a.tenant_state,
                  ap (λ (x : SchedulerConfig). x.max_per_tenant) h.same.config,
                  not-full a.scheduler a.tenant_state e,
                )))
        ])
      ]

  reject_parts :
      (tenant : TenantKey) (task : Task T) (s : Scheduler T)
      → let s' = (enqueue_reject_with_handle tenant task s).0 in
        let t = (enqueue_try_reject tenant task s).0 in
        (s'.config ≡ t.config) × (s'.shards ≡ t.shards) × (s'.ledger ≡ t.ledger)
  unfolding enqueue_reject_with_handle
  reject_parts tenant task s = ground arith

  -- While handles have not run out, an enqueue under the policy `reject` keeps the invariant of
  -- a valid scheduler, whatever it answers.
  pub enqueue_reject_with_handle-IsValid :
      (tenant : TenantKey) (task : Task T) (s : Scheduler T)
      → IsValid s
      → s.ledger.next_task_id < u64_max
      → IsValid (enqueue_reject_with_handle tenant task s).0
  enqueue_reject_with_handle-IsValid tenant task s v small =
      let parts = reject_parts tenant task s in
      IsValid-ext (enqueue_try_reject tenant task s).0 _
        (enqueue_try_reject-IsValid tenant task s v small) parts.0 parts.1 parts.2
