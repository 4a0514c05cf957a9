-- ===== src/Scheduler/Enqueue/Ringed.antt =====
-- The policy `Reject` keeps the ring of active shards.
use firq.Prelude.{ℕ, ◌<◌, ◌≡◌, ap, not, inl, inr, Bool-cases, length, arith}
use firq.Api.{TenantKey, Task}
use firq.State.Tenant.{Shard}
use firq.Scheduler.Core.{Scheduler, shard_index, shard_at}
use firq.Scheduler.Shutdown.{is_accepting_enqueues}
use firq.Scheduler.Purge.Tenant.{Same}
use firq.Scheduler.Holds.{admit-Holds, reserve-Holds}
use firq.Scheduler.Valid.{IsValid, take_out-Holds, elsewhere}
use firq.Scheduler.Insert.{Reservation, tenant_entry, admit, is_tenant_full, reserve}
use firq.Scheduler.Enqueue.{purge_if_full, settle, enqueue_try_reject, enqueue_reject_with_handle}
use firq.Scheduler.Enqueue.Valid.{shard_index-lt, purge_if_full-Holds}
use firq.Scheduler.Ringed.{IsRinged, IsRinged-ext, write_back-IsRinged, commit-IsRinged}

module _ {T : Type 0} where
  pub Same-IsRinged : (s s' : Scheduler T) → IsRinged s → Same s s' → IsRinged s'
  Same-IsRinged s s' w m = IsRinged-ext s s' w m.active_shards (ap (length {A = Shard T}) m.shards)

  settle-IsRinged :
      (i tenant : ℕ) (shard : Shard T) (task : Task T) (r : Reservation T)
      → IsRinged r.scheduler
      → i < length r.scheduler.shards
      → IsRinged (settle i shard tenant task r).0
  unfolding settle
  settle-IsRinged i tenant shard task r w lt = elim (Bool-cases r.reserved) [
    | inl e ↦ rw e (commit-IsRinged i tenant shard r.tenant_state task r.scheduler w lt)
    | inr e ↦ rw e (write_back-IsRinged i tenant shard r.tenant_state r.scheduler w)
  ]

  pub enqueue_try_reject-IsRinged :
      (tenant : TenantKey) (task : Task T) (s : Scheduler T)
      → IsValid s
      → IsRinged s
      → IsRinged (enqueue_try_reject tenant task s).0
  unfolding enqueue_try_reject
  enqueue_try_reject-IsRinged tenant task s v w =
      let i = shard_index s tenant in
      let ts = tenant_entry s (shard_at s i) tenant in
      let a = purge_if_full (admit s ts) in
      let h =
        purge_if_full-Holds (elsewhere s i tenant) s (admit s ts)
          (admit-Holds (elsewhere s i tenant) s s ts (take_out-Holds s i tenant v)) in
      let r = reserve a.ran_full_purge a.scheduler a.tenant_state in
      let m =
        (reserve-Holds (elsewhere s i tenant) s a.scheduler a.tenant_state h
          a.ran_full_purge).same in
      elim (Bool-cases (not (is_accepting_enqueues s))) [
        | inl c ↦ rw c w
        | inr c ↦ rw c (elim (Bool-cases (is_tenant_full a.scheduler a.tenant_state)) [
          | inl e ↦ rw e (
              write_back-IsRinged i tenant (shard_at s i) a.tenant_state a.scheduler
                (Same-IsRinged s a.scheduler w h.same))
          | inr e ↦ rw e (
              settle-IsRinged i tenant (shard_at s i) task r (Same-IsRinged s r.scheduler w m)
                (rw m.shards (shard_index-lt s tenant v)))
        ])
      ]

  pub enqueue_reject_with_handle-IsRinged :
      (tenant : TenantKey) (task : Task T) (s : Scheduler T)
      → IsValid s
      → IsRinged s
      → IsRinged (enqueue_reject_with_handle tenant task s).0
  unfolding enqueue_reject_with_handle
  enqueue_reject_with_handle-IsRinged tenant task s v w =
      let t = (enqueue_try_reject tenant task s).0 in
      let parts : ((enqueue_reject_with_handle tenant task s).0.active_shards ≡ t.active_shards)
          × ((enqueue_reject_with_handle tenant task s).0.shards ≡ t.shards) =
        ground arith in
      IsRinged-ext t _ (enqueue_try_reject-IsRinged tenant task s v w) parts.0
        (ap (length {A = Shard T}) parts.1)
