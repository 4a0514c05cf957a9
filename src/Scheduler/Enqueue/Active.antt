-- ===== src/Scheduler/Enqueue/Active.antt =====
-- The policy `Reject` leaves no queued task out of reach.
use firq.Prelude.{ℕ, ◌<◌, ◌≡◌, subst, not, ◌&&◌, inl, inr, Bool-cases, length, arith}
use firq.Api.{TenantKey, Task}
use firq.State.Tenant.{Shard, TenantState}
use firq.State.Marked.{MarkedState}
use firq.Scheduler.Core.{Scheduler, shard_index, shard_at}
use firq.Scheduler.Shutdown.{is_accepting_enqueues}
use firq.Scheduler.Purge.{full}
use firq.Scheduler.Purge.Marked.{purge_tenant_for_enqueue-Marked}
use firq.Scheduler.Purge.Tenant.{Same}
use firq.Scheduler.Holds.{admit-Holds, reserve-Holds}
use firq.Scheduler.Valid.{IsValid, take_out-Holds, elsewhere}
use firq.Scheduler.Insert.{
  Reservation, Admission, tenant_entry, admit, is_tenant_full, reserve, write_back, commit,
}
use firq.Scheduler.Enqueue.{purge_if_full, settle, enqueue_try_reject, enqueue_reject_with_handle}
use firq.Scheduler.Enqueue.Valid.{shard_index-lt, purge_if_full-Holds}
use firq.Scheduler.Enqueue.Ringed.{Same-IsRinged}
use firq.Scheduler.Ringed.{IsRinged}
use firq.Scheduler.Active.{IsActive, IsActive-ext}
use firq.Scheduler.Active.Insert.{
  write_back-IsActive, commit-IsActive, tenant_entry-Marked, admit-Marked, reserve-Marked,
}

-- The end of a call whose work on a tenant has left the shards alone.
module _ {T : Type 0} (s s' : Scheduler T) (same : Same s s') (w : IsActive s) (i tenant : ℕ)
    (lt : i < length s.shards) (ts : TenantState T)
    (m : MarkedState tenant (shard_at s i).active_rings ts) where
  same_shard : shard_at s' i ≡ shard_at s i
  unfolding shard_at
  same_shard = rw same.shards

  later-IsActive : IsActive s'
  later-IsActive = IsActive-ext s s' w same.shards same.active_shards same.shard_active

  pub leave-IsActive : IsActive (write_back i (shard_at s i) tenant ts s')
  leave-IsActive =
      subst (λ shard. IsActive (write_back i shard tenant ts s')) same_shard
        (write_back-IsActive i tenant ts s' later-IsActive (rw same.shards lt) (rw same_shard m))

  pub insert-IsActive :
      (task : Task T) → IsRinged s → IsActive (commit i (shard_at s i) tenant ts task s').0
  insert-IsActive task r =
      subst (λ shard. IsActive (commit i shard tenant ts task s').0) same_shard
        (commit-IsActive i tenant ts task s' later-IsActive (Same-IsRinged s s' r same)
          (rw same.shards lt) (rw same_shard m))

module _ {T : Type 0} where
  purge_if_full-Marked :
      (tenant : ℕ) (shard : Shard T) (a : Admission T)
      → MarkedState tenant shard.active_rings a.tenant_state
      → MarkedState tenant shard.active_rings (purge_if_full a).tenant_state
  unfolding purge_if_full
  purge_if_full-Marked tenant shard a m =
      elim (Bool-cases (is_tenant_full a.scheduler a.tenant_state && not a.ran_full_purge)) [
        | inl e ↦ rw e (
            purge_tenant_for_enqueue-Marked tenant shard.active_rings full a.scheduler
              a.tenant_state m)
        | inr e ↦ rw e m
      ]

  settle-IsActive :
      (s : Scheduler T) (i tenant : ℕ) (task : Task T) (r : Reservation T)
      → Same s r.scheduler
      → IsActive s
      → IsRinged s
      → i < length s.shards
      → MarkedState tenant (shard_at s i).active_rings r.tenant_state
      → IsActive (settle i (shard_at s i) tenant task r).0
  unfolding settle
  settle-IsActive s i tenant task r same w ring lt m = elim (Bool-cases r.reserved) [
    | inl e ↦ rw e (insert-IsActive s r.scheduler same w i tenant lt r.tenant_state m task ring)
    | inr e ↦ rw e (leave-IsActive s r.scheduler same w i tenant lt r.tenant_state m)
  ]

  pub enqueue_try_reject-IsActive :
      (tenant : TenantKey) (task : Task T) (s : Scheduler T)
      → IsValid s
      → IsRinged s
      → IsActive s
      → IsActive (enqueue_try_reject tenant task s).0
  unfolding enqueue_try_reject
  enqueue_try_reject-IsActive tenant task s v ring w =
      let i = shard_index s tenant in
      let shard = shard_at s i in
      let lt = shard_index-lt s tenant v in
      let ts = tenant_entry s shard tenant in
      let a = purge_if_full (admit s ts) in
      let h =
        purge_if_full-Holds (elsewhere s i tenant) s (admit s ts)
          (admit-Holds (elsewhere s i tenant) s s ts (take_out-Holds s i tenant v)) in
      let m = purge_if_full-Marked tenant shard (admit s ts) (
        admit-Marked tenant shard.active_rings s ts
          (tenant_entry-Marked s shard tenant (w.served i))) in
      let r = reserve a.ran_full_purge a.scheduler a.tenant_state in
      elim (Bool-cases (not (is_accepting_enqueues s))) [
        | inl c ↦ rw c w
        | inr c ↦ rw c (elim (Bool-cases (is_tenant_full a.scheduler a.tenant_state)) [
          | inl e ↦ rw e (leave-IsActive s a.scheduler h.same w i tenant lt a.tenant_state m)
          | inr e ↦ rw e (
              settle-IsActive s i tenant task r
                (reserve-Holds (elsewhere s i tenant) s a.scheduler a.tenant_state h
                  a.ran_full_purge).same
                w ring lt
                (reserve-Marked tenant shard.active_rings a.ran_full_purge a.scheduler
                  a.tenant_state m))
        ])
      ]

  pub enqueue_reject_with_handle-IsActive :
      (tenant : TenantKey) (task : Task T) (s : Scheduler T)
      → IsValid s
      → IsRinged s
      → IsActive s
      → IsActive (enqueue_reject_with_handle tenant task s).0
  unfolding enqueue_reject_with_handle
  enqueue_reject_with_handle-IsActive tenant task s v ring w =
      let t = (enqueue_try_reject tenant task s).0 in
      let s' = (enqueue_reject_with_handle tenant task s).0 in
      let parts : (s'.shards ≡ t.shards)
          × (s'.active_shards ≡ t.active_shards)
          × (s'.shard_active ≡ t.shard_active) =
        ground arith in
      IsActive-ext t s' (enqueue_try_reject-IsActive tenant task s v ring w) parts.0 parts.1 parts.2
