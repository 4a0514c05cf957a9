-- ===== src/Scheduler/Drop/Ringed.antt =====
-- The policies that drop a task keep the ring of active shards.
use firq.Prelude.{
  ℕ, ◌<◌, ◌≡◌, refl, false, not, ◌||◌, inl, inr, Bool-cases, length, leb, if◌then◌else◌, none, some,
  Option,
}
use firq.Api.{TenantKey, Task, EnqueueRejectReason, global_full, tenant_full}
use firq.State.Tenant.{Shard}
use firq.Scheduler.Core.{Scheduler, shard_index, shard_at}
use firq.Scheduler.Shutdown.{is_accepting_enqueues}
use firq.Scheduler.Holds.{Holds, admit-Holds}
use firq.Scheduler.Valid.{IsValid, take_out-Holds, elsewhere}
use firq.Scheduler.Insert.{
  Admission, Reservation, tenant_entry, admit, is_tenant_full, reject_with, write_back,
}
use firq.Scheduler.Drop.{
  DropStrategy, Dropped, drop_from_tenant, drop_order, forget_dropped, reuse_or_reserve,
  settle_drop, at_limit, enqueue_drop_with_handle,
}
use firq.Scheduler.Drop.Valid.{drop_first-Drops, forget_dropped-Holds, reuse_or_reserve-Holds}
use firq.Scheduler.Enqueue.Valid.{shard_index-lt}
use firq.Scheduler.Enqueue.Ringed.{Same-IsRinged}
use firq.Scheduler.Ringed.{IsRinged, IsRinged-ext, write_back-IsRinged, commit-IsRinged}

module _ {T : Type 0} where
  settle_drop-IsRinged :
      (i tenant : ℕ) (shard : Shard T) (task : Task T) (r : Reservation T)
      → IsRinged r.scheduler
      → i < length r.scheduler.shards
      → IsRinged (settle_drop i shard tenant task r).0
  unfolding settle_drop
  settle_drop-IsRinged i tenant shard task r w lt = elim (Bool-cases r.reserved) [
    | inl e ↦ rw e (commit-IsRinged i tenant shard r.tenant_state task r.scheduler w lt)
    | inr e ↦
        let back = write_back i shard tenant r.tenant_state r.scheduler in
        rw e (
          IsRinged-ext back (reject_with global_full back)
            (write_back-IsRinged i tenant shard r.tenant_state r.scheduler w) refl refl)
  ]

  at_limit-IsRinged :
      (s : Scheduler T) (i tenant : ℕ) (task : Task T) (strategy : DropStrategy) (a : Admission T)
      (reason : EnqueueRejectReason)
      → IsRinged s
      → i < length s.shards
      → Holds (elsewhere s i tenant) s a.scheduler a.tenant_state 0
      → (o : Option (Dropped T)) → drop_from_tenant strategy task.priority a.tenant_state ≡ o
      → IsRinged (at_limit strategy i (shard_at s i) tenant task reason a).0
  unfolding at_limit
  at_limit-IsRinged s i tenant task strategy a reason w lt h none e =
      let back = write_back i (shard_at s i) tenant a.tenant_state a.scheduler in
      rw (e, at_limit)
        (IsRinged-ext back (reject_with reason back)
          (write_back-IsRinged i tenant (shard_at s i) a.tenant_state a.scheduler
            (Same-IsRinged s a.scheduler w h.same))
          refl refl)
  at_limit-IsRinged s i tenant task strategy a reason w lt h (some d) e =
      let dr =
        drop_first-Drops strategy (drop_order task.priority) a.tenant_state d
          (unfold drop_from_tenant in e) in
      let f = forget_dropped d.entry a.scheduler in
      let g = forget_dropped-Holds (elsewhere s i tenant) s a.scheduler a.tenant_state d h dr in
      let r = reuse_or_reserve f.0 a.ran_full_purge f.1 d.tenant_state in
      let m =
        (reuse_or_reserve-Holds (elsewhere s i tenant) s f.1 d.tenant_state f.0 a.ran_full_purge
          g).same in
      rw (e, at_limit)
        (settle_drop-IsRinged i tenant (shard_at s i) task r (Same-IsRinged s r.scheduler w m)
          (rw m.shards lt))

  pub enqueue_drop_with_handle-IsRinged :
      (strategy : DropStrategy) (tenant : TenantKey) (task : Task T) (s : Scheduler T)
      → IsValid s
      → IsRinged s
      → IsRinged (enqueue_drop_with_handle strategy tenant task s).0
  unfolding enqueue_drop_with_handle
  enqueue_drop_with_handle-IsRinged strategy tenant task s v w =
      let i = shard_index s tenant in
      let lt = shard_index-lt s tenant v in
      let a = admit s (tenant_entry s (shard_at s i) tenant) in
      let h =
        admit-Holds (elsewhere s i tenant) s s (tenant_entry s (shard_at s i) tenant)
          (take_out-Holds s i tenant v) in
      let full = is_tenant_full a.scheduler a.tenant_state in
      let global = leb a.scheduler.config.max_global a.scheduler.ledger.queue_len_estimate in
      let r = reuse_or_reserve false a.ran_full_purge a.scheduler a.tenant_state in
      let m =
        (reuse_or_reserve-Holds (elsewhere s i tenant) s a.scheduler a.tenant_state false
          a.ran_full_purge h).same in
      elim (Bool-cases (not (is_accepting_enqueues s))) [
        | inl c ↦ rw c w
        | inr c ↦ rw c (elim (Bool-cases (full || global)) [
          | inl e ↦ rw e (
              at_limit-IsRinged s i tenant task strategy a
                (if full then tenant_full else global_full) w lt h _ refl)
          | inr e ↦ rw e (
              settle_drop-IsRinged i tenant (shard_at s i) task r (Same-IsRinged s r.scheduler w m)
                (rw m.shards lt))
        ])
      ]
