-- ===== src/Scheduler/Drop/Active.antt =====
-- The policies that drop a task leave no queued task out of reach.
use firq.Prelude.{
  ℕ, ◌<◌, ◌≡◌, refl, ap, subst, some_eq, true, false, not, ◌||◌, inl, inr, Bool-cases, length, leb,
  if◌then◌else◌, none, some, Option, Bool, List, [], ◌∷◌, arith,
}
use firq.Api.{TenantKey, Task, Priority, EnqueueRejectReason, global_full, tenant_full}
use firq.State.Ring.{ActiveRing}
use firq.State.Tenant.{PerPriority, TenantState, at, put, is_empty, QueueEntry}
use firq.State.Marked.{MarkedState, Marked-keep}
use firq.Scheduler.Core.{Scheduler, shard_index, shard_at}
use firq.Scheduler.Shutdown.{is_accepting_enqueues}
use firq.Scheduler.Purge.Tenant.{Same}
use firq.Scheduler.Holds.{Holds, admit-Holds}
use firq.Scheduler.Valid.{IsValid, take_out-Holds, elsewhere}
use firq.Scheduler.Insert.{
  Reservation, Admission, tenant_entry, admit, is_tenant_full, reject_with, write_back,
}
use firq.Scheduler.Drop.{
  DropStrategy, Dropped, drop_first, drop_from_tenant, drop_order, take_entry, forget_dropped,
  reuse_or_reserve, settle_drop, at_limit, enqueue_drop_with_handle,
}
use firq.Scheduler.Drop.Valid.{drop_first-Drops, forget_dropped-Holds, reuse_or_reserve-Holds}
use firq.Scheduler.Enqueue.Valid.{shard_index-lt}
use firq.Scheduler.Enqueue.Active.{leave-IsActive, insert-IsActive}
use firq.Scheduler.Ringed.{IsRinged}
use firq.Scheduler.Active.{IsActive, IsActive-ext}
use firq.Scheduler.Active.Insert.{tenant_entry-Marked, admit-Marked, reserve-Marked}

module _ {T : Type 0} (tenant : ℕ) (rings : PerPriority ActiveRing) where
  -- The queue that gives an entry was not empty, so its flag is set.
  drop_first-Marked :
      (strategy : DropStrategy) (ps : List Priority) (ts : TenantState T) (d : Dropped T)
      → drop_first strategy ps ts ≡ some d
      → MarkedState tenant rings ts
      → MarkedState tenant rings d.tenant_state
  unfolding drop_first
  drop_first-Marked strategy [] ts d e m = absurd (ground (arith, e))
  drop_first-Marked strategy (p ∷ ps) ts d e m =
      go (λ h. drop_first-Marked strategy ps ts d h m) (at ts.queues p) refl e
    where
      go :
          (drop_first strategy ps ts ≡ some d → MarkedState tenant rings d.tenant_state)
          → (queue : List (QueueEntry T)) → at ts.queues p ≡ queue
          → (elim queue [
            | [] ↦ drop_first strategy ps ts
            | f ∷ rest ↦ some (record {
              entry = (take_entry strategy f rest).0;
              tenant_state = record ts { queues = put ts.queues p (take_entry strategy f rest).1 };
            })
          ])
            ≡ some d
          → MarkedState tenant rings d.tenant_state
      go later [] q h = later h
      go later (f ∷ rest) q h =
          let left = (take_entry strategy f rest).1 in
          subst (λ (x : Dropped T). MarkedState tenant rings x.tenant_state) (some_eq _ _ h)
            (Marked-keep tenant rings ts.active ts.queues p left m
              (λ n. (m p).queued (ap is_empty q)))

  reuse_or_reserve-Marked :
      (reused ran : Bool) (s : Scheduler T) (ts : TenantState T)
      → MarkedState tenant rings ts
      → MarkedState tenant rings (reuse_or_reserve reused ran s ts).tenant_state
  unfolding reuse_or_reserve
  reuse_or_reserve-Marked true ran s ts m = m
  reuse_or_reserve-Marked false ran s ts m = reserve-Marked tenant rings ran s ts m

module _ {T : Type 0} where
  settle_drop-IsActive :
      (s : Scheduler T) (i tenant : ℕ) (task : Task T) (r : Reservation T)
      → Same s r.scheduler
      → IsActive s
      → IsRinged s
      → i < length s.shards
      → MarkedState tenant (shard_at s i).active_rings r.tenant_state
      → IsActive (settle_drop i (shard_at s i) tenant task r).0
  unfolding settle_drop
  settle_drop-IsActive s i tenant task r same w ring lt m = elim (Bool-cases r.reserved) [
    | inl e ↦ rw e (insert-IsActive s r.scheduler same w i tenant lt r.tenant_state m task ring)
    | inr e ↦
        let back = write_back i (shard_at s i) tenant r.tenant_state r.scheduler in
        rw e (
          IsActive-ext back (reject_with global_full back)
            (leave-IsActive s r.scheduler same w i tenant lt r.tenant_state m) refl refl refl)
  ]

  at_limit-IsActive :
      (s : Scheduler T) (i tenant : ℕ) (task : Task T) (strategy : DropStrategy) (a : Admission T)
      (reason : EnqueueRejectReason)
      → IsActive s
      → IsRinged s
      → i < length s.shards
      → Holds (elsewhere s i tenant) s a.scheduler a.tenant_state 0
      → MarkedState tenant (shard_at s i).active_rings a.tenant_state
      → (o : Option (Dropped T)) → drop_from_tenant strategy task.priority a.tenant_state ≡ o
      → IsActive (at_limit strategy i (shard_at s i) tenant task reason a).0
  unfolding at_limit
  at_limit-IsActive s i tenant task strategy a reason w ring lt h m none e =
      let back = write_back i (shard_at s i) tenant a.tenant_state a.scheduler in
      rw (e, at_limit)
        (IsActive-ext back (reject_with reason back)
          (leave-IsActive s a.scheduler h.same w i tenant lt a.tenant_state m) refl refl refl)
  at_limit-IsActive s i tenant task strategy a reason w ring lt h m (some d) e =
      let rings = (shard_at s i).active_rings in
      let found : drop_first strategy (drop_order task.priority) a.tenant_state ≡ some d =
        unfold drop_from_tenant in e in
      let dr = drop_first-Drops strategy (drop_order task.priority) a.tenant_state d found in
      let md =
        drop_first-Marked tenant rings strategy (drop_order task.priority) a.tenant_state d found
          m in
      let f = forget_dropped d.entry a.scheduler in
      let g = forget_dropped-Holds (elsewhere s i tenant) s a.scheduler a.tenant_state d h dr in
      rw (e, at_limit)
        (settle_drop-IsActive s i tenant task
          (reuse_or_reserve f.0 a.ran_full_purge f.1 d.tenant_state)
          (reuse_or_reserve-Holds (elsewhere s i tenant) s f.1 d.tenant_state f.0 a.ran_full_purge
            g).same
          w ring lt
          (reuse_or_reserve-Marked tenant rings f.0 a.ran_full_purge f.1 d.tenant_state md))

  pub enqueue_drop_with_handle-IsActive :
      (strategy : DropStrategy) (tenant : TenantKey) (task : Task T) (s : Scheduler T)
      → IsValid s
      → IsRinged s
      → IsActive s
      → IsActive (enqueue_drop_with_handle strategy tenant task s).0
  unfolding enqueue_drop_with_handle
  enqueue_drop_with_handle-IsActive strategy tenant task s v ring w =
      let i = shard_index s tenant in
      let shard = shard_at s i in
      let lt = shard_index-lt s tenant v in
      let ts = tenant_entry s shard tenant in
      let a = admit s ts in
      let h = admit-Holds (elsewhere s i tenant) s s ts (take_out-Holds s i tenant v) in
      let m =
        admit-Marked tenant shard.active_rings s ts
          (tenant_entry-Marked s shard tenant (w.served i)) in
      let full = is_tenant_full a.scheduler a.tenant_state in
      let global = leb a.scheduler.config.max_global a.scheduler.ledger.queue_len_estimate in
      elim (Bool-cases (not (is_accepting_enqueues s))) [
        | inl c ↦ rw c w
        | inr c ↦ rw c (elim (Bool-cases (full || global)) [
          | inl e ↦ rw e (
              at_limit-IsActive s i tenant task strategy a
                (if full then tenant_full else global_full) w ring lt h m _ refl)
          | inr e ↦ rw e (
              settle_drop-IsActive s i tenant task
                (reuse_or_reserve false a.ran_full_purge a.scheduler a.tenant_state)
                (reuse_or_reserve-Holds (elsewhere s i tenant) s a.scheduler a.tenant_state false
                  a.ran_full_purge h).same
                w ring lt
                (reuse_or_reserve-Marked tenant shard.active_rings false a.ran_full_purge
                  a.scheduler a.tenant_state m))
        ])
      ]
