-- ===== src/Scheduler/Active/Insert.antt =====
-- What an enqueue does to its tenant and its shard leaves no queued task out of reach.
use firq.Prelude.{
  ℕ, ◌<◌, ◌≡◌, ◌∙◌, refl, sym, ap, true, false, Bool, arith, inl, inr, Bool-cases, Option-cases, [],
  ◌∷◌, ◌++◌, length, length-set, set, if◌then◌else◌, ◌&&◌, not, ◌||◌, sat_add, ltb,
}
use firq.Api.{Priority, Task, TenantKey}
use firq.State.Dict
use firq.State.Ring
use firq.State.Ring.{ActiveRing}
use firq.State.Ring.Laws.{items-push_back}
use firq.State.Ledger.{next_handle, register_pending}
use firq.State.Tenant.{
  PerPriority, TenantState, QueueEntry, Shard, at, put, is_empty, rings_empty, new_tenant, fill,
}
use firq.State.Marked.{
  IsMarked, MarkedState, Marked-put, Marked-keep, insert-IsServed, push_back-count, push_back_self,
  idle-IsMarked, IsServed, put-IsServed,
}
use firq.Scheduler.Core.{Scheduler, shard_at, put_shard, activate_shard}
use firq.Scheduler.Purge.{
  full, purge_tenant_for_enqueue, maybe_purge_tenant_before_enqueue, count_attempt, purge_reason,
}
use firq.Scheduler.Purge.Marked.{run_purge-Marked, purge_tenant_for_enqueue-Marked}
use firq.Scheduler.Insert.{
  tenant_entry, write_back, reserve_slot, reserve, push_entry, commit, admit,
}
use firq.Scheduler.Ringed.{IsRinged}
use firq.Scheduler.Active.{
  IsActive, IsActive-ext, notify_all-IsActive, shard_at-put_ne, put_shard-IsServed,
  put_shard-IsAwake, activate_shard-IsActive,
}

module _ {T : Type 0} where
  -- The tenant that an enqueue works on, with or without a state.
  pub tenant_entry-Marked :
      (s : Scheduler T) (shard : Shard T) (tenant : TenantKey)
      → IsServed shard
      → MarkedState tenant shard.active_rings (tenant_entry s shard tenant)
  unfolding tenant_entry new_tenant
  tenant_entry-Marked s shard tenant w p = elim (Option-cases (Dict.lookup tenant shard.tenants)) [
    | inl e ↦ rw (e, tenant_entry) (idle p)
    | inr (ts, e) ↦ rw (e, tenant_entry) (w.served tenant ts e p)
  ]
    where
      idle :
          (q : Priority)
          → IsMarked {T = T} tenant (at shard.active_rings q) (at (fill false) q) (at (fill []) q)
      idle Priority.high = idle-IsMarked tenant shard.active_rings.first
      idle Priority.normal = idle-IsMarked tenant shard.active_rings.second
      idle Priority.low = idle-IsMarked tenant shard.active_rings.third

  pub admit-Marked :
      (tenant : ℕ) (rings : PerPriority ActiveRing) (s : Scheduler T) (ts : TenantState T)
      → MarkedState tenant rings ts
      → MarkedState tenant rings (admit s ts).tenant_state
  unfolding admit maybe_purge_tenant_before_enqueue
  admit-Marked tenant rings s ts m =
      run_purge-Marked tenant rings (purge_reason s (count_attempt ts)) s (count_attempt ts) m

  pub reserve-Marked :
      (tenant : ℕ) (rings : PerPriority ActiveRing) (ran : Bool) (s : Scheduler T)
      (ts : TenantState T)
      → MarkedState tenant rings ts
      → MarkedState tenant rings (reserve ran s ts).tenant_state
  unfolding reserve
  reserve-Marked tenant rings ran s ts m =
      let first = reserve_slot s ts in
      let m' = purge_tenant_for_enqueue-Marked tenant rings full first.scheduler ts m in
      let p = purge_tenant_for_enqueue full first.scheduler ts in
      elim (Bool-cases (first.reserved || ran)) [
        | inl e ↦ rw e m
        | inr e ↦ rw e (elim (Bool-cases (ltb 0 p.stats.released_slots)) [
          | inl more ↦ rw more m'
          | inr less ↦ rw less m'
        ])
      ]

  -- What the new entry does to its tenant and its shard.
  push_entry-IsServed :
      (e : QueueEntry T) (tenant : TenantKey) (shard : Shard T) (ts : TenantState T)
      → IsServed shard
      → MarkedState tenant shard.active_rings ts
      → let pushed = push_entry e tenant shard ts in
        IsServed (record pushed.0 { tenants = Dict.insert tenant pushed.1 pushed.0.tenants })
  unfolding push_entry
  push_entry-IsServed e tenant shard ts w m =
      let p = e.task.priority in
      let ring = Ring.push_back (at shard.active_rings p) tenant in
      let pushed = items-push_back (at shard.active_rings p) tenant (w.valid p) in
      let queue = at ts.queues p ++ e ∷ [] in
      elim (Bool-cases (is_empty (at ts.queues p) && not (at ts.active p))) [
        | inl c ↦ rw c (
            put-IsServed shard w p tenant ring pushed.1
              (λ t n. push_back-count t tenant _ _ pushed.0)
              (record ts { queues = put ts.queues p queue; active = put ts.active p true }) _ refl
              refl
              (Marked-put tenant shard.active_rings ts.active ts.queues p ring true queue
                (λ q n. m q)
                (record { queued = λ h. refl; ringed = λ h. push_back_self tenant _ _ pushed.0 })))
        | inr c ↦ rw c (
            insert-IsServed shard tenant (record ts { queues = put ts.queues p queue }) _ w refl
              refl
              (Marked-keep tenant shard.active_rings ts.active ts.queues p queue m
                (λ h. ground (arith, c, (m p).queued))))
      ]

  -- One tenant's state is written back, with its rings as they were.
  pub write_back-IsActive :
      (i tenant : ℕ) (ts : TenantState T) (s : Scheduler T)
      → IsActive s
      → i < length s.shards
      → MarkedState tenant (shard_at s i).active_rings ts
      → IsActive (write_back i (shard_at s i) tenant ts s)
  unfolding write_back shard_at rings_empty
  write_back-IsActive i tenant ts s w lt m =
      let shard = shard_at s i in
      let shard' : Shard T = record shard { tenants = Dict.insert tenant ts shard.tenants } in
      record {
        served =
            put_shard-IsServed s i shard' lt w.served
              (insert-IsServed shard tenant ts shard' (w.served i) refl refl m);
        awake = put_shard-IsAwake s i shard' w.awake lt (λ h. w.awake.flagged i h);
      }

  pub commit-IsActive :
      (i tenant : ℕ) (ts : TenantState T) (task : Task T) (s : Scheduler T)
      → IsActive s
      → IsRinged s
      → i < length s.shards
      → MarkedState tenant (shard_at s i).active_rings ts
      → IsActive (commit i (shard_at s i) tenant ts task s).0
  unfolding commit write_back put_shard
  commit-IsActive i tenant ts task s w r lt m =
      let shard = shard_at s i in
      let (handle, g) = next_handle s.ledger in
      let e : QueueEntry T = record { id = handle; task = task } in
      let entry = push_entry e tenant shard ts in
      let shard' : Shard T = record entry.0 {
        tenants = Dict.insert tenant entry.1 entry.0.tenants;
      } in
      let s1 : Scheduler T = record s {
        ledger = register_pending handle g;
        stats = record s.stats { enqueued = sat_add s.stats.enqueued 1 };
      } in
      let pushed = put_shard s1 i shard' in
      let n : length (set s.shards i shard') ≡ length s.shards = length-set s.shards i shard' in
      let w1 = IsActive-ext s s1 w refl refl refl in
      let served =
        put_shard-IsServed s1 i shard' lt w1.served
          (push_entry-IsServed e tenant shard ts (w.served i) m) in
      let activated = if rings_empty shard then activate_shard pushed i else pushed in
      let w2 : IsActive activated = elim (Bool-cases (rings_empty shard)) [
        | inl empty ↦ rw empty (
            activate_shard-IsActive pushed i (record { ring = r.ring; below = rw n r.below })
              (rw n lt) served (w.awake.flags ∙ sym n) (λ k lk. w.awake.once k (rw n at lk))
              (λ k d h.
                w1.awake.flagged k (ap rings_empty (sym (shard_at-put_ne s1 i k shard' d)) ∙ h)))
        | inr busy ↦ rw busy (record {
          served = served;
          awake = put_shard-IsAwake s1 i shard' w1.awake lt (λ h. w.awake.flagged i busy);
        })
      ] in
      elim (Bool-cases (is_empty (at ts.queues task.priority))) [
        | inl c ↦ rw c (notify_all-IsActive activated w2)
        | inr c ↦ rw c w2
      ]
