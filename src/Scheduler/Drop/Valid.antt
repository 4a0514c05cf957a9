-- ===== src/Scheduler/Drop/Valid.antt =====
-- Every way out of `enqueue_drop_with_handle` keeps the invariant.
use firq.Prelude.{
  ℕ, suc, ◌+◌, ◌≤◌, ◌<◌, ◌≡◌, refl, ap, subst, true, false, not, ◌||◌, arith, inl, inr, Bool-cases,
  length, u64_max, Bool, if◌then◌else◌, leb, Option, some_eq, none, some, hit, List, [], ◌∷◌,
}
use firq.Api.{
  TenantKey, Task, Priority, SchedulerConfig, EnqueueRejectReason, tenant_full, global_full,
}
use firq.State.Accounts.{forget-Accounts, occ}
use firq.State.Queued.{occ_queues, occ_queues-split, occ_queues-put, total_len-split, total_len-put}
use firq.State.Tenant.{TenantState, QueueEntry, total_len, at, put}
use firq.Scheduler.Core.{Scheduler, shard_at, shard_index}
use firq.Scheduler.Shutdown.{is_accepting_enqueues}
use firq.Scheduler.Insert.{
  Admission, Reservation, tenant_entry, admit, is_tenant_full, write_back, reject_with,
}
use firq.Scheduler.Drop.{
  DropStrategy, oldest, newest, Dropped, pop_back, take_entry, drop_first, drop_order,
  drop_from_tenant, forget_dropped, settle_drop, reuse_or_reserve, enqueue_drop_with_handle,
  at_limit,
}
use firq.Scheduler.Holds.{Holds, admit-Holds, reserve-Holds, total_len-reserve}
use firq.Scheduler.Valid.{IsValid, elsewhere, take_out-Holds}
use firq.Scheduler.Commit.{write_back-IsValid, commit-IsValid, IsValid-ext}
use firq.Scheduler.Enqueue.Valid.{shard_index-lt, not-full}

module _ {T : Type 0} where
  pop_back-occ :
      (e : QueueEntry T) (queue : List (QueueEntry T)) (j : ℕ)
      → occ j (pop_back e queue).1 + hit j (pop_back e queue).0.id ≡ hit j e.id + occ j queue
  unfolding pop_back occ
  pop_back-occ e [] j = omega arith
  pop_back-occ e (f ∷ queue) j = omega (arith, pop_back-occ f queue j)

  length-pop_back :
      (e : QueueEntry T) (queue : List (QueueEntry T)) → length (pop_back e queue).1 ≡ length queue
  unfolding pop_back
  length-pop_back e [] = refl
  length-pop_back e (f ∷ queue) = omega (arith, length-pop_back f queue)

  -- The entry taken is one of the queue's, and the others stay.
  take_entry-occ :
      (strategy : DropStrategy) (e : QueueEntry T) (queue : List (QueueEntry T)) (j : ℕ)
      → occ j (take_entry strategy e queue).1 + hit j (take_entry strategy e queue).0.id
        ≡ occ j (e ∷ queue)
  unfolding take_entry occ
  take_entry-occ oldest e queue j = omega arith
  take_entry-occ newest e queue j = pop_back-occ e queue j

  length-take_entry :
      (strategy : DropStrategy) (e : QueueEntry T) (queue : List (QueueEntry T))
      → length (take_entry strategy e queue).1 ≡ length queue
  unfolding take_entry
  length-take_entry oldest e queue = refl
  length-take_entry newest e queue = length-pop_back e queue

  -- What a successful drop leaves.
  pub record Drops (ts : TenantState T) (d : Dropped T) : Type 0 where
    pub gone :
        (j : ℕ) → occ_queues j d.tenant_state.queues + hit j d.entry.id ≡ occ_queues j ts.queues
    pub shorter : suc (total_len d.tenant_state) ≡ total_len ts

  drop_at-Drops :
      (strategy : DropStrategy) (p : Priority) (ts : TenantState T) (e : QueueEntry T)
      (queue : List (QueueEntry T))
      → at ts.queues p ≡ e ∷ queue
      → Drops ts (record {
        entry = (take_entry strategy e queue).0;
        tenant_state = record ts { queues = put ts.queues p (take_entry strategy e queue).1 };
      })
  drop_at-Drops strategy p ts e queue q =
      let rest = (take_entry strategy e queue).1 in
      record {
        gone = λ j. omega (
          arith,
          occ_queues-put p j ts.queues rest,
          occ_queues-split p j ts.queues,
          ap (occ j) q,
          take_entry-occ strategy e queue j,
        );
        shorter = omega (
          arith,
          total_len-split p ts,
          total_len-put p ts (record ts { queues = put ts.queues p rest }) rest refl,
          ap (length {A = QueueEntry T}) q,
          length-take_entry strategy e queue,
        );
      }

  pub drop_first-Drops :
      (strategy : DropStrategy) (ps : List Priority) (ts : TenantState T) (d : Dropped T)
      → drop_first strategy ps ts ≡ some d
      → Drops ts d
  unfolding drop_first
  drop_first-Drops strategy [] ts d e = cc
  drop_first-Drops strategy (p ∷ ps) ts d e =
      go (λ h. drop_first-Drops strategy ps ts d h) (at ts.queues p) refl e
    where
      go :
          (drop_first strategy ps ts ≡ some d → Drops ts d)
          → (queue : List (QueueEntry T)) → at ts.queues p ≡ queue
          → (elim queue [
            | [] ↦ drop_first strategy ps ts
            | f ∷ rest ↦ some (record {
              entry = (take_entry strategy f rest).0;
              tenant_state = record ts { queues = put ts.queues p (take_entry strategy f rest).1 };
            })
          ])
            ≡ some d
          → Drops ts d
      go later [] q h = later h
      go later (f ∷ rest) q h =
          subst (Drops ts) (some_eq _ _ h) (drop_at-Drops strategy p ts f rest q)

  -- The dropped entry's marker or slot is taken over.
  pub forget_dropped-Holds :
      (rest : ℕ → ℕ) (s0 s : Scheduler T) (ts : TenantState T) (d : Dropped T)
      → Holds rest s0 s ts 0
      → Drops ts d
      → let f = forget_dropped d.entry s in Holds rest s0 f.1 d.tenant_state (if f.0 then 1 else 0)
  unfolding forget_dropped
  forget_dropped-Holds rest s0 s ts d h dr = record {
    same = record {
      config = h.same.config;
      shards = h.same.shards;
      active_shards = h.same.active_shards;
      shard_active = h.same.shard_active;
      shutdown_state = h.same.shutdown_state;
    };
    accounts =
        forget-Accounts s.ledger (λ j. rest j + occ_queues j ts.queues)
          (λ j. rest j + occ_queues j d.tenant_state.queues) d.entry.id h.accounts
          (λ j. omega (arith, dr.gone j));
    limited = omega (arith, h.limited, dr.shorter);
  }

  pub reuse_or_reserve-Holds :
      (rest : ℕ → ℕ) (s0 s : Scheduler T) (ts : TenantState T) (reused ran : Bool)
      → Holds rest s0 s ts (if reused then 1 else 0)
      → let r = reuse_or_reserve reused ran s ts in
        Holds rest s0 r.scheduler r.tenant_state (if r.reserved then 1 else 0)
  unfolding reuse_or_reserve
  reuse_or_reserve-Holds rest s0 s ts true ran h = h
  reuse_or_reserve-Holds rest s0 s ts false ran h = reserve-Holds rest s0 s ts h ran

  total_len-reuse_or_reserve :
      (reused ran : Bool) (s : Scheduler T) (ts : TenantState T)
      → total_len (reuse_or_reserve reused ran s ts).tenant_state ≤ total_len ts
  unfolding reuse_or_reserve
  total_len-reuse_or_reserve true ran s ts = omega arith
  total_len-reuse_or_reserve false ran s ts = total_len-reserve ran s ts

  settle_drop-IsValid :
      (s : Scheduler T) (i tenant : ℕ) (task : Task T) (r : Reservation T)
      → IsValid s
      → i < length s.shards
      → Holds (elsewhere s i tenant) s r.scheduler r.tenant_state (if r.reserved then 1 else 0)
      → s.ledger.next_task_id < u64_max
      → total_len r.tenant_state < s.config.max_per_tenant
      → IsValid (settle_drop i (shard_at s i) tenant task r).0
  unfolding settle_drop
  settle_drop-IsValid s i tenant task r v lt h small room = elim (Bool-cases r.reserved) [
    | inl e ↦
        rw e (commit-IsValid s r.scheduler i tenant r.tenant_state task v lt (rw e at h) small room)
    | inr e ↦
        let back = write_back i (shard_at s i) tenant r.tenant_state r.scheduler in
        rw e (
          IsValid-ext back (reject_with global_full back)
            (write_back-IsValid s r.scheduler i tenant r.tenant_state v lt (rw e at h)) refl refl
            refl)
  ]

  -- The part of the call that is reached at a limit.
  at_limit-IsValid :
      (s : Scheduler T) (i tenant : ℕ) (task : Task T) (strategy : DropStrategy) (a : Admission T)
      (reason : EnqueueRejectReason)
      → IsValid s
      → i < length s.shards
      → Holds (elsewhere s i tenant) s a.scheduler a.tenant_state 0
      → s.ledger.next_task_id < u64_max
      → (o : Option (Dropped T)) → drop_from_tenant strategy task.priority a.tenant_state ≡ o
      → IsValid (at_limit strategy i (shard_at s i) tenant task reason a).0
  unfolding at_limit
  at_limit-IsValid s i tenant task strategy a reason v lt h small none e =
      let back = write_back i (shard_at s i) tenant a.tenant_state a.scheduler in
      rw (e, at_limit)
        (IsValid-ext back (reject_with reason back)
          (write_back-IsValid s a.scheduler i tenant a.tenant_state v lt h) refl refl refl)
  at_limit-IsValid s i tenant task strategy a reason v lt h small (some d) e =
      let dr =
        drop_first-Drops strategy (drop_order task.priority) a.tenant_state d
          (unfold drop_from_tenant in e) in
      let f = forget_dropped d.entry a.scheduler in
      let g = forget_dropped-Holds (elsewhere s i tenant) s a.scheduler a.tenant_state d h dr in
      rw (e, at_limit)
        (settle_drop-IsValid s i tenant task
          (reuse_or_reserve f.0 a.ran_full_purge f.1 d.tenant_state) v lt
          (reuse_or_reserve-Holds (elsewhere s i tenant) s f.1 d.tenant_state f.0 a.ran_full_purge
            g)
          small
          (omega (
            arith,
            total_len-reuse_or_reserve f.0 a.ran_full_purge f.1 d.tenant_state,
            dr.shorter,
            h.limited,
          )))

  -- While handles have not run out, an enqueue under a policy that drops a task keeps the
  -- invariant of a valid scheduler, whatever it answers.
  pub enqueue_drop_with_handle-IsValid :
      (strategy : DropStrategy) (tenant : TenantKey) (task : Task T) (s : Scheduler T)
      → IsValid s
      → s.ledger.next_task_id < u64_max
      → IsValid (enqueue_drop_with_handle strategy tenant task s).0
  unfolding enqueue_drop_with_handle
  enqueue_drop_with_handle-IsValid strategy tenant task s v small =
      let i = shard_index s tenant in
      let lt = shard_index-lt s tenant v in
      let ts = tenant_entry s (shard_at s i) tenant in
      let a = admit s ts in
      let h = admit-Holds (elsewhere s i tenant) s s ts (take_out-Holds s i tenant v) in
      let full = is_tenant_full a.scheduler a.tenant_state in
      let global = leb a.scheduler.config.max_global a.scheduler.ledger.queue_len_estimate in
      elim (Bool-cases (not (is_accepting_enqueues s))) [
        | inl c ↦ rw c v
        | inr c ↦ rw c (elim (Bool-cases (full || global)) [
          | inl e ↦ rw e (
              at_limit-IsValid s i tenant task strategy a
                (if full then tenant_full else global_full) v lt h small _ refl)
          | inr e ↦
              let room = not-full a.scheduler a.tenant_state (ground arith) in
              rw e (
                settle_drop-IsValid s i tenant task
                  (reuse_or_reserve false a.ran_full_purge a.scheduler a.tenant_state) v lt
                  (reuse_or_reserve-Holds (elsewhere s i tenant) s a.scheduler a.tenant_state false
                    a.ran_full_purge h)
                  small
                  (omega (
                    arith,
                    total_len-reuse_or_reserve false a.ran_full_purge a.scheduler a.tenant_state,
                    ap (λ (x : SchedulerConfig). x.max_per_tenant) h.same.config,
                    room,
                  )))
        ])
      ]
