-- ===== src/Scheduler/Dequeue/Visit.antt =====
-- A turn of a tenant in a locked shard keeps the accounts and the limits.
use firq.Prelude.{
  ℕ, ◌+◌, ◌-◌, ◌≤◌, ◌≡◌, ◌∙◌, refl, ap, sym, false, List, [], ◌∷◌, arith, inl, inr, Bool-cases,
  Option-cases, some, contains, hit, length, if◌then◌else◌, remove_absent,
}
use firq.Prelude.Int.{ltb_ℤ, add_i64, sub_i64}
use firq.Api.{Priority, Task, TenantKey}
use firq.State.Dict
use firq.State.Ledger.{Ledger, take_pending, take_cancelled_marker}
use firq.State.Accounts.{
  Accounts, Accounts-ext, occ, marked-leaves, unmarked-live, live-leaves, release-Accounts,
}
use firq.State.Queued.{
  occ_queues, occ_others, occ_queues-split, occ_queues-put, total_len-split, total_len-put,
  occ_shard, occ_tenant,
}
use firq.State.Tenant.{at-put, TenantState, QueueEntry, Shard, at, put, total_len, is_empty}
use firq.Scheduler.Core.{Scheduler, notify_all, tick, instant_now}
use firq.Scheduler.Dequeue.{
  Turn, drop_dead, record_expired, put_tenant, push_ring, dispatch, capped_cost, take_front, serve,
  visit_tenant, visit,
}
use firq.Scheduler.Holds.{Same-trans}
use firq.Scheduler.Purge.Tenant.{Same}
use firq.Scheduler.Dequeue.Front.{drop_dead-Accounts, length-drop_dead}

-- `rest` counts what is queued in the other shards.
pub record ShardHolds {T : Type 0} (rest : ℕ → ℕ) (s0 s : Scheduler T) (shard : Shard T)
    : Type 0 where
  pub same : Same s0 s
  pub accounts :
      Accounts s0.config.max_global s0.ledger.next_task_id s.ledger
        (λ j. rest j + occ_shard j shard)
        0
  pub limited :
      (tenant : ℕ) (ts : TenantState T)
      → Dict.lookup tenant shard.tenants ≡ some ts
      → total_len ts ≤ s0.config.max_per_tenant

occ_shard-same :
    {T : Type 0} (shard shard' : Shard T)
    → shard'.tenants ≡ shard.tenants
    → (j : ℕ) → occ_shard j shard' ≡ occ_shard j shard
unfolding occ_shard
occ_shard-same shard shard' e j = ap (Dict.total (occ_tenant j)) e

abbrev pub TurnHolds : {T : Type 0} → (ℕ → ℕ) → Scheduler T → Turn T → Type 0
TurnHolds rest s0 turn = ShardHolds rest s0 turn.scheduler turn.shard

module _ {T : Type 0} (rest : ℕ → ℕ) (s0 : Scheduler T) (shard : Shard T) (tenant : TenantKey)
    (ts0 : TenantState T) (found : Dict.lookup tenant shard.tenants ≡ some ts0)
    (within : (t : ℕ) (ts : TenantState T)
      → Dict.lookup t shard.tenants ≡ some ts
      → total_len ts ≤ s0.config.max_per_tenant) where
  -- What is queued outside the tenant.
  abbrev others : ℕ → ℕ
  others j = rest j + (occ_shard j shard - occ_queues j ts0.queues)

  pub put_tenant-ShardHolds :
      (s : Scheduler T) (shard' : Shard T) (ts : TenantState T)
      → Same s0 s
      → shard'.tenants ≡ Dict.insert tenant ts shard.tenants
      → Accounts s0.config.max_global s0.ledger.next_task_id s.ledger
          (λ j. others j + occ_queues j ts.queues)
          0
      → total_len ts ≤ s0.config.max_per_tenant
      → ShardHolds rest s0 s shard'
  unfolding occ_shard occ_tenant
  put_tenant-ShardHolds s shard' ts m e a len = record {
    same = m;
    accounts = Accounts-ext s.ledger _ _ 0 a (λ j. omega (
      arith,
      ap (Dict.total (occ_tenant j)) e,
      Dict.total-insert_old (occ_tenant j) tenant ts ts0 shard.tenants found,
      Dict.le-total_of_lookup (occ_tenant j) tenant ts0 shard.tenants found,
    ));
    limited = λ t u h.
        let h' : Dict.lookup t (Dict.insert tenant ts shard.tenants) ≡ some u =
          ap (Dict.lookup t) (sym e) ∙ h in
        ground (arith, h', Dict.lookup-insert tenant t ts shard.tenants, within t u, len);
  }

  Same-ledger : (s : Scheduler T) (g : Ledger) → Same s (record s { ledger = g })
  Same-ledger s g = record {
    config = refl;
    shards = refl;
    active_shards = refl;
    shard_active = refl;
    shutdown_state = refl;
  }

  Same-ticked : (s : Scheduler T) (g : Ledger) → Same s (record (tick s) { ledger = g })
  Same-ticked s g = record {
    config = refl;
    shards = refl;
    active_shards = refl;
    shard_active = refl;
    shutdown_state = refl;
  }

  dispatch-Same :
      (task : Task T) (s : Scheduler T) (g : Ledger)
      → Same s (dispatch tenant task (record s { ledger = g }))
  unfolding dispatch notify_all
  dispatch-Same task s g = record {
    config = refl;
    shards = refl;
    active_shards = refl;
    shard_active = refl;
    shutdown_state = refl;
  }

  -- The part of a turn in which a task may leave: a marked entry is dropped, a live one is
  -- dispatched and its slot released; there is no third kind.
  take_front-Holds :
      (p : Priority) (e : QueueEntry T) (queue : List (QueueEntry T)) (ts : TenantState T)
      (s : Scheduler T) (shard' : Shard T)
      → Same s0 s
      → shard'.tenants ≡ shard.tenants
      → at ts.queues p ≡ e ∷ queue
      → Accounts s0.config.max_global s0.ledger.next_task_id s.ledger
          (λ j. others j + occ_queues j ts.queues)
          0
      → total_len ts ≤ s0.config.max_per_tenant
      → TurnHolds rest s0 (take_front p tenant e queue ts s shard')
  unfolding take_front take_cancelled_marker take_pending dispatch notify_all occ total_len
  take_front-Holds p e queue ts s shard' m same q a len =
      let all = λ (j : ℕ). others j + occ_queues j ts.queues in
      let left = λ (j : ℕ). others j + occ_queues j (put ts.queues p queue) in
      let gone : (j : ℕ) → left j + hit j e.id ≡ all j = λ j.
        omega (
          arith,
          occ_queues-put p j ts.queues queue,
          occ_queues-split p j ts.queues,
          ap (occ j) q,
        ) in
      let popped : TenantState T = record ts {
        queues = put ts.queues p queue;
        active = if is_empty queue then put ts.active p false else ts.active;
      } in
      let shard'' = if is_empty queue then shard' else push_ring p tenant shard' in
      let tenants : shard''.tenants ≡ shard.tenants = ground arith in
      let len' : total_len popped ≤ s0.config.max_per_tenant = omega (
        arith,
        total_len-split p ts,
        total_len-put p ts popped queue refl,
        ap (length {A = QueueEntry T}) q,
        len,
      ) in
      elim (Bool-cases (contains e.id s.ledger.cancelled_ids)) [
        | inl h ↦ rw h (
            put_tenant-ShardHolds (record s { ledger = (take_cancelled_marker e.id s.ledger).1 })
              (put_tenant tenant popped shard'') popped
              (Same-trans s0 s _ m (Same-ledger s (take_cancelled_marker e.id s.ledger).1))
              (ap (Dict.insert tenant popped) tenants)
              (marked-leaves s.ledger all left 0 e.id a gone h) len')
        | inr h ↦
            let live = unmarked-live s.ledger all left 0 e.id a gone h in
            let charged : TenantState T = record popped {
              deficits = put ts.deficits p (sub_i64 (at ts.deficits p) (capped_cost e.task));
            } in
            rw (h, live, remove_absent e.id s.ledger.cancelled_ids h)
              (put_tenant-ShardHolds
                (dispatch tenant e.task (record s { ledger = (take_pending e.id s.ledger).1 }))
                (put_tenant tenant charged shard'') charged
                (Same-trans s0 s _ m (dispatch-Same e.task s (take_pending e.id s.ledger).1))
                (ap (Dict.insert tenant charged) tenants)
                (release-Accounts (take_pending e.id s.ledger).1 left 0 1
                  (live-leaves s.ledger all left 0 e.id a gone live))
                len')
      ]

  serve-Holds :
      (p : Priority) (queue : List (QueueEntry T)) (ts : TenantState T) (s : Scheduler T)
      (shard' : Shard T)
      → Same s0 s
      → shard'.tenants ≡ shard.tenants
      → at ts.queues p ≡ queue
      → Accounts s0.config.max_global s0.ledger.next_task_id s.ledger
          (λ j. others j + occ_queues j ts.queues)
          0
      → total_len ts ≤ s0.config.max_per_tenant
      → TurnHolds rest s0 (serve p tenant queue ts s shard')
  unfolding serve total_len
  serve-Holds p [] ts s shard' m same q a len =
      let ts' : TenantState T = record ts { active = put ts.active p false } in
      put_tenant-ShardHolds s (put_tenant tenant ts' shard') ts' m
        (ap (Dict.insert tenant ts') same) a len
  serve-Holds p (e ∷ queue) ts s shard' m same q a len =
      let ts' : TenantState T = record ts {
        deficits = put ts.deficits p (add_i64 (at ts.deficits p) ts.quantum);
      } in
      elim (Bool-cases (ltb_ℤ (at ts.deficits p) (capped_cost e.task))) [
        | inl d ↦ rw d (
            put_tenant-ShardHolds s (push_ring p tenant (put_tenant tenant ts' shard')) ts' m
              (ap (Dict.insert tenant ts') same) a len)
        | inr d ↦ rw d (take_front-Holds p e queue ts s shard' m same q a len)
      ]

  record_expired-Same : (n : ℕ) (s : Scheduler T) → Same s (record_expired n s)
  unfolding record_expired notify_all
  record_expired-Same n s = ground arith

  record_expired-ledger : (n : ℕ) (s : Scheduler T) → (record_expired n s).ledger ≡ s.ledger
  unfolding record_expired notify_all
  record_expired-ledger n s = ground arith

  visit_tenant-Holds :
      (p : Priority) (s : Scheduler T) (shard' : Shard T)
      → ShardHolds rest s0 s shard
      → shard'.tenants ≡ shard.tenants
      → TurnHolds rest s0 (visit_tenant p tenant ts0 s shard')
  unfolding visit_tenant occ_shard occ_tenant
  visit_tenant-Holds p s shard' h same =
      let now = instant_now s in
      let qs = ts0.queues in
      let r = drop_dead now (at qs p) s.ledger 0 in
      let more = λ (j : ℕ). others j + occ_others p j qs in
      let ts : TenantState T = record ts0 { queues = put qs p r.queue } in
      let s1 : Scheduler T = record (tick s) { ledger = r.ledger } in
      let a : Accounts s0.config.max_global s0.ledger.next_task_id r.ledger
          (λ j. others j + occ_queues j ts.queues) 0 =
        Accounts-ext r.ledger (λ j. more j + occ j r.queue) _ 0
          (drop_dead-Accounts more now (at qs p) s.ledger 0 (
            Accounts-ext s.ledger _ (λ j. more j + occ j (at qs p)) 0 h.accounts
              (λ j. omega (
                arith,
                occ_queues-split p j qs,
                Dict.le-total_of_lookup (occ_tenant j) tenant ts0 shard.tenants found,
              ))))
          (λ j. omega (arith, occ_queues-put p j qs r.queue)) in
      serve-Holds p r.queue ts (record_expired r.expired_count s1) shard'
        (Same-trans s0 s1 _ (Same-trans s0 s s1 h.same (Same-ticked s r.ledger))
          (record_expired-Same r.expired_count s1))
        same (at-put qs p r.queue) (rw (record_expired-ledger r.expired_count s1) a)
        (omega (
          arith,
          total_len-split p ts0,
          total_len-put p ts0 ts r.queue refl,
          length-drop_dead now (at qs p) s.ledger 0,
          within tenant ts0 found,
        ))

module _ {T : Type 0} (rest : ℕ → ℕ) (s0 : Scheduler T) where
  -- A turn, also one of a tenant that has no state.
  pub visit-Holds :
      (p : Priority) (tenant : TenantKey) (s : Scheduler T) (shard shard' : Shard T)
      → ShardHolds rest s0 s shard
      → shard'.tenants ≡ shard.tenants
      → TurnHolds rest s0 (visit p tenant s shard')
  unfolding visit
  visit-Holds p tenant s shard shard' h same =
      elim (Option-cases (Dict.lookup tenant shard'.tenants)) [
        | inl e ↦
            rw (e, visit)
              (record {
                same = h.same;
                accounts =
                    Accounts-ext s.ledger _ _ 0 h.accounts
                      (λ j. omega (arith, occ_shard-same shard shard' same j));
                limited = λ t u f. h.limited t u (rw same at f);
              })
        | inr (ts, e) ↦
            rw (e, visit)
              (visit_tenant-Holds rest s0 shard tenant ts (rw same at e) h.limited p s shard' h
                same)
      ]
