-- ===== src/Scheduler/Dequeue/Active.antt =====
-- A dequeue leaves no queued task out of reach: a tenant that leaves the front of its ring comes
-- back to the end of it unless its queue is empty.
use firq.Prelude.{
  ℕ, zero, suc, ◌≤◌, ◌≡◌, ◌≢◌, ◌∙◌, refl, sym, ap, subst, true, false, Bool, arith, inl, inr,
  Bool-cases, Option-cases, none, some, List, [], ◌∷◌, count,
}
use firq.Prelude.Int.{ltb_ℤ}
use firq.Api.{Instant, Priority, TenantKey}
use firq.State.Dict
use firq.State.Ring
use firq.State.Ring.{ActiveRing}
use firq.State.Ring.Laws.{items-push_back, pop_front-Pops, Pops}
use firq.State.Ledger.{Ledger, take_pending, take_cancelled_marker}
use firq.State.Tenant.{PerPriority, TenantState, QueueEntry, Shard, at, put, at-put, is_empty}
use firq.State.Marked.{
  IsMarked, Marked, Marked-put, idle-IsMarked, IsServed, put-IsServed, put-at, put-put,
  push_back-count, push_back_self, put-IsValid, put-others,
}
use firq.Scheduler.Core.{Scheduler, instant_now}
use firq.Scheduler.Dequeue.{
  drop_dead, put_tenant, push_ring, capped_cost, take_front, serve, visit_tenant, visit,
  search_ring, search_levels,
}

-- A queue that holds a task after its dead front is gone held one before.
drop_dead-is_empty :
    {T : Type 0} (now : Instant) (queue : List (QueueEntry T)) (g : Ledger) (n : ℕ)
    → is_empty (drop_dead now queue g n).queue ≡ false
    → is_empty queue ≡ false
unfolding drop_dead
drop_dead-is_empty now [] g n h = h
drop_dead-is_empty now (e ∷ queue) g n h = refl

-- One tenant has left the front of a ring of this shard, whose ring is now `ring`.
module _ {T : Type 0} (shard : Shard T) (w : IsServed shard) (p : Priority) (tenant : TenantKey)
    (ring : ActiveRing) (valid : Ring.IsValid ring)
    (left : Ring.items (at shard.active_rings p) ≡ tenant ∷ Ring.items ring) where
  abbrev popped_shard : Shard T
  popped_shard = record shard { active_rings = put shard.active_rings p ring }

  abbrev pushed_ring : ActiveRing
  pushed_ring = Ring.push_back ring tenant

  popped-count :
      (t : ℕ)
      → t ≢ tenant
      → count t (Ring.items (at shard.active_rings p)) ≤ count t (Ring.items ring)
  popped-count t n = ground (arith, ap (count t) left, n)

  -- The tenant stays out of the ring: its queue is empty.
  out-IsServed :
      (ts : TenantState T) (shard' : Shard T)
      → shard'.tenants ≡ Dict.insert tenant ts shard.tenants
      → shard'.active_rings ≡ put shard.active_rings p ring
      → (active : PerPriority Bool) (queues : PerPriority (List (QueueEntry T)))
      → ts.active ≡ put active p false
      → ts.queues ≡ put queues p []
      → ((q : Priority)
          → p ≢ q
          → IsMarked tenant (at shard.active_rings q) (at active q) (at queues q))
      → IsServed shard'
  out-IsServed ts shard' et er active queues ea eq m =
      put-IsServed shard w p tenant ring valid popped-count ts shard' et er (
        rw (ea, eq)
          (Marked-put tenant shard.active_rings active queues p ring false [] m
            (idle-IsMarked tenant ring)))

  -- The tenant goes to the end of the ring.
  back-IsServed :
      (ts : TenantState T) (shard' : Shard T)
      → shard'.tenants ≡ Dict.insert tenant ts shard.tenants
      → shard'.active_rings ≡ put shard.active_rings p pushed_ring
      → (active : PerPriority Bool) (queues : PerPriority (List (QueueEntry T)))
      → (queue : List (QueueEntry T)) → ts.active ≡ active
      → ts.queues ≡ put queues p queue
      → at active p ≡ true
      → ((q : Priority)
          → p ≢ q
          → IsMarked tenant (at shard.active_rings q) (at active q) (at queues q))
      → IsServed shard'
  back-IsServed ts shard' et er active queues queue ea eq flag m =
      let pushed = items-push_back ring tenant valid in
      put-IsServed shard w p tenant pushed_ring pushed.1
        (λ t n. omega (arith, popped-count t n, push_back-count t tenant _ _ pushed.0)) ts shard' et
        er
        (rw (ea, eq)
          (subst (λ a. Marked tenant (put shard.active_rings p pushed_ring) a (put queues p queue))
            (put-at active p)
            (Marked-put tenant shard.active_rings active queues p pushed_ring (at active p) queue m
              (record { queued = λ h. flag; ringed = λ h. push_back_self tenant _ _ pushed.0 }))))

  pushed_rings :
      put
        (put shard.active_rings p ring)
        p
        (Ring.push_back (at (put shard.active_rings p ring) p) tenant)
      ≡ put shard.active_rings p pushed_ring
  pushed_rings =
      put-put shard.active_rings p ring _
      ∙ ap (λ r. put shard.active_rings p (Ring.push_back r tenant))
          (at-put shard.active_rings p ring)

  -- The front entry leaves its queue.
  take_front-IsServed :
      (e : QueueEntry T) (rest : List (QueueEntry T)) (ts0 ts : TenantState T) (s : Scheduler T)
      → ((q : Priority)
          → p ≢ q
          → IsMarked tenant (at shard.active_rings q) (at ts0.active q) (at ts0.queues q))
      → at ts0.active p ≡ true
      → ts.active ≡ ts0.active
      → ts.queues ≡ put ts0.queues p (e ∷ rest)
      → IsServed (take_front p tenant e rest ts s popped_shard).shard
  unfolding take_front
  take_front-IsServed e rest ts0 ts s m flag ea eq =
      let (marked, g) = take_cancelled_marker e.id s.ledger in
      let (live, g') = take_pending e.id g in
      let queues : (queue : List (QueueEntry T)) → put ts.queues p queue ≡ put ts0.queues p queue =
        λ queue.
          ap (λ (x : PerPriority (List (QueueEntry T))). put x p queue) eq
          ∙ put-put ts0.queues p (e ∷ rest) queue in
      elim (Bool-cases (is_empty rest)) [
        | inl c ↦
            let gone : rest ≡ [] = empty_eq rest c in
            let any : (u : TenantState T)
                → u.active ≡ put ts.active p false
                → u.queues ≡ put ts.queues p rest
                → IsServed (put_tenant tenant u popped_shard) =
              λ u ua uq.
                out-IsServed u _ refl refl ts0.active ts0.queues
                  (ua ∙ ap (λ (x : PerPriority Bool). put x p false) ea)
                  (uq ∙ (queues rest ∙ ap (put ts0.queues p) gone)) m in
            rw c (elim (Bool-cases marked) [
              | inl b ↦ rw b (any _ refl refl)
              | inr b ↦ rw b (elim (Bool-cases live) [
                | inl l ↦ rw l (any _ refl refl)
                | inr l ↦ rw l (any _ refl refl)
              ])
            ])
        | inr c ↦
            let any : (u : TenantState T)
                → u.active ≡ ts.active
                → u.queues ≡ put ts.queues p rest
                → IsServed (put_tenant tenant u (push_ring p tenant popped_shard)) =
              λ u ua uq.
                back-IsServed u _ refl pushed_rings ts0.active ts0.queues rest (ua ∙ ea)
                  (uq ∙ queues rest) flag m in
            rw c (elim (Bool-cases marked) [
              | inl b ↦ rw b (any _ refl refl)
              | inr b ↦ rw b (elim (Bool-cases live) [
                | inl l ↦ rw l (any _ refl refl)
                | inr l ↦ rw l (any _ refl refl)
              ])
            ])
      ]
    where
      empty_eq : (queue : List (QueueEntry T)) → is_empty queue ≡ true → queue ≡ []
      empty_eq [] h = refl
      empty_eq (x ∷ xs) h = cc

  serve-IsServed :
      (queue : List (QueueEntry T)) (ts0 ts : TenantState T) (s : Scheduler T)
      → ((q : Priority)
          → p ≢ q
          → IsMarked tenant (at shard.active_rings q) (at ts0.active q) (at ts0.queues q))
      → (is_empty queue ≡ false → at ts0.active p ≡ true)
      → ts.active ≡ ts0.active
      → ts.queues ≡ put ts0.queues p queue
      → IsServed (serve p tenant queue ts s popped_shard).shard
  unfolding serve
  serve-IsServed [] ts0 ts s m flag ea eq =
      out-IsServed _ _ refl refl ts0.active ts0.queues
        (ap (λ (x : PerPriority Bool). put x p false) ea) eq m
  serve-IsServed (e ∷ rest) ts0 ts s m flag ea eq =
      elim (Bool-cases (ltb_ℤ (at ts.deficits p) (capped_cost e.task))) [
        | inl c ↦ rw c (
            back-IsServed _ _ refl pushed_rings ts0.active ts0.queues (e ∷ rest) ea eq (flag refl)
              m)
        | inr c ↦ rw c (take_front-IsServed e rest ts0 ts s m (flag refl) ea eq)
      ]

  pub visit-IsServed : (s : Scheduler T) → IsServed (visit p tenant s popped_shard).shard
  unfolding visit visit_tenant
  visit-IsServed s = elim (Option-cases (Dict.lookup tenant shard.tenants)) [
    | inl e ↦
        rw (e, visit)
          (record {
            valid = put-IsValid shard w p tenant ring valid popped-count;
            served = λ t ts found.
                put-others shard w p tenant ring valid popped-count t ts
                  (λ same.
                    none_some ts (subst (λ k. Dict.lookup k shard.tenants ≡ some ts) same found) e)
                  found;
          })
    | inr (ts, e) ↦
        let m = w.served tenant ts e in
        rw (e, visit)
          (serve-IsServed _ ts _ _ (λ q n. m q)
            (λ h. (m p).queued (drop_dead-is_empty (instant_now s) (at ts.queues p) s.ledger 0 h))
            refl refl)
  ]
    where
      none_some :
          (ts : TenantState T)
          → Dict.lookup tenant shard.tenants ≡ some ts
          → Dict.lookup tenant shard.tenants ≢ none
      none_some ts e n = cc

module _ {T : Type 0} where
  pub search_ring-IsServed :
      (n : ℕ) (p : Priority) (s : Scheduler T) (shard : Shard T)
      → IsServed shard
      → IsServed (search_ring n p s shard).shard
  unfolding search_ring
  search_ring-IsServed zero p s shard w = w
  search_ring-IsServed (suc n) p s shard w =
      go (search_ring-IsServed n) (Ring.items (at shard.active_rings p)) refl
        (pop_front-Pops (at shard.active_rings p) (w.valid p))
    where
      go :
          ((p : Priority) (s : Scheduler T) (shard : Shard T)
            → IsServed shard
            → IsServed (search_ring n p s shard).shard)
          → (xs : List ℕ) → Ring.items (at shard.active_rings p) ≡ xs
          → Pops xs (Ring.pop_front (at shard.active_rings p))
          → IsServed (search_ring (suc n) p s shard).shard
      go later [] e o = rw (o, search_ring) w
      go later (tenant ∷ xs) e (ring, o, rest, fine) =
          let turn =
            visit p tenant s (record shard { active_rings = put shard.active_rings p ring }) in
          let w' =
            visit-IsServed shard w p tenant ring fine (e ∙ ap (λ x. tenant ∷ x) (sym rest)) s in
          rw (o, search_ring)
            (elim (Option-cases turn.result) [
              | inl r ↦ rw r (later p turn.scheduler turn.shard w')
              | inr (_, r) ↦ rw r w'
            ])

  pub search_levels-IsServed :
      (ps : List Priority) (s : Scheduler T) (shard : Shard T)
      → IsServed shard
      → IsServed (search_levels ps s shard).shard
  unfolding search_levels
  search_levels-IsServed [] s shard w = w
  search_levels-IsServed (p ∷ ps) s shard w =
      let n = Ring.len (at shard.active_rings p) in
      let turn = search_ring n p s shard in
      let w' = search_ring-IsServed n p s shard w in
      elim (Option-cases turn.result) [
        | inl r ↦ rw (r, search_levels) (search_levels-IsServed ps turn.scheduler turn.shard w')
        | inr (_, r) ↦ rw (r, search_levels) w'
      ]
