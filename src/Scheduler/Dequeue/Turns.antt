-- ===== src/Scheduler/Dequeue/Turns.antt =====
-- A turn that finds no task lowers what is left to do.
use firq.Prelude.{
  ℕ, suc, ◌+◌, ◌≤◌, ◌<◌, ◌≡◌, ◌⊎◌, ◌∙◌, refl, sym, ap, subst, true, List, [], ◌∷◌, arith, inl, inr,
  Bool-cases, Option-cases, none, some, some_eq, length, length-append, min, i64_max, All,
}
use native.Mathlib.Decide.{ℕ_discrete}
use firq.Prelude.Int
use firq.Prelude.Int.{ℤ, pos, pos_part, neg_part, ltb_ℤ, add_i64, ◌+ℤ◌, +ℤ_parts}
use firq.Api.{Priority, TenantKey}
use firq.State.Dict
use firq.State.Ring
use firq.State.Ring.{ActiveRing}
use firq.State.Ring.Laws.{items-push_back}
use firq.State.Ledger.{take_pending, take_cancelled_marker}
use firq.State.Tenant.{PerPriority, TenantState, QueueEntry, Shard, at, put, at-put, is_empty}
use firq.State.Marked.{Priority-cases, at-put_ne, put-at, put-put}
use firq.Scheduler.Core.{Scheduler, instant_now}
use firq.Scheduler.Dequeue.{
  put_tenant, push_ring, capped_cost, take_front, serve, visit_tenant, visit,
}
use firq.Scheduler.Dequeue.Work.{
  wrap_i64-fits, lack, costs, queue_work, tenant_work, tenant_work-put, places-put, shard_work,
  IsFunded, FundedShard, Shrinks, drop_dead-work, drop_dead-All,
}

-- Tenant `tenant` has left the front of its ring, which is now `ring`; what it had is `old`.
module _ {T : Type 0} (most : ℕ) (shard : Shard T) (funded : FundedShard most shard) (p : Priority)
    (tenant : TenantKey) (ring : ActiveRing) (valid : Ring.IsValid ring)
    (left : Ring.items (at shard.active_rings p) ≡ tenant ∷ Ring.items ring) where
  abbrev turned_shard : Shard T
  turned_shard = record shard { active_rings = put shard.active_rings p ring }

  -- Less is left to do.
  abbrev pub Lowers : Shard T → Type 0
  Lowers shard' = FundedShard most shard' × (shard_work shard' < shard_work shard)

  module _ (old : TenantState T) (found : Dict.lookup tenant shard.tenants ≡ some old) where
    put-IsFunded :
        (ts : TenantState T) (queue : List (QueueEntry T)) (deficit : ℤ)
        → ts.quantum ≡ old.quantum
        → ts.queues ≡ put old.queues p queue
        → ts.deficits ≡ put old.deficits p deficit
        → neg_part deficit ≤ i64_max
        → All (λ (e : QueueEntry T). e.task.cost ≤ most) queue
        → IsFunded most ts
    put-IsFunded ts queue deficit e eq ed debt cheap =
        let f = funded tenant old found in
        record {
          positive = rw e f.positive;
          signed = rw e f.signed;
          fits = rw e f.fits;
          debts = λ q. rw ed (elim (Priority-cases p q) [
            | inl same ↦
                subst (λ r. neg_part (at (put old.deficits p deficit) r) ≤ i64_max) same
                  (rw (at-put old.deficits p deficit) debt)
            | inr n ↦ rw (at-put_ne old.deficits p q deficit n) (f.debts q)
          ]);
          cheap = λ q. rw eq (elim (Priority-cases p q) [
            | inl same ↦
                subst
                  (λ r.
                    All (λ (e : QueueEntry T). e.task.cost ≤ most) (at (put old.queues p queue) r))
                  same (rw (at-put old.queues p queue) cheap)
            | inr n ↦ rw (at-put_ne old.queues p q queue n) (f.cheap q)
          ]);
        }

    put-Lowers :
        (ts : TenantState T) (shard' : Shard T) (ring' : ActiveRing) (queue : List (QueueEntry T))
        (deficit : ℤ)
        → shard'.tenants ≡ Dict.insert tenant ts shard.tenants
        → shard'.active_rings ≡ put shard.active_rings p ring'
        → ts.quantum ≡ old.quantum
        → ts.queues ≡ put old.queues p queue
        → ts.deficits ≡ put old.deficits p deficit
        → neg_part deficit ≤ i64_max
        → All (λ (e : QueueEntry T). e.task.cost ≤ most) queue
        → length (Ring.items ring') + queue_work queue deficit
          < length (Ring.items (at shard.active_rings p))
            + queue_work (at old.queues p) (at old.deficits p)
        → Lowers shard'
    unfolding shard_work
    put-Lowers ts shard' ring' queue deficit et er e eq ed debt cheap less = (
      λ t u h. elim (ℕ_discrete t tenant) [
        | yes same ↦
            let this : ts ≡ u = some_eq ts u (
              sym (Dict.lookup-insert_self tenant ts shard.tenants)
              ∙ subst (λ k. Dict.lookup k (Dict.insert tenant ts shard.tenants) ≡ some u) same
                  (ap (Dict.lookup t) (sym et) ∙ h)) in
            subst (IsFunded most) this (put-IsFunded ts queue deficit e eq ed debt cheap)
        | no ne ↦ funded t u (
            sym (Dict.lookup-insert_ne tenant t ts shard.tenants ne)
            ∙ (ap (Dict.lookup t) (sym et) ∙ h))
      ],
      rw (et, er)
          (omega (
            arith,
            less,
            places-put p shard.active_rings ring',
            tenant_work-put p old ts queue deficit eq ed,
            Dict.total-insert_old tenant_work tenant ts old shard.tenants found,
          )),
    )

    -- The costs that a smaller queue has left.
    lack-falls : (deficit : ℤ) (a b : ℕ) → a ≤ b → lack a deficit ≤ lack b deficit
    lack-falls deficit a b h = omega arith

    -- The state of a turn before it is served: the dead front has gone.
    module _ (queue : List (QueueEntry T)) (shrinks : Shrinks queue (at old.queues p))
        (cheap : All (λ (e : QueueEntry T). e.task.cost ≤ most) queue) (ts : TenantState T)
        (eq : ts.queues ≡ put old.queues p queue) (ed : ts.deficits ≡ old.deficits)
        (same : ts.quantum ≡ old.quantum) where
      debt : neg_part (at old.deficits p) ≤ i64_max
      debt = (funded tenant old found).debts p

      turn : (rest : List (QueueEntry T)) → put ts.queues p rest ≡ put old.queues p rest
      turn rest =
          ap (λ (x : PerPriority (List (QueueEntry T))). put x p rest) eq
          ∙ put-put old.queues p queue rest

      stays : ts.deficits ≡ put old.deficits p (at old.deficits p)
      stays = ed ∙ sym (put-at old.deficits p)

      -- The tenant stays out of its ring, or goes back to its end, with its deficit as it was.
      leave-Lowers :
          (rest : List (QueueEntry T)) (u : TenantState T) (shard' : Shard T)
          → shard'.tenants ≡ Dict.insert tenant u shard.tenants
          → shard'.active_rings ≡ put shard.active_rings p ring
          → u.quantum ≡ ts.quantum
          → u.queues ≡ put ts.queues p rest
          → u.deficits ≡ ts.deficits
          → All (λ (e : QueueEntry T). e.task.cost ≤ most) rest
          → Shrinks rest queue
          → Lowers shard'
      leave-Lowers rest u shard' et er q eu du c less =
          put-Lowers u shard' ring rest (at old.deficits p) et er (q ∙ same) (eu ∙ turn rest)
            (du ∙ stays) debt c
            (omega (
              arith,
              ap length left,
              shrinks.0,
              less.0,
              lack-falls (at old.deficits p) (costs rest) (costs (at old.queues p))
                  (omega (arith, shrinks.1, less.1)),
            ))

      abbrev pushed_back : ActiveRing
      pushed_back = Ring.push_back (at (put shard.active_rings p ring) p) tenant

      length-pushed_back : length (Ring.items pushed_back) ≡ suc (length (Ring.items ring))
      length-pushed_back =
          ap (λ r. length (Ring.items (Ring.push_back r tenant))) (at-put shard.active_rings p ring)
          ∙ (ap length (items-push_back ring tenant valid).0
              ∙ omega (arith, length-append (Ring.items ring) (tenant ∷ [])))

      return-Lowers :
          (rest : List (QueueEntry T)) (u : TenantState T) (shard' : Shard T)
          → shard'.tenants ≡ Dict.insert tenant u shard.tenants
          → shard'.active_rings ≡ put (put shard.active_rings p ring) p pushed_back
          → u.quantum ≡ ts.quantum
          → u.queues ≡ put ts.queues p rest
          → u.deficits ≡ ts.deficits
          → All (λ (e : QueueEntry T). e.task.cost ≤ most) rest
          → suc (length rest) ≤ length queue
          → costs rest ≤ costs queue
          → Lowers shard'
      return-Lowers rest u shard' et er q eu du c shorter cheaper =
          put-Lowers u shard' pushed_back rest (at old.deficits p) et
            (er ∙ put-put shard.active_rings p ring pushed_back) (q ∙ same) (eu ∙ turn rest)
            (du ∙ stays) debt c
            (omega (
              arith,
              ap length left,
              length-pushed_back,
              shrinks.0,
              shorter,
              lack-falls (at old.deficits p) (costs rest) (costs (at old.queues p))
                  (omega (arith, shrinks.1, cheaper)),
            ))

      -- A task that costs more than the deficit earns its tenant a quantum.
      credit-Lowers :
          (e : QueueEntry T) (rest : List (QueueEntry T)) (u : TenantState T) (shard' : Shard T)
          → queue ≡ e ∷ rest
          → ltb_ℤ (at ts.deficits p) (capped_cost e.task) ≡ true
          → shard'.tenants ≡ Dict.insert tenant u shard.tenants
          → shard'.active_rings ≡ put (put shard.active_rings p ring) p pushed_back
          → u.quantum ≡ ts.quantum
          → u.queues ≡ ts.queues
          → u.deficits ≡ put ts.deficits p (add_i64 (at ts.deficits p) ts.quantum)
          → Lowers shard'
      unfolding add_i64 costs
      credit-Lowers e rest u shard' first short et er q eu du =
          let d = at old.deficits p in
          let f = funded tenant old found in
          let sum = d +ℤ old.quantum in
          let parts = +ℤ_parts d old.quantum in
          let here : at ts.deficits p ≡ d = ap (λ (x : PerPriority ℤ). at x p) ed in
          let short' : ltb_ℤ d (capped_cost e.task) ≡ true =
            ap (λ x. ltb_ℤ x (capped_cost e.task)) (sym here) ∙ short in
          let cheap' : e.task.cost ≤ most =
            (subst (All (λ (x : QueueEntry T). x.task.cost ≤ most)) first cheap).0 in
          let below : pos_part d < min e.task.cost i64_max + neg_part d = ground (arith, short') in
          let dear : min e.task.cost i64_max + costs rest ≡ costs queue = ap costs (sym first) in
          let no_both = one_sign sum in
          let no_both' = one_sign d in
          let fine : add_i64 d old.quantum ≡ sum =
            wrap_i64-fits sum
              (omega (arith, parts, f.signed, f.fits, f.debts p, below, cheap', no_both, no_both'))
              (omega
                (arith, parts, f.signed, f.fits, f.debts p, below, cheap', no_both, no_both')) in
          put-Lowers u shard' pushed_back queue sum et
            (er ∙ put-put shard.active_rings p ring pushed_back) (q ∙ same) (eu ∙ eq)
            (du
              ∙ (ap (λ (x : PerPriority ℤ). put x p (add_i64 (at x p) ts.quantum)) ed
                  ∙ (ap (λ x. put old.deficits p (add_i64 d x)) same
                      ∙ ap (put old.deficits p) fine)))
            (omega (arith, parts, f.signed, f.fits, f.debts p, below, cheap', no_both, no_both'))
            cheap
            (omega (
              arith,
              ap length left,
              length-pushed_back,
              shrinks.0,
              shrinks.1,
              parts,
              f.signed,
              f.positive,
              below,
              dear,
              no_both,
              no_both',
            ))
        where
          one_sign : (v : ℤ) → (pos_part v ≡ 0) ⊎ (neg_part v ≡ 0)
          one_sign (pos n) = inr refl
          one_sign (Int.negsuc n) = inl refl

      take_front-Lowers :
          (e : QueueEntry T) (rest : List (QueueEntry T)) (s : Scheduler T)
          → queue ≡ e ∷ rest
          → (take_front p tenant e rest ts s turned_shard).result ≡ none
          → Lowers (take_front p tenant e rest ts s turned_shard).shard
      unfolding take_front costs
      take_front-Lowers e rest s first =
          let (marked, g) = take_cancelled_marker e.id s.ledger in
          let (live, g') = take_pending e.id g in
          let rest_cheap = (subst (All (λ (x : QueueEntry T). x.task.cost ≤ most)) first cheap).1 in
          let shorter : suc (length rest) ≤ length queue = omega (arith, ap length (sym first)) in
          let cheaper : costs rest ≤ costs queue = omega (arith, ap costs (sym first)) in
          elim (Bool-cases (is_empty rest)) [
            | inl c ↦
                let any : (u : TenantState T)
                    → u.quantum ≡ ts.quantum
                    → u.queues ≡ put ts.queues p rest
                    → u.deficits ≡ ts.deficits
                    → Lowers (put_tenant tenant u turned_shard) =
                  λ u q uq ud.
                    leave-Lowers rest u _ refl refl q uq ud rest_cheap
                      (omega (arith, shorter), cheaper) in
                rw c (elim (Bool-cases marked) [
                  | inl b ↦ rw b (λ r. any _ refl refl refl)
                  | inr b ↦ rw b (elim (Bool-cases live) [
                    | inl l ↦ rw l (λ r. cc)
                    | inr l ↦ rw l (λ r. any _ refl refl refl)
                  ])
                ])
            | inr c ↦
                let any : (u : TenantState T)
                    → u.quantum ≡ ts.quantum
                    → u.queues ≡ put ts.queues p rest
                    → u.deficits ≡ ts.deficits
                    → Lowers (put_tenant tenant u (push_ring p tenant turned_shard)) =
                  λ u q uq ud.
                    return-Lowers rest u _ refl refl q uq ud rest_cheap shorter cheaper in
                rw c (elim (Bool-cases marked) [
                  | inl b ↦ rw b (λ r. any _ refl refl refl)
                  | inr b ↦ rw b (elim (Bool-cases live) [
                    | inl l ↦ rw l (λ r. cc)
                    | inr l ↦ rw l (λ r. any _ refl refl refl)
                  ])
                ])
          ]

    serve-Lowers :
        (queue : List (QueueEntry T))
        → Shrinks queue (at old.queues p)
        → All (λ (e : QueueEntry T). e.task.cost ≤ most) queue
        → (s : Scheduler T)
        → let turn =
            serve p tenant queue (record old { queues = put old.queues p queue }) s turned_shard in
          turn.result ≡ none → Lowers turn.shard
    unfolding serve
    serve-Lowers [] shrinks cheap s r =
        leave-Lowers [] shrinks cheap (record old { queues = put old.queues p [] }) refl refl refl
          [] _ _ refl refl refl (sym (put-put old.queues p [] [])) refl tt
          (omega arith, omega arith)
    serve-Lowers (e ∷ rest) shrinks cheap s none_found =
        let ts : TenantState T = record old { queues = put old.queues p (e ∷ rest) } in
        elim (Bool-cases (ltb_ℤ (at old.deficits p) (capped_cost e.task))) [
          | inl c ↦ rw c (
              credit-Lowers (e ∷ rest) shrinks cheap ts refl refl refl e rest
                (record ts { deficits = put ts.deficits p (add_i64 (at ts.deficits p) ts.quantum) })
                _ refl c refl refl refl refl refl)
          | inr c ↦ rw c (
              take_front-Lowers (e ∷ rest) shrinks cheap ts refl refl refl e rest s refl
                (rw c at none_found))
        ]

  pub visit-Lowers :
      (s : Scheduler T)
      → (visit p tenant s turned_shard).result ≡ none
      → Lowers (visit p tenant s turned_shard).shard
  unfolding visit visit_tenant shard_work
  visit-Lowers s = elim (Option-cases (Dict.lookup tenant shard.tenants)) [
    | inl e ↦
        rw (e, visit)
          (λ r. (funded, omega (arith, ap length left, places-put p shard.active_rings ring)))
    | inr (ts, e) ↦
        let now = instant_now s in
        rw (e, visit)
          (serve-Lowers ts e _ (drop_dead-work now (at ts.queues p) s.ledger 0)
            (drop_dead-All (λ (x : QueueEntry T). x.task.cost ≤ most) now (at ts.queues p) s.ledger
              0 ((funded tenant ts e).cheap p))
            _)
  ]
