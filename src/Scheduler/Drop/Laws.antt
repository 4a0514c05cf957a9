-- ===== src/Scheduler/Drop/Laws.antt =====
-- Which entry `drop_from_tenant` drops.
use firq.Prelude.{
  ◌≤◌, ◌<◌, ◌≡◌, refl, sym, ap, subst, arith, List, [], ◌∷◌, ◌++◌, Option, none, some,
}
use firq.Api.{Priority, high, normal, low, index}
use firq.State.Tenant.{TenantState, QueueEntry, at, put, at-put}
use firq.Scheduler.Drop.{
  DropStrategy, oldest, newest, Dropped, pop_back, take_entry, drop_first, drop_from_tenant,
}

-- An entry, the queue without it, and the queue that held it.
abbrev pub Leaves :
    {T : Type 0} → DropStrategy → QueueEntry T → List (QueueEntry T) → List (QueueEntry T) → Type 0
Leaves oldest e rest queue = queue ≡ e ∷ rest
Leaves newest e rest queue = queue ≡ rest ++ e ∷ []

-- What the outcome must be: nothing is dropped only where there is nothing of the incoming
-- priority or below, and a task that is dropped comes from the lowest queue that holds one.
abbrev pub Displaces :
    {T : Type 0} → DropStrategy → Priority → TenantState T → Option (Dropped T) → Type 0
Displaces strategy incoming ts none =
    (q : Priority) → index incoming ≤ index q → at ts.queues q ≡ []
Displaces strategy incoming ts (some d) =
    (p : Priority) × (index incoming ≤ index p)
    × ((q : Priority) → index p < index q → at ts.queues q ≡ [])
    × Leaves strategy d.entry (at d.tenant_state.queues p) (at ts.queues p)

module _ {T : Type 0} where
  pop_back-append :
      (e : QueueEntry T) (queue : List (QueueEntry T))
      → e ∷ queue ≡ (pop_back e queue).1 ++ (pop_back e queue).0 ∷ []
  unfolding pop_back
  pop_back-append e [] = refl
  pop_back-append e (f ∷ queue) = ap (λ q. e ∷ q) (pop_back-append f queue)

  take_entry-Leaves :
      (strategy : DropStrategy) (e : QueueEntry T) (queue : List (QueueEntry T))
      → Leaves strategy (take_entry strategy e queue).0 (take_entry strategy e queue).1 (e ∷ queue)
  unfolding take_entry
  take_entry-Leaves oldest e queue = refl
  take_entry-Leaves newest e queue = pop_back-append e queue

module _ {T : Type 0} (strategy : DropStrategy) (incoming : Priority) (ts : TenantState T) where
  -- One round of the loop.
  drop_first-Displaces :
      (p : Priority) (ps : List Priority)
      → index incoming ≤ index p
      → ((q : Priority) → index p < index q → at ts.queues q ≡ [])
      → (at ts.queues p ≡ [] → Displaces strategy incoming ts (drop_first strategy ps ts))
      → Displaces strategy incoming ts (drop_first strategy (p ∷ ps) ts)
  unfolding drop_first
  drop_first-Displaces p ps le below others = go (at ts.queues p) refl
    where
      go :
          (queue : List (QueueEntry T))
          → at ts.queues p ≡ queue
          → Displaces strategy incoming ts (drop_first strategy (p ∷ ps) ts)
      go [] e =
          let same : drop_first strategy (p ∷ ps) ts ≡ drop_first strategy ps ts =
            rw (e, drop_first) refl in
          subst (Displaces strategy incoming ts) (sym same) (others e)
      go (f ∷ queue) e =
          let taken = take_entry strategy f queue in
          let d : Dropped T = record {
            entry = taken.0;
            tenant_state = record ts { queues = put ts.queues p taken.1 };
          } in
          let same : drop_first strategy (p ∷ ps) ts ≡ some d = rw (e, drop_first) refl in
          subst (Displaces strategy incoming ts) (sym same)
            (p, le, below, rw (e, at-put ts.queues p taken.1) (take_entry-Leaves strategy f queue))

module _ {T : Type 0} (ts : TenantState T) where
  past_low : (q : Priority) → index low < index q → at ts.queues q ≡ []
  past_low high h = absurd (omega arith)
  past_low normal h = absurd (omega arith)
  past_low low h = absurd (omega arith)

  past_normal :
      at ts.queues low ≡ [] → (q : Priority) → index normal < index q → at ts.queues q ≡ []
  past_normal l high h = absurd (omega arith)
  past_normal l normal h = absurd (omega arith)
  past_normal l low h = l

  past_high :
      at ts.queues low ≡ []
      → at ts.queues normal ≡ []
      → (q : Priority) → index high < index q
      → at ts.queues q ≡ []
  past_high l n high h = absurd (omega arith)
  past_high l n normal h = n
  past_high l n low h = l

  from :
      (p : Priority)
      → at ts.queues p ≡ []
      → ((q : Priority) → index p < index q → at ts.queues q ≡ [])
      → (q : Priority) → index p ≤ index q
      → at ts.queues q ≡ []
  from high e past high h = e
  from high e past normal h = past normal (omega arith)
  from high e past low h = past low (omega arith)
  from normal e past high h = absurd (omega arith)
  from normal e past normal h = e
  from normal e past low h = past low (omega arith)
  from low e past high h = absurd (omega arith)
  from low e past normal h = absurd (omega arith)
  from low e past low h = e

  -- `drop_from_tenant` drops nothing only where the tenant has no task of the incoming priority
  -- or below; otherwise the entry comes from the lowest priority that has one, never above the
  -- incoming one, and it is the front of that queue for `oldest` and its back for `newest`, the
  -- others keeping their order.
  pub drop_from_tenant-Displaces :
      (strategy : DropStrategy) (incoming : Priority)
      → Displaces strategy incoming ts (drop_from_tenant strategy incoming ts)
  unfolding drop_from_tenant drop_first
  drop_from_tenant-Displaces strategy high =
      drop_first-Displaces strategy high ts low (normal ∷ high ∷ []) (omega arith) past_low (λ l.
        drop_first-Displaces strategy high ts normal (high ∷ []) (omega arith) (past_normal l) (λ n.
          drop_first-Displaces strategy high ts high [] (omega arith) (past_high l n)
            (λ h. from high h (past_high l n))))
  drop_from_tenant-Displaces strategy normal =
      drop_first-Displaces strategy normal ts low (normal ∷ []) (omega arith) past_low (λ l.
        drop_first-Displaces strategy normal ts normal [] (omega arith) (past_normal l)
          (λ n. from normal n (past_normal l)))
  drop_from_tenant-Displaces strategy low =
      drop_first-Displaces strategy low ts low [] (omega arith) past_low (λ l. from low l past_low)
