-- ===== src/State/Marked.antt =====
-- Which tenants wait in a shard's rings: a tenant with a task of a priority is marked as active
-- there, and one that is marked stands in that priority's ring.
use firq.Prelude.{
  ℕ, ◌≤◌, ◌<◌, ◌≡◌, ◌≢◌, ◌⊎◌, ◌∙◌, refl, sym, ap, subst, true, false, Bool, arith, inl, inr, List,
  [], ◌∷◌, ◌++◌, some, count, count-append, some_eq,
}
use native.Mathlib.Decide.{ℕ_discrete}
use firq.Api.{Priority, high, normal, low}
use firq.State.Dict
use firq.State.Ring
use firq.State.Ring.{ActiveRing}
use firq.State.Tenant.{PerPriority, at, put, at-put, is_empty, QueueEntry, TenantState, Shard}

pub Priority-cases : (p q : Priority) → (p ≡ q) ⊎ (p ≢ q)
Priority-cases high high = inl refl
Priority-cases high normal = inr (λ e. cc)
Priority-cases high low = inr (λ e. cc)
Priority-cases normal high = inr (λ e. cc)
Priority-cases normal normal = inl refl
Priority-cases normal low = inr (λ e. cc)
Priority-cases low high = inr (λ e. cc)
Priority-cases low normal = inr (λ e. cc)
Priority-cases low low = inl refl

module _ {ℓ} {A : Type ℓ} where
  pub at-put_ne : (a : PerPriority A) (p q : Priority) (v : A) → p ≢ q → at (put a p v) q ≡ at a q
  at-put_ne a high high v h = absurd (h refl)
  at-put_ne a high normal v h = refl
  at-put_ne a high low v h = refl
  at-put_ne a normal high v h = refl
  at-put_ne a normal normal v h = absurd (h refl)
  at-put_ne a normal low v h = refl
  at-put_ne a low high v h = refl
  at-put_ne a low normal v h = refl
  at-put_ne a low low v h = absurd (h refl)

  pub put-at : (a : PerPriority A) (p : Priority) → put a p (at a p) ≡ a
  put-at a high = refl
  put-at a normal = refl
  put-at a low = refl

  pub put-put : (a : PerPriority A) (p : Priority) (v w : A) → put (put a p v) p w ≡ put a p w
  put-put a high v w = refl
  put-put a normal v w = refl
  put-put a low v w = refl

-- One queue of a tenant, with its flag and its ring.
pub record IsMarked {T : Type 0} (tenant : ℕ) (ring : ActiveRing) (active : Bool)
    (queue : List (QueueEntry T)) : Type 0 where
  pub queued : is_empty queue ≡ false → active ≡ true
  pub ringed : active ≡ true → 0 < count tenant (Ring.items ring)

-- All three queues of a tenant.
abbrev pub Marked :
    {T : Type 0}
    → ℕ
    → PerPriority ActiveRing
    → PerPriority Bool
    → PerPriority (List (QueueEntry T))
    → Type 0
Marked tenant rings active queues =
    (p : Priority) → IsMarked tenant (at rings p) (at active p) (at queues p)

module _ {T : Type 0} (tenant : ℕ) (rings : PerPriority ActiveRing) (active : PerPriority Bool)
    (queues : PerPriority (List (QueueEntry T))) (p : Priority) where
  -- What becomes of the three queues when one of them changes, with its flag and its ring.
  pub Marked-put :
      (ring : ActiveRing) (b : Bool) (queue : List (QueueEntry T))
      → ((q : Priority) → p ≢ q → IsMarked tenant (at rings q) (at active q) (at queues q))
      → IsMarked tenant ring b queue
      → Marked tenant (put rings p ring) (put active p b) (put queues p queue)
  Marked-put ring b queue others new q = elim (Priority-cases p q) [
    | inl e ↦
        subst
          (λ r.
            IsMarked tenant (at (put rings p ring) r) (at (put active p b) r)
              (at (put queues p queue) r))
          e (rw (at-put rings p ring, at-put active p b, at-put queues p queue) new)
    | inr n ↦
        rw (at-put_ne rings p q ring n, at-put_ne active p q b n, at-put_ne queues p q queue n)
          (others q n)
  ]

  -- The same where the ring stays.
  pub Marked-put_queue :
      (b : Bool) (queue : List (QueueEntry T))
      → Marked tenant rings active queues
      → IsMarked tenant (at rings p) b queue
      → Marked tenant rings (put active p b) (put queues p queue)
  Marked-put_queue b queue m new =
      subst (λ r. Marked tenant r (put active p b) (put queues p queue)) (put-at rings p)
        (Marked-put (at rings p) b queue (λ q n. m q) new)

  -- The same where the flag stays too.
  pub Marked-keep :
      (queue : List (QueueEntry T))
      → Marked tenant rings active queues
      → (is_empty queue ≡ false → at active p ≡ true)
      → Marked tenant rings active (put queues p queue)
  Marked-keep queue m flag =
      subst (λ a. Marked tenant rings a (put queues p queue)) (put-at active p)
        (Marked-put_queue (at active p) queue m (record { queued = flag; ringed = (m p).ringed }))

-- A tenant's state.
abbrev pub MarkedState : {T : Type 0} → ℕ → PerPriority ActiveRing → TenantState T → Type 0
MarkedState tenant rings ts = Marked tenant rings ts.active ts.queues

-- An inactive tenant without tasks need not be in the ring.
pub idle-IsMarked :
    {T : Type 0} (tenant : ℕ) (ring : ActiveRing) → IsMarked {T = T} tenant ring false []
idle-IsMarked tenant ring = record { queued = λ h. cc; ringed = λ h. cc }

-- What stands in a ring after a push.
pub push_back-count :
    (t tenant : ℕ) (items after : List ℕ)
    → after ≡ items ++ tenant ∷ []
    → count t items ≤ count t after
push_back-count t tenant items after e =
    omega (arith, ap (count t) e, count-append t items (tenant ∷ []))

pub push_back_self :
    (tenant : ℕ) (items after : List ℕ) → after ≡ items ++ tenant ∷ [] → 0 < count tenant after
push_back_self tenant items after e =
    ground (arith, ap (count tenant) e, count-append tenant items (tenant ∷ []))

-- A shard in which every tenant is marked.
pub record IsServed {T : Type 0} (shard : Shard T) : Type 0 where
  pub valid : (p : Priority) → Ring.IsValid (at shard.active_rings p)
  pub served :
      (tenant : ℕ) (ts : TenantState T)
      → Dict.lookup tenant shard.tenants ≡ some ts
      → Marked tenant shard.active_rings ts.active ts.queues

module _ {T : Type 0} (shard : Shard T) (w : IsServed shard) (p : Priority) (tenant : ℕ)
    (ring : ActiveRing) (valid : Ring.IsValid ring)
    (kept : (t : ℕ)
      → t ≢ tenant
      → count t (Ring.items (at shard.active_rings p)) ≤ count t (Ring.items ring)) where
  pub put-IsValid : (q : Priority) → Ring.IsValid (at (put shard.active_rings p ring) q)
  put-IsValid q = elim (Priority-cases p q) [
    | inl e ↦
        subst (λ r. Ring.IsValid (at (put shard.active_rings p ring) r)) e
          (rw (at-put shard.active_rings p ring) valid)
    | inr n ↦ rw (at-put_ne shard.active_rings p q ring n) (w.valid q)
  ]

  pub put-others :
      (t : ℕ) (ts : TenantState T)
      → t ≢ tenant
      → Dict.lookup t shard.tenants ≡ some ts
      → Marked t (put shard.active_rings p ring) ts.active ts.queues
  put-others t ts ne e =
      let m = w.served t ts e in
      subst (λ a. Marked t (put shard.active_rings p ring) a ts.queues) (put-at ts.active p)
        (subst
          (λ qs. Marked t (put shard.active_rings p ring) (put ts.active p (at ts.active p)) qs)
          (put-at ts.queues p)
          (Marked-put t shard.active_rings ts.active ts.queues p ring (at ts.active p)
            (at ts.queues p) (λ q n. m q)
            (record {
              queued = (m p).queued;
              ringed = λ h. omega (arith, (m p).ringed h, kept t ne);
            })))

  -- One tenant's state and one ring change.
  pub put-IsServed :
      (ts : TenantState T) (shard' : Shard T)
      → shard'.tenants ≡ Dict.insert tenant ts shard.tenants
      → shard'.active_rings ≡ put shard.active_rings p ring
      → Marked tenant (put shard.active_rings p ring) ts.active ts.queues
      → IsServed shard'
  put-IsServed ts shard' et er m = record {
    valid = rw er put-IsValid;
    served = λ t u e.
        let found : Dict.lookup t (Dict.insert tenant ts shard.tenants) ≡ some u =
          ap (Dict.lookup t) (sym et) ∙ e in
        rw er (elim (ℕ_discrete t tenant) [
          | yes same ↦
              let this : ts ≡ u = some_eq ts u (
                sym (Dict.lookup-insert_self tenant ts shard.tenants)
                ∙ subst (λ k. Dict.lookup k (Dict.insert tenant ts shard.tenants) ≡ some u) same
                    found) in
              subst (λ k. Marked k (put shard.active_rings p ring) u.active u.queues) (sym same)
                (subst
                  (λ (x : TenantState T).
                    Marked tenant (put shard.active_rings p ring) x.active x.queues)
                  this m)
          | no ne ↦
              put-others t u ne (sym (Dict.lookup-insert_ne tenant t ts shard.tenants ne) ∙ found)
        ]);
  }

-- One tenant's state changes, and no ring.
pub insert-IsServed :
    {T : Type 0} (shard : Shard T) (tenant : ℕ) (ts : TenantState T) (shard' : Shard T)
    → IsServed shard
    → shard'.tenants ≡ Dict.insert tenant ts shard.tenants
    → shard'.active_rings ≡ shard.active_rings
    → MarkedState tenant shard.active_rings ts
    → IsServed shard'
insert-IsServed shard tenant ts shard' w et er m =
    let rings = shard.active_rings in
    put-IsServed shard w high tenant rings.first (w.valid high) (λ t n. omega arith) ts shard' et er
      m
