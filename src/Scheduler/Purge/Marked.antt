-- ===== src/Scheduler/Purge/Marked.antt =====
-- A purge keeps a tenant marked: it clears the flag of a queue that it leaves empty.
use firq.Prelude.{
  ℕ, ◌≡◌, refl, sym, true, false, Bool, arith, inl, inr, Bool-cases, Option, none, some, List, [],
  ◌∷◌, if◌then◌else◌,
}
use firq.Api.{Instant, Priority, high, normal, low}
use firq.State.Ledger.{Ledger}
use firq.State.Ring.{ActiveRing}
use firq.State.Tenant.{PerPriority, at, put, is_empty, QueueEntry, TenantState}
use firq.State.Marked.{MarkedState, Marked-put_queue, put-at}
use firq.Scheduler.Core.{Scheduler}
use firq.Scheduler.Purge.{
  PurgeStats, PurgedTenant, EnqueuePurgeReason, purge_front, purge_queue_with_budget, purge_level,
  purge_tenant_with_budget, purge_tenant_for_enqueue, run_purge, no_purge,
}

flag-put :
    (active : PerPriority Bool) (p : Priority) (b : Bool)
    → (if b then put active p false else active) ≡ put active p (if b then false else at active p)
flag-put active p true = refl
flag-put active p false = sym (put-at active p)

module _ {T : Type 0} where
  purged-nonempty :
      (now : Instant) (budget : ℕ) (queue : List (QueueEntry T)) (g : Ledger) (st : PurgeStats)
      → is_empty (purge_queue_with_budget now budget queue g st).queue ≡ false
      → is_empty queue ≡ false
  unfolding purge_queue_with_budget purge_front
  purged-nonempty now budget [] g st h = ground (arith, h)
  purged-nonempty now budget (e ∷ queue) g st h = refl

module _ {T : Type 0} (tenant : ℕ) (rings : PerPriority ActiveRing) where
  purge_level-Marked :
      (now : Instant) (budget : ℕ) (p : Priority) (t : PurgedTenant T)
      → MarkedState tenant rings t.tenant_state
      → MarkedState tenant rings (purge_level now budget p t).tenant_state
  unfolding purge_level
  purge_level-Marked now budget p t m =
      let ts = t.tenant_state in
      let purged = purge_queue_with_budget now budget (at ts.queues p) t.ledger t.stats in
      rw (flag-put ts.active p (is_empty purged.queue)) (
        Marked-put_queue tenant rings ts.active ts.queues p
          (if is_empty purged.queue then false else at ts.active p) purged.queue m
          (elim (Bool-cases (is_empty purged.queue)) [
            | inl e ↦ rw e (record { queued = λ h. ground (arith, e, h); ringed = λ h. cc })
            | inr e ↦ rw e (record {
              queued = λ h.
                  (m p).queued (purged-nonempty now budget (at ts.queues p) t.ledger t.stats e);
              ringed = (m p).ringed;
            })
          ]))

  pub purge_tenant_for_enqueue-Marked :
      (reason : EnqueuePurgeReason) (s : Scheduler T) (ts : TenantState T)
      → MarkedState tenant rings ts
      → MarkedState tenant rings (purge_tenant_for_enqueue reason s ts).tenant_state
  unfolding purge_tenant_for_enqueue purge_tenant_with_budget
  purge_tenant_for_enqueue-Marked reason s ts m = purge_level-Marked _ _ low _ (
      purge_level-Marked _ _ normal _ (
        purge_level-Marked _ _ high
          (record { tenant_state = ts; ledger = s.ledger; stats = no_purge }) m))

  pub run_purge-Marked :
      (reason : Option EnqueuePurgeReason) (s : Scheduler T) (ts : TenantState T)
      → MarkedState tenant rings ts
      → MarkedState tenant rings (run_purge reason s ts).tenant_state
  unfolding run_purge
  run_purge-Marked none s ts m = m
  run_purge-Marked (some reason) s ts m = purge_tenant_for_enqueue-Marked reason s ts m
