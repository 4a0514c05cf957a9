-- ===== src/Scheduler/Dequeue/Serving.antt =====
-- A consumer that asks again and again is served.
use firq.Prelude.{
  ℕ, zero, suc, ◌≤◌, ◌<◌, ◌≡◌, ◌≢◌, ◌⊎◌, ◌∙◌, refl, sym, ap, subst, true, List, [], ◌∷◌, arith, inl,
  inr, Bool-cases, some, length, count, ◌==◌,
}
use firq.Api.{Priority, TenantKey, DequeueResult, dequeued, empty, closed}
use firq.State.Dict
use firq.State.Ring
use firq.State.Ring.{ActiveRing}
use firq.State.Ring.Laws.{len-length}
use firq.State.Tenant.{TenantState, at, is_empty}
use firq.Scheduler.Core.{Scheduler, shard_at, shutdown_immediate}
use firq.Scheduler.Valid.{IsValid}
use firq.Scheduler.Ringed.{IsRinged}
use firq.Scheduler.Active.{IsActive}
use firq.Scheduler.Standing.{IsActive-queued}
use firq.Scheduler.Dequeue.{give_up, search_shards, try_dequeue}
use firq.Scheduler.Dequeue.Valid.{try_dequeue-IsValid}
use firq.Scheduler.Dequeue.Reach.{try_dequeue-IsActive}
use firq.Scheduler.Dequeue.Rounds.{scheduler_work, Funded, Emptied, search_shards-Emptied}

no_items : (ring : ActiveRing) → (Ring.len ring ≡ 0) ⊎ (Ring.items ring ≡ []) → Ring.items ring ≡ []
no_items ring (inl h) = length_zero (Ring.items ring) (sym (len-length ring) ∙ h)
  where
    length_zero : (xs : List ℕ) → length xs ≡ 0 → xs ≡ []
    length_zero [] h = refl
    length_zero (x ∷ xs) h = absurd (omega arith)
no_items ring (inr h) = h

module _ {T : Type 0} where
  -- `try_dequeue` until it does not answer `empty`, at most `n` times more.
  unfoldable pub attempts : ℕ → Scheduler T → Scheduler T × DequeueResult T
  attempts zero s = try_dequeue s
  attempts (suc n) s = elim (try_dequeue s).1 [
    | empty ↦ attempts n (try_dequeue s).0
    | closed ↦ try_dequeue s
    | dequeued _ _ ↦ try_dequeue s
  ]

  -- No tenant has a task queued.
  abbrev pub Idle : Scheduler T → Type 0
  Idle s =
      (i : ℕ) (tenant : TenantKey) (ts : TenantState T) (p : Priority)
      → Dict.lookup tenant (shard_at s i).tenants ≡ some ts
      → is_empty (at ts.queues p) ≡ true

  no_shard-Idle : (s : Scheduler T) → IsActive s → Ring.items s.active_shards ≡ [] → Idle s
  no_shard-Idle s w e i tenant ts p found = elim (Bool-cases (is_empty (at ts.queues p))) [
    | inl done ↦ done
    | inr busy ↦
        absurd (omega (arith, (IsActive-queued s w i tenant ts p found busy).1, ap (count i) e))
  ]

  -- A call that answers `empty`.
  try_dequeue-Emptied :
      (most : ℕ) (s : Scheduler T)
      → IsValid s
      → IsRinged s
      → IsActive s
      → Funded most s
      → (try_dequeue s).1 ≡ empty
      → Emptied most s
          (try_dequeue s).0
          ((Ring.len s.active_shards ≡ 0) ⊎ (Ring.items s.active_shards ≡ []))
  unfolding try_dequeue
  try_dequeue-Emptied most s v r w f = elim (Bool-cases (s.shutdown_state == shutdown_immediate)) [
    | inl e ↦ rw e (λ h. cc)
    | inr e ↦ rw e (search_shards-Emptied most (Ring.len s.active_shards) s v r w f)
  ]

  still : (s : Scheduler T) → Ring.items s.active_shards ≡ [] → (try_dequeue s).0 ≡ s
  unfolding try_dequeue search_shards give_up
  still s e =
      let none_left : Ring.len s.active_shards ≡ 0 = len-length s.active_shards ∙ ap length e in
      elim (Bool-cases (s.shutdown_state == shutdown_immediate)) [
        | inl i ↦ rw i refl
        | inr i ↦ rw (i, none_left) refl
      ]

  -- Without an active shard the scheduler stays as it is.
  attempts-no_shard :
      (n : ℕ) (s : Scheduler T) → Ring.items s.active_shards ≡ [] → (attempts n s).0 ≡ s
  unfolding attempts
  attempts-no_shard zero s e = still s e
  attempts-no_shard (suc n) s e = go (attempts-no_shard n) (try_dequeue s).1 refl
    where
      go :
          ((s : Scheduler T) → Ring.items s.active_shards ≡ [] → (attempts n s).0 ≡ s)
          → (a : DequeueResult T) → (try_dequeue s).1 ≡ a
          → (attempts (suc n) s).0 ≡ s
      go later empty h = rw (h, attempts) (ap (λ t. (attempts n t).0) (still s e) ∙ later s e)
      go later closed h = rw (h, attempts) (still s e)
      go later (dequeued tenant task) h = rw (h, attempts) (still s e)

  -- The outcome of some attempts.
  abbrev pub Served : Scheduler T × DequeueResult T → Type 0
  Served r = (r.1 ≢ empty) ⊎ Idle r.0

  no_shard-Served :
      (n : ℕ) (s : Scheduler T)
      → IsActive s
      → Ring.items s.active_shards ≡ []
      → Served (attempts n s)
  no_shard-Served n s w e = inr (subst Idle (sym (attempts-no_shard n s e)) (no_shard-Idle s w e))

  answered-Served :
      (n : ℕ) (s : Scheduler T) (a : DequeueResult T)
      → (try_dequeue s).1 ≡ a
      → a ≢ empty
      → Served (attempts n s)
  unfolding attempts
  answered-Served zero s a h other = inl (λ e. other (sym h ∙ e))
  answered-Served (suc n) s (dequeued tenant task) h other =
      inl (λ e. let answer = rw (h, attempts) at e in cc)
  answered-Served (suc n) s closed h other = inl (λ e. let answer = rw (h, attempts) at e in cc)
  answered-Served (suc n) s empty h other = absurd (other refl)

  attempts-step :
      (n : ℕ) (s : Scheduler T)
      → (try_dequeue s).1 ≡ empty
      → attempts (suc n) s ≡ attempts n (try_dequeue s).0
  unfolding attempts
  attempts-step n s h = rw (h, attempts) refl

  -- The answers that are not `empty`, and what an empty one leaves.
  emptied :
      (most : ℕ) (s : Scheduler T)
      → IsValid s
      → IsRinged s
      → IsActive s
      → Funded most s
      → ((try_dequeue s).1 ≢ empty)
        ⊎ ((try_dequeue s).1 ≡ empty)
          × ((((try_dequeue s).0 ≡ s)
                × ((Ring.len s.active_shards ≡ 0) ⊎ (Ring.items s.active_shards ≡ [])))
              ⊎ (Funded most (try_dequeue s).0
                  × (scheduler_work (try_dequeue s).0 < scheduler_work s)))
  emptied most s v r w f = go (try_dequeue s).1 refl
    where
      go :
          (a : DequeueResult T)
          → (try_dequeue s).1 ≡ a
          → ((try_dequeue s).1 ≢ empty)
            ⊎ ((try_dequeue s).1 ≡ empty)
              × ((((try_dequeue s).0 ≡ s)
                    × ((Ring.len s.active_shards ≡ 0) ⊎ (Ring.items s.active_shards ≡ [])))
                  ⊎ (Funded most (try_dequeue s).0
                      × (scheduler_work (try_dequeue s).0 < scheduler_work s)))
      go (dequeued tenant task) h = inl (λ e. cc)
      go closed h = inl (λ e. cc)
      go empty h =
          let after = try_dequeue-Emptied most s v r w f h in
          inr (h, elim after.less [ inl same ↦ inl same | inr lower ↦ inr (after.funded, lower) ])

  within-Served :
      (most n : ℕ) (s : Scheduler T)
      → scheduler_work s ≤ n
      → IsValid s
      → IsRinged s
      → IsActive s
      → Funded most s
      → Served (attempts n s)
  within-Served most zero s le v r w f = elim (emptied most s v r w f) [
    | inl other ↦ answered-Served 0 s _ refl other
    | inr (h, inl (same, idle)) ↦ no_shard-Served 0 s w (no_items s.active_shards idle)
    | inr (h, inr lower) ↦ absurd (omega (arith, le, lower.1))
  ]
  within-Served most (suc n) s le v r w f = elim (emptied most s v r w f) [
    | inl other ↦ answered-Served (suc n) s _ refl other
    | inr (h, inl (same, idle)) ↦ no_shard-Served (suc n) s w (no_items s.active_shards idle)
    | inr (h, inr lower) ↦
        let kept = try_dequeue-IsValid s v r in
        subst Served (sym (attempts-step n s h)) (
          within-Served most n (try_dequeue s).0 (omega (arith, le, lower.1)) kept.0 kept.1
            (try_dequeue-IsActive s v r w) lower.0)
  ]

  -- A consumer that asks again and again is served: from a scheduler for which the invariants
  -- hold, in which every tenant's quantum is positive and no queued task costs more than `most`,
  -- with quantum and `most` together within an `i64`, and no deficit is below the negative of
  -- the largest `i64`, at most `scheduler_work` calls of `try_dequeue` answer `empty` before one
  -- answers a task or `closed`, or no tenant has a task queued.
  pub attempts-Served :
      (most : ℕ) (s : Scheduler T)
      → IsValid s
      → IsRinged s
      → IsActive s
      → Funded most s
      → ((attempts (scheduler_work s) s).1 ≢ empty) ⊎ Idle (attempts (scheduler_work s) s).0
  attempts-Served most s v r w f = within-Served most (scheduler_work s) s (omega arith) v r w f
