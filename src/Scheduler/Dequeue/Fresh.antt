-- ===== src/Scheduler/Dequeue/Fresh.antt =====
-- A dequeue gives no task that had expired at every reading of the clock made during the call.
use firq.Prelude.{
  ℕ, zero, suc, ◌≤◌, ◌<◌, ◌≡◌, refl, false, not, List, [], ◌∷◌, arith, inl, inr, Bool-cases,
  Option-cases, none, some, Option, ltb, ◌==◌,
}
use firq.Prelude.Int.{ltb_ℤ}
use firq.Api.{Instant, Priority, ordered, Task, TenantKey, DequeueResult, dequeued, empty, closed}
use firq.State.Dict
use firq.State.Ring
use firq.State.Ledger.{Ledger, take_pending, take_cancelled_marker}
use firq.State.Tenant.{TenantState, QueueEntry, Shard, at, put, rings_empty}
use firq.Scheduler.Core.{
  Scheduler, notify_all, tick, instant_now, is_expired, shard_at, put_shard, shutdown_immediate,
}
use firq.Scheduler.Dequeue.{
  Turn, drop_dead, record_expired, capped_cost, take_front, serve, visit_tenant, visit, dispatch,
  search_ring, search_levels, try_dequeue_from_shard, put_searched, give_up, try_dequeue,
}
use firq.Scheduler.Shutdown.{should_return_closed}
use firq.Scheduler.Valid.{IsValid}
use firq.Scheduler.Ringed.{IsRinged}
use firq.Scheduler.Dequeue.Valid.{search_shards-induct}

-- The front of a queue after the dead ones have left has not expired.
abbrev FrontFresh : {T : Type 0} → Instant → List (QueueEntry T) → Type 0
FrontFresh now [] = Unit
FrontFresh now (e ∷ queue) = is_expired e.task.deadline now ≡ false

module _ {T : Type 0} where
  drop_dead-FrontFresh :
      (now : Instant) (queue : List (QueueEntry T)) (g : Ledger) (n : ℕ)
      → FrontFresh now (drop_dead now queue g n).queue
  unfolding drop_dead take_cancelled_marker
  drop_dead-FrontFresh now [] g n = tt
  drop_dead-FrontFresh now (e ∷ queue) g n = elim (Bool-cases (take_cancelled_marker e.id g).0) [
    | inl m ↦ rw (m, drop_dead) (drop_dead-FrontFresh now queue _ n)
    | inr m ↦
        rw (m, drop_dead)
          (elim (Bool-cases (is_expired e.task.deadline now)) [
            | inl x ↦ rw x (drop_dead-FrontFresh now queue _ _)
            | inr x ↦ rw x x
          ])
  ]

  -- The task found, if any, was unexpired at a reading of the clock from number `from` on and before
  -- number `upto`.
  abbrev pub Fresh : (ℕ → Instant) → ℕ → ℕ → Option (TenantKey × Task T) → Type 0
  Fresh clock from upto none = Unit
  Fresh clock from upto (some (tenant, task)) =
      (k : ℕ) × (from ≤ k) × (k < upto) × (is_expired task.deadline (clock k) ≡ false)

  -- From reading `from` of this clock on.
  pub record IsLater (clock : ℕ → Instant) (from : ℕ) (s : Scheduler T) : Type 0 where
    pub same : s.clock ≡ clock
    pub later : from ≤ s.readings

  abbrev TurnFresh : (ℕ → Instant) → ℕ → Turn T → Type 0
  TurnFresh clock from turn =
      IsLater clock from turn.scheduler × Fresh clock from turn.scheduler.readings turn.result

  record_expired-readings : (n : ℕ) (s : Scheduler T) → (record_expired n s).readings ≡ s.readings
  unfolding record_expired notify_all
  record_expired-readings n s = ground arith

  put_searched-readings :
      (i : ℕ) (turn : Turn T) → (put_searched i turn).readings ≡ turn.scheduler.readings
  unfolding put_searched put_shard
  put_searched-readings i turn = ground arith

module _ {T : Type 0} (clock : ℕ → Instant) (from : ℕ) where
  take_front-TurnFresh :
      (p : Priority) (tenant : TenantKey) (e : QueueEntry T) (rest : List (QueueEntry T))
      (ts : TenantState T) (s : Scheduler T) (shard : Shard T)
      → IsLater clock from s
      → (k : ℕ) × (from ≤ k) × (k < s.readings) × (is_expired e.task.deadline (clock k) ≡ false)
      → TurnFresh clock from (take_front p tenant e rest ts s shard)
  unfolding take_front dispatch notify_all
  take_front-TurnFresh p tenant e rest ts s shard l f =
      let g = (take_cancelled_marker e.id s.ledger).1 in
      elim (Bool-cases (take_cancelled_marker e.id s.ledger).0) [
        | inl m ↦ rw m (record { same = l.same; later = l.later }, tt)
        | inr m ↦ elim (Bool-cases (not (take_pending e.id g).0)) [
          | inl q ↦ rw (m, q) (record { same = l.same; later = l.later }, tt)
          | inr q ↦
              rw (m, q)
                (
                  record { same = l.same; later = omega (arith, l.later) },
                  (f.0, f.1, omega (arith, f.2), f.3),
                )
        ]
      ]

  serve-TurnFresh :
      (p : Priority) (tenant : TenantKey) (queue : List (QueueEntry T)) (ts : TenantState T)
      (s : Scheduler T) (shard : Shard T) (k : ℕ)
      → IsLater clock from s
      → from ≤ k
      → k < s.readings
      → FrontFresh (clock k) queue
      → TurnFresh clock from (serve p tenant queue ts s shard)
  unfolding serve
  serve-TurnFresh p tenant [] ts s shard k l le lt f = (l, tt)
  serve-TurnFresh p tenant (e ∷ rest) ts s shard k l le lt f =
      elim (Bool-cases (ltb_ℤ (at ts.deficits p) (capped_cost e.task))) [
        | inl c ↦ rw c (l, tt)
        | inr c ↦ rw c (take_front-TurnFresh p tenant e rest ts s shard l (k, le, lt, f))
      ]

  record_expired-IsLater :
      (n : ℕ) (s : Scheduler T) → IsLater clock from s → IsLater clock from (record_expired n s)
  unfolding record_expired notify_all
  record_expired-IsLater n s l = elim (Bool-cases (ltb 0 n)) [
    | inl c ↦ rw c (record { same = l.same; later = l.later })
    | inr c ↦ rw c l
  ]

  visit-TurnFresh :
      (p : Priority) (tenant : TenantKey) (s : Scheduler T) (shard : Shard T)
      → IsLater clock from s
      → TurnFresh clock from (visit p tenant s shard)
  unfolding visit visit_tenant
  visit-TurnFresh p tenant s shard l = elim (Option-cases (Dict.lookup tenant shard.tenants)) [
    | inl e ↦ rw (e, visit) (l, tt)
    | inr (ts, e) ↦
        let now = instant_now s in
        let drained = drop_dead now (at ts.queues p) s.ledger 0 in
        rw (e, visit)
          (serve-TurnFresh p tenant drained.queue
            (record ts { queues = put ts.queues p drained.queue })
            (record_expired drained.expired_count (record (tick s) { ledger = drained.ledger }))
            shard s.readings
            (record_expired-IsLater drained.expired_count _
              (record { same = l.same; later = omega (arith, l.later) }))
            l.later
            (omega (
              arith,
              record_expired-readings drained.expired_count
                  (record (tick s) { ledger = drained.ledger }),
            ))
            (rw (← l.same) (drop_dead-FrontFresh now (at ts.queues p) s.ledger 0)))
  ]

  search_ring-TurnFresh :
      (n : ℕ) (p : Priority) (s : Scheduler T) (shard : Shard T)
      → IsLater clock from s
      → TurnFresh clock from (search_ring n p s shard)
  unfolding search_ring
  search_ring-TurnFresh zero p s shard l = (l, tt)
  search_ring-TurnFresh (suc n) p s shard l =
      elim (Option-cases (Ring.pop_front (at shard.active_rings p))) [
        | inl e ↦ rw (e, search_ring) (l, tt)
        | inr ((tenant, ring), e) ↦
            let shard' : Shard T = record shard { active_rings = put shard.active_rings p ring } in
            let turn = visit p tenant s shard' in
            let h = visit-TurnFresh p tenant s shard' l in
            rw (e, search_ring)
              (elim (Option-cases turn.result) [
                | inl r ↦ rw r (search_ring-TurnFresh n p turn.scheduler turn.shard h.0)
                | inr (_, r) ↦ rw r h
              ])
      ]

  search_levels-TurnFresh :
      (ps : List Priority) (s : Scheduler T) (shard : Shard T)
      → IsLater clock from s
      → TurnFresh clock from (search_levels ps s shard)
  unfolding search_levels
  search_levels-TurnFresh [] s shard l = (l, tt)
  search_levels-TurnFresh (p ∷ ps) s shard l =
      let n = Ring.len (at shard.active_rings p) in
      let turn = search_ring n p s shard in
      let h = search_ring-TurnFresh n p s shard l in
      elim (Option-cases turn.result) [
        | inl r ↦ rw (r, search_levels) (search_levels-TurnFresh ps turn.scheduler turn.shard h.0)
        | inr (_, r) ↦ rw (r, search_levels) h
      ]

  put_searched-IsLater :
      (i : ℕ) (turn : Turn T)
      → IsLater clock from turn.scheduler
      → IsLater clock from (put_searched i turn)
  unfolding put_searched put_shard
  put_searched-IsLater i turn l = elim (Bool-cases (rings_empty turn.shard)) [
    | inl c ↦ rw c (record { same = l.same; later = l.later })
    | inr c ↦ rw c (record { same = l.same; later = l.later })
  ]

module _ {T : Type 0} where
  -- The task in an answer of `try_dequeue`.
  abbrev pub task_found : DequeueResult T → Option (TenantKey × Task T)
  task_found (dequeued tenant task) = some (tenant, task)
  task_found empty = none
  task_found closed = none

  -- From a scheduler for which both invariants hold, a task that `try_dequeue` returns had not
  -- expired at a reading of the clock made during the call; the call leaves the clock as it is
  -- and never takes a reading back.
  pub try_dequeue-Fresh :
      (s : Scheduler T)
      → IsValid s
      → IsRinged s
      → IsLater s.clock s.readings (try_dequeue s).0
        × Fresh s.clock s.readings (try_dequeue s).0.readings (task_found (try_dequeue s).1)
  unfolding try_dequeue give_up try_dequeue_from_shard
  try_dequeue-Fresh s v w = elim (Bool-cases (s.shutdown_state == shutdown_immediate)) [
    | inl e ↦ rw e (record { same = refl; later = omega arith }, tt)
    | inr e ↦ rw e (
        search_shards-induct (IsLater s.clock s.readings)
          (λ r.
            IsLater s.clock s.readings r.0 × Fresh s.clock s.readings r.0.readings (task_found r.1))
          (λ t ring l. record { same = l.same; later = l.later })
          (λ t v' w' l. elim (Bool-cases (should_return_closed t)) [
            | inl c ↦ rw c (l, tt)
            | inr c ↦ rw c (l, tt)
          ])
          (λ t i v' l r.
            put_searched-IsLater s.clock s.readings i (try_dequeue_from_shard t (shard_at t i))
              (search_levels-TurnFresh s.clock s.readings ordered t (shard_at t i) l).0)
          (λ t i tenant task v' l r v2 w2.
            let h = search_levels-TurnFresh s.clock s.readings ordered t (shard_at t i) l in
            (
              put_searched-IsLater s.clock s.readings i (try_dequeue_from_shard t (shard_at t i))
                  h.0,
              rw (r, ← put_searched-readings i (try_dequeue_from_shard t (shard_at t i))) at h.1,
            ))
          (Ring.len s.active_shards) s v w (record { same = refl; later = omega arith }))
  ]
