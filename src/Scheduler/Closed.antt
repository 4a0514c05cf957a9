-- ===== src/Scheduler/Closed.antt =====
-- What a closed scheduler answers to an enqueue, and a dequeue while it drains.
use firq.Prelude.{ℕ, ◌≡◌, ◌≢◌, ◌∙◌, refl, false, arith, inl, inr, Bool-cases, ◌==◌}
use firq.Api.{TenantKey, Task, DequeueResult, dequeued, empty, closed, EnqueueWithHandleResult}
use firq.State.Ring
use firq.Scheduler.Core.{Scheduler, shutdown_immediate, shutdown_drain, put_shard, shard_at}
use firq.Scheduler.Shutdown.{is_accepting_enqueues, should_return_closed}
use firq.Scheduler.Enqueue.{shut, enqueue_try_reject, enqueue_reject_with_handle}
use firq.Scheduler.Drop.{DropStrategy, enqueue_drop_with_handle}
use firq.Scheduler.Dequeue.{Turn, try_dequeue_from_shard, put_searched, give_up, try_dequeue}
use firq.Scheduler.Dequeue.Valid.{searched-Same, search_shards-induct}
use firq.Scheduler.Valid.{IsValid}
use firq.Scheduler.Ringed.{IsRinged}

module _ {T : Type 0} where
  attempt_closed :
      (tenant : TenantKey) (task : Task T) (s : Scheduler T)
      → is_accepting_enqueues s ≡ false
      → enqueue_try_reject tenant task s ≡ (s, shut)
  unfolding enqueue_try_reject
  attempt_closed tenant task s h = rw h refl

  reject_closed :
      (tenant : TenantKey) (task : Task T) (s : Scheduler T)
      → enqueue_try_reject tenant task s ≡ (s, shut)
      → enqueue_reject_with_handle tenant task s ≡ (s, EnqueueWithHandleResult.closed)
  unfolding enqueue_reject_with_handle
  reject_closed tenant task s h = ground (arith, h)

  -- A scheduler that is not open answers `closed` to an enqueue under each of the policies, in
  -- the first round of the waiting one, and is left exactly as it was.
  pub closed-enqueues :
      (tenant : TenantKey) (task : Task T) (strategy : DropStrategy) (s : Scheduler T)
      → is_accepting_enqueues s ≡ false
      → (enqueue_reject_with_handle tenant task s ≡ (s, EnqueueWithHandleResult.closed))
        × (enqueue_drop_with_handle strategy tenant task s ≡ (s, EnqueueWithHandleResult.closed))
  unfolding enqueue_drop_with_handle
  closed-enqueues tenant task strategy s h = (
    reject_closed tenant task s (attempt_closed tenant task s h),
    rw (h, enqueue_drop_with_handle) refl,
  )

  -- What a dequeue must answer under the drain mode.
  abbrev pub Drains : Scheduler T × DequeueResult T → Type 0
  Drains (s, dequeued tenant task) = Unit
  Drains (s, empty) = s.ledger.queue_len_estimate ≢ 0
  Drains (s, closed) = s.ledger.queue_len_estimate ≡ 0

  give_up-Drains : (s : Scheduler T) → s.shutdown_state ≡ shutdown_drain → Drains (give_up s)
  unfolding give_up should_return_closed
  give_up-Drains s h = elim (Bool-cases (s.ledger.queue_len_estimate == 0)) [
    | inl e ↦ rw (h, e) (ground arith)
    | inr e ↦ rw (h, e) (λ z. ground (arith, e, z))
  ]

  put_searched-shutdown_state :
      (i : ℕ) (turn : Turn T) → (put_searched i turn).shutdown_state ≡ turn.scheduler.shutdown_state
  unfolding put_searched put_shard
  put_searched-shutdown_state i turn = ground arith

  -- Of a scheduler in drain mode for which both invariants hold, `try_dequeue` answers `closed`
  -- only when the estimate of live tasks it leaves is 0, and `empty` only when that estimate is
  -- not 0.
  pub try_dequeue-Drains :
      (s : Scheduler T)
      → IsValid s
      → IsRinged s
      → s.shutdown_state ≡ shutdown_drain
      → Drains (try_dequeue s)
  unfolding try_dequeue
  try_dequeue-Drains s v w h =
      let open_ended : (s.shutdown_state == shutdown_immediate) ≡ false = ground (arith, h) in
      rw open_ended (
        search_shards-induct (λ t. t.shutdown_state ≡ shutdown_drain) Drains (λ t ring p. p)
          (λ t v' w' p. give_up-Drains t p)
          (λ t i v' p r.
            put_searched-shutdown_state i (try_dequeue_from_shard t (shard_at t i))
            ∙ (searched-Same t i v').shutdown_state
            ∙ p)
          (λ t i tenant task v' p r v2 w2. tt) (Ring.len s.active_shards) s v w h)
