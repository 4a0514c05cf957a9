-- ===== src/Tower/Worker/Watched.antt =====
-- What holds of a layer's worker between two events: when it sleeps, and when its layer is gone.
use firq.Prelude.{
  ℕ, ◌≤◌, ◌<◌, ◌≡◌, ◌≢◌, ◌∙◌, refl, sym, ap, arith, Bool, true, ◌==◌, List, [], ◌∷◌, Bool-cases,
  inl, inr, ltb, Option-cases,
}
use firq.Api.{Task, DequeueResult, dequeued, empty, closed}
use firq.Semaphore.{Semaphore, remove_at}
use firq.State.Signal.{changed}
use firq.Scheduler.Core.{Scheduler, shutdown_immediate}
use firq.Scheduler.Shutdown.{should_return_closed}
use firq.Scheduler.Dequeue.{try_dequeue}
use firq.Tower.Worker.{
  WorkerPhase, testing, dequeuing, sleeping, stopped, acquiring, WorkerEvent, tested, searched,
  woken, polled_permit, returned, layer_dropped, acts, LayerWorker, new, take_answer, search, wake,
  hand_over, give_back, drop_worker, advance, run,
}
use firq.Tower.Worker.Closing.{
  IsImmediate, Notifies, close_immediate-IsImmediate, close_immediate-Notifies,
  try_dequeue-immediate, try_dequeue-IsImmediate, not_closed_not-IsImmediate,
}

module _ {sem : Semaphore} {T : Type 0} where
  abbrev pub seq_of : LayerWorker sem T → ℕ
  seq_of w = w.scheduler.work_signal.seq

  -- What is asked of an action of another thread.
  abbrev pub Tame : WorkerEvent T → LayerWorker sem T → Type 0
  Tame tested w = Unit
  Tame searched w = Unit
  Tame woken w = Unit
  Tame layer_dropped w = Unit
  Tame (polled_permit call_there) w = Unit
  Tame (returned k) w = Unit
  Tame (acts action) w = Notifies w.scheduler (action w.scheduler)

  -- A run in which the number of the work signal does not wrap and the actions of other threads are
  -- tame.
  abbrev pub IsCalm : List (WorkerEvent T) → LayerWorker sem T → Type 0
  IsCalm [] w = Unit
  IsCalm (e ∷ es) w =
      (seq_of w ≤ seq_of (advance e w.phase w)) × Tame e w × IsCalm es (advance e w.phase w)

  -- A worker that sleeps while its scheduler is closed has been notified, and a worker whose layer
  -- is gone has its scheduler and its semaphore closed.
  pub record IsWatched (w : LayerWorker sem T) : Type 0 where
    pub seen :
        (observed : ℕ)
        → w.phase ≡ sleeping observed
        → (observed ≤ seq_of w) × (IsImmediate w.scheduler → observed < seq_of w)
    pub dropped : w.shutdown ≡ true → (w.in_flight_closed ≡ true) × IsImmediate w.scheduler

  awake-IsWatched :
      (w w' : LayerWorker sem T)
      → ((observed : ℕ) → w'.phase ≢ sleeping observed)
      → w'.shutdown ≡ w.shutdown
      → w'.in_flight_closed ≡ w.in_flight_closed
      → w'.scheduler ≡ w.scheduler
      → IsWatched w
      → IsWatched w'
  awake-IsWatched w w' awake f i s c = record {
    seen = λ observed p. absurd (awake observed p);
    dropped = λ p.
        let d = c.dropped (sym f ∙ p) in
        (i ∙ d.0, ap (λ (x : Scheduler T). x.shutdown_state) s ∙ d.1);
  }

  acted-IsWatched :
      (w w' : LayerWorker sem T)
      → w'.phase ≡ w.phase
      → Notifies w.scheduler w'.scheduler
      → seq_of w ≤ seq_of w'
      → (w'.shutdown ≡ true → (w'.in_flight_closed ≡ true) × IsImmediate w'.scheduler)
      → IsWatched w
      → IsWatched w'
  acted-IsWatched w w' same n le dropped c = record {
    seen = λ observed p.
        let old = c.seen observed (sym same ∙ p) in
        (
          omega (arith, old.0, le),
          λ now. elim (Bool-cases (w.scheduler.shutdown_state == shutdown_immediate)) [
            | inl e ↦
                let i : IsImmediate w.scheduler = ground (arith, e) in omega (arith, old.1 i, le)
            | inr e ↦ omega (arith, old.0, le, n.wakes now (λ i. ground (arith, e, i)))
          ],
        );
    dropped = dropped;
  }

  take_answer-scheduler :
      (observed : ℕ) (result : DequeueResult T) (w : LayerWorker sem T)
      → (take_answer observed result w).scheduler ≡ w.scheduler
  unfolding take_answer
  take_answer-scheduler observed (dequeued tenant task) w = refl
  take_answer-scheduler observed closed w = refl
  take_answer-scheduler observed empty w = ground arith

  take_answer-IsWatched :
      (observed : ℕ) (result : DequeueResult T) (w : LayerWorker sem T)
      → observed ≤ seq_of w
      → (w.shutdown ≡ true → (w.in_flight_closed ≡ true) × IsImmediate w.scheduler)
      → IsWatched (take_answer observed result w)
  unfolding take_answer
  take_answer-IsWatched observed (dequeued tenant task) w le d = record {
    seen = λ o p. cc;
    dropped = d;
  }
  take_answer-IsWatched observed closed w le d = record { seen = λ o p. cc; dropped = d }
  take_answer-IsWatched observed empty w le d =
      elim (Bool-cases (should_return_closed w.scheduler)) [
        | inl e ↦ rw e (record { seen = λ o p. cc; dropped = d })
        | inr e ↦ elim (Bool-cases (ltb 0 w.scheduler.ledger.queue_len_estimate)) [
          | inl f ↦ rw (e, f) (record { seen = λ o p. cc; dropped = d })
          | inr f ↦
              rw (e, f)
                (record {
                  seen = λ o p.
                      let same : observed ≡ o = cc in
                      (
                        omega (arith, le, same),
                        λ i. absurd (not_closed_not-IsImmediate w.scheduler e i),
                      );
                  dropped = d;
                })
        ]
      ]

  hand_over-IsWatched :
      (call_there : Bool) (task : Task T) (w : LayerWorker sem T)
      → IsWatched w
      → IsWatched (hand_over call_there task w)
  unfolding hand_over
  hand_over-IsWatched call_there task w c = elim (Bool-cases w.in_flight_closed) [
    | inl e ↦ rw e (record { seen = λ o p. cc; dropped = λ p. (refl, (c.dropped p).1) })
    | inr e ↦
        rw (e, hand_over)
          (elim (Option-cases (sem.acquire 1 w.in_flight)) [
            | inl a ↦ rw (a, hand_over) c
            | inr (st, a) ↦
                rw (a, hand_over)
                  (elim (Bool-cases call_there) [
                    | inl t ↦ rw t (awake-IsWatched w _ (λ o p. cc) refl refl refl c)
                    | inr t ↦ rw t (awake-IsWatched w _ (λ o p. cc) refl refl refl c)
                  ])
          ])
  ]

  give_back-IsWatched : (k : ℕ) (w : LayerWorker sem T) → IsWatched w → IsWatched (give_back k w)
  unfolding give_back
  give_back-IsWatched k w c = elim (Option-cases (remove_at k w.running)) [
    | inl e ↦ rw (e, give_back) c
    | inr (rest, e) ↦ rw (e, give_back) (record { seen = c.seen; dropped = c.dropped })
  ]

  advance-IsWatched :
      (e : WorkerEvent T) (phase : WorkerPhase T) (w : LayerWorker sem T)
      → w.phase ≡ phase
      → seq_of w ≤ seq_of (advance e phase w)
      → Tame e w
      → IsWatched w
      → IsWatched (advance e phase w)
  unfolding advance drop_worker search wake
  advance-IsWatched tested testing w h le t c = elim (Bool-cases w.shutdown) [
    | inl e ↦ rw e (record { seen = λ o p. cc; dropped = λ p. c.dropped e })
    | inr e ↦ rw e (record { seen = λ o p. cc; dropped = λ p. cc })
  ]
  advance-IsWatched searched dequeuing w h le t c =
      let s = (try_dequeue w.scheduler).0 in
      let w' : LayerWorker sem T = record w { scheduler = s } in
      take_answer-IsWatched (seq_of w) (try_dequeue w.scheduler).1 w'
        (rw (take_answer-scheduler (seq_of w) (try_dequeue w.scheduler).1 w') at le)
        (λ p. ((c.dropped p).0, try_dequeue-IsImmediate w.scheduler (c.dropped p).1))
  advance-IsWatched woken (sleeping observed) w h le t c =
      elim (Bool-cases (changed w.scheduler.work_signal observed)) [
        | inl e ↦ rw e (awake-IsWatched w _ (λ o p. cc) refl refl refl c)
        | inr e ↦ rw e c
      ]
  advance-IsWatched (polled_permit call_there) (acquiring task) w h le t c =
      hand_over-IsWatched call_there task w c
  advance-IsWatched (returned k) phase w h le t c = give_back-IsWatched k w c
  advance-IsWatched layer_dropped phase w h le t c =
      acted-IsWatched w _ refl (close_immediate-Notifies w.scheduler) le
        (λ p. (refl, close_immediate-IsImmediate w.scheduler)) c
  advance-IsWatched (acts action) phase w h le t c =
      acted-IsWatched w _ refl t le (λ p. ((c.dropped p).0, t.stays (c.dropped p).1)) c
  advance-IsWatched e phase w h le t c = c

  pub run-IsWatched :
      (es : List (WorkerEvent T)) (w : LayerWorker sem T)
      → IsCalm es w
      → IsWatched w
      → IsWatched (run es w)
  unfolding run
  run-IsWatched [] w calm c = c
  run-IsWatched (e ∷ es) w calm c =
      run-IsWatched es _ calm.2 (advance-IsWatched e w.phase w refl calm.0 calm.1 c)

  pub new-IsWatched : (s : Scheduler T) (limit : ℕ) → IsWatched (new {sem = sem} s limit)
  unfolding new
  new-IsWatched s limit = record { seen = λ o p. cc; dropped = λ p. cc }

  -- A round of the dequeue of a closed scheduler.
  pub search-stopped :
      (w : LayerWorker sem T)
      → IsImmediate w.scheduler
      → ((search w).phase ≡ stopped) × ((search w).running ≡ w.running)
  unfolding search take_answer
  search-stopped w i = rw (try_dequeue-immediate w.scheduler i, take_answer) (refl, refl)
