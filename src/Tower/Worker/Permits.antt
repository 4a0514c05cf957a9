-- ===== src/Tower/Worker/Permits.antt =====
-- The permits that the worker hands over.
use firq.Prelude.{
  ℕ, ◌+◌, ◌≤◌, ◌≡◌, ◌∙◌, refl, arith, max, Bool, List, [], ◌∷◌, length, Option-cases, Bool-cases,
  inl, inr, ltb,
}
use firq.Api.{Task, DequeueResult, dequeued, empty, closed}
use firq.Semaphore.{Semaphore, remove_at, length-remove_at}
use firq.Scheduler.Core.{Scheduler}
use firq.State.Signal.{changed}
use firq.Scheduler.Shutdown.{should_return_closed}
use firq.Scheduler.Dequeue.{try_dequeue}
use firq.Tower.Worker.{
  WorkerPhase, testing, dequeuing, sleeping, acquiring, WorkerEvent, tested, searched, woken,
  layer_dropped, search, wake, polled_permit, returned, acts, LayerWorker, new, in_flight_active,
  take_answer, hand_over, give_back, drop_worker, advance, run,
}

module _ {sem : Semaphore} {T : Type 0} where
  -- The permits are there or with a call.
  record IsCounted (n : ℕ) (w : LayerWorker sem T) : Type 0 where
    pub limit : w.max_in_flight ≡ n
    pub permits : sem.available w.in_flight + length w.running ≡ w.max_in_flight

  IsCounted-ext :
      {n : ℕ} (w w' : LayerWorker sem T)
      → IsCounted n w
      → w'.max_in_flight ≡ w.max_in_flight
      → w'.in_flight ≡ w.in_flight
      → w'.running ≡ w.running
      → IsCounted n w'
  IsCounted-ext w w' c m f r = record { limit = m ∙ c.limit; permits = rw (m, f, r) c.permits }

  take_answer-IsCounted :
      {n : ℕ} (observed : ℕ) (result : DequeueResult T) (w : LayerWorker sem T)
      → IsCounted n w
      → IsCounted n (take_answer observed result w)
  unfolding take_answer
  take_answer-IsCounted observed (dequeued tenant task) w c = IsCounted-ext w _ c refl refl refl
  take_answer-IsCounted observed closed w c = IsCounted-ext w _ c refl refl refl
  take_answer-IsCounted observed empty w c = elim (Bool-cases (should_return_closed w.scheduler)) [
    | inl e ↦ rw e (IsCounted-ext w _ c refl refl refl)
    | inr e ↦ elim (Bool-cases (ltb 0 w.scheduler.ledger.queue_len_estimate)) [
      | inl f ↦ rw (e, f) (IsCounted-ext w _ c refl refl refl)
      | inr f ↦ rw (e, f) (IsCounted-ext w _ c refl refl refl)
    ]
  ]

  hand_over-IsCounted :
      {n : ℕ} (call_there : Bool) (task : Task T) (w : LayerWorker sem T)
      → IsCounted n w
      → IsCounted n (hand_over call_there task w)
  unfolding hand_over
  hand_over-IsCounted call_there task w c = elim (Bool-cases w.in_flight_closed) [
    | inl e ↦ rw e (IsCounted-ext w _ c refl refl refl)
    | inr e ↦
        rw (e, hand_over)
          (elim (Option-cases (sem.acquire 1 w.in_flight)) [
            | inl a ↦ rw (a, hand_over) c
            | inr (st, a) ↦
                let got = sem.acquire-available 1 w.in_flight st a in
                rw (a, hand_over)
                  (elim (Bool-cases call_there) [
                    | inl t ↦
                        rw t (record { limit = c.limit; permits = omega (arith, got, c.permits) })
                    | inr t ↦ rw t (record {
                      limit = c.limit;
                      permits = omega (arith, got, c.permits, sem.release-available 1 st);
                    })
                  ])
          ])
  ]

  give_back-IsCounted :
      {n : ℕ} (k : ℕ) (w : LayerWorker sem T) → IsCounted n w → IsCounted n (give_back k w)
  unfolding give_back
  give_back-IsCounted k w c = elim (Option-cases (remove_at k w.running)) [
    | inl e ↦ rw (e, give_back) c
    | inr (rest, e) ↦
        rw (e, give_back)
          (record {
            limit = c.limit;
            permits = omega (
              arith,
              sem.release-available 1 w.in_flight,
              c.permits,
              length-remove_at k w.running rest e,
            );
          })
  ]

  advance-IsCounted :
      {n : ℕ} (e : WorkerEvent T) (phase : WorkerPhase T) (w : LayerWorker sem T)
      → IsCounted n w
      → IsCounted n (advance e phase w)
  unfolding advance drop_worker search wake
  advance-IsCounted tested testing w c = elim (Bool-cases w.shutdown) [
    | inl e ↦ rw e (IsCounted-ext w _ c refl refl refl)
    | inr e ↦ rw e (IsCounted-ext w _ c refl refl refl)
  ]
  advance-IsCounted searched dequeuing w c =
      take_answer-IsCounted w.scheduler.work_signal.seq (try_dequeue w.scheduler).1
        (record w { scheduler = (try_dequeue w.scheduler).0 }) (IsCounted-ext w _ c refl refl refl)
  advance-IsCounted woken (sleeping observed) w c =
      elim (Bool-cases (changed w.scheduler.work_signal observed)) [
        | inl e ↦ rw e (IsCounted-ext w _ c refl refl refl)
        | inr e ↦ rw e c
      ]
  advance-IsCounted (polled_permit call_there) (acquiring task) w c =
      hand_over-IsCounted call_there task w c
  advance-IsCounted (returned k) phase w c = give_back-IsCounted k w c
  advance-IsCounted layer_dropped phase w c = IsCounted-ext w _ c refl refl refl
  advance-IsCounted (acts action) phase w c = IsCounted-ext w _ c refl refl refl
  advance-IsCounted e phase w c = c

  run-IsCounted :
      {n : ℕ} (es : List (WorkerEvent T)) (w : LayerWorker sem T)
      → IsCounted n w
      → IsCounted n (run es w)
  unfolding run
  run-IsCounted [] w c = c
  run-IsCounted (e ∷ es) w c = run-IsCounted es _ (advance-IsCounted e w.phase w c)

  new-IsCounted : (s : Scheduler T) (limit : ℕ) → IsCounted (max limit 1) (new {sem = sem} s limit)
  unfolding new
  new-IsCounted s limit = record {
    limit = refl;
    permits = omega (arith, sem.new-available (max limit 1));
  }

module _ (sem : Semaphore) {T : Type 0} where
  -- For every semaphore that keeps its promises and every sequence of events of a layer:
  -- `in_flight_active` is the number of calls that hold a permit, and never more than the limit
  -- (one, for 0).
  pub run-in_flight_active :
      (s : Scheduler T) (limit : ℕ) (es : List (WorkerEvent T))
      → let w = run es (new {sem = sem} s limit) in
        (in_flight_active w ≡ length w.running) × (length w.running ≤ max limit 1)
  unfolding in_flight_active
  run-in_flight_active s limit es =
      let c = run-IsCounted es (new {sem = sem} s limit) (new-IsCounted s limit) in
      (omega (arith, c.permits), omega (arith, c.permits, c.limit))
