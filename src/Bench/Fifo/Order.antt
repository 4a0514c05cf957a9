-- ===== src/Bench/Fifo/Order.antt =====
-- The baseline queue is a bounded FIFO.
use firq.Prelude.{
  ℕ, ◌≤◌, ◌≡◌, ◌∙◌, refl, sym, ap, arith, List, [], ◌∷◌, ◌++◌, append-nil, append_assoc, leb,
  length, length-append, Bool-cases, inl, inr,
}
use firq.Api.{Task}
use firq.Bench.Fifo.{
  new, enqueue, dequeue_round, close, FifoCall, enqueues, dequeues, closes, FifoRun, call, run,
}

module _ {T : Type 0} where
  record IsFifo (limit : ℕ) (r : FifoRun T) : Type 0 where
    pub order : r.given ++ r.fifo.queue ≡ r.accepted
    pub same : r.fifo.max_global ≡ limit
    pub bounded : length r.fifo.queue ≤ r.fifo.max_global

  call-IsFifo :
      {limit : ℕ} (c : FifoCall T) (r : FifoRun T) → IsFifo limit r → IsFifo limit (call c r)
  unfolding call enqueue dequeue_round close
  call-IsFifo (enqueues task) r w = elim (Bool-cases r.fifo.closed) [
    | inl c ↦ rw c (record { order = w.order; same = w.same; bounded = w.bounded })
    | inr c ↦ rw c (elim (Bool-cases (leb r.fifo.max_global (length r.fifo.queue))) [
      | inl full ↦ rw full (record { order = w.order; same = w.same; bounded = w.bounded })
      | inr room ↦ rw room (record {
        order =
            sym (append_assoc r.given r.fifo.queue (task ∷ []))
            ∙ ap (λ xs. xs ++ task ∷ []) w.order;
        same = w.same;
        bounded = ground (arith, room, length-append r.fifo.queue (task ∷ []));
      })
    ])
  ]
  call-IsFifo closes r w = record { order = w.order; same = w.same; bounded = w.bounded }
  call-IsFifo {limit} dequeues r w = go r.fifo.queue refl
    where
      go : (queue : List (Task T)) → r.fifo.queue ≡ queue → IsFifo limit (call dequeues r)
      go [] e = elim (Bool-cases r.fifo.closed) [
        | inl c ↦
            rw (e, call, c)
              (record {
                order = append-nil (r.given ++ []) ∙ (ap (λ xs. r.given ++ xs) (sym e) ∙ w.order);
                same = w.same;
                bounded = omega arith;
              })
        | inr c ↦
            rw (e, call, c)
              (record {
                order = append-nil (r.given ++ []) ∙ (ap (λ xs. r.given ++ xs) (sym e) ∙ w.order);
                same = w.same;
                bounded = omega arith;
              })
      ]
      go (task ∷ rest) e =
          rw (e, call)
            (record {
              order =
                  append_assoc r.given (task ∷ []) rest
                  ∙ (ap (λ xs. r.given ++ xs) (sym e) ∙ w.order);
              same = w.same;
              bounded = omega (arith, w.bounded, ap length e);
            })

  run-IsFifo :
      {limit : ℕ} (cs : List (FifoCall T)) (r : FifoRun T)
      → IsFifo limit r
      → IsFifo limit (run cs r)
  unfolding run
  run-IsFifo [] r w = w
  run-IsFifo (c ∷ cs) r w = run-IsFifo cs _ (call-IsFifo c r w)

  abbrev pub started : ℕ → FifoRun T
  unfolding new
  started max_global = record { fifo = new max_global; accepted = []; given = [] }

  started-IsFifo : (max_global : ℕ) → IsFifo max_global (started max_global)
  unfolding new
  started-IsFifo max_global = record { order = refl; same = refl; bounded = omega arith }

  -- After every sequence of calls, the baseline queue has given the tasks that it accepted in
  -- their order, those that remain are the rest of them, and at most `max_global` remain.
  pub run-order :
      (max_global : ℕ) (cs : List (FifoCall T))
      → let r = run cs (started max_global) in
        (r.given ++ r.fifo.queue ≡ r.accepted) × (length r.fifo.queue ≤ max_global)
  run-order max_global cs =
      let w = run-IsFifo cs (started max_global) (started-IsFifo max_global) in
      (w.order, omega (arith, w.bounded, w.same))
