-- ===== src/Async/Dispatcher/Bounds.antt =====
-- How many handlers a dispatcher runs at once, and that it waits for them.
use firq.Prelude.{
  ℕ, ◌+◌, ◌%◌, ◌≤◌, ◌<◌, ◌≡◌, refl, ap, arith, max, List, [], ◌∷◌, length, false, Option-cases, inl,
  inr,
}
use firq.Api.{dequeued, empty, closed}
use firq.Async.{DequeueItem}
use firq.Semaphore.{Semaphore, remove_at, length-remove_at}
use firq.Async.Dispatcher.{
  Phase, dequeuing, draining, finished, acquiring, DispatchEvent, answered, polled_permit,
  polled_all, handled, Dispatcher, u32_mod, new, finish_handler, spawn, drain, advance, run,
}

empty_length : {A : Type 0} (xs : List A) → length xs ≡ 0 → xs ≡ []
empty_length [] h = refl
empty_length (x ∷ xs) h = absurd (omega arith)

module _ {sem : Semaphore} {T : Type 0} where
  -- The permits are there or held by a handler, and nothing runs when `run` has returned.
  record IsBounded (n : ℕ) (d : Dispatcher sem T) : Type 0 where
    pub limit : d.max_in_flight ≡ n
    pub unclosed : d.semaphore_closed ≡ false
    pub permits : sem.available d.semaphore + length d.running ≡ d.max_in_flight
    pub word : d.max_in_flight < u32_mod
    pub over : d.phase ≡ finished → d.running ≡ []

  finish_handler-IsBounded :
      {n : ℕ} (k : ℕ) (d : Dispatcher sem T) → IsBounded n d → IsBounded n (finish_handler k d)
  unfolding finish_handler
  finish_handler-IsBounded k d b = elim (Option-cases (remove_at k d.running)) [
    | inl e ↦ rw (e, finish_handler) b
    | inr (rest, e) ↦
        let shorter = length-remove_at k d.running rest e in
        rw (e, finish_handler)
          (record {
            permits = omega (arith, sem.release-available 1 d.semaphore, b.permits, shorter);
            word = b.word;
            limit = b.limit;
            unclosed = b.unclosed;
            over = λ h. absurd (omega (arith, shorter, ap length (b.over h)));
          })
  ]

  spawn-IsBounded :
      {n : ℕ} (item : DequeueItem T) (d : Dispatcher sem T)
      → IsBounded n d
      → IsBounded n (spawn item d)
  unfolding spawn
  spawn-IsBounded item d b = elim (Option-cases (sem.acquire 1 d.semaphore)) [
    | inl e ↦ rw (b.unclosed, e, spawn) b
    | inr (st, e) ↦
        rw (b.unclosed, e, spawn)
          (record {
            permits = omega (arith, sem.acquire-available 1 d.semaphore st e, b.permits);
            word = b.word;
            limit = b.limit;
            unclosed = b.unclosed;
            over = λ h. cc;
          })
  ]

  drain-IsBounded : {n : ℕ} (d : Dispatcher sem T) → IsBounded n d → IsBounded n (drain d)
  unfolding drain
  drain-IsBounded d b =
      let wanted = d.max_in_flight % u32_mod in
      let all : wanted ≡ d.max_in_flight = omega (arith, b.word) in
      elim (Option-cases (sem.acquire wanted d.semaphore)) [
        | inl e ↦ rw (b.unclosed, e, drain) b
        | inr (st, e) ↦
            let got = sem.acquire-available wanted d.semaphore st e in
            rw (b.unclosed, e, drain)
              (record {
                permits = omega (arith, sem.release-available wanted st, got, b.permits);
                word = b.word;
                limit = b.limit;
                unclosed = b.unclosed;
                over = λ h. empty_length d.running (omega (arith, got, all, b.permits));
              })
      ]

  moved-IsBounded :
      {n : ℕ} (phase : Phase T) (d : Dispatcher sem T)
      → (phase ≡ finished → d.running ≡ [])
      → IsBounded n d
      → IsBounded n (record d { phase = phase })
  moved-IsBounded phase d over b = record {
    limit = b.limit;
    unclosed = b.unclosed;
    permits = b.permits;
    word = b.word;
    over = over;
  }

  advance-IsBounded :
      {n : ℕ} (e : DispatchEvent T) (phase : Phase T) (d : Dispatcher sem T)
      → IsBounded n d
      → IsBounded n (advance e phase d)
  unfolding advance
  advance-IsBounded (handled k) phase d b = finish_handler-IsBounded k d b
  advance-IsBounded (answered (dequeued tenant task)) dequeuing d b =
      moved-IsBounded _ d (λ h. cc) b
  advance-IsBounded (answered closed) dequeuing d b = moved-IsBounded _ d (λ h. cc) b
  advance-IsBounded (answered empty) dequeuing d b = b
  advance-IsBounded polled_permit (acquiring item) d b = spawn-IsBounded item d b
  advance-IsBounded polled_all draining d b = drain-IsBounded d b
  advance-IsBounded e phase d b = b

  run-IsBounded :
      {n : ℕ} (es : List (DispatchEvent T)) (d : Dispatcher sem T)
      → IsBounded n d
      → IsBounded n (run es d)
  unfolding run
  run-IsBounded [] d b = b
  run-IsBounded (e ∷ es) d b = run-IsBounded es _ (advance-IsBounded e d.phase d b)

  -- Once nothing runs, the wait for all permits is over.
  drain-finished :
      {n : ℕ} (d : Dispatcher sem T) → IsBounded n d → d.running ≡ [] → (drain d).phase ≡ finished
  unfolding drain
  drain-finished d b idle =
      let wanted = d.max_in_flight % u32_mod in
      let all : wanted ≡ d.max_in_flight = omega (arith, b.word) in
      elim (Option-cases (sem.acquire wanted d.semaphore)) [
        | inl e ↦
            absurd (
              omega (arith, sem.acquire-waits wanted d.semaphore e, all, b.permits, ap length idle))
        | inr (st, e) ↦ rw (b.unclosed, e, drain) refl
      ]

  new-IsBounded :
      (max_in_flight : ℕ)
      → max_in_flight < u32_mod
      → IsBounded (max max_in_flight 1) (new {sem = sem} {T = T} max_in_flight)
  unfolding new
  new-IsBounded max_in_flight h = record {
    limit = refl;
    unclosed = refl;
    permits = omega (arith, sem.new-available (max max_in_flight 1));
    word = omega (arith, h);
    over = λ e. cc;
  }

module _ (sem : Semaphore) {T : Type 0} where
  -- For every semaphore that keeps its promises, every `max_in_flight` below 2 ^ 32 and every
  -- sequence of events: a dispatcher runs at most `max_in_flight` handlers at once (one, for 0),
  -- none of them runs once `run` has returned, and once none of them runs the wait after the
  -- loop ends.
  pub run-bounds :
      (max_in_flight : ℕ) (es : List (DispatchEvent T))
      → max_in_flight < u32_mod
      → let d = run es (new {sem = sem} max_in_flight) in
        (length d.running ≤ max max_in_flight 1)
        × (d.phase ≡ finished → d.running ≡ [])
        × (d.running ≡ [] → (drain d).phase ≡ finished)
  run-bounds max_in_flight es h =
      let d = run es (new {sem = sem} max_in_flight) in
      let b = run-IsBounded es (new {sem = sem} max_in_flight) (new-IsBounded max_in_flight h) in
      (omega (arith, b.permits, b.limit), b.over, drain-finished d b)
