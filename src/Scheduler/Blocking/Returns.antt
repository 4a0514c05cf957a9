-- ===== src/Scheduler/Blocking/Returns.antt =====
-- `dequeue_blocking_timeout` returns: the clock passes its deadline.
use firq.Prelude.{
  ℕ, zero, suc, ◌+◌, ◌≤◌, ◌≡◌, ◌∙◌, refl, ap, false, arith, Bool-cases, inl, inr, some, leb,
}
use firq.Api.{Instant, Duration, DequeueResult, dequeued, empty, closed}
use firq.Scheduler.Core.{Scheduler, instant_now, tick}
use firq.Scheduler.Shutdown.{should_return_closed}
use firq.Scheduler.Dequeue.{try_dequeue}
use firq.Scheduler.Dequeue.Valid.{try_dequeue-IsValid}
use firq.Scheduler.Dequeue.Fresh.{IsLater, try_dequeue-Fresh}
use firq.Scheduler.Policy.{Others}
use firq.Scheduler.Blocking.{next_spins, dequeue_rounds_until, dequeue_blocking_timeout}
use firq.Scheduler.Commit.{IsValid-ext}
use firq.Scheduler.Ringed.{IsRinged-ext}
use firq.Scheduler.Steps.{IsSound}

-- What the other threads keep: the invariants, and a clock that is read on from where it is.
abbrev pub Respects : {T : Type 0} → Others T → Type 0
Respects {T} others =
    (k : ℕ) (s : Scheduler T)
    → IsSound s
    → IsSound (others k s) × IsLater s.clock s.readings (others k s)

module _ {T : Type 0} (others : Others T) (respects : Respects others) (clock : ℕ → Instant)
    (deadline n : ℕ) (passes : (k : ℕ) → n ≤ k → deadline ≤ clock k) where
  tick-IsSound : (s : Scheduler T) → IsSound s → IsSound (tick (tick s))
  tick-IsSound s h = (
    IsValid-ext s (tick (tick s)) h.0 refl refl refl,
    IsRinged-ext s (tick (tick s)) h.1 refl refl,
  )

  -- One round, whose loop returns if the rounds after it do.
  round-Returns :
      (fuel k spins : ℕ) (s : Scheduler T)
      → let t = (try_dequeue s).0 in
        (leb deadline (instant_now t) ≡ false
          → (r : Scheduler T × DequeueResult T) × (dequeue_rounds_until others fuel
                (suc k)
                (next_spins t.ledger.queue_len_estimate spins)
                deadline
                (others k (tick (tick t)))
              ≡ some r))
        → (r : Scheduler T × DequeueResult T) × (dequeue_rounds_until others
              (suc fuel)
              k
              spins
              deadline
              s
            ≡ some r)
  unfolding dequeue_rounds_until
  round-Returns fuel k spins s later = go (try_dequeue s).1 refl
    where
      t : Scheduler T
      t = (try_dequeue s).0

      go :
          (a : DequeueResult T)
          → (try_dequeue s).1 ≡ a
          → (r : Scheduler T × DequeueResult T) × (dequeue_rounds_until others
                (suc fuel)
                k
                spins
                deadline
                s
              ≡ some r)
      go (dequeued tenant task) e = ((t, dequeued tenant task), rw (e, dequeue_rounds_until) refl)
      go closed e = ((t, closed), rw (e, dequeue_rounds_until) refl)
      go empty e = elim (Bool-cases (should_return_closed t)) [
        | inl c ↦ ((t, closed), rw (e, dequeue_rounds_until, c) refl)
        | inr c ↦ elim (Bool-cases (leb deadline (instant_now t))) [
          | inl d ↦ ((tick t, empty), rw (e, dequeue_rounds_until, c, d) refl)
          | inr d ↦ let (r, q) = later d in (r, rw (e, dequeue_rounds_until, c, d) q)
        ]
      ]

  rounds_until-Returns :
      (fuel k spins : ℕ) (s : Scheduler T)
      → IsSound s
      → s.clock ≡ clock
      → n ≤ s.readings + fuel
      → (r : Scheduler T × DequeueResult T) × (dequeue_rounds_until others
            (suc fuel)
            k
            spins
            deadline
            s
          ≡ some r)
  rounds_until-Returns zero k spins s h c le =
      let t = (try_dequeue s).0 in
      let l = (try_dequeue-Fresh s h.0 h.1).0 in
      round-Returns 0 k spins s (λ d. absurd (
        ground (
          arith,
          d,
          passes t.readings (omega (arith, l.later, le)),
          ap (λ (f : ℕ → Instant). f t.readings) (l.same ∙ c),
        )))
  rounds_until-Returns (suc fuel) k spins s h c le =
      let t = (try_dequeue s).0 in
      let l = (try_dequeue-Fresh s h.0 h.1).0 in
      let u = others k (tick (tick t)) in
      let (h', l') = respects k (tick (tick t)) (tick-IsSound t (try_dequeue-IsValid s h.0 h.1)) in
      round-Returns (suc fuel) k spins s (λ d.
        rounds_until-Returns fuel (suc k) (next_spins t.ledger.queue_len_estimate spins) u h'
          (l'.same ∙ l.same ∙ c) (omega (arith, l'.later, l.later, le)))

-- `dequeue_blocking_timeout` returns a result: where both invariants hold at the call, the other
-- threads keep the invariants and the clock, and every reading from number `n` on is past the
-- deadline, `fuel + 1` rounds are enough once the readings made so far and `fuel` add up to `n`.
pub dequeue_blocking_timeout-Returns :
    {T : Type 0} (others : Others T) (fuel n : ℕ) (wait : Duration) (s : Scheduler T)
    → Respects others
    → IsSound s
    → ((k : ℕ) → n ≤ k → instant_now s + wait ≤ s.clock k)
    → n ≤ s.readings + fuel
    → (r : Scheduler T × DequeueResult T) × (dequeue_blocking_timeout others (suc fuel) wait s
        ≡ some r)
unfolding dequeue_blocking_timeout
dequeue_blocking_timeout-Returns others fuel n wait s respects h passes le =
    rounds_until-Returns others respects s.clock (instant_now s + wait) n passes fuel 0 0 (tick s)
      (IsValid-ext s (tick s) h.0 refl refl refl, IsRinged-ext s (tick s) h.1 refl refl) refl
      (omega (arith, le))
