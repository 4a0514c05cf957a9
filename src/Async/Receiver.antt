-- ===== src/Async/Receiver.antt =====
-- The receiver against the blocking dequeue that it calls.
use firq.Prelude.{ℕ, zero, suc, ◌≡◌, ◌≢◌, refl, false, Option, none, some, Bool-cases, inl, inr}
use firq.Api.{DequeueResult, dequeued, empty, closed}
use firq.Scheduler.Core.{Scheduler}
use firq.Scheduler.Shutdown.{should_return_closed}
use firq.Scheduler.Policy.{Others}
use firq.Scheduler.Dequeue.{try_dequeue}
use firq.Scheduler.Blocking.{still_asleep, dequeue_rounds, dequeue_blocking}
use firq.Async.{
  Join, completed, failed, wrap_some, AsyncScheduler, DequeueItem, dequeue_async, item_of, recv,
}

-- What `recv` answers to a result that is not `empty`.
abbrev pub received : {T : Type 0} → DequeueResult T → Option (DequeueItem T)
received (dequeued tenant task) = some (record { tenant = tenant; task = task })
received closed = none
received empty = none

-- The answers of `recv` to a whole dequeue.
abbrev pub after :
    {T : Type 0}
    → Option (AsyncScheduler T × DequeueResult T)
    → Option (AsyncScheduler T × Option (DequeueItem T))
after none = none
after (some (a, result)) = some (a, received result)

module _ {T : Type 0} (others : Others T) where
  -- The blocking dequeue never answers `empty`.
  dequeue_rounds-not_empty :
      (fuel k spins : ℕ) (sleep : Option ℕ) (s s' : Scheduler T)
      → dequeue_rounds others fuel k spins sleep s ≢ some (s', empty)
  unfolding dequeue_rounds
  dequeue_rounds-not_empty zero k spins sleep s s' e = cc
  dequeue_rounds-not_empty (suc fuel) k spins sleep s s' e =
      elim (Bool-cases (still_asleep sleep s)) [
        | inl a ↦ dequeue_rounds-not_empty fuel _ _ _ _ s' (rw (a, dequeue_rounds) at e)
        | inr a ↦ go (dequeue_rounds-not_empty fuel) a (try_dequeue s).1 refl e
      ]
    where
      go :
          ((k spins : ℕ) (sleep : Option ℕ) (s s' : Scheduler T)
            → dequeue_rounds others fuel k spins sleep s ≢ some (s', empty))
          → still_asleep sleep s ≡ false
          → (a : DequeueResult T) → (try_dequeue s).1 ≡ a
          → dequeue_rounds others (suc fuel) k spins sleep s ≢ some (s', empty)
      go later awake (dequeued tenant task) h e = cc
      go later awake closed h e = cc
      go later awake empty h e = elim (Bool-cases (should_return_closed (try_dequeue s).0)) [
        | inl c ↦ cc
        | inr c ↦ later _ _ _ _ s' (rw (awake, h, c, dequeue_rounds) at e)
      ]

  dequeue_async-not_empty :
      (joined : Join T) (rounds : ℕ) (a a' : AsyncScheduler T)
      → dequeue_async others joined rounds a ≢ some (a', empty)
  unfolding dequeue_async dequeue_blocking
  dequeue_async-not_empty completed rounds a a' e =
      go (dequeue_rounds others rounds 0 0 none a.inner)
        (dequeue_rounds-not_empty rounds 0 0 none a.inner) e
    where
      go :
          (o : Option (Scheduler T × DequeueResult T))
          → ((s' : Scheduler T) → o ≢ some (s', empty))
          → wrap_some o ≢ some (a', empty)
      go none h e = cc
      go (some (s', dequeued tenant task)) h e = cc
      go (some (s', closed)) h e = cc
      go (some (s', empty)) h e = h s' refl
  dequeue_async-not_empty (failed left) rounds a a' e = cc

  -- `recv` never goes round its loop: with any fuel but zero it answers what one `dequeue_async`
  -- answers, a task as an item and `closed` as no item, since the blocking dequeue behind it
  -- never answers `empty`.
  pub recv-dequeue_async :
      (joined : ℕ → Join T) (rounds fuel k : ℕ) (a : AsyncScheduler T)
      → recv others joined rounds (suc fuel) k a ≡ after (dequeue_async others (joined k) rounds a)
  unfolding recv item_of
  recv-dequeue_async joined rounds fuel k a = go (dequeue_async others (joined k) rounds a) refl
    where
      go :
          (o : Option (AsyncScheduler T × DequeueResult T))
          → dequeue_async others (joined k) rounds a ≡ o
          → recv others joined rounds (suc fuel) k a
            ≡ after (dequeue_async others (joined k) rounds a)
      go none e = rw (e, recv) refl
      go (some (a', dequeued tenant task)) e = rw (e, recv) refl
      go (some (a', closed)) e = rw (e, recv) refl
      go (some (a', empty)) e = absurd (dequeue_async-not_empty (joined k) rounds a a' e)
