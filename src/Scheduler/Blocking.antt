-- ===== src/Scheduler/Blocking.antt =====
-- `dequeue_blocking` and `dequeue_blocking_timeout`. Other threads act between two rounds, while
-- this one spins or sleeps on the work signal; a loop that has used up its fuel gives `none`. A sleep
-- without a timeout goes on until the signal has changed; one with a timeout may end at any time.
pub mod Returns
use firq.Prelude.{
  ℕ, zero, suc, ◌+◌, Bool, not, Option, none, some, true, false, ltb, leb, if◌then◌else◌, sat_add32,
}
use firq.Api.{Instant, Duration, DequeueResult, dequeued, empty, closed}
use firq.State.Signal.{current, changed}
use firq.Scheduler.Core.{Scheduler, instant_now, tick}
use firq.Scheduler.Shutdown.{should_return_closed}
use firq.Scheduler.Dequeue.{try_dequeue}
use firq.Scheduler.Policy.{Others}

abbrev pub backoff_spins : ℕ
backoff_spins = 64

-- The spin counter for the next round: it starts again after a sleep.
abbrev pub next_spins : ℕ → ℕ → ℕ
next_spins estimate spins =
    if ltb 0 estimate
    then (if leb backoff_spins (sat_add32 spins 1) then 0 else sat_add32 spins 1)
    else 0

-- The sleep of a thread that has seen the signal at some number, and is not woken yet.
unfoldable pub still_asleep : {T : Type 0} → Option ℕ → Scheduler T → Bool
still_asleep none s = false
still_asleep (some observed) s = not (changed s.work_signal observed)

-- The sleep that follows an empty round: none while the estimate says that there are tasks.
abbrev pub sleep_after : ℕ → ℕ → Option ℕ
sleep_after estimate observed = if ltb 0 estimate then none else some observed

module _ {T : Type 0} (others : Others T) where
  -- `sleep` is the number that the thread waits to see changed, if it is in `wait_for_change`.
  unfoldable pub dequeue_rounds :
      ℕ → ℕ → ℕ → Option ℕ → Scheduler T → Option (Scheduler T × DequeueResult T)
  dequeue_rounds zero k spins sleep s = none
  dequeue_rounds (suc fuel) k spins sleep s = elim (still_asleep sleep s) [
    | true ↦ dequeue_rounds fuel (suc k) spins sleep (others k s)
    | false ↦
        let observed = current s.work_signal in
        let (s', result) = try_dequeue s in
        elim result [
          | dequeued tenant task ↦ some (s', dequeued tenant task)
          | closed ↦ some (s', closed)
          | empty ↦ elim (should_return_closed s') [
            | true ↦ some (s', closed)
            | false ↦
                let estimate = s'.ledger.queue_len_estimate in
                dequeue_rounds fuel (suc k) (next_spins estimate spins)
                  (sleep_after estimate observed) (others k s')
          ]
        ]
  ]

  unfoldable pub dequeue_blocking : ℕ → Scheduler T → Option (Scheduler T × DequeueResult T)
  dequeue_blocking fuel s = dequeue_rounds fuel 0 0 none s

  unfoldable pub dequeue_rounds_until :
      ℕ → ℕ → ℕ → Instant → Scheduler T → Option (Scheduler T × DequeueResult T)
  dequeue_rounds_until zero k spins deadline s = none
  dequeue_rounds_until (suc fuel) k spins deadline s =
      let (s', result) = try_dequeue s in
      elim result [
        | dequeued tenant task ↦ some (s', dequeued tenant task)
        | closed ↦ some (s', closed)
        | empty ↦ elim (should_return_closed s') [
          | true ↦ some (s', closed)
          | false ↦ elim (leb deadline (instant_now s')) [
            | true ↦ some (tick s', empty)
            | false ↦
                dequeue_rounds_until fuel (suc k) (next_spins s'.ledger.queue_len_estimate spins)
                  deadline (others k (tick (tick s')))
          ]
        ]
      ]

  unfoldable pub dequeue_blocking_timeout :
      ℕ → Duration → Scheduler T → Option (Scheduler T × DequeueResult T)
  dequeue_blocking_timeout fuel wait s =
      dequeue_rounds_until fuel 0 0 (instant_now s + wait) (tick s)
