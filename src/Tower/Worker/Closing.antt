-- ===== src/Tower/Worker/Closing.antt =====
-- How a close reaches a thread that sleeps on the work signal.
use firq.Prelude.{◌≡◌, ◌≢◌, refl, arith, true, false, ◌==◌}
use firq.Api.{closed}
use firq.State.Signal.{changed}
use firq.Scheduler.Core.{Scheduler, shutdown_immediate, notify_all}
use firq.Scheduler.Shutdown.{
  close_immediate, set_shutdown_mode, next_shutdown, should_return_closed,
}
use firq.Scheduler.Dequeue.{try_dequeue}

module _ {T : Type 0} where
  abbrev pub IsImmediate : Scheduler T → Type 0
  IsImmediate s = s.shutdown_state ≡ shutdown_immediate

  pub close_immediate-IsImmediate : (s : Scheduler T) → IsImmediate (close_immediate s)
  unfolding close_immediate set_shutdown_mode next_shutdown notify_all
  close_immediate-IsImmediate s = ground arith

  pub try_dequeue-immediate : (s : Scheduler T) → IsImmediate s → try_dequeue s ≡ (s, closed)
  unfolding try_dequeue
  try_dequeue-immediate s h =
      let e : (s.shutdown_state == shutdown_immediate) ≡ true = ground (arith, h) in rw e refl

  -- What an action of another thread keeps: a closed scheduler stays closed, and a thread that
  -- closes it changes the work signal.
  pub record Notifies (s s' : Scheduler T) : Type 0 where
    pub stays : IsImmediate s → IsImmediate s'
    pub wakes : IsImmediate s' → ¬ IsImmediate s → s'.work_signal.seq ≢ s.work_signal.seq

  pub close_immediate-Notifies : (s : Scheduler T) → Notifies s (close_immediate s)
  unfolding close_immediate set_shutdown_mode next_shutdown notify_all firq.State.Signal.notify_all
  close_immediate-Notifies s = record {
    stays = λ h. close_immediate-IsImmediate s;
    wakes = λ closed_now before. ground (arith, before);
  }

  pub not_closed_not-IsImmediate :
      (s : Scheduler T) → should_return_closed s ≡ false → ¬ IsImmediate s
  unfolding should_return_closed
  not_closed_not-IsImmediate s h i = ground (arith, h, i)

  pub try_dequeue-IsImmediate : (s : Scheduler T) → IsImmediate s → IsImmediate (try_dequeue s).0
  try_dequeue-IsImmediate s h = rw (try_dequeue-immediate s h) h
