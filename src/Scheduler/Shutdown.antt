-- ===== src/Scheduler/Shutdown.antt =====
-- Closing: `set_shutdown_mode` and the tests on the shutdown state.
pub mod Laws
use firq.Prelude.{ℕ, Bool, true, false, ◌==◌, ◌&&◌, if◌then◌else◌}
use firq.Api.{CloseMode, immediate, drain}
use firq.Scheduler.Core.{Scheduler, shutdown_open, shutdown_drain, shutdown_immediate, notify_all}

abbrev pub mode_target : CloseMode → ℕ
mode_target immediate = shutdown_immediate
mode_target drain = shutdown_drain

-- The match on the current state and the target: the state only ever rises.
unfoldable pub next_shutdown : ℕ → ℕ → ℕ
next_shutdown current target =
    if current == shutdown_immediate
    then shutdown_immediate
    else if target == shutdown_immediate
    then shutdown_immediate
    else if (current == shutdown_open) && (target == shutdown_drain)
    then shutdown_drain
    else current

module _ {T : Type 0} where
  unfoldable pub is_accepting_enqueues : Scheduler T → Bool
  is_accepting_enqueues s = s.shutdown_state == shutdown_open

  unfoldable pub should_return_closed : Scheduler T → Bool
  should_return_closed s =
      if s.shutdown_state == shutdown_immediate
      then true
      else if s.shutdown_state == shutdown_drain
      then s.ledger.queue_len_estimate == 0
      else false

  unfoldable pub set_shutdown_mode : CloseMode → Scheduler T → Scheduler T
  unfolding next_shutdown notify_all
  set_shutdown_mode mode s =
      let next = next_shutdown s.shutdown_state (mode_target mode) in
      if next == s.shutdown_state then s else notify_all (record s { shutdown_state = next })

  unfoldable pub close_immediate : Scheduler T → Scheduler T
  unfolding set_shutdown_mode
  close_immediate = set_shutdown_mode immediate

  unfoldable pub close : Scheduler T → Scheduler T
  unfolding close_immediate
  close = close_immediate

  unfoldable pub close_drain : Scheduler T → Scheduler T
  unfolding set_shutdown_mode
  close_drain = set_shutdown_mode drain

  unfoldable pub close_with_mode : CloseMode → Scheduler T → Scheduler T
  unfolding set_shutdown_mode
  close_with_mode = set_shutdown_mode
