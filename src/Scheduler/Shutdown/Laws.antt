-- ===== src/Scheduler/Shutdown/Laws.antt =====
-- Closing: the shutdown state, and the invariant.
use firq.Prelude.{◌≤◌, ◌≡◌, refl, arith, max}
use firq.Api.{CloseMode, immediate, drain}
use firq.Scheduler.Core.{Scheduler, notify_all, shutdown_immediate}
use firq.Scheduler.Shutdown.{mode_target, next_shutdown, set_shutdown_mode, close_with_mode}
use firq.Scheduler.Valid.{IsValid}
use firq.Scheduler.Commit.{IsValid-ext}
use firq.Scheduler.Ringed.{IsRinged, IsRinged-ext}

module _ {T : Type 0} where
  close_parts :
      (mode : CloseMode) (s : Scheduler T)
      → let t = close_with_mode mode s in
        (t.config ≡ s.config)
        × (t.shards ≡ s.shards)
        × (t.ledger ≡ s.ledger)
        × (t.active_shards ≡ s.active_shards)
  unfolding close_with_mode set_shutdown_mode notify_all
  close_parts mode s = ground arith

  pub close_with_mode-IsValid :
      (mode : CloseMode) (s : Scheduler T)
      → IsValid s
      → IsRinged s
      → IsValid (close_with_mode mode s) × IsRinged (close_with_mode mode s)
  close_with_mode-IsValid mode s v w =
      let (c, sh, g, a) = close_parts mode s in
      (IsValid-ext s _ v c sh g, IsRinged-ext s _ w a (rw sh refl))

  -- From any of the three shutdown states, the state after `close_with_mode` is the larger of
  -- the state before and the one that the mode asks for.
  pub close_with_mode-max :
      (mode : CloseMode) (s : Scheduler T)
      → s.shutdown_state ≤ shutdown_immediate
      → (close_with_mode mode s).shutdown_state ≡ max s.shutdown_state (mode_target mode)
  unfolding close_with_mode set_shutdown_mode notify_all next_shutdown
  close_with_mode-max immediate s h = ground arith
  close_with_mode-max drain s h = ground arith
