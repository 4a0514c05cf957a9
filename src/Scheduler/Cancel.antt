-- ===== src/Scheduler/Cancel.antt =====
-- `cancel`.
pub mod Valid
pub mod Laws
use firq.Prelude.{if◌then◌else◌}
use firq.Api.{TaskHandle, CancelResult, cancelled, not_found}
use firq.State.Ledger.{release_reserved_slots, take_pending, mark_cancelled}
use firq.Scheduler.Core.{Scheduler, notify_all}

module _ {T : Type 0} where
  unfoldable pub cancel : TaskHandle → Scheduler T → Scheduler T × CancelResult
  cancel id s =
      let (live, g) = take_pending id s.ledger in
      if live
      then (
        notify_all (record s { ledger = release_reserved_slots 1 (mark_cancelled id g) }),
        cancelled,
      )
      else (s, not_found)
