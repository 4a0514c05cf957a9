-- ===== src/Tower/Calls/Guard.antt =====
-- The guard of a waiting call: which ends of a call cancel its task.
use firq.Prelude.{◌≡◌, true, false, contains}
use firq.Api.{TaskHandle}
use firq.Scheduler.Core.{Scheduler}
use firq.Scheduler.Cancel.Laws.{cancel-not_pending}
use firq.Scheduler.Valid.{IsValid}
use firq.Tower.Calls.{admitted, waiting, lost, dropped, advance}

module _ (R E : Type 0) {T : Type 0} where
  -- For a valid scheduler and a pending task: when a call that waits for its permit loses its
  -- sender or is dropped, the task is no longer pending; when a call is dropped before its first
  -- poll, the task stays pending.
  pub advance-guard :
      (h : TaskHandle) (s : Scheduler T)
      → IsValid s
      → contains h s.ledger.pending_ids ≡ true
      → (contains h (advance {R = R} {E = E} lost (waiting h) s).0.ledger.pending_ids ≡ false)
        × (contains h (advance {R = R} {E = E} dropped (waiting h) s).0.ledger.pending_ids ≡ false)
        × (contains h (advance {R = R} {E = E} dropped (admitted h) s).0.ledger.pending_ids ≡ true)
  unfolding advance
  advance-guard h s v p = (cancel-not_pending h s v, cancel-not_pending h s v, p)
