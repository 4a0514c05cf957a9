-- ===== src/State/Ledger.antt =====
-- crates/firq-core/src/scheduler.rs: the fields of `Scheduler` and `StatsCounters` that count live
-- tasks, and the methods that touch nothing else: reserving and releasing a slot of the global
-- limit, issuing handles, and the sets of pending and of cancelled ids. A compare-and-swap loop is
-- its one round that succeeds.
use firq.Prelude.{
  ℕ, ◌+◌, ◌-◌, ◌%◌, Bool, true, false, List, [], leb, if◌then◌else◌, contains, insert, remove,
  u64_mod,
}
use firq.Api.{TaskHandle}

pub record Ledger : Type 0 where
  pub queue_len_estimate : ℕ
  pub next_task_id : ℕ
  pub pending_ids : List ℕ
  pub cancelled_ids : List ℕ

unfoldable pub new : Ledger
new = record { queue_len_estimate = 0; next_task_id = 0; pending_ids = []; cancelled_ids = [] }

unfoldable pub try_reserve_slot : ℕ → Ledger → Bool × Ledger
try_reserve_slot max_global g =
    if leb max_global g.queue_len_estimate
    then (false, g)
    else (true, record g { queue_len_estimate = g.queue_len_estimate + 1 })

-- `saturating_sub`, which is the subtraction of ℕ.
unfoldable pub release_reserved_slots : ℕ → Ledger → Ledger
release_reserved_slots delta g = record g { queue_len_estimate = g.queue_len_estimate - delta }

unfoldable pub next_handle : Ledger → TaskHandle × Ledger
next_handle g = let id = (g.next_task_id + 1) % u64_mod in (id, record g { next_task_id = id })

unfoldable pub register_pending : TaskHandle → Ledger → Ledger
register_pending handle g = record g { pending_ids = insert handle g.pending_ids }

unfoldable pub take_pending : ℕ → Ledger → Bool × Ledger
take_pending id g = (contains id g.pending_ids, record g { pending_ids = remove id g.pending_ids })

unfoldable pub mark_cancelled : ℕ → Ledger → Ledger
mark_cancelled id g = record g { cancelled_ids = insert id g.cancelled_ids }

unfoldable pub take_cancelled_marker : ℕ → Ledger → Bool × Ledger
take_cancelled_marker id g =
    (contains id g.cancelled_ids, record g { cancelled_ids = remove id g.cancelled_ids })

unfoldable pub clear_cancelled_marker : ℕ → Ledger → Ledger
clear_cancelled_marker id g = record g { cancelled_ids = remove id g.cancelled_ids }
