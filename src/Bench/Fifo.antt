-- ===== src/Bench/Fifo.antt =====
-- crates/firq-bench/src/main.rs: `FifoQueue`, the baseline. The mutex makes each section one step; a
-- thread that waits on the condition variable tries again after what others do.
pub mod Order
use firq.Prelude.{
  ℕ, zero, suc, ◌+◌, ◌%◌, u64_mod, Bool, true, false, List, [], ◌∷◌, ◌++◌, Option, none, some, leb,
  length, if◌then◌else◌,
}
use firq.Api.{Task}

pub record FifoQueue (T : Type 0) : Type 0 where
  pub queue : List (Task T)
  pub closed : Bool
  pub max_global : ℕ
  pub dropped : ℕ

module _ {T : Type 0} where
  unfoldable pub new : ℕ → FifoQueue T
  new max_global = record { queue = []; closed = false; max_global = max_global; dropped = 0 }

  unfoldable pub enqueue : Task T → FifoQueue T → FifoQueue T × Bool
  enqueue task q =
      if q.closed
      then (q, false)
      else if leb q.max_global (length q.queue)
      then (record q { dropped = (q.dropped + 1) % u64_mod }, false)
      else (record q { queue = q.queue ++ task ∷ [] }, true)

  -- One round of `dequeue_blocking`: its answer, or none where the thread goes to sleep.
  unfoldable pub dequeue_round : FifoQueue T → FifoQueue T × Option (Option (Task T))
  dequeue_round q = elim q.queue [
    | task ∷ rest ↦ (record q { queue = rest }, some (some task))
    | [] ↦ (q, if q.closed then some none else none)
  ]

  unfoldable pub close : FifoQueue T → FifoQueue T
  close q = record q { closed = true }

-- The calls, in the order of their sections.
pub data FifoCall (T : Type 0) : Type 0 where
  enqueues : Task T → FifoCall T
  dequeues closes : FifoCall T

-- A queue at work, with the tasks that it has accepted and those that it has given, oldest first.
pub record FifoRun (T : Type 0) : Type 0 where
  pub fifo : FifoQueue T
  pub accepted : List (Task T)
  pub given : List (Task T)

module _ {T : Type 0} where
  abbrev pub given_of : Option (Option (Task T)) → List (Task T)
  given_of (some (some task)) = task ∷ []
  given_of (some none) = []
  given_of none = []

  unfoldable pub call : FifoCall T → FifoRun T → FifoRun T
  unfolding enqueue dequeue_round close
  call (enqueues task) r =
      let (q, taken) = enqueue task r.fifo in
      record r { fifo = q; accepted = if taken then r.accepted ++ task ∷ [] else r.accepted }
  call dequeues r =
      let (q, answer) = dequeue_round r.fifo in
      record r { fifo = q; given = r.given ++ given_of answer }
  call closes r = record r { fifo = close r.fifo }

  unfoldable pub run : List (FifoCall T) → FifoRun T → FifoRun T
  run [] r = r
  run (c ∷ cs) r = run cs (call c r)
