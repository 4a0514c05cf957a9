-- ===== src/Async/Worker.antt =====
-- crates/firq-async/src/lib.rs: the thread behind `AsyncWorkerReceiver`, its channel and its end. The
-- channel is tokio's, an interface with laws. The thread's own steps, what other threads do to the
-- scheduler, what the consumer takes and the drop of the receiver arrive as events.
pub mod Order
pub mod Ends
use firq.Prelude.{ℕ, Bool, true, false, Option, none, some, List, [], ◌∷◌, ◌++◌, max, if◌then◌else◌}
use firq.Api.{Duration, DequeueResult, dequeued, empty, closed}
use firq.Channel.{Channel}
use firq.Scheduler.Core.{Scheduler}
use firq.Scheduler.Policy.{Others}
use firq.Scheduler.Blocking.{dequeue_blocking_timeout}
use firq.Async.{DequeueItem}

-- 25 milliseconds, in nanoseconds.
abbrev pub worker_dequeue_timeout : Duration
worker_dequeue_timeout = 25000000

-- Where the thread stands: before the test of its flag, at its dequeue, with an item that waits for
-- room on the channel, or done, perhaps with an item that found the channel closed.
pub data ThreadPhase (T : Type 0) : Type 0 where
  testing dequeuing : ThreadPhase T
  sending : DequeueItem T → ThreadPhase T
  ended : Option (DequeueItem T) → ThreadPhase T

-- The thread tests its flag; its dequeue ends, with what other threads do while it waits; its
-- blocked send is tried; the consumer takes an item; the receiver is dropped; another thread acts on
-- the scheduler.
pub data ThreadEvent (T : Type 0) : Type 0 where
  tested polled_send received receiver_dropped : ThreadEvent T
  dequeues : Others T → ℕ → ThreadEvent T
  acts : (Scheduler T → Scheduler T) → ThreadEvent T

-- The item of a phase.
abbrev pub in_hand : {T : Type 0} → ThreadPhase T → List (DequeueItem T)
in_hand testing = []
in_hand dequeuing = []
in_hand (sending item) = item ∷ []
in_hand (ended none) = []
in_hand (ended (some item)) = item ∷ []

module _ (T : Type 0) (ch : Channel (DequeueItem T)) where
  -- `taken` are the items that the thread's dequeues have given and `delivered` those that the
  -- consumer has received, both oldest first.
  pub record ReceiverWorker : Type 0 where
    pub scheduler : Scheduler T
    pub channel : ch.State
    pub shutdown : Bool
    pub phase : ThreadPhase T
    pub taken : List (DequeueItem T)
    pub delivered : List (DequeueItem T)

module _ {T : Type 0} {ch : Channel (DequeueItem T)} where
  -- `AsyncWorkerReceiver::new`; the channel has room for an item at least.
  unfoldable pub new : Scheduler T → ℕ → ReceiverWorker T ch
  new scheduler buffer = record {
    scheduler = scheduler;
    channel = ch.new (max buffer 1);
    shutdown = false;
    phase = testing;
    taken = [];
    delivered = [];
  }

  -- The match on what the dequeue answers.
  unfoldable pub take_answer : DequeueResult T → ReceiverWorker T ch → ReceiverWorker T ch
  take_answer (dequeued tenant task) w =
      let item : DequeueItem T = record { tenant = tenant; task = task } in
      record w { phase = sending item; taken = w.taken ++ item ∷ [] }
  take_answer closed w = record w { phase = ended none }
  take_answer empty w = record w { phase = testing }

  -- `blocking_send`: it fails on a closed channel and waits on a full one.
  unfoldable pub blocking_send : DequeueItem T → ReceiverWorker T ch → ReceiverWorker T ch
  blocking_send item w =
      if ch.is_closed w.channel
      then record w { phase = ended (some item) }
      else elim (ch.send item w.channel) [
        | none ↦ w
        | some st ↦ record w { channel = st; phase = testing }
      ]

  -- `AsyncWorkerReceiver::recv` and its `poll_next`, where an item is there.
  unfoldable pub recv_item : ReceiverWorker T ch → ReceiverWorker T ch
  recv_item w = elim (ch.recv w.channel) [
    | none ↦ w
    | some (item, st) ↦ record w { channel = st; delivered = w.delivered ++ item ∷ [] }
  ]

  -- `WorkerThreadHandle::drop`, up to the join of the thread.
  abbrev pub drop_handle : ReceiverWorker T ch → ReceiverWorker T ch
  drop_handle w = record w { shutdown = true }

  -- `AsyncWorkerReceiver::drop`, after which the fields are dropped.
  unfoldable pub drop_receiver : ReceiverWorker T ch → ReceiverWorker T ch
  drop_receiver w = drop_handle (record w { channel = ch.close w.channel })

  -- One event; one that cannot happen in a phase changes nothing.
  unfoldable pub advance : ThreadEvent T → ThreadPhase T → ReceiverWorker T ch → ReceiverWorker T ch
  advance tested testing w =
      if w.shutdown then record w { phase = ended none } else record w { phase = dequeuing }
  advance (dequeues others fuel) dequeuing w =
      elim (dequeue_blocking_timeout others fuel worker_dequeue_timeout w.scheduler) [
        | none ↦ w
        | some (s, result) ↦ take_answer result (record w { scheduler = s })
      ]
  advance polled_send (sending item) w = blocking_send item w
  advance received phase w = recv_item w
  advance receiver_dropped phase w = drop_receiver w
  advance (acts action) phase w = record w { scheduler = action w.scheduler }
  advance e phase w = w

  unfoldable pub run : List (ThreadEvent T) → ReceiverWorker T ch → ReceiverWorker T ch
  run [] w = w
  run (e ∷ es) w = run es (advance e w.phase w)
