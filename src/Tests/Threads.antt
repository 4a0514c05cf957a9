-- ===== src/Tests/Threads.antt =====
-- The thread behind a receiver at small states.
use firq.Async.{DequeueItem}
use firq.Channel.{Channel}
use firq.Async.Worker.{
  worker_dequeue_timeout, ThreadEvent, tested, dequeues, polled_send, received, in_hand, sending,
  ReceiverWorker,
}
use firq.Async.Worker.Order.{run-delivers}
use firq.Async.Worker.Ends.{has_ended, drop_receiver-has_ended}
use firq.Scheduler.Steps.{Step, enqueues, IsSound, Step-IsSound}
use firq.Scheduler.Start.{new-IsValid}
use firq.Scheduler.Core.{Scheduler, new, instant_now}
use firq.Tests.{program, fair_config, enq, alone-Respects}
use firq.Prelude.{◌*◌}
use firq.Prelude.{
  Bool, ℕ, ◌≤◌, ◌+◌, ltb, false, ◌++◌, List, [], ◌∷◌, none, some, ◌≡◌, refl, arith, true,
  if◌then◌else◌, max, length,
}
use firq.Async.Worker
use firq.Tests.{task_of, alone}

-- A scheduler whose clock moves on by 25 milliseconds at each reading.
abbrev coarse_clock : ℕ → ℕ
coarse_clock k = k * 25000000

abbrev coarse : Scheduler ℕ
coarse = enq 1 1 (new coarse_clock fair_config)

coarse_advances : (j : ℕ) → 3 ≤ j → instant_now coarse + worker_dequeue_timeout ≤ coarse.clock j
unfolding program
coarse_advances j h = omega arith

coarse-Step : Step (new coarse_clock fair_config) coarse
unfolding program
coarse-Step = enqueues (new coarse_clock fair_config) 1 (task_of 1) (omega arith)

coarse-IsSound : IsSound coarse
coarse-IsSound = Step-IsSound coarse-Step (new-IsValid coarse_clock fair_config (omega arith))

-- A channel that keeps its items, its capacity and whether it is closed.
queueing : (A : Type 0) → Channel A
queueing A = record {
  State = List A × ℕ × Bool;
  new = λ n. ([], n, false);
  queued = λ st. st.0;
  capacity = λ st. st.1;
  is_closed = λ st. st.2;
  send = λ x st. if ltb (length st.0) st.1 then some (st.0 ++ x ∷ [], st.1, st.2) else none;
  recv = λ st. elim st.0 [ [] ↦ none | x ∷ xs ↦ some (x, (xs, st.1, st.2)) ];
  close = λ st. (st.0, st.1, true);
  new-queued = λ n. refl;
  new-capacity = λ n. refl;
  send-queued = λ x st st' e. ground (arith, e);
  send-room = λ x st st' e. ground (arith, e);
  send-capacity = λ x st st' e. ground (arith, e);
  send-waits = λ x st e. ground (arith, e);
  recv-queued = λ x st st' e. ground (arith, e);
  recv-capacity = λ x st st' e. ground (arith, e);
  recv-is_closed = λ x st st' e. ground (arith, e);
  close-queued = λ st. refl;
  close-capacity = λ st. refl;
  close-is_closed = λ st. refl;
}

abbrev thread_events : List (ThreadEvent ℕ)
thread_events = tested ∷ dequeues alone 2 ∷ polled_send ∷ tested ∷ received ∷ []

run-delivers_example :
    let w = Worker.run thread_events (Worker.new {ch = queueing (DequeueItem ℕ)} coarse 1) in
    ((w.delivered ++ (queueing (DequeueItem ℕ)).queued w.channel) ++ in_hand w.phase ≡ w.taken)
    × (length ((queueing (DequeueItem ℕ)).queued w.channel) ≤ max 1 1)
run-delivers_example = run-delivers (queueing (DequeueItem ℕ)) coarse 1 thread_events

-- A thread that waits for room on a full channel.
abbrev full : (queueing (DequeueItem ℕ)).State
full =
    let empty_channel = (queueing (DequeueItem ℕ)).new 1 in
    elim ((queueing (DequeueItem ℕ)).send (record { tenant = 1; task = task_of 1 }) empty_channel) [
      | none ↦ empty_channel
      | some st ↦ st
    ]

abbrev blocked : ReceiverWorker ℕ (queueing (DequeueItem ℕ))
blocked = record {
  scheduler = coarse;
  channel = full;
  shutdown = false;
  phase = sending (record { tenant = 1; task = task_of 2 });
  taken = [];
  delivered = [];
}

enough_fuel : 3 ≤ coarse.readings + 3
enough_fuel = omega arith

drop_receiver-has_ended_example :
    has_ended
      (Worker.run
        (dequeues alone 4 ∷ polled_send ∷ tested ∷ [])
        (Worker.run [] (Worker.drop_receiver blocked))).phase
    ≡ true
unfolding Worker.run Worker.drop_receiver
drop_receiver-has_ended_example =
    drop_receiver-has_ended (queueing (DequeueItem ℕ)) alone 3 3 blocked [] alone-Respects
      coarse-IsSound coarse_advances enough_fuel
