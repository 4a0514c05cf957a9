-- ===== src/Async/Worker/Ends.antt =====
-- The thread behind a receiver ends once the receiver has been dropped.
use firq.Prelude.{
  ℕ, suc, ◌+◌, ◌≤◌, ◌≡◌, ◌∙◌, refl, true, false, Bool, List, [], ◌∷◌, some, Option-cases, inl, inr,
}
use firq.Api.{DequeueResult, dequeued, empty, closed}
use firq.Channel.{Channel}
use firq.Scheduler.Core.{Scheduler, instant_now}
use firq.Scheduler.Policy.{Others}
use firq.Scheduler.Blocking.{dequeue_blocking_timeout}
use firq.Scheduler.Blocking.Returns.{Respects, dequeue_blocking_timeout-Returns}
use firq.Scheduler.Steps.{IsSound}
use firq.Async.{DequeueItem}
use firq.Async.Worker.{
  worker_dequeue_timeout, ThreadPhase, testing, dequeuing, sending, ended, ThreadEvent, tested,
  polled_send, received, receiver_dropped, dequeues, acts, ReceiverWorker, take_answer,
  blocking_send, recv_item, drop_receiver, advance, run,
}

abbrev pub has_ended : {T : Type 0} → ThreadPhase T → Bool
has_ended testing = false
has_ended dequeuing = false
has_ended (sending item) = false
has_ended (ended lost) = true

module _ {T : Type 0} {ch : Channel (DequeueItem T)} where
  -- The receiver is gone: its channel is closed and the thread's flag is set.
  record IsDropped (w : ReceiverWorker T ch) : Type 0 where
    pub shut : ch.is_closed w.channel ≡ true
    pub flag : w.shutdown ≡ true

  take_answer-IsDropped :
      (result : DequeueResult T) (w : ReceiverWorker T ch)
      → IsDropped w
      → IsDropped (take_answer result w)
  unfolding take_answer
  take_answer-IsDropped (dequeued tenant task) w c = record { shut = c.shut; flag = c.flag }
  take_answer-IsDropped closed w c = record { shut = c.shut; flag = c.flag }
  take_answer-IsDropped empty w c = record { shut = c.shut; flag = c.flag }

  advance-IsDropped :
      (e : ThreadEvent T) (phase : ThreadPhase T) (w : ReceiverWorker T ch)
      → IsDropped w
      → IsDropped (advance e phase w)
  unfolding advance blocking_send recv_item drop_receiver
  advance-IsDropped tested testing w c = rw c.flag (record { shut = c.shut; flag = refl })
  advance-IsDropped (dequeues others fuel) dequeuing w c =
      elim (Option-cases
        (dequeue_blocking_timeout others fuel worker_dequeue_timeout w.scheduler)) [
          | inl e ↦ rw (e, advance) c
          | inr ((s, result), e) ↦
              rw (e, advance)
                (take_answer-IsDropped result (record w { scheduler = s })
                  (record { shut = c.shut; flag = c.flag }))
        ]
  advance-IsDropped polled_send (sending item) w c =
      rw c.shut (record { shut = c.shut; flag = c.flag })
  advance-IsDropped received phase w c = elim (Option-cases (ch.recv w.channel)) [
    | inl e ↦ rw (e, recv_item) c
    | inr ((item, st), e) ↦
        rw (e, recv_item)
          (record { shut = ch.recv-is_closed item w.channel st e ∙ c.shut; flag = c.flag })
  ]
  advance-IsDropped receiver_dropped phase w c = record {
    shut = ch.close-is_closed w.channel;
    flag = refl;
  }
  advance-IsDropped (acts action) phase w c = record { shut = c.shut; flag = c.flag }
  advance-IsDropped e phase w c = c

  run-IsDropped :
      (es : List (ThreadEvent T)) (w : ReceiverWorker T ch) → IsDropped w → IsDropped (run es w)
  unfolding run
  run-IsDropped [] w c = c
  run-IsDropped (e ∷ es) w c = run-IsDropped es _ (advance-IsDropped e w.phase w c)

  drop_receiver-IsDropped : (w : ReceiverWorker T ch) → IsDropped (drop_receiver w)
  unfolding drop_receiver
  drop_receiver-IsDropped w = record { shut = ch.close-is_closed w.channel; flag = refl }

  -- The thread's own two events after its dequeue.
  answer_ends :
      (result : DequeueResult T) (w : ReceiverWorker T ch)
      → IsDropped w
      → has_ended (run (polled_send ∷ tested ∷ []) (take_answer result w)).phase ≡ true
  unfolding run advance take_answer blocking_send
  answer_ends (dequeued tenant task) w c = rw c.shut refl
  answer_ends closed w c = refl
  answer_ends empty w c = rw c.flag refl

  thread_ends :
      (others : Others T) (fuel : ℕ) (phase : ThreadPhase T) (w : ReceiverWorker T ch)
      → w.phase ≡ phase
      → IsDropped w
      → (r : Scheduler T × DequeueResult T) × (dequeue_blocking_timeout others fuel
            worker_dequeue_timeout w.scheduler
          ≡ some r)
      → has_ended (run (dequeues others fuel ∷ polled_send ∷ tested ∷ []) w).phase ≡ true
  unfolding run advance blocking_send
  thread_ends others fuel testing w h c r = rw (h, c.flag) refl
  thread_ends others fuel dequeuing w h c ((s, result), e) =
      rw (h, e, advance)
        (answer_ends result (record w { scheduler = s; phase = dequeuing })
          (record { shut = c.shut; flag = c.flag }))
  thread_ends others fuel (sending item) w h c r = rw (h, c.shut) refl
  thread_ends others fuel (ended lost) w h c r = rw h refl

module _ {T : Type 0} (ch : Channel (DequeueItem T)) where
  -- After the receiver has been dropped, whatever has happened since, the thread behind it ends
  -- by its own next steps, also where it waits for room on a full channel: at the end of its
  -- dequeue, at its send or at the test of its flag; where both invariants hold, the other
  -- threads keep the invariants and the clock, every reading from number `n` on is 25
  -- milliseconds later, and the readings made so far and `fuel` add up to `n`.
  pub drop_receiver-has_ended :
      (others : Others T) (fuel n : ℕ) (dropped : ReceiverWorker T ch) (es : List (ThreadEvent T))
      → let w = run es (drop_receiver dropped) in
        Respects others
        → IsSound w.scheduler
        → ((k : ℕ) → n ≤ k → instant_now w.scheduler + worker_dequeue_timeout ≤ w.scheduler.clock k)
        → n ≤ w.scheduler.readings + fuel
        → has_ended (run (dequeues others (suc fuel) ∷ polled_send ∷ tested ∷ []) w).phase ≡ true
  drop_receiver-has_ended others fuel n dropped es respects sound passes le =
      let w = run es (drop_receiver dropped) in
      thread_ends others (suc fuel) w.phase w refl
        (run-IsDropped es (drop_receiver dropped) (drop_receiver-IsDropped dropped))
        (dequeue_blocking_timeout-Returns others fuel n worker_dequeue_timeout w.scheduler respects
          sound passes le)
