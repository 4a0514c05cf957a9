-- ===== src/Async/Worker/Order.antt =====
-- What a receiver with a thread behind it delivers, and how much its channel holds.
use firq.Prelude.{
  ℕ, ◌≤◌, ◌≡◌, ◌∙◌, refl, sym, ap, arith, max, List, [], ◌∷◌, ◌++◌, append-nil, append_assoc,
  length, length-append, Option-cases, Bool-cases, inl, inr,
}
use firq.Api.{DequeueResult, dequeued, empty, closed}
use firq.Channel.{Channel}
use firq.Scheduler.Core.{Scheduler}
use firq.Scheduler.Blocking.{dequeue_blocking_timeout}
use firq.Async.{DequeueItem}
use firq.Async.Worker.{
  worker_dequeue_timeout, ThreadPhase, testing, dequeuing, sending, in_hand, ThreadEvent, tested,
  polled_send, received, receiver_dropped, dequeues, acts, ReceiverWorker, new, take_answer,
  blocking_send, recv_item, drop_receiver, advance, run,
}

module _ {T : Type 0} {ch : Channel (DequeueItem T)} where
  -- The items in front of the thread, and the one in its hand, are those that it has taken.
  record IsOrdered (n : ℕ) (w : ReceiverWorker T ch) : Type 0 where
    pub order : (w.delivered ++ ch.queued w.channel) ++ in_hand w.phase ≡ w.taken
    pub limit : ch.capacity w.channel ≡ n
    pub room : length (ch.queued w.channel) ≤ n

  take_answer-IsOrdered :
      {n : ℕ} (result : DequeueResult T) (w : ReceiverWorker T ch)
      → in_hand w.phase ≡ []
      → IsOrdered n w
      → IsOrdered n (take_answer result w)
  unfolding take_answer
  take_answer-IsOrdered (dequeued tenant task) w h c = record {
    order =
        ap (λ xs. xs ++ record { tenant = tenant; task = task } ∷ [])
          (sym (append-nil (w.delivered ++ ch.queued w.channel)) ∙ rw h at c.order);
    limit = c.limit;
    room = c.room;
  }
  take_answer-IsOrdered closed w h c = record {
    order = rw h at c.order;
    limit = c.limit;
    room = c.room;
  }
  take_answer-IsOrdered empty w h c = record {
    order = rw h at c.order;
    limit = c.limit;
    room = c.room;
  }

  blocking_send-IsOrdered :
      {n : ℕ} (item : DequeueItem T) (w : ReceiverWorker T ch)
      → w.phase ≡ sending item
      → IsOrdered n w
      → IsOrdered n (blocking_send item w)
  unfolding blocking_send
  blocking_send-IsOrdered item w h c =
      let order = rw h at c.order in
      elim (Bool-cases (ch.is_closed w.channel)) [
        | inl e ↦ rw e (record { order = order; limit = c.limit; room = c.room })
        | inr e ↦
            rw (e, blocking_send)
              (elim (Option-cases (ch.send item w.channel)) [
                | inl s ↦ rw (s, blocking_send) c
                | inr (st, s) ↦
                    let more = ch.send-queued item w.channel st s in
                    rw (s, blocking_send)
                      (record {
                        order =
                            append-nil (w.delivered ++ ch.queued st)
                            ∙ ap (λ xs. w.delivered ++ xs) more
                            ∙ sym (append_assoc w.delivered (ch.queued w.channel) (item ∷ []))
                            ∙ order;
                        limit = ch.send-capacity item w.channel st s ∙ c.limit;
                        room = omega (
                          arith,
                          ch.send-room item w.channel st s,
                          c.limit,
                          ap length more,
                          length-append (ch.queued w.channel) (item ∷ []),
                        );
                      })
              ])
      ]

  recv_item-IsOrdered :
      {n : ℕ} (w : ReceiverWorker T ch) → IsOrdered n w → IsOrdered n (recv_item w)
  unfolding recv_item
  recv_item-IsOrdered w c = elim (Option-cases (ch.recv w.channel)) [
    | inl e ↦ rw (e, recv_item) c
    | inr ((item, st), e) ↦
        let first = ch.recv-queued item w.channel st e in
        rw (e, recv_item)
          (record {
            order =
                ap (λ xs. xs ++ in_hand w.phase)
                  (append_assoc w.delivered (item ∷ []) (ch.queued st)
                    ∙ ap (λ xs. w.delivered ++ xs) (sym first))
                ∙ c.order;
            limit = ch.recv-capacity item w.channel st e ∙ c.limit;
            room = omega (arith, c.room, ap length first);
          })
  ]

  IsOrdered-ext :
      {n : ℕ} (w w' : ReceiverWorker T ch)
      → IsOrdered n w
      → w'.channel ≡ w.channel
      → w'.delivered ≡ w.delivered
      → w'.taken ≡ w.taken
      → in_hand w'.phase ≡ in_hand w.phase
      → IsOrdered n w'
  IsOrdered-ext w w' c a d t p = record {
    order = rw (a, d, t, p) c.order;
    limit = rw a c.limit;
    room = rw a c.room;
  }

  drop_receiver-IsOrdered :
      {n : ℕ} (w : ReceiverWorker T ch) → IsOrdered n w → IsOrdered n (drop_receiver w)
  unfolding drop_receiver
  drop_receiver-IsOrdered w c = record {
    order = rw (ch.close-queued w.channel) c.order;
    limit = ch.close-capacity w.channel ∙ c.limit;
    room = rw (ch.close-queued w.channel) c.room;
  }

  advance-IsOrdered :
      {n : ℕ} (e : ThreadEvent T) (phase : ThreadPhase T) (w : ReceiverWorker T ch)
      → w.phase ≡ phase
      → IsOrdered n w
      → IsOrdered n (advance e phase w)
  unfolding advance
  advance-IsOrdered tested testing w h c = elim (Bool-cases w.shutdown) [
    | inl e ↦ rw e (IsOrdered-ext w _ c refl refl refl (sym (ap in_hand h)))
    | inr e ↦ rw e (IsOrdered-ext w _ c refl refl refl (sym (ap in_hand h)))
  ]
  advance-IsOrdered (dequeues others fuel) dequeuing w h c =
      elim (Option-cases
        (dequeue_blocking_timeout others fuel worker_dequeue_timeout w.scheduler)) [
          | inl e ↦ rw (e, advance) c
          | inr ((s, result), e) ↦
              rw (e, advance)
                (take_answer-IsOrdered result (record w { scheduler = s }) (ap in_hand h)
                  (IsOrdered-ext w _ c refl refl refl refl))
        ]
  advance-IsOrdered polled_send (sending item) w h c = blocking_send-IsOrdered item w h c
  advance-IsOrdered received phase w h c = recv_item-IsOrdered w c
  advance-IsOrdered receiver_dropped phase w h c = drop_receiver-IsOrdered w c
  advance-IsOrdered (acts action) phase w h c = IsOrdered-ext w _ c refl refl refl refl
  advance-IsOrdered e phase w h c = c

  run-IsOrdered :
      {n : ℕ} (es : List (ThreadEvent T)) (w : ReceiverWorker T ch)
      → IsOrdered n w
      → IsOrdered n (run es w)
  unfolding run
  run-IsOrdered [] w c = c
  run-IsOrdered (e ∷ es) w c = run-IsOrdered es _ (advance-IsOrdered e w.phase w refl c)

  new-IsOrdered : (s : Scheduler T) (buffer : ℕ) → IsOrdered (max buffer 1) (new {ch = ch} s buffer)
  unfolding new
  new-IsOrdered s buffer = record {
    order = append-nil (ch.queued (ch.new (max buffer 1))) ∙ ch.new-queued (max buffer 1);
    limit = ch.new-capacity (max buffer 1);
    room = rw (ch.new-queued (max buffer 1)) (omega arith);
  }

module _ {T : Type 0} (ch : Channel (DequeueItem T)) where
  -- For every channel that keeps its promises and every sequence of events of a receiver with a
  -- thread behind it: the items that the consumer has received, those on the channel and the one
  -- in the thread's hand are, in this order, the items that the thread has dequeued, and the
  -- channel holds at most `buffer` of them (one, for 0).
  pub run-delivers :
      (s : Scheduler T) (buffer : ℕ) (es : List (ThreadEvent T))
      → let w = run es (new {ch = ch} s buffer) in
        ((w.delivered ++ ch.queued w.channel) ++ in_hand w.phase ≡ w.taken)
        × (length (ch.queued w.channel) ≤ max buffer 1)
  run-delivers s buffer es =
      let c = run-IsOrdered es (new {ch = ch} s buffer) (new-IsOrdered s buffer) in
      (c.order, c.room)
