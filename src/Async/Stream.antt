-- ===== src/Async/Stream.antt =====
-- crates/firq-async/src/lib.rs: `AsyncStream`. What a poll of the pending dequeue answers is an
-- event; a stream is the dequeues that it has started, and whether the last one is pending.
use firq.Prelude.{
  ℕ, suc, ◌+◌, ◌≡◌, refl, arith, Bool, true, false, Option, none, some, List, [], ◌∷◌, ap,
  if◌then◌else◌,
}
use firq.Api.{DequeueResult, dequeued, empty, closed}
use firq.Async.{DequeueItem}

pub data Poll {ℓ} (A : Type ℓ) : Type ℓ where
  pending : Poll A
  ready : A → Poll A

pub record AsyncStream : Type 0 where
  pub started : ℕ
  pub is_pending : Bool

-- What a poll of the stream gives: the stream, the answer, and whether the waker was called.
pub record Polled (T : Type 0) : Type 0 where
  pub stream : AsyncStream
  pub answer : Poll (Option (DequeueItem T))
  pub woken : Bool

abbrev pub new : AsyncStream
new = record { started = 0; is_pending = false }

-- A dequeue is started where none is pending.
unfoldable pub start : AsyncStream → AsyncStream
start st = if st.is_pending then st else record { started = st.started + 1; is_pending = true }

-- The stream once its dequeue has answered.
abbrev idle : AsyncStream → AsyncStream
unfolding start
idle st = record (start st) { is_pending = false }

module _ {T : Type 0} where
  -- `poll_next`, from what the pending dequeue answers to its poll.
  unfoldable pub poll_next : Poll (DequeueResult T) → AsyncStream → Polled T
  unfolding start
  poll_next pending st = record { stream = start st; answer = pending; woken = false }
  poll_next (ready (dequeued tenant task)) st = record {
    stream = idle st;
    answer = ready (some (record { tenant = tenant; task = task }));
    woken = false;
  }
  poll_next (ready closed) st = record { stream = idle st; answer = ready none; woken = false }
  poll_next (ready empty) st = record { stream = idle st; answer = pending; woken = true }

  -- A run of polls, and the tasks that it gives.
  unfoldable pub items : List (Poll (DequeueResult T)) → AsyncStream → List (DequeueItem T)
  items [] st = []
  items (e ∷ es) st =
      let p = poll_next e st in
      let later = items es p.stream in
      elim p.answer [ ready (some item) ↦ item ∷ later | ready none ↦ later | pending ↦ later ]

  unfoldable pub poll_all : List (Poll (DequeueResult T)) → AsyncStream → AsyncStream
  poll_all [] st = st
  poll_all (e ∷ es) st = poll_all es (poll_next e st).stream

  -- What the dequeues gave, polled one after the other.
  unfoldable pub tasks : List (Poll (DequeueResult T)) → List (DequeueItem T)
  tasks [] = []
  tasks (pending ∷ es) = tasks es
  tasks (ready (dequeued tenant task) ∷ es) = record { tenant = tenant; task = task } ∷ tasks es
  tasks (ready closed ∷ es) = tasks es
  tasks (ready empty ∷ es) = tasks es

  unfoldable pub answered : List (Poll (DequeueResult T)) → ℕ
  answered [] = 0
  answered (pending ∷ es) = answered es
  answered (ready r ∷ es) = suc (answered es)

abbrev pub in_flight : AsyncStream → ℕ
in_flight st = if st.is_pending then 1 else 0

module _ {T : Type 0} where
  items-tasks : (es : List (Poll (DequeueResult T))) (st : AsyncStream) → items es st ≡ tasks es
  unfolding items tasks poll_next
  items-tasks [] st = refl
  items-tasks (pending ∷ es) st = items-tasks es _
  items-tasks (ready (dequeued tenant task) ∷ es) st =
      ap (λ xs. record { tenant = tenant; task = task } ∷ xs) (items-tasks es _)
  items-tasks (ready closed ∷ es) st = items-tasks es _
  items-tasks (ready empty ∷ es) st = items-tasks es _

  in_flight-poll_all :
      (es : List (Poll (DequeueResult T))) (st : AsyncStream)
      → (poll_all es st).started + in_flight st
        ≡ st.started + answered es + in_flight (poll_all es st)
  unfolding poll_all answered poll_next start
  in_flight-poll_all [] st = omega arith
  in_flight-poll_all (pending ∷ es) st = ground (arith, in_flight-poll_all es (start st))
  in_flight-poll_all (ready (dequeued tenant task) ∷ es) st =
      ground (arith, in_flight-poll_all es (idle st))
  in_flight-poll_all (ready closed ∷ es) st = ground (arith, in_flight-poll_all es (idle st))
  in_flight-poll_all (ready empty ∷ es) st = ground (arith, in_flight-poll_all es (idle st))

  -- In every run of polls of a new stream, the items it gives are the tasks of the dequeues that
  -- answered, in their order, and the dequeues started are those that answered and at most one
  -- in flight.
  pub poll_all-items :
      (es : List (Poll (DequeueResult T)))
      → (items es new ≡ tasks es)
        × ((poll_all es new).started ≡ answered es + in_flight (poll_all es new))
  poll_all-items es = (items-tasks es new, omega (arith, in_flight-poll_all es new))
