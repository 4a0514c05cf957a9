-- ===== src/Scheduler/Dequeue/Front.antt =====
-- The dead front of a queue: dropping it keeps the accounts, and leaves a queue that is empty or
-- starts with an entry that is neither marked nor expired.
use firq.Prelude.{
  ℕ, ◌+◌, ◌≤◌, ◌≡◌, true, false, List, [], ◌∷◌, arith, inl, inr, Bool-cases, contains,
  remove_absent, length, sat_add, if◌then◌else◌,
}
use firq.Api.{Instant}
use firq.State.Ledger.{Ledger, take_pending, take_cancelled_marker, release_reserved_slots}
use firq.State.Accounts.{Accounts, occ, unmarked-live, marked-leaves, live-leaves, release-Accounts}
use firq.State.Tenant.{QueueEntry}
use firq.Scheduler.Core.{is_expired}
use firq.Scheduler.Dequeue.{Drained, drop_dead}

abbrev DrainedAccounts : {T : Type 0} → ℕ → ℕ → (ℕ → ℕ) → Drained T → Type 0
DrainedAccounts limit next rest r = Accounts limit next r.ledger (λ j. rest j + occ j r.queue) 0

module _ {T : Type 0} (now : Instant) (e : QueueEntry T) (queue : List (QueueEntry T)) (g : Ledger)
    (n : ℕ) where
  drop_dead_marked :
      contains e.id g.cancelled_ids ≡ true
      → drop_dead now (e ∷ queue) g n ≡ drop_dead now queue (take_cancelled_marker e.id g).1 n
  unfolding drop_dead take_cancelled_marker
  drop_dead_marked h = ground arith

  drop_dead_expired :
      contains e.id g.cancelled_ids ≡ false
      → contains e.id g.pending_ids ≡ true
      → is_expired e.task.deadline now ≡ true
      → drop_dead now (e ∷ queue) g n
        ≡ drop_dead now queue (release_reserved_slots 1 (take_pending e.id g).1) (sat_add n 1)
  unfolding drop_dead take_cancelled_marker take_pending release_reserved_slots
  drop_dead_expired h p x = ground (arith, remove_absent e.id g.cancelled_ids h)

  drop_dead_kept :
      contains e.id g.cancelled_ids ≡ false
      → is_expired e.task.deadline now ≡ false
      → drop_dead now (e ∷ queue) g n ≡ record { queue = e ∷ queue; ledger = g; expired_count = n }
  unfolding drop_dead take_cancelled_marker
  drop_dead_kept h x = ground (arith, remove_absent e.id g.cancelled_ids h)

pub drop_dead-Accounts :
    {T : Type 0} {limit next : ℕ} (rest : ℕ → ℕ) (now : Instant) (queue : List (QueueEntry T))
    (g : Ledger) (n : ℕ)
    → Accounts limit next g (λ j. rest j + occ j queue) 0
    → DrainedAccounts limit next rest (drop_dead now queue g n)
unfolding drop_dead occ
drop_dead-Accounts rest now [] g n a = a
drop_dead-Accounts rest now (e ∷ queue) g n a =
    let q = λ (j : ℕ). rest j + occ j (e ∷ queue) in
    let q' = λ (j : ℕ). rest j + occ j queue in
    elim (Bool-cases (contains e.id g.cancelled_ids)) [
      | inl h ↦ rw (drop_dead_marked now e queue g n h) (
          drop_dead-Accounts rest now queue (take_cancelled_marker e.id g).1 n
            (marked-leaves g q q' 0 e.id a (λ j. omega arith) h))
      | inr h ↦
          let p = unmarked-live g q q' 0 e.id a (λ j. omega arith) h in
          elim (Bool-cases (is_expired e.task.deadline now)) [
            | inl x ↦ rw (drop_dead_expired now e queue g n h p x) (
                drop_dead-Accounts rest now queue (release_reserved_slots 1 (take_pending e.id g).1)
                  (sat_add n 1)
                  (release-Accounts (take_pending e.id g).1 q' 0 1
                    (live-leaves g q q' 0 e.id a (λ j. omega arith) p)))
            | inr x ↦ rw (drop_dead_kept now e queue g n h x) a
          ]
    ]

pub length-drop_dead :
    {T : Type 0} (now : Instant) (queue : List (QueueEntry T)) (g : Ledger) (n : ℕ)
    → length (drop_dead now queue g n).queue ≤ length queue
unfolding drop_dead
length-drop_dead now [] g n = omega arith
length-drop_dead now (e ∷ queue) g n =
    let g' = (take_cancelled_marker e.id g).1 in
    let t = take_pending e.id g' in
    ground (
      arith,
      length-drop_dead now queue g' n,
      length-drop_dead now queue (if t.0 then release_reserved_slots 1 t.1 else t.1)
          (if t.0 then sat_add n 1 else n),
    )
