-- ===== src/Scheduler/Purge/Queue.antt =====
-- What a purge does to one queue: the accounts stay right, and the queue does not grow.
use firq.Prelude.{
  hit, ℕ, zero, suc, ◌+◌, ◌≤◌, ◌≡◌, true, false, List, [], ◌∷◌, arith, inl, inr, Bool-cases,
  contains, remove_absent, length, ◌||◌, ◌==◌,
}
use firq.Api.{Instant}
use firq.State.Ledger.{Ledger, take_pending, take_cancelled_marker}
use firq.State.Accounts.{
  Accounts, occ, marked-not-live, unmarked-live, marked-leaves, live-leaves, Accounts-sat,
  Accounts-ext,
}
use firq.State.Tenant.{QueueEntry, is_empty}
use firq.Scheduler.Core.{is_expired}
use firq.Scheduler.Purge.{
  PurgeStats, PurgedQueue, count_cancelled, count_expired, purge_front, side_scan,
  purge_queue_with_budget,
}

-- The balance of a queue and the rest of the scheduler, in the middle of a purge.
abbrev pub QueueAccounts : {T : Type 0} → ℕ → ℕ → (ℕ → ℕ) → PurgedQueue T → Type 0
QueueAccounts limit next rest r =
    Accounts limit next r.ledger (λ j. rest j + occ j r.queue) r.stats.released_slots

module _ {T : Type 0} (now : Instant) (e : QueueEntry T) (queue : List (QueueEntry T)) (g : Ledger)
    (st : PurgeStats) where
  purge_front_marked :
      contains e.id g.cancelled_ids ≡ true
      → contains e.id g.pending_ids ≡ false
      → purge_front now (e ∷ queue) g st ≡ purge_front now queue (take_cancelled_marker e.id g).1 st
  unfolding purge_front take_cancelled_marker take_pending
  purge_front_marked h p = ground (arith, remove_absent e.id g.pending_ids p)

  purge_front_expired :
      contains e.id g.cancelled_ids ≡ false
      → contains e.id g.pending_ids ≡ true
      → is_expired e.task.deadline now ≡ true
      → purge_front now (e ∷ queue) g st
        ≡ purge_front now queue (take_pending e.id g).1 (count_expired true st)
  unfolding purge_front take_cancelled_marker take_pending
  purge_front_expired h p x = ground (arith, remove_absent e.id g.cancelled_ids h)

  purge_front_kept :
      contains e.id g.cancelled_ids ≡ false
      → is_expired e.task.deadline now ≡ false
      → purge_front now (e ∷ queue) g st ≡ record { queue = e ∷ queue; ledger = g; stats = st }
  unfolding purge_front take_cancelled_marker
  purge_front_kept h x = ground (arith, remove_absent e.id g.cancelled_ids h)

-- The front loop keeps the accounts.
purge_front-Accounts :
    {T : Type 0} {limit next : ℕ} (rest : ℕ → ℕ) (now : Instant) (queue : List (QueueEntry T))
    (g : Ledger) (st : PurgeStats)
    → QueueAccounts limit next rest (record { queue = queue; ledger = g; stats = st })
    → QueueAccounts limit next rest (purge_front now queue g st)
unfolding purge_front occ
purge_front-Accounts rest now [] g st a = a
purge_front-Accounts rest now (e ∷ queue) g st a =
    let q = λ (j : ℕ). rest j + occ j (e ∷ queue) in
    let q' = λ (j : ℕ). rest j + occ j queue in
    elim (Bool-cases (contains e.id g.cancelled_ids)) [
      | inl h ↦
          rw
            (purge_front_marked now e queue g st h
              (marked-not-live g q q' st.released_slots e.id a (λ j. omega arith) h))
            (purge_front-Accounts rest now queue (take_cancelled_marker e.id g).1 st
              (marked-leaves g q q' st.released_slots e.id a (λ j. omega arith) h))
      | inr h ↦
          let p = unmarked-live g q q' st.released_slots e.id a (λ j. omega arith) h in
          elim (Bool-cases (is_expired e.task.deadline now)) [
            | inl x ↦ rw (purge_front_expired now e queue g st h p x) (
                purge_front-Accounts rest now queue (take_pending e.id g).1 (count_expired true st)
                  (Accounts-sat _ q' st.released_slots
                    (live-leaves g q q' st.released_slots e.id a (λ j. omega arith) p)))
            | inr x ↦ rw (purge_front_kept now e queue g st h x) a
          ]
    ]

module _ {T : Type 0} (now : Instant) (budget : ℕ) (e : QueueEntry T) (queue : List (QueueEntry T))
    (g : Ledger) (st : PurgeStats) where
  side_scan_marked :
      contains e.id g.cancelled_ids ≡ true
      → contains e.id g.pending_ids ≡ false
      → side_scan now (suc budget) (e ∷ queue) g st
        ≡ side_scan now budget queue (take_cancelled_marker e.id g).1 st
  unfolding side_scan take_cancelled_marker take_pending
  side_scan_marked h p = ground (arith, remove_absent e.id g.pending_ids p)

  side_scan_expired :
      contains e.id g.cancelled_ids ≡ false
      → contains e.id g.pending_ids ≡ true
      → is_expired e.task.deadline now ≡ true
      → side_scan now (suc budget) (e ∷ queue) g st
        ≡ side_scan now budget queue (take_pending e.id g).1 (count_expired true st)
  unfolding side_scan take_cancelled_marker take_pending
  side_scan_expired h p x = ground (arith, remove_absent e.id g.cancelled_ids h)

  abbrev keep_entry : PurgedQueue T → PurgedQueue T
  keep_entry r = record r { queue = e ∷ r.queue }

  side_scan_kept :
      contains e.id g.cancelled_ids ≡ false
      → is_expired e.task.deadline now ≡ false
      → side_scan now (suc budget) (e ∷ queue) g st ≡ keep_entry (side_scan now budget queue g st)
  unfolding side_scan take_cancelled_marker
  side_scan_kept h x = ground (arith, remove_absent e.id g.cancelled_ids h)

-- So does the scan beyond the front.
side_scan-Accounts :
    {T : Type 0} {limit next : ℕ} (rest : ℕ → ℕ) (now : Instant) (budget : ℕ)
    (queue : List (QueueEntry T)) (g : Ledger) (st : PurgeStats)
    → QueueAccounts limit next rest (record { queue = queue; ledger = g; stats = st })
    → QueueAccounts limit next rest (side_scan now budget queue g st)
unfolding side_scan occ
side_scan-Accounts rest now zero queue g st a = a
side_scan-Accounts rest now (suc budget) [] g st a = a
side_scan-Accounts {T} rest now (suc budget) (e ∷ queue) g st a =
    let q = λ (j : ℕ). rest j + occ j (e ∷ queue) in
    let q' = λ (j : ℕ). rest j + occ j queue in
    elim (Bool-cases (contains e.id g.cancelled_ids)) [
      | inl h ↦
          rw
            (side_scan_marked now budget e queue g st h
              (marked-not-live g q q' st.released_slots e.id a (λ j. omega arith) h))
            (side_scan-Accounts rest now budget queue (take_cancelled_marker e.id g).1 st
              (marked-leaves g q q' st.released_slots e.id a (λ j. omega arith) h))
      | inr h ↦
          let p = unmarked-live g q q' st.released_slots e.id a (λ j. omega arith) h in
          elim (Bool-cases (is_expired e.task.deadline now)) [
            | inl x ↦ rw (side_scan_expired now budget e queue g st h p x) (
                side_scan-Accounts rest now budget queue (take_pending e.id g).1
                  (count_expired true st)
                  (Accounts-sat _ q' st.released_slots
                    (live-leaves g q q' st.released_slots e.id a (λ j. omega arith) p)))
            | inr x ↦
                let more = λ (j : ℕ). rest j + hit j e.id in
                let r = side_scan now budget queue g st in
                rw (side_scan_kept now budget e queue g st h x) (
                  Accounts-ext r.ledger (λ j. more j + occ j r.queue)
                    (λ j. rest j + (hit j e.id + occ j r.queue)) r.stats.released_slots
                    (side_scan-Accounts more now budget queue g st (
                      Accounts-ext g q (λ j. more j + occ j queue) st.released_slots a
                        (λ j. omega arith)))
                    (λ j. omega arith))
          ]
    ]

-- A purge of one queue keeps the accounts, with the slots that it is to release.
pub purge_queue_with_budget-Accounts :
    {T : Type 0} {limit next : ℕ} (rest : ℕ → ℕ) (now : Instant) (budget : ℕ)
    (queue : List (QueueEntry T)) (g : Ledger) (st : PurgeStats)
    → QueueAccounts limit next rest (record { queue = queue; ledger = g; stats = st })
    → QueueAccounts limit next rest (purge_queue_with_budget now budget queue g st)
unfolding purge_queue_with_budget
purge_queue_with_budget-Accounts rest now budget queue g st a =
    let front = purge_front now queue g st in
    let b = purge_front-Accounts rest now queue g st a in
    elim (Bool-cases ((budget == 0) || is_empty front.queue)) [
      | inl e ↦ rw e b
      | inr e ↦ rw e (side_scan-Accounts rest now budget front.queue front.ledger front.stats b)
    ]

length-purge_front :
    {T : Type 0} (now : Instant) (queue : List (QueueEntry T)) (g : Ledger) (st : PurgeStats)
    → length (purge_front now queue g st).queue ≤ length queue
unfolding purge_front
length-purge_front now [] g st = omega arith
length-purge_front now (e ∷ queue) g st = ground (
  arith,
  length-purge_front now queue (take_pending e.id (take_cancelled_marker e.id g).1).1
      (count_cancelled (take_pending e.id (take_cancelled_marker e.id g).1).0 st),
  length-purge_front now queue (take_pending e.id (take_cancelled_marker e.id g).1).1
      (count_expired (take_pending e.id (take_cancelled_marker e.id g).1).0 st),
)

length-side_scan :
    {T : Type 0} (now : Instant) (budget : ℕ) (queue : List (QueueEntry T)) (g : Ledger)
    (st : PurgeStats)
    → length (side_scan now budget queue g st).queue ≤ length queue
unfolding side_scan
length-side_scan now zero queue g st = omega arith
length-side_scan now (suc budget) [] g st = omega arith
length-side_scan now (suc budget) (e ∷ queue) g st =
    let g' = (take_cancelled_marker e.id g).1 in
    let live = (take_pending e.id g').0 in
    let g'' = (take_pending e.id g').1 in
    ground (
      arith,
      length-side_scan now budget queue g'' (count_cancelled live st),
      length-side_scan now budget queue g'' (count_expired live st),
      length-side_scan now budget queue g' st,
    )

-- A purge never makes a queue longer.
pub length-purge_queue_with_budget :
    {T : Type 0} (now : Instant) (budget : ℕ) (queue : List (QueueEntry T)) (g : Ledger)
    (st : PurgeStats)
    → length (purge_queue_with_budget now budget queue g st).queue ≤ length queue
unfolding purge_queue_with_budget
length-purge_queue_with_budget now budget queue g st =
    let front = purge_front now queue g st in
    ground (
      arith,
      length-purge_front now queue g st,
      length-side_scan now budget front.queue front.ledger front.stats,
    )
