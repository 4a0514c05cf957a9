-- ===== src/State/Accounts.antt =====
-- The accounts of a ledger against the entries that are queued: `q id` says how often an id is in
-- a queue, and `owed` how many slots are still to be released.
use firq.Prelude.{
  ℕ, suc, ◌+◌, ◌%◌, ◌≤◌, ◌<◌, ◌≡◌, refl, sym, subst, true, false, List, [], ◌∷◌, arith, hit, count,
  contains-count, count-contains, not-contains-count, length-remove, count-remove, remove_absent,
  contains, insert, length, u64_max, u64_mod, Bool-cases, inl, inr, sat_add, leb, if◌then◌else◌,
}
use firq.State.Ledger.{
  Ledger, try_reserve_slot, release_reserved_slots, next_handle, register_pending, take_pending,
  mark_cancelled, take_cancelled_marker, clear_cancelled_marker,
}
use firq.State.Tenant.{QueueEntry}

-- Every queued id is pending or marked as cancelled, never both and never twice; none is newer than
-- the last one issued; the slots taken are those of the pending ids and
-- those owed, at most `limit` of them. The last id issued is `next`.
pub record Accounts (limit next : ℕ) (g : Ledger) (q : ℕ → ℕ) (owed : ℕ) : Type 0 where
  pub balanced : (j : ℕ) → q j ≡ count j g.pending_ids + count j g.cancelled_ids
  pub once : (j : ℕ) → q j ≤ 1
  pub latest : g.next_task_id ≡ next
  pub issued : (j : ℕ) → next < j → q j ≡ 0
  pub slots : g.queue_len_estimate ≡ length g.pending_ids + owed
  pub fits : g.queue_len_estimate ≤ limit
  pub word : limit ≤ u64_max

-- How often an id stands in a queue.
unfoldable pub occ : {T : Type 0} → ℕ → List (QueueEntry T) → ℕ
occ j [] = 0
occ j (e ∷ queue) = hit j e.id + occ j queue

pub Accounts-ext :
    {limit next : ℕ} (g : Ledger) (q q' : ℕ → ℕ) (owed : ℕ)
    → Accounts limit next g q owed
    → ((j : ℕ) → q' j ≡ q j)
    → Accounts limit next g q' owed
Accounts-ext g q q' owed a same = record {
  balanced = λ j. omega (arith, a.balanced j, same j);
  once = λ j. omega (arith, a.once j, same j);
  issued = λ j h. omega (arith, a.issued j h, same j);
  slots = a.slots;
  fits = a.fits;
  word = a.word;
  latest = a.latest;
}

hit_self : (j : ℕ) → hit j j ≡ 1
hit_self j = ground arith

-- An entry with this id leaves its queue.
module _ {limit next : ℕ} (g : Ledger) (q q' : ℕ → ℕ) (owed id : ℕ)
    (a : Accounts limit next g q owed) (left : (j : ℕ) → q' j + hit j id ≡ q j) where
  -- A marked id is not pending, and one that is not marked is.
  pub marked-not-live : contains id g.cancelled_ids ≡ true → contains id g.pending_ids ≡ false
  marked-not-live h = elim (Bool-cases (contains id g.pending_ids)) [
    | inl p ↦
        absurd
          (omega (arith, a.balanced id, a.once id, contains-count id _ h, contains-count id _ p))
    | inr p ↦ p
  ]

  pub unmarked-live : contains id g.cancelled_ids ≡ false → contains id g.pending_ids ≡ true
  unmarked-live h =
      count-contains id _
        (omega (arith, a.balanced id, left id, not-contains-count id _ h, hit_self id))

  pub marked-leaves :
      contains id g.cancelled_ids ≡ true
      → Accounts limit next (take_cancelled_marker id g).1 q' owed
  unfolding take_cancelled_marker
  marked-leaves h = record {
    balanced = λ j. omega (arith, a.balanced j, left j, count-remove j id _ h);
    once = λ j. omega (arith, a.once j, left j);
    issued = λ j n. omega (arith, a.issued j n, left j);
    slots = a.slots;
    fits = a.fits;
    word = a.word;
    latest = a.latest;
  }

  pub live-leaves :
      contains id g.pending_ids ≡ true → Accounts limit next (take_pending id g).1 q' (owed + 1)
  unfolding take_pending
  live-leaves h = record {
    balanced = λ j. omega (arith, a.balanced j, left j, count-remove j id _ h);
    once = λ j. omega (arith, a.once j, left j);
    issued = λ j n. omega (arith, a.issued j n, left j);
    slots = omega (arith, a.slots, length-remove id _ h);
    fits = a.fits;
    word = a.word;
    latest = a.latest;
  }

-- Marks and pending ids that are not there.
pub take_cancelled_marker_absent :
    (id : ℕ) (g : Ledger)
    → contains id g.cancelled_ids ≡ false
    → take_cancelled_marker id g ≡ (false, g)
unfolding take_cancelled_marker
take_cancelled_marker_absent id g h = rw (h, remove_absent id g.cancelled_ids h)

pub take_pending_absent :
    (id : ℕ) (g : Ledger) → contains id g.pending_ids ≡ false → take_pending id g ≡ (false, g)
unfolding take_pending
take_pending_absent id g h = rw (h, remove_absent id g.pending_ids h)

-- Slots that are owed are given back.
pub release-Accounts :
    {limit next : ℕ} (g : Ledger) (q : ℕ → ℕ) (owed d : ℕ)
    → Accounts limit next g q (owed + d)
    → Accounts limit next (release_reserved_slots d g) q owed
unfolding release_reserved_slots
release-Accounts g q owed d a = record {
  balanced = a.balanced;
  once = a.once;
  issued = a.issued;
  slots = omega (arith, a.slots);
  fits = omega (arith, a.fits);
  word = a.word;
  latest = a.latest;
}

-- Slots owed are counted by a saturating add that does not saturate.
pub Accounts-sat :
    {limit next : ℕ} (g : Ledger) (q : ℕ → ℕ) (owed : ℕ)
    → Accounts limit next g q (owed + 1)
    → Accounts limit next g q (sat_add owed 1)
Accounts-sat g q owed a =
    let e : sat_add owed 1 ≡ owed + 1 = omega (arith, a.slots, a.fits, a.word) in rw e a

-- A slot is taken below the limit.
pub reserve-Accounts :
    {limit next : ℕ} (g : Ledger) (q : ℕ → ℕ)
    → Accounts limit next g q 0
    → (try_reserve_slot limit g).0 ≡ true
    → Accounts limit next (try_reserve_slot limit g).1 q 1
unfolding try_reserve_slot
reserve-Accounts {limit} g q a h =
    let r : suc g.queue_len_estimate ≤ limit = ground arith in
    let e : leb limit g.queue_len_estimate ≡ false = ground arith in
    rw e (record {
      balanced = a.balanced;
      once = a.once;
      latest = a.latest;
      issued = a.issued;
      slots = omega (arith, a.slots);
      fits = omega arith;
      word = a.word;
    })

pub try_reserve_slot_fails :
    (limit : ℕ) (g : Ledger)
    → (try_reserve_slot limit g).0 ≡ false
    → (try_reserve_slot limit g).1 ≡ g
unfolding try_reserve_slot
try_reserve_slot_fails limit g h = ground arith

count-insert :
    (j id : ℕ) (xs : List ℕ) → count id xs ≡ 0 → count j (insert id xs) ≡ count j xs + hit j id
unfolding insert
count-insert j id xs h = elim (Bool-cases (contains id xs)) [
  | inl c ↦ absurd (omega (arith, contains-count id xs c))
  | inr c ↦ rw c (omega arith)
]

length-insert : (id : ℕ) (xs : List ℕ) → count id xs ≡ 0 → length (insert id xs) ≡ suc (length xs)
unfolding insert
length-insert id xs h = elim (Bool-cases (contains id xs)) [
  | inl c ↦ absurd (omega (arith, contains-count id xs c))
  | inr c ↦ rw c
]

-- A new id, for which a slot is held, is issued, made pending and queued.
pub issue-Accounts :
    {limit next : ℕ} (g : Ledger) (q q' : ℕ → ℕ)
    → Accounts limit next g q 1
    → next < u64_max
    → ((j : ℕ) → q' j ≡ q j + hit j (suc next))
    → Accounts limit (suc next) (register_pending (next_handle g).0 (next_handle g).1) q' 0
unfolding register_pending next_handle
issue-Accounts {next} g q q' a small new =
    let fresh : (g.next_task_id + 1) % u64_mod ≡ suc next = omega (arith, a.latest) in
    let none_p : count (suc next) g.pending_ids ≡ 0 =
      omega (arith, a.issued (suc next) (omega arith), a.balanced (suc next)) in
    rw fresh (record {
      balanced =
          λ j. omega (arith, a.balanced j, new j, count-insert j (suc next) g.pending_ids none_p);
      once = λ j. ground (arith, a.once j, new j, a.issued j);
      latest = refl;
      issued = λ j h. ground (arith, a.issued j, new j);
      slots = omega (arith, a.slots, length-insert (suc next) g.pending_ids none_p);
      fits = a.fits;
      word = a.word;
    })

-- A pending id is marked as cancelled, and its slot is given back.
pub cancel-Accounts :
    {limit next : ℕ} (g : Ledger) (q : ℕ → ℕ) (id : ℕ)
    → Accounts limit next g q 0
    → contains id g.pending_ids ≡ true
    → Accounts limit next (release_reserved_slots 1 (mark_cancelled id (take_pending id g).1)) q 0
unfolding release_reserved_slots mark_cancelled take_pending
cancel-Accounts g q id a h =
    let absent : count id g.cancelled_ids ≡ 0 =
      omega (arith, a.balanced id, a.once id, contains-count id g.pending_ids h) in
    record {
      balanced = λ j. omega (
        arith,
        a.balanced j,
        count-remove j id g.pending_ids h,
        count-insert j id g.cancelled_ids absent,
      );
      once = a.once;
      latest = a.latest;
      issued = a.issued;
      slots = omega (arith, a.slots, length-remove id g.pending_ids h);
      fits = omega (arith, a.fits);
      word = a.word;
    }

pub Accounts-latest :
    {limit next : ℕ} (g : Ledger) (q : ℕ → ℕ) (owed : ℕ)
    → Accounts limit next g q owed
    → Accounts limit g.next_task_id g q owed
Accounts-latest {limit} g q owed a = subst (λ n. Accounts limit n g q owed) (sym a.latest) a

pub next_handle_fresh :
    {limit next : ℕ} (g : Ledger) (q : ℕ → ℕ) (owed : ℕ)
    → Accounts limit next g q owed
    → next < u64_max
    → (next_handle g).0 ≡ suc next
unfolding next_handle
next_handle_fresh g q owed a small = omega (arith, a.latest)

-- An entry thrown away takes its marker along, or leaves its slot to be reused.
pub forget-Accounts :
    {limit next : ℕ} (g : Ledger) (q q' : ℕ → ℕ) (id : ℕ)
    → Accounts limit next g q 0
    → ((j : ℕ) → q' j + hit j id ≡ q j)
    → let t = take_pending id (clear_cancelled_marker id g) in
      Accounts limit next t.1 q' (if t.0 then 1 else 0)
unfolding clear_cancelled_marker take_cancelled_marker take_pending
forget-Accounts g q q' id a left = elim (Bool-cases (contains id g.cancelled_ids)) [
  | inl h ↦
      let p = marked-not-live g q q' 0 id a left h in
      rw (p, remove_absent id g.pending_ids p) (marked-leaves g q q' 0 id a left h)
  | inr h ↦
      let p = unmarked-live g q q' 0 id a left h in
      rw (remove_absent id g.cancelled_ids h, p) (live-leaves g q q' 0 id a left p)
]
