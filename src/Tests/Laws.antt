-- ===== src/Tests/Laws.antt =====
-- The parts of a scheduler at small states.
use firq.Prelude.{
  ℕ, ◌≤◌, ◌+◌, ◌++◌, List, [], ◌∷◌, some, ◌≡◌, ◌≢◌, sat_add, refl, contains, arith, true, false,
  count, length,
}
use firq.Prelude.Int.{pos}
use firq.Api.{QueueTimeBucket, normal}
use firq.State.Ring
use firq.State.TopTenants
use firq.State.Tenant
use firq.Scheduler.Purge
use firq.Scheduler.Insert
use firq.State.Tenant.{TenantState, Shard}
use firq.Scheduler.Purge.{PurgedTenant, no_purge}
use firq.Scheduler.Activity.{purge-push_entry}
use firq.State.Ring.Laws.{Pops, pop_front-Pops, items-push_back}
use firq.State.TopTenants.Counts.{count_of, observe-count_of}
use firq.State.TopTenants.Laws.{length-observe, IsFalling, times, snapshot-IsFalling}
use firq.Scheduler.Snapshot
use firq.Scheduler.Snapshot.Laws.{samples, Covers, percentile-Covers}
use firq.Tower.Calls.{advance, lost, dropped, waiting, admitted}
use firq.Tower.Calls.Guard.{advance-guard}
use firq.Tests.{program, task_of, one, one-IsSound}

-- A tenant in a ring, with a queue whose only task has expired.
abbrev late : PurgedTenant ℕ
late = record {
  tenant_state = record (Tenant.new_tenant (pos 1)) {
    queues = record {
      first = [];
      second = record { id = 1; task = record (task_of 1) { deadline = some 5 } } ∷ [];
      third = [];
    };
    active = record { first = false; second = true; third = false };
  };
  ledger = record {
    queue_len_estimate = 1;
    next_task_id = 1;
    pending_ids = 1 ∷ [];
    cancelled_ids = [];
  };
  stats = no_purge;
}

abbrev ringed : Shard ℕ
ringed = record {
  tenants = [];
  active_rings = record { first = Ring.new; second = Ring.push_back Ring.new 7; third = Ring.new };
}

ringed-IsValid : Ring.IsValid (Ring.push_back Ring.new 7)
unfolding program
ringed-IsValid = omega arith

late_purged : (Purge.purge_level 10 0 normal late).tenant_state.queues.second ≡ []
unfolding program
late_purged = refl

purge-push_entry_example :
    count 7 (
      Ring.items
        (Insert.push_entry
          (record { id = 2; task = task_of 2 })
          7
          ringed
          (Purge.purge_level 10 0 normal late).tenant_state).0.active_rings.second)
    ≡ count 7 (Ring.items (Ring.push_back Ring.new 7)) + 1
purge-push_entry_example =
    purge-push_entry 10 0 late (record { id = 2; task = task_of 2 }) 7 ringed ringed-IsValid
      late_purged

pop_front-Pops_example :
    Pops (Ring.items (Ring.push_back Ring.new 7)) (Ring.pop_front (Ring.push_back Ring.new 7))
pop_front-Pops_example = pop_front-Pops (Ring.push_back Ring.new 7) ringed-IsValid

items-push_back_example :
    (Ring.items (Ring.push_back (Ring.push_back Ring.new 7) 8)
      ≡ Ring.items (Ring.push_back Ring.new 7) ++ 8 ∷ [])
    × Ring.IsValid (Ring.push_back (Ring.push_back Ring.new 7) 8)
items-push_back_example = items-push_back (Ring.push_back Ring.new 7) 8 ringed-IsValid

abbrev table : TopTenants.TopTenants
table = record {
  capacity = 2;
  entries = record { tenant = 1; count = 3 } ∷ record { tenant = 2; count = 5 } ∷ [];
}

length-observe_example :
    length (TopTenants.observe table 9 1).entries ≤ (TopTenants.observe table 9 1).capacity
length-observe_example = length-observe table 9 1 (omega arith)

table_count : count_of 2 table.entries ≡ some 5
unfolding count_of
table_count = refl

observe-count_of_example :
    let t' = TopTenants.observe table 2 1 in
    (count_of 2 t'.entries ≡ some (sat_add 5 1))
    × ((k : ℕ) → k ≢ 2 → count_of k t'.entries ≡ count_of k table.entries)
observe-count_of_example = observe-count_of table 2 1 5 (λ e. omega (arith, e)) table_count

snapshot-IsFalling_example :
    IsFalling (TopTenants.snapshot table)
    × ((k n : ℕ) → times k n (TopTenants.snapshot table) ≡ times k n table.entries)
snapshot-IsFalling_example = snapshot-IsFalling table

abbrev buckets : List QueueTimeBucket
buckets =
    record { le_ns = 10; count = 2 }
    ∷ record { le_ns = 50; count = 5 }
    ∷ record { le_ns = 100; count = 1 }
    ∷ []

abbrev seventh : ℕ → ℕ
seventh total = 7

percentile-Covers_example :
    Covers (seventh (samples buckets)) 0 (Snapshot.percentile seventh buckets) buckets
percentile-Covers_example =
    percentile-Covers seventh buckets (omega arith) (omega arith) (omega arith)

seventh_bound : Snapshot.percentile seventh buckets ≡ 50
unfolding Snapshot.percentile Snapshot.total_samples Snapshot.find_bucket
seventh_bound = refl

one_pending : contains 1 one.ledger.pending_ids ≡ true
unfolding program
one_pending = refl

advance-guard_example :
    (contains 1 (advance {R = ℕ} {E = ℕ} lost (waiting 1) one).0.ledger.pending_ids ≡ false)
    × (contains 1 (advance {R = ℕ} {E = ℕ} dropped (waiting 1) one).0.ledger.pending_ids ≡ false)
    × (contains 1 (advance {R = ℕ} {E = ℕ} dropped (admitted 1) one).0.ledger.pending_ids ≡ true)
advance-guard_example = advance-guard ℕ ℕ 1 one one-IsSound.0 one_pending
