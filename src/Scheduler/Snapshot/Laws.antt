-- ===== src/Scheduler/Snapshot/Laws.antt =====
-- A percentile is the bound of the bucket in which its target falls.
use firq.Prelude.{
  ℕ, suc, ◌+◌, ◌≤◌, ◌<◌, ◌≡◌, refl, arith, false, inl, inr, Bool-cases, List, [], ◌∷◌, some,
  get_elem?, take, leb, ◌==◌, sat_add, u64_max,
}
use firq.Api.{QueueTimeBucket}
use firq.Scheduler.Snapshot.{total_samples, last_bound, find_bucket, percentile}

-- The samples in some buckets.
abbrev pub samples : List QueueTimeBucket → ℕ
samples [] = 0
samples (b ∷ bs) = b.count + samples bs

total_samples-samples :
    (bs : List QueueTimeBucket) → samples bs ≤ u64_max → total_samples bs ≡ samples bs
unfolding total_samples
total_samples-samples [] h = refl
total_samples-samples (b ∷ bs) h = omega (arith, total_samples-samples bs (omega arith))

-- The bucket in which the sample number `target` lies: those before it hold fewer, and with it
-- there are enough.
abbrev pub Covers : ℕ → ℕ → ℕ → List QueueTimeBucket → Type 0
Covers target cumulative bound bs =
    (k : ℕ) × (b : QueueTimeBucket) × (get_elem? bs k ≡ some b)
    × (bound ≡ b.le_ns)
    × (cumulative + samples (take k bs) < target)
    × (target ≤ cumulative + samples (take (suc k) bs))

find_bucket-Covers :
    (target cumulative last : ℕ) (bs : List QueueTimeBucket)
    → cumulative + samples bs ≤ u64_max
    → cumulative < target
    → target ≤ cumulative + samples bs
    → Covers target cumulative (find_bucket target cumulative last bs) bs
unfolding find_bucket
find_bucket-Covers target cumulative last [] h low high = absurd (omega arith)
find_bucket-Covers target cumulative last (b ∷ bs) h low high =
    let sum : sat_add cumulative b.count ≡ cumulative + b.count = omega arith in
    elim (Bool-cases (leb target (cumulative + b.count))) [
      | inl e ↦ rw (sum, e) (0, b, refl, refl, omega arith, ground (arith, e))
      | inr e ↦
          let (k, c, at, bound, before, upto) =
            find_bucket-Covers target (cumulative + b.count) last bs (omega arith)
              (ground (arith, e)) (omega arith) in
          rw (sum, e) (suc k, c, at, bound, omega (arith, before), omega (arith, upto))
    ]

-- Where the samples in the buckets fit a `u64` and the target is between 1 and their number, a
-- percentile is the bound of the bucket in which the sample of that number lies: the buckets
-- before it hold fewer samples than the target, and together with it they hold at least as many.
pub percentile-Covers :
    (target : ℕ → ℕ) (bs : List QueueTimeBucket)
    → samples bs ≤ u64_max
    → 0 < target (samples bs)
    → target (samples bs) ≤ samples bs
    → Covers (target (samples bs)) 0 (percentile target bs) bs
unfolding percentile
percentile-Covers target bs h low high =
    let some_samples : (samples bs == 0) ≡ false = ground arith in
    rw (total_samples-samples bs h, some_samples)
      (find_bucket-Covers (target (samples bs)) 0 (last_bound bs) bs (omega arith) low
        (omega arith))
