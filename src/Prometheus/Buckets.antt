-- ===== src/Prometheus/Buckets.antt =====
-- The lines of the histogram: counts add up, so that each line carries all the samples up to its
-- bound.
use Prim.Native.String.{String}
use firq.Prelude.{
  ℕ, zero, suc, ◌+◌, ◌≡◌, ◌∙◌, ap, arith, List, [], ◌∷◌, some, some_eq, get_elem?, take, min,
  sat_add, u64_max,
}
use firq.Api.{QueueTimeBucket}
use firq.Scheduler.Snapshot.Laws.{samples}
use firq.Prometheus.{bucket_line, bucket_lines}

module _ (number : ℕ → String) (ns : String) where
  bucket_lines-from :
      (cumulative k : ℕ) (bs : List QueueTimeBucket) (b : QueueTimeBucket)
      → get_elem? bs k ≡ some b
      → get_elem? (bucket_lines number ns cumulative bs) k
        ≡ some
            (bucket_line number ns b.le_ns (min (cumulative + samples (take (suc k) bs)) u64_max))
  unfolding bucket_lines
  bucket_lines-from cumulative k [] b e = cc
  bucket_lines-from cumulative zero (c ∷ bs) b e =
      let same : c ≡ b = some_eq c b e in
      ap some (
        ap (λ (x : QueueTimeBucket). bucket_line number ns x.le_ns (sat_add cumulative c.count))
          same
        ∙ ap (bucket_line number ns b.le_ns) (omega arith))
  bucket_lines-from cumulative (suc k) (c ∷ bs) b e =
      bucket_lines-from (sat_add cumulative c.count) k bs b e
      ∙ ap (λ n. some (bucket_line number ns b.le_ns n)) (omega arith)

  -- The line of the histogram at each index carries the bound of the bucket at that index and
  -- the samples of all the buckets up to and with it, capped at the largest `u64`.
  pub bucket_lines-samples :
      (k : ℕ) (bs : List QueueTimeBucket) (b : QueueTimeBucket)
      → get_elem? bs k ≡ some b
      → get_elem? (bucket_lines number ns 0 bs) k
        ≡ some (bucket_line number ns b.le_ns (min (samples (take (suc k) bs)) u64_max))
  bucket_lines-samples k bs b e =
      bucket_lines-from 0 k bs b e ∙ ap (λ n. some (bucket_line number ns b.le_ns n)) (omega arith)
