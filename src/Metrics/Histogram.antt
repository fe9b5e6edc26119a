-- ===== src/Metrics/Histogram.antt =====
-- internal/metrics/metrics.go: durationBoundsMS and histogram. Durations are int64 nanoseconds.
use tailapps.Prelude.{ℕ, ◌+◌, ◌*◌, ◌/◌, ◌%◌, List, [], ◌∷◌, leb, if◌then◌else◌}
use tailapps.Prelude.Int.{ℤ, pos, negsuc}

-- The Add of an atomic.Uint64.
unfoldable pub add_uint64 : ℕ → ℕ → ℕ
add_uint64 a b = (a + b) % 18_446_744_073_709_551_616

unfoldable pub duration_bounds_ms : List ℕ
duration_bounds_ms = 1 ∷ 5 ∷ 10 ∷ 25 ∷ 50 ∷ 100 ∷ 250 ∷ 500 ∷ 1_000 ∷ 2_500 ∷ 5_000 ∷ 10_000 ∷ []

-- `last` is the bucket past the bounds.
pub record Histogram : Type 0 where
  pub sum_micros : ℕ
  pub buckets : List ℕ
  pub last : ℕ

-- `if duration < 0 { duration = 0 }`
abbrev pub clipped : ℤ → ℕ
clipped (pos n) = n
clipped (negsuc n) = 0

-- The bucket of the first bound that a duration does not pass, or the last one.
unfoldable pub count_in : ℕ → List ℕ → List ℕ → ℕ → List ℕ × ℕ
count_in duration [] buckets last = (buckets, add_uint64 last 1)
count_in duration (bound ∷ bounds) [] last = ([], add_uint64 last 1)
count_in duration (bound ∷ bounds) (x ∷ xs) last =
    let rest = count_in duration bounds xs last in
    if leb duration (bound * 1_000_000) then (add_uint64 x 1 ∷ xs, last) else (x ∷ rest.0, rest.1)

unfoldable pub observe_duration : Histogram → ℤ → Histogram
observe_duration h duration =
    let counted = count_in (clipped duration) duration_bounds_ms h.buckets h.last in
    record {
      sum_micros = add_uint64 h.sum_micros (clipped duration / 1_000);
      buckets = counted.0;
      last = counted.1;
    }

-- The counts that the snapshot gives, in the order of the bounds; the last one is also the total.
unfoldable pub cumulative : ℕ → List ℕ → ℕ → List ℕ
cumulative sum [] last = add_uint64 sum last ∷ []
cumulative sum (x ∷ xs) last = add_uint64 sum x ∷ cumulative (add_uint64 sum x) xs last

unfoldable pub snapshot_counts : Histogram → List ℕ
snapshot_counts h = cumulative 0 h.buckets h.last

unfoldable pub new_histogram : Histogram
new_histogram = record {
  sum_micros = 0;
  buckets = 0 ∷ 0 ∷ 0 ∷ 0 ∷ 0 ∷ 0 ∷ 0 ∷ 0 ∷ 0 ∷ 0 ∷ 0 ∷ 0 ∷ [];
  last = 0;
}
