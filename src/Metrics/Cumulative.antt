-- ===== src/Metrics/Cumulative.antt =====
-- internal/metrics/metrics.go: what the buckets of a snapshot count.
use tailapps.Prelude.{
  ℕ, suc, ◌+◌, ◌*◌, ◌%◌, ◌≤◌, ◌≡◌, refl, ap, ◌∙◌, sym, true, List, [], ◌∷◌, leb, if◌then◌else◌, All,
  All-map, arith, Bool-cases, inl, inr, length,
}
use tailapps.Prelude.Int.{ℤ}
use tailapps.Metrics.Histogram.{
  add_uint64, duration_bounds_ms, Histogram, clipped, count_in, observe_duration, cumulative,
  snapshot_counts, new_histogram,
}

unfoldable pub observe_all : Histogram → List ℤ → Histogram
observe_all h [] = h
observe_all h (d ∷ ds) = observe_all (observe_duration h d) ds

-- How many durations a bound in milliseconds holds.
abbrev pub within : ℕ → List ℤ → ℕ
within bound [] = 0
within bound (d ∷ ds) =
    let rest = within bound ds in if leb (clipped d) (bound * 1_000_000) then 1 + rest else rest

-- The counts raised by one where the bound holds the duration; the total always is.
raised : ℕ → List ℕ → List ℕ → List ℕ
raised d bounds [] = []
raised d [] (c ∷ cs) = add_uint64 c 1 ∷ cs
raised d (b ∷ bounds) (c ∷ cs) =
    (if leb d (b * 1_000_000) then add_uint64 c 1 else c) ∷ raised d bounds cs

-- The bounds ascend.
abbrev Ascending : List ℕ → Type 0
Ascending [] = Unit
Ascending (b ∷ bs) = All (λ c. b ≤ c) bs × Ascending bs

add_swap : (a b : ℕ) → add_uint64 (add_uint64 a 1) b ≡ add_uint64 (add_uint64 a b) 1
unfolding add_uint64
add_swap a b = omega arith

add_last : (a b : ℕ) → add_uint64 a (add_uint64 b 1) ≡ add_uint64 (add_uint64 a b) 1
unfolding add_uint64
add_last a b = omega arith

held : (d b c : ℕ) → leb d (b * 1_000_000) ≡ true → b ≤ c → d ≤ c * 1_000_000
held d b c e k = ground (arith, e, k)

add_zero : (a b : ℕ) → add_uint64 (add_uint64 a b) 0 ≡ add_uint64 a b
unfolding add_uint64
add_zero a b = omega arith

add_one : (a b : ℕ) → add_uint64 (add_uint64 a 1) b ≡ add_uint64 a (1 + b)
unfolding add_uint64
add_one a b = omega arith

add_suc : (a b : ℕ) → add_uint64 (add_uint64 a 1) b ≡ add_uint64 a (suc b)
unfolding add_uint64
add_suc a b = omega arith

-- Two lists of one length.
abbrev Aligned : List ℕ → List ℕ → Type 0
Aligned [] [] = Unit
Aligned (b ∷ bs) (x ∷ xs) = Aligned bs xs
Aligned _ _ = ⊥

cumulative-raised :
    (d sum last : ℕ) (bounds xs : List ℕ)
    → Aligned bounds xs
    → All (λ b. d ≤ b * 1_000_000) bounds
    → cumulative (add_uint64 sum 1) xs last ≡ raised d bounds (cumulative sum xs last)
unfolding cumulative raised
cumulative-raised d sum last [] [] a h = ap (λ n. n ∷ []) (add_swap sum last)
cumulative-raised d sum last [] (x ∷ xs) a h = elim a [ ]
cumulative-raised d sum last (b ∷ bs) [] a h = elim a [ ]
cumulative-raised d sum last (b ∷ bs) (x ∷ xs) a h =
    let hit : leb d (b * 1_000_000) ≡ true = ground (arith, h.0) in
    rw (hit, add_swap sum x)
      (ap (λ l. add_uint64 (add_uint64 sum x) 1 ∷ l)
        (cumulative-raised d (add_uint64 sum x) last bs xs a h.1))

cumulative-count_in :
    (d sum last : ℕ) (bounds xs : List ℕ)
    → Aligned bounds xs
    → Ascending bounds
    → cumulative sum (count_in d bounds xs last).0 (count_in d bounds xs last).1
      ≡ raised d bounds (cumulative sum xs last)
unfolding cumulative raised count_in
cumulative-count_in d sum last [] [] a h = ap (λ n. n ∷ []) (add_last sum last)
cumulative-count_in d sum last [] (x ∷ xs) a h = elim a [ ]
cumulative-count_in d sum last (b ∷ bs) [] a h = elim a [ ]
cumulative-count_in d sum last (b ∷ bs) (x ∷ xs) a h = elim (Bool-cases (leb d (b * 1_000_000))) [
  | inl e ↦ rw e (
      rw (add_last sum x) (
        ap (λ l. add_uint64 (add_uint64 sum x) 1 ∷ l)
          (cumulative-raised d (add_uint64 sum x) last bs xs a
            (All-map (λ c k. held d b c e k) bs h.0))))
  | inr e ↦
      rw e
        (ap (λ l. add_uint64 sum x ∷ l) (cumulative-count_in d (add_uint64 sum x) last bs xs a h.1))
]

count_in-Aligned :
    (d last : ℕ) (bounds xs : List ℕ)
    → Aligned bounds xs
    → Aligned bounds (count_in d bounds xs last).0
unfolding count_in
count_in-Aligned d last [] [] a = tt
count_in-Aligned d last [] (x ∷ xs) a = elim a [ ]
count_in-Aligned d last (b ∷ bs) [] a = elim a [ ]
count_in-Aligned d last (b ∷ bs) (x ∷ xs) a = elim (Bool-cases (leb d (b * 1_000_000))) [
  | inl e ↦ rw e a
  | inr e ↦ rw e (count_in-Aligned d last bs xs a)
]

-- The counts, each raised by the number of the durations that its bound holds, and the total by the
-- number of all.
tally : List ℤ → List ℕ → List ℕ → List ℕ
tally ds bounds [] = []
tally ds [] (c ∷ cs) = add_uint64 c (length ds) ∷ cs
tally ds (b ∷ bounds) (c ∷ cs) = add_uint64 c (within b ds) ∷ tally ds bounds cs

tally-zero :
    (sum last : ℕ) (bounds xs : List ℕ)
    → Aligned bounds xs
    → tally [] bounds (cumulative sum xs last) ≡ cumulative sum xs last
unfolding tally cumulative
tally-zero sum last [] [] a = ap (λ n. n ∷ []) (add_zero sum last)
tally-zero sum last [] (x ∷ xs) a = elim a [ ]
tally-zero sum last (b ∷ bs) [] a = elim a [ ]
tally-zero sum last (b ∷ bs) (x ∷ xs) a =
    rw (add_zero sum x)
      (ap (λ l. add_uint64 sum x ∷ l) (tally-zero (add_uint64 sum x) last bs xs a))

tally-raised :
    (d : ℤ) (ds : List ℤ) (bounds cs : List ℕ)
    → tally ds bounds (raised (clipped d) bounds cs) ≡ tally (d ∷ ds) bounds cs
unfolding tally raised
tally-raised d ds bounds [] = refl
tally-raised d ds [] (c ∷ cs) = ap (λ n. n ∷ cs) (add_suc c (length ds))
tally-raised d ds (b ∷ bs) (c ∷ cs) = elim (Bool-cases (leb (clipped d) (b * 1_000_000))) [
  | inl e ↦
      rw (e, add_one c (within b ds))
        (ap (λ l. add_uint64 c (1 + within b ds) ∷ l) (tally-raised d ds bs cs))
  | inr e ↦ rw e (ap (λ l. add_uint64 c (within b ds) ∷ l) (tally-raised d ds bs cs))
]

observe_duration-raised :
    (h : Histogram) (d : ℤ)
    → Aligned duration_bounds_ms h.buckets
    → (Aligned duration_bounds_ms (observe_duration h d).buckets)
      × (snapshot_counts (observe_duration h d)
          ≡ raised (clipped d) duration_bounds_ms (snapshot_counts h))
unfolding observe_duration snapshot_counts
observe_duration-raised h d a = (
  count_in-Aligned (clipped d) h.last duration_bounds_ms h.buckets a,
  cumulative-count_in (clipped d) 0 h.last duration_bounds_ms h.buckets a
      (unfold duration_bounds_ms in omega arith),
)

observe_all-tally :
    (h : Histogram) (ds : List ℤ)
    → Aligned duration_bounds_ms h.buckets
    → snapshot_counts (observe_all h ds) ≡ tally ds duration_bounds_ms (snapshot_counts h)
unfolding observe_all snapshot_counts
observe_all-tally h [] a = sym (tally-zero 0 h.last duration_bounds_ms h.buckets a)
observe_all-tally h (d ∷ ds) a =
    let (a', e) = observe_duration-raised h d a in
    observe_all-tally (observe_duration h d) ds a'
    ∙ ap (tally ds duration_bounds_ms) e
    ∙ tally-raised d ds duration_bounds_ms (cumulative 0 h.buckets h.last)

-- For each bound the number of durations that it holds, and last the number of all, as uint64.
abbrev pub distribution : List ℤ → List ℕ → List ℕ
distribution ds [] = (length ds % 18_446_744_073_709_551_616) ∷ []
distribution ds (b ∷ bounds) = (within b ds % 18_446_744_073_709_551_616) ∷ distribution ds bounds

abbrev zeros : List ℕ → List ℕ
zeros [] = 0 ∷ []
zeros (b ∷ bounds) = 0 ∷ zeros bounds

from_zero : (n : ℕ) → add_uint64 0 n ≡ n % 18_446_744_073_709_551_616
unfolding add_uint64
from_zero n = omega arith

tally-zeros :
    (ds : List ℤ) (bounds : List ℕ) → tally ds bounds (zeros bounds) ≡ distribution ds bounds
unfolding tally
tally-zeros ds [] = ap (λ n. n ∷ []) (from_zero (length ds))
tally-zeros ds (b ∷ bounds) =
    rw (from_zero (within b ds))
      (ap (λ l. (within b ds % 18_446_744_073_709_551_616) ∷ l) (tally-zeros ds bounds))

new_histogram-Aligned : Aligned duration_bounds_ms (Histogram.buckets new_histogram)
unfolding duration_bounds_ms new_histogram
new_histogram-Aligned = tt

new_histogram-zeros : snapshot_counts new_histogram ≡ zeros duration_bounds_ms
unfolding snapshot_counts cumulative duration_bounds_ms new_histogram add_uint64
new_histogram-zeros = refl

-- After any durations were observed by a new histogram, its snapshot tells for each bound how many of
-- them the bound holds, a negative duration counting as zero, and in total how many there were, each
-- number modulo 2^64.
pub snapshot_counts-observe_all :
    (ds : List ℤ)
    → snapshot_counts (observe_all new_histogram ds) ≡ distribution ds duration_bounds_ms
snapshot_counts-observe_all ds =
    observe_all-tally new_histogram ds new_histogram-Aligned
    ∙ ap (tally ds duration_bounds_ms) new_histogram-zeros
    ∙ tally-zeros ds duration_bounds_ms
