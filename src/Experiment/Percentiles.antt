-- ===== src/Experiment/Percentiles.antt =====
-- What `RunWorkload` of experiments/sqpoll_core_budget.cpp makes of its latencies.
use ringio.Base.{
  ℕ, ◌+◌, ◌-◌, ◌*◌, ◌/◌, ◌≤◌, ◌<◌, ◌^◌, ◌≡◌, refl, ap, Option, none, some, List, [], ◌∷◌, length,
  get_elem?, leb, arith,
}
use ringio.Base.Word.{u64}
use ringio.Base.Sort.{sort, count_if, count_if-sort, length-sort, sort-SortedFrom, rank}

-- `latencies[size * percent / 100]`; `none` is an access behind the end.
unfoldable pub at_percent : List ℕ → ℕ → Option ℕ
at_percent sorted percent = get_elem? sorted (u64 (length sorted * percent) / 100)

-- The percentiles stay 0 when there are no latencies.
pub record ThreadResult : Type 0 where
  pub p50_ns : ℕ
  pub p99_ns : ℕ

unfoldable pub thread_result : List ℕ → Option ThreadResult
thread_result latencies_ns =
    let sorted = sort latencies_ns in
    elim latencies_ns [
      | [] ↦ some (record { p50_ns = 0; p99_ns = 0 })
      | x ∷ l ↦ elim (at_percent sorted 50) [
        | none ↦ none
        | some p50 ↦ elim (at_percent sorted 99) [
          | none ↦ none
          | some p99 ↦ some (record { p50_ns = p50; p99_ns = p99 })
        ]
      ]
    ]

-- `v` is a percentile of the latencies: at least that share of them is at most `v`, and the others
-- but one are at least `v`.
abbrev pub IsPercentile : List ℕ → ℕ → ℕ → Type 0
IsPercentile latencies_ns percent v =
    (length latencies_ns * percent ≤ 100 * count_if (λ x. leb x v) latencies_ns)
    × (length latencies_ns * (100 - percent) ≤ 100 * count_if (leb v) latencies_ns)

percentile :
    (l : List ℕ) (percent : ℕ)
    → 1 ≤ length l
    → length l * percent ≤ length l * 99
    → length l * (100 - percent) + length l * percent ≡ length l * 100
    → length l * 100 < 2 ^ 64
    → (v : ℕ) × (at_percent (sort l) percent ≡ some v) × IsPercentile l percent v
unfolding at_percent
percentile l percent some_latency part whole small =
    let k : ℕ = u64 (length (sort l) * percent) / 100 in
    let size : length (sort l) * percent ≡ length l * percent =
      ap (λ (n : ℕ). n * percent) (length-sort l) in
    let inside : k < length (sort l) = omega (arith, size, length-sort l) in
    let (v, e, _, low, high) = rank 0 (sort l) k (sort-SortedFrom l) inside in
    let low' : length l * percent ≤ 100 * count_if (λ x. leb x v) l =
      omega (arith, low, size, count_if-sort (λ x. leb x v) l) in
    let high' : length l * (100 - percent) ≤ 100 * count_if (leb v) l =
      omega (arith, high, size, length-sort l, count_if-sort (leb v) l) in
    (v, e, (low', high'))

-- With at least one latency and fewer than 2 ^ 64 / 100, no access is behind the end of the sorted
-- latencies, and the two numbers of the result are the 50th and the 99th percentile: at least that
-- share of the latencies is at most the number, and at least the remaining share is at least it.
pub thread_result_lem :
    (latencies_ns : List ℕ)
    → 1 ≤ length latencies_ns
    → length latencies_ns * 100 < 2 ^ 64
    → (r : ThreadResult) × (thread_result latencies_ns ≡ some r)
      × IsPercentile latencies_ns 50 (r.p50_ns)
      × IsPercentile latencies_ns 99 (r.p99_ns)
unfolding thread_result
thread_result_lem [] some_latency small = absurd (omega arith)
thread_result_lem (x ∷ l) some_latency small =
    let (v, e, p) = percentile (x ∷ l) 50 (omega arith) (omega arith) (omega arith) small in
    let (w, e', p') = percentile (x ∷ l) 99 (omega arith) (omega arith) (omega arith) small in
    (record { p50_ns = v; p99_ns = w }, rw (thread_result, e, e') refl, p, p')
