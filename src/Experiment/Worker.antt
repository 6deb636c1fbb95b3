-- ===== src/Experiment/Worker.antt =====
-- `RunWorkload` of experiments/sqpoll_core_budget.cpp, from its loop to its percentiles.
use ringio.Base.{ℕ, zero, suc, ◌+◌, ◌*◌, ◌≤◌, ◌<◌, ◌≡◌, refl, Option, none, some, length, arith}
use ringio.Experiment.Workload.{Run, run_duration, file_blocks, run_rounds, run_rounds_lem}
use ringio.Experiment.Percentiles.{ThreadResult, thread_result, IsPercentile, thread_result_lem}

-- `none` is a loop that has not ended on its fuel, or an access behind the end of the latencies.
unfoldable pub run_workload : (clock draws : ℕ → ℕ) → ℕ → Option (Run × ThreadResult)
run_workload clock draws fuel = elim (run_rounds clock draws fuel) [
  | none ↦ none
  | some t ↦ elim (thread_result t.latencies_ns) [ none ↦ none | some result ↦ some (t, result) ]
]

ops_pos :
    (clock : ℕ → ℕ) (ops : ℕ)
    → clock 2 < clock 0 + run_duration
    → clock 0 + run_duration ≤ clock (3 * ops + 2)
    → 1 ≤ ops
ops_pos clock zero early over = absurd (omega (arith, early, over))
ops_pos clock (suc ops) early over = omega arith

-- When the clock never goes back, gains at least a nanosecond in every round, and has not reached the
-- deadline when the loop starts, and every draw is the number of a block, a workload ends: it has made
-- at least one operation, has one latency for each, no access is behind the end of the sorted
-- latencies, and the two numbers of its result are the 50th and the 99th percentile of them.
pub run_workload_lem :
    (clock draws : ℕ → ℕ)
    → ((i : ℕ) → clock i ≤ clock (i + 1))
    → ((i : ℕ) → clock i < clock (i + 3))
    → ((i : ℕ) → draws i < file_blocks)
    → clock 2 < clock 0 + run_duration
    → (t : Run) × (r : ThreadResult) × (run_workload clock draws (run_duration + 1) ≡ some (t, r))
      × (1 ≤ t.ops)
      × (length t.latencies_ns ≡ t.ops)
      × IsPercentile t.latencies_ns 50 (r.p50_ns)
      × IsPercentile t.latencies_ns 99 (r.p99_ns)
unfolding run_workload
run_workload_lem clock draws steady gains inside early =
    let (t, e, counted, _, _, _, over, most) = run_rounds_lem clock draws steady gains inside in
    let some_op : 1 ≤ t.ops = ops_pos clock (t.ops) early over in
    let (r, e', p50, p99) =
      thread_result_lem (t.latencies_ns) (omega (arith, counted)) (omega (arith, counted, most)) in
    (t, r, rw (run_workload, e, e') refl, some_op, counted, p50, p99)
