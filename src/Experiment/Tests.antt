-- ===== src/Experiment/Tests.antt =====
-- Runs of experiments/sqpoll_core_budget.cpp with given readings of the clock, draws and answers of
-- the kernel.
use ringio.Base.{
  ℕ, ◌==◌, true, ◌+◌, ◌*◌, ◌%◌, ◌≤◌, ◌≡◌, refl, some, List, [], ◌∷◌, length, All, arith,
}
use Prim.Native.String.{String}
use ringio.Base.Int.{ℤ, pos}
use ringio.Base.Sort.{sort}
use ringio.Kernel.Sample.{sample, three_left}
use ringio.Experiment.Protocol.{between, obeys, transfers}
use ringio.Experiment.Workload.{
  Run, run_duration, file_blocks, run_rounds, alternating, InFile, run_rounds_lem,
}
use ringio.Experiment.Percentiles.{ThreadResult, thread_result, at_percent, IsPercentile}
use ringio.Experiment.Rings.{Mode, Ends, init_rings, init_rings-Ends}
use ringio.Experiment.Program.{
  Host, code, throws, program, run, after_files, after_rings, run_threads, startable, all_return,
  make_scratch_files, make_scratch_file, after_mkstemp, and_files, mode_of, idle_of,
}
use ringio.Experiment.Worker.{run_workload, run_workload_lem}

-- A reading every millisecond.
abbrev clock : ℕ → ℕ
clock i = i * 1_000_000

abbrev draws : ℕ → ℕ
draws i = i * 7919 % file_blocks

run_rounds_lem_example :
    (t : Run) × (run_rounds clock draws (run_duration + 1) ≡ some t)
    × (length t.latencies_ns ≡ t.ops)
    × (obeys (some between) t.calls ≡ some between)
    × (transfers t.calls ≡ alternating clock draws t.ops)
    × All (InFile clock draws) t.calls
    × (clock 0 + run_duration ≤ clock (3 * t.ops + 2))
    × (t.ops ≤ run_duration + 1)
run_rounds_lem_example =
    run_rounds_lem clock draws (λ i. omega arith) (λ i. omega arith) (λ i. omega arith)

abbrev latencies : List ℕ
latencies = 30 ∷ 10 ∷ 50 ∷ 20 ∷ 40 ∷ []

latencies_result : thread_result latencies ≡ some (record { p50_ns = 30; p99_ns = 50 })
unfolding thread_result at_percent sort
latencies_result = refl

init_rings-Ends_example :
    Ends sample Mode.attach 1000 3 three_left 3 (init_rings sample Mode.attach 1000 3 three_left)
init_rings-Ends_example = init_rings-Ends sample Mode.attach 1000 3 three_left (omega arith)

abbrev files : Host
files = record {
  mkstemp = λ i. some (10 + i);
  ftruncate = λ fd size. true;
  setaffinity = λ i core. 0;
  spawns = λ i. true;
  returns = λ i. true;
}

-- Every number is read as 2.
abbrev two : String → ℤ
two text = pos 2

ends_well : (program sample files two ("budget" ∷ "attach" ∷ "2" ∷ []) three_left).0 ≡ code 0
unfolding program run after_files after_rings run_threads startable all_return make_scratch_files
    make_scratch_file after_mkstemp and_files init_rings mode_of idle_of
ends_well = refl

-- The second thread is refused.
ends_by_throwing :
    (program sample
      (record files { spawns = λ i. i == 0 })
      two
      ("budget" ∷ "attach" ∷ "2" ∷ [])
      three_left).0
    ≡ throws
unfolding program run after_files after_rings run_threads startable make_scratch_files
    make_scratch_file after_mkstemp and_files init_rings mode_of idle_of
ends_by_throwing = refl

run_workload_lem_example :
    (t : Run) × (r : ThreadResult) × (run_workload clock draws (run_duration + 1) ≡ some (t, r))
    × (1 ≤ t.ops)
    × (length t.latencies_ns ≡ t.ops)
    × IsPercentile t.latencies_ns 50 (r.p50_ns)
    × IsPercentile t.latencies_ns 99 (r.p99_ns)
run_workload_lem_example =
    run_workload_lem clock draws (λ i. omega arith) (λ i. omega arith) (λ i. omega arith)
      (omega arith)
