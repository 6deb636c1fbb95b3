-- ===== src/Benchmark/InFlight.antt =====
-- The turns of a burst of benchmarks/iops_throughput_benchmark.cpp keep its window.
use ringio.Base.{ℕ, ◌≤◌}
use ringio.Base.Word.{IsCapacity}
use ringio.Pool.Storage.{BufferPool}
use ringio.Engine.{IoRequest, IoCompletion, Uring}
use ringio.Engine.Tracked.{Tracked}
use ringio.Engine.System.{System, completes}
use ringio.Benchmark.{Pipeline}
use ringio.Benchmark.{completes as completes_burst}
use ringio.Benchmark.Window.{Windowed}

module _ {R S C : Type 0} {io : Uring R S C} (tracked : Tracked io) {cap cap' : ℕ}
    (c : IsCapacity cap) (c' : IsCapacity cap') (pool : BufferPool) (draws : ℕ → ℕ)
    (request : IoRequest) (blank : IoCompletion) (n : ℕ) (fits_requests : n ≤ cap)
    (fits_completions : n ≤ cap') where
  abbrev InWindow : (ℕ → ℕ) → Pipeline R → Type 0
  InWindow = Windowed tracked c c' pool draws request blank n fits_requests fits_completions
