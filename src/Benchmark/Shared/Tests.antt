-- ===== src/Benchmark/Shared/Tests.antt =====
-- Three engines and two contexts of `BM_SqpollSharedPollerIops`.
use ringio.Base.{ℕ, ◌+◌, ◌≡◌, ◌==◌, refl, true, some, List, [], ◌∷◌, if◌then◌else◌}
use ringio.Base.Int.{ℤ, pos, negsuc, is_zero}
use ringio.Kernel.Sample.{sample, three_left}
use ringio.Pool.Storage.{Os, construct}
use ringio.Engine.Setup.{register_files, register_buffers}
use ringio.Engine.Tracked.{times}
use ringio.Benchmark.Shared.{Disk, open_engines, shared_poller_files}
use ringio.Benchmark.Shared.Pollers.{Shared, open_engines-Shared}
use ringio.Benchmark.Shared.LeftOpen.{Counted, made, closed, left_open, files_left_open}

open_engines-Shared_example :
    Shared sample 2 three_left (open_engines sample true 1000 2 three_left)
open_engines-Shared_example = open_engines-Shared sample true 1000 2 three_left

abbrev disk : Disk
disk = record {
  mkstemp = λ i. some 10;
  open_direct = λ i. some (10 + i);
  ftruncate = λ fd size. true;
}

abbrev system : Os
system = record {
  page_size = 4096;
  posix_memalign = λ alignment size. (0, 65536);
  mlock = λ base size. 0;
  errno = 12;
  makes_links = λ n. true;
  reserves = λ n. true;
}

-- The second engine, ring 4, refuses its table of files.
abbrev takes_files : ℕ → List ℤ → ℕ → ℤ
takes_files ring fds n = if ring == 4 then negsuc 21 else pos 0

abbrev takes_buffers : ℕ → List (ℕ × ℕ) → ℕ → ℤ
takes_buffers ring iovecs n = pos 0

first_left_open :
    left_open (shared_poller_files takes_files takes_buffers disk system 2 (3 ∷ 4 ∷ [])) ≡ 10 ∷ []
unfolding shared_poller_files is_zero register_files construct register_buffers
first_left_open = refl

files_left_open_example :
    let s = shared_poller_files takes_files takes_buffers disk system 2 (3 ∷ 4 ∷ []) in
    Counted 2 s × ((t : ℕ) → made t s.calls ≡ closed t s.calls + times t (left_open s))
files_left_open_example = files_left_open takes_files takes_buffers disk system 2 (3 ∷ 4 ∷ [])
