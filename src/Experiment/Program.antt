-- ===== src/Experiment/Program.antt =====
-- `main` of experiments/sqpoll_core_budget.cpp: its arguments, scratch files, threads and exit codes.
use ringio.Base.{
  ◌==◌, ℕ, zero, suc, ◌+◌, ◌-◌, ◌*◌, ◌^◌, ◌⊎◌, inl, inr, Bool, Option, none, some, List, [], ◌∷◌,
  ◌++◌, ◌&&◌, map, take, ltb, true, if◌then◌else◌,
}
use Prim.Native.String.{String}
use text.Mathlib.Text
use mathlib.Core.List.{foldl}
use ringio.Base.Int.{ℤ, pos, negsuc}
use ringio.Base.Word.{u32}
use ringio.Kernel.{Kernel}
use ringio.Experiment.Workload.{file_bytes}
use ringio.Experiment.Rings.{Mode, Failure, init_rings}

-- What a run does to its process, besides opening rings.
pub data Effect : Type 0 where
  creates : (fd : ℕ) → Effect
  unlinks : (fd : ℕ) → Effect
  truncates : (fd size : ℕ) → Effect
  starts : (thread ring fd : ℕ) → Effect
  pins : (thread core : ℕ) → Effect
  warns : (thread : ℕ) → Effect
  joins : (thread : ℕ) → Effect
  exits : (ring : ℕ) → Effect
  closes : (fd : ℕ) → Effect

-- How a run ends: with an exit code, with an exception that nobody catches, or in undefined behaviour.
pub data Exit : Type 0 where
  code : ℕ → Exit
  throws : Exit
  undefined : Exit

-- What `mkstemp` answers to its `i`th call, whether `ftruncate` sets a file's size, what
-- `pthread_setaffinity_np` returns for a thread and a core, whether the system starts thread `i`, and
-- whether its workload returns: it does not when `io_uring_get_sqe` has no entry for it.
pub record Host : Type 0 where
  pub mkstemp : ℕ → Option ℕ
  pub ftruncate : ℕ → ℕ → Bool
  pub setaffinity : ℕ → ℕ → ℕ
  pub spawns : ℕ → Bool
  pub returns : ℕ → Bool

-- What follows the answer of `mkstemp`. `none` is an exit with code 1.
unfoldable pub after_mkstemp : Host → Option ℕ → Option ℕ × List Effect
after_mkstemp files none = (none, [])
after_mkstemp files (some fd) =
    let calls = creates fd ∷ unlinks fd ∷ truncates fd file_bytes ∷ [] in
    if files.ftruncate fd file_bytes then (some fd, calls) else (none, calls)

unfoldable pub make_scratch_file : Host → ℕ → Option ℕ × List Effect
unfolding after_mkstemp
make_scratch_file files i = after_mkstemp files (files.mkstemp i)

-- A file, and those after it.
unfoldable pub and_files :
    Option ℕ × List Effect → Option (List ℕ) × List Effect → Option (List ℕ) × List Effect
and_files (none, calls) rest = (none, calls)
and_files (some fd, calls) (none, calls') = (none, calls ++ calls')
and_files (some fd, calls) (some fds, calls') = (some (fd ∷ fds), calls ++ calls')

-- `left` more files, from the `i`th on.
unfoldable pub make_scratch_files : Host → ℕ → ℕ → Option (List ℕ) × List Effect
make_scratch_files files zero i = (some [], [])
make_scratch_files files (suc left) i =
    and_files (make_scratch_file files i) (make_scratch_files files left (i + 1))

-- A refusal is only a warning.
unfoldable pub pin_to_core : Host → ℕ → ℕ → List Effect
pin_to_core host thread core =
    pins thread core ∷ (if host.setaffinity thread core == 0 then [] else warns thread ∷ [])

-- A thread for each ring and its file; a pinned one is moved to its core.
unfoldable pub start_workers : Host → Mode → ℕ → List ℕ → List ℕ → List Effect
unfolding pin_to_core
start_workers host mode i [] fds = []
start_workers host mode i (ring ∷ rings) [] = []
start_workers host mode i (ring ∷ rings) (fd ∷ fds) = starts i ring fd ∷ elim mode [
  | Mode.attach ↦ start_workers host mode (i + 1) rings fds
  | Mode.pinned ↦ pin_to_core host i (2 * i) ++ start_workers host mode (i + 1) rings fds
  | Mode.independent ↦ start_workers host mode (i + 1) rings fds
]

-- How many of `left` threads start, from the `i`th on: the constructor of `std::thread` throws at the
-- first that the system refuses.
unfoldable pub startable : Host → ℕ → ℕ → ℕ
startable host zero i = 0
startable host (suc left) i =
    let rest = startable host left (i + 1) in if host.spawns i then suc rest else 0

unfoldable pub all_return : Host → ℕ → ℕ → Bool
all_return host zero i = true
all_return host (suc left) i = host.returns i && all_return host left (i + 1)

unfoldable pub join_workers : ℕ → ℕ → List Effect
join_workers i zero = []
join_workers i (suc left) = joins i ∷ join_workers (i + 1) left

unfoldable pub mode_of : String → Mode
mode_of text =
    if Text.◌==◌ text "attach"
    then Mode.attach
    else if Text.◌==◌ text "pinned"
    then Mode.pinned
    else Mode.independent

-- `static_cast<unsigned>` of an `int`.
unfoldable pub to_unsigned : ℤ → ℕ
to_unsigned (pos n) = u32 n
to_unsigned (negsuc n) = 2 ^ 32 - 1 - n

-- The rings are there; the threads run, and everything is given back.
unfoldable pub finish : Host → Mode → ℕ → List ℕ → List ℕ → List Effect
finish host mode n rings fds =
    start_workers host mode 0 rings fds ++ (join_workers 0 n ++ (map exits rings ++ map closes fds))

unfoldable pub idle_of : (String → ℤ) → List String → ℕ
unfolding to_unsigned
idle_of atoi [] = 1000
idle_of atoi (text ∷ rest) = to_unsigned (atoi text)

module _ {K : Type 0} (kernel : Kernel K) where
  -- The rings are there. Nobody catches what the constructor of a thread throws.
  unfoldable pub run_threads : Host → Mode → ℕ → List ℕ → List ℕ → K → Exit × List Effect × K
  unfolding startable all_return finish
  run_threads host mode n rings fds k =
      let m = startable host n 0 in
      if ltb m n
      then (throws, start_workers host mode 0 (take m rings) (take m fds), k)
      else if all_return host n 0
      then (code 0, finish host mode n rings fds, foldl kernel.queue_exit k rings)
      else (undefined, start_workers host mode 0 rings fds, k)

  -- What follows the set-up of the rings.
  unfoldable pub after_rings :
      Host → Mode → ℕ → List ℕ → (Failure ⊎ List ℕ) × K → Exit × List Effect × K
  unfolding run_threads
  after_rings host mode n fds (inl Failure.out_of_bounds, k) = (undefined, [], k)
  after_rings host mode n fds (inl (Failure.init_failed e), k) = (code 1, [], k)
  after_rings host mode n fds (inr rings, k) = run_threads host mode n rings fds k

  -- What follows the making of the files.
  unfoldable pub after_files :
      Host → Mode → ℕ → ℕ → Option (List ℕ) × List Effect → K → Exit × List Effect × K
  unfolding after_rings
  after_files host mode idle_ms n (none, calls) k = (code 1, calls, k)
  after_files host mode idle_ms n (some fds, calls) k =
      let (exit, calls', k') = after_rings host mode n fds (init_rings kernel mode idle_ms n k) in
      (exit, calls ++ calls', k')

  unfoldable pub run : Host → Mode → ℕ → ℕ → K → Exit × List Effect × K
  unfolding make_scratch_files after_files
  run host mode idle_ms n k = after_files host mode idle_ms n (make_scratch_files host n 0) k

  -- A negative number of threads is no size of a `std::vector`.
  unfoldable pub program : Host → (String → ℤ) → List String → K → Exit × List Effect × K
  unfolding run mode_of idle_of
  program files atoi (name ∷ mode ∷ threads ∷ rest) k = elim (atoi threads) [
    | pos n ↦ run files (mode_of mode) (idle_of atoi rest) n k
    | negsuc n ↦ (throws, [], k)
  ]
  program files atoi (name ∷ mode ∷ []) k = (code 2, [], k)
  program files atoi (name ∷ []) k = (code 2, [], k)
  program files atoi [] k = (code 2, [], k)
