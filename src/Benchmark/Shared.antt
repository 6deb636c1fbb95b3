-- ===== src/Benchmark/Shared.antt =====
-- How `BM_SqpollSharedPollerIops` of benchmarks/iops_throughput_benchmark.cpp sets up: one engine that
-- polls, the others that attach to it, and a scratch file and a pool for each.
pub mod Pollers
pub mod LeftOpen
mod Tests
use ringio.Base.{
  ℕ, zero, suc, ◌+◌, ◌⊎◌, inl, inr, Bool, Option, none, some, List, [], ◌∷◌, ◌++◌, map, not,
  if◌then◌else◌,
}
use ringio.Base.Int.{ℤ, pos, is_zero}
use ringio.Kernel.{Kernel}
use ringio.Engine.Setup.{open_engine, register_files, register_buffers}
use ringio.Pool.Storage.{Os, Error, BufferPool, construct}
use ringio.Benchmark.{block_size, file_bytes}

-- `kRingEntries`.
abbrev pub ring_entries : ℕ
ring_entries = 256

-- The first engine is refused, and the benchmark skipped; a later one is, and nobody catches the
-- exception; or they run.
pub data Engines : Type 0 where
  unavailable : (error : ℕ) → Engines
  uncaught : (error : ℕ) → Engines
  running : (master : ℕ) (followers : List ℕ) → Engines

module _ {K : Type 0} (kernel : Kernel K) (has_register : Bool) (idle : ℕ) where
  -- What follows the constructor of a follower.
  unfoldable pub attached : (K → List ℕ → Engines × K) → List ℕ → (ℕ ⊎ ℕ) × K → Engines × K
  attached rest followers (inl e, k) = (Engines.uncaught e, k)
  attached rest followers (inr fd, k) = rest k (followers ++ (fd ∷ []))

  -- `left` more followers.
  unfoldable pub open_followers : ℕ → ℕ → K → List ℕ → Engines × K
  unfolding attached
  open_followers master zero k followers = (Engines.running master followers, k)
  open_followers master (suc left) k followers =
      attached (open_followers master left) followers
        (open_engine kernel has_register k ring_entries idle (some master))

  -- What follows the constructor of the master.
  unfoldable pub with_master : ℕ → (ℕ ⊎ ℕ) × K → Engines × K
  unfolding open_followers
  with_master followers (inl e, k) = (Engines.unavailable e, k)
  with_master followers (inr fd, k) = open_followers fd followers k []

  -- The engines of `followers + 1` threads.
  unfoldable pub open_engines : ℕ → K → Engines × K
  unfolding with_master
  open_engines followers k =
      with_master followers (open_engine kernel has_register k ring_entries idle none)

pub data FileCall : Type 0 where
  creates : (fd : ℕ) → FileCall
  opens : (fd : ℕ) → FileCall
  unlinks : FileCall
  truncates : (fd size : ℕ) → FileCall
  closes : (fd : ℕ) → FileCall

-- What `mkstemp` and `open` answer when they are called for thread `i`, and whether `ftruncate` sets
-- a file's size.
pub record Disk : Type 0 where
  pub mkstemp : ℕ → Option ℕ
  pub open_direct : ℕ → Option ℕ
  pub ftruncate : ℕ → ℕ → Bool

-- What follows the answer of `open`.
unfoldable pub after_open : Disk → Option ℕ → Option ℕ × List FileCall
after_open disk none = (none, unlinks ∷ [])
after_open disk (some fd) =
    let calls = opens fd ∷ unlinks ∷ truncates fd file_bytes ∷ [] in
    if disk.ftruncate fd file_bytes then (some fd, calls) else (none, calls ++ (closes fd ∷ []))

-- What follows the answer of `mkstemp`.
unfoldable pub after_tmp : Disk → ℕ → Option ℕ → Option ℕ × List FileCall
unfolding after_open
after_tmp disk i none = (none, [])
after_tmp disk i (some tmp_fd) =
    let (file, calls) = after_open disk (disk.open_direct i) in
    (file, creates tmp_fd ∷ closes tmp_fd ∷ calls)

unfoldable pub scratch_file : Disk → ℕ → Option ℕ × List FileCall
unfolding after_tmp
scratch_file disk i = after_tmp disk i (disk.mkstemp i)

-- The set-up is done; it is skipped; or the constructor of a pool has thrown, behind the file `fd`.
pub data Status : Type 0 where
  ready : Status
  skipped : Status
  thrown : (fd : ℕ) → Status

-- How far the set-up has come: the files of `contexts`, and the calls so far.
pub record Setup : Type 0 where
  pub status : Status
  pub contexts : List ℕ
  pub calls : List FileCall

-- What the whole benchmark does with files: the end closes them, the early returns do not.
unfoldable pub close_all : Setup → Setup
close_all s = elim s.status [
  | ready ↦ record s { calls = s.calls ++ map closes s.contexts }
  | skipped ↦ s
  | thrown fd ↦ s
]

module _ (io_uring_register_files : ℕ → List ℤ → ℕ → ℤ)
    (io_uring_register_buffers : ℕ → List (ℕ × ℕ) → ℕ → ℤ) (disk : Disk) (os : Os)
    (queue_depth : ℕ) where
  -- A context has its file and its pool; its engine takes the pool's buffers.
  unfoldable pub with_pool : (Setup → Setup) → ℕ → ℕ → Setup → Error ⊎ BufferPool → Setup
  with_pool rest ring fd s (inl e) = record s { status = thrown fd }
  with_pool rest ring fd s (inr pool) =
      let s' = record s { contexts = s.contexts ++ (fd ∷ []) } in
      let on = rest s' in
      if not (is_zero (register_buffers io_uring_register_buffers ring pool))
      then record s' { status = skipped }
      else on

  -- There is a file, and the engine takes it; or there is none.
  unfoldable pub with_file : (Setup → Setup) → ℕ → Setup → Option ℕ × List FileCall → Setup
  unfolding with_pool
  with_file rest ring s (none, calls) = record s { status = skipped; calls = s.calls ++ calls }
  with_file rest ring s (some fd, calls) =
      if not (is_zero (register_files io_uring_register_files ring (pos fd ∷ [])))
      then record s { status = skipped; calls = s.calls ++ (calls ++ (closes fd ∷ [])) }
      else with_pool rest ring fd (record s { calls = s.calls ++ calls })
          (construct os queue_depth block_size).0

  -- A context for each of `engines`, from thread `i` on.
  unfoldable pub make_contexts : List ℕ → ℕ → Setup → Setup
  unfolding with_file scratch_file
  make_contexts [] i s = s
  make_contexts (ring ∷ engines) i s =
      with_file (make_contexts engines (i + 1)) ring s (scratch_file disk i)

  unfoldable pub shared_poller_files : List ℕ → Setup
  unfolding make_contexts close_all
  shared_poller_files engines =
      close_all (make_contexts engines 0 (record { status = ready; contexts = []; calls = [] }))
