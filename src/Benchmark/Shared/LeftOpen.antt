-- ===== src/Benchmark/Shared/LeftOpen.antt =====
-- Which files `BM_SqpollSharedPollerIops` of benchmarks/iops_throughput_benchmark.cpp leaves open.
use ringio.Base.{
  ℕ, suc, ◌+◌, ◌≡◌, ◌≤◌, ◌<◌, ◌==◌, ◌⊎◌, inl, inr, refl, Option, none, some, List, [], ◌∷◌, ◌++◌,
  map, length, not, if◌then◌else◌, if_cases, arith, length-append,
}
use ringio.Base.Sort.{count_if-append}
use ringio.Base.Int.{ℤ, pos, is_zero}
use ringio.Pool.Storage.{Os, Error, BufferPool, construct}
use ringio.Engine.Setup.{register_files, register_buffers}
use ringio.Engine.Tracked.{times}
use ringio.Benchmark.{block_size}
use ringio.Benchmark.Shared.{
  FileCall, creates, opens, unlinks, truncates, closes, Disk, after_open, after_tmp, scratch_file,
  Status, ready, skipped, thrown, Setup, with_pool, with_file, make_contexts, close_all,
  shared_poller_files,
}

-- How often a descriptor was made, and how often it was closed.
abbrev pub made : ℕ → List FileCall → ℕ
made t [] = 0
made t (creates fd ∷ l) = (if fd == t then 1 else 0) + made t l
made t (opens fd ∷ l) = (if fd == t then 1 else 0) + made t l
made t (unlinks ∷ l) = made t l
made t (truncates fd size ∷ l) = made t l
made t (closes fd ∷ l) = made t l

abbrev pub closed : ℕ → List FileCall → ℕ
closed t [] = 0
closed t (creates fd ∷ l) = closed t l
closed t (opens fd ∷ l) = closed t l
closed t (unlinks ∷ l) = closed t l
closed t (truncates fd size ∷ l) = closed t l
closed t (closes fd ∷ l) = (if fd == t then 1 else 0) + closed t l

-- The descriptors that are open when a set-up has come to an end, and at the end of the benchmark.
abbrev pub held : Setup → List ℕ
held s = elim s.status [ ready ↦ s.contexts | skipped ↦ s.contexts | thrown fd ↦ fd ∷ s.contexts ]

abbrev pub left_open : Setup → List ℕ
left_open s = elim s.status [ ready ↦ [] | skipped ↦ s.contexts | thrown fd ↦ fd ∷ s.contexts ]

-- How many contexts there are, of `n` that are wanted.
abbrev pub Counted : ℕ → Setup → Type 0
Counted n s = elim s.status [
  | ready ↦ length s.contexts ≡ n
  | skipped ↦ length s.contexts ≤ n
  | thrown fd ↦ length s.contexts < n
]

module _ (t : ℕ) where
  Balanced : List FileCall → List ℕ → Type 0
  Balanced calls fds = made t calls ≡ closed t calls + times t fds

  made-append : (k l : List FileCall) → made t (k ++ l) ≡ made t k + made t l
  made-append [] l = omega arith
  made-append (creates fd ∷ k) l = ground (arith, made-append k l)
  made-append (opens fd ∷ k) l = ground (arith, made-append k l)
  made-append (unlinks ∷ k) l = made-append k l
  made-append (truncates fd size ∷ k) l = made-append k l
  made-append (closes fd ∷ k) l = made-append k l

  closed-append : (k l : List FileCall) → closed t (k ++ l) ≡ closed t k + closed t l
  closed-append [] l = omega arith
  closed-append (creates fd ∷ k) l = closed-append k l
  closed-append (opens fd ∷ k) l = closed-append k l
  closed-append (unlinks ∷ k) l = closed-append k l
  closed-append (truncates fd size ∷ k) l = closed-append k l
  closed-append (closes fd ∷ k) l = ground (arith, closed-append k l)

  made-closes : (l : List ℕ) → made t (map closes l) ≡ 0
  made-closes [] = refl
  made-closes (x ∷ l) = made-closes l

  closed-closes : (l : List ℕ) → closed t (map closes l) ≡ times t l
  closed-closes [] = refl
  closed-closes (x ∷ l) = ground (arith, closed-closes l)

  -- More calls, with what they leave open.
  Balanced-append :
      (k l : List FileCall) (fds new : List ℕ)
      → Balanced k fds
      → Balanced l new
      → Balanced (k ++ l) (fds ++ new)
  unfolding Balanced
  Balanced-append k l fds new b c =
      omega (arith, made-append k l, closed-append k l, count_if-append (λ x. x == t) fds new, b, c)

  -- More calls, and what they leave open is closed.
  Balanced-closing :
      (k l : List FileCall) (fds : List ℕ) (fd : ℕ)
      → Balanced k fds
      → Balanced l (fd ∷ [])
      → Balanced (k ++ (l ++ (closes fd ∷ []))) fds
  unfolding Balanced
  Balanced-closing k l fds fd b c = omega (
    arith,
    made-append k (l ++ (closes fd ∷ [])),
    closed-append k (l ++ (closes fd ∷ [])),
    made-append l (closes fd ∷ []),
    closed-append l (closes fd ∷ []),
    b,
    c,
  )

  -- What a call leaves open.
  abbrev file_held : Option ℕ → List ℕ
  file_held none = []
  file_held (some fd) = fd ∷ []

  scratch_file-Balanced :
      (disk : Disk) (i : ℕ) → Balanced (scratch_file disk i).1 (file_held (scratch_file disk i).0)
  unfolding Balanced scratch_file after_tmp after_open
  scratch_file-Balanced disk i = go (disk.mkstemp i)
    where
      opened :
          (file : Option ℕ) → Balanced (after_open disk file).1 (file_held (after_open disk file).0)
      opened none = refl
      opened (some fd) = ground arith

      go : (tmp : Option ℕ) → Balanced (after_tmp disk i tmp).1 (file_held (after_tmp disk i tmp).0)
      go none = refl
      go (some tmp_fd) = ground (arith, opened (disk.open_direct i))

  module _ (io_uring_register_files : ℕ → List ℤ → ℕ → ℤ)
      (io_uring_register_buffers : ℕ → List (ℕ × ℕ) → ℕ → ℤ) (disk : Disk) (os : Os)
      (queue_depth : ℕ) where
    abbrev Ended : ℕ → Setup → Type 0
    Ended n s = Balanced s.calls (held s) × Counted n s

    -- One more context, when `rest` ends as it should from the next one on.
    module _ (n m ring : ℕ) (rest : Setup → Setup)
        (again : (contexts : List ℕ) (calls : List FileCall)
          → length contexts + m ≡ n
          → Balanced calls contexts
          → Ended n (rest (record { status = ready; contexts = contexts; calls = calls })))
        (contexts : List ℕ) (more : length contexts + suc m ≡ n) where
      with_pool-Ended :
          (fd : ℕ) (calls : List FileCall) (pool : Error ⊎ BufferPool)
          → Balanced calls (contexts ++ (fd ∷ []))
          → Ended n (
              with_pool io_uring_register_files io_uring_register_buffers disk os queue_depth rest
                ring fd
                (record { status = ready; contexts = contexts; calls = calls })
                pool)
      unfolding with_pool Balanced
      with_pool-Ended fd calls (inl e) b =
          (omega (arith, b, count_if-append (λ x. x == t) contexts (fd ∷ [])), omega (arith, more))
      with_pool-Ended fd calls (inr pool) b =
          if_cases (Ended n) (not (is_zero (register_buffers io_uring_register_buffers ring pool)))
            _ _ (λ _. (b, omega (arith, length-append {0} contexts (fd ∷ []), more)))
            (λ _.
              again (contexts ++ (fd ∷ [])) calls
                (omega (arith, length-append {0} contexts (fd ∷ []), more)) b)

      with_file-Ended :
          (calls : List FileCall) (file : Option ℕ × List FileCall)
          → Balanced calls contexts
          → Balanced file.1 (file_held file.0)
          → Ended n (
              with_file io_uring_register_files io_uring_register_buffers disk os queue_depth rest
                ring
                (record { status = ready; contexts = contexts; calls = calls })
                file)
      unfolding with_file Balanced
      with_file-Ended calls (none, new) b c =
          (omega (arith, made-append calls new, closed-append calls new, b, c), omega (arith, more))
      with_file-Ended calls (some fd, new) b c =
          if_cases (Ended n)
            (not (is_zero (register_files io_uring_register_files ring (pos fd ∷ [])))) _ _
            (λ _. (Balanced-closing calls new contexts fd b c, omega (arith, more)))
            (λ _.
              with_pool-Ended fd (calls ++ new) (construct os queue_depth block_size).0
                (Balanced-append calls new contexts (fd ∷ []) b c))

    make_contexts-Ended :
        (engines : List ℕ) (i n : ℕ) (contexts : List ℕ) (calls : List FileCall)
        → length contexts + length engines ≡ n
        → Balanced calls contexts
        → Ended n (
            make_contexts io_uring_register_files io_uring_register_buffers disk os queue_depth
              engines i
              (record { status = ready; contexts = contexts; calls = calls }))
    unfolding make_contexts
    make_contexts-Ended [] i n contexts calls all b = (b, omega (arith, all))
    make_contexts-Ended (ring ∷ engines) i n contexts calls all b =
        with_file-Ended n (length engines) ring
          (make_contexts io_uring_register_files io_uring_register_buffers disk os queue_depth
            engines (i + 1))
          (make_contexts-Ended engines (i + 1) n) contexts (omega (arith, all)) calls
          (scratch_file disk i) b (scratch_file-Balanced disk i)

    close_all-Ended :
        (n : ℕ) (status : Status) (contexts : List ℕ) (calls : List FileCall)
        → Ended n (record { status = status; contexts = contexts; calls = calls })
        → let s = close_all (record { status = status; contexts = contexts; calls = calls }) in
          Balanced s.calls (left_open s) × Counted n s
    unfolding close_all Balanced
    close_all-Ended n ready contexts calls (b, c) = (
      omega (
        arith,
        made-append calls (map closes contexts),
        closed-append calls (map closes contexts),
        made-closes contexts,
        closed-closes contexts,
        b,
      ),
      c,
    )
    close_all-Ended n skipped contexts calls e = e
    close_all-Ended n (thrown fd) contexts calls e = e

module _ (io_uring_register_files : ℕ → List ℤ → ℕ → ℤ)
    (io_uring_register_buffers : ℕ → List (ℕ × ℕ) → ℕ → ℤ) (disk : Disk) (os : Os)
    (queue_depth : ℕ) where
  -- Whatever the disk, the pools and the kernel answer: every descriptor has been closed as often as
  -- it was made, but for those that are left open. A set-up that is completed makes a context for
  -- each engine, and nothing is left open; one that is skipped leaves the file of every context that
  -- it had made open; and one that a pool's constructor ends leaves the file of that pool open too.
  pub files_left_open :
      (engines : List ℕ)
      → let s =
          shared_poller_files io_uring_register_files io_uring_register_buffers disk os queue_depth
            engines in
        Counted (length engines) s
        × ((t : ℕ) → made t s.calls ≡ closed t s.calls + times t (left_open s))
  unfolding shared_poller_files Balanced
  files_left_open engines =
      let end =
        make_contexts io_uring_register_files io_uring_register_buffers disk os queue_depth engines
          0 (record { status = ready; contexts = []; calls = [] }) in
      let ended = λ (t : ℕ).
        close_all-Ended t io_uring_register_files io_uring_register_buffers disk os queue_depth
          (length engines) end.status end.contexts end.calls
          (make_contexts-Ended t io_uring_register_files io_uring_register_buffers disk os
            queue_depth engines 0 (length engines) [] [] (omega arith) refl) in
      ((ended 0).1, λ t. (ended t).0)
