-- ===== src/Lib.antt =====
-- The concurrency core of ringio: two bounded lock-free rings, the free list of a pool of buffers
-- for direct I/O, the engine that carries requests and completions through an io_uring, and the
-- experiment that opens several such rings and measures them.
--
-- Parts and files:
-- * include/ringio/detail/spsc_ring.hpp is Spsc: the ring of one producer and one consumer.
--   `try_push` and `try_pop` are the calls as functions on the ring; Spsc/Queue says what a bounded
--   queue is and which values a ring holds, and Spsc/Refine connects the two. Spsc/Threads cuts the
--   same bodies where they touch shared memory and lets the two threads interleave; its Fifo and
--   Delivery say what arrives, and when. Spsc/Ordered does so with loads that may be stale, over
--   Memory, which is what the rings use of C++'s atomic variables; its Race says what orders the
--   accesses to a slot.
-- * include/ringio/detail/mpmc_ring.hpp is Mpmc: the ring of any number of producers and consumers.
--   `access` is one access of one thread inside `try_push` or `try_pop`, a failing weak exchange
--   included; Mpmc/System interleaves threads and keeps the history that the theorems speak of,
--   Mpmc/Invariant holds in every reachable state, Mpmc/Fifo, Mpmc/Refusal and Mpmc/Progress draw the
--   consequences, and Mpmc/Quiescent is about the states between calls. Mpmc/Single runs one thread
--   alone: its calls one by one, and as those of a bounded queue. Mpmc/Ordered is the same threads over
--   Memory. Agree runs one script of calls on both rings.
-- * include/ringio/detail/buffer_pool.hpp is Pool: Pool/Pack is the packed head, Pool/FreeList one
--   access of a thread inside `acquire` or `release` and the list that the constructor threads,
--   Pool/Threads the interleavings with the history of each buffer, Pool/Safety what callers may
--   rely on, Pool/Ordered the same threads over Memory with the uses that they make of their
--   buffers, Pool/Solo a thread that runs alone, Pool/Storage the constructor, the destructor and the
--   addresses of the buffers, over what the operating system answers (`Os`), and Pool/Register the
--   registration of its table of buffers with an io_uring.
-- * include/ringio/detail/cache_line.hpp is CacheLine: size and alignment of a padded value.
-- * include/ringio/io_request.hpp, include/ringio/io_completion.hpp and
--   include/ringio/sqpoll_engine.hpp are Engine: the records, and what is asked of liburing (`Uring`)
--   and of the queues (`Source`, `Sink`): the ring of one producer and one consumer is both, in
--   `spsc_source` and `spsc_sink`, and Engine/Mpmc makes the ring of many threads both.
--   Engine/Setup is the constructor, over what Kernel asks of `io_uring_queue_init_params` and of
--   the polling threads, with the destructor and the registrations. Engine/Drain is
--   `drain_and_submit`, which moves requests from a source to the ring, and Engine/Harvest is
--   `harvest_completions`, which moves completions from the ring to a sink. Engine/Producers is a
--   drain of a ring that many threads have pushed into. Engine/Tracked is what
--   io_uring promises of tokens, Engine/Memory an io_uring in memory, and Engine/System the engine
--   between its two rings, a worker at their other ends, and the kernel.
-- * experiments/sqpoll_core_budget.cpp is Experiment: Experiment/Workload is the loop of one thread
--   against a clock, Experiment/Protocol the order of its calls, Experiment/Percentiles what is made of its latencies, and Experiment/Worker the
--   two together; Experiment/Rings opens the rings of a mode (Experiment/Rings/Setup) and says which
--   poller serves each (Experiment/Rings/Pollers), and Experiment/Program is `main`, with its
--   arguments, scratch files, threads and exit codes. Experiment/Causes says
--   what ends a run early, Experiment/Outcome and Experiment/Balanced what it does and gives back, and Experiment/Pinned which cores its
--   threads use.
-- * benchmarks/iops_throughput_benchmark.cpp is Benchmark: one burst of `BM_SqpollIops`, which keeps a
--   window of requests in flight over the engine. Benchmark/Slots is what it gets from the pool,
--   Benchmark/Drained its loop over the completions, Benchmark/Window what each of its moves keeps,
--   and Benchmark/InFlight what is in flight. Benchmark/Shared is the set-up of
--   `BM_SqpollSharedPollerIops`: Benchmark/Shared/Pollers says which thread polls its engines, and
--   Benchmark/Shared/LeftOpen which of its scratch files it leaves open.
-- * Base holds words that wrap, masks and bits, signed differences, families with an update, Boolean
--   tests and a sort.
--
-- Conventions: `std::size_t` is a number below 2 ^ 64 whose arithmetic wraps by remainder;
-- `std::uint32_t` likewise; `std::intptr_t` is a two's complement reading. The memory is
-- sequentially consistent in Spsc/Threads, Mpmc/System and Pool/Threads. Spsc/Ordered,
-- Mpmc/Ordered and Pool/Ordered are the rings and the free list in the memory of the C++ standard,
-- with the orders of the source: a load returns any store that its thread does not know to be
-- overwritten, an acquire load of a release store makes known what happened before it, and a store is
-- made before it is loaded. The source's static assertion on a capacity is the record `IsCapacity`,
-- a power of two below 2 ^ 64. A position that the experiment computes in floating point is computed
-- here in whole numbers.
--
-- Bounds: the theorems of the ring of many threads hold while fewer than 2 ^ 63 steps, less the
-- capacity, have been made, so that no cursor has wrapped and the signed difference of two cursors
-- is exact. The free list's tag may wrap; what is asked instead, in `Timely`, is that no thread is
-- overtaken by 2 ^ 32 exchanges between its load of the head and its own exchange, which is the
-- protection that a tag of 32 bits gives. A loop of a thread is not run on fuel: each of its turns is
-- one step of the relation, and a thread alone returns within a number of accesses that is proved.
-- The experiment's loop runs on fuel, for which the clock's rounds before the end are enough, and so
-- does the benchmark's loop over completions, for which one more than the ring's capacity is.
--
-- Not modelled: the tests and the other benchmarks, which are timing loops and checks around the calls
-- modelled here; of `BM_SqpollIops` its clocks, latencies and back-off; the threads of
-- `BM_SqpollSharedPollerIops`, which run that loop, each on its own engine; and of the experiment its
-- rates and averages in floating point, the line that it prints, and a round of a workload for which
-- `io_uring_get_sqe` has no entry: for `main` it is a thread that does not return.
pub mod Base
pub mod Memory
pub mod Spsc
pub mod Mpmc
pub mod Pool
pub mod Agree
pub mod CacheLine
pub mod Kernel
pub mod Engine
pub mod Experiment
pub mod Benchmark
