-- ===== src/Benchmark/Tests.antt =====
-- A window of two slots of benchmarks/iops_throughput_benchmark.cpp.
use ringio.Base.{ℕ, ◌*◌, ◌%◌, ◌≡◌, refl, true, [], arith, ℕ_discrete}
use ringio.Base.Int.{pos}
use ringio.Base.Word.{IsCapacity, slot_index}
use ringio.Spsc.{init as spsc_init, try_push, try_pop}
use ringio.Pool.Storage.{BufferPool, iovecs_from}
use ringio.Pool.FreeList.{init}
use ringio.Engine.{read, IoRequest, IoCompletion}
use ringio.Engine.Drain.{drain, drain_and_submit, entry}
use ringio.Engine.Memory.{Memory, memory_tracked, under_way, finish, finish-under_way}
use ringio.Engine.System.{push_request, submit_pass}
use ringio.Benchmark.{
  Pipeline, new_pipeline, begin, fill, submit, request_again, make_request, round, Burst, begins,
  turns, completes,
}

four : IsCapacity 4
four = record { exponent = 2; fits = omega arith; power = refl }

abbrev blank_request : IoRequest
blank_request = record {
  op = read;
  fixed_fd_index = pos 0;
  buffer_index = 0;
  offset = 0;
  length = 0;
  token = 0;
}

abbrev blank : IoCompletion
blank = record { token = 0; result = pos 0 }

abbrev buffers : BufferPool
buffers = record {
  buffer_size = 4096;
  buffer_count = 2;
  base = 65536;
  locked = true;
  iovecs = iovecs_from 65536 4096 0 2;
  list = init 2;
}

abbrev quiet : Memory
quiet = record { free = 8; waiting = []; sent = []; running = []; finished = [] }

abbrev draws : ℕ → ℕ
draws i = i * 7919 % 262144

abbrev p0 : Pipeline Memory
p0 = new_pipeline memory_tracked four four buffers draws blank_request blank quiet

abbrev p1 : Pipeline Memory
p1 = begin memory_tracked four four buffers draws 2 p0

abbrev p2 : Pipeline Memory
p2 = record p1 { system = record (p1.system) { uring = finish p1.system.uring } }

abbrev p3 : Pipeline Memory
p3 = round memory_tracked four four buffers draws 2 p2

abbrev reached : Burst memory_tracked four four buffers draws 2 blank_request blank p3
reached = turns (
    completes (finish p1.system.uring) (begins quiet refl (λ t. refl)) refl
      (finish-under_way p1.system.uring))

-- A second burst that begins before the first one's requests are back.
twice : under_way ((begin memory_tracked four four buffers draws 2 p1).system.uring) 0 ≡ 2
unfolding begin fill submit request_again make_request push_request submit_pass drain
    drain_and_submit entry try_push try_pop spsc_init ringio.Pool.Solo.acquire_all ℕ_discrete
    slot_index ringio.Pool.Solo.acquire ringio.Pool.Solo.solo ringio.Pool.FreeList.access
    ringio.Pool.Pack.unpack_index init ringio.Pool.Pack.pack ringio.Pool.Pack.unpack_tag
twice = refl
