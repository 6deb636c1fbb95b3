-- ===== src/Pool/Tests.antt =====
-- A pool of three buffers of include/ringio/detail/buffer_pool.hpp in use.
use ringio.Base.{
  ℕ, ◌+◌, ◌-◌, ◌^◌, ◌<◌, ◌≡◌, ◌≢◌, refl, false, arith, true, [], ◌∷◌, ◌≤◌, ℕ_discrete, ◌*◌, leb,
  if◌then◌else◌, update,
}
use ringio.Pool.Pack.{pack, unpack_index, unpack_tag, invalid_index}
use ringio.Pool.FreeList.{
  FreeList, Pc, idle, acquire_load, acquire_next, acquire_cas, acquired, release_load,
  release_store, release_cas, released, access, acquire_top, init, thread_next,
}
use ringio.Pool.Threads.{
  System, pooled, turn, start, OnTime, Timely, Reach, here, next, acts, calls_acquire,
}
use ringio.Pool.Threads.Invariant.{In, Distinct, Chain}
use ringio.Pool.Safety.{list_is_pool, refused_acquire_iff_empty}
use ringio.Base.{length, get_elem?, some, List}
use ringio.Base.Int.{ℤ, pos}
use ringio.Pool.Register.{register_with, registered_buffer}
use ringio.Pool.Solo.{acquire_all, outcomes, fresh_pool_order}
use ringio.Pool.Threads.{countdown}
use ringio.Pool.Storage.{
  Os, Call, construct, life, life_balanced, LifeOf, BufferPool, data_at, buffers_apart, iovecs_from,
}

-- Before 2 ^ 32 exchanges every thread is in time.
OnTime-few : (s : System) (i : ℕ) (pc : Pc) → s.ops < 2 ^ 32 → OnTime s i pc
OnTime-few s i idle h = tt
OnTime-few s i acquire_load h = tt
OnTime-few s i (acquire_next head) h = omega arith
OnTime-few s i (acquire_cas head link) h = omega arith
OnTime-few s i (acquired x) h = tt
OnTime-few s i (release_load x) h = tt
OnTime-few s i (release_store x head) h = omega arith
OnTime-few s i (release_cas x head) h = omega arith
OnTime-few s i released h = tt

Timely-few : (s : System) → s.ops < 2 ^ 32 → Timely s
Timely-few s h i = OnTime-few s i (s.threads i) h

-- Thread 0 is about to take the head of a fresh pool.
abbrev called : System
called = record (start 3) { threads = update (λ i. idle) 0 acquire_load }

abbrev loaded : System
loaded = turn false called 0

abbrev taking : System
taking = turn false loaded 0

taking-Reach : Reach 3 taking
unfolding start turn access acquire_top init pack unpack_index unpack_tag thread_next ℕ_discrete
taking-Reach =
    let called-Reach : Reach 3 called = next here (λ i. tt) (calls_acquire 0 refl) in
    let loaded-Reach : Reach 3 loaded =
      next called-Reach (Timely-few called (omega arith)) (acts 0 false) in
    next loaded-Reach (Timely-few loaded (omega arith)) (acts 0 false)

list_is_pool_example :
    Chain taking.list.free_next (unpack_index taking.list.free_head) taking.stack
    × Distinct taking.stack
    × ((In 1 taking.stack → taking.place 1 ≡ pooled)
        × (taking.place 1 ≡ pooled → In 1 taking.stack))
list_is_pool_example = list_is_pool (omega arith) (omega arith) taking-Reach 1 (omega arith)

refused_acquire_iff_empty_example :
    ((acquire_top taking.list.free_head ≡ acquired invalid_index)
      → (x : ℕ) → x < 3
      → taking.place x ≢ pooled)
    × (((x : ℕ) → x < 3 → taking.place x ≢ pooled)
        → acquire_top taking.list.free_head ≡ acquired invalid_index)
refused_acquire_iff_empty_example =
    refused_acquire_iff_empty (omega arith) (omega arith) taking-Reach

-- The tag is about to wrap.
abbrev worn : FreeList
worn = record (init 3) { free_head = pack 2 (2 ^ 32 - 1) }

fresh_pool_order_example : acquire_all (3 + 1) (init 3) ≡ outcomes (countdown 3)
fresh_pool_order_example = fresh_pool_order 3 (omega arith) (omega arith)

-- A system that refuses to lock more than 16384 bytes.
abbrev small_system : Os
small_system = record {
  page_size = 4096;
  posix_memalign = λ align size. (0, 65536);
  mlock = λ base size. if leb size 16384 then 0 else 1;
  errno = 12;
  makes_links = λ n. true;
  reserves = λ n. true;
}

life_balanced_example : LifeOf small_system 8 4096 (construct small_system 8 4096)
life_balanced_example = life_balanced small_system 8 4096 (λ e q. omega arith)

-- A system whose vector of entries finds no memory.
locked_block_stays :
    life (construct (record small_system { reserves = λ n. false }) 2 4096)
    ≡ Call.allocates 65536 ∷ Call.locks 65536 8192 ∷ []
unfolding life construct
locked_block_stays = refl

abbrev eight : BufferPool
eight = record {
  buffer_size = 4096;
  buffer_count = 8;
  base = 65536;
  locked = true;
  iovecs = iovecs_from 65536 4096 0 8;
  list = init 8;
}

buffers_apart_example :
    (data_at eight 2 + 4095 ≢ data_at eight 3 + 0)
    × (65536 ≤ data_at eight 2)
    × (data_at eight 2 + 4095 < 65536 + 8 * 4096)
buffers_apart_example =
    buffers_apart eight 2 3 4095 0 (omega arith) (omega arith) (omega arith) (λ e. omega arith)
      (omega arith) (omega arith)

-- What a ring of the tests answers is the number of entries.
abbrev counting : ℕ → List (ℕ × ℕ) → ℕ → ℤ
counting ring table n = pos (ring + n)

abbrev three_buffers : BufferPool
three_buffers = record {
  buffer_size = 4096;
  buffer_count = 3;
  base = 65536;
  locked = true;
  iovecs = iovecs_from 65536 4096 0 3;
  list = init 3;
}

registered_buffer_example :
    (register_with counting three_buffers 7 ≡ counting 7 three_buffers.iovecs 3)
    × (length three_buffers.iovecs ≡ 3)
    × (get_elem? three_buffers.iovecs 2 ≡ some (data_at three_buffers 2, 4096))
unfolding construct
registered_buffer_example =
    registered_buffer small_system 3 4096 three_buffers counting 7 2 refl (omega arith)
      (omega arith)
