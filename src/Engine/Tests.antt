-- ===== src/Engine/Tests.antt =====
-- One pass of include/ringio/sqpoll_engine.hpp over a ring in memory with two free entries.
use ringio.Base.{
  ℕ, zero, suc, update, false, ℕ_discrete, ◌-◌, ◌≤◌, ◌<◌, ◌≡◌, ◌⊎◌, refl, true, List, [], ◌∷◌, ◌++◌,
  take, drop, map, length, min, arith,
}
use ringio.Base.Int.{ℤ, pos, negsuc}
use ringio.Base.Word.{IsCapacity}
use ringio.Spsc.{SpscRing}
use ringio.Spsc.Queue.{contents}
use ringio.Spsc.Refine.{IsValid}
use ringio.Pool.Storage.{BufferPool, iovecs_from}
use ringio.Pool.FreeList.{init}
use ringio.Engine.{write, IoRequest, IoCompletion, spsc_source, spsc_sink}
use ringio.Base.Int.{to_intptr, ◌-ℤ◌, is_zero, is_negative}
use ringio.Base.Word.{slot_index}
use ringio.Mpmc.{push_load, access, init as mpmc_init}
use ringio.Mpmc.System.{System as Producers, Reach, turn, start, here, next, acts, calls_push}
use ringio.Mpmc.Quiescent.Contents.{IsQuiet, values}
use ringio.Engine.Mpmc.{mpmc_source}
use ringio.Engine.Producers.{drains_producers}
use ringio.Engine.Memory.{Memory, in_memory}
use ringio.Engine.Drain.{Submits, entry, drain_and_submit, drain_and_submit_lem}
use ringio.Engine.Harvest.{completion, harvest_completions, harvest_completions_lem}

four : IsCapacity 4
four = record { exponent = 2; fits = omega arith; power = refl }

abbrev request : ℕ → IoRequest
request t = record {
  op = write;
  fixed_fd_index = pos 0;
  buffer_index = t;
  offset = 0;
  length = 512;
  token = t;
}

-- Three requests wait.
abbrev requests : SpscRing IoRequest
requests = record { head = 0; tail = 3; buffer = request }

requests-IsValid : IsValid 4 requests
requests-IsValid = omega arith

abbrev two_free : Memory
two_free = record {
  free = 2;
  waiting = [];
  sent = [];
  running = [];
  finished = (7, pos 512) ∷ (8, negsuc 4) ∷ [];
}

abbrev buffers : BufferPool
buffers = record {
  buffer_size = 4096;
  buffer_count = 8;
  base = 65536;
  locked = true;
  iovecs = iovecs_from 65536 4096 0 8;
  list = init 8;
}

drain_and_submit_lem_example :
    (n : ℕ) × ((drain_and_submit in_memory (spsc_source four) buffers 32 requests two_free).0 ≡ n)
    × (in_memory.submitted
          (drain_and_submit in_memory (spsc_source four) buffers 32 requests two_free).2
        ≡ [] ++ map (entry in_memory (spsc_source four) buffers) (take n (contents 4 requests)))
    × (((n ≡ min 32 (length (contents 4 requests)))
          × (contents 4
                (drain_and_submit in_memory (spsc_source four) buffers 32 requests two_free).1
              ≡ drop n (contents 4 requests)))
        ⊎ ((n < min 32 (length (contents 4 requests)))
            × (2 ≤ n)
            × (contents 4
                  (drain_and_submit in_memory (spsc_source four) buffers 32 requests two_free).1
                ≡ drop (suc n) (contents 4 requests))))
drain_and_submit_lem_example =
    drain_and_submit_lem in_memory (spsc_source four) buffers 32 requests two_free requests-IsValid
      refl

-- One place is free for two completions.
abbrev completions : SpscRing IoCompletion
completions = record { head = 0; tail = 3; buffer = λ i. record { token = i; result = pos 0 } }

completions-IsValid : IsValid 4 completions
completions-IsValid = omega arith

harvest_completions_lem_example :
    let walked = min 32 (length (two_free.finished)) in
    let n = min walked (4 - length (contents 4 completions)) in
    let (delivered, r', out') =
      harvest_completions in_memory (spsc_sink four) 32 two_free completions in
    (delivered ≡ n)
    × (contents 4 out'
        ≡ contents 4 completions
          ++ map (completion in_memory (spsc_sink four)) (take n two_free.finished))
    × ((more : List (ℕ × ℤ)) × (r'.finished ≡ drop walked two_free.finished ++ more))
harvest_completions_lem_example =
    harvest_completions_lem in_memory (spsc_sink four) 32 two_free completions (omega arith)
      completions-IsValid (omega arith)

-- A ring of two places in which one thread has pushed a request.
two : IsCapacity 2
two = record { exponent = 1; fits = omega arith; power = refl }

abbrev turns : ℕ → Producers IoRequest → Producers IoRequest
turns zero s = s
turns (suc k) s = turns k (turn 2 false s 0)

abbrev count_from : ℕ → ℕ → ℕ
count_from n zero = n
count_from n (suc k) = count_from (suc n) k

turns-Reach :
    (k : ℕ) {n : ℕ} {s : Producers IoRequest}
    → Reach 2 (request 0) n s
    → Reach 2 (request 0) (count_from n k) (turns k s)
turns-Reach zero r = r
turns-Reach (suc k) r = turns-Reach k (next r (acts 0 false))

abbrev pushed_one : Producers IoRequest
pushed_one =
    let s = start 2 (request 0) in
    turns 6 (record s { threads = update s.threads 0 (push_load (request 5)) })

pushed_one-Reach : Reach 2 (request 0) 7 pushed_one
unfolding start
pushed_one-Reach = turns-Reach 6 (next here (calls_push 0 (request 5) refl))

pushed_one-IsQuiet : IsQuiet pushed_one
unfolding start turn access mpmc_init slot_index ◌-ℤ◌ to_intptr is_zero is_negative ℕ_discrete
pushed_one-IsQuiet zero = (refl, refl)
pushed_one-IsQuiet (suc i) = (ground arith, ground arith)

drains_producers_example :
    Submits in_memory
      (mpmc_source two (omega arith))
      buffers
      32
      (values pushed_one.given pushed_one.ring.dequeue_pos
        (pushed_one.ring.enqueue_pos - pushed_one.ring.dequeue_pos))
      pushed_one.ring
      two_free
drains_producers_example =
    drains_producers in_memory buffers two (omega arith) 32 two_free (omega arith) pushed_one-Reach
      pushed_one-IsQuiet refl
