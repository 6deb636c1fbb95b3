-- ===== src/Engine/System/Tests.antt =====
-- One request through an engine of include/ringio/sqpoll_engine.hpp and back.
use ringio.Base.{ℕ, true, ◌+◌, ◌≡◌, refl, List, [], ◌∷◌, arith}
use ringio.Base.Int.{pos}
use ringio.Base.Word.{IsCapacity}
use ringio.Spsc.{init as spsc_init, try_push, try_pop}
use ringio.Spsc.Queue.{contents}
use ringio.Pool.Storage.{BufferPool, iovecs_from}
use ringio.Pool.FreeList.{init}
use ringio.Engine.{write, IoRequest, IoCompletion}
use ringio.Engine.Drain.{drain, drain_and_submit, entry}
use ringio.Engine.Harvest.{walk, harvest_completions}
use ringio.Engine.Memory.{Memory, memory_tracked, under_way, finish, finish-under_way}
use ringio.Engine.Tracked.{times, requested, completed}
use ringio.Engine.System.{
  System, push_request, submit_pass, harvest_pass, pop_completion, start, Reach, here, next, pushes,
  submits, completes, harvests, pops,
}
use ringio.Engine.System.Conserved.{conserved}
use ringio.Engine.System.Careful.{Careful, all_returned}

four : IsCapacity 4
four = record { exponent = 2; fits = omega arith; power = refl }

abbrev request : ℕ → IoRequest
request t = record {
  op = write;
  fixed_fd_index = pos 0;
  buffer_index = 1;
  offset = 0;
  length = 512;
  token = t;
}

abbrev blank : IoCompletion
blank = record { token = 0; result = pos 0 }

abbrev buffers : BufferPool
buffers = record {
  buffer_size = 4096;
  buffer_count = 8;
  base = 65536;
  locked = true;
  iovecs = iovecs_from 65536 4096 0 8;
  list = init 8;
}

abbrev quiet : Memory
quiet = record { free = 8; waiting = []; sent = []; running = []; finished = [] }

abbrev s0 : System Memory
s0 = start memory_tracked four four buffers (request 0) blank quiet

abbrev s1 : System Memory
s1 = push_request memory_tracked four four buffers s0 (request 5)

abbrev s2 : System Memory
s2 = submit_pass memory_tracked four four buffers s1 32

abbrev s3 : System Memory
s3 = record s2 { uring = finish s2.uring }

abbrev s4 : System Memory
s4 = harvest_pass memory_tracked four four buffers s3 32

abbrev s5 : System Memory
s5 = pop_completion memory_tracked four four buffers s4

abbrev reached : Reach memory_tracked four four buffers (request 0) blank s5
reached =
    next
      (next
        (next (next (next (here quiet refl (λ t. refl)) (pushes (request 5))) (submits 32))
          (completes (finish s2.uring) refl (finish-under_way s2.uring)))
        (harvests 32 (omega arith)))
      pops

once : times 5 (completed (s5.returned)) ≡ 1
unfolding push_request submit_pass harvest_pass pop_completion drain drain_and_submit walk
    harvest_completions entry try_push try_pop spsc_init ringio.Base.ℕ_discrete
    ringio.Base.Word.slot_index
once = refl

conserved_example :
    times 5 (requested (s5.accepted))
    ≡ times 5 (requested (contents 4 (s5.requests)))
      + under_way (s5.uring) 5
      + times 5 (completed (contents 4 (s5.completions)))
      + times 5 (completed (s5.returned))
      + times 5 (requested (s5.lost_requests))
      + times 5 (completed (s5.lost_completions))
conserved_example = conserved memory_tracked four four buffers (request 0) blank s5 5 reached

careful : Careful memory_tracked four four buffers (request 0) blank reached
unfolding push_request submit_pass harvest_pass pop_completion drain drain_and_submit walk
    harvest_completions entry try_push try_pop spsc_init
careful = (((((tt, tt), omega arith), tt), omega arith), tt)

requests_gone : contents 4 (s5.requests) ≡ []
unfolding push_request submit_pass harvest_pass pop_completion drain drain_and_submit walk
    harvest_completions entry try_push try_pop spsc_init
requests_gone = refl

completions_gone : contents 4 (s5.completions) ≡ []
unfolding push_request submit_pass harvest_pass pop_completion drain drain_and_submit walk
    harvest_completions entry try_push try_pop spsc_init
completions_gone = refl

all_done : (t : ℕ) → under_way (s5.uring) t ≡ 0
unfolding push_request submit_pass harvest_pass pop_completion drain drain_and_submit walk
    harvest_completions entry try_push try_pop spsc_init
all_done t = refl

all_returned_example : times 5 (completed (s5.returned)) ≡ times 5 (requested (s5.accepted))
all_returned_example =
    all_returned memory_tracked four four buffers (request 0) blank s5 reached careful requests_gone
      completions_gone all_done 5
