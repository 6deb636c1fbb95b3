-- ===== src/Benchmark.antt =====
-- benchmarks/iops_throughput_benchmark.cpp: the pipeline of `BM_SqpollIops`, which keeps a window of
-- requests in flight over the engine, its two rings and a pool; and, in Shared, the set-up of
-- `BM_SqpollSharedPollerIops`.
pub mod Slots
pub mod Drained
pub mod Window
pub mod InFlight
pub mod Shared
mod Tests
use ringio.Base.{
  ℕ, zero, suc, ◌+◌, ◌*◌, ◌≡◌, Bool, true, false, not, Option, none, some, List, [], ◌∷◌, ltb,
  if◌then◌else◌,
}
use ringio.Base.Int.{pos}
use ringio.Base.Word.{u32, u64, IsCapacity}
use ringio.Spsc.{SpscRing, try_pop}
use ringio.Pool.FreeList.{Pc, acquired, init}
use ringio.Pool.Solo.{acquire_all}
use ringio.Pool.Storage.{BufferPool}
use ringio.Engine.{read, write, IoRequest, IoCompletion, Uring}
use ringio.Engine.Tracked.{Tracked}
use ringio.Engine.System.{System, push_request, submit_pass, harvest_pass, pop_completion, start}

abbrev pub block_size : ℕ
block_size = 4096

abbrev pub file_blocks : ℕ
file_blocks = 262144

abbrev pub file_bytes : ℕ
file_bytes = file_blocks * block_size

-- The index that a call of `acquire` returned.
abbrev pub index_of : Pc → ℕ
index_of (acquired i) = i
index_of _ = 0

abbrev pub indices : List Pc → List ℕ
indices [] = []
indices (x ∷ l) = index_of x ∷ indices l

-- `slot_buf`: the pool is new, and no other thread uses it.
unfoldable pub slot_buf : ℕ → List ℕ
slot_buf queue_depth = indices (acquire_all queue_depth (init queue_depth))

-- `drawn` counts the random numbers that were drawn.
pub record Pipeline (R : Type 0) : Type 0 where
  pub system : System R
  pub write_turn : Bool
  pub drawn : ℕ
  pub ops : ℕ
  pub calls : ℕ

module _ {R S C : Type 0} {io : Uring R S C} (tracked : Tracked io) {cap cap' : ℕ}
    (c : IsCapacity cap) (c' : IsCapacity cap') (pool : BufferPool) (draws : ℕ → ℕ) where
  unfoldable pub make_request : Pipeline R → ℕ → IoRequest
  make_request p buf_index = record {
    op = if p.write_turn then write else read;
    fixed_fd_index = pos 0;
    buffer_index = buf_index;
    offset = u64 (draws p.drawn * block_size);
    length = block_size;
    token = buf_index;
  }

  -- `submit_queue.try_push(make_request(slot))`, whose result the code does not look at.
  unfoldable pub request_again : Pipeline R → ℕ → Pipeline R
  unfolding make_request
  request_again p slot = record p {
    system = push_request tracked c c' pool p.system (make_request p slot);
    write_turn = not p.write_turn;
    drawn = p.drawn + 1;
  }

  unfoldable pub fill : List ℕ → Pipeline R → Pipeline R
  fill [] p = p
  fill (slot ∷ slots) p = fill slots (request_again p slot)

  unfoldable pub submit : ℕ → Pipeline R → Pipeline R
  submit queue_depth p = record p {
    system = submit_pass tracked c c' pool p.system queue_depth;
    calls = u64 (p.calls + 1);
  }

  -- What goes before the loop of a burst.
  unfoldable pub begin : ℕ → Pipeline R → Pipeline R
  unfolding fill submit slot_buf
  begin queue_depth p = submit queue_depth (fill (slot_buf queue_depth) p)

  -- A completion was popped.
  unfoldable pub serve : Pipeline R → IoCompletion → Pipeline R
  unfolding request_again
  serve p completion = request_again (record p { ops = u64 (p.ops + 1) }) (u32 completion.token)

  -- What follows a call of `try_pop` in the loop over the completions.
  unfoldable pub popped :
      (ℕ → Pipeline R → ℕ × Pipeline R) → ℕ → Pipeline R → Option IoCompletion → ℕ × Pipeline R
  unfolding serve
  popped again refilled p none = (refilled, p)
  popped again refilled p (some completion) = again (refilled + 1) (serve p completion)

  -- That loop, over at most `fuel` completions; `refilled` counts them.
  unfoldable pub refill : ℕ → ℕ → Pipeline R → ℕ × Pipeline R
  unfolding popped
  refill zero refilled p = (refilled, p)
  refill (suc fuel) refilled p =
      popped (refill fuel) refilled
        (record p { system = pop_completion tracked c c' pool p.system })
        (try_pop cap' p.system.completions).0

  -- One turn of the loop of a burst.
  unfoldable pub round : ℕ → Pipeline R → Pipeline R
  unfolding refill submit
  round queue_depth p =
      let harvested = record p { system = harvest_pass tracked c c' pool p.system queue_depth } in
      let (refilled, p') = refill (cap' + 1) 0 harvested in
      if ltb 0 refilled then submit queue_depth p' else p'

  abbrev pub new_pipeline : IoRequest → IoCompletion → R → Pipeline R
  new_pipeline request completion uring = record {
    system = start tracked c c' pool request completion uring;
    write_turn = true;
    drawn = 0;
    ops = 0;
    calls = 0;
  }

  -- The states of one burst, at the top of its loop; the kernel completes entries in between.
  pub data Burst (queue_depth : ℕ) (request : IoRequest) (completion : IoCompletion)
      : Pipeline R → Type 0 where
    begins :
        (uring : R)
        → io.prepared uring ≡ []
        → ((t : ℕ) → tracked.outstanding uring t ≡ 0)
        → Burst queue_depth request completion
            (begin queue_depth (new_pipeline request completion uring))
    turns :
        {p : Pipeline R}
        → Burst queue_depth request completion p
        → Burst queue_depth request completion (round queue_depth p)
    completes :
        {p : Pipeline R} (uring' : R)
        → Burst queue_depth request completion p
        → io.prepared uring' ≡ io.prepared p.system.uring
        → ((t : ℕ) → tracked.outstanding uring' t ≡ tracked.outstanding p.system.uring t)
        → Burst queue_depth request completion
            (record p { system = record (p.system) { uring = uring' } })
