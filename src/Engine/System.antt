-- ===== src/Engine/System.antt =====
-- An engine of include/ringio/sqpoll_engine.hpp between its two rings of include/ringio/detail/spsc_ring.hpp:
-- a worker pushes requests and pops completions, the engine drains and harvests, and the kernel
-- completes entries at any time.
pub mod Tokens
pub mod Invariant
pub mod Conserved
pub mod Careful
mod Tests
use ringio.Base.{
  ℕ, ◌+◌, ◌-◌, ◌<◌, ◌^◌, ◌≡◌, true, false, none, some, List, [], ◌∷◌, ◌++◌, map, take, drop, min,
  length, if◌then◌else◌,
}
use ringio.Base.Word.{IsCapacity}
use ringio.Spsc.{SpscRing, init, try_push, try_pop}
use ringio.Spsc.Queue.{contents}
use ringio.Pool.Storage.{BufferPool}
use ringio.Engine.{IoRequest, IoCompletion, Uring, spsc_source, spsc_sink}
use ringio.Engine.Drain.{drain_and_submit}
use ringio.Engine.Harvest.{completion, harvest_completions}
use ringio.Engine.Tracked.{Tracked}

-- The two rings and the io_uring; and the history: which requests the request ring accepted, which
-- completions the worker got, and what an engine pass took from one side without putting it on the
-- other.
pub record System (R : Type 0) : Type 0 where
  pub requests : SpscRing IoRequest
  pub uring : R
  pub completions : SpscRing IoCompletion
  pub accepted : List IoRequest
  pub returned : List IoCompletion
  pub lost_requests : List IoRequest
  pub lost_completions : List IoCompletion

module _ {R S C : Type 0} {io : Uring R S C} (tracked : Tracked io) {cap cap' : ℕ}
    (c : IsCapacity cap) (c' : IsCapacity cap') (pool : BufferPool) where
  unfoldable pub push_request : System R → IoRequest → System R
  push_request s req =
      let (done, requests') = try_push cap s.requests req in
      record s {
        requests = requests';
        accepted = if done then s.accepted ++ (req ∷ []) else s.accepted;
      }

  unfoldable pub submit_pass : System R → ℕ → System R
  submit_pass s max_batch =
      let (n, requests', uring') =
        drain_and_submit io (spsc_source c) pool max_batch s.requests s.uring in
      let left : List IoRequest = drop n (contents cap s.requests) in
      record s {
        requests = requests';
        uring = uring';
        lost_requests =
            s.lost_requests
            ++ take (length (contents cap s.requests) - n - length (contents cap requests')) left;
      }

  unfoldable pub harvest_pass : System R → ℕ → System R
  harvest_pass s max_batch =
      let (delivered, uring', completions') =
        harvest_completions io (spsc_sink c') max_batch s.uring s.completions in
      let walked : List C = take (min max_batch (length (io.cqes s.uring))) (io.cqes s.uring) in
      record s {
        uring = uring';
        completions = completions';
        lost_completions =
            s.lost_completions ++ map (completion io (spsc_sink c')) (drop delivered walked);
      }

  unfoldable pub pop_completion : System R → System R
  pop_completion s =
      let (out, completions') = try_pop cap' s.completions in
      record s {
        completions = completions';
        returned = elim out [ none ↦ s.returned | some x ↦ s.returned ++ (x ∷ []) ];
      }

  -- The kernel may change anything but what is prepared and how much is outstanding: it makes
  -- completions visible and entries free.
  pub data Step (s : System R) : System R → Type 0 where
    pushes : (req : IoRequest) → Step s (push_request s req)
    submits : (max_batch : ℕ) → Step s (submit_pass s max_batch)
    completes :
        (uring' : R)
        → io.prepared uring' ≡ io.prepared s.uring
        → ((t : ℕ) → tracked.outstanding uring' t ≡ tracked.outstanding s.uring t)
        → Step s (record s { uring = uring' })
    harvests : (max_batch : ℕ) → max_batch < 2 ^ 32 → Step s (harvest_pass s max_batch)
    pops : Step s (pop_completion s)

  -- Both rings new, and nothing under way in the io_uring.
  abbrev pub start : IoRequest → IoCompletion → R → System R
  start request completion uring = record {
    requests = init request;
    uring = uring;
    completions = init completion;
    accepted = [];
    returned = [];
    lost_requests = [];
    lost_completions = [];
  }

  pub data Reach (request : IoRequest) (completion : IoCompletion) : System R → Type 0 where
    here :
        (uring : R)
        → io.prepared uring ≡ []
        → ((t : ℕ) → tracked.outstanding uring t ≡ 0)
        → Reach request completion (start request completion uring)
    next : {s s' : System R} → Reach request completion s → Step s s' → Reach request completion s'
