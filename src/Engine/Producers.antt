-- ===== src/Engine/Producers.antt =====
-- include/ringio/sqpoll_engine.hpp draining a ring of include/ringio/detail/mpmc_ring.hpp that many
-- threads have pushed requests into.
use ringio.Base.{ℕ, ◌+◌, ◌-◌, ◌≤◌, ◌<◌, ◌^◌, ◌≡◌, subst, List, [], arith}
use ringio.Base.Word.{IsCapacity}
use ringio.Mpmc.System.{System, Reach}
use ringio.Mpmc.Quiescent.Contents.{IsQuiet, values, quiet-Holds}
use ringio.Mpmc.Single.Refine.{Holds}
use ringio.Pool.Storage.{BufferPool}
use ringio.Engine.{IoRequest, Uring}
use ringio.Engine.Drain.{Submits, drain_and_submit_lem}
use ringio.Engine.Mpmc.{mpmc_source, own, held-Holds}

module _ {R S C : Type 0} (io : Uring R S C) (pool : BufferPool) {cap : ℕ} (c : IsCapacity cap)
    (two : 2 ≤ cap) where
  -- For a ring of many threads whose capacity is a power of two and at least two, in any state that
  -- they have reached and in which none of them is between its claim and the end of its call, as long
  -- as the steps and the batch are fewer than 2 ^ 63 less the capacity, and nothing is prepared on
  -- the io_uring: a call submits the requests for which the positions between the cursors were
  -- claimed, in that order, as many as the batch and the free entries allow; those that it did not
  -- take are still in the ring; and if an entry was wanting, one more than were submitted is gone.
  pub drains_producers :
      {blank : IoRequest} {n : ℕ} {s : System IoRequest} (max_batch : ℕ) (r : R)
      → n + max_batch + cap < 2 ^ 63
      → Reach cap blank n s
      → IsQuiet s
      → io.prepared r ≡ []
      → Submits io
          (mpmc_source c two)
          pool
          max_batch
          (values s.given s.ring.dequeue_pos (s.ring.enqueue_pos - s.ring.dequeue_pos))
          s.ring
          r
  drains_producers {s = s} max_batch r small reached quiet empty =
      let l : List IoRequest =
        values s.given s.ring.dequeue_pos (s.ring.enqueue_pos - s.ring.dequeue_pos) in
      let h : Holds cap max_batch s.ring l =
        quiet-Holds c two (omega arith) reached quiet max_batch small in
      subst (λ k. Submits io (mpmc_source c two) pool max_batch k s.ring r)
        (held-Holds cap max_batch s.ring l h)
        (drain_and_submit_lem io (mpmc_source c two) pool max_batch s.ring r
          (own cap max_batch s.ring l h) empty)
