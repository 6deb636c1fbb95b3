-- ===== src/Pool/Ordered/Safety.antt =====
-- What the free list of include/ringio/detail/buffer_pool.hpp promises although its loads may be stale.
use ringio.Base.{
  ℕ, ◌≤◌, ◌+◌, ◌<◌, ◌≡◌, ◌≢◌, ◌∙◌, refl, sym, ap, subst, true, false, ◌&&◌, ◌==◌, arith, update,
  update_self, if_cases,
}
use ringio.Base.Word.{u32}
use ringio.Memory.{acq_rel, store}
use ringio.Pool.Pack.{pack, unpack_index, unpack_tag, invalid_index}
use ringio.Pool.FreeList.{acquire_cas, acquired}
use ringio.Pool.Threads.{pooled, lent, rest}
use ringio.Pool.Threads.Invariant.{ThreadFits, top_pooled}
use ringio.Pool.Ordered.{System, latest, now, views, goes_on, exchanged, access, turn, Reach}
use ringio.Pool.Ordered.Invariant.{Reach-Inv}
use ringio.Pool.Ordered.Invariant.Loads.{top_in_pool}
use ringio.Pool.Ordered.Invariant.Defs.{Inv}

module _ {count : ℕ} (some_buffer : 1 ≤ count) (small : count ≤ invalid_index) {s : System}
    (r : Reach count s) where
  inv : Inv count s
  inv = Reach-Inv some_buffer small r

  -- In the memory of the C++ standard, whichever stores the loads of the threads of a pool of 1 to
  -- 2 ^ 32 - 1 buffers return, while no thread is overtaken by 2 ^ 32 exchanges between the store of
  -- the head that it loaded and its exchange, and each thread uses and returns only buffers that it
  -- was lent itself: every use of a buffer so far, of whatever thread, happens before what the thread
  -- that it is lent to does next.
  pub buffer_ordered :
      (i x : ℕ) → s.place x ≡ lent → s.holder x ≡ i → s.uses x ≤ (s.views_of i).uses x
  buffer_ordered i x out mine = inv.held x i (rw out mine)

  -- What the exchange of `acquire` leads to when it succeeds.
  won : ℕ → ℕ → ℕ → System
  won i head link =
      let x = unpack_index head in
      record (goes_on s i (acquired x) (exchanged s (s.views_of i))) {
        free_head =
            store views acq_rel (exchanged s (s.views_of i)) (pack link (u32 (unpack_tag head + 1)))
              s.free_head;
        place = update s.place x lent;
        holder = update s.holder x i;
        stack = rest s.stack;
      }

  turn-won :
      (i k head link : ℕ)
      → s.threads i ≡ acquire_cas head link
      → now s.free_head ≡ head
      → turn false k s i ≡ won i head link
  unfolding turn access won
  turn-won i k head link e same =
      ap (access false k s i (s.views_of i)) e
      ∙ if_cases (λ t. t ≡ won i head link) (now s.free_head == head && true) _ _ (λ _. refl)
          (λ miss. absurd (ground arith))

  -- In the memory of the C++ standard, whichever stores the loads of the threads of a pool of 1 to
  -- 2 ^ 32 - 1 buffers return, while no thread is overtaken by 2 ^ 32 exchanges between the store of
  -- the head that it loaded and its exchange, and each thread uses and returns only buffers that it
  -- was lent itself: an exchange of `acquire` that finds the head that the thread has loaded, and does
  -- not fail spuriously, hands out a buffer of the pool that nobody holds; and the thread then knows
  -- every use of that buffer so far.
  pub ordered_issue :
      (i k head link : ℕ)
      → s.threads i ≡ acquire_cas head link
      → now s.free_head ≡ head
      → let x = unpack_index head in
        let t = turn false k s i in
        (s.place x ≡ pooled)
        × (x < count)
        × (t.threads i ≡ acquired x)
        × (t.place x ≡ lent)
        × (t.holder x ≡ i)
        × (t.uses x ≤ (t.views_of i).uses x)
  unfolding won
  ordered_issue i k head link e same =
      let x : ℕ = unpack_index head in
      let fits : ThreadFits count (latest s).list s.place s.free_head.last (s.seen i) i
          (acquire_cas head link) =
        subst (ThreadFits count (latest s).list s.place s.free_head.last (s.seen i) i) e
          (inv.sequential.threads_fit i) in
      let in_pool : s.place x ≡ pooled = top_in_pool inv head same fits.1 in
      let (_, _, below) =
        top_pooled inv.sequential.list_fits
          (subst (λ q. unpack_index q ≢ invalid_index) (sym same) fits.1) in
      subst
        (λ t.
          (s.place x ≡ pooled)
          × (x < count)
          × (t.threads i ≡ acquired x)
          × (t.place x ≡ lent)
          × (t.holder x ≡ i)
          × (t.uses x ≤ (t.views_of i).uses x))
        (sym (turn-won i k head link e same))
        (
          in_pool,
          subst (λ q. unpack_index q < count) same below,
          update_self s.threads i (acquired x),
          update_self s.place x lent,
          update_self s.holder x i,
          rw (update_self s.views_of i (exchanged s (s.views_of i)))
              (omega (arith, (inv.carried x in_pool).1)),
        )
