-- ===== src/Mpmc/Progress.antt =====
-- Why a call of include/ringio/detail/mpmc_ring.hpp goes around its loop again.
use ringio.Base.{ℕ, ◌+◌, ◌≤◌, ◌<◌, ◌^◌, ◌≡◌, false, arith}
use ringio.Base.Int.{zero-diff, negative-diff}
use ringio.Base.Word.{IsCapacity, u64}
use ringio.Mpmc.{
  MpmcRing, Pc, idle, push_load, push_seq, push_cas, push_write, push_store, pushed, pop_load,
  pop_seq, pop_cas, pop_read, pop_store, popped, slot, access, diff,
}
use ringio.Mpmc.System.{System, Reach}
use ringio.Mpmc.Invariant.{RingFits, slot_lap}
use ringio.Mpmc.Fifo.{inv, at}

module _ {A : Type 0} where
  -- An access at the first place that leads to the second goes around the loop again: the sequence
  -- number is ahead, or the exchange fails.
  abbrev pub IsRetry : Pc A → Pc A → Type 0
  IsRetry (push_seq v p) (push_load w) = Unit
  IsRetry (push_cas v p) (push_seq w q) = Unit
  IsRetry (pop_seq p) pop_load = Unit
  IsRetry (pop_cas p) (pop_seq q) = Unit
  IsRetry _ _ = ⊥

  -- The position that a thread looks at is behind its cursor: another call has claimed it.
  abbrev pub IsOvertaken : MpmcRing A → Pc A → Type 0
  IsOvertaken m (push_seq v p) = p < m.enqueue_pos
  IsOvertaken m (push_cas v p) = p < m.enqueue_pos
  IsOvertaken m (pop_seq p) = p < m.dequeue_pos
  IsOvertaken m (pop_cas p) = p < m.dequeue_pos
  IsOvertaken m _ = ⊥

module _ {A : Type 0} {cap : ℕ} (c : IsCapacity cap) (two : 2 ≤ cap) {blank : A} {n : ℕ}
    {s : System A} (small : n + cap < 2 ^ 63) (r : Reach cap blank n s) where
  i_fits : RingFits cap s.ring s.given
  i_fits = (inv c two small r).ring_fits

  seq_push :
      (v : A) (p : ℕ)
      → p ≤ s.ring.enqueue_pos
      → IsRetry (push_seq v p) (access cap false s.ring (push_seq v p)).1
      → p < s.ring.enqueue_pos
  unfolding access diff
  seq_push v p le again =
      let seq : ℕ = (slot cap s.ring p).sequence in
      let lt : seq < 2 ^ 63 = omega (arith, i_fits.fits, i_fits.bounded p) in
      let lt' : p < 2 ^ 63 = omega (arith, i_fits.fits) in
      ground (
        arith,
        zero-diff seq p lt lt',
        negative-diff seq p lt lt',
        i_fits.room,
        i_fits.order,
        i_fits.positions p,
        i_fits.positions s.ring.dequeue_pos,
        slot_lap c s.ring.dequeue_pos,
      )

  seq_pop :
      (p : ℕ)
      → p ≤ s.ring.dequeue_pos
      → IsRetry {A = A} (pop_seq p) (access cap false s.ring (pop_seq p)).1
      → p < s.ring.dequeue_pos
  unfolding access diff
  seq_pop p le again =
      let seq : ℕ = (slot cap s.ring p).sequence in
      let lt : seq < 2 ^ 63 = omega (arith, i_fits.fits, i_fits.bounded p) in
      let word : u64 (p + 1) ≡ p + 1 = omega (arith, i_fits.fits, i_fits.order) in
      let lt' : u64 (p + 1) < 2 ^ 63 = omega (arith, word, i_fits.fits, i_fits.order) in
      ground (
        arith,
        word,
        zero-diff seq (u64 (p + 1)) lt lt',
        negative-diff seq (u64 (p + 1)) lt lt',
        i_fits.positions s.ring.dequeue_pos,
      )

  cas_push :
      (v : A) (p : ℕ)
      → p ≤ s.ring.enqueue_pos
      → IsRetry (push_cas v p) (access cap false s.ring (push_cas v p)).1
      → p < s.ring.enqueue_pos
  unfolding access
  cas_push v p le again = ground arith

  cas_pop :
      (p : ℕ)
      → p ≤ s.ring.dequeue_pos
      → IsRetry {A = A} (pop_cas p) (access cap false s.ring (pop_cas p)).1
      → p < s.ring.dequeue_pos
  unfolding access
  cas_pop p le again = ground arith

  -- With a capacity that is a power of two and at least two, and after fewer than 2 ^ 63 steps less the
  -- capacity: a thread whose call goes around its loop again, at an access that does not fail without
  -- a cause, has been overtaken. The cursor is beyond the position that it looked at, so that another
  -- call has claimed that position.
  pub retry_is_progress :
      (i : ℕ) (x : Pc A)
      → s.threads i ≡ x
      → IsRetry x (access cap false s.ring x).1
      → IsOvertaken s.ring x
  unfolding access
  retry_is_progress i idle e again = again
  retry_is_progress i (push_load v) e again = again
  retry_is_progress i (push_seq v p) e again =
      seq_push v p (at c two small r i (push_seq v p) e) again
  retry_is_progress i (push_cas v p) e again =
      cas_push v p (at c two small r i (push_cas v p) e).0 again
  retry_is_progress i (push_write v p) e again = again
  retry_is_progress i (push_store v p) e again = again
  retry_is_progress i (pushed done) e again = again
  retry_is_progress i pop_load e again = again
  retry_is_progress i (pop_seq p) e again = seq_pop p (at c two small r i (pop_seq p) e) again
  retry_is_progress i (pop_cas p) e again = cas_pop p (at c two small r i (pop_cas p) e).0 again
  retry_is_progress i (pop_read p) e again = again
  retry_is_progress i (pop_store v p) e again = again
  retry_is_progress i (popped out) e again = again
