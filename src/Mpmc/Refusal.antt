-- ===== src/Mpmc/Refusal.antt =====
-- When a call of include/ringio/detail/mpmc_ring.hpp returns false.
use ringio.Base.{ℕ, ◌+◌, ◌-◌, ◌≤◌, ◌<◌, ◌^◌, ◌≡◌, ◌⊎◌, Bool, true, false, none, [], arith}
use ringio.Base.Int.{is_negative, negative-diff}
use ringio.Base.Word.{IsCapacity, u64}
use ringio.Mpmc.{MpmcRing, push_seq, pushed, pop_seq, popped, slot, access, diff}
use ringio.Mpmc.System.{System, Reach}
use ringio.Mpmc.Invariant.{RingFits, slot_lap}
use ringio.Mpmc.Fifo.{inv, at}

module _ {A : Type 0} (cap : ℕ) where
  refused_push :
      (b : Bool) (m : MpmcRing A) (v : A) (p : ℕ)
      → (access cap b m (push_seq v p)).1 ≡ pushed false
      → is_negative (diff cap m p p) ≡ true
  unfolding access diff
  refused_push b m v p e = ground arith

  refused_pop :
      (b : Bool) (m : MpmcRing A) (p : ℕ)
      → (access cap b m (pop_seq p)).1 ≡ popped none
      → is_negative (diff cap m p (u64 (p + 1))) ≡ true
  unfolding access diff
  refused_pop b m p e = ground arith

module _ {A : Type 0} {cap : ℕ} (c : IsCapacity cap) (two : 2 ≤ cap) {blank : A} {n : ℕ}
    {s : System A} (small : n + cap < 2 ^ 63) (r : Reach cap blank n s) where
  i_fits : RingFits cap s.ring s.given
  i_fits = (inv c two small r).ring_fits

  -- The test `diff < 0` passes only on a smaller sequence number.
  seq_before :
      (p q : ℕ)
      → q < 2 ^ 63
      → is_negative (diff cap s.ring p q) ≡ true
      → (slot cap s.ring p).sequence < q
  unfolding diff
  seq_before p q h e =
      let lt : (slot cap s.ring p).sequence < 2 ^ 63 =
        omega (arith, i_fits.fits, i_fits.bounded p) in
      ground (arith, negative-diff (slot cap s.ring p).sequence q lt h)

  -- With a capacity that is a power of two and at least two, and after fewer than 2 ^ 63 steps
  -- less the capacity, a push returns false only when the position that it looks at is the enqueue
  -- cursor, and the value of the position one lap before has not been delivered: the capacity is
  -- in use.
  pub refused_push_is_full :
      (i : ℕ) (b : Bool) (v : A) (p : ℕ)
      → s.threads i ≡ push_seq v p
      → (access cap b s.ring (push_seq v p)).1 ≡ pushed false
      → (p ≡ s.ring.enqueue_pos)
        × (cap ≤ s.ring.enqueue_pos)
        × (s.taken (s.ring.enqueue_pos - cap) ≡ [])
  refused_push_is_full i b v p e refused =
      let f : p ≤ s.ring.enqueue_pos = at c two small r i (push_seq v p) e in
      let before : (slot cap s.ring p).sequence < p =
        seq_before p p (omega (arith, i_fits.fits)) (refused_push cap b s.ring v p refused) in
      ground (
        arith,
        before,
        i_fits.room,
        i_fits.passed p,
        i_fits.positions p,
        slot_lap c (p - cap),
        (inv c two small r).taken_fits (s.ring.enqueue_pos - cap),
      )

  -- With a capacity that is a power of two and at least two, and after fewer than 2 ^ 63 steps
  -- less the capacity, a pop returns false only when the position that it looks at is the dequeue
  -- cursor, and no value is published there: either no position is claimed beyond it, or its claim
  -- is still being filled.
  pub refused_pop_is_empty :
      (i : ℕ) (b : Bool) (p : ℕ)
      → s.threads i ≡ pop_seq p
      → (access cap b s.ring (pop_seq p)).1 ≡ popped none
      → (p ≡ s.ring.dequeue_pos)
        × ((s.ring.enqueue_pos ≡ s.ring.dequeue_pos)
            ⊎ ((slot cap s.ring s.ring.dequeue_pos).sequence ≡ s.ring.dequeue_pos))
  refused_pop_is_empty i b p e refused =
      let f : p ≤ s.ring.dequeue_pos = at c two small r i (pop_seq p) e in
      let before : (slot cap s.ring p).sequence < u64 (p + 1) =
        seq_before p (u64 (p + 1)) (omega (arith, i_fits.fits, i_fits.order))
          (refused_pop cap b s.ring p refused) in
      ground (
        arith,
        before,
        i_fits.fits,
        i_fits.order,
        i_fits.passed p,
        i_fits.positions s.ring.dequeue_pos,
      )
