-- ===== src/Mpmc/Single/Returns.antt =====
-- A thread of include/ringio/detail/mpmc_ring.hpp that runs alone from a state that the threads have
-- reached returns.
use ringio.Base.{ℕ, suc, ◌+◌, ◌<◌, ◌^◌, ◌≡◌, false, arith}
use ringio.Base.Int.{zero-diff, negative-diff}
use ringio.Base.Word.{u64}
use ringio.Mpmc.{
  MpmcRing, Pc, Event, quiet, claimed, push_seq, push_cas, push_write, pushed, access, slot, diff,
}
use ringio.Mpmc.System.{System}
use ringio.Mpmc.Single.{solo, is_done}

module _ {A : Type 0} (cap : ℕ) (m : MpmcRing A) where
  pub solo-suc :
      (n : ℕ) (x : Pc A) (r : MpmcRing A × Pc A × Event A)
      → is_done x ≡ false
      → access cap false m x ≡ r
      → solo cap (suc n) m x ≡ solo cap n r.0 r.1
  unfolding solo
  solo-suc n x r busy e = rw (busy, e)

  -- What the test of the sequence number decides.
  pub push_seq_free :
      (v : A) (p : ℕ)
      → p < 2 ^ 63
      → (slot cap m p).sequence ≡ p
      → access cap false m (push_seq v p) ≡ (m, push_cas v p, quiet)
  unfolding access diff
  push_seq_free v p lt e = rw (zero-diff (slot cap m p).sequence p (rw e lt) lt, e) (ground arith)

  pub push_seq_busy :
      (v : A) (p : ℕ)
      → p < 2 ^ 63
      → (slot cap m p).sequence < p
      → access cap false m (push_seq v p) ≡ (m, pushed false, quiet)
  unfolding access diff
  push_seq_busy v p lt h =
      let lt' : (slot cap m p).sequence < 2 ^ 63 = omega arith in
      rw
        (zero-diff (slot cap m p).sequence p lt' lt, negative-diff (slot cap m p).sequence p lt' lt)
        (ground arith)

  pub push_cas_alone :
      (v : A)
      → access cap false m (push_cas v m.enqueue_pos) ≡ (
        record m { enqueue_pos = u64 (m.enqueue_pos + 1) },
        push_write v m.enqueue_pos,
        claimed m.enqueue_pos v,
      )
  unfolding access
  push_cas_alone v = ground arith
