-- ===== src/Mpmc/Single/Calls.antt =====
-- `try_push` and `try_pop` of include/ringio/detail/mpmc_ring.hpp by one thread alone, whole.
use ringio.Base.{ℕ, ◌+◌, ◌<◌, ◌^◌, ◌≡◌, refl, true, false, none, some, arith, ◌∙◌}
use ringio.Base.Int.{zero-diff, negative-diff}
use ringio.Base.Word.{u64}
use ringio.Mpmc.{
  MpmcRing, quiet, claimed, push_load, push_seq, push_cas, push_write, pushed, pop_load, pop_seq,
  pop_cas, pop_read, popped, access, slot, set_slot, diff,
}
use ringio.Mpmc.Single.{solo}
use ringio.Mpmc.Single.Returns.{solo-suc, push_seq_free, push_seq_busy, push_cas_alone}

module _ {A : Type 0} (cap : ℕ) (m : MpmcRing A) where
  -- The ring after a push, and after a pop.
  unfoldable pub after_push : A → MpmcRing A
  unfolding set_slot
  after_push v =
      let p = m.enqueue_pos in
      let m1 = record m { enqueue_pos = u64 (p + 1) } in
      let m2 = set_slot cap m1 p (record (slot cap m1 p) { value = v }) in
      set_slot cap m2 p (record (slot cap m2 p) { sequence = u64 (p + 1) })

  unfoldable pub after_pop : MpmcRing A
  unfolding set_slot
  after_pop =
      let p = m.dequeue_pos in
      let m1 = record m { dequeue_pos = u64 (p + 1) } in
      set_slot cap m1 p (record (slot cap m1 p) { sequence = u64 (p + cap) })

  pub push_free :
      (v : A)
      → m.enqueue_pos < 2 ^ 63
      → (slot cap m m.enqueue_pos).sequence ≡ m.enqueue_pos
      → solo cap 5 m (push_load v) ≡ (after_push v, pushed true)
  unfolding solo access after_push
  push_free v lt e =
      let p : ℕ = m.enqueue_pos in
      solo-suc cap m 4 (push_load v) (m, push_seq v p, quiet) refl refl
      ∙ solo-suc cap m 3 (push_seq v p) (m, push_cas v p, quiet) refl (push_seq_free cap m v p lt e)
      ∙ solo-suc cap m 2 (push_cas v p)
          (record m { enqueue_pos = u64 (p + 1) }, push_write v p, claimed p v) refl
          (push_cas_alone cap m v)

  pub push_busy :
      (v : A)
      → m.enqueue_pos < 2 ^ 63
      → (slot cap m m.enqueue_pos).sequence < m.enqueue_pos
      → solo cap 5 m (push_load v) ≡ (m, pushed false)
  unfolding solo access
  push_busy v lt h =
      let p : ℕ = m.enqueue_pos in
      solo-suc cap m 4 (push_load v) (m, push_seq v p, quiet) refl refl
      ∙ solo-suc cap m 3 (push_seq v p) (m, pushed false, quiet) refl (push_seq_busy cap m v p lt h)

  -- What the test of the sequence number decides for a pop.
  pop_seq_full :
      (p : ℕ)
      → p + 1 < 2 ^ 63
      → (slot cap m p).sequence ≡ p + 1
      → access cap false m (pop_seq p) ≡ (m, pop_cas p, quiet)
  unfolding access diff
  pop_seq_full p lt e =
      let next : u64 (p + 1) ≡ p + 1 = omega arith in
      rw (next, zero-diff (slot cap m p).sequence (p + 1) (rw e lt) lt, e) (ground arith)

  pop_seq_empty :
      (p : ℕ)
      → p + 1 < 2 ^ 63
      → (slot cap m p).sequence < p + 1
      → access cap false m (pop_seq p) ≡ (m, popped none, quiet)
  unfolding access diff
  pop_seq_empty p lt h =
      let next : u64 (p + 1) ≡ p + 1 = omega arith in
      let lt' : (slot cap m p).sequence < 2 ^ 63 = omega arith in
      rw
        (
          next,
          zero-diff (slot cap m p).sequence (p + 1) lt' lt,
          negative-diff (slot cap m p).sequence (p + 1) lt' lt,
        )
        (ground arith)

  pop_cas_alone :
      access cap false m (pop_cas m.dequeue_pos)
      ≡ (record m { dequeue_pos = u64 (m.dequeue_pos + 1) }, pop_read m.dequeue_pos, quiet)
  unfolding access
  pop_cas_alone = ground arith

  pub pop_full :
      m.dequeue_pos + 1 < 2 ^ 63
      → (slot cap m m.dequeue_pos).sequence ≡ m.dequeue_pos + 1
      → solo cap 5 m pop_load ≡ (after_pop, popped (some (slot cap m m.dequeue_pos).value))
  unfolding solo access after_pop
  pop_full lt e =
      let p : ℕ = m.dequeue_pos in
      solo-suc cap m 4 pop_load (m, pop_seq p, quiet) refl refl
      ∙ solo-suc cap m 3 (pop_seq p) (m, pop_cas p, quiet) refl (pop_seq_full p lt e)
      ∙ solo-suc cap m 2 (pop_cas p) (record m { dequeue_pos = u64 (p + 1) }, pop_read p, quiet)
          refl pop_cas_alone

  pub pop_empty :
      m.dequeue_pos + 1 < 2 ^ 63
      → (slot cap m m.dequeue_pos).sequence < m.dequeue_pos + 1
      → solo cap 5 m pop_load ≡ (m, popped none)
  unfolding solo access
  pop_empty lt h =
      let p : ℕ = m.dequeue_pos in
      solo-suc cap m 4 pop_load (m, pop_seq p, quiet) refl refl
      ∙ solo-suc cap m 3 (pop_seq p) (m, popped none, quiet) refl (pop_seq_empty p lt h)
