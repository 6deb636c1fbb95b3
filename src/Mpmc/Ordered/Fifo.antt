-- ===== src/Mpmc/Ordered/Fifo.antt =====
-- What the threads of include/ringio/detail/mpmc_ring.hpp can rely on, although their loads may be
-- stale.
use ringio.Base.{ℕ, ◌+◌, ◌≤◌, ◌<◌, ◌^◌, ◌≡◌, ◌⊎◌, inl, inr, [], ◌∷◌, arith, subst}
use ringio.Base.Word.{IsCapacity, slot_index}
use ringio.Mpmc.{Pc, push_write, pop_read}
use ringio.Mpmc.Ordered.{System, ring, Reach}
use ringio.Mpmc.Ordered.Invariant.{Reach-Inv}
use ringio.Mpmc.Ordered.Invariant.Defs.{Sees, Inv}

module _ {A : Type 0} {cap : ℕ} (c : IsCapacity cap) (two : 2 ≤ cap) {blank : A} {n : ℕ}
    {s : System A} (small : n + cap < 2 ^ 63) (r : Reach cap blank n s) where
  inv : Inv cap n s
  inv = Reach-Inv c two small r

  at : (i : ℕ) (x : Pc A) → s.threads i ≡ x → Sees cap s.sequences s.uses (s.views_of i) x
  at i x e = subst (Sees cap s.sequences s.uses (s.views_of i)) e (inv.sees i)

  -- In the memory of the C++ standard, whichever stores the loads of the threads return, with a
  -- capacity that is a power of two and at least two, and after fewer than 2 ^ 63 steps less the
  -- capacity: when a thread is about to write or to read the value of the slot of a position that it
  -- has claimed, every access to that value so far, of whatever thread, happens before.
  pub uses_ordered :
      (i : ℕ) (x : A) (p : ℕ)
      → (s.threads i ≡ push_write x p) ⊎ (s.threads i ≡ pop_read p)
      → s.uses (slot_index cap p) ≤ (s.views_of i).uses (slot_index cap p)
  uses_ordered i x p (inl e) = at i (push_write x p) e
  uses_ordered i x p (inr e) = at i (pop_read p) e

  -- In the memory of the C++ standard, whichever stores the loads of the threads return, with a
  -- capacity that is a power of two and at least two, and after fewer than 2 ^ 63 steps less the
  -- capacity: what was delivered from a position is nothing, or once the very value that the position
  -- was claimed for, and then the position is behind the last store of the dequeue cursor; that is at
  -- most the capacity behind the last store of the enqueue cursor, and never ahead of it.
  pub ordered_delivered_once :
      (p : ℕ)
      → ((s.taken p ≡ []) ⊎ ((s.taken p ≡ s.given p ∷ []) × (p < (ring s).dequeue_pos)))
        × ((ring s).dequeue_pos ≤ (ring s).enqueue_pos)
        × ((ring s).enqueue_pos ≤ (ring s).dequeue_pos + cap)
  ordered_delivered_once p = (
    ground (arith, inv.sequential.taken_fits p),
    inv.sequential.ring_fits.order,
    inv.sequential.ring_fits.room,
  )
