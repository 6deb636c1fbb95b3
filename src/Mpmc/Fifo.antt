-- ===== src/Mpmc/Fifo.antt =====
-- What every interleaving of the threads of include/ringio/detail/mpmc_ring.hpp keeps: each value
-- is delivered at most once, to the position it was given to, and no two threads touch one slot's
-- value at a time.
use ringio.Base.{ℕ, ◌+◌, ◌≤◌, ◌<◌, ◌^◌, ◌≡◌, ◌≢◌, ◌⊎◌, some, [], ◌∷◌, arith, subst}
use ringio.Base.Word.{IsCapacity, slot_index}
use ringio.Mpmc.{Pc}
use ringio.Mpmc.System.{System, Reach}
use ringio.Mpmc.Invariant.{push_ticket, pop_ticket, ThreadFits, Inv, Reach-Inv, tickets_apart}

module _ {A : Type 0} {cap : ℕ} (c : IsCapacity cap) (two : 2 ≤ cap) {blank : A} {n : ℕ}
    {s : System A} (small : n + cap < 2 ^ 63) (r : Reach cap blank n s) where
  pub inv : Inv cap n s
  inv = Reach-Inv c two small r

  pub at : (i : ℕ) (x : Pc A) → s.threads i ≡ x → ThreadFits cap s.ring s.given s.taken x
  at i x e = subst (ThreadFits cap s.ring s.given s.taken) e (inv.threads_fit i)

  -- With a capacity that is a power of two and at least two, and after fewer than 2 ^ 63 steps
  -- less the capacity, what was delivered from a position is nothing, or once the very value that
  -- the position was claimed for; and then the position is behind the dequeue cursor, which is at
  -- most the capacity behind the enqueue cursor and never ahead of it.
  pub delivered_once :
      (p : ℕ)
      → ((s.taken p ≡ []) ⊎ ((s.taken p ≡ s.given p ∷ []) × (p < s.ring.dequeue_pos)))
        × (s.ring.dequeue_pos ≤ s.ring.enqueue_pos)
        × (s.ring.enqueue_pos ≤ s.ring.dequeue_pos + cap)
  delivered_once p = (ground (arith, inv.taken_fits p), inv.ring_fits.order, inv.ring_fits.room)

  -- With a capacity that is a power of two and at least two, and after fewer than 2 ^ 63 steps
  -- less the capacity, the slots that two threads have claimed differ: of two that push, of one
  -- that pushes and one that pops, and of two that pop.
  pub no_data_race :
      (i j : ℕ)
      → i ≢ j
      → (p q : ℕ) → (push_ticket (s.threads i) ≡ some p) ⊎ (pop_ticket (s.threads i) ≡ some p)
      → (push_ticket (s.threads j) ≡ some q) ⊎ (pop_ticket (s.threads j) ≡ some q)
      → slot_index cap p ≢ slot_index cap q
  no_data_race i j ne p q = tickets_apart c two inv i j ne p q
