-- ===== src/Mpmc/Invariant/Tickets.antt =====
-- Threads of include/ringio/detail/mpmc_ring.hpp that have claimed slots have claimed different ones.
use ringio.Base.{ℕ, ◌+◌, ◌≤◌, ◌<◌, ◌≡◌, ◌≢◌, ◌⊎◌, some, arith, inl, inr, sym}
use ringio.Base.Word.{IsCapacity, slot_index}
use ringio.Mpmc.{Pc, idle, push_write, push_store, pop_read, pop_store, slot}
use ringio.Mpmc.System.{System}
use ringio.Mpmc.Invariant.Defs.{push_ticket, pop_ticket, ThreadFits, Inv}
use ringio.Mpmc.Invariant.Slots.{slot_inj}

module _ {A : Type 0} {cap : ℕ} (c : IsCapacity cap) (two : 2 ≤ cap) {n : ℕ} {s : System A}
    (inv : Inv cap n s) where
  pub push_claim :
      (x : Pc A) (p : ℕ)
      → ThreadFits cap s.ring s.given s.taken x
      → push_ticket x ≡ some p
      → (p < s.ring.enqueue_pos) × (s.ring.dequeue_pos ≤ p) × ((slot cap s.ring p).sequence ≡ p)
  push_claim idle p f e = cc
  push_claim (push_write v q) p f e = ground arith
  push_claim (push_store v q) p f e = ground arith
  push_claim x p f e = cc

  pub pop_claim :
      (x : Pc A) (p : ℕ)
      → ThreadFits cap s.ring s.given s.taken x
      → pop_ticket x ≡ some p
      → (p < s.ring.dequeue_pos)
        × (s.ring.dequeue_pos ≤ p + cap)
        × ((slot cap s.ring p).sequence ≡ p + 1)
  pop_claim idle p f e = cc
  pop_claim (pop_read q) p f e = ground arith
  pop_claim (pop_store v q) p f e = ground arith
  pop_claim x p f e = cc

  -- Claims of different kinds are on different slots.
  push_pop_apart :
      (i j p q : ℕ)
      → push_ticket (s.threads i) ≡ some p
      → pop_ticket (s.threads j) ≡ some q
      → slot_index cap p ≢ slot_index cap q
  push_pop_apart i j p q a b e = ground (
    arith,
    push_claim (s.threads i) p (inv.threads_fit i) a,
    pop_claim (s.threads j) q (inv.threads_fit j) b,
    slot_inj c q p (sym e),
  )

  push_push_apart :
      (i j p q : ℕ)
      → i ≢ j
      → push_ticket (s.threads i) ≡ some p
      → push_ticket (s.threads j) ≡ some q
      → slot_index cap p ≢ slot_index cap q
  push_push_apart i j p q ne a b e = ground (
    arith,
    push_claim (s.threads i) p (inv.threads_fit i) a,
    push_claim (s.threads j) q (inv.threads_fit j) b,
    slot_inj c p q e,
    slot_inj c q p (sym e),
    inv.push_unique i j p a,
    inv.ring_fits.room,
  )

  pop_pop_apart :
      (i j p q : ℕ)
      → i ≢ j
      → pop_ticket (s.threads i) ≡ some p
      → pop_ticket (s.threads j) ≡ some q
      → slot_index cap p ≢ slot_index cap q
  pop_pop_apart i j p q ne a b e = ground (
    arith,
    pop_claim (s.threads i) p (inv.threads_fit i) a,
    pop_claim (s.threads j) q (inv.threads_fit j) b,
    slot_inj c p q e,
    slot_inj c q p (sym e),
    inv.pop_unique i j p a,
  )

  pub tickets_apart :
      (i j : ℕ)
      → i ≢ j
      → (p q : ℕ) → (push_ticket (s.threads i) ≡ some p) ⊎ (pop_ticket (s.threads i) ≡ some p)
      → (push_ticket (s.threads j) ≡ some q) ⊎ (pop_ticket (s.threads j) ≡ some q)
      → slot_index cap p ≢ slot_index cap q
  tickets_apart i j ne p q (inl a) (inl b) = push_push_apart i j p q ne a b
  tickets_apart i j ne p q (inl a) (inr b) = push_pop_apart i j p q a b
  tickets_apart i j ne p q (inr a) (inl b) = λ e. push_pop_apart j i q p b a (sym e)
  tickets_apart i j ne p q (inr a) (inr b) = pop_pop_apart i j p q ne a b
