-- ===== src/Mpmc/Ordered/Invariant/Tickets.antt =====
-- What a thread that has claimed a slot of include/ringio/detail/mpmc_ring.hpp has for itself.
use ringio.Base.{ℕ, ◌+◌, ◌≤◌, ◌≡◌, ◌≢◌, ◌⊎◌, inl, inr, sym, ap, some, arith}
use ringio.Base.Word.{IsCapacity, slot_index}
use ringio.Mpmc.{Pc, idle, push_write, push_store, pop_read, pop_store, slot}
use ringio.Mpmc.System.{System}
use ringio.Mpmc.Invariant.{
  push_ticket, pop_ticket, Inv, slot_inj, push_claim, pop_claim, tickets_apart,
}
use ringio.Mpmc.Ordered.Invariant.Defs.{ticket}

ticket_cases :
    {A : Type 0} (x : Pc A) (p : ℕ)
    → ticket x ≡ some p
    → (push_ticket x ≡ some p) ⊎ (pop_ticket x ≡ some p)
ticket_cases idle p e = cc
ticket_cases (push_write x q) p e = inl e
ticket_cases (push_store x q) p e = inl e
ticket_cases (pop_read q) p e = inr e
ticket_cases (pop_store x q) p e = inr e
ticket_cases x p e = cc

module _ {A : Type 0} {cap : ℕ} (c : IsCapacity cap) (two : 2 ≤ cap) {n : ℕ} {s : System A}
    (inv : Inv cap n s) where
  pub apart :
      (i j p q : ℕ)
      → i ≢ j
      → ticket (s.threads i) ≡ some p
      → ticket (s.threads j) ≡ some q
      → slot_index cap p ≢ slot_index cap q
  apart i j p q ne a b =
      tickets_apart c two inv i j ne p q (ticket_cases (s.threads i) p a)
        (ticket_cases (s.threads j) q b)

  -- The slot at a cursor is nobody's, when its sequence number is the one that a claim expects.
  pub nobody_pushes :
      (j q : ℕ)
      → (slot cap s.ring s.ring.enqueue_pos).sequence ≡ s.ring.enqueue_pos
      → ticket (s.threads j) ≡ some q
      → slot_index cap q ≢ slot_index cap s.ring.enqueue_pos
  nobody_pushes j q free t e =
      let p : ℕ = s.ring.enqueue_pos in
      let same : (slot cap s.ring q).sequence ≡ (slot cap s.ring p).sequence =
        ap (λ k. (s.ring.slots k).sequence) e in
      elim (ticket_cases (s.threads j) q t) [
        | inl a ↦
            omega (arith, push_claim c two inv (s.threads j) q (inv.threads_fit j) a, same, free)
        | inr b ↦ omega (
          arith,
          pop_claim c two inv (s.threads j) q (inv.threads_fit j) b,
          same,
          free,
          slot_inj c q p e
              (omega (
                arith,
                pop_claim c two inv (s.threads j) q (inv.threads_fit j) b,
                inv.ring_fits.order,
              ))
              (omega
                (arith, pop_claim c two inv (s.threads j) q (inv.threads_fit j) b, same, free)),
        )
      ]

  pub nobody_pops :
      (j q : ℕ)
      → (slot cap s.ring s.ring.dequeue_pos).sequence ≡ s.ring.dequeue_pos + 1
      → ticket (s.threads j) ≡ some q
      → slot_index cap q ≢ slot_index cap s.ring.dequeue_pos
  nobody_pops j q full t e =
      let p : ℕ = s.ring.dequeue_pos in
      let same : (slot cap s.ring q).sequence ≡ (slot cap s.ring p).sequence =
        ap (λ k. (s.ring.slots k).sequence) e in
      elim (ticket_cases (s.threads j) q t) [
        | inl a ↦
            let claim = push_claim c two inv (s.threads j) q (inv.threads_fit j) a in
            omega (
              arith,
              claim,
              same,
              full,
              slot_inj c p q (sym e) (omega (arith, claim)) (omega (arith, claim, same, full)),
            )
        | inr b ↦
            omega (arith, pop_claim c two inv (s.threads j) q (inv.threads_fit j) b, same, full)
      ]
