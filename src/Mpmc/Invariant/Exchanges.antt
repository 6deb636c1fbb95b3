-- ===== src/Mpmc/Invariant/Exchanges.antt =====
-- The compare-exchanges of include/ringio/detail/mpmc_ring.hpp keep the invariant.
use ringio.Base.{
  ℕ, suc, ◌+◌, ◌≤◌, ◌<◌, ◌^◌, ◌≡◌, refl, subst, Bool, ◌&&◌, not, ◌==◌, some, arith, if_cases,
}
use ringio.Base.Word.{IsCapacity, u64}
use ringio.Mpmc.{
  MpmcRing, Pc, idle, push_seq, push_cas, push_write, push_store, pop_seq, pop_cas, pop_read,
  pop_store, access, slot, Event, quiet, claimed,
}
use ringio.Mpmc.System.{System, commit}
use ringio.Mpmc.Invariant.Defs.{push_ticket, pop_ticket, ThreadFits, Inv}
use ringio.Mpmc.Invariant.Moves.{Move-Inv}
use ringio.Mpmc.Invariant.Slots.{
  cas_hit, claim_free, claim_full, claimed_push, claim_push-RingFits, claim_push-ThreadFits,
  claimed_pop, claim_pop-RingFits, claim_pop-ThreadFits,
}
use ringio.Mpmc.Invariant.Stays.{Keeps, stays}

module _ {A : Type 0} {cap : ℕ} (c : IsCapacity cap) (two : 2 ≤ cap) {n : ℕ} {s : System A}
    (small : suc n + cap < 2 ^ 63) (inv : Inv cap n s) (i : ℕ) where
  open inv use {ring_fits}

  abbrev pub Kept : MpmcRing A × Pc A × Event A → Type 0
  Kept = Keeps c two small inv i

  push_behind :
      (x : Pc A) (q : ℕ)
      → ThreadFits cap s.ring s.given s.taken x
      → push_ticket x ≡ some q
      → q < s.ring.enqueue_pos
  push_behind idle q f e = cc
  push_behind (push_write v p) q f e = ground arith
  push_behind (push_store v p) q f e = ground arith
  push_behind x q f e = cc

  pop_behind :
      (x : Pc A) (q : ℕ)
      → ThreadFits cap s.ring s.given s.taken x
      → pop_ticket x ≡ some q
      → q < s.ring.dequeue_pos
  pop_behind idle q f e = cc
  pop_behind (pop_read p) q f e = ground arith
  pop_behind (pop_store v p) q f e = ground arith
  pop_behind x q f e = cc

  -- What a compare-exchange that succeeds leads to.
  unfoldable pub won_push : A → ℕ → MpmcRing A × Pc A × Event A
  won_push v p = (record (s.ring) { enqueue_pos = u64 (p + 1) }, push_write v p, claimed p v)

  unfoldable pub won_pop : ℕ → MpmcRing A × Pc A × Event A
  won_pop p = (record (s.ring) { dequeue_pos = u64 (p + 1) }, pop_read p, quiet)

  win_push :
      (v : A)
      → s.ring.enqueue_pos ≤ (slot cap s.ring s.ring.enqueue_pos).sequence
      → Kept (won_push v s.ring.enqueue_pos)
  unfolding won_push claimed_push Keeps
  win_push v h =
      let p : ℕ = s.ring.enqueue_pos in
      let below : p + 1 + cap < 2 ^ 63 = omega (arith, inv.count) in
      Move-Inv inv i (commit s i (won_push v p)) (push_write v p)
        (record {
          count = omega (arith, inv.count);
          ring_fits = claim_push-RingFits c two s.ring s.given ring_fits v h below;
          own = ground (arith, claim_free c two s.ring s.given ring_fits h, ring_fits.order, below);
          others = λ j ne.
              claim_push-ThreadFits c two s.ring s.given ring_fits v h below s.taken (s.threads j)
                (inv.threads_fit j);
          push_fresh =
              λ j q ne e1 e2. ground (arith, push_behind (s.threads j) q (inv.threads_fit j) e1);
          pop_fresh = λ j q ne e1. cc;
          taken_fits = λ q. ground (arith, inv.taken_fits q, ring_fits.order);
        })
        refl

  win_pop :
      s.ring.dequeue_pos + 1 ≤ (slot cap s.ring s.ring.dequeue_pos).sequence
      → Kept (won_pop s.ring.dequeue_pos)
  unfolding won_pop claimed_pop Keeps
  win_pop h =
      let p : ℕ = s.ring.dequeue_pos in
      let below : p + 1 < 2 ^ 63 =
        omega (arith, ring_fits.fits, claim_full c two s.ring s.given ring_fits h) in
      Move-Inv inv i (commit s i (won_pop p)) (pop_read p)
        (record {
          count = omega (arith, inv.count);
          ring_fits = claim_pop-RingFits c two s.ring s.given ring_fits h;
          own = ground (
            arith,
            claim_full c two s.ring s.given ring_fits h,
            inv.taken_fits s.ring.dequeue_pos,
            below,
          );
          others = λ j ne.
              claim_pop-ThreadFits c two s.ring s.given ring_fits h s.taken (s.threads j)
                (inv.threads_fit j);
          push_fresh = λ j q ne e1. cc;
          pop_fresh =
              λ j q ne e1 e2. ground (arith, pop_behind (s.threads j) q (inv.threads_fit j) e1);
          taken_fits = λ q. ground (arith, inv.taken_fits q, below);
        })
        refl

  pub claim_push :
      (v : A) (p : ℕ)
      → ThreadFits cap s.ring s.given s.taken (push_cas v p)
      → s.ring.enqueue_pos ≡ p
      → Kept (won_push v p)
  claim_push v p f e = subst (λ q. Kept (won_push v q)) e (win_push v (rw e f.1))

  pub cas_push :
      (b : Bool) (v : A) (p : ℕ)
      → ThreadFits cap s.ring s.given s.taken (push_cas v p)
      → Kept (access cap b s.ring (push_cas v p))
  unfolding access won_push
  cas_push b v p f =
      if_cases Kept (s.ring.enqueue_pos == p && not b) (won_push v p) _
        (λ hit. claim_push v p f (cas_hit s.ring.enqueue_pos p b hit))
        (λ _. stays c two small inv i (push_seq v s.ring.enqueue_pos) (omega arith) refl refl)

  pub claim_pop :
      (p : ℕ)
      → ThreadFits cap s.ring s.given s.taken (pop_cas p)
      → s.ring.dequeue_pos ≡ p
      → Kept (won_pop p)
  claim_pop p f e = subst (λ q. Kept (won_pop q)) e (win_pop (rw e f.1))

  pub cas_pop :
      (b : Bool) (p : ℕ)
      → ThreadFits cap s.ring s.given s.taken (pop_cas p)
      → Kept (access cap b s.ring (pop_cas p))
  unfolding access won_pop
  cas_pop b p f =
      if_cases Kept (s.ring.dequeue_pos == p && not b) (won_pop p) _
        (λ hit. claim_pop p f (cas_hit s.ring.dequeue_pos p b hit))
        (λ _. stays c two small inv i (pop_seq s.ring.dequeue_pos) (omega arith) refl refl)
