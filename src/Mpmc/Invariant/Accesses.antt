-- ===== src/Mpmc/Invariant/Accesses.antt =====
-- Every access of a thread of include/ringio/detail/mpmc_ring.hpp keeps the invariant.
use ringio.Base.{
  ℕ, suc, ◌+◌, ◌≤◌, ◌<◌, ◌^◌, ◌≡◌, ◌≢◌, refl, ap, [], ◌∷◌, ◌++◌, ◌∙◌, Bool, none, some, arith,
  if_cases, false, true, update,
}
use ringio.Base.Word.{IsCapacity, u64}
use ringio.Base.Int.{eq_of_zero-diff, is_zero}
use ringio.Mpmc.{
  MpmcRing, Pc, idle, push_load, push_seq, push_cas, push_write, push_store, pushed, pop_load,
  pop_seq, pop_cas, pop_read, pop_store, popped, access, diff, slot, Event,
}
use ringio.Mpmc.System.{System, commit}
use ringio.Mpmc.Invariant.Defs.{push_ticket, pop_ticket, ThreadFits, Inv}
use ringio.Mpmc.Invariant.Moves.{Move-Inv}
use ringio.Mpmc.Invariant.Slots.{
  filled, fill-RingFits, fill-ThreadFits, published, publish-RingFits, publish-ThreadFits, released,
  release-RingFits, release-ThreadFits,
}
use ringio.Mpmc.Invariant.Stays.{Keeps, stays}
use ringio.Mpmc.Invariant.Exchanges.{cas_push, cas_pop}

module _ {A : Type 0} {cap : ℕ} (c : IsCapacity cap) (two : 2 ≤ cap) {n : ℕ} {s : System A}
    (small : suc n + cap < 2 ^ 63) (inv : Inv cap n s) (i : ℕ) where
  open inv use {ring_fits}

  abbrev Kept : MpmcRing A × Pc A × Event A → Type 0
  Kept = Keeps c two small inv i

  seq-lt : (p : ℕ) → (slot cap s.ring p).sequence < 2 ^ 63
  seq-lt p = omega (arith, ring_fits.fits, ring_fits.bounded p)

  -- The test `diff == 0` passes only on the expected sequence number.
  seq_found :
      (p q : ℕ)
      → q < 2 ^ 63
      → is_zero (diff cap s.ring p q) ≡ true
      → (slot cap s.ring p).sequence ≡ q
  unfolding diff
  seq_found p q h = eq_of_zero-diff (slot cap s.ring p).sequence q (seq-lt p) h

  seq_push :
      (b : Bool) (v : A) (p : ℕ)
      → ThreadFits cap s.ring s.given s.taken (push_seq v p)
      → Kept (access cap b s.ring (push_seq v p))
  unfolding access
  seq_push b v p f =
      if_cases Kept _ _ _
        (λ z.
          stays c two small inv i (push_cas v p)
            (f, omega (arith, seq_found p p (omega (arith, ring_fits.fits)) z)) refl refl)
        (λ _.
          if_cases Kept _ _ _ (λ _. stays c two small inv i (pushed false) tt refl refl)
            (λ _. stays c two small inv i (push_load v) tt refl refl))

  seq_pop :
      (b : Bool) (p : ℕ)
      → ThreadFits cap s.ring s.given s.taken (pop_seq p)
      → Kept (access cap b s.ring (pop_seq p))
  unfolding access
  seq_pop b p f =
      if_cases Kept _ _ _
        (λ z.
          stays c two small inv i (pop_cas p)
            (
              f,
              omega (
                arith,
                ring_fits.fits,
                ring_fits.order,
                seq_found p (u64 (p + 1)) (omega (arith, ring_fits.fits, ring_fits.order)) z,
              ),
            )
            refl refl)
        (λ _.
          if_cases Kept _ _ _ (λ _. stays c two small inv i (popped none) tt refl refl)
            (λ _. stays c two small inv i pop_load tt refl refl))

  -- What thread `i` has claimed, no other has.
  push_apart :
      (x : Pc A) (p : ℕ)
      → s.threads i ≡ x
      → push_ticket x ≡ some p
      → (j : ℕ) → i ≢ j
      → push_ticket (s.threads j) ≢ some p
  push_apart x p e q j ne e' = ne (inv.push_unique i j p (ap push_ticket e ∙ q) e')

  pop_apart :
      (x : Pc A) (p : ℕ)
      → s.threads i ≡ x
      → pop_ticket x ≡ some p
      → (j : ℕ) → i ≢ j
      → pop_ticket (s.threads j) ≢ some p
  pop_apart x p e q j ne e' = ne (inv.pop_unique i j p (ap pop_ticket e ∙ q) e')

  write_push :
      (b : Bool) (v : A) (p : ℕ)
      → s.threads i ≡ push_write v p
      → ThreadFits cap s.ring s.given s.taken (push_write v p)
      → Kept (access cap b s.ring (push_write v p))
  unfolding access filled Keeps
  write_push b v p e f =
      Move-Inv inv i (commit s i (access cap b s.ring (push_write v p))) (push_store v p)
        (record {
          count = omega (arith, inv.count);
          ring_fits = fill-RingFits c two s.ring s.given ring_fits p v f;
          own = ground arith;
          others = λ j ne.
              fill-ThreadFits c two s.ring s.given ring_fits p v f s.taken (s.threads j)
                (inv.threads_fit j) (push_apart (push_write v p) p e refl j ne);
          push_fresh = λ j q ne e1 e2. push_apart (push_write v p) q e e2 j ne e1;
          pop_fresh = λ j q ne e1. cc;
          taken_fits = λ q. ground (arith, inv.taken_fits q);
        })
        refl

  store_push :
      (b : Bool) (v : A) (p : ℕ)
      → s.threads i ≡ push_store v p
      → ThreadFits cap s.ring s.given s.taken (push_store v p)
      → Kept (access cap b s.ring (push_store v p))
  unfolding access published Keeps
  store_push b v p e (f, full) =
      Move-Inv inv i (commit s i (access cap b s.ring (push_store v p))) (pushed true)
        (record {
          count = omega (arith, inv.count);
          ring_fits = publish-RingFits c two s.ring s.given ring_fits p v f full;
          own = tt;
          others = λ j ne.
              publish-ThreadFits c two s.ring s.given ring_fits p v f s.taken (s.threads j)
                (inv.threads_fit j) (push_apart (push_store v p) p e refl j ne);
          push_fresh = λ j q ne e1. cc;
          pop_fresh = λ j q ne e1. cc;
          taken_fits = λ q. ground (arith, inv.taken_fits q);
        })
        refl

  store_pop :
      (b : Bool) (v : A) (p : ℕ)
      → s.threads i ≡ pop_store v p
      → ThreadFits cap s.ring s.given s.taken (pop_store v p)
      → Kept (access cap b s.ring (pop_store v p))
  unfolding access released Keeps
  store_pop b v p e (f, same) =
      let took : update s.taken p (s.taken p ++ (v ∷ [])) ≡ update s.taken p (s.given p ∷ []) =
        ap (update s.taken p) (ground (arith, f, same)) in
      rw took (
        Move-Inv inv i
          (record (commit s i (access cap b s.ring (pop_store v p))) {
            taken = update s.taken p (s.given p ∷ []);
          })
          (popped (some v))
          (record {
            count = omega (arith, inv.count);
            ring_fits = release-RingFits c two s.ring s.given ring_fits s.taken p f;
            own = tt;
            others = λ j ne.
                release-ThreadFits c two s.ring s.given ring_fits s.taken p f (s.threads j)
                  (inv.threads_fit j) (pop_apart (pop_store v p) p e refl j ne);
            push_fresh = λ j q ne e1. cc;
            pop_fresh = λ j q ne e1. cc;
            taken_fits = λ q. ground (arith, f, inv.taken_fits q);
          })
          refl)

  read_pop :
      (b : Bool) (p : ℕ)
      → s.threads i ≡ pop_read p
      → ThreadFits cap s.ring s.given s.taken (pop_read p)
      → Kept (access cap b s.ring (pop_read p))
  unfolding access Keeps
  read_pop b p e f =
      Move-Inv inv i (commit s i (access cap b s.ring (pop_read p)))
        (pop_store (slot cap s.ring p).value p)
        (record {
          count = omega (arith, inv.count);
          ring_fits = ring_fits;
          own = ground (arith, f);
          others = λ j ne. inv.threads_fit j;
          push_fresh = λ j q ne e1. cc;
          pop_fresh = λ j q ne e1 e2. pop_apart (pop_read p) q e e2 j ne e1;
          taken_fits = inv.taken_fits;
        })
        refl

  pub access-Keeps :
      (b : Bool) (x : Pc A)
      → s.threads i ≡ x
      → ThreadFits cap s.ring s.given s.taken x
      → Kept (access cap b s.ring x)
  unfolding access
  access-Keeps b idle e f = stays c two small inv i idle tt refl refl
  access-Keeps b (push_load v) e f =
      stays c two small inv i (push_seq v s.ring.enqueue_pos) (omega arith) refl refl
  access-Keeps b (push_seq v p) e f = seq_push b v p f
  access-Keeps b (push_cas v p) e f = cas_push c two small inv i b v p f
  access-Keeps b (push_write v p) e f = write_push b v p e f
  access-Keeps b (push_store v p) e f = store_push b v p e f
  access-Keeps b (pushed done) e f = stays c two small inv i idle tt refl refl
  access-Keeps b pop_load e f =
      stays c two small inv i (pop_seq s.ring.dequeue_pos) (omega arith) refl refl
  access-Keeps b (pop_seq p) e f = seq_pop b p f
  access-Keeps b (pop_cas p) e f = cas_pop c two small inv i b p f
  access-Keeps b (pop_read p) e f = read_pop b p e f
  access-Keeps b (pop_store v p) e f = store_pop b v p e f
  access-Keeps b (popped out) e f = stays c two small inv i idle tt refl refl
