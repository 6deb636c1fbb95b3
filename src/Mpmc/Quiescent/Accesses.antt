-- ===== src/Mpmc/Quiescent/Accesses.antt =====
-- Every access of a thread of include/ringio/detail/mpmc_ring.hpp keeps the owners of the positions.
use ringio.Base.{
  ℕ, suc, ◌+◌, ◌≤◌, ◌<◌, ◌^◌, ◌≡◌, ◌≢◌, ◌⊎◌, inl, inr, refl, sym, ap, ◌∙◌, Bool, ◌&&◌, not, ◌==◌,
  Option, none, some, arith, if_cases, false, true, update,
}
use ringio.Base.Int.{is_zero, is_negative}
use ringio.Base.Word.{IsCapacity, u64}
use ringio.Mpmc.{
  MpmcRing, Pc, idle, push_load, push_seq, push_cas, push_write, push_store, pushed, pop_load,
  pop_seq, pop_cas, pop_read, pop_store, popped, access, diff, slot, set_slot, Event, quiet,
  claimed,
}
use ringio.Mpmc.System.{System, commit}
use ringio.Mpmc.Invariant.{push_ticket, pop_ticket, ThreadFits, Inv, slot_inj, slot_lap, cas_hit}
use ringio.Mpmc.Quiescent.Owned.{Owned, Move-Owned}

module _ {A : Type 0} {cap : ℕ} (c : IsCapacity cap) (two : 2 ≤ cap) {n : ℕ} {s : System A}
    (small : suc n + cap < 2 ^ 63) (inv : Inv cap n s) (owned : Owned cap s) (i : ℕ) where
  -- The outcome of an access keeps the owners.
  unfoldable pub Keeps : MpmcRing A × Pc A × Event A → Type 0
  Keeps r = Owned cap (commit s i r)

  open inv use {ring_fits}

  -- A thread holds a position, or it does not.
  holds : (o : Option ℕ) (q : ℕ) → (o ≡ some q) ⊎ (o ≢ some q)
  holds none q = inr (λ e. cc)
  holds (some p) q = ground arith

  -- A move that leaves the ring, from and to a place with the same claim.
  pub same_claim-Owned :
      (y : Pc A)
      → push_ticket y ≡ push_ticket (s.threads i)
      → pop_ticket y ≡ pop_ticket (s.threads i)
      → Owned cap (record s { threads = update s.threads i y })
  same_claim-Owned y e e' =
      Move-Owned cap owned i (record s { threads = update s.threads i y }) y
        (record {
          filling = λ q lo hi free. elim (holds (push_ticket (s.threads i)) q) [
            | inl own ↦ inl (e ∙ own)
            | inr apart ↦ inr (lo, hi, free, apart)
          ];
          emptying = λ q lt. elim (holds (pop_ticket (s.threads i)) q) [
            | inl own ↦ inr (inl (e' ∙ own))
            | inr apart ↦ inr (inr (lt, refl, refl, apart))
          ];
        })
        refl

  stays :
      (x y : Pc A)
      → s.threads i ≡ x
      → push_ticket y ≡ push_ticket x
      → pop_ticket y ≡ pop_ticket x
      → Keeps (s.ring, y, quiet)
  unfolding Keeps
  stays x y at e e' = same_claim-Owned y (e ∙ ap push_ticket (sym at)) (e' ∙ ap pop_ticket (sym at))

  seq_push :
      (b : Bool) (v : A) (p : ℕ)
      → s.threads i ≡ push_seq v p
      → Keeps (access cap b s.ring (push_seq v p))
  unfolding access
  seq_push b v p at =
      if_cases Keeps (is_zero (diff cap s.ring p p)) _ _
        (λ _. stays (push_seq v p) (push_cas v p) at refl refl)
        (λ _.
          if_cases Keeps (is_negative (diff cap s.ring p p)) _ _
            (λ _. stays (push_seq v p) (pushed false) at refl refl)
            (λ _. stays (push_seq v p) (push_load v) at refl refl))

  seq_pop : (b : Bool) (p : ℕ) → s.threads i ≡ pop_seq p → Keeps (access cap b s.ring (pop_seq p))
  unfolding access
  seq_pop b p at =
      if_cases Keeps (is_zero (diff cap s.ring p (u64 (p + 1)))) _ _
        (λ _. stays (pop_seq p) (pop_cas p) at refl refl)
        (λ _.
          if_cases Keeps (is_negative (diff cap s.ring p (u64 (p + 1)))) _ _
            (λ _. stays (pop_seq p) (popped none) at refl refl)
            (λ _. stays (pop_seq p) pop_load at refl refl))

  no_ticket :
      (x : Pc A) (q : ℕ)
      → s.threads i ≡ x
      → push_ticket x ≡ none
      → push_ticket (s.threads i) ≢ some q
  no_ticket x q at e h = cc

  no_pop_ticket :
      (x : Pc A) (q : ℕ) → s.threads i ≡ x → pop_ticket x ≡ none → pop_ticket (s.threads i) ≢ some q
  no_pop_ticket x q at e h = cc

  won_push : A → ℕ → MpmcRing A × Pc A × Event A
  won_push v p = (record (s.ring) { enqueue_pos = u64 (p + 1) }, push_write v p, claimed p v)

  won_pop : ℕ → MpmcRing A × Pc A × Event A
  won_pop p = (record (s.ring) { dequeue_pos = u64 (p + 1) }, pop_read p, quiet)

  win_push :
      (v : A) (p : ℕ) → s.threads i ≡ push_cas v p → s.ring.enqueue_pos ≡ p → Keeps (won_push v p)
  unfolding won_push Keeps
  win_push v p at e =
      Move-Owned cap owned i (commit s i (won_push v p)) (push_write v p)
        (record {
          filling =
              λ q lo hi free. ground (arith, no_ticket (push_cas v p) q at refl, ring_fits.fits);
          emptying =
              λ q lt. ground (arith, no_pop_ticket (push_cas v p) q at refl, ring_fits.order);
        })
        refl

  win_pop : (p : ℕ) → s.threads i ≡ pop_cas p → s.ring.dequeue_pos ≡ p → Keeps (won_pop p)
  unfolding won_pop Keeps
  win_pop p at e =
      let word : u64 (p + 1) ≡ p + 1 = omega (arith, ring_fits.fits, ring_fits.order, e) in
      Move-Owned cap owned i (commit s i (won_pop p)) (pop_read p)
        (record {
          filling = λ q lo hi free. ground (arith, no_ticket (pop_cas p) q at refl, word);
          emptying = λ q lt. ground (arith, no_pop_ticket (pop_cas p) q at refl, word);
        })
        refl

  cas_push :
      (b : Bool) (v : A) (p : ℕ)
      → s.threads i ≡ push_cas v p
      → Keeps (access cap b s.ring (push_cas v p))
  unfolding access won_push
  cas_push b v p at =
      if_cases Keeps (s.ring.enqueue_pos == p && not b) (won_push v p) _
        (λ hit. win_push v p at (cas_hit s.ring.enqueue_pos p b hit))
        (λ _. stays (push_cas v p) (push_seq v s.ring.enqueue_pos) at refl refl)

  cas_pop : (b : Bool) (p : ℕ) → s.threads i ≡ pop_cas p → Keeps (access cap b s.ring (pop_cas p))
  unfolding access won_pop
  cas_pop b p at =
      if_cases Keeps (s.ring.dequeue_pos == p && not b) (won_pop p) _
        (λ hit. win_pop p at (cas_hit s.ring.dequeue_pos p b hit))
        (λ _. stays (pop_cas p) (pop_seq s.ring.dequeue_pos) at refl refl)

  write_push :
      (b : Bool) (v : A) (p : ℕ)
      → s.threads i ≡ push_write v p
      → Keeps (access cap b s.ring (push_write v p))
  unfolding access set_slot Keeps
  write_push b v p at =
      Move-Owned cap owned i (commit s i (access cap b s.ring (push_write v p))) (push_store v p)
        (record {
          filling = λ q lo hi free. elim (holds (push_ticket (push_store v p)) q) [
            | inl own ↦ inl own
            | inr apart ↦ inr (lo, hi, ground arith, ground (arith, apart))
          ];
          emptying = λ q lt. ground (arith, no_pop_ticket (push_write v p) q at refl);
        })
        refl

  store_push :
      (b : Bool) (v : A) (p : ℕ)
      → s.threads i ≡ push_store v p
      → ThreadFits cap s.ring s.given s.taken (push_store v p)
      → Keeps (access cap b s.ring (push_store v p))
  unfolding access set_slot Keeps
  store_push b v p at (f, full) =
      Move-Owned cap owned i (commit s i (access cap b s.ring (push_store v p))) (pushed true)
        (record {
          filling = λ q lo hi free.
              let own : push_ticket (s.threads i) ≡ some p = ap push_ticket at in
              ground (arith, own, free, slot_inj c p q, ring_fits.fits, f);
          emptying = λ q lt. ground (arith, no_pop_ticket (push_store v p) q at refl);
        })
        refl

  store_pop :
      (b : Bool) (v : A) (p : ℕ)
      → s.threads i ≡ pop_store v p
      → ThreadFits cap s.ring s.given s.taken (pop_store v p)
      → Keeps (access cap b s.ring (pop_store v p))
  unfolding access set_slot Keeps
  store_pop b v p at (f, same) =
      Move-Owned cap owned i (commit s i (access cap b s.ring (pop_store v p))) (popped (some v))
        (record {
          filling = λ q lo hi free.
              let none_held : push_ticket (s.threads i) ≡ none = ap push_ticket at in
              ground (
                arith,
                none_held,
                free,
                slot_inj c p q,
                slot_lap c p,
                ring_fits.fits,
                ring_fits.order,
                ring_fits.room,
                ring_fits.positions q lo,
                f,
              );
          emptying = λ q lt.
              let own : pop_ticket (s.threads i) ≡ some p = ap pop_ticket at in
              ground (arith, own, f, same);
        })
        refl

  pub access-Keeps :
      (b : Bool) (x : Pc A)
      → s.threads i ≡ x
      → ThreadFits cap s.ring s.given s.taken x
      → Keeps (access cap b s.ring x)
  unfolding access
  access-Keeps b idle at f = stays idle idle at refl refl
  access-Keeps b (push_load v) at f =
      stays (push_load v) (push_seq v s.ring.enqueue_pos) at refl refl
  access-Keeps b (push_seq v p) at f = seq_push b v p at
  access-Keeps b (push_cas v p) at f = cas_push b v p at
  access-Keeps b (push_write v p) at f = write_push b v p at
  access-Keeps b (push_store v p) at f = store_push b v p at f
  access-Keeps b (pushed done) at f = stays (pushed done) idle at refl refl
  access-Keeps b pop_load at f = stays pop_load (pop_seq s.ring.dequeue_pos) at refl refl
  access-Keeps b (pop_seq p) at f = seq_pop b p at
  access-Keeps b (pop_cas p) at f = cas_pop b p at
  access-Keeps b (pop_read p) at f =
      stays (pop_read p) (pop_store (slot cap s.ring p).value p) at refl refl
  access-Keeps b (pop_store v p) at f = store_pop b v p at f
  access-Keeps b (popped out) at f = stays (popped out) idle at refl refl
