-- ===== src/Mpmc/Invariant/Moves.antt =====
-- What is left to show, for the invariant, of a step of one thread.
use ringio.Base.{ℕ, suc, ◌≤◌, ◌≡◌, ◌≢◌, refl, none, some, arith, update, update_cases}
use ringio.Mpmc.{Pc}
use ringio.Mpmc.System.{System}
use ringio.Mpmc.Invariant.Defs.{push_ticket, pop_ticket, RingFits, ThreadFits, TakenFits, Inv}

-- What is left to show when thread `i` goes to `y` in a new state of the ring.
module _ {A : Type 0} {cap n : ℕ} {s : System A} (inv : Inv cap n s) (i : ℕ) where
  pub record Move (t : System A) (y : Pc A) : Type 0 where
    pub count : t.ring.enqueue_pos ≤ suc n
    pub ring_fits : RingFits cap t.ring t.given
    pub own : ThreadFits cap t.ring t.given t.taken y
    pub others : (j : ℕ) → i ≢ j → ThreadFits cap t.ring t.given t.taken (s.threads j)
    pub push_fresh : (j p : ℕ) → i ≢ j → push_ticket (s.threads j) ≡ some p → push_ticket y ≢ some p
    pub pop_fresh : (j p : ℕ) → i ≢ j → pop_ticket (s.threads j) ≡ some p → pop_ticket y ≢ some p
    pub taken_fits : (p : ℕ) → TakenFits cap t.ring t.given t.taken p

  pub Move-Inv :
      (t : System A) (y : Pc A) → Move t y → t.threads ≡ update s.threads i y → Inv cap (suc n) t
  Move-Inv t y mv e = record {
    count = mv.count;
    ring_fits = mv.ring_fits;
    threads_fit = λ j. rw e (
        update_cases (ThreadFits cap t.ring t.given t.taken) s.threads i y j (λ _. mv.own)
          (mv.others j));
    push_unique = λ a b p.
        rw e (λ qa qb. ground (arith, inv.push_unique a b p, mv.push_fresh a p, mv.push_fresh b p));
    pop_unique = λ a b p.
        rw e (λ qa qb. ground (arith, inv.pop_unique a b p, mv.pop_fresh a p, mv.pop_fresh b p));
    taken_fits = mv.taken_fits;
  }

  -- A move that leaves the ring and claims nothing.
  pub quiet-Inv :
      (y : Pc A)
      → ThreadFits cap s.ring s.given s.taken y
      → push_ticket y ≡ none
      → pop_ticket y ≡ none
      → Inv cap (suc n) (record s { threads = update s.threads i y })
  quiet-Inv y own e e' =
      Move-Inv (record s { threads = update s.threads i y }) y
        (record {
          count = omega (arith, inv.count);
          ring_fits = inv.ring_fits;
          own = own;
          others = λ j ne. inv.threads_fit j;
          push_fresh = λ j p ne q. cc;
          pop_fresh = λ j p ne q. cc;
          taken_fits = inv.taken_fits;
        })
        refl
