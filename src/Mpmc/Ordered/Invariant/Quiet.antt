-- ===== src/Mpmc/Ordered/Invariant/Quiet.antt =====
-- The loads of include/ringio/detail/mpmc_ring.hpp, stale or not, keep the invariant.
use ringio.Base.{
  ℕ, suc, ◌+◌, ◌≤◌, ◌<◌, ◌^◌, ◌≡◌, ◌≢◌, ◌∙◌, refl, none, some, arith, update, Bool, false,
  if◌then◌else◌, if_cases, ℕ_discrete, update_both, update_cases,
}
use ringio.Base.Word.{IsCapacity, u64, slot_index, capacity-pos}
use ringio.Base.Int.{eq_of_zero-diff, is_zero, is_negative}
use ringio.Mpmc.{Pc, push_load, push_seq, push_cas, pushed, pop_load, pop_seq, pop_cas, popped}
use ringio.Mpmc.Invariant.{push_ticket, pop_ticket, ThreadFits, quiet-Inv}
use ringio.Mpmc.Ordered.{View, System, ring, goes_on, sequence, loaded_sequence, diff, access}
use ringio.Mpmc.Ordered.Invariant.Defs.{ticket, Fresh, Sees, Inv}
use ringio.Mpmc.Ordered.Invariant.Sights.{Released-other, NotAbove-of_Increasing}

module _ {A : Type 0} {cap : ℕ} (c : IsCapacity cap) {n : ℕ} {s : System A} (inv : Inv cap n s)
    (i : ℕ) (free : ticket (s.threads i) ≡ none) where
  open inv use {sequential, increasing, enqueues, dequeues, released, sees}

  no_ticket : (k p : ℕ) → ticket (s.threads i) ≡ some p → slot_index cap p ≢ k
  no_ticket k p t e = cc

  -- A thread that has claimed nothing goes on with what it knows.
  pub quiet :
      (y : Pc A) (v : View)
      → ThreadFits cap (ring s) s.given s.taken y
      → push_ticket y ≡ none
      → pop_ticket y ≡ none
      → Sees cap s.sequences s.uses v y
      → Inv cap (suc n) (goes_on cap s i y v)
  quiet y v fits e e' own = record {
    sequential = quiet-Inv sequential i y fits e e';
    increasing = increasing;
    enqueues = enqueues;
    dequeues = dequeues;
    released = λ k.
        Released-other cap s.sequences s.uses s.sequences s.uses s.threads i y k refl refl
          (no_ticket k) (released k);
    sees = λ j.
        update_both (Sees cap s.sequences s.uses) s.views_of s.threads i v y j (λ _. own)
          (λ _. sees j);
  }

  -- A call begins.
  pub called :
      (y : Pc A)
      → ThreadFits cap (ring s) s.given s.taken y
      → push_ticket y ≡ none
      → pop_ticket y ≡ none
      → ((v : View) → Sees cap s.sequences s.uses v y)
      → Inv cap (suc n) (record s { threads = update s.threads i y })
  called y fits e e' own = record {
    sequential = quiet-Inv sequential i y fits e e';
    increasing = increasing;
    enqueues = enqueues;
    dequeues = dequeues;
    released = λ k.
        Released-other cap s.sequences s.uses s.sequences s.uses s.threads i y k refl refl
          (no_ticket k) (released k);
    sees = λ j.
        update_cases (Sees cap s.sequences s.uses (s.views_of j)) s.threads i y j
          (λ _. own (s.views_of j)) (λ _. sees j);
  }

  small_value : (k p : ℕ) → k ≤ (sequence cap s p).last → (sequence cap s p).value k < 2 ^ 63
  small_value k p le = omega (
    arith,
    NotAbove-of_Increasing (sequence cap s p) k (increasing (slot_index cap p)) le,
    sequential.ring_fits.bounded p,
    sequential.ring_fits.fits,
  )

  -- Whoever has read a store's value, and finds it still there, has read the last store.
  loaded-Fresh :
      (k p q : ℕ) (v : View)
      → k ≤ (sequence cap s p).last
      → (sequence cap s p).value k ≡ q
      → Fresh (slot_index cap p) s.sequences (loaded_sequence cap s k v p) q
  loaded-Fresh k p q v le found still = elim (ℕ_discrete k (sequence cap s p).last) [
    | yes last ↦ rw (← last) (omega arith)
    | no older ↦ absurd (omega (arith, found, still, increasing (slot_index cap p) k (omega arith)))
  ]

  pub seq_push :
      (b : Bool) (k : ℕ) (v : View) (x : A) (p : ℕ)
      → ThreadFits cap (ring s) s.given s.taken (push_seq x p)
      → k ≤ (sequence cap s p).last
      → Inv cap (suc n) (access cap b k s i v (push_seq x p))
  unfolding access
  seq_push b k v x p fits le =
      let v' : View = loaded_sequence cap s k v p in
      if_cases (λ y. Inv cap (suc n) (goes_on cap s i y v')) (is_zero (diff cap s k p p))
        (push_cas x p) (if is_negative (diff cap s k p p) then pushed false else push_load x)
        (λ z.
          let found : (sequence cap s p).value k ≡ p =
            eq_of_zero-diff ((sequence cap s p).value k) p (small_value k p le)
              (omega (arith, fits, sequential.ring_fits.fits)) z in
          quiet (push_cas x p) v'
            (
              fits,
              omega (
                arith,
                found,
                NotAbove-of_Increasing (sequence cap s p) k (increasing (slot_index cap p)) le,
              ),
            )
            refl refl (loaded-Fresh k p p v le found))
        (λ _.
          if_cases (λ y. Inv cap (suc n) (goes_on cap s i y v')) (is_negative (diff cap s k p p))
            (pushed false) (push_load x) (λ _. quiet (pushed false) v' tt refl refl tt)
            (λ _. quiet (push_load x) v' tt refl refl tt))

  pub seq_pop :
      (b : Bool) (k : ℕ) (v : View) (p : ℕ)
      → ThreadFits cap (ring s) s.given s.taken (pop_seq p)
      → k ≤ (sequence cap s p).last
      → Inv cap (suc n) (access cap b k s i v (pop_seq p))
  unfolding access
  seq_pop b k v p fits le =
      let v' : View = loaded_sequence cap s k v p in
      let q : ℕ = u64 (p + 1) in
      let small : p + 1 < 2 ^ 63 =
        omega
          (arith, capacity-pos c, fits, sequential.ring_fits.fits, sequential.ring_fits.order) in
      if_cases (λ y. Inv cap (suc n) (goes_on cap s i y v')) (is_zero (diff cap s k p q))
        (pop_cas p) (if is_negative (diff cap s k p q) then popped none else pop_load)
        (λ z.
          let found : (sequence cap s p).value k ≡ p + 1 =
            eq_of_zero-diff ((sequence cap s p).value k) q (small_value k p le) (omega arith) z
            ∙ omega arith in
          quiet (pop_cas p) v'
            (
              fits,
              omega (
                arith,
                found,
                NotAbove-of_Increasing (sequence cap s p) k (increasing (slot_index cap p)) le,
              ),
            )
            refl refl (loaded-Fresh k p (p + 1) v le found))
        (λ _.
          if_cases (λ y. Inv cap (suc n) (goes_on cap s i y v')) (is_negative (diff cap s k p q))
            (popped none) pop_load (λ _. quiet (popped none) v' tt refl refl tt)
            (λ _. quiet pop_load v' tt refl refl tt))
