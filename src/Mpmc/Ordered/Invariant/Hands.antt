-- ===== src/Mpmc/Ordered/Invariant/Hands.antt =====
-- The stores of include/ringio/detail/mpmc_ring.hpp that hand a slot on keep the invariant: they
-- carry the last access to its value.
use ringio.Base.{
  ℕ, suc, ◌+◌, ◌≤◌, ◌<◌, ◌^◌, ◌≡◌, refl, ap, inl, some, [], ◌∷◌, ◌++◌, arith, subst, update,
  update_self, update_ne, update_cases, update_both, Bool, true, false, ℕ_discrete,
}
use ringio.Base.Word.{IsCapacity, u64, slot_index}
use ringio.Memory.{Atomic, release, store}
use ringio.Mpmc.{
  Pc, idle, push_load, push_seq, push_cas, push_write, push_store, pushed, pop_load, pop_seq,
  pop_cas, pop_read, pop_store, popped,
}
use ringio.Mpmc.{access as sequential_access}
use ringio.Mpmc.Invariant as SequentialInv
use ringio.Mpmc.Invariant.{ThreadFits, Keeps, access-Keeps}
use ringio.Mpmc.Ordered.{
  View, views, System, ring, latest, sequence, stored_view, store_sequence, access,
}
use ringio.Mpmc.Ordered.Invariant.Defs.{ticket, Increasing, Released, Sees, Inv}
use ringio.Mpmc.Ordered.Invariant.Writes.{stored_slots}
use ringio.Mpmc.Ordered.Invariant.Sights.{
  store-Increasing, Released-other, Sees-store, Behind, not_at,
}

module _ {A : Type 0} {cap : ℕ} (c : IsCapacity cap) (two : 2 ≤ cap) {n : ℕ} {s : System A}
    (small : suc n + cap < 2 ^ 63) (inv : Inv cap n s) (i : ℕ) where
  open inv use {sequential, increasing, enqueues, dequeues, released, sees}

  -- A store of `x`, greater than what was there, with view `w`.
  module _ (p x : ℕ) (w : View) (mine : ticket (s.threads i) ≡ some p)
      (above : (sequence cap s p).value (sequence cap s p).last < x)
      (knows : s.uses (slot_index cap p) ≤ w.uses (slot_index cap p)) where
    sequences' : ℕ → Atomic View
    sequences' = store_sequence cap s p w x

    Increasing-handed : (k : ℕ) → Increasing (sequences' k)
    unfolding sequences'
    Increasing-handed k =
        update_cases Increasing s.sequences (slot_index cap p)
          (store views release w x (sequence cap s p)) k
          (λ _. store-Increasing (sequence cap s p) w x (increasing (slot_index cap p)) above)
          (λ _. increasing k)

    Released-handed : (y : Pc A) (k : ℕ) → Released cap sequences' s.uses (update s.threads i y) k
    unfolding sequences'
    Released-handed y k = elim (ℕ_discrete (slot_index cap p) k) [
      | yes e ↦ subst (Released cap sequences' s.uses (update s.threads i y)) e (
          inl (
            rw
              (
                update_self s.sequences (slot_index cap p)
                    (store views release w x (sequence cap s p)),
                update_self (sequence cap s p).view ((sequence cap s p).last + 1) w,
              )
              knows))
      | no ne ↦
          Released-other cap s.sequences s.uses sequences' s.uses s.threads i y k
            (update_ne s.sequences (slot_index cap p) k _ ne) refl
            (λ q. not_at cap (s.threads i) p k q mine ne) (released k)
    ]

    behind :
        (y : Pc A) → ThreadFits cap (ring s) s.given s.taken y → Behind cap y (slot_index cap p) x
    behind idle fits = tt
    behind (push_cas z q) fits =
        λ e. omega (arith, fits.1, ap (λ k. (s.sequences k).value (s.sequences k).last) e, above)
    behind (pop_cas q) fits =
        λ e. omega (arith, fits.1, ap (λ k. (s.sequences k).value (s.sequences k).last) e, above)
    behind (push_load z) fits = tt
    behind (push_seq z q) fits = tt
    behind (push_write z q) fits = tt
    behind (push_store z q) fits = tt
    behind (pushed b) fits = tt
    behind pop_load fits = tt
    behind (pop_seq q) fits = tt
    behind (pop_read q) fits = tt
    behind (pop_store z q) fits = tt
    behind (popped out) fits = tt

    Sees-handed :
        (y : Pc A) (v : View) (j : ℕ)
        → Sees cap sequences' s.uses v y
        → Sees cap sequences' s.uses (update s.views_of i v j) (update s.threads i y j)
    unfolding sequences'
    Sees-handed y v j own =
        update_both (Sees cap sequences' s.uses) s.views_of s.threads i v y j (λ _. own)
          (λ _.
            Sees-store cap s.sequences s.uses (s.threads j) (s.views_of j) (slot_index cap p) x w
              (behind (s.threads j) (sequential.threads_fit j)) (sees j))

  pub store_push :
      (b : Bool) (k : ℕ) (v : View) (x : A) (p : ℕ)
      → s.threads i ≡ push_store x p
      → ThreadFits cap (ring s) s.given s.taken (push_store x p)
      → s.uses (slot_index cap p) ≤ v.uses (slot_index cap p)
      → Inv cap (suc n) (access cap b k s i v (push_store x p))
  unfolding access Keeps sequential_access sequences'
  store_push b k v x p e fits knows =
      let w : View = stored_view cap s p v in
      let above : (sequence cap s p).value (sequence cap s p).last < u64 (p + 1) =
        omega (arith, fits, sequential.ring_fits.fits) in
      record {
        sequential =
            subst
              (λ m. SequentialInv.Inv cap (suc n) (record (latest s) {
                ring = record (ring s) { slots = m };
                threads = update s.threads i (pushed true);
              }))
              (stored_slots s (slot_index cap p) (u64 (p + 1))
                (store views release w (u64 (p + 1)) (sequence cap s p))
                (update_self (sequence cap s p).value ((sequence cap s p).last + 1) (u64 (p + 1))))
              (access-Keeps c two small sequential i false (push_store x p) e fits);
        increasing = Increasing-handed p (u64 (p + 1)) w (ap ticket e) above knows;
        enqueues = enqueues;
        dequeues = dequeues;
        released = Released-handed p (u64 (p + 1)) w (ap ticket e) above knows (pushed true);
        sees = λ j. Sees-handed p (u64 (p + 1)) w (ap ticket e) above knows (pushed true) w j tt;
      }

  pub store_pop :
      (b : Bool) (k : ℕ) (v : View) (x : A) (p : ℕ)
      → s.threads i ≡ pop_store x p
      → ThreadFits cap (ring s) s.given s.taken (pop_store x p)
      → s.uses (slot_index cap p) ≤ v.uses (slot_index cap p)
      → Inv cap (suc n) (access cap b k s i v (pop_store x p))
  unfolding access Keeps sequential_access sequences'
  store_pop b k v x p e fits knows =
      let w : View = stored_view cap s p v in
      let above : (sequence cap s p).value (sequence cap s p).last < u64 (p + cap) =
        omega (arith, fits, sequential.ring_fits.fits, sequential.ring_fits.order) in
      record {
        sequential =
            subst
              (λ m. SequentialInv.Inv cap (suc n) (record (latest s) {
                ring = record (ring s) { slots = m };
                threads = update s.threads i (popped (some x));
                taken = update s.taken p (s.taken p ++ (x ∷ []));
              }))
              (stored_slots s (slot_index cap p) (u64 (p + cap))
                (store views release w (u64 (p + cap)) (sequence cap s p))
                (update_self (sequence cap s p).value ((sequence cap s p).last + 1)
                  (u64 (p + cap))))
              (access-Keeps c two small sequential i false (pop_store x p) e fits);
        increasing = Increasing-handed p (u64 (p + cap)) w (ap ticket e) above knows;
        enqueues = enqueues;
        dequeues = dequeues;
        released = Released-handed p (u64 (p + cap)) w (ap ticket e) above knows (popped (some x));
        sees =
            λ j. Sees-handed p (u64 (p + cap)) w (ap ticket e) above knows (popped (some x)) w j tt;
      }
