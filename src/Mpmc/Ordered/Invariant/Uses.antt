-- ===== src/Mpmc/Ordered/Invariant/Uses.antt =====
-- The accesses of include/ringio/detail/mpmc_ring.hpp to a claimed slot keep the invariant.
use ringio.Base.{
  ℕ, suc, ◌+◌, ◌≤◌, ◌<◌, ◌^◌, ◌≡◌, refl, sym, ap, some, arith, subst, update, update_self,
  update_ne, update_both, Bool, false, ℕ_discrete,
}
use ringio.Base.Word.{IsCapacity, slot_index}
use ringio.Mpmc.{Pc, push_write, push_store, pop_read, pop_store}
use ringio.Mpmc.{access as sequential_access}
use ringio.Mpmc.Invariant as SequentialInv
use ringio.Mpmc.Invariant.{ThreadFits, Keeps, access-Keeps}
use ringio.Mpmc.Ordered.{View, System, ring, latest, used, access}
use ringio.Mpmc.Ordered.Invariant.Defs.{ticket, Released, Sees, Inv}
use ringio.Mpmc.Ordered.Invariant.Writes.{written_slots}
use ringio.Mpmc.Ordered.Invariant.Tickets.{apart}
use ringio.Mpmc.Ordered.Invariant.Sights.{Released-mine, Released-other, Sees-use, not_at}

module _ {A : Type 0} {cap : ℕ} (c : IsCapacity cap) (two : 2 ≤ cap) {n : ℕ} {s : System A}
    (small : suc n + cap < 2 ^ 63) (inv : Inv cap n s) (i : ℕ) where
  open inv use {sequential, increasing, enqueues, dequeues, released, sees}

  -- What an access to the value of the claimed slot leaves of the rest.
  module _ (p : ℕ) (mine : ticket (s.threads i) ≡ some p) where
    slot_p : ℕ
    slot_p = slot_index cap p

    uses' : ℕ → ℕ
    uses' = update s.uses (slot_index cap p) (s.uses (slot_index cap p) + 1)

    Released-used :
        (y : Pc A) (k : ℕ)
        → ticket y ≡ some p
        → Released cap s.sequences uses' (update s.threads i y) k
    unfolding uses'
    Released-used y k t = elim (ℕ_discrete (slot_index cap p) k) [
      | yes e ↦
          subst (Released cap s.sequences uses' (update s.threads i y)) e
            (Released-mine cap s.sequences uses' s.threads i p y t)
      | no ne ↦
          Released-other cap s.sequences s.uses s.sequences uses' s.threads i y k refl
            (update_ne s.uses (slot_index cap p) k _ ne)
            (λ q. not_at cap (s.threads i) p k q mine ne) (released k)
    ]

    Sees-used :
        (y : Pc A) (v : View) (j : ℕ)
        → Sees cap s.sequences uses' (used cap s p v) y
        → Sees cap s.sequences uses'
            (update s.views_of i (used cap s p v) j)
            (update s.threads i y j)
    unfolding uses'
    Sees-used y v j own =
        update_both (Sees cap s.sequences uses') s.views_of s.threads i (used cap s p v) y j
          (λ _. own)
          (λ ne.
            Sees-use cap s.sequences s.uses (s.threads j) (s.views_of j) (slot_index cap p) _
              (λ q t e. apart c two sequential i j p q ne mine t (sym e)) (sees j))

    used_now : (v : View) → uses' (slot_index cap p) ≤ (used cap s p v).uses (slot_index cap p)
    unfolding uses'
    used_now v =
        rw
          (
            update_self s.uses (slot_index cap p) (s.uses (slot_index cap p) + 1),
            update_self v.uses (slot_index cap p) (s.uses (slot_index cap p) + 1),
          )
          (omega arith)

  pub write_push :
      (b : Bool) (k : ℕ) (v : View) (x : A) (p : ℕ)
      → s.threads i ≡ push_write x p
      → ThreadFits cap (ring s) s.given s.taken (push_write x p)
      → Inv cap (suc n) (access cap b k s i v (push_write x p))
  unfolding access Keeps sequential_access uses'
  write_push b k v x p e fits = record {
    sequential =
        subst
          (λ m. SequentialInv.Inv cap (suc n) (record (latest s) {
            ring = record (ring s) { slots = m };
            threads = update s.threads i (push_store x p);
          }))
          (written_slots s (slot_index cap p) x)
          (access-Keeps c two small sequential i false (push_write x p) e fits);
    increasing = increasing;
    enqueues = enqueues;
    dequeues = dequeues;
    released = λ q. Released-used p (ap ticket e) (push_store x p) q refl;
    sees = λ j. Sees-used p (ap ticket e) (push_store x p) v j (used_now p (ap ticket e) v);
  }

  pub read_pop :
      (b : Bool) (k : ℕ) (v : View) (p : ℕ)
      → s.threads i ≡ pop_read p
      → ThreadFits cap (ring s) s.given s.taken (pop_read p)
      → Inv cap (suc n) (access cap b k s i v (pop_read p))
  unfolding access Keeps sequential_access uses'
  read_pop b k v p e fits = record {
    sequential = access-Keeps c two small sequential i false (pop_read p) e fits;
    increasing = increasing;
    enqueues = enqueues;
    dequeues = dequeues;
    released =
        λ q. Released-used p (ap ticket e) (pop_store (s.values (slot_index cap p)) p) q refl;
    sees = λ j.
        Sees-used p (ap ticket e) (pop_store (s.values (slot_index cap p)) p) v j
          (used_now p (ap ticket e) v);
  }
