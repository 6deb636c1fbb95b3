-- ===== src/Mpmc/Single/CapacityOne.antt =====
-- A ring of include/ringio/detail/mpmc_ring.hpp of capacity one, which the static assertion accepts.
use ringio.Base.{ℕ, zero, suc, ◌≡◌, ◌≢◌, refl, true, false, subst, sym, ℕ_discrete, Option}
use ringio.Base.Int.{is_zero, is_negative, to_intptr, ◌-ℤ◌}
use ringio.Base.Word.{slot_index}
use ringio.Mpmc.{
  MpmcRing, Pc, push_load, pushed, pop_load, pop_seq, popped, init, access, slot, quiet,
}
use ringio.Mpmc.Single.{solo}

module _ {A : Type 0} where
  -- The dequeue cursor's slot is already one lap ahead.
  record Skipped (m : MpmcRing A) : Type 0 where
    cursor : m.dequeue_pos ≡ 0
    ahead : (slot 1 m 0).sequence ≡ 2

  -- A pop that looks at that slot starts again.
  restarts : (m : MpmcRing A) → Skipped m → access 1 false m (pop_seq 0) ≡ (m, pop_load, quiet)
  unfolding access ◌-ℤ◌ to_intptr is_zero is_negative
  restarts m k = rw k.ahead

  Spins : ℕ → MpmcRing A → Pc A → Type 0
  Spins n m x = (out : Option A) → (solo 1 n m x).1 ≢ popped out

  mutual
    unfolding solo Spins

    pop_load-Spins : (n : ℕ) (m : MpmcRing A) → Skipped m → Spins n m pop_load
    pop_load-Spins zero m k out = λ e. cc
    pop_load-Spins (suc n) m k out =
        subst (λ p. (solo 1 n m (pop_seq p)).1 ≢ popped out) (sym k.cursor)
          (pop_seq-Spins n m k out)

    pop_seq-Spins : (n : ℕ) (m : MpmcRing A) → Skipped m → Spins n m (pop_seq 0)
    pop_seq-Spins zero m k out = λ e. cc
    pop_seq-Spins (suc n) m k out = rw (restarts m k) (pop_load-Spins n m k out)

  -- The ring after two pushes.
  twice : A → A → A → MpmcRing A
  unfolding solo init
  twice blank v w = (solo 1 5 (solo 1 5 (init 1 blank) (push_load v)).0 (push_load w)).0

  -- In a new ring of capacity one a push succeeds; a second push succeeds too, although the ring
  -- holds its capacity; and a pop after them never returns, however many accesses it makes.
  pub capacity_one_overruns :
      (blank v w : A)
      → let first = solo 1 5 (init 1 blank) (push_load v) in
        let second = solo 1 5 first.0 (push_load w) in
        (first.1 ≡ pushed true)
        × (second.1 ≡ pushed true)
        × ((n : ℕ) (out : Option A) → (solo 1 n second.0 pop_load).1 ≢ popped out)
  unfolding solo init twice Spins slot_index ◌-ℤ◌ to_intptr is_zero is_negative ℕ_discrete
  capacity_one_overruns blank v w = (
    refl,
    refl,
    λ n out. pop_load-Spins n (twice blank v w) (record { cursor = refl; ahead = refl }) out,
  )
