-- ===== src/Mpmc/Ordered/Tests.antt =====
-- A push and a pop of two threads on a ring of capacity 2 of include/ringio/detail/mpmc_ring.hpp, with
-- a fresh and with a stale load.
use ringio.Base.{
  ℕ, ◌+◌, ◌≤◌, ◌<◌, ◌≡◌, ◌⊎◌, inr, refl, none, [], ◌∷◌, arith, ℕ_discrete, false, update,
}
use ringio.Base.Word.{IsCapacity, slot_index}
use ringio.Base.Int.{◌-ℤ◌, to_intptr, is_zero, is_negative}
use ringio.Mpmc.{Pc, push_load, pop_load, init}
use ringio.Mpmc.Ordered.{
  System, Reach, here, next, acts, calls_push, calls_pop, access, turn, start, ring,
}
use ringio.Mpmc.Ordered.Fifo.{uses_ordered, ordered_delivered_once}

two : IsCapacity 2
two = record { exponent = 1; fits = omega arith; power = refl }

-- An access of thread `i` whose load, if it makes one, returns store `k`.
abbrev go : ℕ → ℕ → System ℕ → System ℕ
go i k s = turn 2 false k s i

abbrev called : ℕ → Pc ℕ → System ℕ → System ℕ
called i x s = record s { threads = update s.threads i x }

abbrev pushed_one : System ℕ
pushed_one = go 0 0 (go 0 0 (go 0 0 (go 0 0 (go 0 0 (called 0 (push_load 5) (start 2 0))))))

abbrev popping : System ℕ
popping = go 1 0 (called 1 pop_load pushed_one)

-- The pop sees the push, or it does not.
abbrev reading : System ℕ
reading = go 1 0 (go 1 1 popping)

abbrev stale : System ℕ
stale = go 1 0 popping

pushed_one-Reach : Reach 2 0 6 pushed_one
unfolding start turn access init slot_index ◌-ℤ◌ to_intptr is_zero is_negative ℕ_discrete
pushed_one-Reach =
    next
      (next
        (next
          (next (next (next here (calls_push 0 5 refl)) (acts 0 false 0 (omega arith)))
            (acts 0 false 0 (omega arith)))
          (acts 0 false 0 (omega arith)))
        (acts 0 false 0 tt))
      (acts 0 false 0 tt)

popping-Reach : Reach 2 0 8 popping
unfolding start turn access init slot_index ◌-ℤ◌ to_intptr is_zero is_negative ℕ_discrete
popping-Reach = next (next pushed_one-Reach (calls_pop 1 refl)) (acts 1 false 0 (omega arith))

reading-Reach : Reach 2 0 10 reading
unfolding start turn access init slot_index ◌-ℤ◌ to_intptr is_zero is_negative ℕ_discrete
reading-Reach =
    next (next popping-Reach (acts 1 false 1 (omega arith))) (acts 1 false 0 (omega arith))

stale_refused : stale.threads 1 ≡ Pc.popped none
unfolding start turn access init slot_index ◌-ℤ◌ to_intptr is_zero is_negative ℕ_discrete
stale_refused = refl

-- The push has written the slot, and the pop knows it.
uses_ordered_example : reading.uses (slot_index 2 0) ≤ (reading.views_of 1).uses (slot_index 2 0)
unfolding start turn access init slot_index ◌-ℤ◌ to_intptr is_zero is_negative ℕ_discrete
uses_ordered_example = uses_ordered two (omega arith) (omega arith) reading-Reach 1 5 0 (inr refl)

ordered_delivered_once_example :
    ((reading.taken 0 ≡ [])
      ⊎ ((reading.taken 0 ≡ reading.given 0 ∷ []) × (0 < (ring reading).dequeue_pos)))
    × ((ring reading).dequeue_pos ≤ (ring reading).enqueue_pos)
    × ((ring reading).enqueue_pos ≤ (ring reading).dequeue_pos + 2)
ordered_delivered_once_example =
    ordered_delivered_once two (omega arith) (omega arith) reading-Reach 0
