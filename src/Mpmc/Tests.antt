-- ===== src/Mpmc/Tests.antt =====
-- A ring of two places of include/ringio/detail/mpmc_ring.hpp in use.
use ringio.Base.{
  ℕ, zero, suc, ◌-◌, ◌≤◌, ◌<◌, ◌≡◌, ◌≢◌, ◌⊎◌, refl, true, false, [], ◌∷◌, arith, ℕ_discrete, Option,
  update,
}
use ringio.Base.Int.{to_intptr, ◌-ℤ◌, is_zero, is_negative}
use ringio.Base.Word.{IsCapacity, slot_index}
use ringio.Mpmc.{Pc, push_load, push_cas, pushed, pop_load, popped, slot, access, init}
use ringio.Mpmc.System.{System, turn, start, Reach, here, next, acts, calls_push, calls_pop}
use ringio.Mpmc.Progress.{retry_is_progress}
use ringio.Mpmc.Refusal.{refused_push_is_full, refused_pop_is_empty}
use ringio.Mpmc.Quiescent.Contents.{IsQuiet, values, nothing_lost}
use ringio.Agree.{Op, run_mpmc, run_queue, quiet_agrees}
use ringio.Mpmc.Single.{solo}
use ringio.Mpmc.Single.CapacityOne.{capacity_one_overruns}

two : IsCapacity 2
two = record { exponent = 1; fits = omega arith; power = refl }

-- `k` accesses of thread `i`, none of which fails without a cause.
abbrev turns : ℕ → ℕ → System ℕ → System ℕ
turns i zero s = s
turns i (suc k) s = turns i k (turn 2 false s i)

abbrev count_from : ℕ → ℕ → ℕ
count_from n zero = n
count_from n (suc k) = count_from (suc n) k

turns-Reach :
    (i k : ℕ) {n : ℕ} {s : System ℕ} → Reach 2 0 n s → Reach 2 0 (count_from n k) (turns i k s)
turns-Reach i zero r = r
turns-Reach i (suc k) r = turns-Reach i k (next r (acts i false))

abbrev call : ℕ → Pc ℕ → System ℕ → System ℕ
call i pc s = record s { threads = update s.threads i pc }

abbrev pushed_one : System ℕ
pushed_one = turns 0 6 (call 0 (push_load 5) (start 2 0))

pushed_one-Reach : Reach 2 0 7 pushed_one
unfolding start
pushed_one-Reach = turns-Reach 0 6 (next here (calls_push 0 5 refl))

abbrev delivered_one : System ℕ
delivered_one = turns 1 6 (call 1 pop_load pushed_one)

delivered_one-Reach : Reach 2 0 14 delivered_one
unfolding start turn access init slot_index ◌-ℤ◌ to_intptr is_zero is_negative ℕ_discrete
delivered_one-Reach = turns-Reach 1 6 (next pushed_one-Reach (calls_pop 1 refl))

-- Thread 0 is about to write its second value, and thread 1 to read the first.
abbrev racing : System ℕ
racing = turns 1 3 (call 1 pop_load (turns 0 3 (call 0 (push_load 6) pushed_one)))

-- A third push finds both places in use.
abbrev pushed_two : System ℕ
pushed_two = turns 0 6 (call 0 (push_load 6) pushed_one)

abbrev full_check : System ℕ
full_check = turns 0 1 (call 0 (push_load 7) pushed_two)

full_check-Reach : Reach 2 0 16 full_check
unfolding start turn access init slot_index ◌-ℤ◌ to_intptr is_zero is_negative ℕ_discrete
full_check-Reach =
    turns-Reach 0 1
      (next (turns-Reach 0 6 (next pushed_one-Reach (calls_push 0 6 refl))) (calls_push 0 7 refl))

refused_push_is_full_example :
    (2 ≡ full_check.ring.enqueue_pos)
    × (2 ≤ full_check.ring.enqueue_pos)
    × (full_check.taken (full_check.ring.enqueue_pos - 2) ≡ [])
unfolding start turn access init slot_index ◌-ℤ◌ to_intptr is_zero is_negative ℕ_discrete
refused_push_is_full_example =
    refused_push_is_full two (omega arith) (omega arith) full_check-Reach 0 false 7 2 refl refl

abbrev empty_check : System ℕ
empty_check = turns 0 1 (call 0 pop_load (start 2 0))

empty_check-Reach : Reach 2 0 2 empty_check
unfolding start
empty_check-Reach = turns-Reach 0 1 (next here (calls_pop 0 refl))

refused_pop_is_empty_example :
    (0 ≡ empty_check.ring.dequeue_pos)
    × ((empty_check.ring.enqueue_pos ≡ empty_check.ring.dequeue_pos)
        ⊎ ((slot 2 empty_check.ring empty_check.ring.dequeue_pos).sequence
            ≡ empty_check.ring.dequeue_pos))
unfolding start turn access init slot_index ◌-ℤ◌ to_intptr is_zero is_negative ℕ_discrete
refused_pop_is_empty_example =
    refused_pop_is_empty two (omega arith) (omega arith) empty_check-Reach 0 false 0 refl refl

capacity_one_overruns_example :
    let first = solo {A = ℕ} 1 5 (init 1 0) (push_load 7) in
    let second = solo {A = ℕ} 1 5 first.0 (push_load 8) in
    (first.1 ≡ pushed true)
    × (second.1 ≡ pushed true)
    × ((n : ℕ) (out : Option ℕ) → (solo 1 n second.0 pop_load).1 ≢ popped out)
capacity_one_overruns_example = capacity_one_overruns 0 7 8

pushed_one-IsQuiet : IsQuiet pushed_one
unfolding start turn access init slot_index ◌-ℤ◌ to_intptr is_zero is_negative ℕ_discrete
pushed_one-IsQuiet zero = (refl, refl)
pushed_one-IsQuiet (suc i) = (ground arith, ground arith)

-- One position is claimed, and published.
nothing_lost_example :
    ((0 < pushed_one.ring.dequeue_pos) × (pushed_one.taken 0 ≡ pushed_one.given 0 ∷ []))
    ⊎ ((pushed_one.ring.dequeue_pos ≤ 0)
        × (pushed_one.taken 0 ≡ [])
        × ((slot 2 pushed_one.ring 0).sequence ≡ 1)
        × ((slot 2 pushed_one.ring 0).value ≡ pushed_one.given 0))
unfolding start turn access init slot_index ◌-ℤ◌ to_intptr is_zero is_negative ℕ_discrete
nothing_lost_example =
    nothing_lost two (omega arith) (omega arith) pushed_one-Reach pushed_one-IsQuiet 0 (omega arith)

quiet_agrees_example :
    run_mpmc 2 (Op.pushes 6 ∷ Op.pops ∷ Op.pops ∷ []) pushed_one.ring
    ≡ run_queue 2 (Op.pushes 6 ∷ Op.pops ∷ Op.pops ∷ []) (
        values pushed_one.given pushed_one.ring.dequeue_pos
          (pushed_one.ring.enqueue_pos - pushed_one.ring.dequeue_pos))
quiet_agrees_example =
    quiet_agrees two (Op.pushes 6 ∷ Op.pops ∷ Op.pops ∷ []) (omega arith) (omega arith)
      pushed_one-Reach pushed_one-IsQuiet

-- Thread 1 has claimed position 0 since thread 0 looked at it.
abbrev overtaken : System ℕ
overtaken = turns 1 3 (call 1 (push_load 6) (turns 0 2 (call 0 (push_load 5) (start 2 0))))

overtaken-Reach : Reach 2 0 7 overtaken
unfolding start turn access init slot_index ◌-ℤ◌ to_intptr is_zero is_negative ℕ_discrete
overtaken-Reach =
    turns-Reach 1 3 (next (turns-Reach 0 2 (next here (calls_push 0 5 refl))) (calls_push 1 6 refl))

retry_is_progress_example : 0 < overtaken.ring.enqueue_pos
unfolding start turn access init slot_index ◌-ℤ◌ to_intptr is_zero is_negative ℕ_discrete
retry_is_progress_example =
    retry_is_progress two (omega arith) (omega arith) overtaken-Reach 0 (push_cas 5 0) refl tt
