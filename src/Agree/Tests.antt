-- ===== src/Agree/Tests.antt =====
-- A script on both rings of include/ringio/detail/.
use ringio.Base.{ℕ, ◌≡◌, refl, true, false, none, some, List, [], ◌∷◌, arith}
use ringio.Base.Word.{IsCapacity}
use ringio.Spsc.{init as spsc_init}
use ringio.Mpmc.{init as mpmc_init}
use ringio.Spsc.Queue.{push, pop}
use ringio.Agree.{Op, Answer, run_queue, run_spsc, run_mpmc, rings_agree}

two : IsCapacity 2
two = record { exponent = 1; fits = omega arith; power = refl }

-- The third push is refused, and so is the third pop.
abbrev script : List (Op ℕ)
script = Op.pushes 5 ∷ Op.pushes 6 ∷ Op.pushes 7 ∷ Op.pops ∷ Op.pops ∷ Op.pops ∷ []

queue_answers :
    run_queue 2 script []
    ≡ Answer.accepted true
      ∷ Answer.accepted true
      ∷ Answer.accepted false
      ∷ Answer.delivered (some 5)
      ∷ Answer.delivered (some 6)
      ∷ Answer.delivered none
      ∷ []
unfolding run_queue push pop
queue_answers = refl

rings_agree_example :
    (run_mpmc 2 script (mpmc_init 2 0) ≡ run_spsc 2 script (spsc_init 0))
    × (run_spsc 2 script (spsc_init 0) ≡ run_queue 2 script [])
rings_agree_example = rings_agree two script 0 (omega arith) (omega arith)
