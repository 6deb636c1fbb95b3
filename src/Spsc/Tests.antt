-- ===== src/Spsc/Tests.antt =====
-- A ring of four places of include/ringio/detail/spsc_ring.hpp in use.
use ringio.Base.{ℕ, ◌-◌, ◌*◌, ◌^◌, ◌≡◌, refl, arith}
use ringio.Base.Word.{IsCapacity}
use ringio.Spsc.{SpscRing, try_push, try_pop}
use ringio.Spsc.Queue.{push, pop, contents}
use ringio.Spsc.Refine.{IsValid, try_push_refines, try_pop_refines}

four : IsCapacity 4
four = record { exponent = 2; fits = omega arith; power = refl }

-- Two values, the counter of the next push about to wrap.
abbrev at_the_wrap : SpscRing ℕ
at_the_wrap = record { head = 2 ^ 64 - 3; tail = 2 ^ 64 - 1; buffer = λ i. i * 10 }

at_the_wrap-IsValid : IsValid 4 at_the_wrap
at_the_wrap-IsValid = omega arith

try_push_refines_example :
    let (done, r') = try_push 4 at_the_wrap 7 in
    (done, contents 4 r') ≡ push 4 (contents 4 at_the_wrap) 7
try_push_refines_example = try_push_refines four 7 at_the_wrap-IsValid

try_pop_refines_example :
    let (out, r') = try_pop 4 at_the_wrap in (out, contents 4 r') ≡ pop (contents 4 at_the_wrap)
try_pop_refines_example = try_pop_refines four at_the_wrap-IsValid
