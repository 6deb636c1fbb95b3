-- ===== src/Mpmc/Quiescent/Steps.antt =====
-- In every state that the threads of include/ringio/detail/mpmc_ring.hpp reach, each open position has
-- its owner.
use ringio.Base.{ℕ, suc, ◌+◌, ◌≤◌, ◌<◌, ◌^◌, refl, ap, sym, arith}
use ringio.Base.Word.{IsCapacity}
use ringio.Mpmc.{push_load, pop_load, init}
use ringio.Mpmc.System.{System, turn, start, Step, acts, calls_push, calls_pop, Reach, here, next}
use ringio.Mpmc.Invariant.{push_ticket, pop_ticket, Inv, Reach-Inv}
use ringio.Mpmc.Quiescent.Owned.{Owned}
use ringio.Mpmc.Quiescent.Accesses.{Keeps, access-Keeps, same_claim-Owned}

module _ {A : Type 0} {cap : ℕ} (c : IsCapacity cap) (two : 2 ≤ cap) where
  start-Owned : (blank : A) → Owned cap (start cap blank)
  unfolding start init
  start-Owned blank = record {
    filling = λ q lo hi free. absurd (omega arith);
    emptying = λ q lt. absurd (omega arith);
  }

  Step-Owned :
      {n : ℕ} {s t : System A}
      → suc n + cap < 2 ^ 63
      → Step cap s t
      → Inv cap n s
      → Owned cap s
      → Owned cap t
  unfolding turn Keeps
  Step-Owned {s = s} small (acts i b) inv o =
      access-Keeps c two small inv o i b (s.threads i) refl (inv.threads_fit i)
  Step-Owned small (calls_push i v e) inv o =
      same_claim-Owned c two small inv o i (push_load v) (ap push_ticket (sym e))
        (ap pop_ticket (sym e))
  Step-Owned small (calls_pop i e) inv o =
      same_claim-Owned c two small inv o i pop_load (ap push_ticket (sym e)) (ap pop_ticket (sym e))

  pub Reach-Owned :
      {blank : A} {n : ℕ} {s : System A} → n + cap < 2 ^ 63 → Reach cap blank n s → Owned cap s
  Reach-Owned {blank} small here = start-Owned blank
  Reach-Owned small (next r st) =
      Step-Owned small st (Reach-Inv c two (omega arith) r) (Reach-Owned (omega arith) r)
