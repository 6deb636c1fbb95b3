-- ===== src/Mpmc/Invariant/Stays.antt =====
-- What it takes for an access of include/ringio/detail/mpmc_ring.hpp to keep the invariant.
use ringio.Base.{ℕ, suc, ◌+◌, ◌≤◌, ◌<◌, ◌^◌, ◌≡◌, none}
use ringio.Base.Word.{IsCapacity}
use ringio.Mpmc.{MpmcRing, Pc, Event, quiet}
use ringio.Mpmc.System.{System, commit}
use ringio.Mpmc.Invariant.Defs.{push_ticket, pop_ticket, ThreadFits, Inv}
use ringio.Mpmc.Invariant.Moves.{quiet-Inv}

module _ {A : Type 0} {cap : ℕ} (c : IsCapacity cap) (two : 2 ≤ cap) {n : ℕ} {s : System A}
    (small : suc n + cap < 2 ^ 63) (inv : Inv cap n s) (i : ℕ) where
  -- The outcome of an access at `x` keeps the invariant.
  unfoldable pub Keeps : MpmcRing A × Pc A × Event A → Type 0
  Keeps r = Inv cap (suc n) (commit s i r)

  pub stays :
      (y : Pc A)
      → ThreadFits cap s.ring s.given s.taken y
      → push_ticket y ≡ none
      → pop_ticket y ≡ none
      → Keeps (s.ring, y, quiet)
  unfolding Keeps
  stays y own e e' = quiet-Inv inv i y own e e'
