-- ===== src/Mpmc/Single.antt =====
-- One thread of include/ringio/detail/mpmc_ring.hpp that runs alone, and the ring of capacity one.
pub mod CapacityOne
pub mod Returns
pub mod Calls
pub mod Pops
pub mod Refine
use ringio.Base.{ℕ, zero, suc, Bool, true, false, if◌then◌else◌}
use ringio.Mpmc.{MpmcRing, Pc, pushed, popped, access}

module _ {A : Type 0} where
  -- The call has returned.
  abbrev pub is_done : Pc A → Bool
  is_done (pushed b) = true
  is_done (popped out) = true
  is_done _ = false

  -- At most `n` accesses of one call, no other thread moving.
  unfoldable pub solo : ℕ → ℕ → MpmcRing A → Pc A → MpmcRing A × Pc A
  unfolding access
  solo cap zero m x = (m, x)
  solo cap (suc n) m x =
      let (m', y, e) = access cap false m x in
      let rest = solo cap n m' y in if is_done x then (m, x) else rest
