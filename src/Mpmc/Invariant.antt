-- ===== src/Mpmc/Invariant.antt =====
-- The invariant of the threads of include/ringio/detail/mpmc_ring.hpp, while no counter has wrapped.
mod Defs
mod Slots
mod Moves
mod Stays
mod Exchanges
mod Accesses
mod Steps
mod Tickets
pub use Defs.*
pub use Steps.{Reach-Inv, start-Inv, init_slots-sequence}
pub use Slots.{slot_inj, slot_lap, claim_free, claim_full, cas_hit}
pub use Tickets.{push_claim, pop_claim, tickets_apart}
pub use Moves.{quiet-Inv}
unfoldable pub use Stays.{Keeps}
unfoldable pub use Exchanges.{won_push, won_pop}
pub use Exchanges.{claim_push, claim_pop}
pub use Accesses.{access-Keeps}
