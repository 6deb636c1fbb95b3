-- ===== src/Pool/Threads/Invariant.antt =====
-- The invariant of the threads of a pool of include/ringio/detail/buffer_pool.hpp.
mod Links
mod Defs
mod Moves
mod Accesses
mod Steps
pub use Moves.{top_pooled}
pub use Links.*
pub use Steps.{Reach-Inv, start-Inv}
pub use Defs.*
pub use Moves.{Move, Move-Inv}
unfoldable pub use Accesses.{Keeps}
pub use Accesses.{take_hit, give_hit, give_link, lend-Inv}
