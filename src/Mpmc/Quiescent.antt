-- ===== src/Mpmc/Quiescent.antt =====
-- The ring of include/ringio/detail/mpmc_ring.hpp between calls.
pub mod Owned
mod Accesses
mod Steps
pub mod Contents
