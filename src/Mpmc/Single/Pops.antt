-- ===== src/Mpmc/Single/Pops.antt =====
-- A pop of include/ringio/detail/mpmc_ring.hpp that runs alone from a state that the threads have
-- reached.
use ringio.Mpmc.System.{System}
