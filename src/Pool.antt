-- ===== src/Pool.antt =====
-- include/ringio/detail/buffer_pool.hpp: the pool of page-locked buffers.
pub mod Pack
pub mod FreeList
pub mod Threads
pub mod Ordered
pub mod Safety
pub mod Solo
pub mod Storage
pub mod Register
mod Tests
