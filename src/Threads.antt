-- ===== src/Threads.antt =====
-- The shared thread pools, commlib/thread_pool.py, and their use by commlib/rpc.py.
pub mod Manager
pub mod Shared
pub mod Tests
