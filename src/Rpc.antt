-- ===== src/Rpc.antt =====
-- Remote procedure calls, commlib/rpc.py: the parts that all transports share.
pub mod Messages
pub mod Comm
pub mod Server
pub mod Routing
pub mod Tests
