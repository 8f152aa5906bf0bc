-- ===== src/Connections.antt =====
-- The shared connections: commlib/transports/amqp.py and commlib/transports/redis.py.
pub mod Amqp
pub mod Redis
pub mod Holders
pub mod Replaced
pub mod Pools
pub mod Tests
