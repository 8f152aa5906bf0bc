-- ===== src/Kafka.antt =====
-- The Kafka transport, commlib/transports/kafka.py, RPC and tasks over it.
pub mod Client
pub mod Replies
pub mod Transport
pub mod Stops
pub mod Kept
pub mod Loops
pub mod Tasks
pub mod Pubsub
pub mod Tests
pub mod TransportTests
