-- ===== src/Redis.antt =====
-- The Redis transport, commlib/transports/redis.py, and RPC over its queues.
pub mod Transport
pub mod Reconnect
pub mod Sharing
pub mod Queues
pub mod Pushes
pub mod Pubsub
pub mod Publish
pub mod Subscribers
pub mod Delivery
pub mod Resubscribe
pub mod Rpc
pub mod Calls
pub mod Tasks
pub mod Polling
pub mod Tests
pub mod PubsubTests
pub mod PollingTests
pub mod DeliveryTests
