-- ===== src/Mqtt.antt =====
-- The MQTT transport, commlib/transports/mqtt.py, and RPC over it.
pub mod Transport
pub mod Session
pub mod Heard
pub mod Rpc
pub mod Calls
pub mod Answers
pub mod Stale
pub mod Start
pub mod Dropped
pub mod Pubsub
pub mod Delivery
pub mod Tasks
pub mod Tests
pub mod TaskTests
