-- ===== src/Amqp.antt =====
-- The AMQP transport, RPC and tasks over it, commlib/transports/amqp.py.
pub mod Client
pub mod Answers
pub mod Service
pub mod Serving
pub mod Transport
pub mod Releases
pub mod Consumer
pub mod Subscriber
pub mod Tests
pub mod TransportTests
