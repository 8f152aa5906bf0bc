-- ===== src/Mock.antt =====
-- The in-memory bus of commlib/transports/mock.py.
pub mod Bus
pub mod Delivery
pub mod Tests
