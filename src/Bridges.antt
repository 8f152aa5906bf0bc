-- ===== src/Bridges.antt =====
-- The bridges between brokers, commlib/bridges.py, and the aggregation of topics, commlib/aggregation.py.
pub mod Bridge
pub mod Topics
pub mod Processors
pub mod Tests
