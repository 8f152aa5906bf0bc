-- ===== src/Node.antt =====
-- Nodes, commlib/node.py, and their endpoints, commlib/endpoints.py.
pub mod Endpoint
pub mod State
pub mod Stops
pub mod Runs
pub mod Restarts
pub mod Tests
